-- ===== src/Circuit/Policy.antt =====
-- When a circuit opens, when it lets a probe through, and how a probe ends.
use kinetix.Base.{
  map, str_eq, leb, ◌==◌, List, ◌∷◌, ℕ, ◌+◌, ◌≤◌, ◌<◌, ◌≡◌, refl, ◌≢◌, Bool, true, false, ◌&&◌,
  ◌||◌, not, Option, none, some, [], String, Result, ok, err, seconds, saturating_add, wrapping_add,
  arith,
}
use kinetix.Types.{FailureKind, server_error, connection_error, timeout}
use kinetix.Circuit.{
  State, FailureEvidence, distinct_accounts, accountless_targets, Circuit, Attempt, closed,
  circuit_open, half_open, CorrelationPolicy, Reject, begin_attempt_with_policy, purge_old, admit,
  lease_probe,
}
use kinetix.Circuit.Attempts.{
  mark_validated_success, finish_success, finish_failure, finish_neutral, drop_attempt, qualifies,
  is_correlated, record_evidence, owns_state,
}
use kinetix.Circuit.System.{Op, fails, marks, succeeds, neutral, drops, run_op}

record_evidence_keeps :
    (a : Attempt) (c : Circuit) (now : ℕ)
    → let c' = record_evidence a c now in
      (c'.state ≡ c.state)
      × (c'.generation ≡ c.generation)
      × (c'.half_open_inflight ≡ c.half_open_inflight)
      × (c'.opens ≡ c.opens)
unfolding record_evidence
record_evidence_keeps a c now = ground arith

-- Whose attempts decide about a circuit of their generation: ordinary ones about a closed circuit,
-- probes about a half-open one, and a probe that has been validated also about the circuit it closed.
unfoldable pub decides : Bool → Bool → State → Bool
decides false validated closed = true
decides true validated half_open = true
decides true true closed = true
decides _ _ _ = false

-- A failure that is the provider's own: the connection, a timeout, or a status from 502 to 504.
unfoldable pub is_provider_wide : FailureKind → Option ℕ → Bool
is_provider_wide connection_error status = true
is_provider_wide timeout status = true
is_provider_wide server_error (some status) = leb 502 status && leb status 504
is_provider_wide _ _ = false

-- Not all the texts are the same: somewhere one differs from the next.
unfoldable pub is_mixed : List String → Bool
is_mixed [] = false
is_mixed (x ∷ []) = false
is_mixed (x ∷ y ∷ xs) = not (str_eq x y) || is_mixed (y ∷ xs)

-- What the policy compares of the evidence: accounts, or targets where there are no accounts.
unfoldable pub sources : CorrelationPolicy → List FailureEvidence → List String
sources distinct_accounts fs = map (λ f. f.account_id) fs
sources accountless_targets fs = map (λ f. f.target_id) fs

-- What must hold for a failure to open the circuit.
abbrev pub must_open : Attempt → Circuit → FailureKind → Option ℕ → ℕ → Bool
must_open a c kind status now =
    not a.finished
    && (c.generation == a.generation
        && (decides a.half_open_probe a.validated_success c.state
            && (is_provider_wide kind status
                && (a.half_open_probe && not a.validated_success
                    || is_mixed
                        (sources a.correlation_policy (record_evidence a c now).failures)))))

pub finish_failure-opened :
    (a : Attempt) (c : Circuit) (kind : FailureKind) (status : Option ℕ) (now : ℕ)
    → let (a', c', t) = finish_failure a c kind status now in
      (t.opened ≡ (
        not a.finished
        && (owns_state a c
            && (qualifies kind status
                && (a.half_open_probe && not a.validated_success
                    || is_correlated a.correlation_policy (record_evidence a c now).failures)))))
      × (t.opened ≡ true → (c'.state ≡ circuit_open) × (c'.retry_at ≡ some (now + seconds 30)))
unfolding finish_failure
finish_failure-opened a c kind status now = ground (arith, record_evidence_keeps a c now)

-- An attempt of an earlier generation cannot touch the circuit, whatever it reports: it can neither
-- close a circuit that opened after its admission nor add evidence to it.
pub stale_harmless :
    (op : Op) (a : Attempt) (c : Circuit) (now : ℕ)
    → a.generation < c.generation
    → (run_op op a c now).1 ≡ c
unfolding run_op mark_validated_success finish_success finish_failure finish_neutral drop_attempt
stale_harmless marks a c now h = ground arith
stale_harmless succeeds a c now h = ground arith
stale_harmless neutral a c now h = ground arith
stale_harmless drops a c now h = ground arith
stale_harmless (fails kind status) a c now h = ground arith

-- A finished attempt changes nothing, and each way to finish finishes it.
pub finish_once :
    (op : Op) (a : Attempt) (c : Circuit) (now : ℕ)
    → (a.finished ≡ true → run_op op a c now ≡ (a, c))
      × (op ≢ marks → (run_op op a c now).0.finished ≡ true)
unfolding run_op mark_validated_success finish_success finish_failure finish_neutral drop_attempt
finish_once marks a c now = (λ h. ground arith, λ n. absurd (n refl))
finish_once succeeds a c now = (λ h. ground arith, λ n. ground arith)
finish_once neutral a c now = (λ h. ground arith, λ n. ground arith)
finish_once drops a c now = (λ h. ground arith, λ n. ground arith)
finish_once (fails kind status) a c now = (λ h. ground arith, λ n. ground arith)

abbrev pub is_refused : Result Reject Attempt → Bool
is_refused (ok a) = false
is_refused (err r) = true

abbrev pub is_probe : Result Reject Attempt → Bool
is_probe (ok a) = a.half_open_probe
is_probe (err r) = false

-- An open circuit refuses every attempt before its retry time; from then on the next attempt is
-- admitted as a probe, which takes the lease of the half-open circuit.
pub open_until_retry :
    (c : Circuit) (p x y : String) (policy : CorrelationPolicy) (now t : ℕ)
    → c.state ≡ circuit_open
    → c.retry_at ≡ some t
    → let (c', r) = begin_attempt_with_policy c p x y policy now in
      (now < t → (is_refused r ≡ true) × (c'.state ≡ circuit_open) × (c'.retry_at ≡ some t))
      × (t ≤ now → (is_probe r ≡ true) × (c'.state ≡ half_open) × (c'.half_open_inflight ≡ 1))
unfolding begin_attempt_with_policy
open_until_retry c p x y policy now t st r = ground arith

module _ (c : Circuit) (p x y : String) (policy : CorrelationPolicy) (now later : ℕ) where
  abbrev pub leased : Circuit
  leased = lease_probe (purge_old c now)

  abbrev pub probe : Attempt
  probe = admit (purge_old c now) x y policy true

  -- An open circuit whose retry time has come admits a probe. If the probe succeeds, the circuit is
  -- closed without evidence and without a retry time, and the recovery is reported and counted. If
  -- it is abandoned (dropped, or ended as neutral) the circuit is open again for a second, in the
  -- same generation. If it fails for a reason that is not provider-wide the lease is given back, and
  -- the circuit stays half-open. If it fails with a provider-wide failure the circuit is open for 30
  -- seconds, in the next generation.
  pub probe_outcomes :
      (t : ℕ) (kind : FailureKind) (status : Option ℕ)
      → c.state ≡ circuit_open
      → c.retry_at ≡ some t
      → t ≤ now
      → (begin_attempt_with_policy c p x y policy now ≡ (leased, ok probe))
        × (let (a', c', tr) = finish_success probe leased later in
            (c'.state ≡ closed)
            × (c'.failures ≡ [])
            × (c'.retry_at ≡ none)
            × (c'.recoveries ≡ saturating_add c.recoveries 1)
            × (tr.recovered ≡ true))
        × (let (a', c') = drop_attempt probe leased later in
            (c'.state ≡ circuit_open)
            × (c'.retry_at ≡ some (later + seconds 1))
            × (c'.half_open_inflight ≡ 0)
            × (c'.generation ≡ c.generation))
        × ((finish_neutral probe leased later).1 ≡ (drop_attempt probe leased later).1)
        × (let (a', c', tr) = finish_failure probe leased kind status later in
            (qualifies kind status ≡ false
              → (c'.state ≡ half_open) × (c'.half_open_inflight ≡ 0) × (tr.opened ≡ false))
            × (qualifies kind status ≡ true
                → (c'.state ≡ circuit_open)
                  × (c'.retry_at ≡ some (later + seconds 30))
                  × (c'.generation ≡ wrapping_add c.generation 1)
                  × (tr.opened ≡ true)))
  unfolding begin_attempt_with_policy finish_success drop_attempt finish_neutral finish_failure
  probe_outcomes t kind status st r h =
      let keeps = record_evidence_keeps probe leased later in
      (
        ground arith,
        ground arith,
        ground arith,
        ground arith,
        (λ q. ground (arith, keeps), λ q. ground (arith, keeps)),
      )
