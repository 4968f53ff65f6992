-- ===== src/Circuit/Attempts.antt =====
-- src/provider_circuit.rs, `impl ProviderAttempt`: how an admitted attempt ends. Each method takes
-- the attempt (its atomics are fields) and the circuit behind its `Arc`, and returns both.
use kinetix.Base.{
  ℕ, Bool, true, false, ◌&&◌, ◌||◌, not, Option, none, some, List, [], ◌∷◌, ◌++◌, map, leb, ◌==◌,
  if◌then◌else◌, is_some_and, length, saturating_add, wrapping_add,
}
use kinetix.Types.{FailureKind, server_error, connection_error, timeout}
use kinetix.Circuit.{
  Circuit, Attempt, Transition, FailureEvidence, closed, CorrelationPolicy, distinct_accounts,
  accountless_targets, no_transition, is_closed, is_half_open, purge_old, count_distinct,
  open_circuit, release_probe_slot, reopen_abandoned_probe,
}

abbrev gateway_status : ℕ → Bool
gateway_status s = s == 502 || (s == 503 || s == 504)

unfoldable pub qualifies : FailureKind → Option ℕ → Bool
qualifies connection_error status = true
qualifies timeout status = true
qualifies server_error status = is_some_and status gateway_status
qualifies _ status = false

abbrev pub probe_only : Attempt → Transition
probe_only a = record { opened = false; recovered = false; half_open_probe = a.half_open_probe }

-- The circuit after a recovering probe: closed, with the evidence gone.
abbrev pub recover : Circuit → ℕ → Circuit
recover c now = record c {
  half_open_inflight = 0;
  state = closed;
  opened_at = none;
  retry_at = none;
  failures = [];
  last_successful_probe = some now;
  recoveries = saturating_add c.recoveries 1;
}

unfoldable pub mark_validated_success : Attempt → Circuit → ℕ → Attempt × Circuit × Transition
mark_validated_success a c now =
    if not a.half_open_probe || (a.finished || a.validated_success)
    then (a, c, no_transition)
    else (let recovered = c.generation == a.generation && is_half_open c.state in
        (
          record a { validated_success = true },
          if recovered then recover c now else c,
          record { opened = false; recovered = recovered; half_open_probe = true },
        ))

unfoldable pub finish_success : Attempt → Circuit → ℕ → Attempt × Circuit × Transition
finish_success a c now =
    if a.finished
    then (a, c, no_transition)
    else (let a' = record a { finished = true } in
        if a.half_open_probe && a.validated_success
        then (a', c, record { opened = false; recovered = false; half_open_probe = true })
        else if c.generation == a.generation && (a.half_open_probe && is_half_open c.state)
        then (
          a',
          recover c now,
          record { opened = false; recovered = true; half_open_probe = a.half_open_probe },
        )
        else if c.generation == a.generation && (not a.half_open_probe && is_closed c.state)
        then (a', record c { failures = [] }, probe_only a)
        else (a', c, probe_only a))

-- `while failures.len() > MAX_RECENT_FAILURES { failures.pop_front(); }`
unfoldable pub trim_front : List FailureEvidence → List FailureEvidence
trim_front [] = []
trim_front (f ∷ fs) = if leb (length (f ∷ fs)) 128 then f ∷ fs else trim_front fs

abbrev pub owns_state : Attempt → Circuit → Bool
owns_state a c =
    c.generation == a.generation
    && (if a.half_open_probe
        then is_half_open c.state || (a.validated_success && is_closed c.state)
        else is_closed c.state)

-- The evidence of the failure, appended to what is left of the correlation window.
unfoldable pub record_evidence : Attempt → Circuit → ℕ → Circuit
unfolding trim_front purge_old
record_evidence a c now =
    let c' = purge_old c now in
    record c' {
      failures = trim_front (
          c'.failures
          ++ record { at = now; account_id = a.account_id; target_id = a.target_id } ∷ []);
    }

unfoldable pub is_correlated : CorrelationPolicy → List FailureEvidence → Bool
unfolding count_distinct
is_correlated distinct_accounts fs = leb 2 (count_distinct (map (λ f. f.account_id) fs))
is_correlated accountless_targets fs = leb 2 (count_distinct (map (λ f. f.target_id) fs))

-- Open, and start a new generation if that is a change.
unfoldable pub trip : Circuit → ℕ → Circuit × Bool
unfolding open_circuit
trip c now =
    let (c', changed) = open_circuit c now in
    (if changed then record c' { generation = wrapping_add c'.generation 1 } else c', changed)

unfoldable pub finish_failure :
    Attempt → Circuit → FailureKind → Option ℕ → ℕ → Attempt × Circuit × Transition
unfolding trip release_probe_slot
finish_failure a c kind status now =
    if a.finished
    then (a, c, no_transition)
    else (let a' = record a { finished = true } in
        if not (owns_state a c)
        then (a', c, probe_only a)
        else if not (qualifies kind status)
        then (
          a',
          if a.half_open_probe then (release_probe_slot c a.generation).0 else c,
          probe_only a,
        )
        else (let c' = record_evidence a c now in
            let trips =
              a.half_open_probe && not a.validated_success
              || is_correlated a.correlation_policy c'.failures in
            let (c'', opened) = trip c' now in
            (
              a',
              if trips then c'' else c',
              record {
                opened = trips && opened;
                recovered = false;
                half_open_probe = a.half_open_probe;
              },
            )))

unfoldable pub finish_neutral : Attempt → Circuit → ℕ → Attempt × Circuit × Transition
unfolding reopen_abandoned_probe
finish_neutral a c now = if a.finished then (a, c, no_transition) else (
  record a { finished = true },
  if a.half_open_probe then reopen_abandoned_probe c a.generation now else c,
  probe_only a,
)

-- `Drop for ProviderAttempt`
unfoldable pub drop_attempt : Attempt → Circuit → ℕ → Attempt × Circuit
unfolding reopen_abandoned_probe
drop_attempt a c now = if a.finished then (a, c) else (
  record a { finished = true },
  if a.half_open_probe then reopen_abandoned_probe c a.generation now else c,
)
