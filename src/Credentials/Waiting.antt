-- ===== src/Credentials/Waiting.antt =====
-- src/credential_refresh.rs: how long a lease waits after a failure.
use kinetix.Base.{
  sym, subst, Bool, not, ◌&&◌, if◌then◌else◌, Result, ok, err, ℕ, ◌≤◌, ◌<◌, ◌≡◌, refl, ◌∙◌, arith,
  Bool, true, false, Option, none, some, String, List, [], ◌∷◌, unwrap_or, Option-cases, inl, inr,
  is_some, All,
}
use kinetix.Base.Keyed.{lookup, IsDistinct, contains, lookup-insert, insert-IsDistinct}
use kinetix.Credentials.{
  ResolvedCredential, CredentialRotationError, CredentialKey, credential_key_eq, LeaseSchedule,
  schedule_from_credential,
}
use kinetix.Credentials.Coordinator.{
  resolved, observe_successful_rotation, Schedules, carry, carried, floored, place, failed, fresh,
  record_failure, is_due, claim_due, store_schedule, observe,
}
use kinetix.Credentials.Claims.{contains-claim_due}
use kinetix.Credentials.Deadlines.{same_key_refl, floored_le, failures-floored, carry-failing}

-- The account has a schedule, after a failure, that waits until `at`.
record Waits (at : ℕ) (k : CredentialKey) (s : Schedules) : Type 0 where
  pub schedule : LeaseSchedule
  pub found : lookup k s ≡ some schedule
  pub late : at ≤ schedule.next_attempt_at
  pub failing : 0 < schedule.failures
  pub distinct : IsDistinct s

record_failure-Waits :
    (k : CredentialKey) (s : Schedules) (error : CredentialRotationError) (now : ℕ)
    → IsDistinct s
    → Waits
        (failed (unwrap_or (lookup k s) (fresh now)) error now).next_attempt_at
        k
        (record_failure s k error now)
unfolding record_failure failed
record_failure-Waits k s error now d = record {
  schedule = failed (unwrap_or (lookup k s) (fresh now)) error now;
  found = lookup-insert k k _ s ∙ rw (same_key_refl k) refl;
  late = omega arith;
  failing = omega arith;
  distinct = insert-IsDistinct k _ s d;
}

not_due :
    (at now : ℕ) (x : LeaseSchedule) → at ≤ x.next_attempt_at → now < at → is_due x now ≡ false
unfolding is_due
not_due at now x l h = ground (arith, l, h)

and_both : (a b : Bool) → (a && b) ≡ true → (a ≡ true) × (b ≡ true)
and_both a b h = ground (arith, h)

module _ (parse_dt : String → Option ℕ) (digest : String → String) where
  -- Uses of the credential: what the strategy answers, and when.
  abbrev pub Uses : Type 0
  Uses = List (Result CredentialRotationError ResolvedCredential × ℕ)

  -- The strategy fails, or gives a credential with a lease that it has not just renewed.
  abbrev pub leased : Result CredentialRotationError ResolvedCredential × ℕ → Bool
  leased (err error, now) = true
  leased (ok credential, now) =
      not credential.rotated && is_some (schedule_from_credential parse_dt digest credential now)

  unfoldable pub used : Schedules → CredentialKey → Uses → Schedules
  used s k [] = s
  used s k ((answer, now) ∷ uses) = used (resolved parse_dt digest s k now answer) k uses

  observe-Waits :
      (at : ℕ) (k : CredentialKey) (s : Schedules) (credential : ResolvedCredential) (now : ℕ)
      → is_some (schedule_from_credential parse_dt digest credential now) ≡ true
      → Waits at k s
      → Waits at k (observe parse_dt digest s k credential now)
  unfolding observe store_schedule place carried
  observe-Waits at k s credential now h w =
      elim (Option-cases (schedule_from_credential parse_dt digest credential now)) [
        | inl e ↦ absurd (ground (arith, h, e))
        | inr (new, e) ↦
            let x = carry false w.schedule new in
            let c = carry-failing w.schedule new w.failing in
            rw (e, w.found)
              record {
                schedule = floored x now none;
                found = lookup-insert k k _ s ∙ rw (same_key_refl k) refl;
                late = omega (arith, floored_le x now, c.0, w.late);
                failing = omega (arith, failures-floored x now, c.1, w.failing);
                distinct = insert-IsDistinct k _ s w.distinct;
              }
      ]

  resolved-Waits :
      (at : ℕ) (k : CredentialKey) (s : Schedules)
      (answer : Result CredentialRotationError ResolvedCredential) (now : ℕ)
      → leased (answer, now) ≡ true
      → Waits at k s
      → Waits at k (resolved parse_dt digest s k now answer)
  unfolding resolved
  resolved-Waits at k s (err error) now h w = w
  resolved-Waits at k s (ok credential) now h w =
      let (kept, lease) = and_both (not credential.rotated) _ h in
      let same : credential.rotated ≡ false = ground (arith, kept) in
      subst
        (λ b. Waits at k (
          if b
          then observe_successful_rotation parse_dt digest s k credential now
          else observe parse_dt digest s k credential now))
        (sym same) (observe-Waits at k s credential now lease w)

  used-Waits :
      (at : ℕ) (k : CredentialKey) (s : Schedules) (uses : Uses)
      → All (λ x. leased x ≡ true) uses
      → Waits at k s
      → Waits at k (used s k uses)
  unfolding used
  used-Waits at k s [] h w = w
  used-Waits at k s ((answer, now) ∷ uses) h w =
      used-Waits at k (resolved parse_dt digest s k now answer) uses h.1
        (resolved-Waits at k s answer now h.0 w)

  Waits-claim_due :
      (at now : ℕ) (k : CredentialKey) (s : Schedules)
      → Waits at k s
      → now < at
      → contains (claim_due s now).0 k ≡ false
  Waits-claim_due at now k s w h =
      contains-claim_due k s now w.distinct ∙ rw (w.found) (not_due at now w.schedule w.late h)

  -- After a failed renewal the account is not handed out again before the time that the failure set,
  -- however often its credential is used in between, if each use either fails or gives a credential
  -- that has a lease and that the strategy has not renewed for it.
  pub failure_waits :
      (s : Schedules) (k : CredentialKey) (error : CredentialRotationError) (now : ℕ) (uses : Uses)
      (later : ℕ)
      → IsDistinct s
      → All (λ x. leased x ≡ true) uses
      → later < (failed (unwrap_or (lookup k s) (fresh now)) error now).next_attempt_at
      → contains (claim_due (used (record_failure s k error now) k uses) later).0 k ≡ false
  failure_waits s k error now uses later d h =
      Waits-claim_due _ later k _ (used-Waits _ k _ uses h (record_failure-Waits k s error now d))
