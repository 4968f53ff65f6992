-- ===== src/Credentials/Coordinator.antt =====
-- src/credential_refresh.rs, `RefreshCoordinator`: its operations. `now` and
-- `clock` are times read from the clock.
use kinetix.Base.{
  ℕ, ◌+◌, min, max, Bool, true, false, Option, none, some, String, List, [], ◌∷◌, ◌&&◌, not, ltb,
  leb, ◌==◌, if◌then◌else◌, str_eq, seconds, is_some_and, unwrap_or, Result, ok, err,
}
use kinetix.Base.Keyed.{lookup, insert, remove}
use kinetix.Credentials.{
  ResolvedCredential, CredentialRotationError, invalid_credential, CredentialKey, credential_key_eq,
  u32_max, LeaseSchedule, claim_grace_secs, max_retry_secs, min_successful_refresh_interval_secs,
  exponential_backoff_secs, schedule_from_credential,
}

abbrev pub Schedules : Type 0
Schedules = List (CredentialKey × LeaseSchedule)

abbrev pub Answer : Type 0
Answer = Result CredentialRotationError Bool

pub record RotationGate : Type 0 where
  pub generation : ℕ
  pub last_auth_result : Option Answer

pub record RefreshCoordinator : Type 0 where
  pub schedules : Schedules
  pub gates : List (CredentialKey × RotationGate)

abbrev pub same_time : Option ℕ → Option ℕ → Bool
same_time none none = true
same_time (some a) (some b) = a == b
same_time none (some b) = false
same_time (some a) none = false

unfoldable pub same_timing : LeaseSchedule → LeaseSchedule → Bool
same_timing a b =
    same_time a.lease_identity.expires_at b.lease_identity.expires_at
    && same_time a.lease_identity.refresh_after b.lease_identity.refresh_after

unfoldable pub same_secret : LeaseSchedule → LeaseSchedule → Bool
same_secret a b = str_eq a.lease_identity.secret_fingerprint b.lease_identity.secret_fingerprint

unfoldable pub apply_minimum_retry_floor : LeaseSchedule → ℕ → ℕ → LeaseSchedule
apply_minimum_retry_floor s now floor =
    if ltb now s.next_attempt_at
    then s
    else let least =
        if is_some_and s.lease_identity.expires_at (λ e. ltb now e)
        then min floor (unwrap_or s.lease_identity.expires_at floor)
        else floor in
      record s { next_attempt_at = max s.next_attempt_at least }

-- What the new schedule keeps of the old one, and whether the lease is another.
unfoldable pub carry : Bool → LeaseSchedule → LeaseSchedule → LeaseSchedule × Bool
carry reset existing new =
    if same_timing existing new
    then (
      record new {
        next_attempt_at = existing.next_attempt_at;
        failures = if reset then new.failures else existing.failures;
        claim_until = if not reset && same_secret existing new then existing.claim_until else none;
      },
      not (same_secret existing new),
    )
    else (
      if not reset && ltb 0 existing.failures
          then record new {
            claim_until = none;
            failures = existing.failures;
            next_attempt_at = max new.next_attempt_at existing.next_attempt_at;
          }
          else record new { claim_until = none },
      true,
    )

unfoldable pub carried : Bool → Option LeaseSchedule → LeaseSchedule → LeaseSchedule × Bool
carried reset none new = (new, false)
carried reset (some existing) new = carry reset existing new

unfoldable pub floored : LeaseSchedule × Bool → ℕ → Option ℕ → LeaseSchedule
floored (s, changed) now none =
    if changed
    then apply_minimum_retry_floor s now (now + seconds min_successful_refresh_interval_secs)
    else s
floored (s, changed) now (some not_before) = apply_minimum_retry_floor s now not_before

unfoldable pub place :
    Schedules → CredentialKey → Option LeaseSchedule → Bool → ℕ → Option ℕ → Schedules
place schedules key none reset now not_before = remove key schedules
place schedules key (some new) reset now not_before =
    insert key (floored (carried reset (lookup key schedules) new) now not_before) schedules

-- The schedule of a lease that failed before any was stored.
unfoldable pub fresh : ℕ → LeaseSchedule
fresh now = record {
  next_attempt_at = now;
  failures = 0;
  lease_identity = record { expires_at = none; refresh_after = none; secret_fingerprint = "" };
  claim_until = none;
}

unfoldable pub failed : LeaseSchedule → CredentialRotationError → ℕ → LeaseSchedule
failed s error now =
    let failures = min (s.failures + 1) u32_max in
    let retry = unwrap_or error.retry_after_secs (exponential_backoff_secs failures) in
    record s {
      failures = failures;
      next_attempt_at = now + seconds (min retry max_retry_secs);
      claim_until = none;
    }

unfoldable pub record_failure : Schedules → CredentialKey → CredentialRotationError → ℕ → Schedules
record_failure schedules key error now =
    insert key (failed (unwrap_or (lookup key schedules) (fresh now)) error now) schedules

unfoldable pub note_failure : Schedules → CredentialKey → CredentialRotationError → ℕ → Schedules
note_failure schedules key error now =
    if invalid_credential error then schedules else record_failure schedules key error now

unfoldable pub is_due : LeaseSchedule → ℕ → Bool
is_due s now = leb s.next_attempt_at now && not (is_some_and s.claim_until (λ until. ltb now until))

unfoldable pub claimed : LeaseSchedule → ℕ → LeaseSchedule
claimed s now =
    if is_due s now then record s { claim_until = some (now + seconds claim_grace_secs) } else s

unfoldable pub claim_due : Schedules → ℕ → List CredentialKey × Schedules
claim_due [] now = ([], [])
claim_due ((key, s) ∷ rest) now =
    let (due, others) = claim_due rest now in
    (if is_due s now then key ∷ due else due, (key, claimed s now) ∷ others)

unfoldable pub forget : RefreshCoordinator → CredentialKey → RefreshCoordinator
forget c key = record { schedules = remove key c.schedules; gates = remove key c.gates }

unfoldable pub gate : RefreshCoordinator → CredentialKey → RotationGate
gate c key = unwrap_or (lookup key c.gates) (record { generation = 0; last_auth_result = none })

module _ (parse_dt : String → Option ℕ) (digest : String → String) where
  unfoldable pub store_schedule :
      Schedules → CredentialKey → ResolvedCredential → Bool → ℕ → Option ℕ → Schedules
  store_schedule schedules key credential reset now not_before =
      place schedules key (schedule_from_credential parse_dt digest credential now) reset now
        not_before

  unfoldable pub observe : Schedules → CredentialKey → ResolvedCredential → ℕ → Schedules
  observe schedules key credential now = store_schedule schedules key credential false now none

  unfoldable pub observe_refreshed : Schedules → CredentialKey → ResolvedCredential → ℕ → Schedules
  observe_refreshed schedules key credential now =
      store_schedule schedules key credential true now none

  unfoldable pub observe_successful_rotation :
      Schedules → CredentialKey → ResolvedCredential → ℕ → Schedules
  observe_successful_rotation schedules key credential now =
      store_schedule schedules key credential true now
        (some (now + seconds min_successful_refresh_interval_secs))

  unfoldable pub resolved :
      Schedules → CredentialKey → ℕ → Result CredentialRotationError ResolvedCredential → Schedules
  resolved schedules key now (err error) = schedules
  resolved schedules key now (ok current) =
      if current.rotated
      then observe_successful_rotation schedules key current now
      else observe schedules key current now
