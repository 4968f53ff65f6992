-- ===== src/Credentials/Tests.antt =====
-- Runs of src/credential_refresh.rs at concrete inputs.
use kinetix.Base.{
  err, ℕ, ◌+◌, ◌≡◌, ◌≢◌, refl, arith, true, false, Option, none, some, String, List, [], ◌∷◌, leb,
  if◌then◌else◌, str_eq, seconds, ok,
}
use kinetix.Base.Keyed.{contains, insert, lookup}
use kinetix.Credentials.{
  ResolvedCredential, CredentialRotationError, CredentialStrategy, CredentialKey, credential_key_eq,
  schedule_from_credential, requested, exponential_backoff_secs, lease_identity_of, parse_time,
  same_key,
}
use kinetix.Credentials.Coordinator.{
  Schedules, RefreshCoordinator, claim_due, observe, store_schedule, place, carried, floored,
  record_failure, failed, fresh, gate,
}
use kinetix.Credentials.Rotation.{
  rotate_after_auth_error, rotate_scheduled_at, auth_rotation, rotated, after_rotation, enter_gate,
  shared_answer,
}
use kinetix.Credentials.Waiting.{failure_waits, used}
use kinetix.Credentials.Flight.{Turn, waiter, request, claims, turns, copies, single_flight}
use kinetix.Credentials.Renewed.{renewed_once}

abbrev parse_sample : String → Option ℕ
parse_sample text = if str_eq text "12:00" then some 43200000000000 else none

abbrev same_text : String → String
same_text secret = secret

abbrev lease : ResolvedCredential
lease = record { secret = "s0"; expires_at = none; refresh_after = some "12:00"; rotated = false }

abbrev account : CredentialKey
account = record { provider_id = "p1"; account_id = "a1" }

abbrev noon : ℕ
noon = 43200000000000

abbrev stored : Schedules
stored = observe parse_sample same_text [] account lease noon

-- A strategy that counts its rotations, and names the secret after them.
abbrev rotating : CredentialStrategy ℕ
rotating = record {
  resolve = λ n. (ok (if leb 1 n then record lease { secret = "s1" } else lease), n);
  rotate = λ n. (ok tt, n + 1);
}

abbrev coordinator : RefreshCoordinator
coordinator = record { schedules = stored; gates = [] }

abbrev busy : CredentialRotationError
busy = record { code = "busy"; message = "try later"; retryable = true; retry_after_secs = none }

abbrev turns_after : List (Turn parse_sample same_text rotating account)
turns_after =
    waiter "s0" (noon + 1) ∷ request (noon + 1) ∷ claims (noon + 2) ∷ waiter "s1" (noon + 2) ∷ []

failure_waits_example :
    contains
      (claim_due
        (used parse_sample same_text
          (record_failure stored account busy noon)
          account
          ((ok lease, noon + 1) ∷ (err busy, noon + 2) ∷ []))
        (noon + seconds 4)).0
      account
    ≡ false
unfolding observe store_schedule place carried floored schedule_from_credential requested
    lease_identity_of parse_time failed fresh exponential_backoff_secs insert lookup same_key
failure_waits_example =
    failure_waits parse_sample same_text stored account busy noon
      ((ok lease, noon + 1) ∷ (err busy, noon + 2) ∷ []) (noon + seconds 4) (refl, tt)
      (refl, (refl, tt)) (omega arith)

single_flight_example :
    let first =
      rotate_after_auth_error parse_sample same_text rotating account coordinator 0 "s0" 0 noon in
    turns parse_sample same_text rotating account coordinator 0 (waiter "s0" noon ∷ turns_after) 0
    ≡ (
      first.0 ∷ copies parse_sample same_text rotating account first.0 turns_after,
      (turns parse_sample same_text rotating account first.2 0
          (request (noon + 1) ∷ claims (noon + 2) ∷ [])
          first.1).1,
      (turns parse_sample same_text rotating account first.2 0
          (request (noon + 1) ∷ claims (noon + 2) ∷ [])
          first.1).2,
    )
unfolding gate lookup
single_flight_example =
    single_flight parse_sample same_text rotating account coordinator 0 "s0" 0 noon turns_after refl

renewed_once_example :
    ((rotate_scheduled_at parse_sample same_text rotating account
        (rotate_after_auth_error parse_sample same_text rotating account coordinator 0 "s0" 0
          noon).2
        1
        noon
        (noon + 5)).0
      ≢ ok true)
    × ((rotate_scheduled_at parse_sample same_text rotating account
          (rotate_after_auth_error parse_sample same_text rotating account coordinator 0 "s0" 0
            noon).2
          1
          noon
          (noon + 5)).1
        ≡ 1)
unfolding gate rotate_after_auth_error auth_rotation rotated after_rotation enter_gate shared_answer
    lookup
renewed_once_example =
    renewed_once parse_sample same_text rotating account coordinator 0 "s0" 0 noon noon (noon + 5)
      refl (omega arith) refl
