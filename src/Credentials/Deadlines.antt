-- ===== src/Credentials/Deadlines.antt =====
-- src/credential_refresh.rs: when a lease is renewed after it was renewed, and what a schedule keeps
-- of an earlier failure.
use kinetix.Base.{
  ℕ, zero, suc, ◌+◌, ◌-◌, ◌*◌, ◌^◌, ◌≤◌, ◌<◌, ◌≡◌, refl, arith, min, Bool, true, false, Option,
  none, some, String, leb, is_some_and,
}
use native.Mathlib.Nat.{pow-le-pow_right}
use kinetix.Base.Keyed.{lookup, lookup-insert, lookup-remove}
use kinetix.Credentials.{
  ResolvedCredential, CredentialKey, credential_key_eq, same_key, same_key_iff, LeaseSchedule,
  max_retry_secs, min_retry_secs, exponential_backoff_secs, schedule_from_credential,
}
use kinetix.Credentials.Coordinator.{
  Schedules, apply_minimum_retry_floor, carry, carried, floored, place, store_schedule,
  observe_successful_rotation,
}

pub same_key_refl : (k : CredentialKey) → same_key k k ≡ true
same_key_refl k = (same_key_iff k k).1 refl

apply_minimum_retry_floor_later :
    (s : LeaseSchedule) (now floor : ℕ)
    → now < floor
    → now < (apply_minimum_retry_floor s now floor).next_attempt_at
unfolding apply_minimum_retry_floor
apply_minimum_retry_floor_later s now floor h = ground (arith, h)

apply_minimum_retry_floor_le :
    (s : LeaseSchedule) (now floor : ℕ)
    → s.next_attempt_at ≤ (apply_minimum_retry_floor s now floor).next_attempt_at
unfolding apply_minimum_retry_floor
apply_minimum_retry_floor_le s now floor = ground arith

failures-apply_minimum_retry_floor :
    (s : LeaseSchedule) (now floor : ℕ)
    → (apply_minimum_retry_floor s now floor).failures ≡ s.failures
unfolding apply_minimum_retry_floor
failures-apply_minimum_retry_floor s now floor = ground arith

pow_ge : (n : ℕ) → 64 ≤ 2 ^ suc (suc (suc (suc (suc (suc n)))))
pow_ge n = pow-le-pow_right {n = 2} (omega arith) {i = 6} (omega arith)

-- The wait doubles with every failure in a row, from five seconds up to five minutes.
pub exponential_backoff_secs-doubles :
    (n : ℕ) → exponential_backoff_secs (n + 1) ≡ min (min_retry_secs * 2 ^ n) max_retry_secs
unfolding exponential_backoff_secs
exponential_backoff_secs-doubles zero = refl
exponential_backoff_secs-doubles (suc zero) = refl
exponential_backoff_secs-doubles (suc (suc zero)) = refl
exponential_backoff_secs-doubles (suc (suc (suc zero))) = refl
exponential_backoff_secs-doubles (suc (suc (suc (suc zero)))) = refl
exponential_backoff_secs-doubles (suc (suc (suc (suc (suc zero))))) = refl
exponential_backoff_secs-doubles (suc (suc (suc (suc (suc (suc n)))))) =
    let e : min (suc (suc (suc (suc (suc (suc n))))) + 1 - 1) 6 ≡ 6 = omega arith in
    rw e (omega (arith, pow_ge n))

pub floored_le :
    (x : LeaseSchedule × Bool) (now : ℕ)
    → x.0.next_attempt_at ≤ (floored x now none).next_attempt_at
unfolding floored
floored_le (s, true) now = apply_minimum_retry_floor_le s now _
floored_le (s, false) now = omega arith

pub failures-floored :
    (x : LeaseSchedule × Bool) (now : ℕ) → (floored x now none).failures ≡ x.0.failures
unfolding floored
failures-floored (s, true) now = failures-apply_minimum_retry_floor s now _
failures-floored (s, false) now = refl

pub carry-failing :
    (old new : LeaseSchedule)
    → 0 < old.failures
    → (old.next_attempt_at ≤ (carry false old new).0.next_attempt_at)
      × ((carry false old new).0.failures ≡ old.failures)
unfolding carry
carry-failing old new h = ground (arith, h)

module _ (parse_dt : String → Option ℕ) (digest : String → String) where
  place-later :
      (s : Schedules) (k : CredentialKey) (new : Option LeaseSchedule) (now floor : ℕ)
      → now < floor
      → is_some_and
          (lookup k (place s k new true now (some floor)))
          (λ x. leb x.next_attempt_at now)
        ≡ false
  unfolding place floored
  place-later s k none now floor h = rw (lookup-remove k k s, same_key_refl k) refl
  place-later s k (some new) now floor h =
      let x = (carried true (lookup k s) new).0 in
      rw (lookup-insert k k (apply_minimum_retry_floor x now floor) s, same_key_refl k)
        (ground (arith, apply_minimum_retry_floor_later x now floor h))

  -- A lease that has just been renewed is not due at that time, however short it is.
  pub renewed-later :
      (s : Schedules) (k : CredentialKey) (credential : ResolvedCredential) (now : ℕ)
      → is_some_and
          (lookup k (observe_successful_rotation parse_dt digest s k credential now))
          (λ x. leb x.next_attempt_at now)
        ≡ false
  unfolding observe_successful_rotation store_schedule
  renewed-later s k credential now =
      place-later s k (schedule_from_credential parse_dt digest credential now) now _ (omega arith)
