-- ===== src/Credentials/Renewed.antt =====
-- src/credential_refresh.rs: a renewal that was handed out before another renewed the lease.
use kinetix.Base.{
  ℕ, ◌≤◌, ◌≡◌, ◌≢◌, refl, arith, ap, Bool, true, false, Option, none, some, String, leb, ltb, ◌==◌,
  not, ◌||◌, is_some_and, Result, ok, err, Bool-cases, inl, inr, ==_iff, str_eq,
}
use kinetix.Base.Keyed.{lookup}
use kinetix.Credentials.{
  CredentialStrategy, CredentialKey, credential_key_eq, ResolvedCredential, CredentialRotationError,
  LeaseSchedule, schedule_from_credential, invalid_credential,
}
use kinetix.Credentials.Coordinator.{RefreshCoordinator, gate, Schedules}
use kinetix.Credentials.Rotation.{
  Called, rotated, after_rotation, auth_rotation, shared_answer, enter_gate,
  rotate_after_auth_error, same_lease, scheduled, scheduled_rotation, rotate_scheduled_at,
}
use kinetix.Credentials.Deadlines.{renewed-later}

-- A renewal at `now` has nothing to do.
abbrev pub rests : CredentialKey → Schedules → ℕ → Bool
rests key schedules now = not (is_some_and (lookup key schedules) (λ x. leb x.next_attempt_at now))

module _ (parse_dt : String → Option ℕ) (digest : String → String) {S : Type 0}
    (strategy : CredentialStrategy S) (key : CredentialKey) where
  after_rotation-rests :
      (schedules : Schedules) (at clock : ℕ)
      (r : Result CredentialRotationError ResolvedCredential × S)
      → let (answer, s, schedules') =
          after_rotation parse_dt digest strategy key schedules at clock r in
        answer ≡ ok true → rests key schedules' at ≡ true
  unfolding after_rotation
  after_rotation-rests schedules at clock (ok current, s) h =
      ap not (renewed-later parse_dt digest schedules key current at)
  after_rotation-rests schedules at clock (err error, s) h = absurd (ground (arith, h))

  rotated-rests :
      (schedules : Schedules) (at clock : ℕ) (r : Result {0, 0} CredentialRotationError Unit × S)
      → let (answer, s, schedules') = rotated parse_dt digest strategy key schedules at clock r in
        answer ≡ ok true → rests key schedules' at ≡ true
  unfolding rotated
  rotated-rests schedules at clock (ok done, s) h =
      after_rotation-rests schedules at clock (strategy.resolve s) h
  rotated-rests schedules at clock (err error, s) h = absurd (ground (arith, h))

  auth_rotation-rests :
      (schedules : Schedules) (failed_secret : String) (clock : ℕ)
      (r : Result CredentialRotationError ResolvedCredential × S)
      → let (answer, s, schedules') =
          auth_rotation parse_dt digest strategy key schedules failed_secret clock r in
        answer ≡ ok true → rests key schedules' clock ≡ true
  unfolding auth_rotation
  auth_rotation-rests schedules failed_secret clock (ok current, s) h =
      elim (Bool-cases (str_eq current.secret failed_secret)) [
        | inl e ↦ rw e (rotated-rests schedules clock clock (strategy.rotate s) (rw e at h))
        | inr e ↦ rw e (ap not (renewed-later parse_dt digest schedules key current clock))
      ]
  auth_rotation-rests schedules failed_secret clock (err error, s) h =
      elim (Bool-cases (invalid_credential error)) [
        | inl e ↦ absurd (ground (arith, rw e at h))
        | inr e ↦ rw e (rotated-rests schedules clock clock (strategy.rotate s) (rw e at h))
      ]

  -- A scheduled renewal of a lease that rests only resolves its credential.
  scheduled-rests :
      (c : RefreshCoordinator) (now clock : ℕ) (current : ResolvedCredential) (s : S)
      (new stored : Option LeaseSchedule)
      → is_some_and stored (λ x. leb x.next_attempt_at now) ≡ false
      → let (answer, s', c') =
          scheduled parse_dt digest strategy key c now clock current s new stored in
        (answer ≡ ok false) × (s' ≡ s)
  unfolding scheduled
  scheduled-rests c now clock current s none stored h = (refl, refl)
  scheduled-rests c now clock current s (some new) none h = (refl, refl)
  scheduled-rests c now clock current s (some new) (some stored) h =
      let waits : ltb now stored.next_attempt_at ≡ true = ground (arith, h) in
      elim (Bool-cases (current.rotated || not (same_lease stored new))) [
        | inl e ↦ rw e (refl, refl)
        | inr e ↦ rw (e, waits) (refl, refl)
      ]

  scheduled_rotation-rests :
      (c : RefreshCoordinator) (now clock : ℕ)
      (r : Result CredentialRotationError ResolvedCredential × S)
      → rests key c.schedules now ≡ true
      → let (answer, s, c') = scheduled_rotation parse_dt digest strategy key c now clock r in
        (answer ≢ ok true) × (s ≡ r.1)
  unfolding scheduled_rotation
  scheduled_rotation-rests c now clock (ok current, s) h =
      let x =
        scheduled-rests c now clock current s (schedule_from_credential parse_dt digest current now)
          (lookup key c.schedules) (ground (arith, h)) in
      (λ e. absurd (ground (arith, x.0, e)), x.1)
  scheduled_rotation-rests c now clock (err error, s) h = (λ e. absurd (ground (arith, e)), refl)

  rests-earlier :
      (schedules : Schedules) (now at : ℕ)
      → now ≤ at
      → rests key schedules at ≡ true
      → rests key schedules now ≡ true
  rests-earlier schedules now at l h = ground (arith, l, h)

  enter_gate-rests :
      (c : RefreshCoordinator) (call : Called S) (s : S) (clock : ℕ)
      → (call.0 ≡ ok true → rests key call.2 clock ≡ true)
      → let (answer, s', c') = enter_gate parse_dt digest strategy key c (gate c key) call none s in
        answer ≡ ok true → rests key c'.schedules clock ≡ true
  unfolding enter_gate
  enter_gate-rests c (answer, s', schedules) s clock f h = f h

  rotate_after_auth_error-rests :
      (c : RefreshCoordinator) (observed : ℕ) (failed_secret : String) (s : S) (clock : ℕ)
      → (gate c key).generation ≡ observed
      → let (answer, s', c') =
          rotate_after_auth_error parse_dt digest strategy key c observed failed_secret s clock in
        answer ≡ ok true → rests key c'.schedules clock ≡ true
  unfolding rotate_after_auth_error shared_answer
  rotate_after_auth_error-rests c observed failed_secret s clock g =
      let same : ((gate c key).generation == observed) ≡ true = (==_iff _ _).1 g in
      let r = strategy.resolve s in
      rw same (
        enter_gate-rests c
          (auth_rotation parse_dt digest strategy key c.schedules failed_secret clock r) s clock
          (auth_rotation-rests c.schedules failed_secret clock r))

  -- After a caller whose credential was refused has renewed it, a scheduled renewal that was handed
  -- out before only resolves the credential: it does not rotate it again.
  pub renewed_once :
      (c : RefreshCoordinator) (observed : ℕ) (failed_secret : String) (s : S) (clock now later : ℕ)
      → (gate c key).generation ≡ observed
      → now ≤ clock
      → (rotate_after_auth_error parse_dt digest strategy key c observed failed_secret s clock).0
        ≡ ok true
      → let (renewed, s', c') =
          rotate_after_auth_error parse_dt digest strategy key c observed failed_secret s clock in
        let (answer, s'', c'') = rotate_scheduled_at parse_dt digest strategy key c' s' now later in
        (answer ≢ ok true) × (s'' ≡ (strategy.resolve s').1)
  unfolding rotate_scheduled_at
  renewed_once c observed failed_secret s clock now later g l h =
      let first =
        rotate_after_auth_error parse_dt digest strategy key c observed failed_secret s clock in
      scheduled_rotation-rests first.2 now later (strategy.resolve first.1) (
        rests-earlier first.2.schedules now clock l
          (rotate_after_auth_error-rests c observed failed_secret s clock g h))
