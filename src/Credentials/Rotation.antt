-- ===== src/Credentials/Rotation.antt =====
-- src/credential_refresh.rs, `RefreshCoordinator`: the calls that renew a credential. A call of the
-- strategy under the account's gate is one step; a gate is not forgotten while a call waits at it.
use kinetix.Base.{
  ℕ, max, Bool, true, false, Option, none, some, String, List, ◌&&◌, ◌||◌, not, ltb, ◌==◌,
  if◌then◌else◌, str_eq, wrapping_add, Result, ok, err,
}
use kinetix.Base.Keyed.{lookup, insert, remove}
use kinetix.Credentials.{
  ResolvedCredential, CredentialRotationError, invalid_credential, CredentialStrategy,
  CredentialKey, credential_key_eq, LeaseSchedule, schedule_from_credential,
}
use kinetix.Credentials.Coordinator.{
  Schedules, Answer, RotationGate, RefreshCoordinator, same_timing, same_secret, note_failure, gate,
  observe_refreshed, observe_successful_rotation, resolved,
}

-- A call behind the gate: its answer, the strategy's state and the schedules.
abbrev pub Called : Type 0 → Type 0
Called S = Answer × S × Schedules

-- The answer of the call that passed the gate while this one waited.
unfoldable pub shared_answer : RotationGate → ℕ → Option Answer
shared_answer g observed_generation =
    if g.generation == observed_generation then none else g.last_auth_result

unfoldable pub same_lease : LeaseSchedule → LeaseSchedule → Bool
same_lease stored current = same_timing stored current && same_secret stored current

module _ (parse_dt : String → Option ℕ) (digest : String → String) where
  module _ {S : Type 0} (strategy : CredentialStrategy S) (key : CredentialKey) where
    unfoldable pub resolve :
        Schedules → S → ℕ → Result {0, 0} CredentialRotationError ResolvedCredential × S × Schedules
    resolve schedules s now =
        let (answer, s') = strategy.resolve s in
        (answer, s', resolved parse_dt digest schedules key now answer)

    -- `match strategy.resolve(account)` after a rotation.
    unfoldable pub after_rotation :
        Schedules → ℕ → ℕ → Result {0, 0} CredentialRotationError ResolvedCredential × S → Called S
    after_rotation schedules at clock (ok current, s) =
        (ok true, s, observe_successful_rotation parse_dt digest schedules key current at)
    after_rotation schedules at clock (err error, s) =
        (err error, s, note_failure schedules key error clock)

    -- `match strategy.rotate(account)`: `at` is the time that a success is observed at.
    unfoldable pub rotated :
        Schedules → ℕ → ℕ → Result {0, 0} CredentialRotationError Unit × S → Called S
    rotated schedules at clock (ok done, s) = after_rotation schedules at clock (strategy.resolve s)
    rotated schedules at clock (err error, s) =
        (err error, s, note_failure schedules key error clock)

    unfoldable pub auth_rotation :
        Schedules
        → String
        → ℕ
        → Result {0, 0} CredentialRotationError ResolvedCredential × S
        → Called S
    auth_rotation schedules failed_secret clock (ok current, s) =
        if str_eq current.secret failed_secret
        then rotated schedules clock clock (strategy.rotate s)
        else (ok true, s, observe_successful_rotation parse_dt digest schedules key current clock)
    auth_rotation schedules failed_secret clock (err error, s) =
        if invalid_credential error
        then (err error, s, schedules)
        else rotated schedules clock clock (strategy.rotate s)

    unfoldable pub enter_gate :
        RefreshCoordinator
        → RotationGate
        → Called S
        → Option Answer
        → S
        → Answer × S × RefreshCoordinator
    enter_gate c g call (some answer) s = (answer, s, c)
    enter_gate c g (answer, s', schedules) none s = (
      answer,
      s',
      record {
        schedules = schedules;
        gates =
            insert key
              (record { generation = wrapping_add g.generation 1; last_auth_result = some answer })
              c.gates;
      },
    )

    -- `observed_generation` was read before the call waited.
    unfoldable pub rotate_after_auth_error :
        RefreshCoordinator → ℕ → String → S → ℕ → Answer × S × RefreshCoordinator
    rotate_after_auth_error c observed_generation failed_secret s clock =
        let g = gate c key in
        let call = auth_rotation c.schedules failed_secret clock (strategy.resolve s) in
        enter_gate c g call (shared_answer g observed_generation) s

    -- After a rotation that succeeded, what callers shared before is void.
    unfoldable pub cleared_gates : RefreshCoordinator → Answer → List (CredentialKey × RotationGate)
    cleared_gates c (err error) = c.gates
    cleared_gates c (ok done) =
        insert key
          (record { generation = wrapping_add (gate c key).generation 1; last_auth_result = none })
          c.gates

    unfoldable pub scheduled :
        RefreshCoordinator
        → ℕ
        → ℕ
        → ResolvedCredential
        → S
        → Option LeaseSchedule
        → Option LeaseSchedule
        → Answer × S × RefreshCoordinator
    scheduled c now clock current s none stored =
        (ok false, s, record c { schedules = remove key c.schedules })
    scheduled c now clock current s (some new) none = (
      ok false,
      s,
      record c { schedules = observe_refreshed parse_dt digest c.schedules key current clock },
    )
    scheduled c now clock current s (some new) (some stored) =
        if current.rotated || not (same_lease stored new)
        then (
          ok false,
          s,
          record c {
            schedules =
                observe_successful_rotation parse_dt digest c.schedules key current (max clock now);
          },
        )
        else if ltb now stored.next_attempt_at
        then (ok false, s, c)
        else let (answer, s', schedules) =
            rotated c.schedules (max clock now) clock (strategy.rotate s) in
          (answer, s', record { schedules = schedules; gates = cleared_gates c answer })

    unfoldable pub scheduled_rotation :
        RefreshCoordinator
        → ℕ
        → ℕ
        → Result {0, 0} CredentialRotationError ResolvedCredential × S
        → Answer × S × RefreshCoordinator
    scheduled_rotation c now clock (ok current, s) =
        scheduled c now clock current s (schedule_from_credential parse_dt digest current now)
          (lookup key c.schedules)
    scheduled_rotation c now clock (err error, s) =
        (err error, s, record c { schedules = note_failure c.schedules key error clock })

    unfoldable pub rotate_scheduled_at :
        RefreshCoordinator → S → ℕ → ℕ → Answer × S × RefreshCoordinator
    rotate_scheduled_at c s now clock = scheduled_rotation c now clock (strategy.resolve s)
