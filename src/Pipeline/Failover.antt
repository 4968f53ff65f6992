-- ===== src/Pipeline/Failover.antt =====
-- src/pipeline.rs, step 3 and 4 of `run`: the loop that tries the targets of a request until one gives
-- an answer. What the other parts of the gateway, the database, the clock and the provider answer in
-- one round is a `Visit`; the `n`-th round reads the `n`-th visit. Of the state only what decides the
-- course of the loop is kept, with the rows of the accounts that it writes; traces, telemetry and the
-- back-off sleep are left out. The loop takes fuel, and twice the number of targets is enough.
mod Gates
mod Effects
mod Rounds
pub mod Bounds
pub mod Cooling
mod Tests
unfoldable pub use Gates.*
use kinetix.Base.{
  ℕ, zero, suc, ◌+◌, ◌-◌, ◌/◌, min, max, Bool, true, false, ◌&&◌, ◌||◌, not, Option, none, some,
  is_some, unwrap_or, or_option, and_then, List, [], ◌∷◌, String, str_eq, contains_str, ltb, leb,
  if◌then◌else◌, Result, ok, err, seconds, any, length,
}
use kinetix.Types.{ProxyError, FailureKind, ErrorKind, auth_error, new, rate_limited_error}
use kinetix.Pool.{
  AccountRow, AccountStatus, cooldown, effective_status, soonest_recovery, touch_probe_at,
  clear_circuit, mark_rate_limited,
}
use kinetix.Pipeline.Policy.{
  UpstreamFailure, RoutePolicy, route_allows_fallback, attempts_limit, failure_to_error,
  preserve_anthropic_error, is_target_error, is_auth_error, handle_key_failure,
}

module _ (to_rfc3339 : ℕ → String) (parse_dt : String → Option ℕ) (route : Option RoutePolicy)
    (allow_fallback : Bool) where
  abbrev pub can_fallback : FailureKind → Bool
  can_fallback kind = allow_fallback && route_allows_fallback route kind

  -- The same end of every failed attempt: leave with the error, or go on.
  abbrev pub settle : Run → Target → UpstreamFailure → ProxyError → Bool → ℕ → Step
  settle r t f error skip_logical now =
      let r' =
        write_row r t.account.id (λ a. handle_key_failure to_rfc3339 a f t.quota_window now) in
      if can_fallback f.kind
      then next (record r' {
        last_error = some error;
        skip_logical_target =
            if skip_logical && is_target_error f.kind
            then t.route_target_id
            else r'.skip_logical_target;
      })
      else finished (failed error) r'

  -- `retry_after_secs.unwrap_or(if retryable { 5 } else { 30 }).min(3600)`
  abbrev pub refresh_cooldown : Option ℕ → Bool → ℕ
  refresh_cooldown retry_after retryable =
      min (unwrap_or retry_after (if retryable then 5 else 30)) 3600

  -- The renewal of a credential failed for now: the account cools down.
  abbrev pub refresh_failed : Run → Target → ℕ → ℕ → Step
  refresh_failed r t secs now =
      let error = all_unavailable (some secs) in
      let r' = write_row r t.account.id (λ a. mark_rate_limited to_rfc3339 a secs now) in
      if can_fallback auth_error
      then next (record r' { last_error = some error })
      else finished (failed error) r'

  -- The credential was renewed: the same target again, not counted as an attempt.
  abbrev pub retry_same : Run → Target → Step
  retry_same r t = next (record r {
    auth_retried_accounts = t.account.id ∷ r.auth_retried_accounts;
    attempts_done = r.attempts_done - 1;
    pending_targets = t ∷ r.pending_targets;
  })

  abbrev pub after_rotation : Run → Target → UpstreamFailure → ProxyError → Rotation → ℕ → Step
  after_rotation r t f error rotated now = retry_same r t
  after_rotation r t f error unchanged now = settle r t f error true now
  after_rotation r t f error invalid_credential now = settle r t f error true now
  after_rotation r t f error (refresh_error retry_after retryable) now =
      refresh_failed r t (refresh_cooldown retry_after retryable) now

  unfoldable pub answer_of : Run → Visit → Target → Reply → Step
  unfolding handle_key_failure failure_to_error
  answer_of r v t validated =
      finished (response t) (write_row r t.account.id (λ a. clear_circuit a))
  answer_of r v t (invalid f) = settle r t f (failure_to_error f) true v.now
  answer_of r v t (not_sent f) = settle r t f (failure_to_error f) false v.now
  answer_of r v t (refused status f rotation) =
      let error = preserve_anthropic_error (failure_to_error f) v.both_anthropic f status in
      if is_auth_error f.kind && not (contains_str t.account.id r.auth_retried_accounts)
      then after_rotation r t f error rotation v.now
      else settle r t f error true v.now

  -- From the reservation of the provider's breaker to the next round.
  unfoldable pub dispatch : Run → Visit → Target → Bool → Step
  unfolding touch_probe_at answer_of
  dispatch r v t probing =
      let r1 = record r { attempts_done = r.attempts_done + 1; connects = (v, t) ∷ r.connects } in
      let r2 =
        if probing
        then write_row r1 t.account.id (λ a. touch_probe_at to_rfc3339 a v.now)
        else r1 in
      answer_of r2 v t v.reply

  -- The body of the loop once a target is taken from the queue.
  unfoldable pub round : Run → Visit → Target → Step
  unfolding dispatch
  round r v t =
      if same_logical r t
      then next r
      else if out_of_time r v
      then exhausted r
      else let r1 = record r { all_accounts = t.account ∷ r.all_accounts } in
        elim (health_gate parse_dt r1 v t) [
          | err s ↦ s
          | ok probing ↦ elim (quota_gate to_rfc3339 route allow_fallback r1 v t) [
            | err s ↦ s
            | ok _ ↦ elim (local_gates r1 v t) [
              | err s ↦ s
              | ok _ ↦ elim (last_gates r1 v) [ err s ↦ s | ok _ ↦ dispatch r1 v t probing ]
            ]
          ]
        ]

  -- Step 4: no target gave an answer.
  unfoldable pub unavailable : Run → ℕ → ProxyError
  unavailable r now =
      let retry_after =
        and_then (soonest_recovery parse_dt r.all_accounts) (λ t. some (seconds_until now t)) in
      elim r.last_error [
        | some error ↦ error
        | none ↦
            if not (is_empty r.all_accounts) && all_cooling parse_dt r.all_accounts now
            then rate_limited_error retry_after
            else all_unavailable retry_after
      ]

  -- The loop, from the `n`-th round on; `end` is the time when it is left. `none`: the fuel ran out.
  unfoldable pub steps : ℕ → (ℕ → Visit) → ℕ → ℕ → Run → Option (Outcome × Run)
  unfolding round unavailable
  steps zero visits n end r = none
  steps (suc fuel) visits n end r = elim (pop_front r) [
    | none ↦ some (failed (unavailable r end), r)
    | some (t, r0) ↦ elim (round r0 (visits n) t) [
      | next r' ↦ steps fuel visits (n + 1) end r'
      | exhausted r' ↦ some (failed (unavailable r' end), r')
      | finished o r' ↦ some (o, r')
    ]
  ]

  abbrev pub begin : List Target → List AccountRow → Run
  begin targets rows = record {
    max_attempts = attempts_limit route (length targets);
    pending_targets = targets;
    attempts_done = 0;
    last_error = none;
    all_accounts = [];
    skip_logical_target = none;
    auth_retried_accounts = [];
    connects = [];
    rows = rows;
  }

  -- The targets of a request, in order, on at least two rounds for each.
  unfoldable pub run : List Target → List AccountRow → (ℕ → Visit) → ℕ → Option (Outcome × Run)
  unfolding steps attempts_limit
  run targets rows visits end =
      steps (length targets + length targets + 1) visits 0 end (begin targets rows)
