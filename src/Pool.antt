-- ===== src/Pool.antt =====
-- src/pool.rs: the health of an account, on the columns of its row that it reads, with the updates
-- of src/db.rs that it calls as functions on the row. Times are stored as text: `parse_dt` reads it and
-- `to_rfc3339` writes it. Durations and thresholds are natural numbers; `last_error` is left out, and
-- so are the sampling of `order_accounts` and the quota window, which asks the database.
pub mod Health
pub mod Recovery
mod Tests
use kinetix.Base.{
  ℕ, ◌+◌, ◌*◌, ◌≤◌, Bool, true, false, ◌&&◌, ◌||◌, not, Option, none, some, is_some, and_then,
  is_some_and, or_option, unwrap_or, List, [], ◌∷◌, String, str_eq, ltb, leb, if◌then◌else◌,
  seconds,
}

pub data AccountStatus : Type 0 where
  healthy cooldown exhausted disabled circuit_open : AccountStatus

unfoldable pub parse : String → AccountStatus
parse s =
    if str_eq s "cooldown"
    then cooldown
    else if str_eq s "exhausted"
    then exhausted
    else if str_eq s "disabled"
    then disabled
    else if str_eq s "circuit_open"
    then circuit_open
    else healthy

abbrev pub as_str : AccountStatus → String
as_str healthy = "healthy"
as_str cooldown = "cooldown"
as_str exhausted = "exhausted"
as_str disabled = "disabled"
as_str circuit_open = "circuit_open"

pub record AccountRow : Type 0 where
  pub id : String
  pub status : String
  pub cooldown_until : Option String
  pub quota_reset_at : Option String
  pub last_probe_at : Option String
  pub circuit_open_until : Option String
  pub consecutive_failures : ℕ

abbrev pub is_circuit_open : AccountStatus → Bool
is_circuit_open circuit_open = true
is_circuit_open _ = false

-- The status once no administrative state holds: a circuit stays open until a probe clears it.
abbrev pub circuit_status : AccountRow → AccountStatus → AccountStatus
circuit_status a configured =
    if is_some a.circuit_open_until || is_circuit_open configured then circuit_open else healthy

-- `UPDATE accounts SET status=?, cooldown_until=?, quota_reset_at=?`; a recovery clears the circuit.
unfoldable pub set_account_status : AccountRow → String → Option String → Option String → AccountRow
set_account_status a status cooldown_until quota_reset_at =
    let a' = record a {
      status = status;
      cooldown_until = cooldown_until;
      quota_reset_at = quota_reset_at;
    } in
    if str_eq status "healthy"
    then record a' { circuit_open_until = none; consecutive_failures = 0 }
    else a'

unfoldable pub mark_healthy : AccountRow → AccountRow
unfolding set_account_status
mark_healthy a = set_account_status a "healthy" none none

unfoldable pub clear_cooldown : AccountRow → AccountRow
unfolding set_account_status
clear_cooldown a = set_account_status a "healthy" none none

-- `reset_account_failures`
unfoldable pub clear_circuit : AccountRow → AccountRow
clear_circuit a = record a { consecutive_failures = 0; circuit_open_until = none }

module _ (to_rfc3339 : ℕ → String) where
  unfoldable pub mark_rate_limited : AccountRow → ℕ → ℕ → AccountRow
  unfolding set_account_status
  mark_rate_limited a cooldown_secs now =
      set_account_status a "cooldown" (some (to_rfc3339 (now + seconds cooldown_secs))) none

  unfoldable pub mark_exhausted : AccountRow → Option ℕ → ℕ → ℕ → AccountRow
  unfolding set_account_status
  mark_exhausted a reset_at default_window_secs now =
      set_account_status a "exhausted" none
        (some (to_rfc3339 (unwrap_or reset_at (now + seconds default_window_secs))))

  -- `record_account_failure`
  unfoldable pub record_failure : AccountRow → ℕ → ℕ → ℕ → AccountRow × ℕ
  record_failure a threshold open_secs now =
      let n = a.consecutive_failures + 1 in
      let a' = record a { consecutive_failures = n } in
      (
        if leb threshold n
            then record a' { circuit_open_until = some (to_rfc3339 (now + seconds open_secs)) }
            else a',
        n,
      )

  unfoldable pub touch_probe_at : AccountRow → ℕ → AccountRow
  touch_probe_at a now = record a { last_probe_at = some (to_rfc3339 now) }

module _ (parse_dt : String → Option ℕ) where
  abbrev pub has_passed : Option String → ℕ → Bool
  has_passed at now = is_some_and (and_then at parse_dt) (λ t. leb t now)

  abbrev pub status_of : AccountRow → AccountStatus → ℕ → AccountStatus
  status_of a disabled now = disabled
  status_of a cooldown now =
      if has_passed a.cooldown_until now then circuit_status a cooldown else cooldown
  status_of a exhausted now =
      if has_passed a.quota_reset_at now then circuit_status a exhausted else exhausted
  status_of a healthy now = circuit_status a healthy
  status_of a circuit_open now = circuit_status a circuit_open

  unfoldable pub effective_status : AccountRow → ℕ → AccountStatus
  unfolding parse
  effective_status a now = status_of a (parse a.status) now

  -- `HALF_OPEN_PROBE_MIN_GAP_SECS`
  abbrev pub min_gap : ℕ
  min_gap = seconds 2

  abbrev pub gap_passed : Option ℕ → ℕ → Bool
  gap_passed none later = true
  gap_passed (some last) later = leb (last + min_gap) later

  abbrev pub is_probeable : AccountStatus → Bool
  is_probeable disabled = false
  is_probeable cooldown = false
  is_probeable exhausted = false
  is_probeable healthy = true
  is_probeable circuit_open = true

  -- The clock is read twice, first at `now` and then at `later`.
  unfoldable pub should_probe : AccountRow → ℕ → ℕ → Bool
  unfolding parse
  should_probe a now later =
      is_probeable (parse a.status)
      && (is_some_and (and_then a.circuit_open_until parse_dt) (λ until. not (ltb now until))
          && gap_passed (and_then a.last_probe_at parse_dt) later)

  abbrev pub is_healthy : AccountStatus → Bool
  is_healthy healthy = true
  is_healthy _ = false

  unfoldable pub is_available : AccountRow → ℕ → Bool
  unfolding effective_status
  is_available a now = is_healthy (effective_status a now)

  abbrev pub own_recovery : AccountRow → AccountStatus → Option ℕ
  own_recovery a cooldown = and_then a.cooldown_until parse_dt
  own_recovery a exhausted = and_then a.quota_reset_at parse_dt
  own_recovery a _ = none

  unfoldable pub recovery : AccountRow → Option ℕ
  unfolding parse
  recovery a = or_option (own_recovery a (parse a.status)) (and_then a.circuit_open_until parse_dt)

  abbrev pub earlier : Option ℕ → ℕ → ℕ
  earlier none t = t
  earlier (some cur) t = if ltb cur t then cur else t

  abbrev pub sooner : Option ℕ → Option ℕ → Option ℕ
  sooner soonest none = soonest
  sooner soonest (some t) = some (earlier soonest t)

  -- The loop of `soonest_recovery`.
  unfoldable pub soonest_from : Option ℕ → List AccountRow → Option ℕ
  unfolding recovery
  soonest_from soonest [] = soonest
  soonest_from soonest (a ∷ accs) = soonest_from (sooner soonest (recovery a)) accs

  unfoldable pub soonest_recovery : List AccountRow → Option ℕ
  unfolding soonest_from
  soonest_recovery accs = soonest_from none accs
