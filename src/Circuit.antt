-- ===== src/Circuit.antt =====
-- src/provider_circuit.rs: the circuit breaker of one provider and the attempts that it admits.
-- A circuit is reached under its lock, so each method is one step; `Utc::now()` is the argument `now`.
-- The `DashMap` of circuits is in Circuit/Registry.antt, histories of steps in Circuit/System.antt.
pub mod Attempts
pub mod System
pub mod Registry
pub mod Slot
pub mod Runs
pub mod Policy
pub mod Evidence
pub mod Correlation
mod Tests
use kinetix.Base.{
  ℕ, ◌+◌, ◌-◌, ◌/◌, ◌≤◌, max, Bool, true, false, ◌&&◌, ◌||◌, not, Option, none, some, List, [], ◌∷◌,
  ◌++◌, map, String, ltb, leb, ◌==◌, if◌then◌else◌, is_some_and, length, drop_while, contains_str,
  seconds, saturating_add, wrapping_add, Result, ok, err,
}
use kinetix.Types.{
  FailureKind, rate_limit, quota_exhausted, auth_error, target_error, server_error,
  connection_error, timeout,
}

pub data State : Type 0 where
  closed circuit_open half_open : State

pub record FailureEvidence : Type 0 where
  pub at : ℕ
  pub account_id : String
  pub target_id : String

pub record Snapshot : Type 0 where
  pub provider_id : String
  pub state : State
  pub recent_qualifying_failures : ℕ
  pub distinct_failing_accounts : ℕ
  pub distinct_failing_targets : ℕ
  pub recent_failures : List FailureEvidence
  pub opened_at : Option ℕ
  pub retry_at : Option ℕ
  pub last_successful_probe : Option ℕ
  pub opens : ℕ
  pub recoveries : ℕ
  pub rejects : ℕ
  pub half_open_probes : ℕ

pub data CorrelationPolicy : Type 0 where
  distinct_accounts accountless_targets : CorrelationPolicy

pub record Transition : Type 0 where
  pub opened : Bool
  pub recovered : Bool
  pub half_open_probe : Bool

abbrev pub no_transition : Transition
no_transition = record { opened = false; recovered = false; half_open_probe = false }

unfoldable pub merge : Transition → Transition → Transition
merge self later = record {
  opened = self.opened || later.opened;
  recovered = self.recovered || later.recovered;
  half_open_probe = self.half_open_probe || later.half_open_probe;
}

pub record Reject : Type 0 where
  pub retry_after_secs : ℕ
  pub snapshot : Snapshot

pub record Circuit : Type 0 where
  pub state : State
  pub failures : List FailureEvidence
  pub opened_at : Option ℕ
  pub retry_at : Option ℕ
  pub last_successful_probe : Option ℕ
  pub half_open_inflight : ℕ
  pub generation : ℕ
  pub opens : ℕ
  pub recoveries : ℕ
  pub rejects : ℕ
  pub half_open_probes : ℕ

abbrev pub default_circuit : Circuit
default_circuit = record {
  state = closed;
  failures = [];
  opened_at = none;
  retry_at = none;
  last_successful_probe = none;
  half_open_inflight = 0;
  generation = 0;
  opens = 0;
  recoveries = 0;
  rejects = 0;
  half_open_probes = 0;
}

abbrev pub is_closed : State → Bool
is_closed closed = true
is_closed _ = false

abbrev pub is_circuit_open : State → Bool
is_circuit_open circuit_open = true
is_circuit_open _ = false

abbrev pub is_half_open : State → Bool
is_half_open half_open = true
is_half_open _ = false

unfoldable pub purge_old : Circuit → ℕ → Circuit
purge_old c now = record c { failures = drop_while (λ f. ltb f.at (now - seconds 30)) c.failures }

-- `.collect::<HashSet<_>>().len()`
unfoldable pub count_distinct : List String → ℕ
count_distinct [] = 0
count_distinct (x ∷ xs) = if contains_str x xs then count_distinct xs else count_distinct xs + 1

unfoldable pub snapshot : Circuit → String → ℕ → Circuit × Snapshot
snapshot c provider_id now =
    let c' = purge_old c now in
    (
      c',
      record {
        provider_id = provider_id;
        state = c'.state;
        recent_qualifying_failures = length c'.failures;
        distinct_failing_accounts = count_distinct (map (λ f. f.account_id) c'.failures);
        distinct_failing_targets = count_distinct (map (λ f. f.target_id) c'.failures);
        recent_failures = c'.failures;
        opened_at = c'.opened_at;
        retry_at = c'.retry_at;
        last_successful_probe = c'.last_successful_probe;
        opens = c'.opens;
        recoveries = c'.recoveries;
        rejects = c'.rejects;
        half_open_probes = c'.half_open_probes;
      },
    )

-- `Circuit::open`
unfoldable pub open_circuit : Circuit → ℕ → Circuit × Bool
open_circuit c now =
    let changed = not (is_circuit_open c.state) in
    (
      record c {
        state = circuit_open;
        opened_at = some now;
        retry_at = some (now + seconds 30);
        half_open_inflight = 0;
        opens = if changed then saturating_add c.opens 1 else c.opens;
      },
      changed,
    )

unfoldable pub release_probe_slot : Circuit → ℕ → Circuit × Bool
release_probe_slot c generation =
    if not (generation == c.generation) || not (is_half_open c.state)
    then (c, false)
    else (record c { half_open_inflight = 0 }, true)

unfoldable pub reopen_abandoned_probe : Circuit → ℕ → ℕ → Circuit
unfolding release_probe_slot
reopen_abandoned_probe c generation now =
    let (c', released) = release_probe_slot c generation in
    if released then record c' { state = circuit_open; retry_at = some (now + seconds 1) } else c'

-- `(retry_at > now).then(|| (retry_at - now).num_seconds().max(1) as u64)`
abbrev pub wait_secs : Option ℕ → ℕ → Option ℕ
wait_secs none now = none
wait_secs (some retry_at) now =
    if ltb now retry_at then some (max ((retry_at - now) / seconds 1) 1) else none

abbrev pub retry_after : State → Option ℕ → ℕ → ℕ → Option ℕ
retry_after closed retry_at inflight now = none
retry_after circuit_open retry_at inflight now = wait_secs retry_at now
retry_after half_open retry_at inflight now = if ltb 0 inflight then some 1 else none

-- A refusal counts itself and takes a snapshot.
unfoldable pub reject : Circuit → String → ℕ → ℕ → Circuit × Reject
unfolding snapshot
reject c provider_id now retry_after_secs =
    let (c', s) = snapshot (record c { rejects = saturating_add c.rejects 1 }) provider_id now in
    (c', record { retry_after_secs = retry_after_secs; snapshot = s })

unfoldable pub check_available : Circuit → String → ℕ → Circuit × Result Reject (Unit {0})
check_available c provider_id now =
    let c' = purge_old c now in
    elim (retry_after c'.state c'.retry_at c'.half_open_inflight now) [
      | none ↦ (c', ok tt)
      | some secs ↦ let (c'', r) = reject c' provider_id now secs in (c'', err r)
    ]

pub record Attempt : Type 0 where
  pub account_id : String
  pub target_id : String
  pub generation : ℕ
  pub correlation_policy : CorrelationPolicy
  pub half_open_probe : Bool
  pub validated_success : Bool
  pub finished : Bool

abbrev pub admit : Circuit → String → String → CorrelationPolicy → Bool → Attempt
admit c account_id target_id policy probe = record {
  account_id = account_id;
  target_id = target_id;
  generation = c.generation;
  correlation_policy = policy;
  half_open_probe = probe;
  validated_success = false;
  finished = false;
}

-- The exclusive probe lease.
abbrev pub lease_probe : Circuit → Circuit
lease_probe c = record c {
  state = half_open;
  half_open_inflight = 1;
  half_open_probes = saturating_add c.half_open_probes 1;
}

-- The arms that return early come before the attempt that is built at the end. The state is passed
-- once more, to be matched on.
unfoldable pub begin_in :
    State
    → Circuit
    → String
    → String
    → String
    → CorrelationPolicy
    → ℕ
    → Circuit × Result Reject Attempt
begin_in closed c provider_id account_id target_id policy now =
    (c, ok (admit c account_id target_id policy false))
begin_in circuit_open c provider_id account_id target_id policy now =
    elim (wait_secs c.retry_at now) [
      | some secs ↦ let (c', r) = reject c provider_id now secs in (c', err r)
      | none ↦ (lease_probe c, ok (admit c account_id target_id policy true))
    ]
begin_in half_open c provider_id account_id target_id policy now =
    if ltb 0 c.half_open_inflight
    then (let (c', r) = reject c provider_id now 1 in (c', err r))
    else (lease_probe c, ok (admit c account_id target_id policy true))

unfoldable pub begin_attempt_with_policy :
    Circuit → String → String → String → CorrelationPolicy → ℕ → Circuit × Result Reject Attempt
unfolding begin_in purge_old reject
begin_attempt_with_policy c provider_id account_id target_id policy now =
    let c' = purge_old c now in begin_in c'.state c' provider_id account_id target_id policy now

unfoldable pub begin_attempt :
    Circuit → String → String → String → ℕ → Circuit × Result Reject Attempt
unfolding begin_attempt_with_policy
begin_attempt c provider_id account_id target_id now =
    begin_attempt_with_policy c provider_id account_id target_id distinct_accounts now
