-- ===== src/Pipeline/Failover/Tests.antt =====
-- Two targets: the first one's credential is renewed and then its rate is limited, the second answers.
-- Then the same two while both accounts are in their cooldown.
use kinetix.Base.{
  ℕ, pos, zero, suc, ◌+◌, ◌≤◌, ◌≡◌, refl, true, false, Option, none, some, List, [], ◌∷◌, String,
  str_eq, ◌==◌, if◌then◌else◌, length, All, arith,
}
use kinetix.Types.{auth_error, rate_limit, rate_limited_error, is_retryable, is_account_scoped}
use kinetix.Pool.{
  AccountRow, effective_status, should_probe, parse, mark_exhausted, mark_rate_limited,
  clear_circuit, record_failure, set_account_status, touch_probe_at,
}
use kinetix.Pipeline.Policy.{
  UpstreamFailure, RoutePolicy, route_allows_fallback, attempts_limit, failure_to_error,
  handle_key_failure, preserve_anthropic_error,
}
use kinetix.Pipeline.Failover.{
  Target, rotated, Reply, validated, refused, Visit, Run, Outcome, response, failed, run,
  update_row, pop_front, same_logical, out_of_time, health_gate, quota_gate, local_gates,
  last_gates, answer_of, dispatch, round, unavailable, steps,
}
use kinetix.Pipeline.Failover.Effects.{Admitted}
use kinetix.Pipeline.Failover.Bounds.{Distinct, run_ends, run-Admitted}
use kinetix.Pipeline.Failover.Cooling.{wait_until, IsFirst, Cools, CoolsAt, run-cooling}

abbrev write : ℕ → String
write n = "late"

abbrev read : String → Option ℕ
read s = if str_eq s "late" then some 7000000000 else none

abbrev row : String → String → Option String → AccountRow
row id status until = record {
  id = id;
  status = status;
  cooldown_until = until;
  quota_reset_at = none;
  last_probe_at = none;
  circuit_open_until = none;
  consecutive_failures = 0;
}

abbrev target : AccountRow → Target
target account = record {
  account = account;
  route_target_id = none;
  strict = false;
  quota_window = 86400;
}

abbrev route : Option RoutePolicy
route = some (record { trigger = λ name. none; max_attempts = some (pos 2) })

abbrev refusal : ℕ → UpstreamFailure
refusal status = record {
  kind = if status == 401 then auth_error else rate_limit;
  status = some status;
  retry_after_secs = none;
  quota_reset_at = none;
}

abbrev visit : Reply → Visit
visit reply = record {
  now = 0;
  later = 1;
  expired = false;
  soft_quota = false;
  profile_error = none;
  adapter_error = none;
  satisfies_needs = true;
  circuit_wait = none;
  credential_error = none;
  rejection = none;
  saturated = false;
  no_budget = false;
  begin_wait = none;
  both_anthropic = false;
  reply = reply;
}

abbrev visits : ℕ → Visit
visits zero = visit (refused 401 (refusal 401) rotated)
visits (suc zero) = visit (refused 429 (refusal 429) rotated)
visits (suc (suc n)) = visit validated

abbrev ready : List Target
ready = target (row "a" "healthy" none) ∷ target (row "b" "healthy" none) ∷ []

abbrev rows : List AccountRow
rows = row "a" "healthy" none ∷ row "b" "healthy" none ∷ []

run_ends_example :
    (o : Outcome) × (r : Run) × (run write read route true ready rows visits 0 ≡ some (o, r))
    × (length r.connects ≤ 5 + length r.auth_retried_accounts)
    × (length r.auth_retried_accounts ≤ length ready)
    × Distinct r.auth_retried_accounts
run_ends_example = run_ends write read route true visits ready rows 0

-- How the run ends: the second target answers, after two sendings to the first.
abbrev last_run : Run
last_run = record {
  max_attempts = 2;
  pending_targets = [];
  attempts_done = 2;
  last_error = some (rate_limited_error none);
  all_accounts = row "b" "healthy" none ∷ row "a" "healthy" none ∷ row "a" "healthy" none ∷ [];
  skip_logical_target = none;
  auth_retried_accounts = "a" ∷ [];
  connects =
      (visits 2, target (row "b" "healthy" none))
      ∷ (visits 1, target (row "a" "healthy" none))
      ∷ (visits 0, target (row "a" "healthy" none))
      ∷ [];
  rows =
      record (row "a" "cooldown" (some "late")) { consecutive_failures = 1 }
      ∷ row "b" "healthy" none
      ∷ [];
}

second_answers :
    run write read route true ready rows visits 0
    ≡ some (response (target (row "b" "healthy" none)), last_run)
unfolding run steps round pop_front same_logical out_of_time health_gate quota_gate local_gates
    last_gates dispatch answer_of update_row handle_key_failure failure_to_error
    preserve_anthropic_error route_allows_fallback attempts_limit effective_status should_probe
    parse mark_exhausted mark_rate_limited clear_circuit record_failure set_account_status
    touch_probe_at is_retryable is_account_scoped unavailable
second_answers = refl

run-Admitted_example :
    All (λ x. ((n : ℕ) × (visits n ≡ x.0)) × Admitted read x.0 x.1) last_run.connects
run-Admitted_example =
    run-Admitted write read route true visits ready rows 0
      (response (target (row "b" "healthy" none))) last_run second_answers

abbrev cooling : List Target
cooling = target (row "a" "cooldown" (some "late")) ∷ target (row "b" "cooldown" (some "late")) ∷ []

cools : (n : ℕ) → All (Cools read (visits n)) cooling
unfolding effective_status parse
cools zero = ((refl, refl), ((refl, refl), tt))
cools (suc zero) = ((refl, refl), ((refl, refl), tt))
cools (suc (suc n)) = ((refl, refl), ((refl, refl), tt))

cools_at : All (CoolsAt read 1000000000) cooling
unfolding effective_status parse
cools_at = (refl, (refl, tt))

run-cooling_example :
    (first : Option ℕ) × (r : Run) × (run write read route true cooling rows visits 1000000000
      ≡ some (failed (rate_limited_error (wait_until first 1000000000)), r))
    × IsFirst read first cooling
    × (r.connects ≡ [])
    × (r.rows ≡ rows)
run-cooling_example =
    run-cooling write read route true cooling rows visits 1000000000 (omega arith) cools cools_at
