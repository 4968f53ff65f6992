-- ===== src/Pipeline/Failover/Effects.antt =====
-- src/pipeline.rs, `run`: what one round of the attempt loop may change, and what it asks before the
-- request is sent.
pub mod Passing
pub mod Sending
use kinetix.Base.{
  ℕ, ◌+◌, ◌-◌, ◌≤◌, ◌<◌, ◌≡◌, refl, ap, ◌∙◌, ◌⊎◌, inl, inr, Bool, true, false, ◌&&◌, not, Option,
  none, some, List, [], ◌∷◌, String, contains_str, Result, ok, err, leb, if◌then◌else◌, arith,
  Bool-cases, Result-cases,
}
use kinetix.Types.{ProxyError, auth_error}
use kinetix.Pool.{effective_status, should_probe, is_healthy}
use kinetix.Pipeline.Policy.{route_allows_fallback, UpstreamFailure, RoutePolicy, is_auth_error}
use kinetix.Pipeline.Failover.{
  Target, Rotation, rotated, unchanged, invalid_credential, refresh_error, Reply, validated,
  invalid, not_sent, refused, Visit, Run, Outcome, response, failed, Step, next, exhausted,
  finished, same_logical, out_of_time, health_gate, quota_gate, local_gates, last_gates, answer_of,
  dispatch, round, settle, after_rotation, refresh_failed, refresh_cooldown, Gate,
}

-- Nothing that bounds the loop has changed.
pub record Quiet (r r' : Run) : Type 0 where
  pub pending : r'.pending_targets ≡ r.pending_targets
  pub retried : r'.auth_retried_accounts ≡ r.auth_retried_accounts
  pub connected : r'.connects ≡ r.connects
  pub attempts : r'.attempts_done ≡ r.attempts_done
  pub limit : r'.max_attempts ≡ r.max_attempts

-- The request was sent to the target, and counts as an attempt.
pub record Tried (r r' : Run) (v : Visit) (t : Target) : Type 0 where
  pub pending : r'.pending_targets ≡ r.pending_targets
  pub retried : r'.auth_retried_accounts ≡ r.auth_retried_accounts
  pub connected : r'.connects ≡ (v, t) ∷ r.connects
  pub attempts : r'.attempts_done ≡ r.attempts_done + 1
  pub limit : r'.max_attempts ≡ r.max_attempts

-- The request was sent, the credential renewed, and the target is first in the queue again.
pub record Retried (r r' : Run) (v : Visit) (t : Target) : Type 0 where
  pub pending : r'.pending_targets ≡ t ∷ r.pending_targets
  pub retried : r'.auth_retried_accounts ≡ t.account.id ∷ r.auth_retried_accounts
  pub once : contains_str t.account.id r.auth_retried_accounts ≡ false
  pub connected : r'.connects ≡ (v, t) ∷ r.connects
  pub attempts : r'.attempts_done ≡ r.attempts_done
  pub limit : r'.max_attempts ≡ r.max_attempts

abbrev pub QuietStep : Run → Step → Type 0
QuietStep r (next r') = Quiet r r'
QuietStep r (exhausted r') = Quiet r r'
QuietStep r (finished o r') = Quiet r r'

abbrev pub QuietGate : {A : Type 0} → Run → Gate A → Type 0
QuietGate r (ok a) = Unit
QuietGate r (err s) = QuietStep r s

-- What the visit says of a target that the request is sent to.
pub record Admitted (parse_dt : String → Option ℕ) (v : Visit) (t : Target) : Type 0 where
  pub usable :
      (is_healthy parse_dt (effective_status parse_dt t.account v.now) ≡ true)
      ⊎ (should_probe parse_dt t.account v.now v.later ≡ true)
  pub in_time : v.expired ≡ false
  pub within_quota : v.soft_quota ≡ false
  pub has_profile : v.profile_error ≡ none
  pub has_adapter : v.adapter_error ≡ none
  pub capable : (t.strict && not v.satisfies_needs) ≡ false
  pub closed : v.circuit_wait ≡ none
  pub has_secret : v.credential_error ≡ none
  pub accepted : v.rejection ≡ none
  pub has_permit : v.saturated ≡ false
  pub has_budget : v.no_budget ≡ false
  pub reserved : v.begin_wait ≡ none

abbrev pub SentStep : Run → Visit → Target → Step → Type 0
SentStep r v t (next r') = Tried r r' v t ⊎ Retried r r' v t
SentStep r v t (exhausted r') = ⊥
SentStep r v t (finished o r') = Tried r r' v t

-- A round either changes nothing of it, or sends the request to a target that all checks admit.
abbrev pub Effect : (String → Option ℕ) → Run → Visit → Target → Step → Type 0
Effect parse_dt r v t s =
    QuietStep r s ⊎ ((r.attempts_done < r.max_attempts) × Admitted parse_dt v t × SentStep r v t s)
