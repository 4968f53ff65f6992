-- ===== src/Pipeline/Policy.antt =====
-- src/pipeline.rs: what a failure of the provider means for the request, for the account's row and for
-- the route. The triggers of a route are read from its JSON by `trigger`: the value of a key, if it is
-- a Boolean. Messages are left out.
pub mod Rows
mod Tests
use kinetix.Base.{
  ℕ, suc, ◌*◌, ◌-◌, ◌^◌, ℤ, pos, negsuc, ◌||◌, min, max, Bool, true, false, ◌&&◌, not, Option, none,
  some, is_some, unwrap_or, or_option, and_then, List, [], ◌∷◌, String, str_eq, ltb, ◌==◌,
  if◌then◌else◌,
}
use kinetix.Types.{
  FailureKind, rate_limit, quota_exhausted, auth_error, target_error, server_error,
  connection_error, timeout, bad_request, is_retryable, is_account_scoped, ProxyError, ErrorKind,
  new, rate_limited_error,
}
use kinetix.Pool.{AccountRow, mark_rate_limited, mark_exhausted, set_account_status, record_failure}

pub record UpstreamFailure : Type 0 where
  pub kind : FailureKind
  pub status : Option ℕ
  pub retry_after_secs : Option ℕ
  pub quota_reset_at : Option ℕ

abbrev pub is_target_error : FailureKind → Bool
is_target_error target_error = true
is_target_error _ = false

abbrev pub is_auth_error : FailureKind → Bool
is_auth_error auth_error = true
is_auth_error _ = false

abbrev pub is_rate_limit : FailureKind → Bool
is_rate_limit rate_limit = true
is_rate_limit _ = false

-- The triggers that a route reads: a missing one counts as set.
pub record RoutePolicy : Type 0 where
  pub trigger : String → Option Bool
  pub max_attempts : Option ℤ

abbrev pub enabled : RoutePolicy → String → Bool
enabled r name = unwrap_or (r.trigger name) true

abbrev pub on_trigger : RoutePolicy → FailureKind → Bool
on_trigger r rate_limit = enabled r "on429"
on_trigger r quota_exhausted = enabled r "onQuota"
on_trigger r server_error = enabled r "on5xx"
on_trigger r connection_error = enabled r "on5xx"
on_trigger r timeout = enabled r "onTimeout"
on_trigger r auth_error = true
on_trigger r target_error = true
on_trigger r bad_request = false

unfoldable pub route_allows_fallback : Option RoutePolicy → FailureKind → Bool
unfolding is_retryable
route_allows_fallback none kind = if is_retryable kind then not (is_target_error kind) else false
route_allows_fallback (some r) kind = if is_retryable kind then on_trigger r kind else false

-- `m as usize`, with 64 bits: a negative number wraps around.
abbrev as_usize : ℤ → ℕ
as_usize (pos n) = n
as_usize (negsuc n) = 2 ^ 64 - suc n

-- `max_attempts.map(|m| m as usize).unwrap_or(targets.len())`
abbrev attempts_or : Option ℤ → ℕ → ℕ
attempts_or none targets = targets
attempts_or (some m) targets = as_usize m

-- `.clamp(1, 5)`
unfoldable pub attempts_limit : Option RoutePolicy → ℕ → ℕ
attempts_limit route targets =
    min (max (attempts_or (and_then route (λ (r : RoutePolicy). r.max_attempts)) targets) 1) 5

abbrev target_failure : Option ℕ → ProxyError
target_failure none = new ErrorKind.upstream
target_failure (some status) =
    if status == 403
    then new ErrorKind.forbidden
    else if status == 404
    then new ErrorKind.not_found
    else new ErrorKind.upstream

abbrev error_of_kind : FailureKind → UpstreamFailure → ProxyError
error_of_kind rate_limit f = rate_limited_error f.retry_after_secs
error_of_kind quota_exhausted f = rate_limited_error f.retry_after_secs
error_of_kind bad_request f = new ErrorKind.bad_request
error_of_kind auth_error f = new ErrorKind.upstream
error_of_kind target_error f = target_failure f.status
error_of_kind timeout f = new ErrorKind.upstream
error_of_kind connection_error f = new ErrorKind.upstream
error_of_kind server_error f = new ErrorKind.upstream

unfoldable pub failure_to_error : UpstreamFailure → ProxyError
failure_to_error f = error_of_kind f.kind f

-- Whether the client and the adapter both speak Anthropic's format comes first.
unfoldable pub preserve_anthropic_error : ProxyError → Bool → UpstreamFailure → ℕ → ProxyError
preserve_anthropic_error error both_anthropic failure status =
    if not both_anthropic || is_auth_error failure.kind
    then error
    else record error { http_status_override = some status }

-- The seconds that the headers of the answer tell to wait.
unfoldable pub apply_header_reset_to_rate_limit : UpstreamFailure → Option ℕ → UpstreamFailure
apply_header_reset_to_rate_limit failure quota =
    if is_rate_limit failure.kind && not (is_some failure.retry_after_secs)
    then record failure { retry_after_secs = quota }
    else failure

-- The rules of a provider, in the order in which they are tried; `matches` is whether the rule of that
-- name exists and matches the status, the code and the message.
unfoldable pub apply_provider_failure_rules : (String → Bool) → UpstreamFailure → UpstreamFailure
apply_provider_failure_rules matches failure =
    if matches "auth"
    then record failure { kind = auth_error }
    else if matches "quota"
    then record failure { kind = quota_exhausted }
    else if matches "rate_limit"
    then record failure { kind = rate_limit }
    else if matches "target"
    then record failure { kind = target_error }
    else if matches "bad_request"
    then record failure { kind = bad_request }
    else failure

abbrev pub circuit_threshold : ℕ
circuit_threshold = 4

abbrev pub circuit_open_secs : ℕ
circuit_open_secs = 30

abbrev pub default_quota_window : String → Option ℕ → ℕ
default_quota_window quota_type quota_window_s =
    if str_eq quota_type "daily"
    then 86400
    else if str_eq quota_type "monthly"
    then 30 * 86400
    else if str_eq quota_type "rolling"
    then unwrap_or quota_window_s 86400
    else 86400

module _ (to_rfc3339 : ℕ → String) where
  abbrev mark : FailureKind → AccountRow → UpstreamFailure → ℕ → ℕ → AccountRow
  mark rate_limit a f window now =
      mark_rate_limited to_rfc3339 a (min (unwrap_or f.retry_after_secs 30) 3600) now
  mark quota_exhausted a f window now = mark_exhausted to_rfc3339 a f.quota_reset_at window now
  mark auth_error a f window now = set_account_status a "disabled" none none
  mark _ a f window now = a

  -- The writes to the account's row; `window` is its quota window in seconds.
  unfoldable pub handle_key_failure : AccountRow → UpstreamFailure → ℕ → ℕ → AccountRow
  unfolding mark_rate_limited mark_exhausted set_account_status is_account_scoped record_failure
  handle_key_failure a f window now =
      let a' = mark f.kind a f window now in
      if is_account_scoped f.kind
      then (record_failure to_rfc3339 a' circuit_threshold circuit_open_secs now).0
      else a'
