-- ===== src/Types.antt =====
-- src/types.rs: failure and error kinds, token usage and prices, as the other components use them.
-- Messages, headers and body overrides of `ProxyError` are text for the client and are left out.
use kinetix.Base.{ℕ, Bool, true, false, ◌||◌, Option, none, is_some, unwrap_or, or_option, String}

pub data FailureKind : Type 0 where
  rate_limit quota_exhausted auth_error target_error server_error connection_error timeout
        bad_request :
      FailureKind

unfoldable pub is_retryable : FailureKind → Bool
is_retryable bad_request = false
is_retryable _ = true

unfoldable pub is_account_scoped : FailureKind → Bool
is_account_scoped rate_limit = true
is_account_scoped quota_exhausted = true
is_account_scoped auth_error = true
is_account_scoped _ = false

pub data ErrorKind : Type 0 where
  bad_request unauthorized forbidden not_found rate_limited budget_exceeded unsupported upstream
        all_targets_unavailable internal service_unavailable :
      ErrorKind

pub record ProxyError : Type 0 where
  pub kind : ErrorKind
  pub retry_after_secs : Option ℕ
  pub http_status_override : Option ℕ

abbrev pub new : ErrorKind → ProxyError
new k = record { kind = k; retry_after_secs = none; http_status_override = none }

abbrev pub rate_limited_error : Option ℕ → ProxyError
rate_limited_error retry_after = record {
  kind = ErrorKind.rate_limited;
  retry_after_secs = retry_after;
  http_status_override = none;
}

abbrev kind_status : ErrorKind → ℕ
kind_status ErrorKind.bad_request = 400
kind_status unauthorized = 401
kind_status forbidden = 403
kind_status not_found = 404
kind_status unsupported = 422
kind_status rate_limited = 429
kind_status budget_exceeded = 429
kind_status all_targets_unavailable = 503
kind_status service_unavailable = 503
kind_status upstream = 502
kind_status internal = 502

unfoldable pub http_status : ProxyError → ℕ
http_status e = unwrap_or e.http_status_override (kind_status e.kind)

-- Prices are whole multiples of a unit small enough for the configured `f64` values.
pub record Prices : Type 0 where
  pub input_per_1m : Option ℕ
  pub output_per_1m : Option ℕ
  pub cached_per_1m : Option ℕ
  pub cache_write_per_1m : Option ℕ
  pub thinking_per_1m : Option ℕ

abbrev pub is_configured : Prices → Bool
is_configured p = is_some p.input_per_1m || is_some p.output_per_1m

pub record TokenUsage : Type 0 where
  pub input : Option ℕ
  pub output : Option ℕ
  pub cached : Option ℕ
  pub cache_write : Option ℕ
  pub thinking : Option ℕ

unfoldable pub merge : TokenUsage → TokenUsage → TokenUsage
merge self other = record {
  input = or_option other.input self.input;
  output = or_option other.output self.output;
  cached = or_option other.cached self.cached;
  cache_write = or_option other.cache_write self.cache_write;
  thinking = or_option other.thinking self.thinking;
}

pub data FinishReason : Type 0 where
  stop length tool_calls content_filter : FinishReason
  other : String → FinishReason

pub data StreamEvent : Type 0 where
  start : Option String → StreamEvent
  thinking_delta : String → Option String → StreamEvent
  text_delta refusal_delta : String → StreamEvent
  tool_call_start : ℕ → Option String → String → Option String → StreamEvent
  tool_call_args_delta : ℕ → String → StreamEvent
  usage : TokenUsage → StreamEvent
  finish : FinishReason → StreamEvent
