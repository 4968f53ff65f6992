-- ===== src/Pipeline/Failover/Gates.antt =====
-- src/pipeline.rs, `run`: what the attempt loop knows, and the checks that a target passes before
-- anything is sent to its provider. A check that fails says what the loop does next.
use kinetix.Base.{
  ℕ, ◌-◌, ◌/◌, max, seconds, Bool, true, false, ◌&&◌, ◌||◌, not, Option, none, some, List, [], ◌∷◌,
  String, str_eq, leb, if◌then◌else◌, Result, ok, err,
}
use kinetix.Types.{ProxyError, ErrorKind, quota_exhausted, new, rate_limited_error}
use kinetix.Pool.{
  AccountRow, AccountStatus, cooldown, effective_status, should_probe, is_healthy, mark_exhausted,
  set_account_status,
}
use kinetix.Pipeline.Policy.{UpstreamFailure, RoutePolicy, route_allows_fallback}

pub record Target : Type 0 where
  pub account : AccountRow
  pub route_target_id : Option String
  pub strict : Bool
  pub quota_window : ℕ

-- What a renewal of the credential gives after the provider refused it.
pub data Rotation : Type 0 where
  rotated unchanged invalid_credential : Rotation
  refresh_error : Option ℕ → Bool → Rotation

-- What the provider makes of the request: a valid begin of an answer, an answer that is no valid one,
-- an error status, or nothing.
pub data Reply : Type 0 where
  validated : Reply
  invalid not_sent : UpstreamFailure → Reply
  refused : ℕ → UpstreamFailure → Rotation → Reply

-- Why there is no secret: whether the credential is invalid for good.
pub record CredentialError : Type 0 where
  pub invalid_credential : Bool

pub record Visit : Type 0 where
  pub now : ℕ
  pub later : ℕ
  pub expired : Bool
  pub soft_quota : Bool
  pub profile_error : Option ProxyError
  pub adapter_error : Option ProxyError
  pub satisfies_needs : Bool
  pub circuit_wait : Option ℕ
  pub credential_error : Option CredentialError
  pub rejection : Option ProxyError
  pub saturated : Bool
  pub no_budget : Bool
  pub begin_wait : Option ℕ
  pub both_anthropic : Bool
  pub reply : Reply

-- `connects` lists the rounds that sent the request, the last one first, each with its target.
pub record Run : Type 0 where
  pub max_attempts : ℕ
  pub pending_targets : List Target
  pub attempts_done : ℕ
  pub last_error : Option ProxyError
  pub all_accounts : List AccountRow
  pub skip_logical_target : Option String
  pub auth_retried_accounts : List String
  pub connects : List (Visit × Target)
  pub rows : List AccountRow

pub data Outcome : Type 0 where
  response : Target → Outcome
  failed : ProxyError → Outcome

-- `continue`, `break` and `return`.
pub data Step : Type 0 where
  next exhausted : Run → Step
  finished : Outcome → Run → Step

-- `UPDATE accounts ... WHERE id=?`
unfoldable pub update_row : String → (AccountRow → AccountRow) → List AccountRow → List AccountRow
update_row id f [] = []
update_row id f (a ∷ rows) = (if str_eq a.id id then f a else a) ∷ update_row id f rows

abbrev pub write_row : Run → String → (AccountRow → AccountRow) → Run
write_row r id f = record r { rows = update_row id f r.rows }

abbrev pub is_empty {ℓ} : {A : Type ℓ} → List A → Bool
is_empty [] = true
is_empty (x ∷ xs) = false

abbrev pub is_cooldown : AccountStatus → Bool
is_cooldown cooldown = true
is_cooldown _ = false

abbrev pub all_unavailable : Option ℕ → ProxyError
all_unavailable retry_after = record {
  kind = ErrorKind.all_targets_unavailable;
  retry_after_secs = retry_after;
  http_status_override = none;
}

abbrev pub popped : Run → List Target → Option (Target × Run)
popped r [] = none
popped r (t ∷ ts) = some (t, record r { pending_targets = ts })

unfoldable pub pop_front : Run → Option (Target × Run)
pop_front r = popped r r.pending_targets

abbrev same_id : Option String → Option String → Bool
same_id (some a) (some b) = str_eq a b
same_id _ _ = false

unfoldable pub same_logical : Run → Target → Bool
same_logical r t = same_id r.skip_logical_target t.route_target_id

unfoldable pub out_of_time : Run → Visit → Bool
out_of_time r v = leb r.max_attempts r.attempts_done || v.expired

-- A gate is passed, or says how the round ends.
abbrev pub Gate : Type 0 → Type 0
Gate A = Result Step A

abbrev skip_with : Run → ProxyError → Step
skip_with r error = next (record r { last_error = some error })

-- Whether the attempt is a probe of an account that is not healthy.
unfoldable pub health_gate : (String → Option ℕ) → Run → Visit → Target → Gate Bool
health_gate parse_dt r v t =
    if is_healthy parse_dt (effective_status parse_dt t.account v.now)
    then ok false
    else if should_probe parse_dt t.account v.now v.later
    then ok true
    else err (next r)

unfoldable pub quota_gate :
    (ℕ → String) → Option RoutePolicy → Bool → Run → Visit → Target → Gate (Unit {0})
quota_gate to_rfc3339 route allow_fallback r v t =
    let r' =
      write_row r t.account.id (λ a. mark_exhausted to_rfc3339 a none t.quota_window v.now) in
    if not v.soft_quota
    then ok tt
    else if not allow_fallback || not (route_allows_fallback route quota_exhausted)
    then err (finished (failed (rate_limited_error none)) r')
    else err (next r')

abbrev disable_invalid_credential : Run → Target → CredentialError → Run
disable_invalid_credential r t e =
    if e.invalid_credential
    then write_row r t.account.id (λ a. set_account_status a "disabled" none none)
    else r

-- Execution profile, adapter, capabilities, breaker, credential, the checks of the request against the
-- target, and the concurrency permit.
unfoldable pub local_gates : Run → Visit → Target → Gate (Unit {0})
local_gates r v t = elim v.profile_error [
  | some e ↦ err (skip_with r e)
  | none ↦ elim v.adapter_error [
    | some e ↦ err (skip_with r e)
    | none ↦
        if t.strict && not v.satisfies_needs
        then err (skip_with r (new ErrorKind.unsupported))
        else elim v.circuit_wait [
          | some secs ↦ err (skip_with r (all_unavailable (some secs)))
          | none ↦ elim v.credential_error [
            | some e ↦ err (skip_with (disable_invalid_credential r t e) (new ErrorKind.internal))
            | none ↦ elim v.rejection [
              | some e ↦ err (finished (failed e) r)
              | none ↦ if v.saturated then err (skip_with r (all_unavailable none)) else ok tt
            ]
          ]
        ]
  ]
]

-- The time that is left, and the breaker once more.
unfoldable pub last_gates : Run → Visit → Gate (Unit {0})
last_gates r v = if v.no_budget then err (exhausted r) else elim v.begin_wait [
  | some secs ↦ err (skip_with r (all_unavailable (some secs)))
  | none ↦ ok tt
]

-- `(t - now).num_seconds().max(1)`
abbrev pub seconds_until : ℕ → ℕ → ℕ
seconds_until now t = max ((t - now) / seconds 1) 1

abbrev pub all_cooling : (String → Option ℕ) → List AccountRow → ℕ → Bool
all_cooling parse_dt [] now = true
all_cooling parse_dt (a ∷ accs) now =
    is_cooldown (effective_status parse_dt a now) && all_cooling parse_dt accs now
