-- ===== src/Auth/Plugin.antt =====
-- src/auth.rs: the browser flows by which a plugin's account is authorized. The state and the
-- verifier are random there and arguments here; `challenge` is the encoded hash of the verifier,
-- `parse` the parser of the crate `url`.
use kinetix.Base.{
  ℕ, ◌+◌, Bool, false, ◌&&◌, not, Option, none, some, is_some, List, [], ◌∷◌, String, str_eq, ltb,
  leb, if◌then◌else◌, filter, seconds, is_some_and, contains_str,
}
use kinetix.Base.Keyed.{lookup, insert, remove, string_eq}

abbrev pub plugin_auth_ttl : ℕ
plugin_auth_ttl = seconds 600

pub record PluginAuthSession : Type 0 where
  pub plugin_id : String
  pub flow_name : String
  pub integration_id : String
  pub provider_id : String
  pub credential_binding : String
  pub redirect_uri : String
  pub pkce_verifier : String
  pub initiator : String
  pub expires_at : ℕ

pub record PluginAuthStatus : Type 0 where
  pub result : String
  pub provider_id : Option String

pub record CompletedPluginAuth : Type 0 where
  pub initiator : String
  pub status : PluginAuthStatus
  pub expires_at : ℕ

pub record PluginAuthStart : Type 0 where
  pub state : String
  pub pkce_challenge : String

pub record PluginAuthSessions : Type 0 where
  pub inner : List (String × PluginAuthSession)
  pub completed : List (String × CompletedPluginAuth)

unfoldable pub new : PluginAuthSessions
new = record { inner = []; completed = [] }

-- `map.retain(|_, session| session.expires_at > now)`
unfoldable pub retain : ℕ → List (String × PluginAuthSession) → List (String × PluginAuthSession)
retain now m = filter (λ e. ltb now e.1.expires_at) m

unfoldable pub retain_completed :
    ℕ → List (String × CompletedPluginAuth) → List (String × CompletedPluginAuth)
retain_completed now m = filter (λ e. ltb now e.1.expires_at) m

-- The arguments of `create`.
pub record Flow : Type 0 where
  pub plugin_id : String
  pub flow_name : String
  pub integration_id : String
  pub provider_id : String
  pub credential_binding : String
  pub redirect_uri : String
  pub initiator : String

unfoldable pub session_of : Flow → String → ℕ → PluginAuthSession
session_of f verifier now = record {
  plugin_id = f.plugin_id;
  flow_name = f.flow_name;
  integration_id = f.integration_id;
  provider_id = f.provider_id;
  credential_binding = f.credential_binding;
  redirect_uri = f.redirect_uri;
  pkce_verifier = verifier;
  initiator = f.initiator;
  expires_at = now + plugin_auth_ttl;
}

unfoldable pub create :
    (String → String)
    → PluginAuthSessions
    → Flow
    → String
    → String
    → ℕ
    → PluginAuthSessions × PluginAuthStart
create challenge p f state verifier now = (
  record p { inner = insert state (session_of f verifier now) (retain now p.inner) },
  record { state = state; pkce_challenge = challenge verifier },
)

-- A session, if the initiator is the one that started it.
unfoldable pub owned : Option PluginAuthSession → String → Option PluginAuthSession
owned none initiator = none
owned (some s) initiator = if not (str_eq s.initiator initiator) then none else some s

unfoldable pub peek :
    PluginAuthSessions → String → String → ℕ → PluginAuthSessions × Option PluginAuthSession
peek p state initiator now =
    let m = retain now p.inner in (record p { inner = m }, owned (lookup state m) initiator)

unfoldable pub completed_status : Option CompletedPluginAuth → String → Option PluginAuthStatus
completed_status none initiator = none
completed_status (some c) initiator =
    if not (str_eq c.initiator initiator) then none else some c.status

unfoldable pub status :
    PluginAuthSessions → String → String → ℕ → PluginAuthSessions × Option PluginAuthStatus
status p state initiator now =
    let (p', pending) = peek p state initiator now in
    let c = retain_completed now p'.completed in
    if is_some pending
    then (p', some (record { result = "pending"; provider_id = none }))
    else (record p' { completed = c }, completed_status (lookup state c) initiator)

unfoldable pub record_completion :
    PluginAuthSessions → String → String → String → Option String → ℕ → PluginAuthSessions
record_completion p state initiator result provider_id now = record p {
  completed =
      insert state
        (record {
          initiator = initiator;
          status = record { result = result; provider_id = provider_id };
          expires_at = now + plugin_auth_ttl;
        })
        (retain_completed now p.completed);
}

-- The session that is removed, unless it is over.
unfoldable pub in_time : Option PluginAuthSession → ℕ → Option PluginAuthSession
in_time none now = none
in_time (some s) now = if leb s.expires_at now then none else some s

unfoldable pub take :
    PluginAuthSessions → String → String → ℕ → PluginAuthSessions × Option PluginAuthSession
take p state initiator now =
    let m = retain now p.inner in
    (record p { inner = remove state m }, owned (in_time (lookup state m) now) initiator)

-- What the callback looks at in a redirect.
pub record Url : Type 0 where
  pub scheme : String
  pub username : String
  pub has_password : Bool
  pub has_query : Bool
  pub has_fragment : Bool
  pub host : Option String
  pub path : String

unfoldable pub is_plain : Url → Bool
is_plain u =
    str_eq u.scheme "http"
    && str_eq u.username ""
    && not u.has_password
    && not u.has_query
    && not u.has_fragment

unfoldable pub allowed_redirect : String → Url → Bool
allowed_redirect plugin_id u =
    if str_eq plugin_id "dev.kinetix.claude-code-oauth"
    then is_some_and u.host (λ h. str_eq h "localhost") && str_eq u.path "/callback"
    else if str_eq plugin_id "dev.kinetix.antigravity-oauth"
    then is_some_and u.host (λ h. contains_str h ("localhost" ∷ "127.0.0.1" ∷ "::1" ∷ []))
      && str_eq u.path "/callback"
    else false

module _ (parse : String → Option Url) where
  unfoldable pub loopback : Option PluginAuthSession → Option PluginAuthSession
  loopback none = none
  loopback (some s) =
      if is_some_and (parse s.redirect_uri) (λ u. is_plain u && allowed_redirect s.plugin_id u)
      then some s
      else none

  unfoldable pub take_loopback_callback :
      PluginAuthSessions → String → ℕ → PluginAuthSessions × Option PluginAuthSession
  take_loopback_callback p state now =
      let m = retain now p.inner in
      (record p { inner = remove state m }, loopback (in_time (lookup state m) now))

unfoldable pub revoke : PluginAuthSessions → String → PluginAuthSessions
revoke p state = record p { inner = remove state p.inner }
