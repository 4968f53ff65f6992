-- ===== src/Auth.antt =====
-- src/auth.rs: the sessions and the password of the administrator. Tokens are random there and
-- arguments here; `trim` is `str::trim`, and `hash` the repository's SHA-256 of a key.
use Prim.Native.String.{len}
use kinetix.Base.{
  ℕ, ◌+◌, ◌*◌, Bool, true, false, ◌||◌, Option, none, some, List, [], ◌∷◌, String, str_eq, ltb,
  if◌then◌else◌, filter, max, seconds, Result, ok, err, or_option,
}
use kinetix.Base.Keyed.{lookup, insert, remove, string_eq}
use kinetix.Types.{ProxyError, new as proxy_error, forbidden, unauthorized}
mod Plugin
mod Live
mod Password
mod OneTime
mod Tests

pub record Sessions : Type 0 where
  pub inner : List (String × ℕ)
  pub ttl : ℕ

unfoldable pub new : ℕ → Sessions
new ttl_minutes = record { inner = []; ttl = seconds (max ttl_minutes 1 * 60) }

unfoldable pub create : Sessions → String → ℕ → Sessions
create s token now = record s {
  inner = insert token (now + s.ttl) (filter (λ e. ltb now e.1) s.inner);
}

-- With the session's end. A session that is over is dropped.
unfoldable pub valid_until : Sessions → String → Option ℕ → ℕ → Sessions × Bool
valid_until s token none now = (s, false)
valid_until s token (some exp) now =
    if ltb now exp then (s, true) else (record s { inner = remove token s.inner }, false)

unfoldable pub valid : Sessions → String → ℕ → Sessions × Bool
valid s token now =
    if str_eq token "" then (s, false) else valid_until s token (lookup token s.inner) now

unfoldable pub revoke : Sessions → String → Sessions
revoke s token = record s { inner = remove token s.inner }

unfoldable pub revoke_all : Sessions → Sessions
revoke_all s = record s { inner = [] }

-- The setting of the database, if it can be read, and the file that `init` writes.
pub record AdminState : Type 0 where
  pub setting : Option String
  pub file_hash : Option String
  pub admin_token : String
  pub sessions : Sessions

pub data PasswordError : Type 0 where
  too_short not_stored : PasswordError

-- What a request carries: the cookie, and the header.
pub record Credentials : Type 0 where
  pub cookie_token : Option String
  pub header_token : Option String

module _ (hash : String → String) (trim : String → String) where
  unfoldable pub stored_admin_hash : AdminState → Option String
  stored_admin_hash st = or_option st.setting st.file_hash

  unfoldable pub verify_against : Option String → String → String → Bool
  verify_against (some stored) admin_token password = str_eq (hash password) stored
  verify_against none admin_token password = str_eq (hash password) (hash admin_token)

  unfoldable pub verify_admin_password : AdminState → String → Bool
  verify_admin_password st password = verify_against (stored_admin_hash st) st.admin_token password

  -- `done` says whether the database stores the setting.
  unfoldable pub set_admin_password :
      AdminState → String → Bool → AdminState × Result PasswordError (Unit {0})
  set_admin_password st password done =
      if ltb (len (trim password)) 8
      then (st, err too_short)
      else if done
      then (
        record st { setting = some (hash (trim password)); sessions = revoke_all st.sessions },
        ok tt,
      )
      else (st, err not_stored)

  -- The header: a session, or the password itself.
  unfoldable pub authenticate_header :
      AdminState → Option String → ℕ → AdminState × Result ProxyError String
  authenticate_header st none now = (st, err (proxy_error unauthorized))
  authenticate_header st (some t) now =
      let (sessions, live) = valid st.sessions t now in
      let st' = record st { sessions = sessions } in
      (st', if live || verify_admin_password st' t then ok t else err (proxy_error unauthorized))

  unfoldable pub authenticate_cookie :
      AdminState → Option String → Option String → ℕ → AdminState × Result ProxyError String
  authenticate_cookie st none header now = authenticate_header st header now
  authenticate_cookie st (some t) header now =
      let (sessions, live) = valid st.sessions t now in
      let st' = record st { sessions = sessions } in
      if live then (st', ok t) else authenticate_header st' header now

  -- After Cloudflare's assertion, where one is configured: `access` is its check.
  unfoldable pub authenticate :
      AdminState → Option Bool → Credentials → ℕ → AdminState × Result ProxyError String
  authenticate st (some false) c now = (st, err (proxy_error forbidden))
  authenticate st (some true) c now = authenticate_cookie st c.cookie_token c.header_token now
  authenticate st none c now = authenticate_cookie st c.cookie_token c.header_token now
