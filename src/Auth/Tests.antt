-- ===== src/Auth/Tests.antt =====
-- Two sessions, one plugin flow, and a password with a space after it.
use kinetix.Base.{
  ℕ, ◌≡◌, ◌↔◌, refl, arith, true, false, Option, none, some, List, [], ◌∷◌, String, str_eq,
  if◌then◌else◌, ok, filter, seconds,
}
use kinetix.Base.Keyed.{lookup, insert, remove}
use kinetix.Auth.{
  AdminState, Credentials, new, create, valid, valid_until, revoke, verify_admin_password,
  set_admin_password, authenticate, authenticate_cookie, authenticate_header,
}
use kinetix.Auth.Live.{
  SessionEvent, created, checked, revoked, run, step, is_live, session_end, valid-session_end,
}
use kinetix.Auth.Password.{set_admin_password-verify}
use kinetix.Auth.Plugin.{Flow, PluginAuthSession, Url, session_of, retain, in_time}
use kinetix.Auth.Plugin
use kinetix.Auth.OneTime.{PluginEvent, peeked, completed, Use, by_take, used_once}
use kinetix.Auth.OneTime

abbrev history : List SessionEvent
history =
    created "a" (seconds 0)
    ∷ created "b" (seconds 30)
    ∷ checked "a" (seconds 61)
    ∷ revoked "b"
    ∷ created "b" (seconds 90)
    ∷ []

valid-session_end_example :
    (valid (run (new 1) history) "b" (seconds 149)).1
    ≡ is_live (session_end (new 1).ttl "b" none history) (seconds 149)
valid-session_end_example = valid-session_end 1 "b" history (seconds 149) refl (omega arith)

still_live : (valid (run (new 1) history) "b" (seconds 149)).1 ≡ true
unfolding valid valid_until run step create revoke new lookup insert remove filter
still_live = refl

abbrev flow : Flow
flow = record {
  plugin_id = "dev.kinetix.claude-code-oauth";
  flow_name = "login";
  integration_id = "claude";
  provider_id = "anthropic";
  credential_binding = "default";
  redirect_uri = "http://localhost/callback";
  initiator = "admin_session";
}

abbrev challenge : String → String
challenge v = v

abbrev parse : String → Option Url
parse s = some (record {
  scheme = "http";
  username = "";
  has_password = false;
  has_query = false;
  has_fragment = false;
  host = some "localhost";
  path = "/callback";
})

abbrev started : List PluginEvent
started =
    OneTime.created flow "state" "verifier" (seconds 10)
    ∷ peeked "state" "admin_session" (seconds 20)
    ∷ []

-- The callback gives it out too, with no session of an administrator.
called_back_session :
    (Plugin.take_loopback_callback parse
      (OneTime.run challenge parse Plugin.new started)
      "state"
      (seconds 60)).1
    ≡ some (session_of flow "verifier" (seconds 10))
unfolding Plugin.take_loopback_callback OneTime.run OneTime.step Plugin.new Plugin.create
    Plugin.peek session_of retain in_time Plugin.loopback Plugin.is_plain Plugin.allowed_redirect
    lookup insert remove filter
called_back_session = refl

-- The wrong administrator uses the state up; the right one comes too late.
used_once_example :
    let p = OneTime.run challenge parse Plugin.new started in
    let q =
      OneTime.run challenge parse
        (OneTime.use_up challenge parse p "state" (by_take "stranger" (seconds 30)))
        (completed "state" "stranger" "failed" none (seconds 31) ∷ []) in
    ((Plugin.take q "state" "admin_session" (seconds 40)).1 ≡ none)
    × ((Plugin.take_loopback_callback parse q "state" (seconds 40)).1 ≡ none)
    × ((Plugin.peek q "state" "admin_session" (seconds 40)).1 ≡ none)
used_once_example =
    used_once challenge parse (OneTime.run challenge parse Plugin.new started) "state"
      (by_take "stranger" (seconds 30))
      (completed "state" "stranger" "failed" none (seconds 31) ∷ []) "admin_session" (seconds 40)
      (tt, tt)

abbrev hash : String → String
hash s = s

abbrev trim : String → String
trim s = if str_eq s "correct horse " then "correct horse" else s

abbrev state : AdminState
state = record {
  setting = none;
  file_hash = some "old password";
  admin_token = "token";
  sessions = record { inner = ("a", seconds 60) ∷ []; ttl = seconds 60 };
}

stored : (set_admin_password hash trim state "correct horse " true).1 ≡ ok tt
unfolding set_admin_password
stored = refl

set_admin_password-verify_example :
    let st = (set_admin_password hash trim state "correct horse " true).0 in
    ((q : String) → (verify_admin_password hash trim st q ≡ true) ↔ (q ≡ trim "correct horse "))
    × ((t : String) (now : ℕ) → (valid st.sessions t now).1 ≡ false)
set_admin_password-verify_example =
    set_admin_password-verify hash trim (λ a b e. e) state "correct horse " true stored

abbrev request : Credentials
request = record { cookie_token = some "gone"; header_token = some "a" }

let_in : (authenticate hash trim state (some true) request (seconds 30)).1 ≡ ok "a"
unfolding authenticate authenticate_cookie authenticate_header valid valid_until lookup
let_in = refl
