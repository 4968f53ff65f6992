-- ===== src/Auth/OneTime.antt =====
-- src/auth.rs: a plugin's authorization state is given out once, and to the one who started it.
use kinetix.Base.{
  ℕ, ◌≡◌, refl, arith, false, Option, none, some, List, [], ◌∷◌, In, All, String, str_eq, filter,
  is_some, true, Bool-cases,
}
use kinetix.Base.Keyed.{lookup, remove, string_eq, lookup-insert, lookup-remove}
use kinetix.Auth.Plugin.{
  PluginAuthSession, PluginAuthSessions, Flow, Url, retain, create, session_of, owned, peek, status,
  record_completion, in_time, take, loopback, is_plain, allowed_redirect, take_loopback_callback,
  revoke,
}
use text.Mathlib.TextEquality.{eq_iff}

pub data PluginEvent : Type 0 where
  created : Flow → String → String → ℕ → PluginEvent
  peeked asked taken : String → String → ℕ → PluginEvent
  completed : String → String → String → Option String → ℕ → PluginEvent
  called_back : String → ℕ → PluginEvent
  revoked : String → PluginEvent

module _ (challenge : String → String) (parse : String → Option Url) where
  unfoldable pub step : PluginAuthSessions → PluginEvent → PluginAuthSessions
  step p (created f state verifier now) = (create challenge p f state verifier now).0
  step p (peeked state initiator now) = (peek p state initiator now).0
  step p (asked state initiator now) = (status p state initiator now).0
  step p (taken state initiator now) = (take p state initiator now).0
  step p (completed state initiator result provider_id now) =
      record_completion p state initiator result provider_id now
  step p (called_back state now) = (take_loopback_callback parse p state now).0
  step p (revoked state) = revoke p state

  unfoldable pub run : PluginAuthSessions → List PluginEvent → PluginAuthSessions
  run p [] = p
  run p (e ∷ es) = run (step p e) es

  -- No event starts a flow under this state.
  abbrev pub NotCreated : String → PluginEvent → Type 0
  NotCreated state (created f x verifier now) = str_eq x state ≡ false
  NotCreated state (peeked x initiator now) = Unit
  NotCreated state (asked x initiator now) = Unit
  NotCreated state (taken x initiator now) = Unit
  NotCreated state (completed x initiator result provider_id now) = Unit
  NotCreated state (called_back x now) = Unit
  NotCreated state (revoked x) = Unit

  retain-none :
      (state : String) (now : ℕ) (m : List (String × PluginAuthSession))
      → lookup state m ≡ none
      → lookup state (retain now m) ≡ none
  unfolding retain filter lookup
  retain-none state now [] h = refl
  retain-none state now ((x, s) ∷ m) h = ground (arith, retain-none state now m, h)

  remove-none :
      (state x : String) (m : List (String × PluginAuthSession))
      → lookup state m ≡ none
      → lookup state (remove x m) ≡ none
  remove-none state x m h = ground (arith, lookup-remove x state m, h)

  step-none :
      (state : String) (p : PluginAuthSessions) (e : PluginEvent)
      → NotCreated state e
      → lookup state p.inner ≡ none
      → lookup state (step p e).inner ≡ none
  unfolding step create peek status take take_loopback_callback revoke record_completion
  step-none state p (created f x verifier now) n h = ground (
    arith,
    lookup-insert x state (session_of f verifier now) (retain now p.inner),
    n,
    retain-none state now p.inner h,
  )
  step-none state p (peeked x initiator now) n h = retain-none state now p.inner h
  step-none state p (asked x initiator now) n h = ground (
    arith,
    retain-none state now p.inner h,
    Bool-cases (is_some (owned (lookup x (retain now p.inner)) initiator)),
  )
  step-none state p (taken x initiator now) n h =
      remove-none state x _ (retain-none state now p.inner h)
  step-none state p (completed x initiator result provider_id now) n h = h
  step-none state p (called_back x now) n h =
      remove-none state x _ (retain-none state now p.inner h)
  step-none state p (revoked x) n h = remove-none state x p.inner h

  run-none :
      (state : String) (p : PluginAuthSessions) (es : List PluginEvent)
      → All (NotCreated state) es
      → lookup state p.inner ≡ none
      → lookup state (run p es).inner ≡ none
  unfolding run
  run-none state p [] n h = h
  run-none state p (e ∷ es) n h = run-none state (step p e) es n.1 (step-none state p e n.0 h)

  -- The three ways to use a state up.
  pub data Use : Type 0 where
    by_take : String → ℕ → Use
    by_callback : ℕ → Use
    by_revocation : Use

  unfoldable pub use_up : PluginAuthSessions → String → Use → PluginAuthSessions
  use_up p state (by_take initiator now) = (take p state initiator now).0
  use_up p state (by_callback now) = (take_loopback_callback parse p state now).0
  use_up p state by_revocation = revoke p state

  use_up-none :
      (p : PluginAuthSessions) (state : String) (u : Use)
      → lookup state (use_up p state u).inner ≡ none
  unfolding use_up take take_loopback_callback revoke
  use_up-none p state (by_take initiator now) =
      ground (arith, lookup-remove state state (retain now p.inner), eq_iff state state)
  use_up-none p state (by_callback now) =
      ground (arith, lookup-remove state state (retain now p.inner), eq_iff state state)
  use_up-none p state by_revocation =
      ground (arith, lookup-remove state state p.inner, eq_iff state state)

  -- Once a state was presented, whoever presented it, or was revoked, nothing is given out for it
  -- again, whatever happens, unless a flow starts under the same state.
  pub used_once :
      (p : PluginAuthSessions) (state : String) (u : Use) (es : List PluginEvent)
      (initiator : String) (now : ℕ)
      → All (NotCreated state) es
      → let q = run (use_up p state u) es in
        ((take q state initiator now).1 ≡ none)
        × ((take_loopback_callback parse q state now).1 ≡ none)
        × ((peek q state initiator now).1 ≡ none)
  unfolding take take_loopback_callback peek in_time owned loopback
  used_once p state u es initiator now n =
      let gone =
        retain-none state now _ (run-none state (use_up p state u) es n (use_up-none p state u)) in
      (rw gone refl, rw gone refl, rw gone refl)

  -- The session of a flow that was started under this state.
  abbrev pub Started : List PluginEvent → String → PluginAuthSession → Type 0
  Started all state s =
      (f : Flow) × (verifier : String) × (at : ℕ) × In (created f state verifier at) all
      × (session_of f verifier at ≡ s)

  -- A redirect to this machine that the plugin's callback may come to.
  abbrev pub IsLoopback : PluginAuthSession → Type 0
  IsLoopback s =
      (u : Url) × (parse s.redirect_uri ≡ some u)
      × (is_plain u ≡ true)
      × (allowed_redirect s.plugin_id u ≡ true)

  -- Who asks for the session of a state.
  pub data Way : Type 0 where
    by_owner by_peek : String → Way
    by_loopback : Way

  unfoldable pub given_out : PluginAuthSessions → String → ℕ → Way → Option PluginAuthSession
  given_out p state now (by_owner initiator) = (take p state initiator now).1
  given_out p state now (by_peek initiator) = (peek p state initiator now).1
  given_out p state now by_loopback = (take_loopback_callback parse p state now).1

  abbrev pub MayHave : Way → PluginAuthSession → Type 0
  MayHave (by_owner initiator) s = s.initiator ≡ initiator
  MayHave (by_peek initiator) s = s.initiator ≡ initiator
  MayHave by_loopback s = IsLoopback s
