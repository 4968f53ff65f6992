-- ===== src/Pipeline/Failover/Effects/Sending.antt =====
-- src/pipeline.rs, `run`: what the answer of the provider makes of the attempt loop.
use kinetix.Base.{
  ℕ, ◌≡◌, refl, ap, ◌∙◌, inl, inr, Bool, true, false, ◌&&◌, Option, ◌∷◌, String, contains_str,
  arith, Bool-cases,
}
use kinetix.Types.{ProxyError, auth_error}
use kinetix.Pipeline.Policy.{route_allows_fallback, UpstreamFailure, RoutePolicy, is_auth_error}
use kinetix.Pipeline.Failover.{
  Target, Rotation, rotated, unchanged, invalid_credential, refresh_error, Reply, validated,
  invalid, not_sent, refused, Visit, Run, answer_of, dispatch, settle, after_rotation,
}
use kinetix.Pipeline.Failover.Effects.{Tried, SentStep}

module _ (to_rfc3339 : ℕ → String) (parse_dt : String → Option ℕ) (route : Option RoutePolicy)
    (allow_fallback : Bool) where
  counted :
      (r r1 : Run) (v : Visit) (t : Target)
      → Tried r r1 v t
      → (r2 : Run) → r2.pending_targets ≡ r1.pending_targets
      → r2.auth_retried_accounts ≡ r1.auth_retried_accounts
      → r2.connects ≡ r1.connects
      → r2.attempts_done ≡ r1.attempts_done
      → r2.max_attempts ≡ r1.max_attempts
      → Tried r r2 v t
  counted r r1 v t h r2 p q c a m = record {
    pending = p ∙ h.pending;
    retried = q ∙ h.retried;
    connected = c ∙ h.connected;
    attempts = a ∙ h.attempts;
    limit = m ∙ h.limit;
  }

  settle-Sent :
      (r r1 : Run) (v : Visit) (t : Target) (f : UpstreamFailure) (e : ProxyError) (b : Bool)
      (now : ℕ)
      → Tried r r1 v t
      → SentStep r v t (settle to_rfc3339 parse_dt route allow_fallback r1 t f e b now)
  settle-Sent r r1 v t f e b now h =
      elim (Bool-cases (allow_fallback && route_allows_fallback route f.kind)) [
        | inl c ↦ rw c (inl (counted r r1 v t h _ refl refl refl refl refl))
        | inr c ↦ rw c (counted r r1 v t h _ refl refl refl refl refl)
      ]

  after_rotation-Sent :
      (r r1 : Run) (v : Visit) (t : Target) (f : UpstreamFailure) (e : ProxyError) (rot : Rotation)
      (now : ℕ)
      → Tried r r1 v t
      → contains_str t.account.id r1.auth_retried_accounts ≡ false
      → SentStep r v t (after_rotation to_rfc3339 parse_dt route allow_fallback r1 t f e rot now)
  after_rotation-Sent r r1 v t f e rotated now h c = inr (record {
    pending = ap (λ z. t ∷ z) h.pending;
    retried = ap (λ z. t.account.id ∷ z) h.retried;
    once = rw (← h.retried) c;
    connected = h.connected;
    attempts = omega (arith, h.attempts);
    limit = h.limit;
  })
  after_rotation-Sent r r1 v t f e unchanged now h c = settle-Sent r r1 v t f e true now h
  after_rotation-Sent r r1 v t f e invalid_credential now h c = settle-Sent r r1 v t f e true now h
  after_rotation-Sent r r1 v t f e (refresh_error after retryable) now h c =
      elim (Bool-cases (allow_fallback && route_allows_fallback route auth_error)) [
        | inl b ↦ rw b (inl (counted r r1 v t h _ refl refl refl refl refl))
        | inr b ↦ rw b (counted r r1 v t h _ refl refl refl refl refl)
      ]

  answer_of-Sent :
      (r r1 : Run) (v : Visit) (t : Target) (reply : Reply)
      → Tried r r1 v t
      → SentStep r v t (answer_of to_rfc3339 parse_dt route allow_fallback r1 v t reply)
  unfolding answer_of
  answer_of-Sent r r1 v t validated h = counted r r1 v t h _ refl refl refl refl refl
  answer_of-Sent r r1 v t (invalid f) h = settle-Sent r r1 v t f _ true v.now h
  answer_of-Sent r r1 v t (not_sent f) h = settle-Sent r r1 v t f _ false v.now h
  answer_of-Sent r r1 v t (refused status f rot) h = elim (Bool-cases (is_auth_error f.kind)) [
    | inl a ↦ elim (Bool-cases (contains_str t.account.id r1.auth_retried_accounts)) [
      | inl c ↦ rw (a, c) (settle-Sent r r1 v t f _ true v.now h)
      | inr c ↦ rw (a, c) (after_rotation-Sent r r1 v t f _ rot v.now h c)
    ]
    | inr a ↦ rw a (settle-Sent r r1 v t f _ true v.now h)
  ]

  pub dispatch-Sent :
      (r : Run) (v : Visit) (t : Target) (probing : Bool)
      → SentStep r v t (dispatch to_rfc3339 parse_dt route allow_fallback r v t probing)
  unfolding dispatch
  dispatch-Sent r v t true =
      answer_of-Sent r _ v t v.reply
        (record { pending = refl; retried = refl; connected = refl; attempts = refl; limit = refl })
  dispatch-Sent r v t false =
      answer_of-Sent r _ v t v.reply
        (record { pending = refl; retried = refl; connected = refl; attempts = refl; limit = refl })
