-- ===== src/Opaque/Conversation.antt =====
-- src/opaque_state.rs: the captures of a history, and what may be restored after it.
use kinetix.Base.{
  ℕ, ◌≡◌, refl, ap, sym, subst, ◌∙◌, arith, Bool, false, Option, none, some, List, [], ◌∷◌, All, In,
  String, ◌<>◌, inl, inr, ◌⊎◌, and_then,
}
use Prim.Native.Char.{nul}
use kinetix.Opaque.{
  OpaqueStateTarget, OpaqueStateKind, gemini_thought_signature, cache_key, tool_call_hash, Cipher,
  compatible,
}
use kinetix.Opaque.Store.{new, resolve_tool_signature, sessions_differ}
use kinetix.Opaque.History.{Event, Capture, capture, resolve, worked, pruned, flushed, run}
use kinetix.Opaque.Origin.{Laws}
use kinetix.Opaque.Restored.{Known, run-IsSourced, new-IsSourced, resolve_target-Answers}
use text.Mathlib.TextEquality.{eq_iff}
use text.Mathlib.TextLemmas.{append_cancel_left}

abbrev pub captures : List Event → List Capture
captures [] = []
captures (capture c now ∷ es) = c ∷ captures es
captures (resolve scope capability session call name now now_wall read ∷ es) = captures es
captures (worked nonce now done ∷ es) = captures es
captures (pruned now ∷ es) = captures es
captures (flushed ∷ es) = captures es

module _ (sha256_hex : String → String) (cipher : Cipher) (laws : Laws sha256_hex cipher) where
  captures-Known :
      (P : Capture → Type 0) (es : List Event)
      → ((c : Capture) → In c (captures es) → P c)
      → All (Known sha256_hex cipher laws P) es
  captures-Known P [] h = tt
  captures-Known P (capture c now ∷ es) h =
      (h c (inl refl), captures-Known P es (λ d i. h d (inr i)))
  captures-Known P (resolve scope capability session call name now now_wall read ∷ es) h =
      (tt, captures-Known P es h)
  captures-Known P (worked nonce now done ∷ es) h = (tt, captures-Known P es h)
  captures-Known P (pruned now ∷ es) h = (tt, captures-Known P es h)
  captures-Known P (flushed ∷ es) h = (tt, captures-Known P es h)

  same_kind : (a b : OpaqueStateKind) → a ≡ b
  same_kind gemini_thought_signature gemini_thought_signature = refl

  same_target :
      (t u : OpaqueStateTarget) (a b c d : String) → cache_key t a b ≡ cache_key u c d → t ≡ u
  unfolding cache_key
  same_target t u a b c d e = ground (
    arith,
    same_kind t.kind u.kind,
    ap (λ k. k.provider_id) e,
    ap (λ k. k.family) e,
    ap (λ k. k.producer) e,
    ap (λ k. k.model_id) e,
  )

  same_scope :
      (t u : OpaqueStateTarget) (x y a b : String)
      → cache_key t (sha256_hex x) a ≡ cache_key u (sha256_hex y) b
      → x ≡ y
  unfolding cache_key
  same_scope t u x y a b e = laws.collision_free x y (ap (λ k. k.scope_hash) e)

  same_call :
      (t u : OpaqueStateTarget) (x y i j a b : String)
      → x ≡ y
      → cache_key t a (tool_call_hash sha256_hex x i)
        ≡ cache_key u b (tool_call_hash sha256_hex y j)
      → i ≡ j
  unfolding cache_key tool_call_hash
  same_call t u x y i j a b s e =
      let zero_byte = String.◌∷◌ nul String.[] in
      let texts = laws.collision_free _ _ (ap (λ k. k.tool_call_hash) e) in
      append_cancel_left zero_byte i j (
        append_cancel_left x (zero_byte <> i) (zero_byte <> j)
          (texts ∙ ap (λ z. z <> zero_byte <> j) (sym s)))

  compatible_sessions :
      (stored session : Option String)
      → sessions_differ sha256_hex (and_then stored (λ x. some (sha256_hex x))) session ≡ false
      → (stored ≡ none) ⊎ ((session ≡ none) ⊎ (stored ≡ session))
  unfolding sessions_differ
  compatible_sessions none session h = inl refl
  compatible_sessions (some a) none h = inr (inl refl)
  compatible_sessions (some a) (some b) h = inr (
      inr (
        ap some
          (laws.collision_free a b (ground (arith, eq_iff (sha256_hex a) (sha256_hex b), h)))))

  -- A signature is only ever restored to the client that it was captured for, for the same tool
  -- call of the same tool, to the very target (model included) that made it, and in a session that
  -- does not contradict that of the capture: whatever was captured, evicted, expired, written,
  -- pruned and restored before. (The cipher is undone, and hashes do not collide.)
  pub restored_conversation :
      (max : ℕ) (es : List Event) (scope : String) (capability : Option OpaqueStateTarget)
      (session : Option String) (call name : String) (now now_wall : ℕ) (read : Bool)
      (signature : String)
      → (resolve_tool_signature sha256_hex cipher
          (run sha256_hex cipher (new max) es)
          scope
          capability
          session
          call
          name
          now
          now_wall
          read).1
        ≡ compatible signature
      → (c : Capture) × In c (captures es)
        × (c.scope ≡ scope)
        × (c.call ≡ call)
        × (capability ≡ some c.target)
        × (c.name ≡ name)
        × (c.signature ≡ signature)
        × ((c.session ≡ none) ⊎ ((session ≡ none) ⊎ (c.session ≡ session)))
  unfolding resolve_tool_signature
  restored_conversation max es scope capability session call name now now_wall read signature h =
      let P : Capture → Type 0 = λ c. In c (captures es) in
      let known = captures-Known P es (λ c i. i) in
      let b =
        run-IsSourced sha256_hex cipher laws P (new max) es known
          (new-IsSourced sha256_hex cipher laws P max) in
      let (t, e, (stored, (c, p, k, s, n, g), d)) =
        (resolve_target-Answers sha256_hex cipher laws P (sha256_hex scope)
            (tool_call_hash sha256_hex scope call) session name now _ capability now_wall read b).1
          signature h in
      let scopes = same_scope c.target t c.scope scope _ _ k in
      (
        c,
        p,
        scopes,
        same_call c.target t c.scope scope c.call call _ _ scopes k,
        e ∙ ap some (sym (same_target c.target t _ _ _ _ k)),
        laws.collision_free c.name name n,
        g,
        compatible_sessions c.session session
            (subst (λ z. sessions_differ sha256_hex z session ≡ false) (sym s) d),
      )
