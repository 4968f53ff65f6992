-- ===== src/Limits/Patterns.antt =====
-- src/limits.rs: a key that passes is active, not expired, and names the model in its list.
use Prim.Native.Char.{code, Char, char}
use text.Mathlib.TextBridge.{IsPrefix}
use text.Mathlib.TextEquality.{eq_iff, starts_with_iff, Char-path}
use text.Mathlib.TextLemmas.{nil-append, cons-append}
use kinetix.Base.{
  unwrap_or, ℕ, ◌<◌, ◌≡◌, ◌≢◌, refl, ap, sym, ◌∙◌, arith, true, ◌==◌, ==_iff, Option, none, some,
  List, [], ◌∷◌, In, ◌⊎◌, inl, inr, Bool-cases, Option-cases, String, ◌<>◌, str_eq, contains_str,
  any, ok, and_then,
}
use kinetix.Limits.Key.{KeyPolicy, strip_star, permits_by, permits_model, is_expired, validate}

-- The entry is the model's name, or a prefix of it followed by a star.
abbrev pub Matches : String → String → Type 0
Matches model m = (m ≡ model) ⊎ ((prefix : String) × (m ≡ prefix <> "*") × IsPrefix prefix model)

abbrev star : Char
star = char 42 tt

strip_star-append : (m p : String) → strip_star m ≡ some p → m ≡ p <> "*"
unfolding strip_star
strip_star-append String.[] p h = absurd (ground (arith, h))
strip_star-append (String.◌∷◌ c String.[]) p h = elim (Bool-cases (code c == 42)) [
  | inl e ↦
      let ends : some String.[] ≡ some p = rw e at h in
      let is_star : c ≡ star = Char-path c star ((==_iff (code c) 42).0 e) in
      ap (λ x. String.◌∷◌ x String.[]) is_star
      ∙ sym (nil-append "*")
      ∙ ap (λ o. unwrap_or o "" <> "*") ends
  | inr e ↦ absurd (ground (arith, rw e at h))
]
strip_star-append (String.◌∷◌ c (String.◌∷◌ d s)) p h =
    elim (Option-cases (strip_star (String.◌∷◌ d s))) [
      | inl e ↦ absurd (ground (arith, rw e at h))
      | inr (r, e) ↦
          let shorter = strip_star-append (String.◌∷◌ d s) r e in
          let whole : some (String.◌∷◌ c r) ≡ some p = rw e at h in
          ap (String.◌∷◌ c) shorter
          ∙ sym (cons-append c r "*")
          ∙ ap (λ o. unwrap_or o "" <> "*") whole
    ]

permits_by-Matches :
    (o : Option String) (m model : String)
    → strip_star m ≡ o
    → permits_by o m model ≡ true
    → Matches model m
unfolding permits_by
permits_by-Matches none m model e h = inl ((eq_iff m model).0 h)
permits_by-Matches (some p) m model e h =
    inr (p, strip_star-append m p e, (starts_with_iff model p).0 h)

contains-Matches :
    (ms : List String) (model : String)
    → contains_str "*" ms ≡ true
    → (m : String) × In m ms × Matches model m
contains-Matches [] model h = absurd (ground (arith, h))
contains-Matches (m ∷ ms) model h = elim (Bool-cases (str_eq "*" m)) [
  | inl e ↦ (m, inl refl, inr ("", sym ((eq_iff "*" m).0 e), (model, nil-append model)))
  | inr e ↦ let (n, at, k) = contains-Matches ms model (rw e at h) in (n, inr at, k)
]

any-Matches :
    (ms : List String) (model : String)
    → any (λ m. permits_by (strip_star m) m model) ms ≡ true
    → (m : String) × In m ms × Matches model m
any-Matches [] model h = absurd (ground (arith, h))
any-Matches (m ∷ ms) model h = elim (Bool-cases (permits_by (strip_star m) m model)) [
  | inl e ↦ (m, inl refl, permits_by-Matches (strip_star m) m model refl e)
  | inr e ↦ let (n, at, k) = any-Matches ms model (rw e at h) in (n, inr at, k)
]

permits_model-Matches :
    (key : KeyPolicy) (model : String)
    → permits_model key model ≡ true
    → (m : String) × In m key.allowed_models × Matches model m
unfolding permits_model
permits_model-Matches key model h = elim (Bool-cases (contains_str "*" key.allowed_models)) [
  | inl e ↦ contains-Matches key.allowed_models model e
  | inr e ↦ any-Matches key.allowed_models model (rw e at h)
]

-- A key that passes is neither revoked nor disabled, its time of expiry (if it can be read) is not
-- reached, and its list of models has the model's name or a prefix of it with a star.
pub validate-Matches :
    (parse_dt : String → Option ℕ) (key : KeyPolicy) (model : String) (now : ℕ)
    → validate parse_dt key model now ≡ ok tt
    → (key.status ≢ "revoked")
      × (key.status ≢ "disabled")
      × ((t : ℕ) → and_then key.expires_at parse_dt ≡ some t → now < t)
      × ((m : String) × In m key.allowed_models × Matches model m)
unfolding validate is_expired
validate-Matches parse_dt key model now h = elim (Bool-cases (str_eq key.status "revoked")) [
  | inl r ↦ absurd (ground (arith, rw r at h))
  | inr r ↦ elim (Bool-cases (str_eq key.status "disabled")) [
    | inl d ↦ absurd (ground (arith, rw (r, d) at h))
    | inr d ↦ elim (Bool-cases (is_expired parse_dt key now)) [
      | inl x ↦ absurd (ground (arith, rw (r, d, x) at h))
      | inr x ↦ elim (Bool-cases (permits_model key model)) [
        | inl m ↦ (
          λ e. ground (arith, (eq_iff key.status "revoked").1 e, r),
          λ e. ground (arith, (eq_iff key.status "disabled").1 e, d),
          λ t e. ground (arith, rw e at x),
          permits_model-Matches key model m,
        )
        | inr m ↦ absurd (ground (arith, rw (r, d, x, m) at h))
      ]
    ]
  ]
]
