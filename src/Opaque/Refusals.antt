-- ===== src/Opaque/Refusals.antt =====
-- src/opaque_state.rs: the answers that refuse, and what is known of selected rows.
use kinetix.Base.{
  ◌≡◌, ◌≢◌, subst, arith, Bool, true, false, not, Option, none, some, List, [], ◌∷◌, All, String,
  str_eq, filter, map, Bool-cases, some-injective, inl, inr,
}
use kinetix.Opaque.{
  cache_key_eq, OpaqueLookupResult, compatible, incompatible, unavailable, missing,
  session_mismatch, tool_name_mismatch,
}
use kinetix.Opaque.Table.{StoredRow}
use kinetix.Opaque.Store.{identity_mismatch, sessions_differ, other_rows, refusal}
use kinetix.Base.Entries.{}
use text.Mathlib.TextEquality.{eq_iff}

abbrev pub IsRefusal : OpaqueLookupResult → Type 0
IsRefusal (compatible signature) = ⊥
IsRefusal missing = Unit
IsRefusal incompatible = Unit
IsRefusal session_mismatch = Unit
IsRefusal tool_name_mismatch = Unit
IsRefusal unavailable = Unit

pub refusal-ne :
    (r : OpaqueLookupResult) (signature : String) → IsRefusal r → r ≢ compatible signature
refusal-ne (compatible x) signature h e = h
refusal-ne missing signature h e = ground (arith, e)
refusal-ne incompatible signature h e = ground (arith, e)
refusal-ne session_mismatch signature h e = ground (arith, e)
refusal-ne tool_name_mismatch signature h e = ground (arith, e)
refusal-ne unavailable signature h e = ground (arith, e)

pub filter_holds :
    {A : Type 0} (P : A → Type 0) (p : A → Bool) (xs : List A)
    → All P xs
    → All (λ x. P x × (p x ≡ true)) (filter p xs)
unfolding filter
filter_holds P p [] h = tt
filter_holds P p (x ∷ xs) h = elim (Bool-cases (p x)) [
  | inl e ↦ rw e ((h.0, e), filter_holds P p xs h.1)
  | inr e ↦ rw e (filter_holds P p xs h.1)
]

pub map-All :
    {A B : Type 0} (P : B → Type 0) (Q : A → Type 0) (f : A → B) (xs : List A)
    → ((x : A) → Q x → P (f x))
    → All Q xs
    → All P (map f xs)
map-All P Q f [] g h = tt
map-All P Q f (x ∷ xs) g h = (g x h.0, map-All P Q f xs g h.1)

refusal-IsRefusal : (rows session_rows : List StoredRow) → IsRefusal (refusal rows session_rows)
unfolding refusal
refusal-IsRefusal [] session_rows = tt
refusal-IsRefusal (row ∷ rows) [] = tt
refusal-IsRefusal (row ∷ rows) (session_row ∷ session_rows) = tt

module _ (sha256_hex : String → String) where
  pub other_rows-IsRefusal :
      (rows : List StoredRow) (session : Option String) (name : String)
      → IsRefusal (other_rows sha256_hex rows session name)
  unfolding other_rows
  other_rows-IsRefusal rows session name = refusal-IsRefusal _ _

  pub mismatch-IsRefusal :
      (stored session : Option String) (stored_name name : String) (r : OpaqueLookupResult)
      → identity_mismatch sha256_hex stored stored_name session name ≡ some r
      → IsRefusal r
  unfolding identity_mismatch
  mismatch-IsRefusal stored session stored_name name r h =
      elim (Bool-cases (not (str_eq stored_name (sha256_hex name)))) [
        | inl n ↦ subst IsRefusal (some-injective (rw n at h)) tt
        | inr n ↦ elim (Bool-cases (sessions_differ sha256_hex stored session)) [
          | inl d ↦ subst IsRefusal (some-injective (rw (n, d) at h)) tt
          | inr d ↦ absurd (ground (arith, rw (n, d) at h))
        ]
      ]

  pub same_identity :
      (stored session : Option String) (stored_name name : String)
      → identity_mismatch sha256_hex stored stored_name session name ≡ none
      → (stored_name ≡ sha256_hex name) × (sessions_differ sha256_hex stored session ≡ false)
  unfolding identity_mismatch
  same_identity stored session stored_name name h =
      ground (arith, eq_iff stored_name (sha256_hex name), h)
