-- ===== src/Base/Keyed.antt =====
-- Maps as association lists over keys with a Boolean equality, and lists of such keys.
use Prim.Native.Nat.{suc, ◌≤◌}
use mathlib.Core.Bool.{Bool, true}
use mathlib.Core.Option.{Option, none, some}
use mathlib.Core.List.{List, [], ◌∷◌}
use mathlib.Core.Path.{◌≡◌, refl, subst, ◌∙◌}
use mathlib.Core.Logic.{◌↔◌, ◌≢◌, inl, inr}
use native.Mathlib.Omega.{arith}
use kinetix.Base.Tests.{if◌then◌else◌, Bool-cases, and_then}
use kinetix.Base.Lists.{length, any}
use kinetix.Base.Maps.{filter}
use kinetix.Base.Results.{str_eq}
use Prim.Native.String.{String}
use text.Mathlib.TextEquality.{eq_iff}

-- Equality of keys, as the derived `PartialEq` computes it.
pub record KeyEq {ℓ} (K : Type ℓ) : Type ℓ where
  pub beq : K → K → Bool
  pub beq_iff : (a b : K) → (beq a b ≡ true) ↔ (a ≡ b)

module _ {K : Type 0} ⦃e : KeyEq K⦄ where
  abbrev pub contains : List K → K → Bool
  contains ks k = any (λ j. e.beq j k) ks

module _ {K V : Type 0} ⦃e : KeyEq K⦄ where
  unfoldable pub lookup : K → List (K × V) → Option V
  lookup k [] = none
  lookup k ((j, v) ∷ m) = if e.beq j k then some v else lookup k m

  unfoldable pub insert : K → V → List (K × V) → List (K × V)
  insert k v [] = (k, v) ∷ []
  insert k v ((j, w) ∷ m) = if e.beq j k then (k, v) ∷ m else (j, w) ∷ insert k v m

  unfoldable pub remove : K → List (K × V) → List (K × V)
  remove k [] = []
  remove k ((j, w) ∷ m) = if e.beq j k then remove k m else (j, w) ∷ remove k m

  pub lookup-insert :
      (k j : K) (v : V) (m : List (K × V))
      → lookup j (insert k v m) ≡ (if e.beq k j then some v else lookup j m)
  unfolding lookup insert
  lookup-insert k j v [] = refl
  lookup-insert k j v ((i, w) ∷ m) =
      ground (arith, e.beq_iff k j, e.beq_iff i k, e.beq_iff i j, lookup-insert k j v m)

  pub lookup-remove :
      (k j : K) (m : List (K × V))
      → lookup j (remove k m) ≡ (if e.beq k j then none else lookup j m)
  unfolding lookup remove
  lookup-remove k j [] = ground arith
  lookup-remove k j ((i, w) ∷ m) =
      ground (arith, e.beq_iff k j, e.beq_iff i k, e.beq_iff i j, lookup-remove k j m)

  -- No key has two entries.
  abbrev pub IsDistinct : List (K × V) → Type 0
  IsDistinct [] = Unit
  IsDistinct ((k, v) ∷ m) = (lookup k m ≡ none) × IsDistinct m

  pub insert-IsDistinct :
      (k : K) (v : V) (m : List (K × V)) → IsDistinct m → IsDistinct (insert k v m)
  unfolding insert lookup
  insert-IsDistinct k v [] d = ground arith
  insert-IsDistinct k v ((i, w) ∷ m) d =
      ground (arith, e.beq_iff i k, e.beq_iff k i, lookup-insert k i v m, insert-IsDistinct k v m)

  pub remove-IsDistinct : (k : K) (m : List (K × V)) → IsDistinct m → IsDistinct (remove k m)
  unfolding remove
  remove-IsDistinct k [] d = tt
  remove-IsDistinct k ((i, w) ∷ m) d = ground (arith, lookup-remove k i m, remove-IsDistinct k m)

  remove_absent : (k : K) (m : List (K × V)) → lookup k m ≡ none → remove k m ≡ m
  unfolding lookup remove
  remove_absent k [] h = refl
  remove_absent k ((i, w) ∷ m) h = ground (arith, remove_absent k m)

  length-remove : (k : K) (m : List (K × V)) → IsDistinct m → length m ≤ suc (length (remove k m))
  unfolding remove
  length-remove k [] d = omega arith
  length-remove k ((i, w) ∷ m) d =
      ground (arith, e.beq_iff i k, length-remove k m, remove_absent k m)

  -- `map.retain(|_, v| p(v))`
  pub lookup-retain :
      (p : V → Bool) (k : K) (m : List (K × V))
      → IsDistinct m
      → lookup k (filter (λ x. p x.1) m) ≡ and_then (lookup k m) (λ v. if p v then some v else none)
  unfolding lookup filter
  lookup-retain p k [] d = refl
  lookup-retain p k ((j, v) ∷ m) d = elim (Bool-cases (e.beq j k)) [
    | inl same ↦
        let absent : lookup k m ≡ none =
          subst (λ i. lookup i m ≡ none) ((e.beq_iff j k).0 same) d.0 in
        elim (Bool-cases (p v)) [
          | inl t ↦ rw (t, same, t) refl
          | inr t ↦ rw (t, same, t) (lookup-retain p k m d.1 ∙ rw absent refl)
        ]
    | inr other ↦ elim (Bool-cases (p v)) [
      | inl t ↦ rw (t, other) (lookup-retain p k m d.1)
      | inr t ↦ rw (t, other) (lookup-retain p k m d.1)
    ]
  ]

  pub retain-IsDistinct :
      (p : V → Bool) (m : List (K × V)) → IsDistinct m → IsDistinct (filter (λ x. p x.1) m)
  unfolding filter
  retain-IsDistinct p [] d = tt
  retain-IsDistinct p ((j, v) ∷ m) d = elim (Bool-cases (p v)) [
    | inl t ↦ rw t (lookup-retain p j m d.1 ∙ rw (d.0) refl, retain-IsDistinct p m d.1)
    | inr t ↦ rw t (retain-IsDistinct p m d.1)
  ]

  -- Every key of the map is in the list.
  abbrev pub Covers : List K → List (K × V) → Type 0
  Covers ks m = (k : K) → lookup k m ≢ none → contains ks k ≡ true

  pub remove-Covers :
      (k : K) (ks : List K) (m : List (K × V)) → Covers (k ∷ ks) m → Covers ks (remove k m)
  remove-Covers k ks m c j h = ground (arith, lookup-remove k j m, c j, h)

  -- A map has at most as many entries as any list of its keys.
  pub length-le_of_Covers :
      (ks : List K) (m : List (K × V)) → IsDistinct m → Covers ks m → length m ≤ length ks
  unfolding lookup
  length-le_of_Covers [] [] d c = omega arith
  length-le_of_Covers [] ((k, v) ∷ m) d c = absurd (ground (arith, c k, e.beq_iff k k))
  length-le_of_Covers (k ∷ ks) m d c = omega (
    arith,
    length-remove k m d,
    length-le_of_Covers ks (remove k m) (remove-IsDistinct k m d) (remove-Covers k ks m c),
  )

instance abbrev pub string_eq : KeyEq String
string_eq = record { beq = str_eq; beq_iff = eq_iff }
