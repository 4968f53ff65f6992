-- ===== src/Base/Entries.antt =====
-- What holds of all entries of a list or of a map survives the source's operations on them.
use mathlib.Core.Bool.{Bool}
use mathlib.Core.Option.{some}
use mathlib.Core.List.{List, [], ◌∷◌}
use mathlib.Core.Path.{◌≡◌, subst}
use mathlib.Core.Logic.{inl, inr}
use native.Mathlib.Omega.{arith}
use kinetix.Base.Tests.{Bool-cases, some-injective}
use kinetix.Base.Lists.{All}
use kinetix.Base.Maps.{filter, find}
use kinetix.Base.Keyed.{KeyEq, lookup, insert, remove}

-- A predicate on the entries of a list survives selection.
module _ {A : Type 0} (P : A → Type 0) where
  pub filter-All : (p : A → Bool) (xs : List A) → All P xs → All P (filter p xs)
  unfolding filter
  filter-All p [] h = tt
  filter-All p (x ∷ xs) h = elim (Bool-cases (p x)) [
    | inl e ↦ rw e (h.0, filter-All p xs h.1)
    | inr e ↦ rw e (filter-All p xs h.1)
  ]

  pub find-All : (p : A → Bool) (xs : List A) (x : A) → All P xs → find p xs ≡ some x → P x
  unfolding find
  find-All p [] x h e = absurd (ground (arith, e))
  find-All p (y ∷ xs) x h e = elim (Bool-cases (p y)) [
    | inl t ↦ subst P (some-injective (rw t at e)) h.0
    | inr t ↦ find-All p xs x h.1 (rw t at e)
  ]

module _ {K V : Type 0} ⦃e : KeyEq K⦄ (P : K → V → Type 0) where
  abbrev pub AllEntries : List (K × V) → Type 0
  AllEntries = All (λ x. P x.0 x.1)

  pub insert-AllEntries :
      (k : K) (v : V) (m : List (K × V)) → P k v → AllEntries m → AllEntries (insert k v m)
  unfolding insert
  insert-AllEntries k v [] h a = (h, tt)
  insert-AllEntries k v ((j, w) ∷ m) h a = elim (Bool-cases (e.beq j k)) [
    | inl same ↦ rw same (h, a.1)
    | inr other ↦ rw other (a.0, insert-AllEntries k v m h a.1)
  ]

  pub remove-AllEntries : (k : K) (m : List (K × V)) → AllEntries m → AllEntries (remove k m)
  unfolding remove
  remove-AllEntries k [] a = tt
  remove-AllEntries k ((j, w) ∷ m) a = elim (Bool-cases (e.beq j k)) [
    | inl same ↦ rw same (remove-AllEntries k m a.1)
    | inr other ↦ rw other (a.0, remove-AllEntries k m a.1)
  ]

  pub lookup-AllEntries :
      (k : K) (m : List (K × V)) (v : V) → AllEntries m → lookup k m ≡ some v → P k v
  unfolding lookup
  lookup-AllEntries k [] v a h = absurd (ground (arith, h))
  lookup-AllEntries k ((j, w) ∷ m) v a h = elim (Bool-cases (e.beq j k)) [
    | inl same ↦
        subst (λ x. P x v) ((e.beq_iff j k).0 same)
          (subst (P j) (some-injective (rw same at h)) a.0)
    | inr other ↦ lookup-AllEntries k m v a.1 (rw other at h)
  ]
