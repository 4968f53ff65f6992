-- ===== src/Base/Maps.antt =====
-- String-keyed maps as association lists, in the order in which the source's map enumerates them.
use Prim.Native.String.{String}
use mathlib.Core.Bool.{Bool, true}
use mathlib.Core.Option.{Option, none, some}
use mathlib.Core.List.{List, [], ◌∷◌}
use mathlib.Core.Path.{◌≡◌}
use native.Mathlib.Omega.{arith}
use kinetix.Base.Tests.{if◌then◌else◌}
use kinetix.Base.Results.{str_eq}

module _ {ℓ} {A : Type ℓ} where
  -- `map.get(key)`
  unfoldable pub get : String → List (String × A) → Option A
  get k [] = none
  get k ((j, v) ∷ m) = if str_eq j k then some v else get k m

  -- `values().find(p)` and `iter().find(p)`
  unfoldable pub find : (A → Bool) → List A → Option A
  find p [] = none
  find p (x ∷ xs) = if p x then some x else find p xs

  unfoldable pub filter : (A → Bool) → List A → List A
  filter p [] = []
  filter p (x ∷ xs) = if p x then x ∷ filter p xs else filter p xs

  abbrev pub values : List (String × A) → List A
  values [] = []
  values ((k, v) ∷ m) = v ∷ values m

  pub find_holds : (p : A → Bool) (xs : List A) (x : A) → find p xs ≡ some x → p x ≡ true
  unfolding find
  find_holds p [] x h = cc
  find_holds p (y ∷ xs) x h = ground (arith, find_holds p xs x)
