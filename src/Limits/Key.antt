-- ===== src/Limits/Key.antt =====
-- src/limits.rs and src/db.rs: the policy of a virtual key, checked before admission.
use Prim.Native.Char.{code}
use text.Mathlib.Text.{starts_with}
use kinetix.Base.{
  ℕ, Bool, true, Option, none, some, List, String, str_eq, contains_str, leb, ◌==◌, any,
  if◌then◌else◌, is_some_and, and_then, Result, ok, err,
}
use kinetix.Types.{ProxyError, new, unauthorized, forbidden}

-- The columns of `VirtualKeyRow` that `validate` reads; the models are those that
-- `allowed_models` makes of the row's text.
pub record KeyPolicy : Type 0 where
  pub status : String
  pub expires_at : Option String
  pub allowed_models : List String

-- `str::strip_suffix('*')`
unfoldable pub strip_star : String → Option String
strip_star String.[] = none
strip_star (String.◌∷◌ c String.[]) = if code c == 42 then some String.[] else none
strip_star (String.◌∷◌ c (String.◌∷◌ d s)) =
    and_then (strip_star (String.◌∷◌ d s)) (λ r. some (String.◌∷◌ c r))

unfoldable pub permits_by : Option String → String → String → Bool
permits_by (some prefix) m model = starts_with model prefix
permits_by none m model = str_eq m model

unfoldable pub permits_model : KeyPolicy → String → Bool
permits_model key model =
    if contains_str "*" key.allowed_models
    then true
    else any (λ m. permits_by (strip_star m) m model) key.allowed_models

-- `now` and the times that `parse_dt` reads are nanoseconds.
module _ (parse_dt : String → Option ℕ) where
  unfoldable pub is_expired : KeyPolicy → ℕ → Bool
  is_expired key now = is_some_and (and_then key.expires_at parse_dt) (λ exp. leb exp now)

  unfoldable pub validate : KeyPolicy → String → ℕ → Result ProxyError (Unit {0})
  validate key model now =
      if str_eq key.status "revoked"
      then err (new unauthorized)
      else if str_eq key.status "disabled"
      then err (new forbidden)
      else if is_expired key now
      then err (new unauthorized)
      else if permits_model key model
      then ok tt
      else err (new forbidden)
