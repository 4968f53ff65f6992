-- ===== src/Registry.antt =====
-- src/registry.rs: the configuration snapshot and how a requested model name is resolved in it.
-- The maps are association lists in the order in which the source's `HashMap`s enumerate them. Of
-- the rows, the columns that resolution reads are kept; a route target's predicate and overrides
-- stay the stored text.
pub mod Targets
pub mod Resolution
mod Tests
use kinetix.Base.{
  ℕ, Bool, true, false, ◌&&◌, ◌||◌, not, Option, none, some, List, [], ◌∷◌, ◌++◌, map, String,
  str_eq, if◌then◌else◌, ◌==◌, get, find, filter, values, ℤ, and_then, or_option, unwrap_or,
}
use kinetix.Types.{Prices}

pub record ProviderRow : Type 0 where
  pub id : String
  pub name : String
  pub credential_mode : String
  pub enabled : ℕ

pub record AccountRow : Type 0 where
  pub id : String
  pub provider_id : String
  pub label : String

pub record ModelRow : Type 0 where
  pub id : String
  pub provider_id : String
  pub upstream_id : String
  pub enabled : ℕ
  pub max_output_tokens : Option ℤ
  pub prices : Prices

pub record AliasRow : Type 0 where
  pub alias : String
  pub target_type : String
  pub target_id : String

pub record RouteRow : Type 0 where
  pub id : String
  pub name : String
  pub enabled : ℕ

pub record RouteTargetRow : Type 0 where
  pub id : String
  pub model_id : String
  pub account_id : Option String
  pub priority : ℤ
  pub weight : ℤ
  pub predicate : String
  pub param_overrides : String

pub record Snapshot : Type 0 where
  pub providers : List (String × ProviderRow)
  pub accounts : List (String × AccountRow)
  pub models : List (String × ModelRow)
  pub model_by_upstream : List (String × String × String)
  pub aliases : List (String × AliasRow)
  pub routes : List (String × RouteRow)
  pub route_targets : List (String × List RouteTargetRow)

pub record ResolvedTarget : Type 0 where
  pub account : AccountRow
  pub model : ModelRow
  pub provider : ProviderRow
  pub route_target_id : Option String
  pub priority : ℤ
  pub weight : ℤ
  pub predicate : String
  pub param_overrides : String

pub data Resolved : Type 0 where
  single : String → String → Resolved
  route : RouteRow → List ResolvedTarget → Resolved

abbrev pub is_enabled : ℕ → Bool
is_enabled n = not (n == 0)

-- The candidate accounts of a target: the pinned one, if it is the provider's, or all of them.
unfoldable pub accounts_of : Snapshot → RouteTargetRow → ModelRow → List AccountRow
accounts_of snap t model = elim t.account_id [
  | some aid ↦ elim (get aid snap.accounts) [
    | some a ↦ if str_eq a.provider_id model.provider_id then a ∷ [] else []
    | none ↦ []
  ]
  | none ↦ filter (λ a. str_eq a.provider_id model.provider_id) (values snap.accounts)
]

abbrev pub with_account : RouteTargetRow → ModelRow → ProviderRow → AccountRow → ResolvedTarget
with_account t model provider account = record {
  account = account;
  model = model;
  provider = provider;
  route_target_id = some t.id;
  priority = t.priority;
  weight = t.weight;
  predicate = t.predicate;
  param_overrides = t.param_overrides;
}

-- One round of the loop of `build_route`: what a stored target contributes.
unfoldable pub expand_target : Snapshot → RouteTargetRow → List ResolvedTarget
unfolding accounts_of
expand_target snap t = elim (get t.model_id snap.models) [
  | none ↦ []
  | some model ↦
      if not (is_enabled model.enabled) then [] else (elim (get model.provider_id snap.providers) [
        | none ↦ []
        | some provider ↦ map (with_account t model provider) (accounts_of snap t model)
      ])
]

unfoldable pub expand_all : Snapshot → List RouteTargetRow → List ResolvedTarget
expand_all snap [] = []
expand_all snap (t ∷ ts) = expand_target snap t ++ expand_all snap ts

abbrev pub some_route : RouteRow → List ResolvedTarget → Option Resolved
some_route r [] = none
some_route r (t ∷ ts) = some (route r (t ∷ ts))

unfoldable pub build_route : Snapshot → String → Option Resolved
unfolding expand_all
build_route snap route_id = elim (get route_id snap.routes) [
  | none ↦ none
  | some r ↦
      if not (is_enabled r.enabled)
      then none
      else some_route r (expand_all snap (unwrap_or (get route_id snap.route_targets) []))
]

-- `Resolved::Single` of a model that is there and enabled.
abbrev pub single_of : Option ModelRow → Option Resolved
single_of none = none
single_of (some m) = if is_enabled m.enabled then some (single m.provider_id m.id) else none

-- 1. The alias table.
unfoldable pub by_alias : Snapshot → String → Option Resolved
unfolding build_route
by_alias snap requested = elim (get requested snap.aliases) [
  | none ↦ none
  | some a ↦
      if str_eq a.target_type "route"
      then build_route snap a.target_id
      else single_of (get a.target_id snap.models)
]

-- 2. A route by its name.
unfoldable pub by_route_name : Snapshot → String → Option Resolved
unfolding build_route
by_route_name snap requested = elim (find (λ c. str_eq c.name requested) (values snap.routes)) [
  | none ↦ none
  | some c ↦ build_route snap c.id
]

-- `model_by_upstream.get(&(provider_id, upstream_id))`
unfoldable pub upstream_model : List (String × String × String) → String → String → Option String
upstream_model [] p u = none
upstream_model ((p', u', mid) ∷ m) p u =
    if str_eq p' p && str_eq u' u then some mid else upstream_model m p u

-- 3. `provider/model-id`, already split at its first slash.
unfoldable pub by_provider : Snapshot → Option (String × String) → Option Resolved
unfolding upstream_model
by_provider snap none = none
by_provider snap (some (prov_part, model_part)) =
    elim (find (λ p. str_eq p.name prov_part || str_eq p.id prov_part) (values snap.providers)) [
      | none ↦ none
      | some p ↦ single_of (
          and_then (upstream_model snap.model_by_upstream p.id model_part)
            (λ mid. get mid snap.models))
    ]

-- 4. A bare upstream model id.
unfoldable pub by_upstream_id : Snapshot → String → Option Resolved
by_upstream_id snap requested =
    single_of
      (find (λ m. str_eq m.upstream_id requested && is_enabled m.enabled) (values snap.models))

-- `split_once('/')` is `str`'s.
unfoldable pub resolve_in :
    (String → Option (String × String)) → Snapshot → String → Option Resolved
unfolding by_alias by_route_name by_provider by_upstream_id
resolve_in split_once snap requested = or_option (by_alias snap requested) (
    or_option (by_route_name snap requested)
      (or_option (by_provider snap (split_once requested)) (by_upstream_id snap requested)))
