-- ===== src/Registry/Resolution.antt =====
-- What a name can resolve to: never a disabled model or route, never an account of another provider.
use kinetix.Base.{
  In, ◌≡◌, refl, inl, inr, true, false, ◌&&◌, ◌||◌, Option, none, some, List, [], ◌∷◌, String,
  str_eq, All, get, find, values, Bool-cases, Option-cases, and_then, or_option,
}
use kinetix.Registry.{
  AliasRow, ModelRow, RouteRow, Snapshot, ResolvedTarget, Resolved, single, is_enabled, build_route,
  some_route, single_of, by_alias, by_route_name, by_provider, by_upstream_id, upstream_model,
  resolve_in,
}
use kinetix.Registry.Targets.{Routable, Servable, get-In, find-In, expand_all-Routable}

-- Whatever a step of the resolution yields can be served.
abbrev pub Yields : Snapshot → Option Resolved → Type 0
Yields snap none = Unit
Yields snap (some r) = Servable snap r

some_route-Yields :
    (snap : Snapshot) (r : RouteRow) (ts : List ResolvedTarget)
    → In r (values snap.routes)
    → is_enabled r.enabled ≡ true
    → All (Routable snap) ts
    → Yields snap (some_route r ts)
some_route-Yields snap r [] i en h = tt
some_route-Yields snap r (t ∷ ts) i en h = (i, en, λ e. cc, h)

build_route-Yields : (snap : Snapshot) (id : String) → Yields snap (build_route snap id)
unfolding build_route
build_route-Yields snap id = elim (Option-cases (get id snap.routes)) [
  | inl e ↦ rw (e, build_route) tt
  | inr (r, e) ↦ elim (Bool-cases (is_enabled r.enabled)) [
    | inr off ↦ rw (e, build_route) (rw off tt)
    | inl on ↦
        rw (e, build_route)
          (rw on (
            some_route-Yields snap r _ (get-In id snap.routes r e) on (expand_all-Routable snap _)))
  ]
]

single_of-Yields :
    (snap : Snapshot) (o : Option ModelRow)
    → ((m : ModelRow) → o ≡ some m → In m (values snap.models))
    → Yields snap (single_of o)
single_of-Yields snap none h = tt
single_of-Yields snap (some m) h = elim (Bool-cases (is_enabled m.enabled)) [
  | inl on ↦ rw on (m, h m refl, on, refl, refl)
  | inr off ↦ rw off tt
]

or_option-Yields :
    (snap : Snapshot) (a b : Option Resolved)
    → Yields snap a
    → Yields snap b
    → Yields snap (or_option a b)
or_option-Yields snap none b h k = k
or_option-Yields snap (some r) b h k = h

by_alias-Yields : (snap : Snapshot) (name : String) → Yields snap (by_alias snap name)
unfolding by_alias
by_alias-Yields snap name = elim (Option-cases (get name snap.aliases)) [
  | inl e ↦ rw (e, by_alias) tt
  | inr (a, e) ↦ elim (Bool-cases (str_eq a.target_type "route")) [
    | inl k ↦ rw (e, by_alias) (rw k (build_route-Yields snap a.target_id))
    | inr k ↦
        rw (e, by_alias) (rw k (single_of-Yields snap _ (λ m. get-In a.target_id snap.models m)))
  ]
]

by_route_name-Yields : (snap : Snapshot) (name : String) → Yields snap (by_route_name snap name)
unfolding by_route_name
by_route_name-Yields snap name =
    elim (Option-cases (find (λ c. str_eq c.name name) (values snap.routes))) [
      | inl e ↦ rw (e, by_route_name) tt
      | inr (c, e) ↦ rw (e, by_route_name) (build_route-Yields snap c.id)
    ]

and_then-In :
    (snap : Snapshot) (mid : Option String) (m : ModelRow)
    → and_then mid (λ k. get k snap.models) ≡ some m
    → In m (values snap.models)
and_then-In snap none m h = cc
and_then-In snap (some k) m h = get-In k snap.models m h

by_provider-Yields :
    (snap : Snapshot) (parts : Option (String × String)) → Yields snap (by_provider snap parts)
unfolding by_provider
by_provider-Yields snap none = tt
by_provider-Yields snap (some (x, y)) =
    elim (Option-cases (find (λ p. str_eq p.name x || str_eq p.id x) (values snap.providers))) [
      | inl e ↦ rw (e, by_provider) tt
      | inr (p, e) ↦
          rw (e, by_provider)
            (single_of-Yields snap _
              (and_then-In snap (upstream_model snap.model_by_upstream p.id y)))
    ]

by_upstream_id-Yields : (snap : Snapshot) (name : String) → Yields snap (by_upstream_id snap name)
unfolding by_upstream_id
by_upstream_id-Yields snap name =
    let test = λ (m : ModelRow). str_eq m.upstream_id name && is_enabled m.enabled in
    single_of-Yields snap (find test (values snap.models))
      (λ m. find-In test (values snap.models) m)

resolve_in-Yields :
    (split_once : String → Option (String × String)) (snap : Snapshot) (name : String)
    → Yields snap (resolve_in split_once snap name)
unfolding resolve_in
resolve_in-Yields split_once snap name = or_option-Yields snap _ _ (by_alias-Yields snap name) (
    or_option-Yields snap _ _ (by_route_name-Yields snap name) (
      or_option-Yields snap _ _ (by_provider-Yields snap (split_once name))
        (by_upstream_id-Yields snap name)))

-- Whatever a requested name resolves to can be served: a single model is a configured, enabled one,
-- under its own provider id; a route is configured, enabled and not empty, and each of its targets
-- is an enabled model with its provider configured and an account of that provider.
pub resolve_in-Servable :
    (split_once : String → Option (String × String)) (snap : Snapshot) (name : String)
    (r : Resolved)
    → resolve_in split_once snap name ≡ some r
    → Servable snap r
resolve_in-Servable split_once snap name r h = rw h at (resolve_in-Yields split_once snap name)

-- An alias of an enabled model wins over every route, provider and model of the same name.
pub alias_wins :
    (split_once : String → Option (String × String)) (snap : Snapshot) (name : String)
    (a : AliasRow) (m : ModelRow)
    → get name snap.aliases ≡ some a
    → str_eq a.target_type "route" ≡ false
    → get a.target_id snap.models ≡ some m
    → is_enabled m.enabled ≡ true
    → resolve_in split_once snap name ≡ some (single m.provider_id m.id)
unfolding resolve_in
alias_wins split_once snap name a m e k f on =
    let found : by_alias snap name ≡ some (single m.provider_id m.id) =
      rw (e, by_alias) (rw k (rw f (rw on))) in
    rw found
