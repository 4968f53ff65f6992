-- ===== src/Registry/Targets.antt =====
-- The targets of a route: enabled models, with a configured provider and its own accounts.
use text.Mathlib.TextEquality.{eq_iff}
use kinetix.Base.{
  In, ◌≡◌, ◌≢◌, inl, inr, Bool, true, some, List, [], ◌∷◌, map, String, str_eq, All, All-append,
  get, find, filter, values, arith, Bool-cases, Option-cases,
}
use kinetix.Registry.{
  ProviderRow, AccountRow, ModelRow, RouteTargetRow, Snapshot, ResolvedTarget, Resolved, single,
  route, is_enabled, accounts_of, with_account, expand_target, expand_all,
}

module _ {A : Type 0} where
  pub get-In : (k : String) (m : List (String × A)) (v : A) → get k m ≡ some v → In v (values m)
  unfolding get
  get-In k [] v h = cc
  get-In k ((j, w) ∷ m) v h = elim (Bool-cases (str_eq j k)) [
    | inl e ↦ inl (ground (arith, e))
    | inr e ↦ inr (get-In k m v (ground (arith, e)))
  ]

  pub find-In : (p : A → Bool) (xs : List A) (x : A) → find p xs ≡ some x → In x xs
  unfolding find
  find-In p [] x h = cc
  find-In p (y ∷ xs) x h = elim (Bool-cases (p y)) [
    | inl e ↦ inl (ground (arith, e))
    | inr e ↦ inr (find-In p xs x (ground (arith, e)))
  ]

-- A target of a resolved route: of an enabled model, a configured provider of that model, and an
-- account of that provider.
pub record Routable (snap : Snapshot) (t : ResolvedTarget) : Type 0 where
  pub model_enabled : is_enabled t.model.enabled ≡ true
  pub provider_configured : get t.model.provider_id snap.providers ≡ some t.provider
  pub account_matches : t.account.provider_id ≡ t.model.provider_id

-- What a request can be served by.
abbrev pub Servable : Snapshot → Resolved → Type 0
Servable snap (single provider_id model_id) =
    (m : ModelRow) × In m (values snap.models)
    × (is_enabled m.enabled ≡ true)
    × (m.id ≡ model_id)
    × (m.provider_id ≡ provider_id)
Servable snap (route r ts) =
    In r (values snap.routes) × (is_enabled r.enabled ≡ true) × (ts ≢ []) × All (Routable snap) ts

filter-All :
    (p : String) (xs : List AccountRow)
    → All (λ a. a.provider_id ≡ p) (filter (λ a. str_eq a.provider_id p) xs)
unfolding filter
filter-All p [] = tt
filter-All p (a ∷ xs) = ground (arith, eq_iff a.provider_id p, filter-All p xs)

accounts_of_provider :
    (snap : Snapshot) (t : RouteTargetRow) (m : ModelRow)
    → All (λ a. a.provider_id ≡ m.provider_id) (accounts_of snap t m)
unfolding accounts_of
accounts_of_provider snap t m = elim (Option-cases t.account_id) [
  | inl e ↦ rw (e, accounts_of) (filter-All m.provider_id (values snap.accounts))
  | inr (aid, e) ↦ elim (Option-cases (get aid snap.accounts)) [
    | inl f ↦ rw (e, f, accounts_of) tt
    | inr (a, f) ↦ elim (Bool-cases (str_eq a.provider_id m.provider_id)) [
      | inl g ↦ rw (e, accounts_of) (rw f (rw g ((eq_iff a.provider_id m.provider_id).0 g, tt)))
      | inr g ↦ rw (e, accounts_of) (rw f (rw g tt))
    ]
  ]
]

with_account-Routable :
    (snap : Snapshot) (t : RouteTargetRow) (m : ModelRow) (p : ProviderRow) (accs : List AccountRow)
    → is_enabled m.enabled ≡ true
    → get m.provider_id snap.providers ≡ some p
    → All (λ a. a.provider_id ≡ m.provider_id) accs
    → All (Routable snap) (map (with_account t m p) accs)
with_account-Routable snap t m p [] en pr h = tt
with_account-Routable snap t m p (a ∷ l) en pr h = (
  record { model_enabled = en; provider_configured = pr; account_matches = h.0 },
  with_account-Routable snap t m p l en pr h.1,
)

expand_target-Routable :
    (snap : Snapshot) (t : RouteTargetRow) → All (Routable snap) (expand_target snap t)
unfolding expand_target
expand_target-Routable snap t = elim (Option-cases (get t.model_id snap.models)) [
  | inl e ↦ rw (e, expand_target) tt
  | inr (m, e) ↦ elim (Bool-cases (is_enabled m.enabled)) [
    | inr off ↦ rw (e, expand_target) (rw off tt)
    | inl on ↦ elim (Option-cases (get m.provider_id snap.providers)) [
      | inl f ↦ rw (e, expand_target) (rw on (rw f tt))
      | inr (p, f) ↦
          rw (e, expand_target)
            (rw on (
              rw f (
                with_account-Routable snap t m p (accounts_of snap t m) on f
                  (accounts_of_provider snap t m))))
    ]
  ]
]

pub expand_all-Routable :
    (snap : Snapshot) (ts : List RouteTargetRow) → All (Routable snap) (expand_all snap ts)
unfolding expand_all
expand_all-Routable snap [] = tt
expand_all-Routable snap (t ∷ ts) =
    All-append (Routable snap) (expand_target snap t) (expand_all snap ts)
      (expand_target-Routable snap t) (expand_all-Routable snap ts)
