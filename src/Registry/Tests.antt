-- ===== src/Registry/Tests.antt =====
-- A configuration with two accounts, a route and an alias.
use kinetix.Base.{
  ◌≡◌, refl, none, some, [], ◌∷◌, String, Option, str_eq, if◌then◌else◌, pos, get, find,
}
use kinetix.Types.{Prices}
use kinetix.Registry.{
  AccountRow, ModelRow, AliasRow, Snapshot, single, by_alias, by_route_name, by_provider,
  by_upstream_id, upstream_model, resolve_in,
}
use kinetix.Registry.Targets.{Servable}
use kinetix.Registry.Resolution.{resolve_in-Servable}

abbrev free : Prices
free = record {
  input_per_1m = none;
  output_per_1m = none;
  cached_per_1m = none;
  cache_write_per_1m = none;
  thinking_per_1m = none;
}

abbrev model : ModelRow
model = record {
  id = "m1";
  provider_id = "p1";
  upstream_id = "large";
  enabled = 1;
  max_output_tokens = none;
  prices = free;
}

abbrev account : String → AccountRow
account id = record { id = id; provider_id = "p1"; label = id }

abbrev alias : AliasRow
alias = record { alias = "best"; target_type = "model"; target_id = "m1" }

abbrev snap : Snapshot
snap = record {
  providers =
      ("p1", record { id = "p1"; name = "acme"; credential_mode = "api_key"; enabled = 1 }) ∷ [];
  accounts = ("a1", account "a1") ∷ ("a2", account "a2") ∷ [];
  models = ("m1", model) ∷ [];
  model_by_upstream = ("p1", "large", "m1") ∷ [];
  aliases = ("best", alias) ∷ [];
  routes = ("r1", record { id = "r1"; name = "main"; enabled = 1 }) ∷ [];
  route_targets =
      (
        "r1",
        record {
          id = "t1";
          model_id = "m1";
          account_id = none;
          priority = pos 1;
          weight = pos 1;
          predicate = "{}";
          param_overrides = "{}";
        }
            ∷ [],
      )
      ∷ [];
}

-- `split_once('/')` at the one name that the test asks for.
abbrev split_once : String → Option (String × String)
split_once name = if str_eq name "acme/large" then some ("acme", "large") else none

by_provider_found : resolve_in split_once snap "acme/large" ≡ some (single "p1" "m1")
unfolding resolve_in by_alias by_route_name by_provider by_upstream_id upstream_model get find
by_provider_found = refl

resolve_in-Servable_example : Servable snap (single "p1" "m1")
resolve_in-Servable_example =
    resolve_in-Servable split_once snap "acme/large" (single "p1" "m1") by_provider_found

alias_found : get "best" snap.aliases ≡ some alias
unfolding get
alias_found = refl

model_found : get "m1" snap.models ≡ some model
unfolding get
model_found = refl
