-- ===== src/Circuit/Registry.antt =====
-- src/provider_circuit.rs, `ProviderCircuits`: the circuits by provider id. The `DashMap` is an
-- association list; an entry is made on first use and never removed.
use text.Mathlib.TextEquality.{eq_iff}
use kinetix.Base.{
  ℕ, ◌≡◌, ◌≢◌, refl, List, [], ◌∷◌, map, String, str_eq, if◌then◌else◌, Result, arith,
}
use kinetix.Circuit.{
  Circuit, Attempt, Reject, Snapshot, CorrelationPolicy, default_circuit, check_available,
  begin_attempt_with_policy,
}
use kinetix.Circuit as Circuits

abbrev pub ProviderCircuits : Type 0
ProviderCircuits = List (String × Circuit)

-- `entry(id).or_insert_with(default)`: the circuit of a provider.
unfoldable pub circuit : ProviderCircuits → String → Circuit
circuit [] id = default_circuit
circuit ((j, c) ∷ m) id = if str_eq j id then c else circuit m id

-- The circuit behind the lock is replaced by what a method made of it.
unfoldable pub store : ProviderCircuits → String → Circuit → ProviderCircuits
store [] id c = (id, c) ∷ []
store ((j, d) ∷ m) id c = if str_eq j id then (j, c) ∷ m else (j, d) ∷ store m id c

unfoldable pub check : ProviderCircuits → String → ℕ → ProviderCircuits × Result Reject (Unit {0})
unfolding circuit store
check m id now = let (c, r) = check_available (circuit m id) id now in (store m id c, r)

unfoldable pub begin :
    ProviderCircuits
    → String
    → String
    → String
    → CorrelationPolicy
    → ℕ
    → ProviderCircuits × Result Reject Attempt
unfolding circuit store
begin m id account_id target_id policy now =
    let (c, r) = begin_attempt_with_policy (circuit m id) id account_id target_id policy now in
    (store m id c, r)

unfoldable pub snapshot_of : ProviderCircuits → String → ℕ → ProviderCircuits × Snapshot
unfolding circuit store
snapshot_of m id now = let (c, s) = Circuits.snapshot (circuit m id) id now in (store m id c, s)

-- `snapshots()` locks each circuit in turn.
unfoldable pub snapshots : ProviderCircuits → ℕ → ProviderCircuits × List Snapshot
snapshots m now = (
  map (λ e. (e.0, (Circuits.snapshot e.1 e.0 now).0)) m,
  map (λ e. (Circuits.snapshot e.1 e.0 now).1) m,
)

pub circuit-store :
    (m : ProviderCircuits) (id j : String) (c : Circuit)
    → circuit (store m id c) j ≡ (if str_eq id j then c else circuit m j)
unfolding circuit store
circuit-store [] id j c = refl
circuit-store ((i, d) ∷ m) id j c =
    ground (arith, eq_iff id j, eq_iff i id, eq_iff i j, circuit-store m id j c)

-- An attempt on one provider is decided by that provider's circuit alone, changes it as
-- `begin_attempt_with_policy` does, and leaves every other provider's circuit as it was.
pub begin_local :
    (m : ProviderCircuits) (id x y : String) (policy : CorrelationPolicy) (now : ℕ)
    → let (m', r) = begin m id x y policy now in
      let (c', r') = begin_attempt_with_policy (circuit m id) id x y policy now in
      (r ≡ r') × (circuit m' id ≡ c') × ((j : String) → j ≢ id → circuit m' j ≡ circuit m j)
unfolding begin
begin_local m id x y policy now =
    let c = (begin_attempt_with_policy (circuit m id) id x y policy now).0 in
    (
      refl,
      ground (arith, circuit-store m id id c, eq_iff id id),
      λ j n. ground (arith, circuit-store m id j c, eq_iff id j, n),
    )
