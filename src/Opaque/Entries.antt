-- ===== src/Opaque/Entries.antt =====
-- src/opaque_state.rs: what holds of all entries survives what the store does with its lists.
use kinetix.Base.{ℕ, suc, List, [], ◌∷◌, All, ltb, leb, length, Bool-cases, if_holds, inl, inr}
use kinetix.Base.Keyed.{remove}
use kinetix.Base.Entries.{filter-All, AllEntries, remove-AllEntries}
use kinetix.Opaque.{OpaqueCacheKey, CachedOpaqueState, key_eq, cache_key_eq}
use kinetix.Opaque.Table.{Row, place, newest_first, upsert, delete_oldest, prune_pool}
use kinetix.Opaque.Store.{evict}

module _ (P : Row → Type 0) where
  pub place-All : (r : Row) (rows : List Row) → P r → All P rows → All P (place r rows)
  unfolding place
  place-All r [] h k = (h, tt)
  place-All r (s ∷ rows) h k = elim (Bool-cases (ltb r.created_at s.created_at)) [
    | inl e ↦ rw e (k.0, place-All r rows h k.1)
    | inr e ↦ rw e (h, k)
  ]

  pub newest_first-All : (rows : List Row) → All P rows → All P (newest_first rows)
  unfolding newest_first
  newest_first-All [] h = tt
  newest_first-All (r ∷ rows) h = place-All r (newest_first rows) h.0 (newest_first-All rows h.1)

  pub upsert-All : (r : Row) (rows : List Row) → P r → All P rows → All P (upsert r rows)
  unfolding upsert
  upsert-All r [] h k = (h, tt)
  upsert-All r (s ∷ rows) h k = elim (Bool-cases (key_eq s.key r.key)) [
    | inl e ↦ rw e (h, k.1)
    | inr e ↦ rw e (k.0, upsert-All r rows h k.1)
  ]

  delete_oldest-All : (n : ℕ) (rows : List Row) → All P rows → All P (delete_oldest n rows)
  unfolding delete_oldest
  delete_oldest-All n [] h = tt
  delete_oldest-All n (r ∷ rows) h = elim (Bool-cases (leb (suc (length rows)) n)) [
    | inl e ↦ rw e tt
    | inr e ↦ rw e (h.0, delete_oldest-All n rows h.1)
  ]

  pub prune_pool-All : (rows : List Row) (now : ℕ) → All P rows → All P (prune_pool rows now)
  unfolding prune_pool
  prune_pool-All rows now h =
      let kept = filter-All P (λ r. leb now r.expires_at) rows h in
      if_holds (All P) _ _ _ (delete_oldest-All _ _ (newest_first-All _ kept)) kept

-- One on the entries of the cache.
module _ (P : OpaqueCacheKey → CachedOpaqueState → Type 0) where
  pub evict-AllCached :
      (max : ℕ) (order : List OpaqueCacheKey) (m : List (OpaqueCacheKey × CachedOpaqueState))
      → AllEntries P m
      → AllEntries P (evict max order m).1
  unfolding evict
  evict-AllCached max [] m a = a
  evict-AllCached max (k ∷ order) m a = elim (Bool-cases (ltb max (suc (length order)))) [
    | inl e ↦ rw e (evict-AllCached max order (remove k m) (remove-AllEntries P k m a))
    | inr e ↦ rw e a
  ]
