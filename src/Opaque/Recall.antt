-- ===== src/Opaque/Recall.antt =====
-- src/opaque_state.rs: what was just captured is restored.
use kinetix.Base.{
  ℕ, suc, ◌+◌, ◌≤◌, ◌<◌, ◌≡◌, refl, ap, ◌∙◌, arith, Bool, false, not, Option, none, some, List, [],
  ◌∷◌, ◌++◌, String, str_eq, ltb, length, filter, Bool-cases, inl, inr, if_holds, and_then,
}
use kinetix.Base.Keyed.{lookup, insert, remove, lookup-insert, lookup-remove, contains}
use kinetix.Opaque.{
  OpaqueStateTarget, OpaqueCacheKey, CachedOpaqueState, key_eq, key_eq_iff, cache_key_eq, cache_key,
  tool_call_hash, Cipher, compatible, memory_ttl, capture_replaced, durability_queue_capacity,
}
use kinetix.Opaque.Store.{
  OpaqueStateStore, DurabilityJob, count, evict, touch_order, put_cached, try_send, answer,
  entry_of, identity_mismatch, sessions_differ, evaluate_cached, capture_tool_signature,
  resolve_cached, resolve_target, resolve_tool_signature,
}
use text.Mathlib.TextEquality.{eq_iff}

contains-filter_self :
    (ks : List OpaqueCacheKey) (k : OpaqueCacheKey)
    → contains (filter (λ existing. not (key_eq existing k)) ks) k ≡ false
unfolding filter
contains-filter_self [] k = refl
contains-filter_self (i ∷ ks) k = elim (Bool-cases (key_eq i k)) [
  | inl e ↦ rw e (contains-filter_self ks k)
  | inr e ↦ rw (e, e) (contains-filter_self ks k)
]

-- The key at the back is not evicted.
lookup-evict :
    (max : ℕ) (ks : List OpaqueCacheKey) (k : OpaqueCacheKey)
    (m : List (OpaqueCacheKey × CachedOpaqueState))
    → 0 < max
    → contains ks k ≡ false
    → lookup k (evict max (ks ++ k ∷ []) m).1 ≡ lookup k m
unfolding evict
lookup-evict max [] k m h n = let one : ltb max 1 ≡ false = ground (arith, h) in rw one refl
lookup-evict max (j ∷ ks) k m h n = elim (Bool-cases (ltb max (suc (length (ks ++ k ∷ []))))) [
  | inl e ↦ rw e (
      lookup-evict max ks k (remove j m) h (ground (arith, n))
      ∙ lookup-remove j k m
      ∙ ground (arith, n))
  | inr e ↦ rw e refl
]

lookup-put_cached :
    (s : OpaqueStateStore) (k : OpaqueCacheKey) (v : CachedOpaqueState)
    → 0 < s.max_memory_rows
    → lookup k (put_cached s k v).cache ≡ some v
unfolding put_cached touch_order
lookup-put_cached s k v h =
    lookup-evict s.max_memory_rows _ k (insert k v s.cache) h (contains-filter_self s.order k)
    ∙ lookup-insert k k v s.cache
    ∙ ground (arith, key_eq_iff k k)

cache-try_send : (s : OpaqueStateStore) (job : DurabilityJob) → (try_send s job).cache ≡ s.cache
unfolding try_send count
cache-try_send s job =
    if_holds (λ (x : OpaqueStateStore). x.cache ≡ s.cache)
      (ltb (length s.durability) durability_queue_capacity) _ _ refl refl

module _ (sha256_hex : String → String) where
  same-identity :
      (session : Option String) (name : String)
      → identity_mismatch sha256_hex
          (and_then session (λ x. some (sha256_hex x)))
          (sha256_hex name)
          session
          name
        ≡ none
  unfolding identity_mismatch sessions_differ
  same-identity none name = ground (arith, eq_iff (sha256_hex name) (sha256_hex name))
  same-identity (some x) name =
      ground
        (arith, eq_iff (sha256_hex name) (sha256_hex name), eq_iff (sha256_hex x) (sha256_hex x))

  lookup-capture :
      (s : OpaqueStateStore) (scope : String) (target : OpaqueStateTarget) (session : Option String)
      (call name signature : String) (now : ℕ)
      → 0 < s.max_memory_rows
      → str_eq signature "" ≡ false
      → str_eq call "" ≡ false
      → lookup
          (cache_key target (sha256_hex scope) (tool_call_hash sha256_hex scope call))
          (capture_tool_signature sha256_hex s scope target session call name signature now).cache
        ≡ some (entry_of sha256_hex session name signature now)
  unfolding capture_tool_signature count
  lookup-capture s scope target session call name signature now h a b =
      let key = cache_key target (sha256_hex scope) (tool_call_hash sha256_hex scope call) in
      let entry = entry_of sha256_hex session name signature now in
      let s' = put_cached s key entry in
      rw (a, b)
        (ap (lookup key) (
            cache-try_send _ _
            ∙ if_holds (λ (x : OpaqueStateStore). x.cache ≡ s'.cache) _ (count capture_replaced s')
                s' refl refl)
          ∙ lookup-put_cached s key entry h)

  -- What is captured is restored by the next lookup of it within the time that it is kept in
  -- memory, whatever the store held before, with no help of the database.
  pub resolve-capture :
      (cipher : Cipher) (s : OpaqueStateStore) (scope : String) (target : OpaqueStateTarget)
      (session : Option String) (call name signature : String) (now later now_wall : ℕ)
      (read : Bool)
      → 0 < s.max_memory_rows
      → str_eq signature "" ≡ false
      → str_eq call "" ≡ false
      → later ≤ now + memory_ttl
      → (resolve_tool_signature sha256_hex cipher
          (capture_tool_signature sha256_hex s scope target session call name signature now)
          scope
          (some target)
          session
          call
          name
          later
          now_wall
          read).1
        ≡ compatible signature
  unfolding resolve_tool_signature resolve_target resolve_cached evaluate_cached answer
  resolve-capture cipher s scope target session call name signature now later now_wall read h a b
        l =
      let fresh : ltb (now + memory_ttl) later ≡ false = ground (arith, l) in
      rw (lookup-capture s scope target session call name signature now h a b)
        (rw fresh (rw (same-identity session name) refl))
