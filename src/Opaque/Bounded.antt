-- ===== src/Opaque/Bounded.antt =====
-- src/opaque_state.rs: the memory that the cache takes.
use kinetix.Base.{
  ℕ, suc, ◌+◌, ◌≤◌, ◌≡◌, refl, arith, Bool, true, false, not, Option, none, some, List, [], ◌∷◌,
  ◌++◌, ◌||◌, String, str_eq, ltb, length, filter, Bool-cases, inl, inr, is_some_and, if_holds,
}
use kinetix.Base.Keyed.{
  lookup, insert, remove, lookup-insert, lookup-remove, IsDistinct, insert-IsDistinct,
  remove-IsDistinct, contains, Covers, remove-Covers, length-le_of_Covers,
}
use kinetix.Opaque.{
  OpaqueCacheKey, CachedOpaqueState, lookup_expired, capture_replaced, cache_key, tool_call_hash,
  key_eq, cache_key_eq, Cipher, OpaqueStateTarget, Counter, OpaqueLookupResult, unavailable,
  compatible, memory_ttl, capture_dropped, durability_queue_capacity,
}
use kinetix.Opaque.History.{Event, capture, resolve, worked, pruned, flushed, step, run}
use kinetix.Opaque.Table.{StoredRow}
use kinetix.Opaque.Store.{
  OpaqueStateStore, DurabilityJob, write, flush, new, entry_of, count, evict, touch_order,
  put_cached, try_send, answer, answered, restore, restore_row, resolve_exact, resolve_rows,
  resolve_stored, resolve_cached, resolve_target, resolve_tool_signature, evaluate_cached,
  capture_tool_signature, work, work_on, prune, send_flush,
}

abbrev Cache : Type 0
Cache = List (OpaqueCacheKey × CachedOpaqueState)

-- The eviction list names each cached key, and is no longer than the limit.
pub record IsBounded (max : ℕ) (s : OpaqueStateStore) : Type 0 where
  pub limit : s.max_memory_rows ≡ max
  pub distinct : IsDistinct s.cache
  pub covered : Covers s.order s.cache
  pub short : length s.order ≤ s.max_memory_rows

evict-bounded :
    (max : ℕ) (order : List OpaqueCacheKey) (cache : Cache)
    → IsDistinct cache
    → Covers order cache
    → IsDistinct (evict max order cache).1
      × Covers (evict max order cache).0 (evict max order cache).1
      × (length (evict max order cache).0 ≤ max)
unfolding evict
evict-bounded max [] cache d c = (d, c, omega arith)
evict-bounded max (k ∷ order) cache d c = elim (Bool-cases (ltb max (suc (length order)))) [
  | inl e ↦ rw e (
      evict-bounded max order (remove k cache) (remove-IsDistinct k cache d)
        (remove-Covers k order cache c))
  | inr e ↦ rw e (d, c, ground (arith, e))
]

contains-append :
    (ks : List OpaqueCacheKey) (k j : OpaqueCacheKey)
    → contains (ks ++ k ∷ []) j ≡ (contains ks j || key_eq k j)
contains-append [] k j = ground arith
contains-append (i ∷ ks) k j = ground (arith, contains-append ks k j)

contains-filter :
    (ks : List OpaqueCacheKey) (k j : OpaqueCacheKey)
    → contains ks j ≡ true
    → key_eq k j ≡ false
    → contains (filter (λ existing. not (key_eq existing k)) ks) j ≡ true
unfolding filter
contains-filter [] k j h n = h
contains-filter (i ∷ ks) k j h n = ground (
  arith,
  contains-filter ks k j,
  cache_key_eq.beq_iff i k,
  cache_key_eq.beq_iff i j,
  cache_key_eq.beq_iff k j,
)

-- The inserted key moves to the back.
insert-Covers :
    (order : List OpaqueCacheKey) (cache : Cache) (k : OpaqueCacheKey) (v : CachedOpaqueState)
    → Covers order cache
    → Covers (filter (λ existing. not (key_eq existing k)) order ++ k ∷ []) (insert k v cache)
insert-Covers order cache k v c j h = elim (Bool-cases (key_eq k j)) [
  | inl e ↦
      rw (contains-append (filter (λ existing. not (key_eq existing k)) order) k j)
        (ground (arith, e))
  | inr n ↦ ground (
    arith,
    contains-append (filter (λ existing. not (key_eq existing k)) order) k j,
    contains-filter order k j,
    lookup-insert k j v cache,
    c j,
    n,
    h,
  )
]

put_cached-IsBounded :
    (max : ℕ) (s : OpaqueStateStore) (k : OpaqueCacheKey) (v : CachedOpaqueState)
    → IsBounded max s
    → IsBounded max (put_cached s k v)
unfolding put_cached touch_order
put_cached-IsBounded max s k v b =
    let order = filter (λ existing. not (key_eq existing k)) s.order ++ k ∷ [] in
    let cache = insert k v s.cache in
    let covers : Covers order cache = insert-Covers s.order s.cache k v b.covered in
    let (d, c, l) =
      evict-bounded s.max_memory_rows order cache (insert-IsDistinct k v s.cache b.distinct)
        covers in
    record { limit = b.limit; distinct = d; covered = c; short = l }

count-IsBounded :
    (max : ℕ) (c : Counter) (s : OpaqueStateStore) → IsBounded max s → IsBounded max (count c s)
unfolding count
count-IsBounded max c s b = record {
  limit = b.limit;
  distinct = b.distinct;
  covered = b.covered;
  short = b.short;
}

answer-IsBounded :
    (max : ℕ) (s : OpaqueStateStore) (r : OpaqueLookupResult)
    → IsBounded max s
    → IsBounded max (answer s r).0
unfolding answer
answer-IsBounded max s r b = count-IsBounded max (answered r) s b

remove-IsBounded :
    (max : ℕ) (k : OpaqueCacheKey) (s : OpaqueStateStore)
    → IsBounded max s
    → IsBounded max (record s { cache = remove k s.cache })
remove-IsBounded max k s b = record {
  limit = b.limit;
  distinct = remove-IsDistinct k s.cache b.distinct;
  covered = λ j h. b.covered j (ground (arith, lookup-remove k j s.cache, h));
  short = b.short;
}

restore-IsBounded :
    (max : ℕ) (s : OpaqueStateStore) (row : StoredRow) (k : OpaqueCacheKey) (o : Option String)
    (now : ℕ)
    → IsBounded max s
    → IsBounded max (restore s row k o now).0
unfolding restore
restore-IsBounded max s row k none now b = answer-IsBounded max s unavailable b
restore-IsBounded max s row k (some x) now b =
    let entry : CachedOpaqueState = record {
      signature = x;
      session_hash = row.session_hash;
      tool_name_hash = row.tool_name_hash;
      expires_at = now + memory_ttl;
    } in
    answer-IsBounded max (put_cached s k entry) (compatible x)
      (put_cached-IsBounded max s k entry b)

module _ (sha256_hex : String → String) (cipher : Cipher) (max : ℕ) where
  try_send-IsBounded :
      (s : OpaqueStateStore) (job : DurabilityJob)
      → IsBounded max s
      → IsBounded max (try_send s job)
  unfolding try_send
  try_send-IsBounded s job b =
      elim (Bool-cases (ltb (length s.durability) durability_queue_capacity)) [
        | inl e ↦ rw e (record {
          limit = b.limit;
          distinct = b.distinct;
          covered = b.covered;
          short = b.short;
        })
        | inr e ↦ rw e (count-IsBounded max capture_dropped s b)
      ]

  capture-IsBounded :
      (s : OpaqueStateStore) (scope : String) (target : OpaqueStateTarget) (session : Option String)
      (call name signature : String) (now : ℕ)
      → IsBounded max s
      → IsBounded max
          (capture_tool_signature sha256_hex s scope target session call name signature now)
  unfolding capture_tool_signature
  capture-IsBounded s scope target session call name signature now b =
      let key = cache_key target (sha256_hex scope) (tool_call_hash sha256_hex scope call) in
      let entry = entry_of sha256_hex session name signature now in
      let replaced =
        is_some_and (lookup key s.cache) (λ existing. not (str_eq existing.signature signature)) in
      let s' = put_cached s key entry in
      let b' = put_cached-IsBounded max s key entry b in
      let P : OpaqueStateStore → Type 0 = λ x. IsBounded max x in
      if_holds P (str_eq signature "" || str_eq call "") s _ b (
        try_send-IsBounded _ _ (
          if_holds P replaced (count capture_replaced s') s'
            (count-IsBounded max capture_replaced s' b') b'))

  restore_row-IsBounded :
      (s : OpaqueStateStore) (m : Option OpaqueLookupResult) (row : StoredRow) (k : OpaqueCacheKey)
      (now : ℕ)
      → IsBounded max s
      → IsBounded max (restore_row sha256_hex cipher s m row k now).0
  unfolding restore_row
  restore_row-IsBounded s (some m) row k now b = answer-IsBounded max s m b
  restore_row-IsBounded s none row k now b =
      restore-IsBounded max s row k (cipher.decrypt row.value_enc) now b

  module _ (scope_hash call_hash : String) (session : Option String) (name : String) (now : ℕ) where
    resolve_exact-IsBounded :
        (s : OpaqueStateStore) (t : OpaqueStateTarget) (o : Option StoredRow)
        (rows : List StoredRow)
        → IsBounded max s
        → IsBounded max
            (resolve_exact sha256_hex cipher scope_hash call_hash session name now s t o rows).0
    unfolding resolve_exact
    resolve_exact-IsBounded s t none rows b = answer-IsBounded max s _ b
    resolve_exact-IsBounded s t (some row) rows b = restore_row-IsBounded s _ row _ now b

    resolve_rows-IsBounded :
        (s : OpaqueStateStore) (capability : Option OpaqueStateTarget) (rows : List StoredRow)
        → IsBounded max s
        → IsBounded max
            (resolve_rows sha256_hex cipher scope_hash call_hash session name now s capability
              rows).0
    unfolding resolve_rows
    resolve_rows-IsBounded s none [] b = answer-IsBounded max s _ b
    resolve_rows-IsBounded s (some t) [] b = answer-IsBounded max s _ b
    resolve_rows-IsBounded s none (row ∷ rows) b = answer-IsBounded max s _ b
    resolve_rows-IsBounded s (some t) (row ∷ rows) b = resolve_exact-IsBounded s t _ (row ∷ rows) b

    resolve_cached-IsBounded :
        (s : OpaqueStateStore) (t : OpaqueStateTarget) (o : Option CachedOpaqueState) (now_wall : ℕ)
        (read : Bool)
        → IsBounded max s
        → IsBounded max
            (resolve_cached sha256_hex cipher scope_hash call_hash session name now s t o now_wall
              read).0
    unfolding resolve_cached resolve_stored evaluate_cached
    resolve_cached-IsBounded s t none now_wall read b = resolve_rows-IsBounded s (some t) _ b
    resolve_cached-IsBounded s t (some entry) now_wall read b =
        elim (Bool-cases (ltb entry.expires_at now)) [
          | inl e ↦ rw e (
              resolve_rows-IsBounded _ (some t) _ (
                count-IsBounded max lookup_expired _
                  (remove-IsBounded max (cache_key t scope_hash call_hash) s b)))
          | inr e ↦ rw e (answer-IsBounded max s _ b)
        ]

    resolve_target-IsBounded :
        (s : OpaqueStateStore) (capability : Option OpaqueStateTarget) (now_wall : ℕ) (read : Bool)
        → IsBounded max s
        → IsBounded max
            (resolve_target sha256_hex cipher scope_hash call_hash session name now s capability
              now_wall read).0
    unfolding resolve_target resolve_stored
    resolve_target-IsBounded s none now_wall read b = resolve_rows-IsBounded s none _ b
    resolve_target-IsBounded s (some t) now_wall read b =
        resolve_cached-IsBounded s t _ now_wall read b

  work_on-IsBounded :
      (s : OpaqueStateStore) (jobs : List DurabilityJob) (nonce now : ℕ) (done : Bool)
      → IsBounded max s
      → IsBounded max (work_on sha256_hex cipher s jobs nonce now done)
  unfolding work_on count
  work_on-IsBounded s [] nonce now done b = b
  work_on-IsBounded s (flush ∷ jobs) nonce now done b = record {
    limit = b.limit;
    distinct = b.distinct;
    covered = b.covered;
    short = b.short;
  }
  work_on-IsBounded s (write job ∷ jobs) nonce now done b = record {
    limit = b.limit;
    distinct = b.distinct;
    covered = b.covered;
    short = b.short;
  }

  step-IsBounded :
      (s : OpaqueStateStore) (e : Event)
      → IsBounded max s
      → IsBounded max (step sha256_hex cipher s e)
  unfolding step resolve_tool_signature work prune send_flush
  step-IsBounded s (capture c now) b =
      capture-IsBounded s c.scope c.target c.session c.call c.name c.signature now b
  step-IsBounded s (resolve scope capability session call name now now_wall read) b =
      resolve_target-IsBounded _ _ session name now s capability now_wall read b
  step-IsBounded s (worked nonce now done) b = work_on-IsBounded s s.durability nonce now done b
  step-IsBounded s (pruned now) b = record {
    limit = b.limit;
    distinct = b.distinct;
    covered = b.covered;
    short = b.short;
  }
  step-IsBounded s flushed b = record {
    limit = b.limit;
    distinct = b.distinct;
    covered = b.covered;
    short = b.short;
  }

  new-IsBounded : IsBounded max (new max)
  unfolding new lookup
  new-IsBounded = record {
    limit = refl;
    distinct = tt;
    covered = λ k h. absurd (h refl);
    short = omega arith;
  }

  run-IsBounded :
      (s : OpaqueStateStore) (es : List Event)
      → IsBounded max s
      → IsBounded max (run sha256_hex cipher s es)
  unfolding run
  run-IsBounded s [] b = b
  run-IsBounded s (e ∷ es) b = run-IsBounded (step sha256_hex cipher s e) es (step-IsBounded s e b)

  -- Whatever is captured, resolved, written and pruned, in whatever order and at whatever times, the
  -- cache holds at most as many signatures as its limit allows.
  pub cache_bounded : (es : List Event) → length (run sha256_hex cipher (new max) es).cache ≤ max
  cache_bounded es =
      let b = run-IsBounded (new max) es new-IsBounded in
      omega (arith, length-le_of_Covers _ _ b.distinct b.covered, b.short, b.limit)
