-- ===== src/Opaque/Store.antt =====
-- src/opaque_state.rs: the store of continuation state, its cache in memory and the queue to the
-- worker that writes it to the table.
use kinetix.Base.{
  ℕ, suc, ◌+◌, ◌%◌, Bool, false, not, ◌||◌, Option, none, some, unwrap_or, List, [], ◌∷◌, ◌++◌,
  String, str_eq, ltb, ◌==◌, if◌then◌else◌, length, filter, find, and_then, is_some_and,
}
use kinetix.Base.Keyed.{lookup, insert, remove}
use kinetix.Opaque.{
  OpaqueStateTarget, OpaqueCacheKey, key_eq, cache_key_eq, cache_key, tool_call_hash, Cipher,
  DurabilityWrite, Counter, CachedOpaqueState, OpaqueLookupResult, missing, compatible,
  incompatible, session_mismatch, tool_name_mismatch, unavailable, capture_replaced,
  capture_dropped, lookup_hit, lookup_miss, lookup_expired, lookup_incompatible,
  lookup_session_mismatch, lookup_tool_name_mismatch, lookup_decrypt_error, memory_ttl,
  prune_every_n_writes, durability_queue_capacity,
}
use kinetix.Opaque.Table.{Row, StoredRow, matches, fetch_rows, persist_opaque_state, prune_pool}

-- A job, or a barrier that is answered when all jobs before it are done.
pub data DurabilityJob : Type 0 where
  write : DurabilityWrite → DurabilityJob
  flush : DurabilityJob

pub record OpaqueStateStore : Type 0 where
  pub cache : List (OpaqueCacheKey × CachedOpaqueState)
  pub order : List OpaqueCacheKey
  pub counted : List Counter
  pub durability : List DurabilityJob
  pub max_memory_rows : ℕ
  pub table : List Row
  pub writes : ℕ

unfoldable pub new : ℕ → OpaqueStateStore
new max_memory_rows = record {
  cache = [];
  order = [];
  counted = [];
  durability = [];
  max_memory_rows = max_memory_rows;
  table = [];
  writes = 0;
}

unfoldable pub count : Counter → OpaqueStateStore → OpaqueStateStore
count c s = record s { counted = c ∷ s.counted }

-- `while order.len() > max { if let Some(evicted) = order.pop_front() { cache.remove(&evicted); } }`
unfoldable pub evict :
    ℕ
    → List OpaqueCacheKey
    → List (OpaqueCacheKey × CachedOpaqueState)
    → List OpaqueCacheKey × List (OpaqueCacheKey × CachedOpaqueState)
evict max [] cache = ([], cache)
evict max (k ∷ order) cache =
    let rest = evict max order (remove k cache) in
    if ltb max (suc (length order)) then rest else (k ∷ order, cache)

unfoldable pub touch_order : OpaqueStateStore → OpaqueCacheKey → OpaqueStateStore
touch_order s key =
    let (order, cache) =
      evict s.max_memory_rows (filter (λ existing. not (key_eq existing key)) s.order ++ key ∷ [])
        s.cache in
    record s { order = order; cache = cache }

-- `self.cache.insert(key.clone(), entry); self.touch_order(key);`
unfoldable pub put_cached : OpaqueStateStore → OpaqueCacheKey → CachedOpaqueState → OpaqueStateStore
put_cached s key entry = touch_order (record s { cache = insert key entry s.cache }) key

unfoldable pub try_send : OpaqueStateStore → DurabilityJob → OpaqueStateStore
try_send s job =
    if ltb (length s.durability) durability_queue_capacity
    then record s { durability = s.durability ++ job ∷ [] }
    else count capture_dropped s

unfoldable pub answered : OpaqueLookupResult → Counter
answered missing = lookup_miss
answered (compatible signature) = lookup_hit
answered incompatible = lookup_incompatible
answered session_mismatch = lookup_session_mismatch
answered tool_name_mismatch = lookup_tool_name_mismatch
answered unavailable = lookup_decrypt_error

-- An answer of a lookup is counted by its own counter.
unfoldable pub answer :
    OpaqueStateStore → OpaqueLookupResult → OpaqueStateStore × OpaqueLookupResult
answer s r = (count (answered r) s, r)

-- By the rows of the tool's name, and those of them whose session is compatible.
unfoldable pub refusal : List StoredRow → List StoredRow → OpaqueLookupResult
refusal [] session_rows = tool_name_mismatch
refusal (row ∷ rows) [] = session_mismatch
refusal (row ∷ rows) (session_row ∷ session_rows) = incompatible

module _ (sha256_hex : String → String) where
  -- Both sessions are there and differ.
  unfoldable pub sessions_differ : Option String → Option String → Bool
  sessions_differ (some stored) (some incoming) = not (str_eq stored (sha256_hex incoming))
  sessions_differ (some stored) none = false
  sessions_differ none incoming = false

  -- The mismatch of a stored identity with that of a request, if any.
  unfoldable pub identity_mismatch :
      Option String → String → Option String → String → Option OpaqueLookupResult
  identity_mismatch stored_session stored_name session tool_name =
      if not (str_eq stored_name (sha256_hex tool_name))
      then some tool_name_mismatch
      else if sessions_differ stored_session session
      then some session_mismatch
      else none

  abbrev pub entry_of : Option String → String → String → ℕ → CachedOpaqueState
  entry_of session tool_name signature now = record {
    signature = signature;
    session_hash = and_then session (λ x. some (sha256_hex x));
    tool_name_hash = sha256_hex tool_name;
    expires_at = now + memory_ttl;
  }

  unfoldable pub capture_tool_signature :
      OpaqueStateStore
      → String
      → OpaqueStateTarget
      → Option String
      → String
      → String
      → String
      → ℕ
      → OpaqueStateStore
  capture_tool_signature s scope target session tool_call_id tool_name signature now =
      let key =
        cache_key target (sha256_hex scope) (tool_call_hash sha256_hex scope tool_call_id) in
      let entry = entry_of session tool_name signature now in
      let replaced =
        is_some_and (lookup key s.cache) (λ existing. not (str_eq existing.signature signature)) in
      let s' = put_cached s key entry in
      let job = write (record {
        key = key;
        session_hash = unwrap_or entry.session_hash "";
        tool_name_hash = entry.tool_name_hash;
        signature = signature;
      }) in
      if str_eq signature "" || str_eq tool_call_id ""
      then s
      else try_send (if replaced then count capture_replaced s' else s') job

  unfoldable pub evaluate_cached :
      OpaqueStateStore
      → CachedOpaqueState
      → Option String
      → String
      → OpaqueStateStore × OpaqueLookupResult
  evaluate_cached s entry session tool_name = answer s (
      unwrap_or (identity_mismatch entry.session_hash entry.tool_name_hash session tool_name)
        (compatible entry.signature))

  -- The rows of other models, or with no capability: only the kind of refusal is at stake.
  unfoldable pub other_rows : List StoredRow → Option String → String → OpaqueLookupResult
  other_rows rows session tool_name =
      let identity_rows = filter (λ r. str_eq r.tool_name_hash (sha256_hex tool_name)) rows in
      refusal identity_rows
        (filter (λ r. not (sessions_differ r.session_hash session)) identity_rows)

-- With the signature that was decrypted.
unfoldable pub restore :
    OpaqueStateStore
    → StoredRow
    → OpaqueCacheKey
    → Option String
    → ℕ
    → OpaqueStateStore × OpaqueLookupResult
restore s row key none now = answer s unavailable
restore s row key (some signature) now =
    answer
      (put_cached s key (record {
        signature = signature;
        session_hash = row.session_hash;
        tool_name_hash = row.tool_name_hash;
        expires_at = now + memory_ttl;
      }))
      (compatible signature)

module _ (sha256_hex : String → String) (cipher : Cipher) where
  -- With the mismatch that was found.
  unfoldable pub restore_row :
      OpaqueStateStore
      → Option OpaqueLookupResult
      → StoredRow
      → OpaqueCacheKey
      → ℕ
      → OpaqueStateStore × OpaqueLookupResult
  restore_row s (some mismatch) row key now = answer s mismatch
  restore_row s none row key now = restore s row key (cipher.decrypt row.value_enc) now

  module _ (scope_hash call_hash : String) (session : Option String) (tool_name : String)
      (now : ℕ) where
    -- With the row of the exact target.
    unfoldable pub resolve_exact :
        OpaqueStateStore
        → OpaqueStateTarget
        → Option StoredRow
        → List StoredRow
        → OpaqueStateStore × OpaqueLookupResult
    resolve_exact s target (some row) rows =
        restore_row s
          (identity_mismatch sha256_hex row.session_hash row.tool_name_hash session tool_name) row
          (cache_key target scope_hash call_hash) now
    resolve_exact s target none rows = answer s (other_rows sha256_hex rows session tool_name)

    unfoldable pub resolve_rows :
        OpaqueStateStore
        → Option OpaqueStateTarget
        → List StoredRow
        → OpaqueStateStore × OpaqueLookupResult
    resolve_rows s capability [] = answer s missing
    resolve_rows s none (row ∷ rows) =
        answer s (other_rows sha256_hex (row ∷ rows) session tool_name)
    resolve_rows s (some target) (row ∷ rows) =
        resolve_exact s target (find (λ r. matches r target) (row ∷ rows)) (row ∷ rows)

    -- The table as it is at the wall clock's time `now_wall`.
    unfoldable pub resolve_stored :
        OpaqueStateStore
        → Option OpaqueStateTarget
        → ℕ
        → Bool
        → OpaqueStateStore × OpaqueLookupResult
    resolve_stored s capability now_wall read =
        resolve_rows s capability (fetch_rows s.table read scope_hash call_hash now_wall)

    -- With the entry of the cache: one that is expired is evicted, and the table asked.
    unfoldable pub resolve_cached :
        OpaqueStateStore
        → OpaqueStateTarget
        → Option CachedOpaqueState
        → ℕ
        → Bool
        → OpaqueStateStore × OpaqueLookupResult
    resolve_cached s target none now_wall read = resolve_stored s (some target) now_wall read
    resolve_cached s target (some entry) now_wall read =
        if ltb entry.expires_at now
        then resolve_stored
            (count lookup_expired
              (record s { cache = remove (cache_key target scope_hash call_hash) s.cache }))
            (some target) now_wall read
        else evaluate_cached sha256_hex s entry session tool_name

    unfoldable pub resolve_target :
        OpaqueStateStore
        → Option OpaqueStateTarget
        → ℕ
        → Bool
        → OpaqueStateStore × OpaqueLookupResult
    resolve_target s none now_wall read = resolve_stored s none now_wall read
    resolve_target s (some target) now_wall read =
        resolve_cached s target (lookup (cache_key target scope_hash call_hash) s.cache) now_wall
          read

  unfoldable pub resolve_tool_signature :
      OpaqueStateStore
      → String
      → Option OpaqueStateTarget
      → Option String
      → String
      → String
      → ℕ
      → ℕ
      → Bool
      → OpaqueStateStore × OpaqueLookupResult
  resolve_tool_signature s scope capability session tool_call_id tool_name now now_wall read =
      resolve_target (sha256_hex scope) (tool_call_hash sha256_hex scope tool_call_id) session
        tool_name now s capability now_wall read

  -- One turn of the worker: a write, with a pruning after every hundredth, or a barrier.
  unfoldable pub work_on : OpaqueStateStore → List DurabilityJob → ℕ → ℕ → Bool → OpaqueStateStore
  work_on s [] nonce now done = s
  work_on s (flush ∷ jobs) nonce now done = record s { durability = jobs }
  work_on s (write job ∷ jobs) nonce now done =
      let (table, c) = persist_opaque_state cipher s.table job nonce now done in
      let n = s.writes + 1 in
      count c (record s {
        durability = jobs;
        writes = n;
        table = if n % prune_every_n_writes == 0 then prune_pool table now else table;
      })

  unfoldable pub work : OpaqueStateStore → ℕ → ℕ → Bool → OpaqueStateStore
  work s nonce now done = work_on s s.durability nonce now done

unfoldable pub prune : OpaqueStateStore → ℕ → OpaqueStateStore
prune s now = record s { table = prune_pool s.table now }

-- `flush`: the barrier is sent, once there is room for it.
unfoldable pub send_flush : OpaqueStateStore → OpaqueStateStore
send_flush s = record s { durability = s.durability ++ flush ∷ [] }
