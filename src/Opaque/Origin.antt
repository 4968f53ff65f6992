-- ===== src/Opaque/Origin.antt =====
-- src/opaque_state.rs: where the signatures come from that the store holds and restores.
use kinetix.Base.{
  ℕ, ◌≡◌, refl, arith, Bool, false, ◌||◌, Option, none, some, List, [], ◌∷◌, All, All-append,
  String, str_eq, ltb, length, if◌then◌else◌, if_holds, and_then, unwrap_or,
}
use kinetix.Base.Keyed.{insert}
use kinetix.Opaque.{
  OpaqueCacheKey, CachedOpaqueState, cache_key_eq, cache_key, tool_call_hash, Cipher, Counter,
  DurabilityWrite, capture_replaced, capture_dropped, durability_queue_capacity,
}
use kinetix.Opaque.Table.{Row, StoredRow, row_of, write_row, persist_opaque_state}
use kinetix.Opaque.Store.{
  OpaqueStateStore, DurabilityJob, write, flush, count, touch_order, put_cached, try_send, entry_of,
  capture_tool_signature, work_on,
}
use kinetix.Opaque.Entries.{upsert-All, prune_pool-All, evict-AllCached}
use kinetix.Base.Entries.{AllEntries, insert-AllEntries}
use kinetix.Opaque.History.{Capture}
use text.Mathlib.TextEquality.{eq_iff}

-- `encrypt` is undone by `decrypt`, no two texts that occur have one hash, and a hash is not empty.
pub record Laws (sha256_hex : String → String) (cipher : Cipher) : Type 0 where
  pub decrypts :
      (nonce : ℕ) (text sealed : String)
      → cipher.encrypt nonce text ≡ some sealed
      → cipher.decrypt sealed ≡ some text
  pub collision_free : (a b : String) → sha256_hex a ≡ sha256_hex b → a ≡ b
  pub not_empty : (text : String) → str_eq (sha256_hex text) "" ≡ false

module _ (sha256_hex : String → String) (cipher : Cipher) (laws : Laws sha256_hex cipher)
    (P : Capture → Type 0) where
  -- A capture of which `P` holds gave this signature, under these hashes.
  abbrev pub From : OpaqueCacheKey → Option String → String → String → Type 0
  From k session_hash name_hash signature =
      (c : Capture) × P c
      × (cache_key c.target (sha256_hex c.scope) (tool_call_hash sha256_hex c.scope c.call) ≡ k)
      × (and_then c.session (λ x. some (sha256_hex x)) ≡ session_hash)
      × (sha256_hex c.name ≡ name_hash)
      × (c.signature ≡ signature)

  abbrev pub EntryFrom : OpaqueCacheKey → CachedOpaqueState → Type 0
  EntryFrom k v = From k v.session_hash v.tool_name_hash v.signature

  abbrev pub read_session : String → Option String
  read_session h = if str_eq h "" then none else some h

  abbrev pub JobFrom : DurabilityJob → Type 0
  JobFrom flush = Unit
  JobFrom (write j) = From j.key (read_session j.session_hash) j.tool_name_hash j.signature

  abbrev pub RowFrom : Row → Type 0
  RowFrom r =
      (signature : String) × (cipher.decrypt r.value_enc ≡ some signature)
      × From r.key (read_session r.session_hash) r.tool_name_hash signature

  abbrev pub StoredFrom : StoredRow → Type 0
  StoredFrom r =
      (signature : String) × (cipher.decrypt r.value_enc ≡ some signature)
      × From r.key r.session_hash r.tool_name_hash signature

  pub record IsSourced (s : OpaqueStateStore) : Type 0 where
    pub cached : AllEntries EntryFrom s.cache
    pub queued : All JobFrom s.durability
    pub stored : All RowFrom s.table

  pub count-IsSourced : (c : Counter) (s : OpaqueStateStore) → IsSourced s → IsSourced (count c s)
  unfolding count
  count-IsSourced c s b = record { cached = b.cached; queued = b.queued; stored = b.stored }

  pub put_cached-IsSourced :
      (s : OpaqueStateStore) (k : OpaqueCacheKey) (v : CachedOpaqueState)
      → EntryFrom k v
      → IsSourced s
      → IsSourced (put_cached s k v)
  unfolding put_cached touch_order
  put_cached-IsSourced s k v f b = record {
    cached =
        evict-AllCached EntryFrom s.max_memory_rows _ (insert k v s.cache)
          (insert-AllEntries EntryFrom k v s.cache f b.cached);
    queued = b.queued;
    stored = b.stored;
  }

  try_send-IsSourced :
      (s : OpaqueStateStore) (j : DurabilityJob)
      → JobFrom j
      → IsSourced s
      → IsSourced (try_send s j)
  unfolding try_send
  try_send-IsSourced s j f b =
      if_holds IsSourced (ltb (length s.durability) durability_queue_capacity) _ _
        (record {
          cached = b.cached;
          queued = All-append JobFrom s.durability (j ∷ []) b.queued (f, tt);
          stored = b.stored;
        })
        (count-IsSourced capture_dropped s b)

  -- A session's hash is read back from the column as it was.
  read_hash :
      (o : Option String)
      → and_then o (λ x. some (sha256_hex x))
        ≡ read_session (unwrap_or (and_then o (λ x. some (sha256_hex x))) "")
  read_hash none = ground (arith, eq_iff "" "")
  read_hash (some x) = ground (arith, laws.not_empty x)

  pub capture-IsSourced :
      (s : OpaqueStateStore) (c : Capture) (now : ℕ)
      → P c
      → IsSourced s
      → IsSourced (
          capture_tool_signature sha256_hex s c.scope c.target c.session c.call c.name c.signature
            now)
  unfolding capture_tool_signature
  capture-IsSourced s c now p b =
      let key =
        cache_key c.target (sha256_hex c.scope) (tool_call_hash sha256_hex c.scope c.call) in
      let entry = entry_of sha256_hex c.session c.name c.signature now in
      let s' = put_cached s key entry in
      let b' = put_cached-IsSourced s key entry (c, p, refl, refl, refl, refl) b in
      if_holds IsSourced (str_eq c.signature "" || str_eq c.call "") s _ b (
        try_send-IsSourced _ _ (c, p, refl, read_hash c.session, refl, refl)
          (if_holds IsSourced _ (count capture_replaced s') s'
            (count-IsSourced capture_replaced s' b') b'))

  write_row-AllFrom :
      (table : List Row) (job : DurabilityWrite) (o : Option String) (nonce now : ℕ) (done : Bool)
      → cipher.encrypt nonce job.signature ≡ o
      → JobFrom (write job)
      → All RowFrom table
      → All RowFrom (write_row table job o now done).0
  unfolding write_row row_of
  write_row-AllFrom table job none nonce now done e f h = h
  write_row-AllFrom table job (some sealed) nonce now done e f h =
      if_holds (λ (x : List Row × Counter). All RowFrom x.0) done _ _
        (upsert-All RowFrom _ table (job.signature, laws.decrypts nonce job.signature sealed e, f)
          h)
        h

  persist-AllFrom :
      (table : List Row) (job : DurabilityWrite) (nonce now : ℕ) (done : Bool)
      → JobFrom (write job)
      → All RowFrom table
      → All RowFrom (persist_opaque_state cipher table job nonce now done).0
  unfolding persist_opaque_state
  persist-AllFrom table job nonce now done f h =
      write_row-AllFrom table job (cipher.encrypt nonce job.signature) nonce now done refl f h

  pub work_on-IsSourced :
      (s : OpaqueStateStore) (jobs : List DurabilityJob) (nonce now : ℕ) (done : Bool)
      → All JobFrom jobs
      → IsSourced s
      → IsSourced (work_on sha256_hex cipher s jobs nonce now done)
  unfolding work_on
  work_on-IsSourced s [] nonce now done q b = b
  work_on-IsSourced s (flush ∷ jobs) nonce now done q b = record {
    cached = b.cached;
    queued = q.1;
    stored = b.stored;
  }
  work_on-IsSourced s (write job ∷ jobs) nonce now done q b =
      let rows = persist-AllFrom s.table job nonce now done q.0 b.stored in
      count-IsSourced _ _ (record {
        cached = b.cached;
        queued = q.1;
        stored = if_holds (All RowFrom) _ _ _ (prune_pool-All RowFrom _ now rows) rows;
      })
