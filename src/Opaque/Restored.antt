-- ===== src/Opaque/Restored.antt =====
-- src/opaque_state.rs: a signature is only restored for the conversation that it was captured in.
use kinetix.Base.{
  ℕ, ◌≡◌, refl, subst, arith, Bool, true, false, Option, none, some, List, [], ◌∷◌, All, String,
  ltb, find, find_holds, All-append, if_holds, unwrap_or,
}
use kinetix.Base.Keyed.{lookup, remove}
use kinetix.Opaque.{
  OpaqueStateTarget, OpaqueCacheKey, CachedOpaqueState, cache_key_eq, cache_key, as_str, Cipher,
  OpaqueLookupResult, compatible, missing, lookup_expired,
}
use kinetix.Opaque.Table.{Row, StoredRow, matches, stored_row, selects, fetch_rows}
use kinetix.Opaque.Store.{
  OpaqueStateStore, new, answer, answered, restore, restore_row, resolve_exact, resolve_rows,
  resolve_stored, resolve_cached, resolve_target, evaluate_cached, identity_mismatch,
  sessions_differ, work, prune, send_flush, resolve_tool_signature,
}
use kinetix.Opaque.Entries.{newest_first-All, prune_pool-All}
use kinetix.Base.Entries.{filter-All, find-All, remove-AllEntries, lookup-AllEntries}
use kinetix.Opaque.Refusals.{
  IsRefusal, refusal-ne, filter_holds, map-All, other_rows-IsRefusal, mismatch-IsRefusal,
  same_identity,
}
use kinetix.Opaque.History.{Event, Capture, capture, resolve, worked, pruned, flushed, step, run}
use kinetix.Opaque.Origin.{
  Laws, From, EntryFrom, RowFrom, StoredFrom, IsSourced, count-IsSourced, put_cached-IsSourced,
  JobFrom, capture-IsSourced, work_on-IsSourced,
}
use text.Mathlib.TextEquality.{eq_iff}

module _ (sha256_hex : String → String) (cipher : Cipher) (laws : Laws sha256_hex cipher)
    (P : Capture → Type 0) where
  module _ (scope_hash call_hash : String) (session : Option String) (name : String) where
    -- What is restored was captured under this key and name, and its session does not differ.
    abbrev pub Allowed : OpaqueCacheKey → String → Type 0
    Allowed k signature =
        (stored : Option String) × From sha256_hex cipher laws P k stored (sha256_hex name)
          signature
        × (sessions_differ sha256_hex stored session ≡ false)

    abbrev pub Answers : Option OpaqueStateTarget → OpaqueStateStore × OpaqueLookupResult → Type 0
    Answers capability x =
        IsSourced sha256_hex cipher laws P x.0
        × ((signature : String)
            → x.1 ≡ compatible signature
            → (t : OpaqueStateTarget) × (capability ≡ some t)
              × Allowed (cache_key t scope_hash call_hash) signature)

    refusal-Answers :
        (capability : Option OpaqueStateTarget) (s : OpaqueStateStore) (r : OpaqueLookupResult)
        → IsRefusal r
        → IsSourced sha256_hex cipher laws P s
        → Answers capability (answer s r)
    unfolding answer
    refusal-Answers capability s r h b = (
      count-IsSourced sha256_hex cipher laws P (answered r) s b,
      λ signature e. absurd (refusal-ne r signature h e),
    )

    restored-Answers :
        (t : OpaqueStateTarget) (s : OpaqueStateStore) (signature : String)
        → Allowed (cache_key t scope_hash call_hash) signature
        → IsSourced sha256_hex cipher laws P s
        → Answers (some t) (answer s (compatible signature))
    unfolding answer
    restored-Answers t s signature a b = (
      count-IsSourced sha256_hex cipher laws P _ s b,
      λ x e. (t, refl, subst (Allowed (cache_key t scope_hash call_hash)) (ground (arith, e)) a),
    )

    evaluate_cached-Answers :
        (t : OpaqueStateTarget) (s : OpaqueStateStore) (v : CachedOpaqueState)
        (o : Option OpaqueLookupResult)
        → identity_mismatch sha256_hex v.session_hash v.tool_name_hash session name ≡ o
        → EntryFrom sha256_hex cipher laws P (cache_key t scope_hash call_hash) v
        → IsSourced sha256_hex cipher laws P s
        → Answers (some t) (answer s (unwrap_or o (compatible v.signature)))
    evaluate_cached-Answers t s v none m f b =
        let (n, d) = same_identity sha256_hex v.session_hash session v.tool_name_hash name m in
        let k = cache_key t scope_hash call_hash in
        let g : From sha256_hex cipher laws P k v.session_hash (sha256_hex name) v.signature =
          subst (λ x. From sha256_hex cipher laws P k v.session_hash x v.signature) n f in
        restored-Answers t s v.signature (v.session_hash, g, d) b
    evaluate_cached-Answers t s v (some r) m f b =
        refusal-Answers (some t) s r
          (mismatch-IsRefusal sha256_hex v.session_hash session v.tool_name_hash name r m) b

    -- A row that is restored is put in the cache as well.
    restore_row-Answers :
        (t : OpaqueStateTarget) (s : OpaqueStateStore) (row : StoredRow) (now : ℕ)
        (o : Option OpaqueLookupResult)
        → identity_mismatch sha256_hex row.session_hash row.tool_name_hash session name ≡ o
        → row.key ≡ cache_key t scope_hash call_hash
        → StoredFrom sha256_hex cipher laws P row
        → IsSourced sha256_hex cipher laws P s
        → Answers
            (some t)
            (restore_row sha256_hex cipher s o row (cache_key t scope_hash call_hash) now)
    unfolding restore_row restore
    restore_row-Answers t s row now (some r) m k f b =
        refusal-Answers (some t) s r
          (mismatch-IsRefusal sha256_hex row.session_hash session row.tool_name_hash name r m) b
    restore_row-Answers t s row now none m k (signature, e, f) b =
        let (n, d) = same_identity sha256_hex row.session_hash session row.tool_name_hash name m in
        let key = cache_key t scope_hash call_hash in
        let g : From sha256_hex cipher laws P key row.session_hash row.tool_name_hash signature =
          subst (λ x. From sha256_hex cipher laws P x row.session_hash row.tool_name_hash signature)
            k f in
        let g' : From sha256_hex cipher laws P key row.session_hash (sha256_hex name) signature =
          subst (λ x. From sha256_hex cipher laws P key row.session_hash x signature) n g in
        rw e (
          restored-Answers t _ signature (row.session_hash, g', d)
            (put_cached-IsSourced sha256_hex cipher laws P s key _ g b))

    abbrev Fetched : StoredRow → Type 0
    Fetched r =
        StoredFrom sha256_hex cipher laws P r
        × (r.key.scope_hash ≡ scope_hash)
        × (r.key.tool_call_hash ≡ call_hash)

    stored_row-Fetched :
        (r : Row)
        → RowFrom sha256_hex cipher laws P r
        → selects scope_hash call_hash r ≡ true
        → Fetched (stored_row r)
    unfolding stored_row selects
    stored_row-Fetched r f m = (
      f,
      ground (arith, eq_iff r.key.scope_hash scope_hash, eq_iff r.key.tool_call_hash call_hash, m),
      ground (arith, eq_iff r.key.scope_hash scope_hash, eq_iff r.key.tool_call_hash call_hash, m),
    )

    fetch_rows-Fetched :
        (table : List Row) (read : Bool) (now_wall : ℕ)
        → All (RowFrom sha256_hex cipher laws P) table
        → All Fetched (fetch_rows table read scope_hash call_hash now_wall)
    unfolding fetch_rows
    fetch_rows-Fetched table false now_wall h = tt
    fetch_rows-Fetched table true now_wall h =
        let Q : Row → Type 0 =
          λ r. RowFrom sha256_hex cipher laws P r × (selects scope_hash call_hash r ≡ true) in
        let selected =
          filter_holds (RowFrom sha256_hex cipher laws P) (selects scope_hash call_hash) table h in
        map-All Fetched Q stored_row _ (λ r q. stored_row-Fetched r q.0 q.1)
          (filter-All Q _ _ (newest_first-All Q _ selected))

    matches-key :
        (r : StoredRow) (t : OpaqueStateTarget)
        → matches r t ≡ true
        → r.key.scope_hash ≡ scope_hash
        → r.key.tool_call_hash ≡ call_hash
        → r.key ≡ cache_key t scope_hash call_hash
    unfolding matches cache_key
    matches-key r t m a b = ground (
      arith,
      eq_iff r.key.kind (as_str t.kind),
      eq_iff r.key.provider_id t.provider_id,
      eq_iff r.key.family t.family,
      eq_iff r.key.producer t.producer,
      eq_iff r.key.model_id t.model_id,
      m,
      a,
      b,
    )

    module _ (now : ℕ) where
      resolve_exact-Answers :
          (t : OpaqueStateTarget) (s : OpaqueStateStore) (o : Option StoredRow)
          (rows : List StoredRow)
          → find (λ r. matches r t) rows ≡ o
          → All Fetched rows
          → IsSourced sha256_hex cipher laws P s
          → Answers
              (some t)
              (resolve_exact sha256_hex cipher scope_hash call_hash session name now s t o rows)
      unfolding resolve_exact
      resolve_exact-Answers t s none rows e f b =
          refusal-Answers (some t) s _ (other_rows-IsRefusal sha256_hex rows session name) b
      resolve_exact-Answers t s (some row) rows e f b =
          let (stored, a, c) = find-All Fetched (λ r. matches r t) rows row f e in
          restore_row-Answers t s row now _ refl
            (matches-key row t (find_holds (λ r. matches r t) rows row e) a c) stored b

      resolve_rows-Answers :
          (s : OpaqueStateStore) (capability : Option OpaqueStateTarget) (rows : List StoredRow)
          → All Fetched rows
          → IsSourced sha256_hex cipher laws P s
          → Answers capability (
              resolve_rows sha256_hex cipher scope_hash call_hash session name now s capability
                rows)
      unfolding resolve_rows
      resolve_rows-Answers s none [] f b = refusal-Answers none s missing tt b
      resolve_rows-Answers s (some t) [] f b = refusal-Answers (some t) s missing tt b
      resolve_rows-Answers s none (row ∷ rows) f b =
          refusal-Answers none s _ (other_rows-IsRefusal sha256_hex (row ∷ rows) session name) b
      resolve_rows-Answers s (some t) (row ∷ rows) f b =
          resolve_exact-Answers t s _ (row ∷ rows) refl f b

      resolve_stored-Answers :
          (s : OpaqueStateStore) (capability : Option OpaqueStateTarget) (now_wall : ℕ)
          (read : Bool)
          → IsSourced sha256_hex cipher laws P s
          → Answers capability (
              resolve_stored sha256_hex cipher scope_hash call_hash session name now s capability
                now_wall read)
      unfolding resolve_stored
      resolve_stored-Answers s capability now_wall read b =
          resolve_rows-Answers s capability _ (fetch_rows-Fetched s.table read now_wall b.stored) b

      resolve_cached-Answers :
          (t : OpaqueStateTarget) (s : OpaqueStateStore) (o : Option CachedOpaqueState)
          (now_wall : ℕ) (read : Bool)
          → lookup (cache_key t scope_hash call_hash) s.cache ≡ o
          → IsSourced sha256_hex cipher laws P s
          → Answers (some t) (
              resolve_cached sha256_hex cipher scope_hash call_hash session name now s t o now_wall
                read)
      unfolding resolve_cached evaluate_cached
      resolve_cached-Answers t s none now_wall read e b =
          resolve_stored-Answers s (some t) now_wall read b
      resolve_cached-Answers t s (some v) now_wall read e b =
          let k = cache_key t scope_hash call_hash in
          let E = EntryFrom sha256_hex cipher laws P in
          let evicted : IsSourced sha256_hex cipher laws P (record s { cache = remove k s.cache }) =
            record {
              cached = remove-AllEntries E k s.cache b.cached;
              queued = b.queued;
              stored = b.stored;
            } in
          if_holds (Answers (some t)) (ltb v.expires_at now) _ _
            (resolve_stored-Answers _ (some t) now_wall read
              (count-IsSourced sha256_hex cipher laws P lookup_expired _ evicted))
            (evaluate_cached-Answers t s v _ refl (lookup-AllEntries E k s.cache v b.cached e) b)

      pub resolve_target-Answers :
          (s : OpaqueStateStore) (capability : Option OpaqueStateTarget) (now_wall : ℕ)
          (read : Bool)
          → IsSourced sha256_hex cipher laws P s
          → Answers capability (
              resolve_target sha256_hex cipher scope_hash call_hash session name now s capability
                now_wall read)
      unfolding resolve_target
      resolve_target-Answers s none now_wall read b = resolve_stored-Answers s none now_wall read b
      resolve_target-Answers s (some t) now_wall read b =
          resolve_cached-Answers t s _ now_wall read refl b

  -- The captures of a history are among those of which `P` holds.
  abbrev pub Known : Event → Type 0
  Known (capture c now) = P c
  Known (resolve scope capability session call name now now_wall read) = Unit
  Known (worked nonce now done) = Unit
  Known (pruned now) = Unit
  Known flushed = Unit

  step-IsSourced :
      (s : OpaqueStateStore) (e : Event)
      → Known e
      → IsSourced sha256_hex cipher laws P s
      → IsSourced sha256_hex cipher laws P (step sha256_hex cipher s e)
  unfolding step work prune send_flush resolve_tool_signature
  step-IsSourced s (capture c now) p b = capture-IsSourced sha256_hex cipher laws P s c now p b
  step-IsSourced s (resolve scope capability session call name now now_wall read) p b =
      (resolve_target-Answers _ _ session name now s capability now_wall read b).0
  step-IsSourced s (worked nonce now done) p b =
      work_on-IsSourced sha256_hex cipher laws P s s.durability nonce now done b.queued b
  step-IsSourced s (pruned now) p b = record {
    cached = b.cached;
    queued = b.queued;
    stored = prune_pool-All (RowFrom sha256_hex cipher laws P) s.table now b.stored;
  }
  step-IsSourced s flushed p b = record {
    cached = b.cached;
    queued = All-append (JobFrom sha256_hex cipher laws P) s.durability _ b.queued (tt, tt);
    stored = b.stored;
  }

  pub run-IsSourced :
      (s : OpaqueStateStore) (es : List Event)
      → All Known es
      → IsSourced sha256_hex cipher laws P s
      → IsSourced sha256_hex cipher laws P (run sha256_hex cipher s es)
  unfolding run
  run-IsSourced s [] k b = b
  run-IsSourced s (e ∷ es) k b =
      run-IsSourced (step sha256_hex cipher s e) es k.1 (step-IsSourced s e k.0 b)

  pub new-IsSourced : (max : ℕ) → IsSourced sha256_hex cipher laws P (new max)
  unfolding new
  new-IsSourced max = record { cached = tt; queued = tt; stored = tt }
