-- ===== src/Opaque/Table.antt =====
-- src/opaque_state.rs: the table `opaque_provider_state` and what the store asks of it. A table is
-- the list of its rows; times are numbers, as RFC 3339 texts of one offset are in the order of
-- their times. The arguments `done` and `read` say whether the database carries a call out.
use kinetix.Base.{
  ℕ, suc, ◌+◌, ◌-◌, Bool, ◌&&◌, Option, none, some, List, [], ◌∷◌, String, str_eq, ltb, leb,
  if◌then◌else◌, length, filter, map,
}
use kinetix.Opaque.{
  OpaqueStateTarget, OpaqueCacheKey, key_eq, Cipher, DurabilityWrite, Counter, as_str,
  persistent_ttl, max_db_rows, capture_stored, capture_storage_error,
}

pub record Row : Type 0 where
  pub key : OpaqueCacheKey
  pub session_hash : String
  pub tool_name_hash : String
  pub value_enc : String
  pub created_at : ℕ
  pub expires_at : ℕ

-- A row as it is read: `key` holds the columns of the query, `origin_model` is its `model_id`.
pub record StoredRow : Type 0 where
  pub key : OpaqueCacheKey
  pub session_hash : Option String
  pub tool_name_hash : String
  pub value_enc : String

unfoldable pub matches : StoredRow → OpaqueStateTarget → Bool
matches row target =
    str_eq row.key.kind (as_str target.kind)
    && str_eq row.key.provider_id target.provider_id
    && str_eq row.key.family target.family
    && str_eq row.key.producer target.producer
    && str_eq row.key.model_id target.model_id

-- `ORDER BY created_at DESC`
unfoldable pub place : Row → List Row → List Row
place r [] = r ∷ []
place r (s ∷ rows) = if ltb r.created_at s.created_at then s ∷ place r rows else r ∷ s ∷ rows

unfoldable pub newest_first : List Row → List Row
newest_first [] = []
newest_first (r ∷ rows) = place r (newest_first rows)

unfoldable pub stored_row : Row → StoredRow
stored_row r = record {
  key = r.key;
  session_hash = if str_eq r.session_hash "" then none else some r.session_hash;
  tool_name_hash = r.tool_name_hash;
  value_enc = r.value_enc;
}

unfoldable pub selects : String → String → Row → Bool
selects scope_hash call_hash r =
    str_eq r.key.scope_hash scope_hash && str_eq r.key.tool_call_hash call_hash

unfoldable pub fetch_rows : List Row → Bool → String → String → ℕ → List StoredRow
fetch_rows table read scope_hash call_hash now =
    if read
    then map stored_row (
        filter (λ r. leb now r.expires_at)
          (newest_first (filter (selects scope_hash call_hash) table)))
    else []

-- `INSERT … ON CONFLICT … DO UPDATE`
unfoldable pub upsert : Row → List Row → List Row
upsert r [] = r ∷ []
upsert r (s ∷ rows) = if key_eq s.key r.key then r ∷ rows else s ∷ upsert r rows

unfoldable pub row_of : DurabilityWrite → String → ℕ → Row
row_of job value_enc now = record {
  key = job.key;
  session_hash = job.session_hash;
  tool_name_hash = job.tool_name_hash;
  value_enc = value_enc;
  created_at = now;
  expires_at = now + persistent_ttl;
}

unfoldable pub write_row :
    List Row → DurabilityWrite → Option String → ℕ → Bool → List Row × Counter
write_row table job none now done = (table, capture_storage_error)
write_row table job (some value_enc) now done =
    if done
    then (upsert (row_of job value_enc now) table, capture_stored)
    else (table, capture_storage_error)

-- The new table, and the counter that is counted up.
unfoldable pub persist_opaque_state :
    Cipher → List Row → DurabilityWrite → ℕ → ℕ → Bool → List Row × Counter
persist_opaque_state cipher table job nonce now done =
    write_row table job (cipher.encrypt nonce job.signature) now done

-- All but the oldest `n`, which stand last.
unfoldable pub delete_oldest : ℕ → List Row → List Row
delete_oldest n [] = []
delete_oldest n (r ∷ rows) = if leb (suc (length rows)) n then [] else r ∷ delete_oldest n rows

unfoldable pub prune_pool : List Row → ℕ → List Row
prune_pool table now =
    let kept = filter (λ r. leb now r.expires_at) table in
    if ltb max_db_rows (length kept)
    then delete_oldest (length kept - max_db_rows) (newest_first kept)
    else kept
