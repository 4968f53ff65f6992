-- ===== src/Opaque.antt =====
-- src/opaque_state.rs: the values that a store of continuation state is made of. SHA-256 is a
-- parameter, and so is the cipher of src/crypto.rs, as an interface: its nonces are arguments.
use Prim.Native.Char.{nul}
use kinetix.Base.{
  ℕ, ◌≡◌, Bool, true, ◌&&◌, ◌↔◌, Option, none, some, List, [], ◌∷◌, String, ◌<>◌, str_eq, seconds,
  arith,
}
use kinetix.Base.Keyed.{KeyEq}
use text.Mathlib.TextEquality.{eq_iff}
mod Table
mod Store
mod History
mod Entries
mod Bounded
mod Recall
mod Origin
mod Refusals
mod Restored
mod Conversation
mod Tests

pub data OpaqueStateKind : Type 0 where
  gemini_thought_signature : OpaqueStateKind

unfoldable pub as_str : OpaqueStateKind → String
as_str gemini_thought_signature = "gemini_thought_signature"

pub record OpaqueStateTarget : Type 0 where
  pub kind : OpaqueStateKind
  pub provider_id : String
  pub family : String
  pub producer : String
  pub model_id : String

pub data OpaqueLookupResult : Type 0 where
  missing : OpaqueLookupResult
  compatible : String → OpaqueLookupResult
  incompatible session_mismatch tool_name_mismatch unavailable : OpaqueLookupResult

abbrev pub memory_ttl : ℕ
memory_ttl = seconds 3600

abbrev pub persistent_ttl : ℕ
persistent_ttl = seconds 86400

abbrev pub max_db_rows : ℕ
max_db_rows = 10000

abbrev pub prune_every_n_writes : ℕ
prune_every_n_writes = 100

abbrev pub durability_queue_capacity : ℕ
durability_queue_capacity = 4096

pub record OpaqueCacheKey : Type 0 where
  pub kind : String
  pub scope_hash : String
  pub tool_call_hash : String
  pub provider_id : String
  pub family : String
  pub producer : String
  pub model_id : String

unfoldable pub key_eq : OpaqueCacheKey → OpaqueCacheKey → Bool
key_eq a b =
    str_eq a.kind b.kind
    && str_eq a.scope_hash b.scope_hash
    && str_eq a.tool_call_hash b.tool_call_hash
    && str_eq a.provider_id b.provider_id
    && str_eq a.family b.family
    && str_eq a.producer b.producer
    && str_eq a.model_id b.model_id

pub key_eq_iff : (a b : OpaqueCacheKey) → (key_eq a b ≡ true) ↔ (a ≡ b)
unfolding key_eq
key_eq_iff a b = ground (
  arith,
  eq_iff a.kind b.kind,
  eq_iff a.scope_hash b.scope_hash,
  eq_iff a.tool_call_hash b.tool_call_hash,
  eq_iff a.provider_id b.provider_id,
  eq_iff a.family b.family,
  eq_iff a.producer b.producer,
  eq_iff a.model_id b.model_id,
)

instance abbrev pub cache_key_eq : KeyEq OpaqueCacheKey
cache_key_eq = record { beq = key_eq; beq_iff = key_eq_iff }

pub record CachedOpaqueState : Type 0 where
  pub signature : String
  pub session_hash : Option String
  pub tool_name_hash : String
  pub expires_at : ℕ

-- The counters: each is the number of its entries in the list of those that were counted up.
pub data Counter : Type 0 where
  capture_stored capture_replaced capture_dropped capture_storage_error lookup_hit lookup_miss
        lookup_expired lookup_incompatible lookup_session_mismatch lookup_tool_name_mismatch
        lookup_decrypt_error :
      Counter

-- The columns of the cache key stand together: the queue copies them one by one.
pub record DurabilityWrite : Type 0 where
  pub key : OpaqueCacheKey
  pub session_hash : String
  pub tool_name_hash : String
  pub signature : String

-- `encrypt_opaque_state` and `decrypt_opaque_state`; encryption may fail.
pub record Cipher : Type 0 where
  pub encrypt : ℕ → String → Option String
  pub decrypt : String → Option String

unfoldable pub cache_key : OpaqueStateTarget → String → String → OpaqueCacheKey
cache_key target scope_hash call_hash = record {
  kind = as_str target.kind;
  scope_hash = scope_hash;
  tool_call_hash = call_hash;
  provider_id = target.provider_id;
  family = target.family;
  producer = target.producer;
  model_id = target.model_id;
}

-- The hash of the two texts with a zero byte between them.
unfoldable pub tool_call_hash : (String → String) → String → String → String
tool_call_hash sha256_hex scope call = sha256_hex (scope <> String.◌∷◌ nul String.[] <> call)
