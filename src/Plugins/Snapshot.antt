-- ===== src/Plugins/Snapshot.antt =====
-- src/plugins/store.rs, `kv_replace_prefix_limited`: all of a plugin's values under a prefix are
-- replaced at once. A key is a text: `len` counts its bytes, `count` its characters.
use Prim.Native.String.{len, count}
use kinetix.Base.{
  ℕ, zero, suc, ◌+◌, Bool, false, not, ◌&&◌, ◌||◌, String, List, [], ◌∷◌, length, filter, any, ◌==◌,
  if◌then◌else◌, str_eq, Result, ok, err,
}
use kinetix.Base.Keyed.{insert, string_eq}
use kinetix.Plugins.Kv.{
  KvKey, kv_key_eq, Bytes, KvCodec, KvTable, KvError, overflow, encryption, empty_prefix,
  outside_prefix, duplicate_keys, checked_add, ok_or, and_try, measure, within,
}

-- The first `n` characters of a text, as `substr(key, 1, n)` gives them.
unfoldable pub substr : ℕ → String → String
substr zero s = String.[]
substr (suc n) String.[] = String.[]
substr (suc n) (String.◌∷◌ c s) = String.◌∷◌ c (substr n s)

-- `str::starts_with`
unfoldable pub starts_with : String → String → Bool
starts_with key prefix = str_eq (substr (count prefix) key) prefix

-- The `WHERE` of the deletion, with the length of the prefix in bytes.
unfoldable pub deleted : String → String → KvKey → Bool
deleted plugin_id prefix k =
    str_eq k.plugin_id plugin_id && str_eq (substr (len prefix) k.key) prefix

-- The plugin's rows whose bytes are counted.
unfoldable pub outside_rows : String → String → KvKey → Bool
outside_rows plugin_id prefix k = str_eq k.plugin_id plugin_id && not (starts_with k.key prefix)

abbrev pub Entry : Type 0
Entry = String × Bytes

unfoldable pub has_duplicates : List Entry → Bool
has_duplicates [] = false
has_duplicates ((key, value) ∷ entries) =
    any (λ e. str_eq e.0 key) entries || has_duplicates entries

unfoldable pub checked : String → List Entry → Result {0, 0} KvError Unit
checked prefix entries =
    if len prefix == 0
    then err empty_prefix
    else if any (λ e. not (starts_with e.0 prefix)) entries
    then err outside_prefix
    else if has_duplicates entries
    then err duplicate_keys
    else ok tt

-- The rows that are added on top of `used` bytes.
unfoldable pub add_lengths : ℕ → List Entry → Result KvError ℕ
add_lengths used [] = ok used
add_lengths used ((key, value) ∷ entries) =
    and_try (ok_or overflow (checked_add used (length value))) (λ n. add_lengths n entries)

unfoldable pub insert_all : KvTable → KvTable → KvTable
insert_all [] table = table
insert_all ((k, enc) ∷ rows) table = insert_all rows (insert k enc table)

module _ (codec : KvCodec) where
  -- Each value is encrypted under a nonce of its own.
  unfoldable pub seal_all : String → ℕ → List Entry → Result KvError KvTable
  seal_all plugin_id nonce [] = ok []
  seal_all plugin_id nonce ((key, value) ∷ entries) =
      and_try (ok_or encryption (codec.seal nonce value)) (λ enc.
        and_try (seal_all plugin_id (nonce + 1) entries)
          (λ rows. ok ((record { plugin_id = plugin_id; key = key }, enc) ∷ rows)))

  unfoldable pub kv_replace_prefix_limited :
      KvTable → ℕ → String → String → List Entry → ℕ → Result KvError KvTable
  kv_replace_prefix_limited table nonce plugin_id prefix entries quota =
      and_try (checked prefix entries) (λ valid. and_try (seal_all plugin_id nonce entries) (λ rows.
        and_try (measure codec (outside_rows plugin_id prefix) 0 table) (λ outside.
          and_try (add_lengths outside entries) (λ used. and_try (within quota used) (λ fits.
            ok (insert_all rows (filter (λ row. not (deleted plugin_id prefix row.0)) table)))))))
