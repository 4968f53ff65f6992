-- ===== src/Plugins/Kv.antt =====
-- src/plugins/store.rs: a plugin's stored values, encrypted in the table `plugin_kv`. Its primary
-- key is the plugin and the key; a transaction that fails leaves the table as it was. Encryption
-- with the encoding in base 64 is a parameter.
use kinetix.Base.{
  ℕ, ◌+◌, ◌≡◌, ◌↔◌, arith, Bool, true, not, ◌&&◌, Option, none, some, String, List, [], ◌∷◌, length,
  leb, if◌then◌else◌, str_eq, u64_max, Result, ok, err,
}
use kinetix.Base.Keyed.{KeyEq, string_eq, lookup, insert, remove}

pub record KvKey : Type 0 where
  pub plugin_id : String
  pub key : String

unfoldable pub same_kv_key : KvKey → KvKey → Bool
same_kv_key a b = str_eq a.plugin_id b.plugin_id && str_eq a.key b.key

pub same_kv_key_iff : (a b : KvKey) → (same_kv_key a b ≡ true) ↔ (a ≡ b)
unfolding same_kv_key
same_kv_key_iff a b =
    ground (arith, string_eq.beq_iff a.plugin_id b.plugin_id, string_eq.beq_iff a.key b.key)

instance abbrev pub kv_key_eq : KeyEq KvKey
kv_key_eq = record { beq = same_kv_key; beq_iff = same_kv_key_iff }

abbrev pub Bytes : Type 0
Bytes = List ℕ

-- The stored text of a value under a nonce, and the value of a stored text.
pub record KvCodec : Type 0 where
  pub seal : ℕ → Bytes → Option String
  pub unseal : String → Option Bytes

abbrev pub KvTable : Type 0
KvTable = List (KvKey × String)

pub data KvError : Type 0 where
  encryption unreadable overflow empty_prefix outside_prefix duplicate_keys : KvError
  quota_exceeded : ℕ → KvError

unfoldable pub checked_add : ℕ → ℕ → Option ℕ
checked_add a b = if leb (a + b) u64_max then some (a + b) else none

unfoldable pub ok_or : {A : Type 0} → KvError → Option A → Result KvError A
ok_or e none = err e
ok_or e (some a) = ok a

unfoldable pub and_try :
    {A B : Type 0} → Result KvError A → (A → Result KvError B) → Result KvError B
and_try (err e) f = err e
and_try (ok a) f = f a

unfoldable pub within : ℕ → ℕ → Result {0, 0} KvError Unit
within quota projected = if leb projected quota then ok tt else err (quota_exceeded projected)

-- The rows of `k`'s plugin other than `k`'s.
unfoldable pub other_rows : KvKey → KvKey → Bool
other_rows k j = str_eq j.plugin_id k.plugin_id && not (str_eq j.key k.key)

-- The rows of a plugin.
unfoldable pub own_rows : String → KvKey → Bool
own_rows plugin_id j = str_eq j.plugin_id plugin_id

unfoldable pub kv_delete : KvTable → KvKey → KvTable
kv_delete table k = remove k table

module _ (codec : KvCodec) where
  -- The bytes that the rows with a `counted` key hold, on top of `used`.
  unfoldable pub measure : (KvKey → Bool) → ℕ → KvTable → Result KvError ℕ
  measure counted used [] = ok used
  measure counted used ((k, v) ∷ rows) =
      if counted k
      then and_try (ok_or unreadable (codec.unseal v)) (λ b.
        and_try (ok_or overflow (checked_add used (length b))) (λ n. measure counted n rows))
      else measure counted used rows

  unfoldable pub kv_put : KvTable → ℕ → KvKey → Bytes → Result KvError KvTable
  kv_put table nonce k value =
      and_try (ok_or encryption (codec.seal nonce value)) (λ enc. ok (insert k enc table))

  unfoldable pub kv_put_limited : KvTable → ℕ → KvKey → Bytes → ℕ → Result KvError KvTable
  kv_put_limited table nonce k value quota =
      and_try (ok_or encryption (codec.seal nonce value)) (λ enc.
        and_try (measure (other_rows k) 0 table) (λ used.
          and_try (ok_or overflow (checked_add used (length value)))
            (λ projected. and_try (within quota projected) (λ fits. ok (insert k enc table)))))

  unfoldable pub kv_get : KvTable → KvKey → Result KvError (Option Bytes)
  kv_get table k = opened (lookup k table)
    where
      opened : Option String → Result KvError (Option Bytes)
      opened none = ok none
      opened (some enc) = and_try (ok_or unreadable (codec.unseal enc)) (λ bytes. ok (some bytes))
