-- ===== src/Plugins/Tests.antt =====
-- Runs of a plugin's circuit and of its storage at concrete inputs.
use kinetix.Base.{
  not, ◌&&◌, filter, ok, ℕ, zero, suc, ◌+◌, ◌≤◌, ◌≡◌, refl, arith, true, Option, none, some, String,
  List, [], ◌∷◌, length, ltb, leb, if◌then◌else◌, str_eq, seconds, subst, some-injective,
}
use kinetix.Base.Keyed.{lookup, insert}
use kinetix.Plugins.Circuit.{
  closed, open_circuit, RuntimeStateRow, circuit_ready, clear_plugin_failures,
  circuit_fault_threshold, circuit_open_secs,
}
use kinetix.Plugins.Faults.{
  Fault, faults, last_at, faults-circuit_ready, Attempt, ask, claim, attempts, claims_from,
  one_probe,
}
use kinetix.Plugins.Kv.{
  KvKey, Bytes, KvCodec, KvTable, kv_put_limited, own_rows, other_rows, measure, within,
  checked_add, ok_or, and_try, same_kv_key,
}
use kinetix.Plugins.Snapshot.{
  Entry, substr, starts_with, deleted, outside_rows, has_duplicates, checked, add_lengths, seal_all,
  insert_all, kv_replace_prefix_limited,
}
use kinetix.Plugins.Replaced.{kv_replace_prefix_limited-quota}
use kinetix.Plugins.Quota.{total, kv_put_limited-quota}

abbrev row : RuntimeStateRow
row = record {
  circuit = closed;
  consecutive_failures = 3;
  circuit_open_until = none;
  last_error_code = none;
  last_error_at = none;
}

abbrev five_faults : List Fault
five_faults = ("trap", 1) ∷ ("trap", 2) ∷ ("timeout", 3) ∷ ("trap", 4) ∷ ("trap", 5) ∷ []

faults-circuit_ready_example :
    circuit_ready (some (faults (clear_plugin_failures row) five_faults)) (seconds 30) ≡ (
      if ltb (length five_faults) circuit_fault_threshold
      then true
      else leb (last_at 0 five_faults + seconds circuit_open_secs) (seconds 30))
faults-circuit_ready_example = faults-circuit_ready row five_faults (seconds 30)

abbrev opened : RuntimeStateRow
opened = record row { circuit = open_circuit; circuit_open_until = some 5 }

abbrev three : List Attempt
three = ask 7 ∷ claim 8 ∷ claim (seconds 900) ∷ []

one_probe_example :
    ((attempts (some opened) three).1 ≡ (if claims_from 5 three then 1 else 0))
    × (circuit_ready (attempts (some opened) three).0 (seconds 1000)
        ≡ (not (claims_from 5 three) && leb 5 (seconds 1000)))
one_probe_example = one_probe opened 5 three (seconds 1000) refl refl

-- A codec that only knows the value of one zero byte.
abbrev seal_zero : ℕ → Bytes → Option String
seal_zero nonce (zero ∷ []) = some "zero"
seal_zero nonce (zero ∷ x ∷ xs) = none
seal_zero nonce (suc n ∷ xs) = none
seal_zero nonce [] = none

abbrev zero_codec : KvCodec
zero_codec = record {
  seal = seal_zero;
  unseal = λ text. if str_eq text "zero" then some (0 ∷ []) else none;
}

unseal-seal_zero :
    (nonce : ℕ) (value : Bytes) (enc : String)
    → zero_codec.seal nonce value ≡ some enc
    → zero_codec.unseal enc ≡ some value
unseal-seal_zero nonce [] enc h = absurd (ground (arith, h))
unseal-seal_zero nonce (suc n ∷ xs) enc h = absurd (ground (arith, h))
unseal-seal_zero nonce (zero ∷ x ∷ xs) enc h = absurd (ground (arith, h))
unseal-seal_zero nonce (zero ∷ []) enc h =
    subst (λ e. zero_codec.unseal e ≡ some (0 ∷ [])) (some-injective h) refl

abbrev here : KvKey
here = record { plugin_id = "p"; key = "a" }

abbrev there : KvKey
there = record { plugin_id = "p"; key = "b" }

abbrev before : KvTable
before = (there, "zero") ∷ (here, "zero") ∷ []

kv_put_limited-quota_example :
    (n : ℕ) × (total zero_codec (own_rows "p") ((there, "zero") ∷ (here, "zero") ∷ []) ≡ some n)
    × (n ≤ 2)
unfolding lookup insert same_kv_key kv_put_limited and_try ok_or measure other_rows checked_add
    within
kv_put_limited-quota_example =
    kv_put_limited-quota zero_codec unseal-seal_zero before 0 here (0 ∷ []) 2 before
      (refl, (refl, tt)) refl

abbrev snapshot : List Entry
snapshot = ("fact/b", 0 ∷ []) ∷ ("fact/c", 0 ∷ []) ∷ []

abbrev facts : String → KvKey
facts key = record { plugin_id = "p"; key = key }

-- The old value `fact/a` makes room for the two of the snapshot.
kv_replace_prefix_limited-quota_example :
    (n : ℕ) × (total zero_codec
        (own_rows "p")
        ((facts "fact/b", "zero") ∷ (facts "fact/c", "zero") ∷ [])
      ≡ some n)
    × (n ≤ 2)
unfolding lookup kv_replace_prefix_limited checked has_duplicates starts_with substr seal_all
    and_try ok_or measure outside_rows add_lengths checked_add within deleted filter insert_all
    insert same_kv_key
kv_replace_prefix_limited-quota_example =
    kv_replace_prefix_limited-quota zero_codec unseal-seal_zero ((facts "fact/a", "zero") ∷ []) 0
      "p" "fact/" snapshot 2 ((facts "fact/b", "zero") ∷ (facts "fact/c", "zero") ∷ []) refl
      (refl, tt) refl

-- Under a prefix with a character of two bytes the old value stays, and the quota is passed.
accented_prefix :
    kv_replace_prefix_limited zero_codec
      ((facts "é/old", "zero") ∷ [])
      0
      "p"
      "é/"
      (("é/new", 0 ∷ []) ∷ [])
      1
    ≡ ok ((facts "é/old", "zero") ∷ (facts "é/new", "zero") ∷ [])
unfolding kv_replace_prefix_limited checked has_duplicates starts_with substr seal_all and_try ok_or
    measure outside_rows add_lengths checked_add within deleted filter insert_all insert same_kv_key
accented_prefix = refl
