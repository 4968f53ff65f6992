-- ===== src/Plugins/Replaced.antt =====
-- src/plugins/store.rs: the quota after a plugin's values under a prefix have been replaced.
use Prim.Native.String.{len, count}
use kinetix.Base.{
  ℕ, ◌+◌, ◌≤◌, ◌≡◌, refl, arith, ap, sym, subst, ◌∙◌, Bool, true, false, not, none, some, String,
  List, [], ◌∷◌, length, filter, any, All, str_eq, ok, Bool-cases, inl, inr,
}
use kinetix.Base.Keyed.{lookup, insert, IsDistinct, lookup-insert, insert-IsDistinct, string_eq}
use kinetix.Plugins.Kv.{
  KvKey, same_kv_key, same_kv_key_iff, kv_key_eq, Bytes, KvCodec, KvTable, own_rows,
}
use kinetix.Plugins.Quota.{
  and_try-ok, ok_or-ok, checked_add-some, within-ok, ok-injective, total, measure-total,
  total-insert, total-other_rows,
}
use kinetix.Plugins.Snapshot.{
  starts_with, deleted, outside_rows, Entry, has_duplicates, checked, add_lengths, seal_all,
  insert_all, kv_replace_prefix_limited,
}

abbrev pub sizes : List Entry → ℕ
sizes [] = 0
sizes ((key, value) ∷ entries) = length value + sizes entries

add_lengths-sizes :
    (used n : ℕ) (entries : List Entry) → add_lengths used entries ≡ ok n → n ≡ used + sizes entries
unfolding add_lengths
add_lengths-sizes used n [] h = ground (arith, h)
add_lengths-sizes used n ((key, value) ∷ entries) h =
    let (used', added, h') = and_try-ok _ _ n h in
    let s = checked_add-some used (length value) used' (ok_or-ok _ _ used' added) in
    omega (arith, add_lengths-sizes used' n entries h', s)

module _ (p : KvKey → Bool) where
  lookup-filter :
      (k : KvKey) (t : KvTable) → lookup k t ≡ none → lookup k (filter (λ row. p row.0) t) ≡ none
  unfolding lookup filter
  lookup-filter k [] h = refl
  lookup-filter k ((j, v) ∷ t) h = ground (arith, h, lookup-filter k t)

  lookup-filtered :
      (k : KvKey) (t : KvTable) → p k ≡ false → lookup k (filter (λ row. p row.0) t) ≡ none
  unfolding lookup filter
  lookup-filtered k [] h = refl
  lookup-filtered k ((j, v) ∷ t) h = ground (arith, h, same_kv_key_iff j k, lookup-filtered k t h)

  filter-IsDistinct : (t : KvTable) → IsDistinct t → IsDistinct (filter (λ row. p row.0) t)
  unfolding filter
  filter-IsDistinct [] d = tt
  filter-IsDistinct ((j, v) ∷ t) d = elim (Bool-cases (p j)) [
    | inl e ↦ rw e (lookup-filter j t d.0, filter-IsDistinct t d.1)
    | inr e ↦ rw e (filter-IsDistinct t d.1)
  ]

module _ (plugin_id prefix : String) (ascii : len prefix ≡ count prefix) where
  outside_rows-deleted :
      (k : KvKey) → deleted plugin_id prefix k ≡ true → outside_rows plugin_id prefix k ≡ false
  unfolding outside_rows own_rows deleted starts_with
  outside_rows-deleted k h = ground (arith, rw ascii at h)

  outside_rows-own :
      (k : KvKey)
      → deleted plugin_id prefix k ≡ false
      → own_rows plugin_id k ≡ outside_rows plugin_id prefix k
  unfolding outside_rows own_rows deleted starts_with
  outside_rows-own k h = ground (arith, rw ascii at h)

  deleted-own :
      (key : String)
      → starts_with key prefix ≡ true
      → deleted plugin_id prefix (record { plugin_id = plugin_id; key = key }) ≡ true
  unfolding deleted starts_with
  deleted-own key h = rw ascii (ground (arith, (string_eq.beq_iff plugin_id plugin_id).1 refl, h))

  total-kept :
      (codec : KvCodec) (t : KvTable)
      → total codec (own_rows plugin_id) (filter (λ row. not (deleted plugin_id prefix row.0)) t)
        ≡ total codec (outside_rows plugin_id prefix) t
  unfolding filter
  total-kept codec [] = refl
  total-kept codec ((j, v) ∷ t) = elim (Bool-cases (deleted plugin_id prefix j)) [
    | inl e ↦ rw (e, outside_rows-deleted j e) (total-kept codec t)
    | inr e ↦ rw (e, outside_rows-own j e, total-kept codec t) refl
  ]

checked-ok :
    (prefix : String) (entries : List Entry)
    → checked prefix entries ≡ ok tt
    → (any (λ e. not (starts_with e.0 prefix)) entries ≡ false) × (has_duplicates entries ≡ false)
unfolding checked
checked-ok prefix entries h = ground (arith, h)

-- What the entries' keys need of a table that they are added to.
abbrev Absent : String → List Entry → KvTable → Type 0
Absent plugin_id entries t =
    All (λ e. lookup (record { plugin_id = plugin_id; key = e.0 }) t ≡ none) entries

other_key :
    (plugin_id key other : String)
    → str_eq other key ≡ false
    → same_kv_key
        (record { plugin_id = plugin_id; key = key })
        (record { plugin_id = plugin_id; key = other })
      ≡ false
unfolding same_kv_key
other_key plugin_id key other h =
    ground (arith, string_eq.beq_iff key other, string_eq.beq_iff other key, h)

insert-Absent :
    (plugin_id key enc : String) (entries : List Entry) (t : KvTable)
    → any (λ e. str_eq e.0 key) entries ≡ false
    → Absent plugin_id entries t
    → Absent plugin_id entries (insert (record { plugin_id = plugin_id; key = key }) enc t)
insert-Absent plugin_id key enc [] t n a = tt
insert-Absent plugin_id key enc ((other, value) ∷ entries) t n a = (
  rw
      (
        lookup-insert (record { plugin_id = plugin_id; key = key }) _ enc t,
        other_key plugin_id key other (ground (arith, n)),
      )
      a.0,
  insert-Absent plugin_id key enc entries t (ground (arith, n)) a.1,
)

kept-Absent :
    (plugin_id prefix : String) (entries : List Entry) (t : KvTable)
    → len prefix ≡ count prefix
    → any (λ e. not (starts_with e.0 prefix)) entries ≡ false
    → Absent plugin_id entries (filter (λ row. not (deleted plugin_id prefix row.0)) t)
kept-Absent plugin_id prefix [] t ascii h = tt
kept-Absent plugin_id prefix ((key, value) ∷ entries) t ascii h = (
  lookup-filtered (λ k. not (deleted plugin_id prefix k)) _ t
      (ap not (deleted-own plugin_id prefix ascii key (ground (arith, h)))),
  kept-Absent plugin_id prefix entries t ascii (ground (arith, h)),
)

module _ (codec : KvCodec)
    (unseal-seal : (nonce : ℕ) (value : Bytes) (enc : String)
      → codec.seal nonce value ≡ some enc
      → codec.unseal enc ≡ some value) where
  total-insert_all :
      (plugin_id : String) (nonce : ℕ) (entries : List Entry) (rows t : KvTable) (m : ℕ)
      → seal_all codec plugin_id nonce entries ≡ ok rows
      → IsDistinct t
      → has_duplicates entries ≡ false
      → Absent plugin_id entries t
      → total codec (own_rows plugin_id) t ≡ some m
      → total codec (own_rows plugin_id) (insert_all rows t) ≡ some (sizes entries + m)
  unfolding seal_all insert_all has_duplicates
  total-insert_all plugin_id nonce [] rows t m s d u a h =
      subst (λ r. total codec (own_rows plugin_id) (insert_all r t) ≡ some m) (ok-injective s) h
      ∙ ap some (omega arith)
  total-insert_all plugin_id nonce ((key, value) ∷ entries) rows t m s d u a h =
      let k : KvKey = record { plugin_id = plugin_id; key = key } in
      let (enc, sealed, s') = and_try-ok _ _ rows s in
      let (rest, sealed', s'') = and_try-ok _ _ rows s' in
      let one =
        total-insert codec k enc value t m d (unseal-seal nonce value enc (ok_or-ok _ _ enc sealed))
          (sym (total-other_rows codec k t a.0) ∙ h) in
      subst
        (λ r.
          total codec (own_rows plugin_id) (insert_all r t)
          ≡ some (sizes ((key, value) ∷ entries) + m))
        (ok-injective s'')
        (total-insert_all plugin_id (nonce + 1) entries rest (insert k enc t) (length value + m)
            sealed' (insert-IsDistinct k enc t d) (ground (arith, u))
            (insert-Absent plugin_id key enc entries t (ground (arith, u)) a.1) one
          ∙ ap some (omega arith))

  -- After a replacement that succeeded, under a prefix of ASCII characters, what the plugin stores
  -- can be read and is within its quota.
  pub kv_replace_prefix_limited-quota :
      (table : KvTable) (nonce : ℕ) (plugin_id prefix : String) (entries : List Entry) (quota : ℕ)
      (table' : KvTable)
      → len prefix ≡ count prefix
      → IsDistinct table
      → kv_replace_prefix_limited codec table nonce plugin_id prefix entries quota ≡ ok table'
      → (n : ℕ) × (total codec (own_rows plugin_id) table' ≡ some n) × (n ≤ quota)
  unfolding kv_replace_prefix_limited
  kv_replace_prefix_limited-quota table nonce plugin_id prefix entries quota table' ascii d h =
      let (valid, checks, h1) = and_try-ok _ _ table' h in
      let (rows, sealed, h2) = and_try-ok _ _ table' h1 in
      let (outside, measured, h3) = and_try-ok _ _ table' h2 in
      let (used, added, h4) = and_try-ok _ _ table' h3 in
      let (fits, fit, h5) = and_try-ok _ _ table' h4 in
      let (m, t, s) =
        measure-total codec (outside_rows plugin_id prefix) 0 outside table measured in
      let c = checked-ok prefix entries checks in
      let p : KvKey → Bool = λ k. not (deleted plugin_id prefix k) in
      let kept = filter (λ row. p row.0) table in
      (
        sizes entries + m,
        subst (λ x. total codec (own_rows plugin_id) x ≡ some (sizes entries + m)) (ok-injective h5)
            (total-insert_all plugin_id nonce entries rows kept m sealed
              (filter-IsDistinct p table d) c.1
              (kept-Absent plugin_id prefix entries table ascii c.0)
              (total-kept plugin_id prefix ascii codec table ∙ t)),
        omega (arith, within-ok quota used fit, add_lengths-sizes outside used entries added, s),
      )
