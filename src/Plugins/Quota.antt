-- ===== src/Plugins/Quota.antt =====
-- src/plugins/store.rs: the quota on what a plugin stores, and what it reads back.
use kinetix.Base.{
  ℕ, ◌+◌, ◌≤◌, ◌≡◌, refl, arith, ap, subst, Bool, true, false, Option, none, some, String, [], ◌∷◌,
  length, if◌then◌else◌, Result, ok, err, and_then, Bool-cases, inl, inr,
}
use kinetix.Base.Keyed.{string_eq, lookup, insert, IsDistinct, lookup-insert}
use kinetix.Plugins.Kv.{
  KvKey, same_kv_key, same_kv_key_iff, kv_key_eq, Bytes, KvCodec, KvTable, KvError, checked_add,
  ok_or, and_try, measure, within, other_rows, own_rows, kv_put_limited, kv_get,
}

-- What comes before succeeded.
pub and_try-ok :
    {A B : Type 0} (r : Result KvError A) (f : A → Result KvError B) (b : B)
    → and_try r f ≡ ok b
    → (a : A) × (r ≡ ok a) × (f a ≡ ok b)
unfolding and_try
and_try-ok (err e) f b h = absurd (ground (arith, h))
and_try-ok (ok a) f b h = (a, refl, h)

abbrev pub stored_table : Result KvError KvTable → KvTable → KvTable
stored_table (ok t) d = t
stored_table (err e) d = d

pub ok-injective : {a b : KvTable} → ◌≡◌ {A = Result KvError KvTable} (ok a) (ok b) → a ≡ b
ok-injective {a = a} h = ap (λ r. stored_table r a) h

and_then-some :
    {A B : Type 0} (o : Option A) (f : A → Option B) (b : B)
    → and_then o f ≡ some b
    → (a : A) × (o ≡ some a) × (f a ≡ some b)
and_then-some none f b h = absurd (ground (arith, h))
and_then-some (some a) f b h = (a, refl, h)

pub ok_or-ok : {A : Type 0} (e : KvError) (o : Option A) (a : A) → ok_or e o ≡ ok a → o ≡ some a
unfolding ok_or
ok_or-ok e none a h = absurd (ground (arith, h))
ok_or-ok e (some x) a h = ground (arith, h)

pub checked_add-some : (a b n : ℕ) → checked_add a b ≡ some n → n ≡ a + b
unfolding checked_add
checked_add-some a b n h = ground (arith, h)

pub within-ok : (quota n : ℕ) → within quota n ≡ ok tt → n ≤ quota
unfolding within
within-ok quota n h = ground (arith, h)

own_rows-other_rows :
    (k j : KvKey) → same_kv_key j k ≡ false → own_rows k.plugin_id j ≡ other_rows k j
unfolding own_rows other_rows same_kv_key
own_rows-other_rows k j h = ground (arith, h)

other_rows-same : (k j : KvKey) → same_kv_key j k ≡ true → other_rows k j ≡ false
unfolding other_rows same_kv_key
other_rows-same k j h = ground (arith, h)

own_rows_refl : (k : KvKey) → own_rows k.plugin_id k ≡ true
unfolding own_rows
own_rows_refl k = (string_eq.beq_iff k.plugin_id k.plugin_id).1 refl

module _ (codec : KvCodec) where
  -- The bytes that the rows with a `counted` key hold, if all of them can be read.
  abbrev pub total : (KvKey → Bool) → KvTable → Option ℕ
  total counted [] = some 0
  total counted ((k, v) ∷ rows) =
      if counted k
      then and_then (codec.unseal v) (λ b. and_then (total counted rows) (λ n. some (length b + n)))
      else total counted rows

  pub measure-total :
      (counted : KvKey → Bool) (used n : ℕ) (rows : KvTable)
      → measure codec counted used rows ≡ ok n
      → (m : ℕ) × (total counted rows ≡ some m) × (n ≡ used + m)
  unfolding measure
  measure-total counted used n [] h = (0, refl, ground (arith, h))
  measure-total counted used n ((k, v) ∷ rows) h = elim (Bool-cases (counted k)) [
    | inr e ↦ let (m, t, s) = measure-total counted used n rows (rw e at h) in (m, rw e t, s)
    | inl e ↦
        let (b, unsealed, h') = and_try-ok _ _ n (rw e at h) in
        let (used', added, h'') = and_try-ok _ _ n h' in
        let (m, t, s) = measure-total counted used' n rows h'' in
        (
          length b + m,
          rw (e, ok_or-ok _ _ b unsealed, t) refl,
          omega (arith, s, checked_add-some used (length b) used' (ok_or-ok _ _ used' added)),
        )
  ]

  -- Where the plugin has no value under the key, all its rows are others.
  pub total-other_rows :
      (k : KvKey) (rows : KvTable)
      → lookup k rows ≡ none
      → total (own_rows k.plugin_id) rows ≡ total (other_rows k) rows
  unfolding lookup
  total-other_rows k [] h = refl
  total-other_rows k ((j, v) ∷ rows) h = elim (Bool-cases (same_kv_key j k)) [
    | inl e ↦ absurd (ground (arith, rw e at h))
    | inr e ↦ rw (own_rows-other_rows k j e, total-other_rows k rows (rw e at h)) refl
  ]

  pub total-insert :
      (k : KvKey) (enc : String) (value : Bytes) (rows : KvTable) (m : ℕ)
      → IsDistinct rows
      → codec.unseal enc ≡ some value
      → total (other_rows k) rows ≡ some m
      → total (own_rows k.plugin_id) (insert k enc rows) ≡ some (length value + m)
  unfolding insert
  total-insert k enc value [] m d u t = rw (own_rows_refl k, u) (ground (arith, t))
  total-insert k enc value ((j, v) ∷ rows) m d u t = elim (Bool-cases (same_kv_key j k)) [
    | inl e ↦
        let absent : lookup k rows ≡ none =
          subst (λ i. lookup i rows ≡ none) ((same_kv_key_iff j k).0 e) d.0 in
        rw (e, own_rows_refl k, u, total-other_rows k rows absent, rw (other_rows-same k j e) at t)
          refl
    | inr e ↦
        rw (e, own_rows-other_rows k j e)
          (elim (Bool-cases (other_rows k j)) [
            | inr f ↦ rw f (total-insert k enc value rows m d.1 u (rw f at t))
            | inl f ↦
                let (b, unsealed, t') = and_then-some (codec.unseal v) _ m (rw f at t) in
                let (m', t'', sum) = and_then-some (total (other_rows k) rows) _ m t' in
                rw (f, unsealed, total-insert k enc value rows m' d.1 u t'') (ground (arith, sum))
          ])
  ]

  -- What a put that succeeded did.
  record Put (table : KvTable) (nonce : ℕ) (k : KvKey) (value : Bytes) (quota : ℕ)
      (table' : KvTable) : Type 0 where
    pub enc : String
    pub sealed : codec.seal nonce value ≡ some enc
    pub others : ℕ
    pub measured : total (other_rows k) table ≡ some others
    pub fits : length value + others ≤ quota
    pub placed : insert k enc table ≡ table'

  kv_put_limited-Put :
      (table : KvTable) (nonce : ℕ) (k : KvKey) (value : Bytes) (quota : ℕ) (table' : KvTable)
      → kv_put_limited codec table nonce k value quota ≡ ok table'
      → Put table nonce k value quota table'
  unfolding kv_put_limited
  kv_put_limited-Put table nonce k value quota table' h =
      let (enc, sealed, h1) = and_try-ok _ _ table' h in
      let (used, measured, h2) = and_try-ok _ _ table' h1 in
      let (projected, added, h3) = and_try-ok _ _ table' h2 in
      let (fits, fit, h4) = and_try-ok _ _ table' h3 in
      let (m, t, s) = measure-total (other_rows k) 0 used table measured in
      record {
        enc = enc;
        sealed = ok_or-ok _ _ enc sealed;
        others = m;
        measured = t;
        fits = omega (
          arith,
          within-ok quota projected fit,
          checked_add-some used (length value) projected (ok_or-ok _ _ projected added),
          s,
        );
        placed = ok-injective h4;
      }

  module _
      (unseal-seal : (nonce : ℕ) (value : Bytes) (enc : String)
        → codec.seal nonce value ≡ some enc
        → codec.unseal enc ≡ some value) where
    -- After a put that succeeded, what the plugin stores can be read and is within its quota.
    pub kv_put_limited-quota :
        (table : KvTable) (nonce : ℕ) (k : KvKey) (value : Bytes) (quota : ℕ) (table' : KvTable)
        → IsDistinct table
        → kv_put_limited codec table nonce k value quota ≡ ok table'
        → (n : ℕ) × (total (own_rows k.plugin_id) table' ≡ some n) × (n ≤ quota)
    kv_put_limited-quota table nonce k value quota table' d h =
        let p = kv_put_limited-Put table nonce k value quota table' h in
        (
          length value + p.others,
          subst (λ t. total (own_rows k.plugin_id) t ≡ some (length value + p.others)) p.placed
              (total-insert k p.enc value table p.others d (unseal-seal nonce value p.enc p.sealed)
                p.measured),
          p.fits,
        )

    -- A put that succeeded is read back, and no other value of any plugin changes.
    pub kv_get-put :
        (table : KvTable) (nonce : ℕ) (k j : KvKey) (value : Bytes) (quota : ℕ) (table' : KvTable)
        → kv_put_limited codec table nonce k value quota ≡ ok table'
        → kv_get codec table' j
          ≡ (if same_kv_key k j then ok (some value) else kv_get codec table j)
    unfolding kv_get and_try ok_or
    kv_get-put table nonce k j value quota table' h =
        let p = kv_put_limited-Put table nonce k value quota table' h in
        subst
          (λ t.
            kv_get codec t j ≡ (if same_kv_key k j then ok (some value) else kv_get codec table j))
          p.placed
          (rw (lookup-insert k j p.enc table) (elim (Bool-cases (same_kv_key k j)) [
            | inl e ↦ rw (e, unseal-seal nonce value p.enc p.sealed) refl
            | inr e ↦ rw e refl
          ]))
