-- ===== src/Admission/Burst.antt =====
-- Concurrent requests of one key: ids are fresh, and a burst is admitted up to the limit only.
use text.Mathlib.TextEquality.{eq_iff}
use kinetix.Base.{
  ℕ, ◌+◌, ◌-◌, ◌≤◌, ◌<◌, ◌≡◌, refl, ap, inl, inr, Bool, none, some, List, [], ◌∷◌, String, leb,
  drop_while, length, All, saturating_add, wrapping_add, pos, Result, ok, err, arith, u64_max,
  Bool-cases,
}
use kinetix.Admission.{
  Calendar, KeyLedger, KeyLimits, ActiveReservation, AdmissionEstimate, lookup, insert, refresh,
  totals, current, reserve, minute_window,
}
use kinetix.Admission.Limits.{Within-pos, reserve_keeps_limits, reserve-cases}
use kinetix.Admission.Controller.{
  KeyAdmission, AdmissionController, find_key, store_key, entry, reserve_initialized,
}

abbrev pub IdsBelow : ℕ → List (ℕ × ActiveReservation) → Type 0
IdsBelow n = All (λ e. e.0 ≤ n)

IdsBelow-mono : (m n : ℕ) (l : List (ℕ × ActiveReservation)) → m ≤ n → IdsBelow m l → IdsBelow n l
IdsBelow-mono m n [] h k = tt
IdsBelow-mono m n (e ∷ l) h k = (omega arith, IdsBelow-mono m n l h k.1)

lookup_above :
    (id n : ℕ) (l : List (ℕ × ActiveReservation)) → IdsBelow n l → n < id → lookup id l ≡ none
unfolding lookup
lookup_above id n [] h k = refl
lookup_above id n ((j, a) ∷ l) h k = ground (arith, lookup_above id n l h.1)

insert-IdsBelow :
    (id n : ℕ) (a : ActiveReservation) (l : List (ℕ × ActiveReservation))
    → IdsBelow n l
    → id ≤ n
    → IdsBelow n (insert id a l)
unfolding insert
insert-IdsBelow id n a [] h k = (k, tt)
insert-IdsBelow id n a ((j, b) ∷ l) h k = ground (arith, insert-IdsBelow id n a l h.1)

find_key-store_key :
    (m : List (String × KeyAdmission)) (id : String) (k : KeyAdmission)
    → find_key (store_key m id k) id ≡ k
unfolding find_key store_key
find_key-store_key [] id k = ground (arith, eq_iff id id)
find_key-store_key ((j, k') ∷ m) id k =
    ground (arith, eq_iff j id, eq_iff id id, find_key-store_key m id k)

drop_while_twice {ℓ} :
    {A : Type ℓ} (p : A → Bool) (xs : List A) → drop_while p (drop_while p xs) ≡ drop_while p xs
drop_while_twice p [] = refl
drop_while_twice p (x ∷ xs) = elim (Bool-cases (p x)) [
  | inl e ↦ rw e (drop_while_twice p xs)
  | inr e ↦ rw e (rw e)
]

module _ (cal : Calendar) (now_wall now : ℕ) where
  -- Rolling and pruning again at the same moment changes nothing, whatever is reserved meanwhile.
  refresh_twice :
      (l : KeyLedger) (active : List (ℕ × ActiveReservation))
      → refresh cal (record (refresh cal l now_wall now) { active = active }) now_wall now
        ≡ record (refresh cal l now_wall now) { active = active }
  unfolding refresh
  refresh_twice l active =
      ground (arith, drop_while_twice (λ e. leb minute_window (now - e.at)) l.minute)

  refresh-reserve :
      (l : KeyLedger) (id : ℕ) (key : KeyLimits) (e : AdmissionEstimate)
      → refresh cal (reserve cal l id key e now_wall now).0 now_wall now
        ≡ (reserve cal l id key e now_wall now).0
  refresh-reserve l id key e = elim (reserve-cases cal l id key e now_wall now) [
    | inl (_, led, _, _, _, _) ↦ rw led (refresh_twice l _)
    | inr (_, _, led, _) ↦ rw led (refresh_twice l _)
  ]

  -- The requests of the minute, as `current` counts them.
  abbrev pub requests : KeyLedger → ℕ
  requests l = (totals cal (refresh cal l now_wall now) now_wall now).requests

  abbrev pub is_ok {ℓ κ} : {E : Type ℓ} {A : Type κ} → Result E A → ℕ
  is_ok (ok a) = 1
  is_ok (err e) = 0

  reserve-IdsBelow :
      (l : KeyLedger) (n id : ℕ) (key : KeyLimits) (e : AdmissionEstimate)
      → IdsBelow n l.active
      → n < id
      → IdsBelow id (reserve cal l id key e now_wall now).0.active
  unfolding refresh
  reserve-IdsBelow l n id key e below small =
      let old = IdsBelow-mono n id l.active (omega arith) below in
      elim (reserve-cases cal l id key e now_wall now) [
        | inl (_, led, _, _, _, _) ↦ rw led (insert-IdsBelow id id _ l.active old (omega arith))
        | inr (_, _, led, _) ↦ rw led old
      ]

  reserve-requests :
      (l : KeyLedger) (n id : ℕ) (key : KeyLimits) (e : AdmissionEstimate) (m : ℕ)
      → IdsBelow n l.active
      → n < id
      → key.rpm_limit ≡ some (pos m)
      → 0 < m
      → m < u64_max
      → requests l ≤ m
      → let (l', r) = reserve cal l id key e now_wall now in
        (requests l' ≡ is_ok r + requests l) × (requests l' ≤ m)
  unfolding current saturating_add
  reserve-requests l n id key e m below small lim pos_m big h =
      let l' = (reserve cal l id key e now_wall now).0 in
      let again =
        ap (λ (z : KeyLedger). (totals cal z now_wall now).requests) (refresh-reserve l id key e) in
      elim (reserve-cases cal l id key e now_wall now) [
        | inl (done, _, _, _, _, _) ↦
            let keeps =
              reserve_keeps_limits cal l id key e now_wall now
                (lookup_above id n l.active below small) done in
            let within = Within-pos key.rpm_limit m _ lim pos_m keeps.0 in
            let grows = keeps.4 in
            (ground (arith, again, done, within, grows), ground (arith, again, within))
        | inr (_, bad, led, _) ↦
            let same = ap (λ (z : KeyLedger). (totals cal z now_wall now).requests) led in
            (ground (arith, again, bad, same), ground (arith, again, same))
      ]

  reserve_initialized_step :
      (c : AdmissionController) (key_id : String) (key : KeyLimits) (e : AdmissionEstimate)
      → c.next_id + 1 < u64_max
      → let (c', r) = reserve_initialized cal c key_id key e now_wall now in
        let (l, r') = reserve cal (entry c key_id).ledger (c.next_id + 1) key e now_wall now in
        (c'.next_id ≡ c.next_id + 1) × ((entry c' key_id).ledger ≡ l) × (is_ok r ≡ is_ok r')
  unfolding reserve_initialized saturating_add wrapping_add
  reserve_initialized_step c key_id key e small =
      let id : saturating_add c.next_id 1 ≡ c.next_id + 1 = omega arith in
      rw (id, find_key-store_key c.keys key_id) (omega arith, refl, ground (arith, id))

  unfoldable pub burst :
      AdmissionController → String → KeyLimits → List AdmissionEstimate → AdmissionController × ℕ
  burst c key_id key [] = (c, 0)
  burst c key_id key (e ∷ es) =
      let (c', r) = reserve_initialized cal c key_id key e now_wall now in
      let (c'', n) = burst c' key_id key es in (c'', is_ok r + n)

  -- However many requests of one key arrive at one moment, no more are admitted than the key's
  -- per-minute limit leaves room for: the requests already counted and those admitted together keep
  -- the limit. The ids that the controller draws are fresh. (The limit and the ids fit 64 bits.)
  pub burst_within_rpm :
      (c : AdmissionController) (key_id : String) (key : KeyLimits) (es : List AdmissionEstimate)
      (m : ℕ)
      → key.rpm_limit ≡ some (pos m)
      → 0 < m
      → m < u64_max
      → c.next_id + length es < u64_max
      → IdsBelow c.next_id (entry c key_id).ledger.active
      → requests (entry c key_id).ledger ≤ m
      → let (c', admitted) = burst c key_id key es in
        (admitted + requests (entry c key_id).ledger ≤ m)
        × (requests (entry c' key_id).ledger ≡ admitted + requests (entry c key_id).ledger)
  unfolding burst
  burst_within_rpm c key_id key [] m lim pos_m big ids below h = (omega arith, omega arith)
  burst_within_rpm c key_id key (e ∷ es) m lim pos_m big ids below h =
      let c' = (reserve_initialized cal c key_id key e now_wall now).0 in
      let s = reserve_initialized_step c key_id key e (omega arith) in
      let l = (entry c key_id).ledger in
      let id = c.next_id + 1 in
      let r = reserve-requests l c.next_id id key e m below (omega arith) lim pos_m big h in
      let b = reserve-IdsBelow l c.next_id id key e below (omega arith) in
      let led = ap (λ (z : KeyLedger). requests z) s.1 in
      let rest =
        burst_within_rpm c' key_id key es m lim pos_m big (omega (arith, s.0)) (rw (s.0, s.1) b)
          (omega (arith, led, r)) in
      (omega (arith, led, r, rest, s.2), omega (arith, led, r, rest, s.2))
