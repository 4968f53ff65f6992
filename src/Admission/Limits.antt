-- ===== src/Admission/Limits.antt =====
-- A reservation that is granted keeps every limit of the key, and one that is refused takes nothing.
use kinetix.Base.{
  ℕ, zero, suc, ◌+◌, ◌≤◌, ◌<◌, ◌≡◌, refl, ◌⊎◌, inl, inr, false, Option, none, some, List, [], ◌∷◌,
  unwrap_or, saturating_add, ℤ, pos, negsuc, ok, err, arith, length,
}
use kinetix.Types.{ProxyError, http_status}
use kinetix.Admission.{
  Calendar, KeyLedger, KeyLimits, ActiveReservation, AdmissionEstimate, Totals, add_active, add_all,
  insert, lookup, sum_tokens, totals, refresh, reserve, over, over_budget, current,
}

pub add_all-insert :
    (now day : ℕ) (month : ℕ × ℕ) (t : Totals) (id : ℕ) (a : ActiveReservation)
    (l : List (ℕ × ActiveReservation))
    → lookup id l ≡ none
    → add_all now day month t (insert id a l)
      ≡ add_active now day month (add_all now day month t l) a
unfolding add_all insert lookup
add_all-insert now day month t id a [] h = refl
add_all-insert now day month t id a ((j, b) ∷ l) h =
    ground (arith, add_all-insert now day month (add_active now day month t b) id a l)

-- A configured limit holds: an unset limit, or one that is not positive, is no limit.
abbrev pub Within : Option ℤ → ℕ → Type 0
Within (some (pos (suc m))) amount = amount ≤ suc m
Within _ amount = Unit

-- The limit on an amount of money that is added to what was spent: an unknown amount is not held to it.
abbrev pub WithinIfKnown : Option ℕ → Option ℤ → ℕ → Type 0
WithinIfKnown none limit amount = Unit
WithinIfKnown (some c) limit amount = Within limit amount

Within-over : (limit : Option ℤ) (amount : ℕ) → over limit amount ≡ false → Within limit amount
Within-over none amount h = tt
Within-over (some (negsuc n)) amount h = tt
Within-over (some (pos zero)) amount h = tt
Within-over (some (pos (suc n))) amount h = ground arith

Within-over_budget :
    (limit : Option ℤ) (spent : ℕ) (cost : Option ℕ)
    → over_budget limit spent cost ≡ false
    → WithinIfKnown cost limit (spent + unwrap_or cost 0)
Within-over_budget limit spent none h = tt
Within-over_budget limit spent (some c) h = Within-over limit (spent + c) h

pub Within-pos :
    (limit : Option ℤ) (m amount : ℕ)
    → limit ≡ some (pos m)
    → 0 < m
    → Within limit amount
    → amount ≤ m
Within-pos none m amount e h w = cc
Within-pos (some (negsuc n)) m amount e h w = cc
Within-pos (some (pos zero)) m amount e h w = absurd (ground arith)
Within-pos (some (pos (suc n))) m amount e h w = ground arith

module _ (cal : Calendar) (l : KeyLedger) (id : ℕ) (key : KeyLimits) (e : AdmissionEstimate)
    (now_wall now : ℕ) where
  abbrev reservation : ActiveReservation
  reservation = record {
    at = now;
    tokens = e.tokens;
    cost = e.cost;
    day = cal.date_naive now_wall;
    month = cal.year_month now_wall;
  }

  active-refresh : (refresh cal l now_wall now).active ≡ l.active
  unfolding refresh
  active-refresh = refl

  abbrev before : Totals
  before = totals cal (refresh cal l now_wall now) now_wall now

  abbrev granted : KeyLedger
  granted = record (refresh cal l now_wall now) {
    active = insert id reservation (refresh cal l now_wall now).active;
  }

  abbrev after : Totals
  after = totals cal granted now_wall now

  abbrev settled : Totals
  settled = record {
    requests = length (refresh cal l now_wall now).minute;
    tokens = sum_tokens (refresh cal l now_wall now).minute;
    daily = (refresh cal l now_wall now).daily_spend;
    monthly = (refresh cal l now_wall now).monthly_spend;
  }

  totals-granted :
      lookup id l.active ≡ none
      → (after.requests ≡ saturating_add before.requests 1)
        × (after.tokens ≡ saturating_add before.tokens e.tokens)
        × (after.daily ≡ before.daily + unwrap_or e.cost 0)
        × (after.monthly ≡ before.monthly + unwrap_or e.cost 0)
  unfolding totals add_active
  totals-granted fresh =
      let all =
        add_all-insert now (cal.date_naive now_wall) (cal.year_month now_wall) settled id
          reservation (refresh cal l now_wall now).active (rw active-refresh fresh) in
      rw all (ground arith)

  pub reserve-cases :
      let (l', r) = reserve cal l id key e now_wall now in
      ((r ≡ ok tt)
        × (l' ≡ granted)
        × (over key.rpm_limit (saturating_add before.requests 1) ≡ false)
        × (over key.tpm_limit (saturating_add before.tokens e.tokens) ≡ false)
        × (over_budget key.daily_budget before.daily e.cost ≡ false)
        × (over_budget key.monthly_budget before.monthly e.cost ≡ false))
      ⊎ ((x : ProxyError) × (r ≡ err x) × (l' ≡ refresh cal l now_wall now) × (http_status x ≡ 429))
  unfolding reserve http_status
  reserve-cases = ground arith

  -- Under a fresh id, a reservation that is granted leaves the totals that `current` reports at that
  -- moment within every limit of the key that is set to a positive number: requests and tokens of
  -- the minute, and, if its cost is known, the daily and the monthly budget. They grow by exactly
  -- the request, the estimated tokens and the estimated cost.
  pub reserve_keeps_limits :
      lookup id l.active ≡ none
      → (reserve cal l id key e now_wall now).1 ≡ ok tt
      → let t = (current cal l now_wall now).1 in
        let t' = totals cal (reserve cal l id key e now_wall now).0 now_wall now in
        Within key.rpm_limit t'.requests
        × Within key.tpm_limit t'.tokens
        × WithinIfKnown e.cost key.daily_budget t'.daily
        × WithinIfKnown e.cost key.monthly_budget t'.monthly
        × (t'.requests ≡ saturating_add t.requests 1)
        × (t'.tokens ≡ saturating_add t.tokens e.tokens)
        × (t'.daily ≡ t.daily + unwrap_or e.cost 0)
        × (t'.monthly ≡ t.monthly + unwrap_or e.cost 0)
  unfolding current
  reserve_keeps_limits fresh done = elim reserve-cases [
    | inr (x, r, _, _) ↦ absurd (ground (arith, r, done))
    | inl (_, led, rpm, tpm, day, month) ↦
        let g = totals-granted fresh in
        rw led (
          Within-over key.rpm_limit _ (rw g.0 rpm),
          Within-over key.tpm_limit _ (rw g.1 tpm),
          rw g.2 (Within-over_budget key.daily_budget before.daily e.cost day),
          rw g.3 (Within-over_budget key.monthly_budget before.monthly e.cost month),
          g.0,
          g.1,
          g.2,
          g.3,
        )
  ]
