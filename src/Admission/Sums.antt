-- ===== src/Admission/Sums.antt =====
-- What the loop of `KeyLedger::current` computes: saturated sums over the reservations.
use kinetix.Base.{
  ℕ, ◌+◌, ◌-◌, ◌%◌, ◌≤◌, ◌≡◌, min, Bool, some, List, [], ◌∷◌, ◌++◌, ltb, ◌==◌, if◌then◌else◌,
  unwrap_or, saturating_add, wrapping_add, arith, u64_max, u64_mod,
}
use kinetix.Admission.{
  ActiveReservation, Totals, MinuteUse, add_active, add_all, remove, lookup, sum_tokens,
  minute_window, same_month,
}

-- A quantity summed over the reservations.
pub sum_by : (ActiveReservation → ℕ) → List (ℕ × ActiveReservation) → ℕ
sum_by f [] = 0
sum_by f ((id, a) ∷ l) = f a + sum_by f l

pub sum_by-remove :
    (f : ActiveReservation → ℕ) (id : ℕ) (a : ActiveReservation) (l : List (ℕ × ActiveReservation))
    → lookup id l ≡ some a
    → sum_by f l ≡ f a + sum_by f (remove id l)
unfolding sum_by remove lookup
sum_by-remove f id a [] h = cc
sum_by-remove f id a ((j, b) ∷ l) h = ground (arith, sum_by-remove f id a l)

-- What a reservation counts for, at a moment and in a period.
abbrev pub in_window : ℕ → ActiveReservation → Bool
in_window now a = ltb (now - a.at) minute_window

abbrev pub request_of : ℕ → ActiveReservation → ℕ
request_of now a = if in_window now a then 1 else 0

abbrev pub tokens_of : ℕ → ActiveReservation → ℕ
tokens_of now a = if in_window now a then a.tokens else 0

abbrev pub daily_of : ℕ → ActiveReservation → ℕ
daily_of day a = if a.day == day then unwrap_or a.cost 0 else 0

abbrev pub monthly_of : ℕ × ℕ → ActiveReservation → ℕ
monthly_of month a = if same_month a.month month then unwrap_or a.cost 0 else 0

-- The loop over the reservations computes saturated sums, and plain sums of money.
module _ (now day : ℕ) (month : ℕ × ℕ) where
  pub add_all-requests :
      (t : Totals) (l : List (ℕ × ActiveReservation))
      → t.requests ≤ u64_max
      → (add_all now day month t l).requests ≡ min (t.requests + sum_by (request_of now) l) u64_max
  unfolding add_all add_active sum_by saturating_add
  add_all-requests t [] h = omega arith
  add_all-requests t ((id, a) ∷ l) h =
      ground (arith, add_all-requests (add_active now day month t a) l)

  pub add_all-tokens :
      (t : Totals) (l : List (ℕ × ActiveReservation))
      → t.tokens ≤ u64_max
      → (add_all now day month t l).tokens ≡ min (t.tokens + sum_by (tokens_of now) l) u64_max
  unfolding add_all add_active sum_by saturating_add
  add_all-tokens t [] h = omega arith
  add_all-tokens t ((id, a) ∷ l) h = ground (arith, add_all-tokens (add_active now day month t a) l)

  pub add_all-daily :
      (t : Totals) (l : List (ℕ × ActiveReservation))
      → (add_all now day month t l).daily ≡ t.daily + sum_by (daily_of day) l
  unfolding add_all add_active sum_by
  add_all-daily t [] = omega arith
  add_all-daily t ((id, a) ∷ l) = ground (arith, add_all-daily (add_active now day month t a) l)

  pub add_all-monthly :
      (t : Totals) (l : List (ℕ × ActiveReservation))
      → (add_all now day month t l).monthly ≡ t.monthly + sum_by (monthly_of month) l
  unfolding add_all add_active sum_by
  add_all-monthly t [] = omega arith
  add_all-monthly t ((id, a) ∷ l) = ground (arith, add_all-monthly (add_active now day month t a) l)

pub sum_tokens-append :
    (es : List MinuteUse) (e : MinuteUse)
    → sum_tokens (es ++ e ∷ []) ≡ (sum_tokens es + e.tokens) % u64_mod
unfolding sum_tokens wrapping_add
sum_tokens-append [] e = omega arith
sum_tokens-append (x ∷ es) e = omega (arith, sum_tokens-append es e)
