-- ===== src/Admission/Settlement.antt =====
-- How a reservation ends: cancelled, or reconciled with the usage that the provider reported.
use kinetix.Base.{
  ℕ, ◌+◌, ◌≤◌, ◌<◌, ◌≡◌, refl, ap, inl, inr, Option, none, some, List, [], ◌∷◌, unwrap_or,
  or_option, length, length-append, ok, arith, u64_max,
}
use kinetix.Admission.{
  Calendar, KeyLedger, KeyLimits, ActiveReservation, AdmissionEstimate, Totals, MinuteUse, insert,
  remove, lookup, sum_tokens, totals, refresh, reserve, reconcile, cancel, settle,
}
use kinetix.Admission.Sums.{
  sum_by-remove, request_of, tokens_of, daily_of, monthly_of, add_all-requests, add_all-tokens,
  add_all-daily, add_all-monthly, sum_tokens-append,
}
use kinetix.Admission.Limits.{reserve-cases}

remove-insert :
    (id : ℕ) (a : ActiveReservation) (l : List (ℕ × ActiveReservation))
    → lookup id l ≡ none
    → remove id (insert id a l) ≡ l
unfolding remove insert lookup
remove-insert id a [] h = ground arith
remove-insert id a ((j, b) ∷ l) h = ground (arith, remove-insert id a l)

-- A reservation that is granted and then cancelled leaves the ledger as if it had never been made:
-- as it was, with its periods rolled and its window pruned.
pub cancel-reserve :
    (cal : Calendar) (l : KeyLedger) (id : ℕ) (key : KeyLimits) (e : AdmissionEstimate)
    (now_wall now : ℕ)
    → lookup id l.active ≡ none
    → (reserve cal l id key e now_wall now).1 ≡ ok tt
    → cancel (reserve cal l id key e now_wall now).0 id ≡ refresh cal l now_wall now
unfolding cancel refresh
cancel-reserve cal l id key e now_wall now fresh done =
    elim (reserve-cases cal l id key e now_wall now) [
      | inr (x, r, _, _) ↦ absurd (ground (arith, r, done))
      | inl (_, led, _, _, _, _) ↦ rw led (
          ap
            (λ (z : List (ℕ × ActiveReservation)). record (refresh cal l now_wall now) {
              active = z;
            })
            (remove-insert id _ l.active fresh))
    ]

module _ (cal : Calendar) (l : KeyLedger) (id : ℕ) (actual_tokens actual_cost : Option ℕ)
    (now_wall now : ℕ) where
  abbrev ledger : KeyLedger
  ledger = refresh cal l now_wall now

  abbrev unsettled : Totals
  unsettled = totals cal ledger now_wall now

  abbrev done : Totals
  done = totals cal (reconcile cal l id actual_tokens actual_cost now_wall now) now_wall now

  ledger_fields :
      (ledger.active ≡ l.active)
      × (ledger.daily_day ≡ some (cal.date_naive now_wall))
      × (ledger.monthly_key ≡ some (cal.year_month now_wall))
  unfolding refresh
  ledger_fields = (refl, refl, refl)

  abbrev start : List MinuteUse → ℕ → ℕ → Totals
  start es day month = record {
    requests = length es;
    tokens = sum_tokens es;
    daily = day;
    monthly = month;
  }

  module _ (a : ActiveReservation) (found : lookup id l.active ≡ some a) where
    abbrev after : KeyLedger
    after = settle (record ledger { active = remove id l.active }) a actual_tokens actual_cost now

    reconcile_found : reconcile cal l id actual_tokens actual_cost now_wall now ≡ after
    unfolding reconcile
    reconcile_found = rw (found, reconcile)

    abbrev first : Totals
    first = start after.minute after.daily_spend after.monthly_spend

    abbrev plain : Totals
    plain = start ledger.minute ledger.daily_spend ledger.monthly_spend

    abbrev used : MinuteUse
    used = record { at = a.at; tokens = unwrap_or actual_tokens a.tokens }

    settles-requests :
        length ledger.minute < u64_max
        → (totals cal after now_wall now).requests ≡ unsettled.requests
    unfolding totals
    settles-requests few =
        let month = cal.year_month now_wall in
        let day = cal.date_naive now_wall in
        ground (
          arith,
          ledger_fields,
          add_all-requests now day month first (remove id l.active),
          add_all-requests now day month plain l.active,
          sum_by-remove (request_of now) id a l.active found,
          length-append ledger.minute (used ∷ []),
        )

    settles-tokens :
        sum_tokens ledger.minute + unwrap_or actual_tokens a.tokens ≤ u64_max
        → unsettled.tokens < u64_max
        → (totals cal after now_wall now).tokens < u64_max
        → (totals cal after now_wall now).tokens + tokens_of now a
          ≡ unsettled.tokens
            + tokens_of now (record a { tokens = unwrap_or actual_tokens a.tokens })
    unfolding totals
    settles-tokens fits small small' =
        let month = cal.year_month now_wall in
        let day = cal.date_naive now_wall in
        ground (
          arith,
          ledger_fields,
          add_all-tokens now day month first (remove id l.active),
          add_all-tokens now day month plain l.active,
          sum_by-remove (tokens_of now) id a l.active found,
          sum_tokens-append ledger.minute used,
        )

    settles-daily :
        let day = cal.date_naive now_wall in
        (totals cal after now_wall now).daily + daily_of day a
        ≡ unsettled.daily + daily_of day (record a { cost = or_option actual_cost a.cost })
    unfolding totals
    settles-daily =
        let month = cal.year_month now_wall in
        let day = cal.date_naive now_wall in
        ground (
          arith,
          ledger_fields,
          add_all-daily now day month first (remove id l.active),
          add_all-daily now day month plain l.active,
          sum_by-remove (daily_of day) id a l.active found,
        )

    settles-monthly :
        let month = cal.year_month now_wall in
        (totals cal after now_wall now).monthly + monthly_of month a
        ≡ unsettled.monthly + monthly_of month (record a { cost = or_option actual_cost a.cost })
    unfolding totals
    settles-monthly =
        let month = cal.year_month now_wall in
        let day = cal.date_naive now_wall in
        ground (
          arith,
          ledger_fields,
          add_all-monthly now day month first (remove id l.active),
          add_all-monthly now day month plain l.active,
          sum_by-remove (monthly_of month) id a l.active found,
        )

  -- Reconciling a reservation replaces its estimate by the usage that was reported, or keeps the
  -- estimate where none was: it still counts as one request of its minute, the tokens of the minute
  -- change by the difference of the two figures if it is in the minute, and so does the money of the
  -- current day and of the current month, if it was made in them. (The counts must fit 64 bits.)
  pub reconcile_settles :
      (a : ActiveReservation)
      → lookup id l.active ≡ some a
      → length ledger.minute < u64_max
      → sum_tokens ledger.minute + unwrap_or actual_tokens a.tokens ≤ u64_max
      → unsettled.tokens < u64_max
      → done.tokens < u64_max
      → let b = record a {
        tokens = unwrap_or actual_tokens a.tokens;
        cost = or_option actual_cost a.cost;
      } in
        (done.requests ≡ unsettled.requests)
        × (done.tokens + tokens_of now a ≡ unsettled.tokens + tokens_of now b)
        × (done.daily + daily_of (cal.date_naive now_wall) a
            ≡ unsettled.daily + daily_of (cal.date_naive now_wall) b)
        × (done.monthly + monthly_of (cal.year_month now_wall) a
            ≡ unsettled.monthly + monthly_of (cal.year_month now_wall) b)
  reconcile_settles a found few fits small small' = rw (reconcile_found a found) (
    settles-requests a found few,
    settles-tokens a found fits small (rw (reconcile_found a found) at small'),
    settles-daily a found,
    settles-monthly a found,
  )

-- No id stands twice, as in a `HashMap`.
abbrev pub HasIdOnce : ℕ → List (ℕ × ActiveReservation) → Type 0
HasIdOnce id [] = Unit
HasIdOnce id ((j, b) ∷ l) = (j ≡ id → lookup id l ≡ none) × HasIdOnce id l

lookup-remove :
    (id : ℕ) (l : List (ℕ × ActiveReservation)) → HasIdOnce id l → lookup id (remove id l) ≡ none
unfolding lookup remove
lookup-remove id [] h = refl
lookup-remove id ((j, b) ∷ l) h = ground (arith, h.0, lookup-remove id l h.1)

reconciled_gone :
    (cal : Calendar) (l : KeyLedger) (id : ℕ) (tokens cost : Option ℕ) (now_wall now : ℕ)
    → HasIdOnce id l.active
    → lookup id (reconcile cal l id tokens cost now_wall now).active ≡ none
unfolding reconcile refresh
reconciled_gone cal l id tokens cost now_wall now once =
    ground (arith, lookup-remove id l.active once)

absent-reconcile :
    (cal : Calendar) (l : KeyLedger) (id : ℕ) (tokens cost : Option ℕ) (now_wall now : ℕ)
    → lookup id l.active ≡ none
    → reconcile cal l id tokens cost now_wall now ≡ refresh cal l now_wall now
unfolding reconcile refresh
absent-reconcile cal l id tokens cost now_wall now gone = ground (arith, gone)

absent-remove : (id : ℕ) (l : List (ℕ × ActiveReservation)) → lookup id l ≡ none → remove id l ≡ l
unfolding lookup remove
absent-remove id [] h = refl
absent-remove id ((j, b) ∷ l) h = ground (arith, absent-remove id l)

-- A reservation is settled once: after it is reconciled its id is not reserved, a second
-- reconciliation counts nothing (it only rolls the periods and prunes the window), and a cancellation
-- changes nothing.
pub settle_once :
    (cal : Calendar) (l : KeyLedger) (id : ℕ) (tokens cost tokens' cost' : Option ℕ)
    (now_wall now later_wall later : ℕ)
    → HasIdOnce id l.active
    → let l' = reconcile cal l id tokens cost now_wall now in
      (lookup id l'.active ≡ none)
      × (reconcile cal l' id tokens' cost' later_wall later ≡ refresh cal l' later_wall later)
      × (cancel l' id ≡ l')
unfolding cancel
settle_once cal l id tokens cost tokens' cost' now_wall now later_wall later once =
    let gone = reconciled_gone cal l id tokens cost now_wall now once in
    (
      gone,
      absent-reconcile cal _ id tokens' cost' later_wall later gone,
      ap
          (λ (z : List (ℕ × ActiveReservation)).
            record (reconcile cal l id tokens cost now_wall now) { active = z })
          (absent-remove id _ gone),
    )
