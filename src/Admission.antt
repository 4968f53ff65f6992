-- ===== src/Admission.antt =====
-- src/admission.rs, `KeyLedger`: the requests, tokens and money that one key has used and reserved.
-- The ledger is reached under its lock, so each method is one step, with both clocks as arguments.
-- Money is counted in whole multiples of a unit small enough for every amount: rounding of `f64`
-- sums is not modelled.
pub mod Limits
mod Sums
pub mod Settlement
pub mod Order
pub mod Controller
pub mod Burst
pub mod Estimate
pub mod Cover
mod Tests
use kinetix.Base.{
  ℕ, ◌+◌, ◌-◌, ◌≤◌, min, Bool, true, false, ◌&&◌, Option, none, some, List, [], ◌∷◌, ◌++◌, ltb, leb,
  ◌==◌, if◌then◌else◌, is_some_and, unwrap_or, or_option, length, drop_while, seconds,
  saturating_add, wrapping_add, ℤ, pos_part, positive, String, Result, ok, err,
}
use kinetix.Types.{ProxyError, budget_exceeded, new, rate_limited_error}

-- chrono's calendar: the UTC date of a time as a day number, and its year and month.
pub record Calendar : Type 0 where
  pub date_naive : ℕ → ℕ
  pub year_month : ℕ → ℕ × ℕ

pub record MinuteUse : Type 0 where
  pub at : ℕ
  pub tokens : ℕ

pub record ActiveReservation : Type 0 where
  pub at : ℕ
  pub tokens : ℕ
  pub cost : Option ℕ
  pub day : ℕ
  pub month : ℕ × ℕ

-- `active` is the `HashMap` by reservation id.
pub record KeyLedger : Type 0 where
  pub minute : List MinuteUse
  pub active : List (ℕ × ActiveReservation)
  pub daily_day : Option ℕ
  pub daily_spend : ℕ
  pub monthly_key : Option (ℕ × ℕ)
  pub monthly_spend : ℕ

abbrev pub empty_ledger : KeyLedger
empty_ledger = record {
  minute = [];
  active = [];
  daily_day = none;
  daily_spend = 0;
  monthly_key = none;
  monthly_spend = 0;
}

pub record AdmissionEstimate : Type 0 where
  pub tokens : ℕ
  pub cost : Option ℕ

-- The columns of `VirtualKeyRow` that limit a key.
pub record KeyLimits : Type 0 where
  pub rpm_limit : Option ℤ
  pub tpm_limit : Option ℤ
  pub daily_budget : Option ℤ
  pub monthly_budget : Option ℤ

pub record Totals : Type 0 where
  pub requests : ℕ
  pub tokens : ℕ
  pub daily : ℕ
  pub monthly : ℕ

abbrev pub minute_window : ℕ
minute_window = seconds 60

abbrev pub same_month : ℕ × ℕ → ℕ × ℕ → Bool
same_month a b = a.0 == b.0 && a.1 == b.1

abbrev pub is_day : Option ℕ → ℕ → Bool
is_day d day = is_some_and d (λ x. x == day)

abbrev pub is_month : Option (ℕ × ℕ) → ℕ × ℕ → Bool
is_month m month = is_some_and m (λ x. same_month x month)

unfoldable pub prune : KeyLedger → ℕ → KeyLedger
prune l now = record l { minute = drop_while (λ e. leb minute_window (now - e.at)) l.minute }

-- `self.minute.iter().map(|entry| entry.tokens).sum()`: sums modulo 2^64 do not depend on the side.
unfoldable pub sum_tokens : List MinuteUse → ℕ
sum_tokens [] = 0
sum_tokens (e ∷ es) = wrapping_add e.tokens (sum_tokens es)

-- One round of the loop over `self.active.values()`.
unfoldable pub add_active : ℕ → ℕ → ℕ × ℕ → Totals → ActiveReservation → Totals
add_active now day month t a = record {
  requests = if in_window then saturating_add t.requests 1 else t.requests;
  tokens = if in_window then saturating_add t.tokens a.tokens else t.tokens;
  daily = if a.day == day then t.daily + unwrap_or a.cost 0 else t.daily;
  monthly = if same_month a.month month then t.monthly + unwrap_or a.cost 0 else t.monthly;
}
  where
    in_window : Bool
    in_window = ltb (now - a.at) minute_window

unfoldable pub add_all : ℕ → ℕ → ℕ × ℕ → Totals → List (ℕ × ActiveReservation) → Totals
add_all now day month t [] = t
add_all now day month t ((id, a) ∷ l) = add_all now day month (add_active now day month t a) l

-- `HashMap::insert` and `HashMap::remove`
unfoldable pub insert :
    ℕ → ActiveReservation → List (ℕ × ActiveReservation) → List (ℕ × ActiveReservation)
insert id a [] = (id, a) ∷ []
insert id a ((j, b) ∷ l) = if j == id then (id, a) ∷ l else (j, b) ∷ insert id a l

unfoldable pub remove : ℕ → List (ℕ × ActiveReservation) → List (ℕ × ActiveReservation)
remove id [] = []
remove id ((j, b) ∷ l) = if j == id then l else (j, b) ∷ remove id l

unfoldable pub lookup : ℕ → List (ℕ × ActiveReservation) → Option ActiveReservation
lookup id [] = none
lookup id ((j, b) ∷ l) = if j == id then some b else lookup id l

unfoldable pub cancel : KeyLedger → ℕ → KeyLedger
unfolding remove
cancel l id = record l { active = remove id l.active }

abbrev pub over : Option ℤ → ℕ → Bool
over limit amount = is_some_and (positive limit) (λ m. ltb m amount)

abbrev pub reached : Option ℤ → ℕ → Bool
reached limit amount = is_some_and (positive limit) (λ m. leb m amount)

abbrev pub over_budget : Option ℤ → ℕ → Option ℕ → Bool
over_budget limit spent cost = is_some_and cost (λ c. over limit (spent + c))

abbrev pub settle : KeyLedger → ActiveReservation → Option ℕ → Option ℕ → ℕ → KeyLedger
settle l a actual_tokens actual_cost now = record l {
  minute =
      if ltb (now - a.at) minute_window
      then l.minute ++ record { at = a.at; tokens = unwrap_or actual_tokens a.tokens } ∷ []
      else l.minute;
  daily_spend =
      if is_day l.daily_day a.day
      then l.daily_spend + unwrap_or (or_option actual_cost a.cost) 0
      else l.daily_spend;
  monthly_spend =
      if is_month l.monthly_key a.month
      then l.monthly_spend + unwrap_or (or_option actual_cost a.cost) 0
      else l.monthly_spend;
}

module _ (cal : Calendar) where
  unfoldable pub roll_periods : KeyLedger → ℕ → KeyLedger
  roll_periods l now = record l {
    daily_day = some day;
    daily_spend = if is_day l.daily_day day then l.daily_spend else 0;
    monthly_key = some month;
    monthly_spend = if is_month l.monthly_key month then l.monthly_spend else 0;
  }
    where
      day : ℕ
      day = cal.date_naive now

      month : ℕ × ℕ
      month = cal.year_month now

  -- Both periods rolled to the wall clock, and the minute window pruned.
  unfoldable pub refresh : KeyLedger → ℕ → ℕ → KeyLedger
  unfolding roll_periods prune
  refresh l now_wall now = prune (roll_periods l now_wall) now

  unfoldable pub totals : KeyLedger → ℕ → ℕ → Totals
  unfolding add_all sum_tokens
  totals l now_wall now =
      add_all now (cal.date_naive now_wall) (cal.year_month now_wall)
        (record {
          requests = length l.minute;
          tokens = sum_tokens l.minute;
          daily = l.daily_spend;
          monthly = l.monthly_spend;
        })
        l.active

  -- `KeyLedger::current`
  unfoldable pub current : KeyLedger → ℕ → ℕ → KeyLedger × Totals
  current l now_wall now = let l' = refresh l now_wall now in (l', totals l' now_wall now)

  unfoldable pub check_current :
      KeyLedger → KeyLimits → ℕ → ℕ → KeyLedger × Result ProxyError (Unit {0})
  unfolding current
  check_current l key now_wall now =
      let (l', t) = current l now_wall now in
      (
        l',
        if reached key.rpm_limit t.requests
            then err (rate_limited_error (some 60))
            else if reached key.tpm_limit t.tokens
            then err (rate_limited_error (some 60))
            else if reached key.daily_budget t.daily
            then err (new budget_exceeded)
            else if reached key.monthly_budget t.monthly
            then err (new budget_exceeded)
            else ok tt,
      )

  unfoldable pub reserve :
      KeyLedger
      → ℕ
      → KeyLimits
      → AdmissionEstimate
      → ℕ
      → ℕ
      → KeyLedger × Result ProxyError (Unit {0})
  unfolding current insert
  reserve l id key estimate now_wall now =
      let (l', t) = current l now_wall now in
      if over key.rpm_limit (saturating_add t.requests 1)
      then (l', err (rate_limited_error (some 60)))
      else if over key.tpm_limit (saturating_add t.tokens estimate.tokens)
      then (l', err (rate_limited_error (some 60)))
      else if over_budget key.daily_budget t.daily estimate.cost
      then (l', err (new budget_exceeded))
      else if over_budget key.monthly_budget t.monthly estimate.cost
      then (l', err (new budget_exceeded))
      else (
        record l' {
          active =
              insert id
                (record {
                  at = now;
                  tokens = estimate.tokens;
                  cost = estimate.cost;
                  day = cal.date_naive now_wall;
                  month = cal.year_month now_wall;
                })
                l'.active;
        },
        ok tt,
      )

  unfoldable pub reconcile : KeyLedger → ℕ → Option ℕ → Option ℕ → ℕ → ℕ → KeyLedger
  unfolding refresh remove lookup
  reconcile l id actual_tokens actual_cost now_wall now =
      let l' = refresh l now_wall now in
      elim (lookup id l'.active) [
        | none ↦ l'
        | some a ↦
            settle (record l' { active = remove id l'.active }) a actual_tokens actual_cost now
      ]
