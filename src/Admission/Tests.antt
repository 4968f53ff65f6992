-- ===== src/Admission/Tests.antt =====
-- A key with two requests a minute, a request of 40 tokens, and the theorems at these inputs.
use kinetix.Base.{
  ℕ, ◌+◌, ◌≤◌, ◌<◌, ◌≡◌, refl, true, none, some, List, [], ◌∷◌, String, ok, err, length, arith,
  saturating_add, wrapping_add, u64_max, ℤ, pos, All, seconds, Option,
}
use kinetix.Types.{Prices, TokenUsage, rate_limited_error}
use kinetix.Registry.{ModelRow}
use kinetix.Admission.{
  Calendar, KeyLedger, KeyLimits, ActiveReservation, AdmissionEstimate, empty_ledger, insert,
  remove, lookup, prune, roll_periods, refresh, sum_tokens, add_active, add_all, totals, current,
  reserve, reconcile,
}
use kinetix.Admission.Limits.{reserve_keeps_limits}
use kinetix.Admission.Settlement.{HasIdOnce, reconcile_settles}
use kinetix.Admission.Controller.{
  AdmissionController, find_key, store_key, entry, reserve_initialized,
}
use kinetix.Admission.Burst.{burst, requests}
use kinetix.Admission.Estimate.{
  InternalRequest, text, image, conservative_cost, estimate_models, estimated_input_tokens,
}
use kinetix.Admission.Cover.{Covers, estimate-Covers}

-- The calendar of a test: one day.
abbrev cal : Calendar
cal = record { date_naive = λ t. 7; year_month = λ t. (2026, 1) }

abbrev key : KeyLimits
key = record {
  rpm_limit = some (pos 2);
  tpm_limit = some (pos 100);
  daily_budget = some (pos 50);
  monthly_budget = none;
}

abbrev estimate : AdmissionEstimate
estimate = record { tokens = 40; cost = some 20 }

abbrev now : ℕ
now = seconds 1000

abbrev first : KeyLedger
first = (reserve cal empty_ledger 1 key estimate now now).0

first_granted : (reserve cal empty_ledger 1 key estimate now now).1 ≡ ok tt
unfolding reserve refresh totals sum_tokens add_all saturating_add
first_granted = refl

second_granted : (reserve cal first 2 key estimate now now).1 ≡ ok tt
unfolding reserve refresh totals sum_tokens add_all add_active roll_periods prune saturating_add
second_granted = refl

third_refused :
    (reserve cal (reserve cal first 2 key estimate now now).0 3 key estimate now now).1
    ≡ err (rate_limited_error (some 60))
unfolding reserve refresh totals sum_tokens add_all add_active roll_periods prune saturating_add
third_refused = refl

second_fresh : lookup 2 first.active ≡ none
unfolding reserve refresh totals sum_tokens add_all lookup insert roll_periods saturating_add
second_fresh = refl

reserve_keeps_limits_example :
    let t = (current cal first now now).1 in
    let t' = totals cal (reserve cal first 2 key estimate now now).0 now now in
    (t'.requests ≤ 2)
    × (t'.tokens ≤ 100)
    × (t'.daily ≤ 50)
    × Unit {0}
    × (t'.requests ≡ saturating_add t.requests 1)
    × (t'.tokens ≡ saturating_add t.tokens 40)
    × (t'.daily ≡ t.daily + 20)
    × (t'.monthly ≡ t.monthly + 20)
reserve_keeps_limits_example =
    reserve_keeps_limits cal first 2 key estimate now now second_fresh second_granted

abbrev reservation : ActiveReservation
reservation = record { at = now; tokens = 40; cost = some 20; day = 7; month = (2026, 1) }

abbrev reserved : KeyLedger
reserved = record {
  minute = record { at = seconds 900; tokens = 5 } ∷ record { at = seconds 990; tokens = 10 } ∷ [];
  active = (1, reservation) ∷ (2, reservation) ∷ [];
  daily_day = some 6;
  daily_spend = 30;
  monthly_key = some (2026, 1);
  monthly_spend = 30;
}

abbrev swapped : List (ℕ × ActiveReservation)
swapped = (2, reservation) ∷ (1, reservation) ∷ []

ids_once : HasIdOnce 1 reserved.active
unfolding lookup
ids_once = ((λ e. refl), ((λ e. refl), tt))

found_1 : lookup 1 reserved.active ≡ some reservation
unfolding lookup
found_1 = refl

abbrev controller : AdmissionController
controller = record {
  keys = ("k", record { initialized = true; ledger = empty_ledger }) ∷ [];
  next_id = 0;
}

none_requested : requests cal now now (entry controller "k").ledger ≡ 0
unfolding totals refresh add_all find_key prune roll_periods
none_requested = refl

none_reserved : (entry controller "k").ledger.active ≡ []
unfolding find_key
none_reserved = refl

burst_admits : (burst cal now now controller "k" key (estimate ∷ estimate ∷ estimate ∷ [])).1 ≡ 2
unfolding burst reserve_initialized find_key store_key reserve refresh totals sum_tokens add_all
    add_active roll_periods prune saturating_add wrapping_add insert
burst_admits = refl

abbrev due : KeyLedger
due = refresh cal reserved now now

few : length due.minute < u64_max
unfolding refresh prune roll_periods
few = omega arith

fits : sum_tokens due.minute + 30 ≤ u64_max
unfolding refresh prune roll_periods sum_tokens wrapping_add
fits = omega arith

small : (totals cal due now now).tokens < u64_max
unfolding totals refresh prune roll_periods sum_tokens wrapping_add add_all add_active
    saturating_add
small = omega arith

small' : (totals cal (reconcile cal reserved 1 (some 30) none now now) now now).tokens < u64_max
unfolding totals reconcile refresh prune roll_periods sum_tokens wrapping_add add_all add_active
    saturating_add remove lookup
small' = omega arith

reconcile_settles_example :
    let t = totals cal due now now in
    let t' = totals cal (reconcile cal reserved 1 (some 30) none now now) now now in
    (t'.requests ≡ t.requests)
    × (t'.tokens + 40 ≡ t.tokens + 30)
    × (t'.daily + 20 ≡ t.daily + 20)
    × (t'.monthly + 20 ≡ t.monthly + 20)
reconcile_settles_example =
    reconcile_settles cal reserved 1 (some 30) none now now reservation found_1 few fits small
      small'

abbrev prices : Prices
prices = record {
  input_per_1m = some 3;
  output_per_1m = some 15;
  cached_per_1m = none;
  cache_write_per_1m = some 4;
  thinking_per_1m = none;
}

abbrev usage : TokenUsage
usage = record {
  input = some 100;
  output = some 20;
  cached = none;
  cache_write = some 90;
  thinking = none;
}

bound : conservative_cost prices 125 20 ≡ some 800
unfolding conservative_cost
bound = refl

abbrev request : InternalRequest
request = record {
  requested_model = "m";
  system = 11 ∷ [];
  messages = (text 20 ∷ image ∷ []) ∷ [];
  tools = [];
  max_tokens = some 1000;
}

abbrev model : String → Option ℤ → ModelRow
model id max_output_tokens = record {
  id = id;
  provider_id = "p";
  upstream_id = id;
  enabled = 1;
  max_output_tokens = max_output_tokens;
  prices = prices;
}

estimate-Covers_example :
    All
      (Covers request
        (estimated_input_tokens request)
        (estimate_models request (model "a" none ∷ model "b" (some (pos 500)) ∷ [])))
      (model "a" none ∷ model "b" (some (pos 500)) ∷ [])
estimate-Covers_example = estimate-Covers request (model "a" none ∷ model "b" (some (pos 500)) ∷ [])

-- A request of second 70 that is settled after one of second 100 stands behind it in the window, and
-- is still counted at second 131.
abbrev long_request : KeyLedger
long_request =
    let one = (reserve cal empty_ledger 1 key estimate now (seconds 70)).0 in
    let two = (reserve cal one 2 key estimate now (seconds 100)).0 in
    let settled = reconcile cal two 2 none none now (seconds 101) in
    reconcile cal settled 1 none none now (seconds 110)

long_request-counted : (current cal long_request now (seconds 131)).1.requests ≡ 2
unfolding current reserve reconcile refresh totals sum_tokens add_all add_active roll_periods prune
    insert remove lookup saturating_add wrapping_add
long_request-counted = refl
