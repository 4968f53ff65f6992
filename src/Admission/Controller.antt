-- ===== src/Admission/Controller.antt =====
-- src/admission.rs, `AdmissionController`: the ledgers by key, the ids of the reservations, and the
-- first use of a key, which seeds its ledger from the usage table.
use kinetix.Base.{
  ℕ, ◌-◌, min, Bool, true, false, Option, none, some, List, [], ◌∷◌, ◌++◌, String, str_eq, leb,
  if◌then◌else◌, unwrap_or, and_then, saturating_add, wrapping_add, ℤ, pos_part, Result, ok, err,
}
use kinetix.Types.{ProxyError, TokenUsage}
use kinetix.Admission.{
  Calendar, KeyLedger, KeyLimits, AdmissionEstimate, MinuteUse, empty_ledger, roll_periods, prune,
  reserve, reconcile, cancel, check_current, minute_window,
}

pub record KeyAdmission : Type 0 where
  pub initialized : Bool
  pub ledger : KeyLedger

pub record AdmissionController : Type 0 where
  pub keys : List (String × KeyAdmission)
  pub next_id : ℕ

pub record AdmissionReservation : Type 0 where
  pub key_id : String
  pub id : ℕ
  pub settled : Bool

-- What the usage table answers: `none` is a failed query.
pub record Usage : Type 0 where
  pub minute : Option (List (String × ℤ))
  pub daily : Option ℤ
  pub monthly : Option ℤ

unfoldable pub find_key : List (String × KeyAdmission) → String → KeyAdmission
find_key [] id = record { initialized = false; ledger = empty_ledger }
find_key ((j, k) ∷ m) id = if str_eq j id then k else find_key m id

unfoldable pub store_key :
    List (String × KeyAdmission) → String → KeyAdmission → List (String × KeyAdmission)
store_key [] id k = (id, k) ∷ []
store_key ((j, k') ∷ m) id k = if str_eq j id then (j, k) ∷ m else (j, k') ∷ store_key m id k

-- `entry`
abbrev pub entry : AdmissionController → String → KeyAdmission
entry c id = find_key c.keys id

abbrev pub set_entry : AdmissionController → String → KeyAdmission → AdmissionController
set_entry c id k = record c { keys = store_key c.keys id k }

module _ (cal : Calendar) (parse_dt : String → Option ℕ) where
  -- A row of the last minute; its age is cut to the window, and an age that the monotonic clock
  -- cannot express counts from now.
  abbrev pub seed_row : ℕ → ℕ → List MinuteUse → Option ℕ → ℤ → List MinuteUse
  seed_row wall_now instant_now minute none tokens = minute
  seed_row wall_now instant_now minute (some at) tokens =
      let age = min (wall_now - at) minute_window in
      minute
      ++ record {
        at = if leb age instant_now then instant_now - age else instant_now;
        tokens = pos_part tokens;
      }
        ∷ []

  unfoldable pub seed_minute : ℕ → ℕ → List MinuteUse → List (String × ℤ) → List MinuteUse
  seed_minute wall_now instant_now minute [] = minute
  seed_minute wall_now instant_now minute ((ts, tokens) ∷ rows) =
      seed_minute wall_now instant_now (seed_row wall_now instant_now minute (parse_dt ts) tokens)
        rows

  unfoldable pub seed : KeyLedger → Usage → ℕ → ℕ → KeyLedger
  unfolding roll_periods prune seed_minute
  seed l u wall_now instant_now =
      let l' = roll_periods cal l wall_now in
      prune
        (record l' {
          minute = seed_minute wall_now instant_now l'.minute (unwrap_or u.minute []);
          daily_spend = elim u.daily [ none ↦ l'.daily_spend | some v ↦ pos_part v ];
          monthly_spend = elim u.monthly [ none ↦ l'.monthly_spend | some v ↦ pos_part v ];
        })
        instant_now

  unfoldable pub ensure_initialized : KeyAdmission → Usage → ℕ → ℕ → KeyAdmission
  unfolding seed
  ensure_initialized k u wall_now instant_now =
      if k.initialized
      then k
      else record { initialized = true; ledger = seed k.ledger u wall_now instant_now }

-- `(Some(input), Some(output)) => Some(input.saturating_add(output))`
abbrev pub usage_tokens : Option ℕ → Option ℕ → Option ℕ
usage_tokens (some input) (some output) = some (saturating_add input output)
usage_tokens _ _ = none

module _ (cal : Calendar) where
  -- `fetch_add(1).saturating_add(1)`, and the reservation under the key's lock. Both clocks are read
  -- again under that lock.
  unfoldable pub reserve_initialized :
      AdmissionController
      → String
      → KeyLimits
      → AdmissionEstimate
      → ℕ
      → ℕ
      → AdmissionController × Result ProxyError AdmissionReservation
  unfolding find_key store_key
  reserve_initialized c key_id key estimate now_wall now =
      let id = saturating_add c.next_id 1 in
      let k = entry c key_id in
      let (l, r) = reserve cal k.ledger id key estimate now_wall now in
      let c' = record c {
        next_id = wrapping_add c.next_id 1;
        keys = store_key c.keys key_id (record k { ledger = l });
      } in
      (
        c',
        elim r [ ok _ ↦ ok (record { key_id = key_id; id = id; settled = false }) | err e ↦ err e ],
      )

  -- `AdmissionReservation::reconcile`: a cost counts only with a complete token usage.
  unfoldable pub reconcile_reservation :
      AdmissionController
      → AdmissionReservation
      → TokenUsage
      → Option ℕ
      → ℕ
      → ℕ
      → AdmissionController × AdmissionReservation
  unfolding find_key store_key
  reconcile_reservation c r usage actual_cost now_wall now =
      let actual_tokens = usage_tokens usage.input usage.output in
      let cost = and_then actual_tokens (λ _. actual_cost) in
      let k = entry c r.key_id in
      let l = reconcile cal k.ledger r.id actual_tokens cost now_wall now in
      (set_entry c r.key_id (record k { ledger = l }), record r { settled = true })

module _ (cal : Calendar) (parse_dt : String → Option ℕ) where
  -- `reserve`, given the estimate: the key is initialized at the times `wall_0` and `now_0`.
  unfoldable pub reserve_key :
      AdmissionController
      → Usage
      → String
      → KeyLimits
      → AdmissionEstimate
      → ℕ
      → ℕ
      → ℕ
      → ℕ
      → AdmissionController × Result ProxyError AdmissionReservation
  unfolding ensure_initialized reserve_initialized
  reserve_key c u key_id key estimate wall_0 now_0 now_wall now =
      reserve_initialized cal
        (set_entry c key_id (ensure_initialized cal parse_dt (entry c key_id) u wall_0 now_0))
        key_id key estimate now_wall now

  unfoldable pub check_key :
      AdmissionController
      → Usage
      → String
      → KeyLimits
      → ℕ
      → ℕ
      → ℕ
      → ℕ
      → AdmissionController × Result ProxyError (Unit {0})
  unfolding ensure_initialized
  check_key c u key_id key wall_0 now_0 now_wall now =
      let k = ensure_initialized cal parse_dt (entry c key_id) u wall_0 now_0 in
      let (l, r) = check_current cal k.ledger key now_wall now in
      (set_entry c key_id (record k { ledger = l }), r)

-- `Drop for AdmissionReservation`
unfoldable pub drop_reservation : AdmissionController → AdmissionReservation → AdmissionController
unfolding find_key store_key
drop_reservation c r =
    if r.settled
    then c
    else (let k = entry c r.key_id in
        set_entry c r.key_id (record k { ledger = cancel k.ledger r.id }))
