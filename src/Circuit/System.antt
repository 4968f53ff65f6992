-- ===== src/Circuit/System.antt =====
-- Histories of one circuit: the attempts that it has admitted, and calls on them in any order,
-- concurrent requests make them. Each call holds the lock, so a history is a list of calls.
use kinetix.Base.{ℕ, zero, suc, Option, List, [], ◌∷◌, String, Result, ok, err}
use kinetix.Types.{FailureKind}
use kinetix.Circuit.{
  Circuit, Attempt, CorrelationPolicy, Reject, default_circuit, check_available,
  begin_attempt_with_policy,
}
use kinetix.Circuit.Attempts.{
  mark_validated_success, finish_success, finish_failure, finish_neutral, drop_attempt,
}

-- What the holder of an attempt may do with it.
pub data Op : Type 0 where
  marks succeeds neutral drops : Op
  fails : FailureKind → Option ℕ → Op

-- Newest attempt first.
pub record System : Type 0 where
  pub circuit : Circuit
  pub attempts : List Attempt

pub data Event : Type 0 where
  checks : Event
  begins : String → String → CorrelationPolicy → Event
  calls : ℕ → Op → Event

unfoldable pub run_op : Op → Attempt → Circuit → ℕ → Attempt × Circuit
run_op marks a c now = let (a', c', _) = mark_validated_success a c now in (a', c')
run_op succeeds a c now = let (a', c', _) = finish_success a c now in (a', c')
run_op neutral a c now = let (a', c', _) = finish_neutral a c now in (a', c')
run_op drops a c now = drop_attempt a c now
run_op (fails kind status) a c now =
    let (a', c', _) = finish_failure a c kind status now in (a', c')

-- A call on the attempt at an index; no attempt there, no effect.
unfoldable pub call : ℕ → Op → Circuit → ℕ → List Attempt → Circuit × List Attempt
call i op c now [] = (c, [])
call zero op c now (a ∷ atts) = let (a', c') = run_op op a c now in (c', a' ∷ atts)
call (suc i) op c now (a ∷ atts) = let (c', atts') = call i op c now atts in (c', a ∷ atts')

abbrev pub hold : Circuit × Result Reject Attempt → List Attempt → System
hold (c, ok a) atts = record { circuit = c; attempts = a ∷ atts }
hold (c, err r) atts = record { circuit = c; attempts = atts }

unfoldable pub step : System → String → ℕ → Event → System
step s provider_id now checks = record s { circuit = (check_available s.circuit provider_id now).0 }
step s provider_id now (begins account_id target_id policy) =
    hold (begin_attempt_with_policy s.circuit provider_id account_id target_id policy now)
      s.attempts
step s provider_id now (calls i op) =
    let (c, atts) = call i op s.circuit now s.attempts in record { circuit = c; attempts = atts }

unfoldable pub run : System → String → List (ℕ × Event) → System
run s provider_id [] = s
run s provider_id ((now, e) ∷ es) = run (step s provider_id now e) provider_id es

abbrev pub fresh : System
fresh = record { circuit = default_circuit; attempts = [] }
