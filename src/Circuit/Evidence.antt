-- ===== src/Circuit/Evidence.antt =====
-- The evidence that a circuit keeps: how much, how old, and why one account alone never opens it.
use kinetix.Base.{
  ℕ, zero, suc, ◌-◌, ◌≤◌, ◌≡◌, refl, Bool, false, List, [], ◌∷◌, ◌++◌, map, String, ltb, length,
  length-drop_while, drop_while, All, seconds, arith,
}
use text.Mathlib.TextEquality.{eq_iff}
use kinetix.Circuit.{
  Circuit, Attempt, FailureEvidence, closed, distinct_accounts, check_available,
  begin_attempt_with_policy, purge_old, count_distinct,
}
use kinetix.Circuit.Attempts.{
  mark_validated_success, finish_success, finish_failure, finish_neutral, drop_attempt, trim_front,
  record_evidence, is_correlated,
}
use kinetix.Circuit.System.{
  Op, marks, succeeds, neutral, drops, fails, System, Event, checks, begins, calls, run_op, call,
  step, run, fresh,
}

pub length-trim_front : (fs : List FailureEvidence) → length (trim_front fs) ≤ 128
unfolding trim_front
length-trim_front [] = omega arith
length-trim_front (f ∷ fs) = ground (arith, length-trim_front fs)

pub length-purge_old :
    (c : Circuit) (now : ℕ) → length (purge_old c now).failures ≤ length c.failures
unfolding purge_old
length-purge_old c now = length-drop_while (λ f. ltb f.at (now - seconds 30)) c.failures

-- All the evidence is of one account.
abbrev pub OfAccount : String → List FailureEvidence → Type 0
OfAccount x = All (λ f. f.account_id ≡ x)

OfAccount-drop_while :
    (x : String) (p : FailureEvidence → Bool) (fs : List FailureEvidence)
    → OfAccount x fs
    → OfAccount x (drop_while p fs)
OfAccount-drop_while x p [] h = tt
OfAccount-drop_while x p (f ∷ fs) h = ground (arith, OfAccount-drop_while x p fs h.1)

OfAccount-trim_front :
    (x : String) (fs : List FailureEvidence) → OfAccount x fs → OfAccount x (trim_front fs)
unfolding trim_front
OfAccount-trim_front x [] h = tt
OfAccount-trim_front x (f ∷ fs) h = ground (arith, OfAccount-trim_front x fs h.1)

count_distinct_one :
    (x : String) (fs : List FailureEvidence)
    → OfAccount x fs
    → count_distinct (map (λ f. f.account_id) fs) ≤ 1
unfolding count_distinct
count_distinct_one x [] h = omega arith
count_distinct_one x (f ∷ []) h = omega arith
count_distinct_one x (f ∷ g ∷ fs) h =
    ground (arith, eq_iff f.account_id g.account_id, count_distinct_one x (g ∷ fs) h.1, h.0, h.1.0)

OfAccount-append :
    (x : String) (fs : List FailureEvidence) (f : FailureEvidence)
    → OfAccount x fs
    → f.account_id ≡ x
    → OfAccount x (fs ++ f ∷ [])
OfAccount-append x [] f h e = (e, tt)
OfAccount-append x (g ∷ fs) f h e = (h.0, OfAccount-append x fs f h.1 e)

-- A circuit that has seen one account alone, and an attempt of that account.
pub record OneAccount (x : String) (c : Circuit) : Type 0 where
  pub shut : c.state ≡ closed
  pub evidence : OfAccount x c.failures

pub record AttemptOf (x : String) (a : Attempt) : Type 0 where
  pub account : a.account_id ≡ x
  pub policy : a.correlation_policy ≡ distinct_accounts
  pub plain : a.half_open_probe ≡ false

record_evidence-OneAccount :
    (x : String) (a : Attempt) (c : Circuit) (now : ℕ)
    → AttemptOf x a
    → OneAccount x c
    → OneAccount x (record_evidence a c now)
unfolding record_evidence
record_evidence-OneAccount x a c now k o = record {
  shut = o.shut;
  evidence =
      OfAccount-trim_front x _
        (OfAccount-append x _ _ (OfAccount-drop_while x _ c.failures o.evidence) k.account);
}

not_correlated :
    (x : String) (fs : List FailureEvidence)
    → OfAccount x fs
    → is_correlated distinct_accounts fs ≡ false
unfolding is_correlated
not_correlated x fs h = ground (arith, count_distinct_one x fs h)

run_op-OneAccount :
    (x : String) (op : Op) (a : Attempt) (c : Circuit) (now : ℕ)
    → AttemptOf x a
    → OneAccount x c
    → let (a', c') = run_op op a c now in AttemptOf x a' × OneAccount x c'
unfolding run_op mark_validated_success finish_success finish_failure finish_neutral drop_attempt
run_op-OneAccount x marks a c now k o = ground (arith, k, o)
run_op-OneAccount x succeeds a c now k o = ground (arith, k, o)
run_op-OneAccount x neutral a c now k o = ground (arith, k, o)
run_op-OneAccount x drops a c now k o = ground (arith, k, o)
run_op-OneAccount x (fails kind status) a c now k o =
    let e = record_evidence-OneAccount x a c now k o in
    ground (arith, k, o, e, not_correlated x (record_evidence a c now).failures e.evidence)

call-OneAccount :
    (x : String) (i : ℕ) (op : Op) (c : Circuit) (now : ℕ) (l : List Attempt)
    → All (AttemptOf x) l
    → OneAccount x c
    → let (c', l') = call i op c now l in All (AttemptOf x) l' × OneAccount x c'
unfolding call
call-OneAccount x i op c now [] k o = (k, o)
call-OneAccount x zero op c now (a ∷ l) k o =
    let e = run_op-OneAccount x op a c now k.0 o in ((e.0, k.1), e.1)
call-OneAccount x (suc i) op c now (a ∷ l) k o =
    let e = call-OneAccount x i op c now l k.1 o in ((k.0, e.0), e.1)

-- The event admits attempts of account `x` only, under the policy for credentials.
abbrev pub From : String → Event → Type 0
From x checks = Unit
From x (begins y target policy) = (y ≡ x) × (policy ≡ distinct_accounts)
From x (calls i op) = Unit

purge_old-OneAccount :
    (x : String) (c : Circuit) (now : ℕ) → OneAccount x c → OneAccount x (purge_old c now)
unfolding purge_old
purge_old-OneAccount x c now o = record {
  shut = o.shut;
  evidence = OfAccount-drop_while x _ c.failures o.evidence;
}

step-OneAccount :
    (x p : String) (s : System) (now : ℕ) (e : Event)
    → From x e
    → All (AttemptOf x) s.attempts
    → OneAccount x s.circuit
    → let t = step s p now e in All (AttemptOf x) t.attempts × OneAccount x t.circuit
unfolding step check_available begin_attempt_with_policy
step-OneAccount x p s now checks f k o =
    ground (arith, k, o, purge_old-OneAccount x s.circuit now o)
step-OneAccount x p s now (begins y target policy) f k o =
    ground (arith, f, k, o, purge_old-OneAccount x s.circuit now o)
step-OneAccount x p s now (calls i op) f k o = call-OneAccount x i op s.circuit now s.attempts k o

run-OneAccount :
    (x p : String) (s : System) (es : List (ℕ × Event))
    → All (λ e. From x e.1) es
    → All (AttemptOf x) s.attempts
    → OneAccount x s.circuit
    → OneAccount x (run s p es).circuit
unfolding run
run-OneAccount x p s [] f k o = o
run-OneAccount x p s ((now, e) ∷ es) f k o =
    let n = step-OneAccount x p s now e f.0 k o in
    run-OneAccount x p (step s p now e) es f.1 n.0 n.1

-- One account cannot open the provider's circuit: after any history of a new circuit in which only
-- the account `x` is admitted, under the policy for credentials, the circuit is closed.
pub one_account_stays_closed :
    (x p : String) (es : List (ℕ × Event))
    → All (λ e. From x e.1) es
    → (run fresh p es).circuit.state ≡ closed
one_account_stays_closed x p es f =
    (run-OneAccount x p fresh es f tt (record { shut = refl; evidence = tt })).shut
