-- ===== src/Circuit/Correlation.antt =====
-- Two accounts that fail within the correlation window open the circuit; the evidence is bounded.
use kinetix.Base.{
  ℕ, zero, suc, ◌+◌, ◌-◌, ◌≤◌, ◌≡◌, ◌≢◌, refl, sym, inl, inr, Bool-cases, Bool, true, false, Option,
  some, List, [], ◌∷◌, ◌++◌, map, String, ltb, leb, length, drop_while, seconds, saturating_add,
  arith,
}
use text.Mathlib.TextEquality.{eq_iff}
use mathlib.Core.List.{append_assoc}
use kinetix.Types.{FailureKind}
use kinetix.Circuit.{
  Circuit, Attempt, FailureEvidence, closed, circuit_open, distinct_accounts,
  begin_attempt_with_policy, check_available, purge_old, count_distinct,
}
use kinetix.Circuit.Attempts.{
  mark_validated_success, finish_success, finish_failure, finish_neutral, drop_attempt, trim_front,
  record_evidence, is_correlated, qualifies,
}
use kinetix.Circuit.System.{
  Op, marks, succeeds, neutral, drops, fails, System, Event, checks, begins, calls, run_op, call,
  step, run, fresh,
}
use kinetix.Circuit.Evidence.{length-trim_front, length-purge_old}
use kinetix.Circuit.Policy.{finish_failure-opened}

-- A suffix that the test keeps, and that is short, survives the purge and the trim.
drop_while_last :
    (p : FailureEvidence → Bool) (fs : List FailureEvidence) (f : FailureEvidence)
    → p f ≡ false
    → (gs : List FailureEvidence) × (drop_while p (fs ++ f ∷ []) ≡ gs ++ f ∷ [])
drop_while_last p [] f h = ([], rw h)
drop_while_last p (g ∷ fs) f h = elim (Bool-cases (p g)) [
  | inl e ↦ rw e (drop_while_last p fs f h)
  | inr e ↦ (g ∷ fs, rw e)
]

trim_front_last :
    (fs : List FailureEvidence) (f g : FailureEvidence)
    → (gs : List FailureEvidence) × (trim_front (fs ++ f ∷ g ∷ []) ≡ gs ++ f ∷ g ∷ [])
unfolding trim_front
trim_front_last [] f g = ([], refl)
trim_front_last (x ∷ fs) f g = elim (Bool-cases (leb (length (x ∷ fs ++ f ∷ g ∷ [])) 128)) [
  | inl e ↦ (x ∷ fs, rw e)
  | inr e ↦ rw e (trim_front_last fs f g)
]

count_distinct_two :
    (fs : List FailureEvidence) (f g : FailureEvidence)
    → f.account_id ≢ g.account_id
    → 2 ≤ count_distinct (map (λ (x : FailureEvidence). x.account_id) (fs ++ f ∷ g ∷ []))
unfolding count_distinct
count_distinct_two [] f g h = ground (arith, eq_iff f.account_id g.account_id)
count_distinct_two (x ∷ fs) f g h = ground (arith, count_distinct_two fs f g h)

abbrev pub evidence_of : Attempt → ℕ → FailureEvidence
evidence_of a now = record { at = now; account_id = a.account_id; target_id = a.target_id }

record_evidence_last :
    (a : Attempt) (c : Circuit) (now : ℕ) (fs : List FailureEvidence) (f : FailureEvidence)
    → c.failures ≡ fs ++ f ∷ []
    → now ≤ f.at + seconds 30
    → (gs : List FailureEvidence) × ((record_evidence a c now).failures
        ≡ gs ++ f ∷ evidence_of a now ∷ [])
unfolding record_evidence purge_old
record_evidence_last a c now fs f e h =
    let (ks, p) = drop_while_last (λ f. ltb f.at (now - seconds 30)) fs f (ground arith) in
    let (gs, q) = trim_front_last ks f (evidence_of a now) in
    (gs, rw (e, p) (rw (append_assoc ks (f ∷ []) (evidence_of a now ∷ [])) q))

-- A provider-wide failure of an admitted attempt opens a closed circuit whose latest failure, of
-- another account, is at most 30 seconds old.
pub two_accounts_open :
    (a : Attempt) (c : Circuit) (kind : FailureKind) (status : Option ℕ) (now : ℕ)
    (fs : List FailureEvidence) (f : FailureEvidence)
    → c.state ≡ closed
    → c.failures ≡ fs ++ f ∷ []
    → now ≤ f.at + seconds 30
    → a.account_id ≢ f.account_id
    → a.generation ≡ c.generation
    → a.finished ≡ false
    → a.half_open_probe ≡ false
    → a.correlation_policy ≡ distinct_accounts
    → qualifies kind status ≡ true
    → let (a', c', t) = finish_failure a c kind status now in
      (t.opened ≡ true) × (c'.state ≡ circuit_open) × (c'.retry_at ≡ some (now + seconds 30))
unfolding is_correlated
two_accounts_open a c kind status now fs f st e recent other gen unfinished plain pol q =
    let (gs, ev) = record_evidence_last a c now fs f e recent in
    let two = count_distinct_two gs f (evidence_of a now) (λ k. other (sym k)) in
    let opens = finish_failure-opened a c kind status now in ground (arith, opens, ev, two)

bounded-run_op :
    (op : Op) (a : Attempt) (c : Circuit) (now : ℕ)
    → length c.failures ≤ 128
    → length (run_op op a c now).1.failures ≤ 128
unfolding run_op mark_validated_success finish_success finish_failure finish_neutral drop_attempt
    record_evidence
bounded-run_op marks a c now h = ground arith
bounded-run_op succeeds a c now h = ground arith
bounded-run_op neutral a c now h = ground arith
bounded-run_op drops a c now h = ground arith
bounded-run_op (fails kind status) a c now h =
    ground (arith, length-trim_front ((purge_old c now).failures ++ evidence_of a now ∷ []))

bounded-call :
    (i : ℕ) (op : Op) (c : Circuit) (now : ℕ) (l : List Attempt)
    → length c.failures ≤ 128
    → length (call i op c now l).0.failures ≤ 128
unfolding call
bounded-call i op c now [] h = h
bounded-call zero op c now (a ∷ l) h = bounded-run_op op a c now h
bounded-call (suc i) op c now (a ∷ l) h = bounded-call i op c now l h

bounded-step :
    (p : String) (s : System) (now : ℕ) (e : Event)
    → length s.circuit.failures ≤ 128
    → length (step s p now e).circuit.failures ≤ 128
unfolding step check_available begin_attempt_with_policy
bounded-step p s now checks h = ground (
  arith,
  length-purge_old s.circuit now,
  length-purge_old
      (record (purge_old s.circuit now) {
        rejects = saturating_add (purge_old s.circuit now).rejects 1;
      })
      now,
)
bounded-step p s now (begins y target policy) h = ground (
  arith,
  length-purge_old s.circuit now,
  length-purge_old
      (record (purge_old s.circuit now) {
        rejects = saturating_add (purge_old s.circuit now).rejects 1;
      })
      now,
)
bounded-step p s now (calls i op) h = bounded-call i op s.circuit now s.attempts h

bounded-run :
    (p : String) (s : System) (es : List (ℕ × Event))
    → length s.circuit.failures ≤ 128
    → length (run s p es).circuit.failures ≤ 128
unfolding run
bounded-run p s [] h = h
bounded-run p s ((now, e) ∷ es) h = bounded-run p (step s p now e) es (bounded-step p s now e h)

-- A circuit never keeps more than 128 failures, whatever its history.
pub evidence_bounded :
    (p : String) (es : List (ℕ × Event)) → length (run fresh p es).circuit.failures ≤ 128
evidence_bounded p es = bounded-run p fresh es (omega arith)
