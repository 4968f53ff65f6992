-- ===== src/Circuit/Tests.antt =====
-- A circuit that two accounts open, a probe, and the theorems at these inputs.
use text.Mathlib.TextEquality.{eq_iff}
use kinetix.Base.{
  ℕ, ◌≤◌, ◌≡◌, refl, true, false, none, some, List, [], ◌∷◌, ◌++◌, seconds, saturating_add,
  wrapping_add, arith,
}
use kinetix.Types.{server_error, connection_error, timeout}
use kinetix.Circuit.{
  Circuit, Attempt, FailureEvidence, closed, circuit_open, distinct_accounts, default_circuit,
  begin_attempt_with_policy, admit,
}
use kinetix.Circuit.Attempts.{record_evidence, is_correlated, finish_failure, qualifies}
use kinetix.Circuit.System.{fails, Event, begins, calls, run_op, call, step, run, fresh}
use kinetix.Circuit.Runs.{live_probes, probe_exclusive}
use kinetix.Circuit.Evidence.{one_account_stays_closed}
use kinetix.Circuit.Correlation.{two_accounts_open}

-- Accounts "a" and "b" fail within a second; 31 seconds later "c" is let through as a probe.
abbrev outage : List (ℕ × Event)
outage =
    (seconds 100, begins "a" "m" distinct_accounts)
    ∷ (seconds 100, calls 0 (fails server_error (some 503)))
    ∷ (seconds 101, begins "b" "m" distinct_accounts)
    ∷ (seconds 101, calls 0 (fails connection_error none))
    ∷ []

abbrev probing : List (ℕ × Event)
probing = outage ++ (seconds 132, begins "c" "m" distinct_accounts) ∷ []

outage_opens : (run fresh "p" outage).circuit.state ≡ circuit_open
unfolding run step call begin_attempt_with_policy run_op finish_failure record_evidence qualifies
    is_correlated saturating_add wrapping_add
outage_opens = refl

probing_live : live_probes (run fresh "p" probing) ≡ 1
unfolding run step call begin_attempt_with_policy run_op finish_failure record_evidence qualifies
    is_correlated saturating_add wrapping_add
probing_live = refl

probe_exclusive_example : live_probes (run fresh "p" probing) ≤ 1
probe_exclusive_example = (probe_exclusive "p" probing (omega arith)).0

abbrev first_failure : FailureEvidence
first_failure = record { at = seconds 100; account_id = "a"; target_id = "m" }

abbrev failing : Circuit
failing = record default_circuit { failures = first_failure ∷ [] }

abbrev second_attempt : Attempt
second_attempt = admit failing "b" "m" distinct_accounts false

two_accounts_open_example :
    (finish_failure second_attempt failing server_error (some 502) (seconds 101)).2.opened ≡ true
unfolding qualifies
two_accounts_open_example =
    (two_accounts_open second_attempt failing server_error (some 502) (seconds 101) [] first_failure
      refl refl (omega arith) (ground (arith, eq_iff "b" "a")) refl refl refl refl refl).0

abbrev reopened : Circuit
reopened = record failing { state = circuit_open; generation = 1; retry_at = some (seconds 131) }

abbrev one_account : List (ℕ × Event)
one_account =
    (seconds 100, begins "a" "m" distinct_accounts)
    ∷ (seconds 100, calls 0 (fails server_error (some 503)))
    ∷ (seconds 101, begins "a" "n" distinct_accounts)
    ∷ (seconds 101, calls 0 (fails timeout none))
    ∷ []

one_account_stays_closed_example : (run fresh "p" one_account).circuit.state ≡ closed
one_account_stays_closed_example =
    one_account_stays_closed "a" "p" one_account ((refl, refl), (tt, ((refl, refl), (tt, tt))))
