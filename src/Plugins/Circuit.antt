-- ===== src/Plugins/Circuit.antt =====
-- src/plugins/store.rs and src/plugins/manager.rs: the circuit of one plugin, as its row of the
-- table `plugin_runtime_state`, if it has one (an update of a row that is not there does nothing).
-- Calls of the database succeed.
use kinetix.Base.{
  ℕ, ◌+◌, Bool, true, false, Option, none, some, String, leb, if◌then◌else◌, seconds, is_some_and,
}

pub data CircuitState : Type 0 where
  closed open_circuit half_open : CircuitState

pub record RuntimeStateRow : Type 0 where
  pub circuit : CircuitState
  pub consecutive_failures : ℕ
  pub circuit_open_until : Option ℕ
  pub last_error_code : Option String
  pub last_error_at : Option ℕ

abbrev pub circuit_fault_threshold : ℕ
circuit_fault_threshold = 5

abbrev pub circuit_open_secs : ℕ
circuit_open_secs = 60

unfoldable pub ready_in : CircuitState → Option ℕ → ℕ → Bool
ready_in closed until now = true
ready_in half_open until now = false
ready_in open_circuit until now = is_some_and until (λ u. leb u now)

unfoldable pub circuit_ready : Option RuntimeStateRow → ℕ → Bool
circuit_ready none now = true
circuit_ready (some r) now = ready_in r.circuit r.circuit_open_until now

unfoldable pub is_closed : CircuitState → Bool
is_closed closed = true
is_closed open_circuit = false
is_closed half_open = false

-- The `WHERE` of the update.
unfoldable pub probe_due : CircuitState → Option ℕ → ℕ → Bool
probe_due closed until now = false
probe_due half_open until now = false
probe_due open_circuit until now = is_some_and until (λ u. leb u now)

unfoldable pub claim_circuit_probe : Option RuntimeStateRow → ℕ → Option RuntimeStateRow × Bool
claim_circuit_probe none now = (none, true)
claim_circuit_probe (some r) now =
    if probe_due r.circuit r.circuit_open_until now
    then (some (record r { circuit = half_open; circuit_open_until = none }), true)
    else (some r, is_closed r.circuit)

unfoldable pub reopened : RuntimeStateRow → CircuitState → ℕ → RuntimeStateRow
reopened r half_open until = record r { circuit = open_circuit; circuit_open_until = some until }
reopened r closed until = r
reopened r open_circuit until = r

unfoldable pub reopen_plugin_circuit : RuntimeStateRow → ℕ → ℕ → RuntimeStateRow
reopen_plugin_circuit r open_secs now = reopened r r.circuit (now + seconds open_secs)

unfoldable pub record_plugin_failure : RuntimeStateRow → ℕ → ℕ → String → ℕ → RuntimeStateRow
record_plugin_failure r threshold open_secs code now =
    let n = r.consecutive_failures + 1 in
    let counted = record r {
      consecutive_failures = n;
      last_error_code = some code;
      last_error_at = some now;
    } in
    if leb threshold n
    then record counted {
      circuit = open_circuit;
      circuit_open_until = some (now + seconds open_secs);
    }
    else counted

unfoldable pub clear_plugin_failures : RuntimeStateRow → RuntimeStateRow
clear_plugin_failures r = record r {
  circuit = closed;
  consecutive_failures = 0;
  circuit_open_until = none;
}

-- How a call ends: `counts` is `counts_against_circuit` of its fault.
pub data Outcome : Type 0 where
  success : Outcome
  fault : Bool → String → Outcome
  cancelled : Outcome

unfoldable pub record_fault : RuntimeStateRow → Bool → String → ℕ → RuntimeStateRow
record_fault r counts code now =
    if counts
    then record_plugin_failure r circuit_fault_threshold circuit_open_secs code now
    else clear_plugin_failures r

-- `settle`, and `settle_cancellable` where the call can be cancelled.
unfoldable pub settle : RuntimeStateRow → Outcome → ℕ → RuntimeStateRow
settle r success now = clear_plugin_failures r
settle r (fault counts code) now = record_fault r counts code now
settle r cancelled now = reopen_plugin_circuit r circuit_open_secs now
