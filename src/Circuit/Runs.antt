-- ===== src/Circuit/Runs.antt =====
-- The probe lease along whole histories that start from a new circuit.
use kinetix.Base.{
  ℕ, ◌+◌, ◌≤◌, ◌<◌, ◌≡◌, List, [], ◌∷◌, String, err, length, arith, u64_mod, saturating_add,
}
use kinetix.Circuit.{
  Circuit, half_open, CorrelationPolicy, begin_attempt_with_policy, begin_in, reject,
}
use kinetix.Circuit.System.{System, Event, checks, begins, calls, step, run, fresh}
use kinetix.Circuit.Slot.{lives, Inv, step-Inv, begin_keeps, check_keeps, call_generation}

generation-step :
    (s : System) (p : String) (now : ℕ) (e : Event)
    → s.circuit.generation + 1 < u64_mod
    → Inv s
    → (step s p now e).circuit.generation ≤ s.circuit.generation + 1
unfolding step
generation-step s p now checks small v = omega (arith, (check_keeps s.circuit p now).0)
generation-step s p now (begins x y policy) small v =
    ground (arith, begin_keeps s.circuit p x y policy now)
generation-step s p now (calls i op) small v = call_generation s now i op small v

run-Inv :
    (s : System) (p : String) (es : List (ℕ × Event))
    → s.circuit.generation + length es < u64_mod
    → Inv s
    → Inv (run s p es)
unfolding run
run-Inv s p [] small v = v
run-Inv s p ((now, e) ∷ es) small v =
    run-Inv (step s p now e) p es (omega (arith, generation-step s p now e (omega arith) v))
      (step-Inv s p now e (omega arith) v)

fresh-Inv : Inv fresh
fresh-Inv = ground arith

-- The invariant holds after any history of fewer than 2^64 calls.
pub run-fresh-Inv :
    (p : String) (es : List (ℕ × Event)) → length es < u64_mod → Inv (run fresh p es)
run-fresh-Inv p es h = run-Inv fresh p es (omega arith) fresh-Inv

abbrev pub live_probes : System → ℕ
live_probes s = lives s.circuit.generation s.attempts

-- After any history of fewer than 2^64 calls on a new circuit, at most one attempt is a live probe
-- (a half-open probe of the current generation, neither finished nor validated), and while there is
-- one the circuit is half-open with its lease taken.
pub probe_exclusive :
    (p : String) (es : List (ℕ × Event))
    → length es < u64_mod
    → let s = run fresh p es in
      (live_probes s ≤ 1)
      × (0 < live_probes s → (s.circuit.state ≡ half_open) × (s.circuit.half_open_inflight ≡ 1))
probe_exclusive p es h = ground (arith, run-fresh-Inv p es h)

begin_in_blocked :
    (c : Circuit) (p x y : String) (policy : CorrelationPolicy) (now : ℕ)
    → c.state ≡ half_open
    → c.half_open_inflight ≡ 1
    → begin_in c.state c p x y policy now ≡ ((reject c p now 1).0, err (reject c p now 1).1)
unfolding begin_in
begin_in_blocked c p x y policy now st fl = rw (st, fl)

-- While a live probe is out, every further attempt is refused with `Retry-After` 1, adds no attempt
-- and changes neither state, lease nor generation.
pub probe_blocks :
    (p x y : String) (policy : CorrelationPolicy) (now : ℕ) (es : List (ℕ × Event))
    → length es < u64_mod
    → 0 < live_probes (run fresh p es)
    → let s = run fresh p es in
      let t = step s p now (begins x y policy) in
      (t.attempts ≡ s.attempts)
      × (t.circuit.state ≡ half_open)
      × (t.circuit.half_open_inflight ≡ 1)
      × (t.circuit.generation ≡ s.circuit.generation)
      × (t.circuit.rejects ≡ saturating_add s.circuit.rejects 1)
unfolding step begin_attempt_with_policy
probe_blocks p x y policy now es h l = ground (arith, (probe_exclusive p es h).1 l)
