-- ===== src/Pipeline/Failover/Effects/Passing.antt =====
-- src/pipeline.rs, `run`: a gate that is not passed changes nothing that bounds the loop, and what a
-- passed one says.
use kinetix.Base.{
  ℕ, ◌<◌, ◌≡◌, refl, ◌⊎◌, inl, inr, Bool, true, false, ◌&&◌, not, Option, none, ◌∷◌, String, ok,
  err, arith, Bool-cases,
}
use kinetix.Pool.{effective_status, should_probe, is_healthy}
use kinetix.Pipeline.Policy.{RoutePolicy}
use kinetix.Pipeline.Failover.{
  Target, Visit, Run, Step, next, exhausted, finished, out_of_time, health_gate, quota_gate,
  local_gates, last_gates, Gate,
}
use kinetix.Pipeline.Failover.Effects.{Quiet, Tried, QuietStep, QuietGate, Admitted, SentStep}

pub local_gates-Quiet : (r : Run) (v : Visit) (t : Target) → QuietGate r (local_gates r v t)
unfolding local_gates
local_gates-Quiet r v t = ground arith

pub last_gates-Quiet : (r : Run) (v : Visit) → QuietGate r (last_gates r v)
unfolding last_gates
last_gates-Quiet r v = ground arith

-- The account is noted before the gates.
abbrev pub seen : Run → Target → Run
seen r t = record r { all_accounts = t.account ∷ r.all_accounts }

seen-Tried : (r r' : Run) (v : Visit) (t : Target) → Tried (seen r t) r' v t → Tried r r' v t
seen-Tried r r' v t h = record {
  pending = h.pending;
  retried = h.retried;
  connected = h.connected;
  attempts = h.attempts;
  limit = h.limit;
}

local_gates_ok :
    (r : Run) (v : Visit) (t : Target) (u : Unit {0})
    → local_gates r v t ≡ ok u
    → (v.profile_error ≡ none)
      × (v.adapter_error ≡ none)
      × ((t.strict && not v.satisfies_needs) ≡ false)
      × (v.circuit_wait ≡ none)
      × (v.credential_error ≡ none)
      × (v.rejection ≡ none)
      × (v.saturated ≡ false)
unfolding local_gates
local_gates_ok r v t u h = ground arith

last_gates_ok :
    (r : Run) (v : Visit) (u : Unit {0})
    → last_gates r v ≡ ok u
    → (v.no_budget ≡ false) × (v.begin_wait ≡ none)
unfolding last_gates
last_gates_ok r v u h = ground arith

pub in_time_lem :
    (r : Run) (v : Visit)
    → out_of_time r v ≡ false
    → (r.attempts_done < r.max_attempts) × (v.expired ≡ false)
unfolding out_of_time
in_time_lem r v h = ground arith

pub still : (r : Run) → Quiet r r
still r = record { pending = refl; retried = refl; connected = refl; attempts = refl; limit = refl }

seen-Quiet : (r r' : Run) (t : Target) → Quiet (seen r t) r' → Quiet r r'
seen-Quiet r r' t q = record {
  pending = q.pending;
  retried = q.retried;
  connected = q.connected;
  attempts = q.attempts;
  limit = q.limit;
}

left : (r : Run) (t : Target) (s : Step) → QuietStep (seen r t) s → QuietStep r s
left r t (next r') q = seen-Quiet r r' t q
left r t (exhausted r') q = seen-Quiet r r' t q
left r t (finished o r') q = seen-Quiet r r' t q

pub refused_at :
    {A : Type 0} (r : Run) (t : Target) (g : Gate A) (s : Step)
    → QuietGate (seen r t) g
    → g ≡ err s
    → QuietStep r s
refused_at r t (ok a) s q e = cc
refused_at r t (err s') s q e = let p : s ≡ s' = cc in rw p (left r t s' q)

pub seen-Sent :
    (r : Run) (v : Visit) (t : Target) (s : Step) → SentStep (seen r t) v t s → SentStep r v t s
seen-Sent r v t (next r') (inl h) = inl (seen-Tried r r' v t h)
seen-Sent r v t (next r') (inr h) = inr (record {
  pending = h.pending;
  retried = h.retried;
  once = h.once;
  connected = h.connected;
  attempts = h.attempts;
  limit = h.limit;
})
seen-Sent r v t (exhausted r') h = h
seen-Sent r v t (finished o r') h = seen-Tried r r' v t h

module _ (to_rfc3339 : ℕ → String) (parse_dt : String → Option ℕ) (route : Option RoutePolicy)
    (allow_fallback : Bool) where
  pub health_gate-Quiet :
      (r : Run) (v : Visit) (t : Target) → QuietGate r (health_gate parse_dt r v t)
  unfolding health_gate
  health_gate-Quiet r v t = ground arith

  pub quota_gate-Quiet :
      (r : Run) (v : Visit) (t : Target)
      → QuietGate r (quota_gate to_rfc3339 route allow_fallback r v t)
  unfolding quota_gate
  quota_gate-Quiet r v t = ground arith

  -- What a passed gate says.
  health_gate_ok :
      (r : Run) (v : Visit) (t : Target) (b : Bool)
      → health_gate parse_dt r v t ≡ ok b
      → (is_healthy parse_dt (effective_status parse_dt t.account v.now) ≡ true)
        ⊎ (should_probe parse_dt t.account v.now v.later ≡ true)
  unfolding health_gate
  health_gate_ok r v t b h =
      elim (Bool-cases (is_healthy parse_dt (effective_status parse_dt t.account v.now))) [
        | inl e ↦ inl e
        | inr e ↦ elim (Bool-cases (should_probe parse_dt t.account v.now v.later)) [
          | inl p ↦ inr p
          | inr p ↦ absurd (ground arith)
        ]
      ]

  quota_gate_ok :
      (r : Run) (v : Visit) (t : Target) (u : Unit {0})
      → quota_gate to_rfc3339 route allow_fallback r v t ≡ ok u
      → v.soft_quota ≡ false
  unfolding quota_gate
  quota_gate_ok r v t u h = ground arith

  pub admitted :
      (r : Run) (v : Visit) (t : Target) (probing : Bool) {u w x : Unit {0}}
      → out_of_time r v ≡ false
      → health_gate parse_dt (seen r t) v t ≡ ok probing
      → quota_gate to_rfc3339 route allow_fallback (seen r t) v t ≡ ok u
      → local_gates (seen r t) v t ≡ ok w
      → last_gates (seen r t) v ≡ ok x
      → Admitted parse_dt v t
  admitted r v t probing b c d e f =
      let (has_profile, has_adapter, capable, closed, has_secret, accepted, has_permit) =
        local_gates_ok (seen r t) v t _ e in
      let (has_budget, reserved) = last_gates_ok (seen r t) v _ f in
      record {
        usable = health_gate_ok (seen r t) v t probing c;
        in_time = (in_time_lem r v b).1;
        within_quota = quota_gate_ok (seen r t) v t _ d;
        has_profile = has_profile;
        has_adapter = has_adapter;
        capable = capable;
        closed = closed;
        has_secret = has_secret;
        accepted = accepted;
        has_permit = has_permit;
        has_budget = has_budget;
        reserved = reserved;
      }
