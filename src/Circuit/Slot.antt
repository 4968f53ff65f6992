-- ===== src/Circuit/Slot.antt =====
-- The half-open probe lease is exclusive, over every history of the circuit.
use kinetix.Types.{FailureKind}
use kinetix.Base.{
  ℕ, zero, suc, ◌+◌, ◌≤◌, ◌<◌, ◌≡◌, refl, ◌⊎◌, inl, true, false, ◌&&◌, not, Option, List, [], ◌∷◌,
  String, ◌==◌, if◌then◌else◌, All, arith, u64_mod, wrapping_add_lem,
}
use kinetix.Circuit.{
  Circuit, Attempt, is_half_open, is_closed, check_available, CorrelationPolicy,
  begin_attempt_with_policy, purge_old, reject,
}
use kinetix.Circuit.Attempts.{
  mark_validated_success, finish_success, finish_failure, finish_neutral, drop_attempt,
  record_evidence,
}
use kinetix.Circuit.System.{
  Op, marks, succeeds, neutral, drops, fails, System, Event, checks, begins, calls, run_op, call,
  step,
}

-- 1 for an attempt that may still decide the fate of a half-open circuit of generation `g`.
abbrev pub live : ℕ → Attempt → ℕ
live g a =
    if a.half_open_probe && (not a.finished && (not a.validated_success && a.generation == g))
    then 1
    else 0

abbrev pub lives : ℕ → List Attempt → ℕ
lives g [] = 0
lives g (a ∷ l) = live g a + lives g l

-- What holds of every attempt: it is of no later generation, and a validated probe of this
-- generation left the circuit closed.
pub record Known (c : Circuit) (a : Attempt) : Type 0 where
  pub admitted : a.generation ≤ c.generation
  pub validated :
      a.half_open_probe ≡ true
      → a.validated_success ≡ true
      → a.generation ≡ c.generation
      → is_closed c.state ≡ true

pub record Slot (c : Circuit) : Type 0 where
  pub idle : is_half_open c.state ≡ false → c.half_open_inflight ≡ 0
  pub single : c.half_open_inflight ≤ 1

-- What one call on an attempt does to the lease, and to the other attempts.
record Effect (c c' : Circuit) (a a' : Attempt) : Type 0 where
  slot : Slot c'
  known : Known c' a'
  moved :
      ((c'.generation ≡ c.generation)
        × (c'.half_open_inflight + live c.generation a
            ≡ c.half_open_inflight + live c.generation a'))
      ⊎ ((c'.generation ≡ c.generation + 1) × (c'.half_open_inflight ≡ 0) × (a'.finished ≡ true))
  stays : is_closed c.state ≡ true → c'.generation ≡ c.generation → is_closed c'.state ≡ true

module _ (a : Attempt) (c : Circuit) (now : ℕ) (k : Known c a) (s : Slot c)
    (held : live c.generation a ≤ c.half_open_inflight) where
  marks-Effect : let (a', c') = run_op marks a c now in Effect c c' a a'
  unfolding run_op mark_validated_success
  marks-Effect = ground (arith, k, s)

  succeeds-Effect : let (a', c') = run_op succeeds a c now in Effect c c' a a'
  unfolding run_op finish_success
  succeeds-Effect = ground (arith, k, s)

  neutral-Effect : let (a', c') = run_op neutral a c now in Effect c c' a a'
  unfolding run_op finish_neutral
  neutral-Effect = ground (arith, k, s)

  drops-Effect : let (a', c') = run_op drops a c now in Effect c c' a a'
  unfolding run_op drop_attempt
  drops-Effect = ground (arith, k, s)

  record_evidence_keeps :
      let c' = record_evidence a c now in
      (c'.state ≡ c.state)
      × (c'.generation ≡ c.generation)
      × (c'.half_open_inflight ≡ c.half_open_inflight)
  unfolding record_evidence
  record_evidence_keeps = ground arith

  fails-Effect :
      (kind : FailureKind) (status : Option ℕ)
      → c.generation + 1 < u64_mod
      → let (a', c') = run_op (fails kind status) a c now in Effect c c' a a'
  unfolding run_op finish_failure
  fails-Effect kind status small =
      ground (arith, k, s, record_evidence_keeps, wrapping_add_lem c.generation 1)

  run_op-Effect :
      (op : Op) → c.generation + 1 < u64_mod → let (a', c') = run_op op a c now in Effect c c' a a'
  run_op-Effect marks small = marks-Effect
  run_op-Effect succeeds small = succeeds-Effect
  run_op-Effect neutral small = neutral-Effect
  run_op-Effect drops small = drops-Effect
  run_op-Effect (fails kind status) small = fails-Effect kind status small

-- The invariant: the lease count is the number of live probes, and no more than one.
pub record Inv (s : System) : Type 0 where
  pub slot : Slot s.circuit
  pub known : All (Known s.circuit) s.attempts
  pub counted : lives s.circuit.generation s.attempts ≡ s.circuit.half_open_inflight

-- The others, seen from after a call.
record Rest (c c' : Circuit) (l l' : List Attempt) : Type 0 where
  slot : Slot c'
  known : All (Known c') l'
  moved :
      ((c'.generation ≡ c.generation)
        × (c'.half_open_inflight + lives c.generation l
            ≡ c.half_open_inflight + lives c.generation l'))
      ⊎ ((c'.generation ≡ c.generation + 1)
          × (c'.half_open_inflight ≡ 0)
          × (lives c'.generation l' ≡ 0))
  stays : is_closed c.state ≡ true → c'.generation ≡ c.generation → is_closed c'.state ≡ true

Known-keeps :
    (c c' : Circuit) (a : Attempt)
    → ((c'.generation ≡ c.generation) ⊎ (c'.generation ≡ c.generation + 1))
    → (is_closed c.state ≡ true → c'.generation ≡ c.generation → is_closed c'.state ≡ true)
    → Known c a
    → Known c' a
Known-keeps c c' a g st k = ground (arith, k)

All-Known-keeps :
    (c c' : Circuit) (l : List Attempt)
    → ((c'.generation ≡ c.generation) ⊎ (c'.generation ≡ c.generation + 1))
    → (is_closed c.state ≡ true → c'.generation ≡ c.generation → is_closed c'.state ≡ true)
    → All (Known c) l
    → All (Known c') l
All-Known-keeps c c' [] g st k = tt
All-Known-keeps c c' (a ∷ l) g st k = (Known-keeps c c' a g st k.0, All-Known-keeps c c' l g st k.1)

-- No attempt is live in a later generation.
lives_later :
    (c : Circuit) (g : ℕ) (l : List Attempt) → c.generation < g → All (Known c) l → lives g l ≡ 0
lives_later c g [] h k = refl
lives_later c g (a ∷ l) h k = ground (arith, k.0, lives_later c g l h k.1)

call-Rest :
    (i : ℕ) (op : Op) (c : Circuit) (now : ℕ) (l : List Attempt)
    → All (Known c) l
    → Slot c
    → lives c.generation l ≤ c.half_open_inflight
    → c.generation + 1 < u64_mod
    → let (c', l') = call i op c now l in Rest c c' l l'
unfolding call
call-Rest i op c now [] k s h small = record {
  slot = s;
  known = tt;
  moved = inl (refl, refl);
  stays = λ p q. p;
}
call-Rest zero op c now (a ∷ l) k s h small =
    let e = run_op-Effect a c now k.0 s (omega arith) op small in
    let c' = (run_op op a c now).1 in
    record {
      slot = e.slot;
      known = (e.known, All-Known-keeps c c' l (ground (arith, e.moved)) e.stays k.1);
      moved = ground (arith, e.moved, lives_later c (c.generation + 1) l (omega arith) k.1);
      stays = e.stays;
    }
call-Rest (suc i) op c now (a ∷ l) k s h small =
    let r = call-Rest i op c now l k.1 s (omega arith) small in
    let c' = (call i op c now l).0 in
    record {
      slot = r.slot;
      known = (Known-keeps c c' a (ground (arith, r.moved)) r.stays k.0, r.known);
      moved = ground (arith, r.moved, k.0);
      stays = r.stays;
    }

pub begin_keeps :
    (c : Circuit) (p x y : String) (policy : CorrelationPolicy) (now : ℕ)
    → let c' = (begin_attempt_with_policy c p x y policy now).0 in
      (c'.generation ≡ c.generation) × (is_closed c.state ≡ true → is_closed c'.state ≡ true)
unfolding begin_attempt_with_policy
begin_keeps c p x y policy now = ground arith

begin-Inv :
    (s : System) (p x y : String) (policy : CorrelationPolicy) (now : ℕ)
    → Inv s
    → Inv (step s p now (begins x y policy))
unfolding step begin_attempt_with_policy
begin-Inv s p x y policy now v =
    let c' = (begin_attempt_with_policy s.circuit p x y policy now).0 in
    let keeps = begin_keeps s.circuit p x y policy now in
    let old = All-Known-keeps s.circuit c' s.attempts (inl keeps.0) (λ q _. keeps.1 q) v.known in
    ground (arith, old, v)

pub check_keeps :
    (c : Circuit) (p : String) (now : ℕ)
    → let c' = (check_available c p now).0 in
      (c'.generation ≡ c.generation)
      × (c'.state ≡ c.state)
      × (c'.half_open_inflight ≡ c.half_open_inflight)
unfolding check_available reject purge_old
check_keeps c p now = ground arith

check-Inv : (s : System) (p : String) (now : ℕ) → Inv s → Inv (step s p now checks)
unfolding step
check-Inv s p now v =
    let c' = (check_available s.circuit p now).0 in
    let keeps = check_keeps s.circuit p now in
    let old =
      All-Known-keeps s.circuit c' s.attempts (inl keeps.0) (λ q _. ground (arith, keeps))
        v.known in
    record { slot = ground (arith, v, keeps); known = old; counted = ground (arith, v, keeps) }

call-Inv :
    (s : System) (p : String) (now i : ℕ) (op : Op)
    → s.circuit.generation + 1 < u64_mod
    → Inv s
    → Inv (step s p now (calls i op))
unfolding step
call-Inv s p now i op small v =
    let r =
      call-Rest i op s.circuit now s.attempts v.known v.slot (omega (arith, v.counted)) small in
    record { slot = r.slot; known = r.known; counted = ground (arith, r.moved, v.counted) }

pub step-Inv :
    (s : System) (p : String) (now : ℕ) (e : Event)
    → s.circuit.generation + 1 < u64_mod
    → Inv s
    → Inv (step s p now e)
step-Inv s p now checks small v = check-Inv s p now v
step-Inv s p now (begins x y policy) small v = begin-Inv s p x y policy now v
step-Inv s p now (calls i op) small v = call-Inv s p now i op small v

pub call_generation :
    (s : System) (now i : ℕ) (op : Op)
    → s.circuit.generation + 1 < u64_mod
    → Inv s
    → (call i op s.circuit now s.attempts).0.generation ≤ s.circuit.generation + 1
call_generation s now i op small v =
    let r =
      call-Rest i op s.circuit now s.attempts v.known v.slot (omega (arith, v.counted)) small in
    ground (arith, r.moved)
