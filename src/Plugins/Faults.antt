-- ===== src/Plugins/Faults.antt =====
-- src/plugins/store.rs: when a plugin's circuit refuses calls.
use kinetix.Base.{
  ℕ, ◌+◌, ◌≤◌, ◌<◌, ◌≡◌, refl, ap, subst, arith, Bool, true, false, Option, none, some, List, [],
  ◌∷◌, String, ltb, leb, if◌then◌else◌, ◌||◌, ◌&&◌, not, length, seconds, Bool-cases, inl, inr,
}
use kinetix.Plugins.Circuit.{
  closed, open_circuit, half_open, RuntimeStateRow, circuit_fault_threshold, circuit_open_secs,
  ready_in, circuit_ready, is_closed, probe_due, claim_circuit_probe, record_plugin_failure,
  clear_plugin_failures, fault, settle, record_fault,
}

-- A fault that counts: its code and its time.
abbrev pub Fault : Type 0
Fault = String × ℕ

unfoldable pub faults : RuntimeStateRow → List Fault → RuntimeStateRow
faults r [] = r
faults r ((code, now) ∷ fs) = faults (settle r (fault true code) now) fs

-- When the last of some faults happened.
abbrev pub last_at : ℕ → List Fault → ℕ
last_at t [] = t
last_at t ((code, now) ∷ fs) = last_at now fs

-- After `n` faults in a row, the last at `t`: closed below the threshold, open from it on.
record Counts (n t : ℕ) (r : RuntimeStateRow) : Type 0 where
  pub counted : r.consecutive_failures ≡ n
  pub below : n < circuit_fault_threshold → r.circuit ≡ closed
  pub above : circuit_fault_threshold ≤ n → r.circuit ≡ open_circuit
  pub until :
      circuit_fault_threshold ≤ n → r.circuit_open_until ≡ some (t + seconds circuit_open_secs)

fault-Counts :
    (n t now : ℕ) (code : String) (r : RuntimeStateRow)
    → Counts n t r
    → Counts (n + 1) now (settle r (fault true code) now)
unfolding settle record_fault record_plugin_failure
fault-Counts n t now code r c = record {
  counted = ground (arith, c.counted);
  below = λ h. ground (arith, c.counted, c.below, h);
  above = λ h. ground (arith, c.counted, h);
  until = λ h. ground (arith, c.counted, h);
}

faults-Counts :
    (n t : ℕ) (r : RuntimeStateRow) (fs : List Fault)
    → Counts n t r
    → Counts (n + length fs) (last_at t fs) (faults r fs)
unfolding faults
faults-Counts n t r [] c = subst (λ m. Counts m t r) (omega arith) c
faults-Counts n t r ((code, now) ∷ fs) c =
    subst (λ m. Counts m (last_at now fs) (faults (settle r (fault true code) now) fs))
      (omega arith)
      (faults-Counts (n + 1) now (settle r (fault true code) now) fs
        (fault-Counts n t now code r c))

cleared : (r : RuntimeStateRow) → Counts 0 0 (clear_plugin_failures r)
unfolding clear_plugin_failures
cleared r = record {
  counted = refl;
  below = λ h. refl;
  above = λ h. absurd (ground (arith, h));
  until = λ h. absurd (ground (arith, h));
}

-- Once a plugin has answered, the faults after it close it off exactly from the fifth on, and then
-- for a minute after the last of them; until the fifth it is called as before.
pub faults-circuit_ready :
    (r : RuntimeStateRow) (fs : List Fault) (now : ℕ)
    → circuit_ready (some (faults (clear_plugin_failures r) fs)) now ≡ (
        if ltb (length fs) circuit_fault_threshold
        then true
        else leb (last_at 0 fs + seconds circuit_open_secs) now)
unfolding circuit_ready clear_plugin_failures ready_in
faults-circuit_ready r fs now =
    let c = faults-Counts 0 0 (clear_plugin_failures r) fs (cleared r) in
    elim (Bool-cases (ltb (length fs) circuit_fault_threshold)) [
      | inl few ↦ rw few (rw (c.below (ground (arith, few))) refl)
      | inr many ↦
          let h : circuit_fault_threshold ≤ 0 + length fs = ground (arith, many) in
          rw many (rw (c.above h, c.until h) refl)
    ]

-- What a caller does before its call: it asks whether the circuit is ready, and later claims to enter.
pub data Attempt : Type 0 where
  ask claim : ℕ → Attempt

-- Whether the attempt enters the circuit.
unfoldable pub attempt : Option RuntimeStateRow → Attempt → Option RuntimeStateRow × Bool
attempt r (ask now) = (r, false)
attempt r (claim now) = claim_circuit_probe r now

-- The row after some attempts, and how many entered.
unfoldable pub attempts : Option RuntimeStateRow → List Attempt → Option RuntimeStateRow × ℕ
attempts r [] = (r, 0)
attempts r (a ∷ xs) =
    let (r', enters) = attempt r a in
    let (r'', others) = attempts r' xs in (r'', (if enters then 1 else 0) + others)

half_open-attempts :
    (r : RuntimeStateRow) (xs : List Attempt)
    → r.circuit ≡ half_open
    → attempts (some r) xs ≡ (some r, 0)
unfolding attempts attempt claim_circuit_probe probe_due is_closed
half_open-attempts r [] h = refl
half_open-attempts r (ask now ∷ xs) h = rw (half_open-attempts r xs h) refl
half_open-attempts r (claim now ∷ xs) h = simp (h, half_open-attempts r xs h)

-- The row once its probe is claimed.
abbrev probing : RuntimeStateRow → RuntimeStateRow
probing r = record r { circuit = half_open; circuit_open_until = none }

claim-due :
    (r : RuntimeStateRow) (until now : ℕ)
    → r.circuit ≡ open_circuit
    → r.circuit_open_until ≡ some until
    → leb until now ≡ true
    → claim_circuit_probe (some r) now ≡ (some (probing r), true)
unfolding claim_circuit_probe probe_due
claim-due r until now o u h =
    let due : probe_due r.circuit r.circuit_open_until now ≡ true = ground (arith, o, u, h) in
    rw due refl

claim-early :
    (r : RuntimeStateRow) (until now : ℕ)
    → r.circuit ≡ open_circuit
    → r.circuit_open_until ≡ some until
    → leb until now ≡ false
    → claim_circuit_probe (some r) now ≡ (some r, false)
unfolding claim_circuit_probe probe_due is_closed
claim-early r until now o u h =
    let early : probe_due r.circuit r.circuit_open_until now ≡ false = ground (arith, o, u, h) in
    let shut : is_closed r.circuit ≡ false = ground (arith, o) in
    rw early (ap (λ b. (some r, b)) shut)

-- Whether one of the attempts is a claim at the end of the wait or later.
abbrev pub claims_from : ℕ → List Attempt → Bool
claims_from until [] = false
claims_from until (ask now ∷ xs) = claims_from until xs
claims_from until (claim now ∷ xs) = leb until now || claims_from until xs

-- As long as no call of the plugin is settled and it is not enabled anew, exactly one of the callers
-- that find its circuit open enters, if one claims when the wait is over or later, and else none. After
-- them the circuit is ready from the end of the wait on if none has entered, and never if one has: so if
-- its call is not settled, as when the process stops during the call, the plugin is refused for good.
pub one_probe :
    (r : RuntimeStateRow) (until : ℕ) (xs : List Attempt) (later : ℕ)
    → r.circuit ≡ open_circuit
    → r.circuit_open_until ≡ some until
    → ((attempts (some r) xs).1 ≡ (if claims_from until xs then 1 else 0))
      × (circuit_ready (attempts (some r) xs).0 later
          ≡ (not (claims_from until xs) && leb until later))
unfolding attempts attempt circuit_ready ready_in
one_probe r until [] later o u = (refl, ground (arith, o, u))
one_probe r until (ask now ∷ xs) later o u =
    let ih = one_probe r until xs later o u in (ground (arith, ih.0), ih.1)
one_probe r until (claim now ∷ xs) later o u = elim (Bool-cases (leb until now)) [
  | inl due ↦
      rw (claim-due r until now o u due, half_open-attempts (probing r) xs refl, due) (refl, refl)
  | inr early ↦
      let ih = one_probe r until xs later o u in
      rw (claim-early r until now o u early, early) (ground (arith, ih.0), ih.1)
]
