-- ===== src/Pipeline/Failover/Cooling.antt =====
-- src/pipeline.rs, `run`: what a client learns when every account is in its cooldown.
use kinetix.Base.{
  ℕ, zero, suc, ◌+◌, ◌<◌, ◌≡◌, refl, sym, subst, ap, ◌∙◌, ◌⊎◌, inl, inr, or_option, Bool, true,
  false, Option, none, some, and_then, List, [], ◌∷◌, String, err, length, All, arith,
}
use kinetix.Types.{rate_limited_error}
use kinetix.Pool.{AccountRow, cooldown, effective_status, should_probe, soonest_recovery, recovery}
use kinetix.Pool.Recovery.{Precedes, IsOne, soonest_recovery-least}
use kinetix.Pipeline.Policy.{RoutePolicy, attempts_limit}
use kinetix.Pipeline.Failover.{
  Target, Visit, Run, failed, next, round, steps, begin, run, unavailable, pop_front, popped,
  same_logical, out_of_time, health_gate, seconds_until, all_cooling, is_empty,
}

-- The accounts in the order in which the loop notes them.
pub noted : List AccountRow → List Target → List AccountRow
noted accs [] = accs
noted accs (t ∷ ts) = noted (t.account ∷ accs) ts

noted_more :
    (accs : List AccountRow) (ts : List Target)
    → is_empty accs ≡ false
    → is_empty (noted accs ts) ≡ false
unfolding noted
noted_more accs [] h = h
noted_more accs (t ∷ ts) h = noted_more (t.account ∷ accs) ts refl

-- The whole seconds from `end` until a time.
abbrev pub wait_until : Option ℕ → ℕ → Option ℕ
wait_until until end = and_then until (λ t. some (seconds_until end t))

abbrev pub wait_for : (String → Option ℕ) → List AccountRow → ℕ → Option ℕ
wait_for parse_dt accs end = wait_until (soonest_recovery parse_dt accs) end

-- When an account that cools down recovers, as far as its row tells: at the end of the cooldown, or
-- else of its circuit.
abbrev pub recovers : (String → Option ℕ) → AccountRow → Option ℕ
recovers parse_dt a =
    or_option (and_then a.cooldown_until parse_dt) (and_then a.circuit_open_until parse_dt)

-- One of the targets' accounts recovers then.
abbrev pub RecoversOne : (String → Option ℕ) → Option ℕ → List Target → Type 0
RecoversOne parse_dt s [] = ⊥
RecoversOne parse_dt s (t ∷ ts) = (recovers parse_dt t.account ≡ s) ⊎ RecoversOne parse_dt s ts

-- The earliest of the times at which the targets' accounts recover, if one of them tells it.
pub record IsFirst (parse_dt : String → Option ℕ) (s : Option ℕ) (ts : List Target) : Type 0 where
  pub least : All (λ t. Precedes s (recovers parse_dt t.account)) ts
  pub is_one : (s ≡ none) ⊎ RecoversOne parse_dt s ts

abbrev pub Cools : (String → Option ℕ) → Visit → Target → Type 0
Cools parse_dt v t = (effective_status parse_dt t.account v.now ≡ cooldown) × (v.expired ≡ false)

abbrev pub CoolsAt : (String → Option ℕ) → ℕ → Target → Type 0
CoolsAt parse_dt end t = effective_status parse_dt t.account end ≡ cooldown

module _ (to_rfc3339 : ℕ → String) (parse_dt : String → Option ℕ) (route : Option RoutePolicy)
    (allow_fallback : Bool) where
  -- An account in its cooldown is not probed.
  cooldown-should_probe :
      (a : AccountRow) (now later : ℕ)
      → effective_status parse_dt a now ≡ cooldown
      → should_probe parse_dt a now later ≡ false
  unfolding effective_status should_probe
  cooldown-should_probe a now later h = ground arith

  health_gate-cooldown :
      (r : Run) (v : Visit) (t : Target)
      → Cools parse_dt v t
      → health_gate parse_dt r v t ≡ err (next r)
  unfolding health_gate
  health_gate-cooldown r v t (c, e) = rw (c, cooldown-should_probe t.account v.now v.later c) refl

  skip_cooling :
      (r : Run) (v : Visit) (t : Target)
      → r.skip_logical_target ≡ none
      → r.attempts_done < r.max_attempts
      → Cools parse_dt v t
      → round to_rfc3339 parse_dt route allow_fallback r v t
        ≡ next (record r { all_accounts = t.account ∷ r.all_accounts })
  unfolding round
  skip_cooling r v t s lt c =
      rw
        (
          same r t s,
          in_time r v lt c.1,
          health_gate-cooldown (record r { all_accounts = t.account ∷ r.all_accounts }) v t c,
        )
        refl
    where
      same : (r : Run) (t : Target) → r.skip_logical_target ≡ none → same_logical r t ≡ false
      same r t s = unfold same_logical in rw s refl

      in_time :
          (r : Run) (v : Visit)
          → r.attempts_done < r.max_attempts
          → v.expired ≡ false
          → out_of_time r v ≡ false
      in_time r v lt e = unfold out_of_time in ground arith

  -- So far every target was skipped.
  record Skipping (r : Run) (end : ℕ) : Type 0 where
    no_skip : r.skip_logical_target ≡ none
    no_error : r.last_error ≡ none
    room : r.attempts_done < r.max_attempts
    cooling : all_cooling parse_dt r.all_accounts end ≡ true

  abbrev Over : (ℕ → Visit) → ℕ → ℕ → ℕ → List AccountRow → Run → Type 0
  Over visits fuel n end accs r =
      (r' : Run) × (steps to_rfc3339 parse_dt route allow_fallback fuel visits n end r
        ≡ some (failed (rate_limited_error (wait_for parse_dt accs end)), r'))
      × (r'.connects ≡ r.connects)
      × (r'.rows ≡ r.rows)

  unavailable-cooling :
      (r : Run) (end : ℕ)
      → Skipping r end
      → is_empty r.all_accounts ≡ false
      → unavailable to_rfc3339 parse_dt route allow_fallback r end
        ≡ rate_limited_error (wait_for parse_dt r.all_accounts end)
  unfolding unavailable
  unavailable-cooling r end k h = rw (k.no_error, h, k.cooling) refl

  steps-cooling :
      (visits : ℕ → Visit) (fuel n end : ℕ) (ts : List Target) (r : Run)
      → r.pending_targets ≡ ts
      → length ts < fuel
      → Skipping r end
      → ((k : ℕ) → All (Cools parse_dt (visits k)) ts)
      → All (CoolsAt parse_dt end) ts
      → is_empty (noted r.all_accounts ts) ≡ false
      → Over visits fuel n end (noted r.all_accounts ts) r
  unfolding steps noted
  steps-cooling visits zero n end ts r p f k c ce h = absurd (omega arith)
  steps-cooling visits (suc fuel) n end [] r p f k c ce h =
      (r, rw (no_more r p, steps, unavailable-cooling r end k h) refl, refl, refl)
    where
      no_more : (r : Run) → r.pending_targets ≡ [] → pop_front r ≡ none
      no_more r p = unfold pop_front in ap (popped r) p
  steps-cooling visits (suc fuel) n end (t ∷ ts) r p f k c ce h =
      let r0 : Run = record r { pending_targets = ts } in
      let r1 : Run = record r0 { all_accounts = t.account ∷ r.all_accounts } in
      let k1 : Skipping r1 end = record {
        no_skip = k.no_skip;
        no_error = k.no_error;
        room = k.room;
        cooling = rw (ce.0, k.cooling) refl;
      } in
      let (r', e, same_connects, same_rows) =
        steps-cooling visits fuel (n + 1) end ts r1 refl (omega arith) k1 (λ m. (c m).1) ce.1 h in
      (
        r',
        rw (first r t ts p, steps, skip_cooling r0 (visits n) t k.no_skip k.room (c n).0) e,
        same_connects,
        same_rows,
      )
    where
      first :
          (r : Run) (t : Target) (ts : List Target)
          → r.pending_targets ≡ t ∷ ts
          → pop_front r ≡ some (t, record r { pending_targets = ts })
      first r t ts p = unfold pop_front in ap (popped r) p

  recovery-cooldown :
      (a : AccountRow) (now : ℕ)
      → effective_status parse_dt a now ≡ cooldown
      → recovery parse_dt a ≡ recovers parse_dt a
  unfolding effective_status recovery
  recovery-cooldown a now h = ground (arith, h)

  All-noted :
      (s : Option ℕ) (end : ℕ) (accs : List AccountRow) (ts : List Target)
      → All (CoolsAt parse_dt end) ts
      → All (λ a. Precedes s (recovery parse_dt a)) (noted accs ts)
      → All (λ a. Precedes s (recovery parse_dt a)) accs
        × All (λ t. Precedes s (recovers parse_dt t.account)) ts
  unfolding noted
  All-noted s end accs [] c h = (h, tt)
  All-noted s end accs (t ∷ ts) c h =
      let (now, later) = All-noted s end (t.account ∷ accs) ts c.1 h in
      (now.1, (subst (Precedes s) (recovery-cooldown t.account end c.0) now.0, later))

  IsOne-noted :
      (s : Option ℕ) (end : ℕ) (accs : List AccountRow) (ts : List Target)
      → All (CoolsAt parse_dt end) ts
      → IsOne parse_dt s (noted accs ts)
      → IsOne parse_dt s accs ⊎ RecoversOne parse_dt s ts
  unfolding noted
  IsOne-noted s end accs [] c h = inl h
  IsOne-noted s end accs (t ∷ ts) c h = elim (IsOne-noted s end (t.account ∷ accs) ts c.1 h) [
    | inl (inl e) ↦ inr (inl (sym (recovery-cooldown t.account end c.0) ∙ e))
    | inl (inr i) ↦ inl i
    | inr i ↦ inr (inr i)
  ]

  noted-IsFirst :
      (end : ℕ) (ts : List Target)
      → All (CoolsAt parse_dt end) ts
      → IsFirst parse_dt (soonest_recovery parse_dt (noted [] ts)) ts
  noted-IsFirst end ts c =
      let s = soonest_recovery parse_dt (noted [] ts) in
      let (least, is_one) = soonest_recovery-least parse_dt (noted [] ts) in
      record {
        least = (All-noted s end [] ts c least).1;
        is_one = elim is_one [
          | inl e ↦ inl e
          | inr i ↦ elim (IsOne-noted s end [] ts c i) [ inl n ↦ absurd n | inr one ↦ inr one ]
        ];
      }

  -- If every account is in its cooldown whenever the loop looks at it, and the time is not over, then
  -- nothing is sent and no account's row is written, and the client is told that the rate is limited,
  -- with the whole seconds, at least one, until the earliest of the times at which the accounts recover
  -- (the end of the cooldown, or else of the circuit), if one of the rows tells such a time.
  pub run-cooling :
      (targets : List Target) (rows : List AccountRow) (visits : ℕ → Visit) (end : ℕ)
      → 0 < length targets
      → ((n : ℕ) → All (Cools parse_dt (visits n)) targets)
      → All (CoolsAt parse_dt end) targets
      → (first : Option ℕ) × (r : Run) × (run to_rfc3339 parse_dt route allow_fallback targets rows
            visits end
          ≡ some (failed (rate_limited_error (wait_until first end)), r))
        × IsFirst parse_dt first targets
        × (r.connects ≡ [])
        × (r.rows ≡ rows)
  unfolding run noted
  run-cooling targets rows visits end some_target c ce =
      let (r, told, connects, same_rows) =
        steps-cooling visits (length targets + length targets + 1) 0 end targets
          (begin to_rfc3339 parse_dt route allow_fallback targets rows) refl (omega arith)
          (record {
            no_skip = refl;
            no_error = refl;
            room = omega (arith, attempts_limit_pos (length targets));
            cooling = refl;
          })
          c ce (nonempty targets some_target) in
      (
        soonest_recovery parse_dt (noted [] targets),
        r,
        told,
        noted-IsFirst end targets ce,
        connects,
        same_rows,
      )
    where
      attempts_limit_pos : (n : ℕ) → 0 < attempts_limit route n
      attempts_limit_pos n = unfold attempts_limit in omega arith

      nonempty : (ts : List Target) → 0 < length ts → is_empty (noted [] ts) ≡ false
      nonempty [] h = absurd (omega arith)
      nonempty (t ∷ ts) h = noted_more (t.account ∷ []) ts refl
