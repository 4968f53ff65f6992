-- ===== src/Pipeline/Failover/Bounds.antt =====
-- src/pipeline.rs, `run`: how many rounds the attempt loop takes, how often the request is sent, and to
-- whom.
use text.Mathlib.TextEquality.{eq_iff}
use kinetix.Base.{
  ℕ, zero, suc, ◌+◌, ◌≤◌, ◌<◌, ◌≡◌, refl, ap, ◌∙◌, ◌⊎◌, inl, inr, Bool, true, false, Option, none,
  some, List, [], ◌∷◌, String, contains_str, if◌then◌else◌, length, All, arith, Option-cases,
}
use kinetix.Pool.{AccountRow}
use kinetix.Pipeline.Policy.{RoutePolicy, attempts_limit}
use kinetix.Pipeline.Failover.{
  Target, Visit, Run, Outcome, failed, Step, next, exhausted, finished, round, steps, begin, run,
  pop_front, popped, unavailable,
}
use kinetix.Pipeline.Failover.Effects.{Quiet, Tried, Retried, Admitted, Effect}
use kinetix.Pipeline.Failover.Rounds.{round-Effect}

-- The targets whose account has its renewal left.
abbrev fresh : List String → List Target → ℕ
fresh retried [] = 0
fresh retried (t ∷ ts) = (if contains_str t.account.id retried then 0 else 1) + fresh retried ts

fresh-le : (retried : List String) (ts : List Target) → fresh retried ts ≤ length ts
fresh-le retried [] = omega arith
fresh-le retried (t ∷ ts) = ground (arith, fresh-le retried ts)

fresh_mono :
    (a : String) (retried : List String) (ts : List Target)
    → fresh (a ∷ retried) ts ≤ fresh retried ts
fresh_mono a retried [] = omega arith
fresh_mono a retried (t ∷ ts) = ground (arith, fresh_mono a retried ts)

contains_self : (a : String) (l : List String) → contains_str a (a ∷ l) ≡ true
contains_self a l = rw ((eq_iff a a).1 refl) refl

abbrev pub Distinct : List String → Type 0
Distinct [] = Unit
Distinct (a ∷ l) = (contains_str a l ≡ false) × Distinct l

List-cases : {A : Type 0} (xs : List A) → (xs ≡ []) ⊎ ((x : A) × (ys : List A) × (xs ≡ x ∷ ys))
List-cases [] = inl refl
List-cases (x ∷ xs) = inr (x, xs, refl)

attempts_limit-le : (route : Option RoutePolicy) (n : ℕ) → attempts_limit route n ≤ 5
unfolding attempts_limit
attempts_limit-le route n = omega arith

-- `r0` is `r` without the head `t` of its queue.
record Popped (r r0 : Run) (t : Target) (queue_before : List Target) : Type 0 where
  queue : queue_before ≡ t ∷ r0.pending_targets
  retried : r0.auth_retried_accounts ≡ r.auth_retried_accounts
  connected : r0.connects ≡ r.connects
  attempts : r0.attempts_done ≡ r.attempts_done
  limit : r0.max_attempts ≡ r.max_attempts

popped_lem :
    (r : Run) (q : List Target) (t : Target) (r0 : Run)
    → popped r q ≡ some (t, r0)
    → Popped r r0 t q
popped_lem r [] t r0 h = cc
popped_lem r (x ∷ q) t r0 h = record {
  queue = cc;
  retried = cc;
  connected = cc;
  attempts = cc;
  limit = cc;
}

module _ (to_rfc3339 : ℕ → String) (parse_dt : String → Option ℕ) (route : Option RoutePolicy)
    (allow_fallback : Bool) (visits : ℕ → Visit) where
  abbrev Allowed : Visit × Target → Type 0
  Allowed (v, t) = ((n : ℕ) × (visits n ≡ v)) × Admitted parse_dt v t

  -- Between two rounds, of a request with `n` targets.
  record Bounded (n : ℕ) (limit : ℕ) (r : Run) : Type 0 where
    same_limit : r.max_attempts ≡ limit
    within : r.attempts_done ≤ limit
    counted : length r.connects ≡ r.attempts_done + length r.auth_retried_accounts
    renewals : fresh r.auth_retried_accounts r.pending_targets + length r.auth_retried_accounts ≤ n
    distinct : Distinct r.auth_retried_accounts
    allowed : All Allowed r.connects

  abbrev Left : ℕ → ℕ → ℕ → Step → Type 0
  Left n limit w (next r) =
      Bounded n limit r
      × (fresh r.auth_retried_accounts r.pending_targets + length r.pending_targets < w)
  Left n limit w (exhausted r) = Bounded n limit r
  Left n limit w (finished o r) = Bounded n limit r

  Quiet-Bounded : (n limit : ℕ) (r r' : Run) → Bounded n limit r → Quiet r r' → Bounded n limit r'
  Quiet-Bounded n limit r r' b q = record {
    same_limit = q.limit ∙ b.same_limit;
    within = omega (arith, b.within, q.attempts);
    counted = rw (q.connected, q.attempts, q.retried) b.counted;
    renewals = rw (q.retried, q.pending) b.renewals;
    distinct = rw q.retried b.distinct;
    allowed = rw q.connected b.allowed;
  }

  Tried-Bounded :
      (n limit k : ℕ) (r r' : Run) (t : Target)
      → Bounded n limit r
      → r.attempts_done < r.max_attempts
      → Admitted parse_dt (visits k) t
      → Tried r r' (visits k) t
      → Bounded n limit r'
  Tried-Bounded n limit k r r' t b lt a q = record {
    same_limit = q.limit ∙ b.same_limit;
    within = omega (arith, b.same_limit, q.attempts);
    counted = rw (q.connected, q.attempts, q.retried) (omega (arith, b.counted));
    renewals = rw (q.retried, q.pending) b.renewals;
    distinct = rw q.retried b.distinct;
    allowed = rw q.connected (((k, refl), a), b.allowed);
  }

  Retried-Bounded :
      (n limit k : ℕ) (r r' : Run) (t : Target)
      → Bounded n limit r
      → fresh r.auth_retried_accounts (t ∷ r.pending_targets) + length r.auth_retried_accounts ≤ n
      → r.attempts_done < r.max_attempts
      → Admitted parse_dt (visits k) t
      → Retried r r' (visits k) t
      → Bounded n limit r'
        × (fresh r'.auth_retried_accounts r'.pending_targets + length r'.pending_targets
            < fresh r.auth_retried_accounts (t ∷ r.pending_targets) + length r.pending_targets + 1)
  Retried-Bounded n limit k r r' t b f lt a q =
      let m = fresh_mono t.account.id r.auth_retried_accounts r.pending_targets in
      let e = q.once in
      (
        record {
          same_limit = q.limit ∙ b.same_limit;
          within = omega (arith, b.within, q.attempts);
          counted = rw (q.connected, q.attempts, q.retried) (omega (arith, b.counted));
          renewals =
              rw (q.retried, q.pending, contains_self t.account.id r.auth_retried_accounts)
                (ground arith);
          distinct = rw q.retried (q.once, b.distinct);
          allowed = rw q.connected (((k, refl), a), b.allowed);
        },
        rw (q.retried, q.pending, contains_self t.account.id r.auth_retried_accounts)
            (ground arith),
      )

  -- `r` is the state once the target is taken from the queue.
  Effect-Left :
      (n limit k : ℕ) (r : Run) (t : Target) (s : Step)
      → Bounded n limit r
      → fresh r.auth_retried_accounts (t ∷ r.pending_targets) + length r.auth_retried_accounts ≤ n
      → Effect parse_dt r (visits k) t s
      → Left n limit
          (fresh r.auth_retried_accounts (t ∷ r.pending_targets) + length r.pending_targets + 1)
          s
  Effect-Left n limit k r t (next r') b f (inl q) =
      (Quiet-Bounded n limit r r' b q, rw (q.retried, q.pending) (omega arith))
  Effect-Left n limit k r t (exhausted r') b f (inl q) = Quiet-Bounded n limit r r' b q
  Effect-Left n limit k r t (finished o r') b f (inl q) = Quiet-Bounded n limit r r' b q
  Effect-Left n limit k r t (next r') b f (inr (lt, a, inl q)) =
      (Tried-Bounded n limit k r r' t b lt a q, rw (q.retried, q.pending) (omega arith))
  Effect-Left n limit k r t (next r') b f (inr (lt, a, inr q)) =
      Retried-Bounded n limit k r r' t b f lt a q
  Effect-Left n limit k r t (exhausted r') b f (inr (lt, a, q)) = absurd q
  Effect-Left n limit k r t (finished o r') b f (inr (lt, a, q)) =
      Tried-Bounded n limit k r r' t b lt a q

  pop_front-Bounded :
      (n limit : ℕ) (r r0 : Run) (t : Target)
      → pop_front r ≡ some (t, r0)
      → Bounded n limit r
      → Bounded n limit r0
        × (fresh r0.auth_retried_accounts (t ∷ r0.pending_targets) + length r0.auth_retried_accounts
            ≤ n)
        × (fresh r0.auth_retried_accounts (t ∷ r0.pending_targets) + length r0.pending_targets + 1
            ≡ fresh r.auth_retried_accounts r.pending_targets + length r.pending_targets)
  unfolding pop_front
  pop_front-Bounded n limit r r0 t p b =
      let q = popped_lem r r.pending_targets t r0 p in
      let same = ap (λ z. fresh r.auth_retried_accounts z) q.queue in
      let moved = ap (λ z. fresh z (t ∷ r0.pending_targets)) q.retried in
      let as_long = ap (λ (z : List String). length z) q.retried in
      (
        record {
          same_limit = q.limit ∙ b.same_limit;
          within = omega (arith, b.within, q.attempts);
          counted = rw (q.connected, q.attempts, q.retried) b.counted;
          renewals = omega (arith, b.renewals, same, moved, as_long);
          distinct = rw q.retried b.distinct;
          allowed = rw q.connected b.allowed;
        },
        omega (arith, b.renewals, same, moved, as_long),
        omega (arith, same, moved, ap (λ (z : List Target). length z) q.queue),
      )

  -- With enough fuel the loop ends, in a state that the bounds hold of.
  Ends : ℕ → ℕ → Option (Outcome × Run) → Type 0
  Ends n limit none = ⊥
  Ends n limit (some (o, r)) = Bounded n limit r

  steps-Ends :
      (n limit fuel k end : ℕ) (r : Run)
      → fresh r.auth_retried_accounts r.pending_targets + length r.pending_targets < fuel
      → Bounded n limit r
      → Ends n limit (steps to_rfc3339 parse_dt route allow_fallback fuel visits k end r)
  unfolding steps Ends
  steps-Ends n limit zero k end r f b = absurd (omega arith)
  steps-Ends n limit (suc fuel) k end r f b = elim (Option-cases (pop_front r)) [
    | inl e ↦ rw (e, Ends) b
    | inr ((t, r0), e) ↦
        let (b0, le, eq) = pop_front-Bounded n limit r r0 t e b in
        let c =
          Effect-Left n limit k r0 t
            (round to_rfc3339 parse_dt route allow_fallback r0 (visits k) t) b0 le
            (round-Effect to_rfc3339 parse_dt route allow_fallback r0 (visits k) t) in
        rw (e, Ends)
          (after n limit fuel k end
            (fresh r0.auth_retried_accounts (t ∷ r0.pending_targets)
              + length r0.pending_targets
              + 1)
            _ (omega arith) c (λ r' l b'. steps-Ends n limit fuel (k + 1) end r' l b'))
  ]
    where
      after :
          (n limit fuel k end w : ℕ) (s : Step)
          → w ≤ fuel
          → Left n limit w s
          → ((r' : Run)
              → fresh r'.auth_retried_accounts r'.pending_targets + length r'.pending_targets < fuel
              → Bounded n limit r'
              → Ends n limit
                  (steps to_rfc3339 parse_dt route allow_fallback fuel visits (k + 1) end r'))
          → Ends n limit (elim s [
            | next r' ↦ steps to_rfc3339 parse_dt route allow_fallback fuel visits (k + 1) end r'
            | exhausted r' ↦
                some (failed (unavailable to_rfc3339 parse_dt route allow_fallback r' end), r')
            | finished o r' ↦ some (o, r')
          ])
      after n limit fuel k end w (next r') le (b, l) ih = ih r' (omega arith) b
      after n limit fuel k end w (exhausted r') le b ih = b
      after n limit fuel k end w (finished o r') le b ih = b

  begin-Bounded :
      (targets : List Target) (rows : List AccountRow)
      → Bounded
          (length targets)
          (attempts_limit route (length targets))
          (begin to_rfc3339 parse_dt route allow_fallback targets rows)
  begin-Bounded targets rows = record {
    same_limit = refl;
    within = omega arith;
    counted = refl;
    renewals = omega (arith, fresh-le [] targets);
    distinct = tt;
    allowed = tt;
  }

  -- The attempt loop ends: twice as many rounds as there are targets, and one more, are enough whatever
  -- the gateway's other parts, the clock and the providers answer. At the end the request was sent at
  -- most five times, not counting one more time for each account whose credential was renewed; each
  -- account's credential was renewed at most once, and in all at most as often as there are targets.
  pub run_ends :
      (targets : List Target) (rows : List AccountRow) (end : ℕ)
      → (o : Outcome) × (r : Run) × (run to_rfc3339 parse_dt route allow_fallback targets rows
            visits end
          ≡ some (o, r))
        × (length r.connects ≤ 5 + length r.auth_retried_accounts)
        × (length r.auth_retried_accounts ≤ length targets)
        × Distinct r.auth_retried_accounts
  unfolding run Ends
  run_ends targets rows end =
      all_of (run to_rfc3339 parse_dt route allow_fallback targets rows visits end) (
        steps-Ends (length targets) (attempts_limit route (length targets))
          (length targets + length targets + 1) 0 end
          (begin to_rfc3339 parse_dt route allow_fallback targets rows)
          (omega (arith, fresh-le [] targets)) (begin-Bounded targets rows))
    where
      all_of :
          (x : Option (Outcome × Run))
          → Ends (length targets) (attempts_limit route (length targets)) x
          → (o : Outcome) × (r : Run) × (x ≡ some (o, r))
            × (length r.connects ≤ 5 + length r.auth_retried_accounts)
            × (length r.auth_retried_accounts ≤ length targets)
            × Distinct r.auth_retried_accounts
      all_of none b = absurd b
      all_of (some (o, r)) b = (
        o,
        r,
        refl,
        omega (arith, b.counted, b.within, attempts_limit-le route (length targets)),
        omega (arith, b.renewals),
        b.distinct,
      )

  -- The request is only ever sent to a target that every check of the round it is sent in passes: its
  -- account is healthy or a probe of it is due, the time is not over and some of it is left, the quota
  -- is not used up, there are a profile, an adapter and a secret, a strict target has the capabilities
  -- that are needed, the provider's breaker is neither open when it is asked nor when the attempt is
  -- reserved, nothing in the request is rejected for the target, and there is a permit.
  pub run-Admitted :
      (targets : List Target) (rows : List AccountRow) (end : ℕ) (o : Outcome) (r : Run)
      → run to_rfc3339 parse_dt route allow_fallback targets rows visits end ≡ some (o, r)
      → All (λ x. ((n : ℕ) × (visits n ≡ x.0)) × Admitted parse_dt x.0 x.1) r.connects
  unfolding run Ends
  run-Admitted targets rows end o r h =
      let n = length targets in
      allowed_of _
        (steps-Ends n (attempts_limit route n) (n + n + 1) 0 end
          (begin to_rfc3339 parse_dt route allow_fallback targets rows)
          (omega (arith, fresh-le [] targets)) (begin-Bounded targets rows))
        h
    where
      allowed_of :
          (x : Option (Outcome × Run))
          → Ends (length targets) (attempts_limit route (length targets)) x
          → x ≡ some (o, r)
          → All (λ x. ((n : ℕ) × (visits n ≡ x.0)) × Admitted parse_dt x.0 x.1) r.connects
      allowed_of none b e = absurd b
      allowed_of (some (o', r')) b e = let p : r ≡ r' = cc in rw p b.allowed
