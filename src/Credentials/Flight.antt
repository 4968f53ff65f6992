-- ===== src/Credentials/Flight.antt =====
-- src/credential_refresh.rs: callers that want the same credential renewed at the same time.
use kinetix.Base.{
  ℕ, ◌≡◌, ◌≢◌, refl, arith, sym, ◌∙◌, ap, true, false, Option, none, some, String, List, [], ◌∷◌,
  ◌==◌, wrapping_add, ==_iff,
}
use kinetix.Base.Keyed.{insert, lookup-insert}
use kinetix.Credentials.{CredentialStrategy, CredentialKey, credential_key_eq}
use kinetix.Credentials.Coordinator.{
  claim_due, Answer, RotationGate, RefreshCoordinator, gate, Schedules,
}
use kinetix.Credentials.Rotation.{
  resolve, Called, shared_answer, enter_gate, auth_rotation, rotate_after_auth_error,
}
use kinetix.Credentials.Deadlines.{same_key_refl}

module _ (parse_dt : String → Option ℕ) (digest : String → String) {S : Type 0}
    (strategy : CredentialStrategy S) (key : CredentialKey) where
  -- Whose turn it is at the gate: a caller that waited, with the secret that failed and the time; or
  -- another request that resolves the credential. Between turns due renewals may be claimed.
  pub data Turn : Type 0 where
    waiter : String → ℕ → Turn
    request claims : ℕ → Turn

  -- The waiters have all observed the same generation. Their answers, and the state after all turns.
  unfoldable pub turns :
      RefreshCoordinator → ℕ → List Turn → S → List Answer × S × RefreshCoordinator
  turns c observed [] s = ([], s, c)
  turns c observed (waiter failed_secret clock ∷ rest) s =
      let (answer, s', c') =
        rotate_after_auth_error parse_dt digest strategy key c observed failed_secret s clock in
      let (answers, s'', c'') = turns c' observed rest s' in (answer ∷ answers, s'', c'')
  turns c observed (request now ∷ rest) s =
      let (answer, s', schedules) = resolve parse_dt digest strategy key c.schedules s now in
      turns (record c { schedules = schedules }) observed rest s'
  turns c observed (claims now ∷ rest) s =
      turns (record c { schedules = (claim_due c.schedules now).1 }) observed rest s

  abbrev pub others : List Turn → List Turn
  others [] = []
  others (waiter failed_secret clock ∷ rest) = others rest
  others (request now ∷ rest) = request now ∷ others rest
  others (claims now ∷ rest) = claims now ∷ others rest

  abbrev pub copies : Answer → List Turn → List Answer
  copies answer [] = []
  copies answer (waiter failed_secret clock ∷ rest) = answer ∷ copies answer rest
  copies answer (request now ∷ rest) = copies answer rest
  copies answer (claims now ∷ rest) = copies answer rest

  -- The gate was passed since `observed`, with this answer.
  record Passed (observed : ℕ) (answer : Answer) (c : RefreshCoordinator) : Type 0 where
    pub newer : (gate c key).generation ≢ observed
    pub answered : (gate c key).last_auth_result ≡ some answer

  turns-Passed :
      (c : RefreshCoordinator) (observed : ℕ) (answer : Answer) (rest : List Turn) (s : S)
      → Passed observed answer c
      → turns c observed rest s ≡ (
        copies answer rest,
        (turns c observed (others rest) s).1,
        (turns c observed (others rest) s).2,
      )
  unfolding turns rotate_after_auth_error enter_gate shared_answer gate
  turns-Passed c observed answer [] s p = refl
  turns-Passed c observed answer (waiter failed_secret clock ∷ rest) s p =
      let different : ((gate c key).generation == observed) ≡ false = ground (arith, p.newer) in
      rw (different, p.answered, turns-Passed c observed answer rest s p) refl
  turns-Passed c observed answer (request now ∷ rest) s p =
      let (a, s', schedules) = resolve parse_dt digest strategy key c.schedules s now in
      turns-Passed (record c { schedules = schedules }) observed answer rest s'
        (record { newer = p.newer; answered = p.answered })
  turns-Passed c observed answer (claims now ∷ rest) s p =
      turns-Passed (record c { schedules = (claim_due c.schedules now).1 }) observed answer rest s
        (record { newer = p.newer; answered = p.answered })

  gate-insert :
      (schedules : Schedules) (gates : List (CredentialKey × RotationGate)) (g : RotationGate)
      → gate (record { schedules = schedules; gates = insert key g gates }) key ≡ g
  unfolding gate
  gate-insert schedules gates g = rw (lookup-insert key key g gates, same_key_refl key) refl

  wrapping_add-newer : (n : ℕ) → wrapping_add n 1 ≢ n
  unfolding wrapping_add
  wrapping_add-newer n e = absurd (omega (arith, e))

  enter_gate-Passed :
      (c : RefreshCoordinator) (observed : ℕ) (call : Called S) (s : S)
      → (gate c key).generation ≡ observed
      → let first = enter_gate parse_dt digest strategy key c (gate c key) call none s in
        Passed observed first.0 first.2
  unfolding enter_gate
  enter_gate-Passed c observed (answer, s', schedules) s g =
      let inserted = gate-insert schedules c.gates _ in
      record {
        newer =
            λ e. wrapping_add-newer observed (rw g at (ap (λ x. x.generation) (sym inserted) ∙ e));
        answered = ap (λ x. x.last_auth_result) inserted;
      }

  first-Passed :
      (c : RefreshCoordinator) (observed : ℕ) (failed_secret : String) (s : S) (clock : ℕ)
      → (gate c key).generation ≡ observed
      → let first =
          rotate_after_auth_error parse_dt digest strategy key c observed failed_secret s clock in
        Passed observed first.0 first.2
  unfolding rotate_after_auth_error shared_answer
  first-Passed c observed failed_secret s clock g =
      let same : ((gate c key).generation == observed) ≡ true = (==_iff _ _).1 g in
      rw same (
        enter_gate-Passed c observed
          (auth_rotation parse_dt digest strategy key c.schedules failed_secret clock
            (strategy.resolve s))
          s g)

  -- Of the callers that saw the same generation, only the first calls the strategy. The others get its
  -- answer, and the strategy and the coordinator end as if they had not called: whatever other requests
  -- resolve the credential and whatever renewals are claimed in between, as long as no scheduled
  -- renewal of the account has its turn before them and the account is not forgotten.
  pub single_flight :
      (c : RefreshCoordinator) (observed : ℕ) (failed_secret : String) (s : S) (clock : ℕ)
      (rest : List Turn)
      → (gate c key).generation ≡ observed
      → let (answer, s', c') =
          rotate_after_auth_error parse_dt digest strategy key c observed failed_secret s clock in
        turns c observed (waiter failed_secret clock ∷ rest) s ≡ (
          answer ∷ copies answer rest,
          (turns c' observed (others rest) s').1,
          (turns c' observed (others rest) s').2,
        )
  unfolding turns
  single_flight c observed failed_secret s clock rest g =
      let first =
        rotate_after_auth_error parse_dt digest strategy key c observed failed_secret s clock in
      rw
        (turns-Passed first.2 observed first.0 rest first.1
          (first-Passed c observed failed_secret s clock g))
        refl
