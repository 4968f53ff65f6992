-- ===== src/Credentials/Claims.antt =====
-- src/credential_refresh.rs: what `claim_due` hands out.
use kinetix.Base.{
  ℕ, ◌+◌, ◌≤◌, ◌≡◌, refl, arith, true, false, Option, none, some, [], ◌∷◌, leb, seconds,
  is_some_and, and_then,
}
use kinetix.Base.Keyed.{lookup, IsDistinct, contains}
use kinetix.Credentials.{
  CredentialKey, credential_key_eq, same_key_iff, LeaseSchedule, claim_grace_secs,
}
use kinetix.Credentials.Coordinator.{Schedules, is_due, claimed, claim_due}

pub lookup-claim_due :
    (k : CredentialKey) (s : Schedules) (now : ℕ)
    → lookup k (claim_due s now).1 ≡ and_then (lookup k s) (λ x. some (claimed x now))
unfolding claim_due lookup
lookup-claim_due k [] now = refl
lookup-claim_due k ((j, x) ∷ s) now = ground (arith, lookup-claim_due k s now)

contains-claim_due_absent :
    (k : CredentialKey) (s : Schedules) (now : ℕ)
    → lookup k s ≡ none
    → contains (claim_due s now).0 k ≡ false
unfolding claim_due lookup
contains-claim_due_absent k [] now h = refl
contains-claim_due_absent k ((j, x) ∷ s) now h = ground (arith, contains-claim_due_absent k s now)

claim_due-IsDistinct : (s : Schedules) (now : ℕ) → IsDistinct s → IsDistinct (claim_due s now).1
unfolding claim_due
claim_due-IsDistinct [] now d = tt
claim_due-IsDistinct ((j, x) ∷ s) now d =
    (rw (lookup-claim_due j s now, d.0) refl, claim_due-IsDistinct s now d.1)

-- An account is handed out exactly if its schedule is due.
pub contains-claim_due :
    (k : CredentialKey) (s : Schedules) (now : ℕ)
    → IsDistinct s
    → contains (claim_due s now).0 k ≡ is_some_and (lookup k s) (λ x. is_due x now)
unfolding claim_due lookup
contains-claim_due k [] now d = refl
contains-claim_due k ((j, x) ∷ s) now d =
    ground (arith, same_key_iff j k, contains-claim_due k s now, contains-claim_due_absent j s now)

claimed-is_due :
    (x : LeaseSchedule) (now later : ℕ)
    → now ≤ later
    → is_due x now ≡ true
    → is_due (claimed x now) later ≡ leb (now + seconds claim_grace_secs) later
unfolding is_due claimed
claimed-is_due x now later l h = rw h (ground (arith, h, l))

-- A renewal that was handed out is handed out again only a minute later, and then it is, if its
-- schedule has not been replaced in between.
pub claimed_once :
    (k : CredentialKey) (s : Schedules) (now later : ℕ)
    → IsDistinct s
    → now ≤ later
    → contains (claim_due s now).0 k ≡ true
    → contains (claim_due (claim_due s now).1 later).0 k
      ≡ leb (now + seconds claim_grace_secs) later
claimed_once k s now later d l h =
    rw
      (
        contains-claim_due k (claim_due s now).1 later (claim_due-IsDistinct s now d),
        lookup-claim_due k s now,
      )
      (again (lookup k s) (rw⁻¹ (contains-claim_due k s now d) h))
  where
    again :
        (o : Option LeaseSchedule)
        → is_some_and o (λ x. is_due x now) ≡ true
        → is_some_and (and_then o (λ x. some (claimed x now))) (λ x. is_due x later)
          ≡ leb (now + seconds claim_grace_secs) later
    again none e = absurd (ground (arith, e))
    again (some x) e = claimed-is_due x now later l e
