-- ===== src/Pool/Health.antt =====
-- Which accounts are available, and when a circuit may be probed.
use kinetix.Base.{
  ℕ, ◌+◌, ◌≤◌, ◌<◌, ◌≡◌, refl, ◌∙◌, Bool, true, false, ◌&&◌, not, Option, none, some, is_some,
  and_then, is_some_and, List, [], ◌∷◌, String, ltb, leb, if◌then◌else◌, length, seconds, arith,
  Bool-cases, inl, inr,
}
use kinetix.Pool.{
  AccountRow, AccountStatus, healthy, cooldown, exhausted, disabled, circuit_open, parse, as_str,
  effective_status, status_of, should_probe, is_available, is_probeable, mark_rate_limited,
  record_failure, gap_passed,
}

-- A status that is stored is read back.
pub parse-as_str : (s : AccountStatus) → parse (as_str s) ≡ s
unfolding parse
parse-as_str healthy = refl
parse-as_str cooldown = refl
parse-as_str exhausted = refl
parse-as_str disabled = refl
parse-as_str circuit_open = refl

module _ (parse_dt : String → Option ℕ) where
  probed-status :
      (a : AccountRow) (s : AccountStatus) (now : ℕ)
      → is_probeable parse_dt s ≡ true
      → is_some a.circuit_open_until ≡ true
      → status_of parse_dt a s now ≡ circuit_open
  probed-status a healthy now p q = ground (arith, q)
  probed-status a circuit_open now p q = ground (arith, q)
  probed-status a cooldown now p q = cc
  probed-status a exhausted now p q = cc
  probed-status a disabled now p q = cc

  all_three : (x y z : Bool) → x && (y && z) ≡ true → (x ≡ true) × (y ≡ true) × (z ≡ true)
  all_three true true true h = (refl, refl, refl)
  all_three true true false h = cc
  all_three true false z h = cc
  all_three false y z h = cc

  passed-some :
      (o : Option ℕ) (now : ℕ)
      → is_some_and o (λ u. not (ltb now u)) ≡ true
      → (until : ℕ) × (o ≡ some until) × (until ≤ now)
  passed-some none now h = cc
  passed-some (some u) now h = (u, refl, ground (arith, h))

  is_some-parsed :
      (o : Option String) (p : ℕ → Bool)
      → is_some_and (and_then o parse_dt) p ≡ true
      → is_some o ≡ true
  is_some-parsed none p h = cc
  is_some-parsed (some s) p h = refl

  -- Only a circuit is probed: an account that is probed is neither disabled nor cooling down nor
  -- exhausted, its circuit counts as open, the circuit's time has passed, and the last probe, if it is
  -- known, was at least two seconds before.
  pub should_probe-circuit_open :
      (a : AccountRow) (now later : ℕ)
      → should_probe parse_dt a now later ≡ true
      → (effective_status parse_dt a now ≡ circuit_open)
        × ((until : ℕ) × (and_then a.circuit_open_until parse_dt ≡ some until) × (until ≤ now))
        × (gap_passed parse_dt (and_then a.last_probe_at parse_dt) later ≡ true)
  unfolding should_probe effective_status
  should_probe-circuit_open a now later h =
      let (p, q, r) = all_three (is_probeable parse_dt (parse a.status)) _ _ h in
      (
        probed-status a (parse a.status) now p (is_some-parsed a.circuit_open_until _ q),
        passed-some (and_then a.circuit_open_until parse_dt) now q,
        r,
      )

  module _ (to_rfc3339 : ℕ → String) where
    -- An account that is rate-limited is cooling down until its cooldown ends, and from then on it is
    -- what its circuit makes of it. (The stored time is read back.)
    pub effective_status-mark_rate_limited :
        (a : AccountRow) (secs now t : ℕ)
        → parse_dt (to_rfc3339 (now + seconds secs)) ≡ some (now + seconds secs)
        → effective_status parse_dt (mark_rate_limited to_rfc3339 a secs now) t ≡ (
            if ltb t (now + seconds secs)
            then cooldown
            else if is_some a.circuit_open_until
            then circuit_open
            else healthy)
    unfolding effective_status mark_rate_limited parse
    effective_status-mark_rate_limited a secs now t reads = ground (arith, reads)

    -- Failures in a row, at the given times.
    unfoldable pub fail_all : AccountRow → ℕ → ℕ → List ℕ → AccountRow
    fail_all a threshold open_secs [] = a
    fail_all a threshold open_secs (now ∷ ts) =
        fail_all (record_failure to_rfc3339 a threshold open_secs now).0 threshold open_secs ts

    fail_all-status :
        (a : AccountRow) (threshold open_secs : ℕ) (ts : List ℕ)
        → (fail_all a threshold open_secs ts).status ≡ a.status
    unfolding fail_all record_failure
    fail_all-status a threshold open_secs [] = refl
    fail_all-status a threshold open_secs (now ∷ ts) =
        fail_all-status (record_failure to_rfc3339 a threshold open_secs now).0 threshold open_secs
          ts
        ∙ ground arith

    stays_open :
        (a : AccountRow) (threshold open_secs : ℕ) (ts : List ℕ)
        → is_some a.circuit_open_until ≡ true
        → is_some (fail_all a threshold open_secs ts).circuit_open_until ≡ true
    unfolding fail_all record_failure
    stays_open a threshold open_secs [] h = h
    stays_open a threshold open_secs (now ∷ ts) h =
        stays_open (record_failure to_rfc3339 a threshold open_secs now).0 threshold open_secs ts
          (ground (arith, h))

    fail_all-open :
        (a : AccountRow) (threshold open_secs : ℕ) (ts : List ℕ)
        → a.consecutive_failures < threshold
        → a.circuit_open_until ≡ none
        → is_some (fail_all a threshold open_secs ts).circuit_open_until
          ≡ leb threshold (a.consecutive_failures + length ts)
    unfolding fail_all record_failure
    fail_all-open a threshold open_secs [] h e = ground (arith, e)
    fail_all-open a threshold open_secs (now ∷ ts) h e =
        elim (Bool-cases (leb threshold (a.consecutive_failures + 1))) [
          | inl k ↦
              stays_open (record_failure to_rfc3339 a threshold open_secs now).0 threshold open_secs
                ts (ground (arith, k))
              ∙ ground (arith, k)
          | inr k ↦
              fail_all-open (record_failure to_rfc3339 a threshold open_secs now).0 threshold
                open_secs ts (ground (arith, k)) (ground (arith, k, e))
              ∙ ground (arith, k)
        ]

    -- An account that is healthy and has not failed stays available for fewer failures in a row than
    -- the threshold, and from the threshold on it is not: its circuit is open, however much later.
    pub fail_all-available :
        (a : AccountRow) (threshold open_secs t : ℕ) (ts : List ℕ)
        → a.status ≡ "healthy"
        → a.consecutive_failures ≡ 0
        → a.circuit_open_until ≡ none
        → 0 < threshold
        → is_available parse_dt (fail_all a threshold open_secs ts) t ≡ ltb (length ts) threshold
    unfolding is_available effective_status parse
    fail_all-available a threshold open_secs t ts s n e p =
        let same = fail_all-status a threshold open_secs ts ∙ s in
        let open_now = fail_all-open a threshold open_secs ts (omega arith) e in
        rw same (ground (arith, open_now, n))
