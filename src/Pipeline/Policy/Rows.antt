-- ===== src/Pipeline/Policy/Rows.antt =====
-- src/pipeline.rs, `handle_key_failure`: how long an account is out of service after a failure.
use kinetix.Base.{
  ℕ, ◌+◌, ◌<◌, ◌≡◌, refl, Bool, true, false, Option, some, none, unwrap_or, String, min, seconds,
  arith, Bool-cases, inl, inr, leb,
}
use kinetix.Types.{
  FailureKind, rate_limit, quota_exhausted, auth_error, target_error, is_account_scoped,
}
use kinetix.Pool.{
  AccountRow, is_available, effective_status, is_healthy, parse, cooldown, exhausted, disabled,
  healthy, circuit_open, AccountStatus, status_of, record_failure, mark_rate_limited,
  mark_exhausted, set_account_status,
}
use kinetix.Pipeline.Policy.{
  UpstreamFailure, handle_key_failure, circuit_threshold, circuit_open_secs,
}

-- At the time `t` the wait that the failure asks for is not over; an account whose credential was refused
-- waits for ever.
abbrev pub Waits : FailureKind → UpstreamFailure → ℕ → ℕ → ℕ → Type 0
Waits rate_limit f window now t = t < now + seconds (min (unwrap_or f.retry_after_secs 30) 3600)
Waits quota_exhausted f window now t = t < unwrap_or f.quota_reset_at (now + seconds window)
Waits auth_error f window now t = Unit {0}
Waits _ f window now t = ⊥

-- Not held back by a cooldown, a quota or an operator.
abbrev is_on : AccountStatus → Bool
is_on healthy = true
is_on circuit_open = true
is_on _ = false

module _ (to_rfc3339 : ℕ → String) (parse_dt : String → Option ℕ)
    (parse-rfc3339 : (t : ℕ) → parse_dt (to_rfc3339 t) ≡ some t) where
  held :
      (c : AccountStatus) (a a' : AccountRow) (t : ℕ)
      → a'.cooldown_until ≡ a.cooldown_until
      → a'.quota_reset_at ≡ a.quota_reset_at
      → is_on (status_of parse_dt a c t) ≡ false
      → is_healthy parse_dt (status_of parse_dt a' c t) ≡ false
  held healthy a a' t p q h = absurd (ground arith)
  held circuit_open a a' t p q h = absurd (ground arith)
  held c a a' t p q h = ground arith

  -- Counting the failure does not bring an account back.
  counted_stays :
      (a : AccountRow) (threshold open_secs now t : ℕ)
      → is_on (effective_status parse_dt a t) ≡ false
      → is_available parse_dt (record_failure to_rfc3339 a threshold open_secs now).0 t ≡ false
  unfolding record_failure is_available effective_status
  counted_stays a threshold open_secs now t h =
      let counted : AccountRow = record a { consecutive_failures = a.consecutive_failures + 1 } in
      let opened : AccountRow = record counted {
        circuit_open_until = some (to_rfc3339 (now + seconds open_secs));
      } in
      elim (Bool-cases (leb threshold (a.consecutive_failures + 1))) [
        | inl e ↦ rw e (held (parse a.status) a opened t refl refl h)
        | inr e ↦ rw e (held (parse a.status) a counted t refl refl h)
      ]

  rate_limited_lem :
      (a : AccountRow) (secs now t : ℕ)
      → t < now + seconds secs
      → effective_status parse_dt (mark_rate_limited to_rfc3339 a secs now) t ≡ cooldown
  unfolding mark_rate_limited effective_status parse set_account_status
  rate_limited_lem a secs now t h = ground (arith, parse-rfc3339 (now + seconds secs))

  exhausted_lem :
      (a : AccountRow) (reset : Option ℕ) (window now t : ℕ)
      → t < unwrap_or reset (now + seconds window)
      → effective_status parse_dt (mark_exhausted to_rfc3339 a reset window now) t ≡ exhausted
  unfolding mark_exhausted effective_status parse set_account_status
  exhausted_lem a reset window now t h =
      ground (arith, parse-rfc3339 (unwrap_or reset (now + seconds window)))

  disabled_lem :
      (a : AccountRow) (t : ℕ)
      → effective_status parse_dt (set_account_status a "disabled" none none) t ≡ disabled
  unfolding effective_status parse set_account_status
  disabled_lem a t = refl

  held_by_kind :
      (k : FailureKind) (a : AccountRow) (f : UpstreamFailure) (window now t : ℕ)
      → f.kind ≡ k
      → Waits k f window now t
      → is_available parse_dt (handle_key_failure to_rfc3339 a f window now) t ≡ false
  unfolding handle_key_failure is_account_scoped
  held_by_kind rate_limit a f window now t e w =
      let secs = min (unwrap_or f.retry_after_secs 30) 3600 in
      simp e (
        counted_stays (mark_rate_limited to_rfc3339 a secs now) circuit_threshold circuit_open_secs
          now t (rw (rate_limited_lem a secs now t w) refl))
  held_by_kind quota_exhausted a f window now t e w = simp e (
      counted_stays (mark_exhausted to_rfc3339 a f.quota_reset_at window now) circuit_threshold
        circuit_open_secs now t (rw (exhausted_lem a f.quota_reset_at window now t w) refl))
  held_by_kind auth_error a f window now t e w = simp e (
      counted_stays (set_account_status a "disabled" none none) circuit_threshold circuit_open_secs
        now t (rw (disabled_lem a t) refl))
  held_by_kind target_error a f window now t e w = absurd w
  held_by_kind k a f window now t e w = absurd w

  -- An account whose failure was a rate limit, an exhausted quota or a refused credential is out of
  -- service from then on until the wait is over: the seconds that the provider names (30 if none, 3600 at
  -- most), the reset of the quota (or its window), or for ever. It is so for every later reading of the
  -- clock, where times are read back as they are written.
  pub handle_key_failure-is_available :
      (a : AccountRow) (f : UpstreamFailure) (window now t : ℕ)
      → Waits f.kind f window now t
      → is_available parse_dt (handle_key_failure to_rfc3339 a f window now) t ≡ false
  handle_key_failure-is_available a f window now t w = held_by_kind f.kind a f window now t refl w
