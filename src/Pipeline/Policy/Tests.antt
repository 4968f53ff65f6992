-- ===== src/Pipeline/Policy/Tests.antt =====
-- An account after a rate limit, where times are written in unary.
use kinetix.Base.{ℕ, zero, suc, ◌≡◌, refl, false, Option, none, some, String, arith}
use kinetix.Types.{rate_limit}
use kinetix.Pool.{AccountRow, is_available}
use kinetix.Pipeline.Policy.{UpstreamFailure, handle_key_failure}
use kinetix.Pipeline.Policy.Rows.{handle_key_failure-is_available}

abbrev write : ℕ → String
write zero = ""
write (suc n) = String.◌∷◌ "." (write n)

abbrev read : String → Option ℕ
read String.[] = some 0
read (String.◌∷◌ c s) = elim (read s) [ none ↦ none | some n ↦ some (suc n) ]

read-write : (t : ℕ) → read (write t) ≡ some t
read-write zero = refl
read-write (suc t) = rw (read-write t) refl

abbrev account : AccountRow
account = record {
  id = "a";
  status = "healthy";
  cooldown_until = none;
  quota_reset_at = none;
  last_probe_at = none;
  circuit_open_until = none;
  consecutive_failures = 0;
}

abbrev limited : UpstreamFailure
limited = record {
  kind = rate_limit;
  status = some 429;
  retry_after_secs = some 2;
  quota_reset_at = none;
}

handle_key_failure-is_available_example :
    is_available read (handle_key_failure write account limited 60 0) 1999999999 ≡ false
handle_key_failure-is_available_example =
    handle_key_failure-is_available write read read-write account limited 60 0 1999999999
      (omega arith)
