-- ===== src/Pool/Tests.antt =====
-- An account, and the theorems at it.
use kinetix.Base.{
  ℕ, ◌≡◌, refl, true, none, some, [], ◌∷◌, String, Option, str_eq, if◌then◌else◌, seconds,
}
use kinetix.Pool.{AccountRow, parse, should_probe, recovery, soonest_from, soonest_recovery}

-- A parser of the times of these tests.
abbrev parse_dt : String → Option ℕ
parse_dt s = if str_eq s "early" then some 5 else if str_eq s "late" then some 9 else none

abbrev account : AccountRow
account = record {
  id = "a";
  status = "healthy";
  cooldown_until = none;
  quota_reset_at = none;
  last_probe_at = none;
  circuit_open_until = some "early";
  consecutive_failures = 3;
}

abbrev limited : AccountRow
limited = record account { status = "cooldown"; cooldown_until = some "late" }

account_probed : should_probe parse_dt account 7 8 ≡ true
unfolding should_probe parse
account_probed = refl

soonest : soonest_recovery parse_dt (limited ∷ account ∷ []) ≡ some 5
unfolding soonest_recovery soonest_from recovery parse
soonest = refl

-- A clock of the tests: the one time that is stored is forty seconds.
abbrev to_text : ℕ → String
to_text t = "stored"

abbrev from_text : String → Option ℕ
from_text s = if str_eq s "stored" then some (seconds 40) else none

abbrev steady : AccountRow
steady = record account { circuit_open_until = none; consecutive_failures = 0 }
