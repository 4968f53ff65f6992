-- ===== src/RateLimit.antt =====
-- src/ratelimit.rs: the limiter of requests per client address. An address is the text that keys
-- the map; a call of `check` is one step, with the clock as an argument.
pub mod Windows
mod Tests
use kinetix.Base.{
  ℕ, ◌+◌, ◌-◌, ◌*◌, ◌/◌, max, Bool, true, false, Option, none, some, List, [], ◌∷◌, String, str_eq,
  ltb, leb, ◌==◌, if◌then◌else◌, length, get, filter, seconds, saturating_add, wrapping_add, Result,
  ok, err,
}

pub record Window : Type 0 where
  pub started : ℕ
  pub count : ℕ

pub record IpLimiter : Type 0 where
  pub limit : ℕ
  pub map : List (String × Window)
  pub limited : ℕ

abbrev pub max_entries : ℕ
max_entries = 100000

abbrev pub window : ℕ
window = seconds 60

abbrev pub new : ℕ → IpLimiter
new limit_per_min = record { limit = limit_per_min; map = []; limited = 0 }

abbrev pub enabled : IpLimiter → Bool
enabled l = ltb 0 l.limit

abbrev pub limited_total : IpLimiter → ℕ
limited_total l = l.limited

unfoldable pub sweep : List (String × Window) → ℕ → List (String × Window)
unfolding filter
sweep m now = filter (λ e. ltb (now - e.1.started) (window * 2)) m

unfoldable pub put : String → Window → List (String × Window) → List (String × Window)
put ip w [] = (ip, w) ∷ []
put ip w ((j, v) ∷ m) = if str_eq j ip then (j, w) ∷ m else (j, v) ∷ put ip w m

-- `entry(ip).or_insert(..)`, started again if it has expired.
abbrev pub current_window : Option Window → ℕ → Window
current_window none now = record { started = now; count = 0 }
current_window (some w) now =
    if leb window (now - w.started) then record { started = now; count = 0 } else w

-- The seconds until the window ends, at least one.
abbrev pub retry_secs : Window → ℕ → ℕ
retry_secs w now = max (60 - (now - w.started) / seconds 1) 1

-- The window that counts the request is stored; beyond the limit the request is refused.
unfoldable pub answer :
    IpLimiter → String → List (String × Window) → Window → ℕ → IpLimiter × Result ℕ (Unit {0})
unfolding put
answer l ip m counted now =
    let l' = record l { map = put ip counted m } in
    if ltb l.limit counted.count
    then (record l' { limited = wrapping_add l.limited 1 }, err (retry_secs counted now))
    else (l', ok tt)

abbrev pub count_one : Window → Window
count_one w = record w { count = wrapping_add w.count 1 }

abbrev pub swept : List (String × Window) → ℕ → List (String × Window)
swept m now = if ltb max_entries (length m) then sweep m now else m

-- `check` of an enabled limiter at a known address.
unfoldable pub check_ip : IpLimiter → String → ℕ → IpLimiter × Result ℕ (Unit {0})
unfolding answer sweep get
check_ip l ip now =
    let m = swept l.map now in answer l ip m (count_one (current_window (get ip m) now)) now

unfoldable pub check : IpLimiter → Option String → ℕ → IpLimiter × Result ℕ (Unit {0})
unfolding check_ip
check l none now = (l, ok tt)
check l (some ip) now = if enabled l then check_ip l ip now else (l, ok tt)
