-- ===== src/Limits.antt =====
-- src/limits.rs: the address allowlist of a virtual key. Addresses are the numbers that `u32::from`
-- and `u128::from` give. The list is what `allowed_ips` of src/db.rs reads from the key's row.
use kinetix.Base.{
  ℕ, zero, suc, ◌+◌, ◌-◌, ◌*◌, ◌/◌, ◌%◌, ◌^◌, Bool, true, false, Option, none, some, List, [], ◌∷◌,
  ltb, ◌==◌, if◌then◌else◌, any, Result, ok, err, String,
}
use kinetix.Types.{ProxyError, ErrorKind, new}
mod Prefix
mod Gate
mod Key
mod Patterns
mod Tests

pub data IpAddr : Type 0 where
  v4 v6 : ℕ → IpAddr

-- An exact address, an address with a prefix length, or a text that is neither.
pub data Entry : Type 0 where
  exact : IpAddr → Entry
  range : IpAddr → ℕ → Entry
  malformed : Entry

-- `x & y` on words of the given width, from the lowest bit.
unfoldable pub word_and : ℕ → ℕ → ℕ → ℕ
word_and zero x y = 0
word_and (suc w) x y = (x % 2) * (y % 2) + 2 * word_and w (x / 2) (y / 2)

-- `if prefix == 0 { 0 } else { MAX << (width - prefix) }`
unfoldable pub mask : ℕ → ℕ → ℕ
mask width prefix = if prefix == 0 then 0 else ((2 ^ width - 1) * 2 ^ (width - prefix)) % 2 ^ width

unfoldable pub word_contains : ℕ → ℕ → ℕ → ℕ → Bool
word_contains width net prefix ip =
    if ltb width prefix
    then false
    else word_and width net (mask width prefix) == word_and width ip (mask width prefix)

unfoldable pub cidr_contains : IpAddr → ℕ → IpAddr → Bool
cidr_contains (v4 n) prefix (v4 i) = word_contains 32 n prefix i
cidr_contains (v6 n) prefix (v6 i) = word_contains 128 n prefix i
cidr_contains (v4 n) prefix (v6 i) = false
cidr_contains (v6 n) prefix (v4 i) = false

unfoldable pub ip_eq : IpAddr → IpAddr → Bool
ip_eq (v4 n) (v4 i) = n == i
ip_eq (v6 n) (v6 i) = n == i
ip_eq (v4 n) (v6 i) = false
ip_eq (v6 n) (v4 i) = false

-- What `ip_matches` tests an address for, once the texts are parsed.
unfoldable pub entry_matches : IpAddr → Entry → Bool
entry_matches ip (range net prefix) = cidr_contains net prefix ip
entry_matches ip (exact e) = ip_eq e ip
entry_matches ip malformed = false

-- The standard library's functions on texts that an entry is read with: `trim`, `split_once('/')`,
-- `parse::<IpAddr>` and `parse::<u8>`.
pub record Parsers : Type 0 where
  pub trim : String → String
  pub split_once : String → Option (String × String)
  pub parse_ip : String → Option IpAddr
  pub parse_u8 : String → Option ℕ

unfoldable pub range_of : Option IpAddr → Option ℕ → Entry
range_of (some net) (some prefix) = range net prefix
range_of (some net) none = malformed
range_of none prefix = malformed

unfoldable pub exact_of : Option IpAddr → Entry
exact_of (some e) = exact e
exact_of none = malformed

unfoldable pub parse_parts : Parsers → String → Option (String × String) → Entry
parse_parts p entry none = exact_of (p.parse_ip entry)
parse_parts p entry (some (net, prefix)) =
    range_of (p.parse_ip (p.trim net)) (p.parse_u8 (p.trim prefix))

unfoldable pub read_entry : Parsers → String → Entry
read_entry p entry = parse_parts p entry (p.split_once entry)

unfoldable pub ip_matches : Parsers → IpAddr → String → Bool
ip_matches p ip entry = entry_matches ip (read_entry p entry)

unfoldable pub ip_allowed : Parsers → IpAddr → List String → Bool
ip_allowed p ip allow = any (λ entry. ip_matches p ip (p.trim entry)) allow

unfoldable pub enforce_ip : Parsers → List String → Option IpAddr → Result ProxyError (Unit {0})
enforce_ip p [] ip = ok tt
enforce_ip p (e ∷ es) (some ip) =
    if ip_allowed p ip (e ∷ es) then ok tt else err (new ErrorKind.forbidden)
enforce_ip p (e ∷ es) none = err (new ErrorKind.forbidden)
