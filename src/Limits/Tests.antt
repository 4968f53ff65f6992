-- ===== src/Limits/Tests.antt =====
-- Two networks and an address in each, and a key for one family of models.
use kinetix.Base.{
  ℕ, ◌*◌, ◌+◌, ◌^◌, ◌≡◌, refl, true, false, Option, some, none, List, [], ◌∷◌, ok, err, String,
  str_eq, ◌<◌, ◌≢◌, In, and_then, if◌then◌else◌,
}
use kinetix.Types.{new, ErrorKind}
use kinetix.Limits.{
  IpAddr, v4, v6, Parsers, word_and, mask, word_contains, cidr_contains, ip_eq, entry_matches,
  range_of, exact_of, parse_parts, read_entry, ip_matches, ip_allowed, enforce_ip,
}
use kinetix.Limits.Key.{KeyPolicy, validate, is_expired, permits_model, permits_by, strip_star}
use kinetix.Limits.Patterns.{Matches, validate-Matches}

-- 10.0.0.0, 10.1.2.3, 11.1.2.3 and 203.0.113.7
abbrev ten : IpAddr
ten = v4 167772160

abbrev inside : IpAddr
inside = v4 167838211

abbrev outside : IpAddr
outside = v4 184615427

abbrev parse_ip : String → Option IpAddr
parse_ip s =
    if str_eq s "10.0.0.0"
    then some ten
    else if str_eq s "203.0.113.7"
    then some (v4 3405803783)
    else none

-- Texts without spaces.
abbrev parsers : Parsers
parsers = record {
  trim = λ s. s;
  split_once = λ s. if str_eq s "10.0.0.0/8" then some ("10.0.0.0", "8") else none;
  parse_ip = parse_ip;
  parse_u8 = λ s. if str_eq s "8" then some 8 else none;
}

abbrev listed : List String
listed = "bad-entry" ∷ "10.0.0.0/8" ∷ "203.0.113.7" ∷ []

ten_holds_it : cidr_contains ten 8 inside ≡ true
unfolding cidr_contains word_contains mask word_and
ten_holds_it = refl

ten_lacks_it : cidr_contains ten 8 outside ≡ false
unfolding cidr_contains word_contains mask word_and
ten_lacks_it = refl

-- 2001:db8::1 and 2001:db9::1, in 2001:db8::/32
six_holds_it : cidr_contains (v6 (536939960 * 2 ^ 96)) 32 (v6 (536939960 * 2 ^ 96 + 1)) ≡ true
unfolding cidr_contains word_contains mask word_and
six_holds_it = refl

all_addresses : cidr_contains (v4 0) 0 outside ≡ true
unfolding cidr_contains word_contains mask word_and
all_addresses = refl

unknown_address : enforce_ip parsers listed none ≡ err (new ErrorKind.forbidden)
unfolding enforce_ip
unknown_address = refl

refused_request : enforce_ip parsers listed (some outside) ≡ err (new ErrorKind.forbidden)
unfolding enforce_ip ip_allowed ip_matches entry_matches read_entry parse_parts range_of exact_of
    cidr_contains word_contains mask word_and ip_eq
refused_request = refl

-- A key for the models of one family, until the time 50.
abbrev policy : KeyPolicy
policy = record {
  status = "active";
  expires_at = some "late";
  allowed_models = "gpt-4" ∷ "claude-*" ∷ [];
}

abbrev parse_dt : String → Option ℕ
parse_dt s = if str_eq s "late" then some 50 else none

policy_passes : validate parse_dt policy "claude-opus" 49 ≡ ok tt
unfolding validate is_expired permits_model permits_by strip_star
policy_passes = refl

policy_expires : validate parse_dt policy "claude-opus" 50 ≡ err (new ErrorKind.unauthorized)
unfolding validate is_expired
policy_expires = refl

other_model : validate parse_dt policy "gpt-4o" 49 ≡ err (new ErrorKind.forbidden)
unfolding validate is_expired permits_model permits_by strip_star
other_model = refl

validate-Matches_example :
    (policy.status ≢ "revoked")
    × (policy.status ≢ "disabled")
    × ((t : ℕ) → and_then policy.expires_at parse_dt ≡ some t → 49 < t)
    × ((m : String) × In m policy.allowed_models × Matches "claude-opus" m)
validate-Matches_example = validate-Matches parse_dt policy "claude-opus" 49 policy_passes
