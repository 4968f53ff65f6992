-- ===== src/Limits/Gate.antt =====
-- src/limits.rs: an address is admitted by an entry of the list, or not at all.
use kinetix.Base.{
  ℕ, ◌-◌, ◌/◌, ◌^◌, ◌≤◌, ◌<◌, ◌≡◌, arith, true, ◌↔◌, Option, none, some, List, In, String,
}
use kinetix.Limits.{
  IpAddr, v4, v6, Entry, exact, range, malformed, cidr_contains, Parsers, read_entry,
}
use kinetix.Limits.Prefix.{word_contains_iff}

-- A number of as many bits as the family's addresses have.
abbrev pub IsAddr : IpAddr → Type 0
IsAddr (v4 n) = n < 2 ^ 32
IsAddr (v6 n) = n < 2 ^ 128

abbrev pub IsKnown : Option IpAddr → Type 0
IsKnown none = Unit
IsKnown (some a) = IsAddr a

-- The prefix has at most all bits, and the two addresses agree in all bits of it.
abbrev pub Shares : IpAddr → ℕ → IpAddr → Type 0
Shares (v4 n) p (v4 i) = (p ≤ 32) × (n / 2 ^ (32 - p) ≡ i / 2 ^ (32 - p))
Shares (v6 n) p (v6 i) = (p ≤ 128) × (n / 2 ^ (128 - p) ≡ i / 2 ^ (128 - p))
Shares (v4 n) p (v6 i) = ⊥
Shares (v6 n) p (v4 i) = ⊥

-- A range holds an address exactly when the prefix is no longer than the address, both are of one
-- family, and all bits of the prefix agree with those of the network's address, whatever its other
-- bits are.
pub cidr_contains-Shares :
    (net : IpAddr) (p : ℕ) (ip : IpAddr)
    → IsAddr net
    → IsAddr ip
    → (cidr_contains net p ip ≡ true) ↔ Shares net p ip
unfolding cidr_contains
cidr_contains-Shares (v4 n) p (v4 i) hn hi = word_contains_iff 32 n p i hn hi
cidr_contains-Shares (v6 n) p (v6 i) hn hi = word_contains_iff 128 n p i hn hi
cidr_contains-Shares (v4 n) p (v6 i) hn hi = (λ e. ground (arith, e), λ b. absurd b)
cidr_contains-Shares (v6 n) p (v4 i) hn hi = (λ e. ground (arith, e), λ b. absurd b)

abbrev pub Admits : IpAddr → Entry → Type 0
Admits ip (exact e) = e ≡ ip
Admits ip (range net p) = Shares net p ip
Admits ip malformed = ⊥

abbrev pub IsEntry : Entry → Type 0
IsEntry (exact e) = IsAddr e
IsEntry (range net p) = IsAddr net
IsEntry malformed = Unit

module _ (p : Parsers) (known : (t : String) → IsKnown (p.parse_ip t)) where
  abbrev pub Listed : IpAddr → List String → Type 0
  Listed ip allow = (e : String) × In e allow × Admits ip (read_entry p (p.trim e))
