-- ===== src/Sse/Scan.antt =====
-- The delimiter search: a delimiter that is found stays where it is when bytes follow, and the
-- positions that the framer skips hold none.
use kinetix.Base.{
  ℕ, zero, suc, ◌+◌, ◌-◌, ◌≤◌, ◌≡◌, sym, min, Bool, false, ◌||◌, none, some, List, [], ◌∷◌, ◌++◌,
  length, drop, arith,
}
use kinetix.Sse.{is_lf_lf, is_crlf_crlf, scan, find_delimiter}

abbrev pub is_delimiter : List ℕ → Bool
is_delimiter l = is_lf_lf l || is_crlf_crlf l

-- No delimiter stands at the first `s` positions.
abbrev pub Clean : ℕ → List ℕ → Type 0
Clean zero l = Unit
Clean (suc s) [] = Unit
Clean (suc s) (x ∷ l) = (is_delimiter (x ∷ l) ≡ false) × Clean s l

scan-drop :
    (s : ℕ) (l : List ℕ) (i j : ℕ)
    → Clean s l
    → s ≤ length l
    → j ≡ i + s
    → scan l i ≡ scan (drop s l) j
unfolding scan
scan-drop zero l i j c h e = let e' : j ≡ i = omega arith in rw e'
scan-drop (suc s) [] i j c h e = absurd (omega arith)
scan-drop (suc s) (x ∷ l) i j c h e =
    ground (arith, c.0, scan-drop s l (i + 1) j c.1 (omega arith) (omega arith))

Clean-le : (k s : ℕ) (l : List ℕ) → k ≤ s → k ≤ length l → Clean s l → Clean k l
Clean-le zero s l h e c = tt
Clean-le (suc k) zero l h e c = absurd (omega arith)
Clean-le (suc k) (suc s) [] h e c = absurd (omega arith)
Clean-le (suc k) (suc s) (x ∷ l) h e c = (c.0, Clean-le k s l (omega arith) (omega arith) c.1)

-- A search from behind clean positions finds what a search from the start finds.
pub find_delimiter-Clean :
    (l : List ℕ) (s : ℕ) → Clean s l → find_delimiter l s ≡ find_delimiter l 0
unfolding find_delimiter
find_delimiter-Clean l s c =
    let k = min s (length l) in
    let z : min 0 (length l) ≡ 0 = omega arith in
    rw z (
      sym (
        scan-drop k l 0 k (Clean-le k s l (omega arith) (omega arith) c) (omega arith)
          (omega arith)))

-- What follows does not change where the first delimiter stands.
pub scan-append : (l m : List ℕ) (i : ℕ) (r : ℕ × ℕ) → scan l i ≡ some r → scan (l ++ m) i ≡ some r
unfolding scan
scan-append [] m i r h = cc
scan-append (x ∷ []) m i r h = absurd (ground (arith, h))
scan-append (x ∷ y ∷ []) m i r h = ground (arith, h)
scan-append (x ∷ y ∷ z ∷ []) m i r h = ground (arith, h)
scan-append (x ∷ y ∷ z ∷ w ∷ l) m i r h = ground (arith, h, scan-append (y ∷ z ∷ w ∷ l) m (i + 1) r)

-- Where there is none, the positions but the last three stay clean whatever follows.
pub scan-none-Clean : (l m : List ℕ) (i : ℕ) → scan l i ≡ none → Clean (length l - 3) (l ++ m)
unfolding scan
scan-none-Clean [] m i h = tt
scan-none-Clean (x ∷ []) m i h = tt
scan-none-Clean (x ∷ y ∷ []) m i h = tt
scan-none-Clean (x ∷ y ∷ z ∷ []) m i h = tt
scan-none-Clean (x ∷ y ∷ z ∷ w ∷ l) m i h =
    let rest = scan-none-Clean (y ∷ z ∷ w ∷ l) m (i + 1) (ground (arith, h)) in
    let e : suc (suc (suc (suc (length l)))) - 3 ≡ suc (length l) = omega arith in
    let f : suc (suc (suc (length l))) - 3 ≡ length l = omega arith in
    rw e (ground (arith, h), rw f at rest)

-- The delimiter lies within the bytes.
pub scan_bounds :
    (l : List ℕ) (i k d : ℕ) → scan l i ≡ some (k, d) → (i ≤ k) × (k + d ≤ i + length l) × (2 ≤ d)
unfolding scan
scan_bounds [] i k d h = cc
scan_bounds (x ∷ []) i k d h = absurd (ground (arith, h))
scan_bounds (x ∷ y ∷ []) i k d h = ground (arith, h)
scan_bounds (x ∷ y ∷ z ∷ []) i k d h = ground (arith, h)
scan_bounds (x ∷ y ∷ z ∷ w ∷ l) i k d h = ground (arith, h, scan_bounds (y ∷ z ∷ w ∷ l) (i + 1) k d)
