-- ===== src/Limits/Prefix.antt =====
-- src/limits.rs: masking a word keeps its high bits, so a range holds the addresses with its prefix.
use kinetix.Base.{
  ℕ, zero, suc, ◌+◌, ◌-◌, ◌*◌, ◌/◌, ◌%◌, ◌^◌, ◌≤◌, ◌<◌, ◌≡◌, refl, ap, sym, ◌∙◌, arith, true, false,
  ◌==◌, ==_iff, Bool-cases, inl, inr, ltb, ◌↔◌,
}
use native.Mathlib.Nat.{
  one-le-pow, div-eq_of_lt, div-div-eq-div-mul, mul-div_cancel, mod-eq_of_lt, add-mul-mod_self_left,
  pow-le-pow_right,
}
use native.Mathlib.Omega.{pow_step}
use kinetix.Limits.{word_and, mask, word_contains}

pow_pos : (k : ℕ) → 0 < 2 ^ k
pow_pos k = one-le-pow k 2 (omega arith)

shifted : (n d : ℕ) → (n + d) * (n + 1) ≡ d + (n + 1 + d) * n
shifted n d = grind arith

-- The shifted word of ones, in terms of its size and the shift's.
ones_at : (n d : ℕ) → ((n + 1 + d - 1) * (n + 1)) % (n + 1 + d) ≡ d
ones_at n d =
    let e : n + 1 + d - 1 ≡ n + d = omega arith in
    ap (λ m. (m * (n + 1)) % (n + 1 + d)) e
    ∙ ap (λ m. m % (n + 1 + d)) (shifted n d)
    ∙ add-mul-mod_self_left d (n + 1 + d) n
    ∙ mod-eq_of_lt (omega arith)

ones : (a b : ℕ) → 0 < b → b ≤ a → ((a - 1) * b) % a ≡ a - b
ones a b p h =
    let eb : b - 1 + 1 ≡ b = omega (arith, p) in
    let ea : b - 1 + 1 + (a - b) ≡ a = omega (arith, p, h) in
    ap (λ m. ((a - 1) * m) % a) (sym eb)
    ∙ ap (λ m. ((m - 1) * (b - 1 + 1)) % m) (sym ea)
    ∙ ones_at (b - 1) (a - b)

scale : (q k : ℕ) → 2 * (q * k) ≡ q * (2 * k)
scale q k = grind arith

halves : (x k : ℕ) → 2 * (x / 2 / 2 ^ k * 2 ^ k) ≡ x / 2 ^ suc k * 2 ^ suc k
halves x k =
    let q : x / 2 / 2 ^ k ≡ x / 2 ^ suc k =
      div-div-eq-div-mul x 2 (2 ^ k) ∙ ap (λ m. x / m) (sym (pow_step 2 k)) in
    ap (λ m. 2 * (m * 2 ^ k)) q
    ∙ scale (x / 2 ^ suc k) (2 ^ k)
    ∙ ap (λ m. x / 2 ^ suc k * m) (sym (pow_step 2 k))

word_and-high : (w k x : ℕ) → k ≤ w → x < 2 ^ w → word_and w x (2 ^ w - 2 ^ k) ≡ x / 2 ^ k * 2 ^ k
unfolding word_and
word_and-high zero zero x h l = omega (arith, l)
word_and-high zero (suc k) x h l = absurd (omega (arith, h))
word_and-high (suc w) zero x h l =
    let p = pow_pos w in
    let e : 2 ^ suc w ≡ 2 * 2 ^ w = pow_step 2 w in
    let rest = word_and-high w zero (x / 2) (omega arith) (omega (arith, l, e)) in
    let half : (2 ^ suc w - 1) / 2 ≡ 2 ^ w - 1 = omega (arith, e, p) in
    let odd : (2 ^ suc w - 1) % 2 ≡ 1 = omega (arith, e, p) in
    let low : word_and w (x / 2) (2 ^ w - 1) ≡ x / 2 = omega (arith, rest) in
    rw half (rw odd (omega (arith, low)))
word_and-high (suc w) (suc k) x h l =
    let e : 2 ^ suc w ≡ 2 * 2 ^ w = pow_step 2 w in
    let f : 2 ^ suc k ≡ 2 * 2 ^ k = pow_step 2 k in
    let rest = word_and-high w k (x / 2) (omega (arith, h)) (omega (arith, l, e)) in
    let half : (2 ^ suc w - 2 ^ suc k) / 2 ≡ 2 ^ w - 2 ^ k = omega (arith, e, f) in
    let even : (2 ^ suc w - 2 ^ suc k) % 2 ≡ 0 = omega (arith, e, f) in
    rw half (rw even (omega (arith, rest, halves x k)))

-- Equal high bits, from equal numbers with the low bits cleared.
same_high : (a b k : ℕ) → a / 2 ^ k * 2 ^ k ≡ b / 2 ^ k * 2 ^ k → a / 2 ^ k ≡ b / 2 ^ k
same_high a b k h =
    sym (mul-div_cancel (a / 2 ^ k) (pow_pos k))
    ∙ ap (λ m. m / 2 ^ k) h
    ∙ mul-div_cancel (b / 2 ^ k) (pow_pos k)

word_and-zero : (w x : ℕ) → word_and w x 0 ≡ 0
unfolding word_and
word_and-zero zero x = refl
word_and-zero (suc w) x = omega (arith, word_and-zero w (x / 2))

zero_times : (m : ℕ) → 0 ≡ 0 * m
zero_times m = omega arith

word_and-mask :
    (w p x : ℕ) → p ≤ w → x < 2 ^ w → word_and w x (mask w p) ≡ x / 2 ^ (w - p) * 2 ^ (w - p)
unfolding mask
word_and-mask w zero x h l =
    let whole : w - 0 ≡ w = omega arith in
    word_and-zero w x ∙ rw whole (rw (div-eq_of_lt l) (zero_times (2 ^ w)))
word_and-mask w (suc p) x h l =
    let k = w - suc p in
    let le = pow-le-pow_right {n = 2} (omega arith) {i = k} {j = w} (omega arith) in
    let long : (suc p == 0) ≡ false = ground arith in
    rw long (
      ap (word_and w x) (ones (2 ^ w) (2 ^ k) (pow_pos k) le) ∙ word_and-high w k x (omega arith) l)

same_word : {a b : ℕ} → a ≡ b → (a == b) ≡ true
same_word {a} {b} h = (==_iff a b).1 h

-- A range holds exactly the addresses that agree with the network in all bits of the prefix.
pub word_contains_iff :
    (w n p i : ℕ)
    → n < 2 ^ w
    → i < 2 ^ w
    → (word_contains w n p i ≡ true) ↔ ((p ≤ w) × (n / 2 ^ (w - p) ≡ i / 2 ^ (w - p)))
unfolding word_contains
word_contains_iff w n p i hn hi = (
  λ e. elim (Bool-cases (ltb w p)) [
    | inl g ↦ absurd (ground (arith, (rw g at e)))
    | inr g ↦
        let le : p ≤ w = ground (arith, g) in
        let masked = (==_iff (word_and w n (mask w p)) (word_and w i (mask w p))).0 (rw g at e) in
        (
          le,
          same_high n i (w - p)
              (sym (word_and-mask w p n le hn) ∙ masked ∙ word_and-mask w p i le hi),
        )
  ],
  λ h.
      let le : ltb w p ≡ false = ground (arith, h.0) in
      rw le (
        same_word (
          word_and-mask w p n h.0 hn
          ∙ ap (λ m. m * 2 ^ (w - p)) h.1
          ∙ sym (word_and-mask w p i h.0 hi))),
)
