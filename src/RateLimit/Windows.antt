-- ===== src/RateLimit/Windows.antt =====
-- Within one window an address is served up to the limit, however other addresses interleave.
use text.Mathlib.TextEquality.{eq_iff}
use kinetix.Base.{
  ℕ, ◌+◌, ◌-◌, ◌*◌, ◌≤◌, ◌<◌, ◌≡◌, refl, Bool, true, false, Option, none, some, List, [], ◌∷◌,
  String, str_eq, ltb, if◌then◌else◌, length, All, get, filter, wrapping_add, Result, ok, err,
  u64_max, arith, Bool-cases, inl, inr,
}
use kinetix.RateLimit.{
  Window, IpLimiter, window, new, sweep, put, current_window, answer, count_one, swept, check_ip,
  check, max_entries,
}

get-put : (m : List (String × Window)) (x : String) (w : Window) → get x (put x w m) ≡ some w
unfolding get put
get-put [] x w = ground (arith, eq_iff x x)
get-put ((j, v) ∷ m) x w = ground (arith, eq_iff j x, get-put m x w)

get-put_other :
    (m : List (String × Window)) (x y : String) (w : Window)
    → str_eq y x ≡ false
    → get x (put y w m) ≡ get x m
unfolding get put
get-put_other [] x y w h = ground (arith, h)
get-put_other ((j, v) ∷ m) x y w h =
    ground (arith, eq_iff j x, eq_iff j y, eq_iff y x, get-put_other m x y w h, h)

module _ (x : String) (start : ℕ) where
  -- At a time of the window that begins at `start`: the counted requests of `x` are at least those
  -- accepted, at most those made, and all of that window.
  abbrev pub Counted : Option Window → ℕ → ℕ → Type 0
  Counted none accepted made = accepted ≡ 0
  Counted (some w) accepted made = (start ≤ w.started) × (accepted ≤ w.count) × (w.count ≤ made)

  sweep-Counted :
      (m : List (String × Window)) (now accepted made : ℕ)
      → now < start + window
      → Counted (get x m) accepted made
      → Counted (get x (sweep m now)) accepted made
  unfolding sweep get filter
  sweep-Counted [] now accepted made h c = c
  sweep-Counted ((j, v) ∷ m) now accepted made h c =
      elim (Bool-cases (ltb (now - v.started) (window * 2))) [
        | inl k ↦ elim (Bool-cases (str_eq j x)) [
          | inl e ↦ rw k (rw e (rw e at c))
          | inr e ↦ rw k (rw e (sweep-Counted m now accepted made h (rw e at c)))
        ]
        | inr k ↦ elim (Bool-cases (str_eq j x)) [
          | inl e ↦ absurd (ground (arith, k, (rw e at c).0, h))
          | inr e ↦ rw k (sweep-Counted m now accepted made h (rw e at c))
        ]
      ]

  abbrev pub is_from : Option String → Bool
  is_from none = false
  is_from (some ip) = str_eq ip x

  abbrev pub is_ok : Result ℕ (Unit {0}) → Bool
  is_ok (ok u) = true
  is_ok (err e) = false

  -- One more, if the call is of `x` and succeeds.
  abbrev pub add_if : Option String → Result ℕ (Unit {0}) → ℕ → ℕ
  add_if ip r n = if is_from ip then (if is_ok r then n + 1 else n) else n

  add_if_shift :
      (ip : String) (r : Result ℕ (Unit {0})) (a n : ℕ)
      → a + add_if (some ip) r n ≡ add_if (some ip) r a + n
  add_if_shift ip (ok u) a n = ground arith
  add_if_shift ip (err e) a n = ground arith

  -- How many of the calls made in turn are of `x` and succeed.
  unfoldable pub served : IpLimiter → List (ℕ × Option String) → ℕ
  served l [] = 0
  served l ((now, ip) ∷ es) = let (l', r) = check l ip now in let n = served l' es in add_if ip r n

  swept-Counted :
      (m : List (String × Window)) (now accepted made : ℕ)
      → now < start + window
      → Counted (get x m) accepted made
      → Counted (get x (swept m now)) accepted made
  swept-Counted m now accepted made h c = elim (Bool-cases (ltb max_entries (length m))) [
    | inl e ↦ rw e (sweep-Counted m now accepted made h c)
    | inr e ↦ rw e c
  ]

  more-Counted :
      (o : Option Window) (accepted made : ℕ)
      → Counted o accepted made
      → Counted o accepted (made + 1)
  more-Counted none accepted made c = c
  more-Counted (some w) accepted made c = omega (arith, c)

  -- The window in which a call of `x` is counted.
  current-Counted :
      (o : Option Window) (now accepted made : ℕ)
      → start ≤ now
      → now < start + window
      → Counted o accepted made
      → (start ≤ (current_window o now).started)
        × (accepted ≤ (current_window o now).count)
        × ((current_window o now).count ≤ made)
  current-Counted none now accepted made h k c = omega arith
  current-Counted (some w) now accepted made h k c = ground (arith, c.0, c.1, c.2)

  answer_mine :
      (l : IpLimiter) (m : List (String × Window)) (w : Window) (now accepted made : ℕ)
      → start ≤ w.started
      → accepted ≤ w.count
      → w.count ≤ made
      → made < u64_max
      → accepted ≤ l.limit
      → let (l', r) = answer l x m (count_one w) now in
        Counted (get x l'.map) (add_if (some x) r accepted) (made + 1)
        × (add_if (some x) r accepted ≤ l.limit)
        × (l'.limit ≡ l.limit)
  unfolding answer wrapping_add
  answer_mine l m w now accepted made s n t u a =
      elim (Bool-cases (ltb l.limit (count_one w).count)) [
        | inl over ↦ rw (over, get-put m x (count_one w)) (ground (arith, eq_iff x x))
        | inr fits ↦ rw (fits, get-put m x (count_one w)) (ground (arith, eq_iff x x, fits))
      ]

  answer_other :
      (l : IpLimiter) (ip : String) (m : List (String × Window)) (w : Window)
      (now accepted made : ℕ)
      → str_eq ip x ≡ false
      → Counted (get x m) accepted made
      → accepted ≤ l.limit
      → let (l', r) = answer l ip m w now in
        Counted (get x l'.map) (add_if (some ip) r accepted) (made + 1)
        × (add_if (some ip) r accepted ≤ l.limit)
        × (l'.limit ≡ l.limit)
  unfolding answer
  answer_other l ip m w now accepted made e c a =
      let same = get-put_other m x ip w e in
      let more : Counted (get x m) accepted (made + 1) = more-Counted (get x m) accepted made c in
      elim (Bool-cases (ltb l.limit w.count)) [
        | inl over ↦ rw (over, e, same) (more, a, refl)
        | inr fits ↦ rw (fits, e, same) (more, a, refl)
      ]

  check_ip-Counted :
      (l : IpLimiter) (ip : String) (now accepted made : ℕ)
      → start ≤ now
      → now < start + window
      → made < u64_max
      → Counted (get x l.map) accepted made
      → accepted ≤ l.limit
      → let (l', r) = check_ip l ip now in
        Counted (get x l'.map) (add_if (some ip) r accepted) (made + 1)
        × (add_if (some ip) r accepted ≤ l.limit)
        × (l'.limit ≡ l.limit)
  unfolding check_ip
  check_ip-Counted l ip now accepted made h k u c a =
      let m = swept l.map now in
      let kept = swept-Counted l.map now accepted made k c in
      elim (Bool-cases (str_eq ip x)) [
        | inl e ↦
            let (s, n, t) = current-Counted (get x m) now accepted made h k kept in
            let me : ip ≡ x = (eq_iff ip x).0 e in
            rw me (answer_mine l m (current_window (get x m) now) now accepted made s n t u a)
        | inr e ↦ answer_other l ip m _ now accepted made e kept a
      ]

  -- From a limiter that has counted `made` calls and accepted `accepted` of `x`, calls of this window
  -- are served up to the limit.
  served_le :
      (l : IpLimiter) (es : List (ℕ × Option String)) (accepted made : ℕ)
      → 0 < l.limit
      → All (λ e. (start ≤ e.0) × (e.0 < start + window)) es
      → made + length es < u64_max
      → Counted (get x l.map) accepted made
      → accepted ≤ l.limit
      → accepted + served l es ≤ l.limit
  unfolding served check
  served_le l [] accepted made p h u c a = omega arith
  served_le l ((now, none) ∷ es) accepted made p h u c a =
      served_le l es accepted made p h.1 (omega arith) c a
  served_le l ((now, some ip) ∷ es) accepted made p h u c a =
      let on : ltb 0 l.limit ≡ true = ground arith in
      let (c', a', same) = check_ip-Counted l ip now accepted made h.0.0 h.0.1 (omega arith) c a in
      let l' = (check_ip l ip now).0 in
      let rest =
        served_le l' es (add_if (some ip) (check_ip l ip now).1 accepted) (made + 1) (rw same p) h.1
          (omega arith) c' (rw same a') in
      rw on
        (omega (arith, add_if_shift ip (check_ip l ip now).1 accepted (served l' es), rest, same))

-- However calls of other addresses interleave, and whenever stale windows are swept: of the calls made
-- within one minute to a new limiter with a positive limit, an address has at most the limit served.
-- (Fewer than 2^64 calls.)
pub served_within :
    (x : String) (start limit : ℕ) (es : List (ℕ × Option String))
    → 0 < limit
    → All (λ e. (start ≤ e.0) × (e.0 < start + window)) es
    → length es < u64_max
    → served x start (new limit) es ≤ limit
unfolding get
served_within x start limit es p h u =
    omega (arith, served_le x start (new limit) es 0 0 p h (omega arith) refl (omega arith))
