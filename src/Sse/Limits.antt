-- ===== src/Sse/Limits.antt =====
-- The limit on a frame: memory stays bounded, and a frame of exactly the limit shows where its
-- delimiter was cut.
use mathlib.Core.List.{append-nil}
use kinetix.Base.{
  ℕ, zero, suc, ◌+◌, ◌≤◌, ◌<◌, ◌≡◌, refl, sym, ap, ◌∙◌, max, true, false, Option, none, some, List,
  [], ◌∷◌, ◌++◌, String, ltb, ◌==◌, length, take, drop, length-append, All, arith, Bool-cases,
  Option-cases, inl, inr,
}
use kinetix.Sse.{
  SseFramer, Pushed, scan, find_delimiter, prepend, too_large, frame_of, push_loop, push,
  with_max_frame_bytes,
}
use kinetix.Sse.Chunks.{push_loop_stop, push_loop_next, done}

module _ (utf8 : List ℕ → String) where
  prepend_framer :
      (fs : List String) (o : Option Pushed) (p : Pushed)
      → prepend fs o ≡ some p
      → (q : Pushed) × (o ≡ some q) × (p.framer ≡ q.framer)
  prepend_framer fs none p h = cc
  prepend_framer fs (some q) p h = (q, refl, sym (ap (λ (o : Option Pushed). framer_of q o) h))
    where
      framer_of : Pushed → Option Pushed → SseFramer
      framer_of d none = d.framer
      framer_of d (some r) = r.framer

  bounded-push_loop :
      (f limit : ℕ) (l : List ℕ) (s : ℕ) (p : Pushed)
      → push_loop utf8 f limit l s ≡ some p
      → length p.framer.buffer ≤ limit
  unfolding push_loop
  bounded-push_loop zero limit l s p h = cc
  bounded-push_loop (suc f) limit l s p h = elim (Option-cases (find_delimiter l s)) [
    | inl e ↦ ground (arith, e, h)
    | inr ((k, d), e) ↦ elim (Bool-cases (ltb limit k)) [
      | inl big ↦ ground (arith, e, h, big)
      | inr fits ↦
          let rest = drop d (drop k l) in
          let step : prepend (frame_of utf8 (take k l)) (push_loop utf8 f limit rest 0) ≡ some p =
            ground (arith, e, h, fits) in
          let (q, r, same) = prepend_framer (frame_of utf8 (take k l)) _ p step in
          rw same (bounded-push_loop f limit rest 0 q r)
    ]
  ]

  -- Whatever a call of `push` returns, no more than the limit stays buffered.
  pub push_bounded :
      (f : SseFramer) (bytes : List ℕ) (p : Pushed)
      → push utf8 f bytes ≡ some p
      → length p.framer.buffer ≤ f.max_frame_bytes
  unfolding push
  push_bounded f bytes p h = bounded-push_loop _ f.max_frame_bytes _ f.scan_from p h

-- No line feed among the bytes.
abbrev pub NoLf : List ℕ → Type 0
NoLf = All (λ b. (b == 10) ≡ false)

scan-lf : (l : List ℕ) (i : ℕ) → NoLf l → scan (l ++ 10 ∷ []) i ≡ none
unfolding scan
scan-lf [] i h = refl
scan-lf (x ∷ []) i h = ground (arith, h.0)
scan-lf (x ∷ y ∷ []) i h = ground (arith, h.0, h.1.0)
scan-lf (x ∷ y ∷ z ∷ l) i h = ground (arith, h.0, h.1.0, h.1.1.0, scan-lf (y ∷ z ∷ l) (i + 1) h.1)

scan-lf_lf :
    (l : List ℕ) (i j : ℕ) → NoLf l → j ≡ i + length l → scan (l ++ 10 ∷ 10 ∷ []) i ≡ some (j, 2)
unfolding scan
scan-lf_lf [] i j h e = ground (arith, e)
scan-lf_lf (x ∷ []) i j h e = ground (arith, h.0, e)
scan-lf_lf (x ∷ y ∷ l) i j h e =
    ground (arith, h.0, h.1.0, scan-lf_lf (y ∷ l) (i + 1) j h.1 (omega arith))

take-length_append : (l m : List ℕ) → take (length l) (l ++ m) ≡ l
take-length_append [] m = refl
take-length_append (x ∷ l) m = ap (◌∷◌ x) (take-length_append l m)

drop-length_append : (l m : List ℕ) → drop (length l) (l ++ m) ≡ m
drop-length_append [] m = refl
drop-length_append (x ∷ l) m = drop-length_append l m

module _ (utf8 : List ℕ → String) where
  -- A frame without line feeds, of exactly the limit: with its delimiter in the same chunk it is
  -- accepted; cut between the delimiter's two line feeds it is refused, although the stream is the same.
  pub split_delimiter_refused :
      (limit : ℕ) (body : List ℕ)
      → 0 < limit
      → length body ≡ limit
      → NoLf body
      → (push utf8 (with_max_frame_bytes limit) (body ++ 10 ∷ 10 ∷ [])
          ≡ done (frame_of utf8 body) (with_max_frame_bytes limit))
        × (push utf8 (with_max_frame_bytes limit) (body ++ 10 ∷ [])
            ≡ some (too_large (limit + 1) limit))
  unfolding push with_max_frame_bytes scan
  split_delimiter_refused limit body pos size clean =
      let m : max limit 1 ≡ limit = omega arith in
      let whole = body ++ 10 ∷ 10 ∷ [] in
      let found = scan-lf_lf body 0 limit clean (omega arith) in
      let size_1 : length (body ++ 10 ∷ []) ≡ limit + 1 =
        omega (arith, length-append body (10 ∷ [])) in
      let fits : ltb limit limit ≡ false = ground arith in
      let big : ltb limit (limit + 1) ≡ true = ground arith in
      let all : take limit whole ≡ body = rw (← size) (take-length_append body (10 ∷ 10 ∷ [])) in
      let none_left : drop limit whole ≡ 10 ∷ 10 ∷ [] =
        rw (← size) (drop-length_append body (10 ∷ 10 ∷ [])) in
      let size_2 : length whole ≡ suc (limit + 1) =
        omega (arith, length-append body (10 ∷ 10 ∷ [])) in
      let stop = push_loop_stop utf8 limit (limit + 1) [] refl in
      let ends : ltb limit 0 ≡ false = ground arith in
      let last = rw ends at stop in
      rw m (
        push_loop_next utf8 limit (length whole) whole limit 2 found
            ∙ rw (fits, all, none_left, size_2, last, append-nil (frame_of utf8 body)) refl,
        push_loop_stop utf8 limit (length (body ++ 10 ∷ [])) (body ++ 10 ∷ [])
              (scan-lf body 0 clean)
            ∙ rw (size_1, big) refl,
      )
