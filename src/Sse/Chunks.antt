-- ===== src/Sse/Chunks.antt =====
-- Transport chunk boundaries do not show: a stream pushed in pieces yields the frames of the whole.
use mathlib.Core.List.{append_assoc}
use kinetix.Base.{
  ℕ, zero, suc, ◌+◌, ◌-◌, ◌≤◌, ◌<◌, ◌≡◌, refl, sym, ap, ◌∙◌, min, false, Option, none, some, List,
  [], ◌∷◌, ◌++◌, String, ltb, if◌then◌else◌, length, take, drop, length-drop, Result, ok, err,
  arith, Bool-cases, Option-cases, inl, inr,
}
use kinetix.Sse.{
  SseFramer, SseFrameError, Pushed, scan, find_delimiter, prepend, too_large, frame_of, push_loop,
}
use kinetix.Sse.Scan.{Clean, find_delimiter-Clean, scan-append, scan-none-Clean, scan_bounds}

find_delimiter_start : (l : List ℕ) → find_delimiter l 0 ≡ scan l 0
unfolding find_delimiter
find_delimiter_start l = let z : min 0 (length l) ≡ 0 = omega arith in rw z

drop-append : (n : ℕ) (l m : List ℕ) → n ≤ length l → drop n (l ++ m) ≡ drop n l ++ m
drop-append zero l m h = refl
drop-append (suc n) [] m h = absurd (omega arith)
drop-append (suc n) (x ∷ l) m h = drop-append n l m (omega arith)

take-append : (n : ℕ) (l m : List ℕ) → n ≤ length l → take n (l ++ m) ≡ take n l
take-append zero l m h = refl
take-append (suc n) [] m h = absurd (omega arith)
take-append (suc n) (x ∷ l) m h = ap (◌∷◌ x) (take-append n l m (omega arith))

module _ (utf8 : List ℕ → String) (limit : ℕ) where
  -- The first round alone looks at where the scan starts.
  pub push_loop-Clean :
      (f : ℕ) (l : List ℕ) (s : ℕ)
      → Clean s l
      → push_loop utf8 f limit l s ≡ push_loop utf8 f limit l 0
  unfolding push_loop
  push_loop-Clean zero l s c = refl
  push_loop-Clean (suc f) l s c = rw (find_delimiter-Clean l s c, push_loop)

  -- The two outcomes of a round.
  pub push_loop_stop :
      (f : ℕ) (l : List ℕ)
      → scan l 0 ≡ none
      → push_loop utf8 (suc f) limit l 0 ≡ (
          if ltb limit (length l)
          then some (too_large (length l) limit)
          else some (record {
            result = ok [];
            framer = record { buffer = l; scan_from = length l - 3; max_frame_bytes = limit };
          }))
  unfolding push_loop
  push_loop_stop f l h = rw (find_delimiter_start l ∙ h, push_loop)

  pub push_loop_next :
      (f : ℕ) (l : List ℕ) (k d : ℕ)
      → scan l 0 ≡ some (k, d)
      → push_loop utf8 (suc f) limit l 0 ≡ (
          if ltb limit k
          then some (too_large k limit)
          else prepend (frame_of utf8 (take k l)) (push_loop utf8 f limit (drop d (drop k l)) 0))
  unfolding push_loop
  push_loop_next f l k d h = rw (find_delimiter_start l ∙ h, push_loop)

  pub left : (l : List ℕ) (k d : ℕ) → scan l 0 ≡ some (k, d) → length (drop d (drop k l)) < length l
  left l k d h = omega (arith, scan_bounds l 0 k d h, length-drop d (drop k l), length-drop k l)

  -- Any fuel above the buffer's length gives the same result, and there is one.
  pub push_loop_fuel :
      (f g : ℕ) (l : List ℕ)
      → length l < f
      → length l < g
      → push_loop utf8 f limit l 0 ≡ push_loop utf8 g limit l 0
  push_loop_fuel zero g l h k = absurd (omega arith)
  push_loop_fuel (suc f) zero l h k = absurd (omega arith)
  push_loop_fuel (suc f) (suc g) l h k = elim (Option-cases (scan l 0)) [
    | inl e ↦ push_loop_stop f l e ∙ sym (push_loop_stop g l e)
    | inr ((i, d), e) ↦
        let less = left l i d e in
        let rest =
          push_loop_fuel f g (drop d (drop i l)) (omega (arith, less)) (omega (arith, less)) in
        push_loop_next f l i d e
        ∙ ap
            (λ (z : Option Pushed).
              if ltb limit i
              then some (too_large i limit)
              else prepend (frame_of utf8 (take i l)) z)
            rest
        ∙ sym (push_loop_next g l i d e)
  ]

abbrev pub done : List String → SseFramer → Option Pushed
done fs fr = some (record { result = ok fs; framer = fr })

prepend_nil : (o : Option Pushed) → prepend [] o ≡ o
prepend_nil none = refl
prepend_nil (some p) = ground arith

pub prepend-prepend :
    (fs gs : List String) (o : Option Pushed) → prepend fs (prepend gs o) ≡ prepend (fs ++ gs) o
prepend-prepend fs gs none = refl
prepend-prepend fs gs (some p) = prepended p.result refl
  where
    prepended :
        (r : Result SseFrameError (List String))
        → p.result ≡ r
        → prepend fs (prepend gs (some p)) ≡ prepend (fs ++ gs) (some p)
    prepended (ok hs) e = rw e (rw (append_assoc fs gs hs))
    prepended (err x) e = rw e

pub prepend-eq-done :
    (fs hs : List String) (o : Option Pushed) (fr : SseFramer)
    → prepend fs o ≡ done hs fr
    → (gs : List String) × (o ≡ done gs fr) × (hs ≡ fs ++ gs)
prepend-eq-done fs hs none fr h = cc
prepend-eq-done fs hs (some p) fr h = inverted p.result refl
  where
    inverted :
        (r : Result SseFrameError (List String))
        → p.result ≡ r
        → (gs : List String) × (some p ≡ done gs fr) × (hs ≡ fs ++ gs)
    inverted (ok gs) e = (gs, ground (arith, h, e), ground (arith, h, e))
    inverted (err x) e = absurd (ground (arith, h, e))

-- What is left in the framer when a call succeeds, and what that means for the bytes that follow.
pub record Leaves (utf8 : List ℕ → String) (limit : ℕ) (l : List ℕ) (fs : List String)
    (fr : SseFramer) : Type 0 where
  pub kept_limit : fr.max_frame_bytes ≡ limit
  pub scanned : (m : List ℕ) → Clean fr.scan_from (fr.buffer ++ m)
  pub resumes :
      (m : List ℕ) (g : ℕ)
      → length (l ++ m) < g
      → push_loop utf8 g limit (l ++ m) 0
        ≡ prepend fs (push_loop utf8 (suc (length (fr.buffer ++ m))) limit (fr.buffer ++ m) 0)

module _ (utf8 : List ℕ → String) (limit : ℕ) where
  stop-Leaves :
      (f : ℕ) (l : List ℕ) (fs : List String) (fr : SseFramer)
      → scan l 0 ≡ none
      → push_loop utf8 (suc f) limit l 0 ≡ done fs fr
      → Leaves utf8 limit l fs fr
  stop-Leaves f l fs fr e h =
      let stop = push_loop_stop utf8 limit f l e in
      let no_frames : fs ≡ [] = ground (arith, h, stop) in
      let rest : fr ≡ record { buffer = l; scan_from = length l - 3; max_frame_bytes = limit } =
        ground (arith, h, stop) in
      rw (rest, no_frames)
        (record {
          kept_limit = refl;
          scanned = λ m. scan-none-Clean l m 0 e;
          resumes = λ m g k.
              push_loop_fuel utf8 limit g (suc (length (l ++ m))) (l ++ m) k (omega arith)
              ∙ sym (prepend_nil _);
        })

  next-Leaves :
      (l : List ℕ) (k d : ℕ) (gs : List String) (fr : SseFramer)
      → scan l 0 ≡ some (k, d)
      → ltb limit k ≡ false
      → Leaves utf8 limit (drop d (drop k l)) gs fr
      → Leaves utf8 limit l (frame_of utf8 (take k l) ++ gs) fr
  next-Leaves l k d gs fr e fits r = record {
    kept_limit = r.kept_limit;
    scanned = r.scanned;
    resumes = λ m g h. next_resumes m g h;
  }
    where
      inside : (0 ≤ k) × (k + d ≤ 0 + length l) × (2 ≤ d)
      inside = scan_bounds l 0 k d e

      rest_of : (m : List ℕ) → drop d (drop k (l ++ m)) ≡ drop d (drop k l) ++ m
      rest_of m =
          rw (drop-append k l m (omega (arith, inside)))
            (drop-append d (drop k l) m (omega (arith, inside, length-drop k l)))

      next_resumes :
          (m : List ℕ) (g : ℕ)
          → length (l ++ m) < g
          → push_loop utf8 g limit (l ++ m) 0
            ≡ prepend
                (frame_of utf8 (take k l) ++ gs)
                (push_loop utf8 (suc (length (fr.buffer ++ m))) limit (fr.buffer ++ m) 0)
      next_resumes m zero h = absurd (omega arith)
      next_resumes m (suc g) h =
          let found = scan-append l m 0 (k, d) e in
          let less = left utf8 limit (l ++ m) k d found in
          let small : length (drop d (drop k (l ++ m))) < g = omega (arith, less) in
          let rest = r.resumes m g (rw (rest_of m) at small) in
          push_loop_next utf8 limit g (l ++ m) k d found
          ∙ rw (fits, rest_of m, take-append k l m (omega (arith, inside)), rest)
              (prepend-prepend (frame_of utf8 (take k l)) gs _)

  no_fuel :
      (l : List ℕ) (fs : List String) (fr : SseFramer)
      → push_loop utf8 zero limit l 0 ≡ done fs fr
      → ⊥
  unfolding push_loop
  no_fuel l fs fr e = cc

  pub push_loop-Leaves :
      (f : ℕ) (l : List ℕ) (fs : List String) (fr : SseFramer)
      → push_loop utf8 f limit l 0 ≡ done fs fr
      → Leaves utf8 limit l fs fr
  push_loop-Leaves zero l fs fr h = absurd (no_fuel l fs fr h)
  push_loop-Leaves (suc f) l fs fr h = elim (Option-cases (scan l 0)) [
    | inl e ↦ stop-Leaves f l fs fr e h
    | inr ((k, d), e) ↦ elim (Bool-cases (ltb limit k)) [
      | inl big ↦ absurd (ground (arith, push_loop_next utf8 limit f l k d e, big, h))
      | inr fits ↦
          let next = push_loop_next utf8 limit f l k d e in
          let taken : prepend (frame_of utf8 (take k l))
                (push_loop utf8 f limit (drop d (drop k l)) 0)
              ≡ done fs fr =
            ground (arith, next, fits, h) in
          let (gs, rest, split) = prepend-eq-done (frame_of utf8 (take k l)) fs _ fr taken in
          rw split
            (next-Leaves l k d gs fr e fits (push_loop-Leaves f (drop d (drop k l)) gs fr rest))
    ]
  ]
