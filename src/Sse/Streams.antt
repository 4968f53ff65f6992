-- ===== src/Sse/Streams.antt =====
-- Whole streams: every call returns, and how a stream is cut into chunks does not show.
use mathlib.Core.List.{append_assoc, append-nil}
use kinetix.Base.{
  ℕ, zero, suc, ◌<◌, ◌≡◌, refl, sym, ap, ◌∙◌, Bool, true, false, Option, none, some, List, [], ◌∷◌,
  ◌++◌, String, ltb, if◌then◌else◌, length, take, drop, Result, ok, err, arith, Option-cases, inl,
  inr,
}
use kinetix.Sse.{
  SseFramer, SseFrameError, Pushed, scan, prepend, frame_of, push_loop, push, with_max_frame_bytes,
}
use kinetix.Sse.Scan.{Clean}
use kinetix.Sse.Chunks.{
  done, push_loop-Clean, push_loop_stop, push_loop_next, left, push_loop-Leaves, prepend-eq-done,
}

-- The positions that the next search skips hold no delimiter, whatever bytes come.
abbrev pub IsScanned : SseFramer → Type 0
IsScanned f = (m : List ℕ) → Clean f.scan_from (f.buffer ++ m)

pub new-IsScanned : (n : ℕ) → IsScanned (with_max_frame_bytes n)
unfolding with_max_frame_bytes
new-IsScanned n m = tt

prepend-some :
    (fs : List String) (o : Option Pushed) (p : Pushed)
    → o ≡ some p
    → (q : Pushed) × (prepend fs o ≡ some q)
prepend-some fs none p h = cc
prepend-some fs (some p') p h =
    (record p' { result = elim p'.result [ ok gs ↦ ok (fs ++ gs) | err e ↦ err e ] }, refl)

abbrev pub concat : List (List ℕ) → List ℕ
concat [] = []
concat (c ∷ cs) = c ++ concat cs

module _ (utf8 : List ℕ → String) where
  push_loop_total :
      (limit f : ℕ) (l : List ℕ)
      → length l < f
      → (p : Pushed) × (push_loop utf8 f limit l 0 ≡ some p)
  push_loop_total limit zero l h = absurd (omega arith)
  push_loop_total limit (suc f) l h = elim (Option-cases (scan l 0)) [
    | inl e ↦ rw (push_loop_stop utf8 limit f l e) (stopped (ltb limit (length l)) _ _)
    | inr ((k, d), e) ↦
        let less = left utf8 limit l k d e in
        let (p, r) = push_loop_total limit f (drop d (drop k l)) (omega (arith, less)) in
        let (q, s) = prepend-some (frame_of utf8 (take k l)) _ p r in
        rw (push_loop_next utf8 limit f l k d e, s) (stopped (ltb limit k) _ q)
  ]
    where
      stopped : (b : Bool) (p q : Pushed) → (r : Pushed) × ((if b then some p else some q) ≡ some r)
      stopped true p q = (p, refl)
      stopped false p q = (q, refl)

  -- Every call of `push` returns: the fuel of its loop is enough.
  pub push_total :
      (f : SseFramer) (bytes : List ℕ) → IsScanned f → (p : Pushed) × (push utf8 f bytes ≡ some p)
  unfolding push
  push_total f bytes s =
      let l = f.buffer ++ bytes in
      rw (push_loop-Clean utf8 f.max_frame_bytes (suc (length l)) l f.scan_from (s bytes))
        (push_loop_total f.max_frame_bytes (suc (length l)) l (omega arith))

  -- Two chunks make the frames of both together, and leave the same framer.
  pub push-append :
      (f f' f'' : SseFramer) (a b : List ℕ) (fs gs : List String)
      → IsScanned f
      → push utf8 f a ≡ done fs f'
      → push utf8 f' b ≡ done gs f''
      → (push utf8 f (a ++ b) ≡ done (fs ++ gs) f'') × IsScanned f'
  unfolding push
  push-append f f' f'' a b fs gs s p q =
      let limit = f.max_frame_bytes in
      let l = f.buffer ++ a in
      let start = push_loop-Clean utf8 limit (suc (length l)) l f.scan_from (s a) in
      let leaves = push_loop-Leaves utf8 limit (suc (length l)) l fs f' (sym start ∙ p) in
      let clean : Clean f.scan_from (l ++ b) = rw (append_assoc f.buffer a b) (s (a ++ b)) in
      let whole = push_loop-Clean utf8 limit (suc (length (l ++ b))) (l ++ b) f.scan_from clean in
      let n = suc (length (f'.buffer ++ b)) in
      let second =
        sym (push_loop-Clean utf8 limit n (f'.buffer ++ b) f'.scan_from (leaves.scanned b))
        ∙ ap (λ z. push_loop utf8 n z (f'.buffer ++ b) f'.scan_from) (sym leaves.kept_limit)
        ∙ q in
      (
        rw (← append_assoc f.buffer a b) (
            whole
            ∙ leaves.resumes b (suc (length (l ++ b))) (omega arith)
            ∙ ap (prepend fs) second),
        leaves.scanned,
      )

  first-IsScanned :
      (f f' : SseFramer) (a : List ℕ) (fs : List String)
      → IsScanned f
      → push utf8 f a ≡ done fs f'
      → IsScanned f'
  unfolding push
  first-IsScanned f f' a fs s p =
      let limit = f.max_frame_bytes in
      let l = f.buffer ++ a in
      let start = push_loop-Clean utf8 limit (suc (length l)) l f.scan_from (s a) in
      (push_loop-Leaves utf8 limit (suc (length l)) l fs f' (sym start ∙ p)).scanned

  -- A stream pushed chunk by chunk; the first error ends it.
  unfoldable pub push_all : SseFramer → List (List ℕ) → Option Pushed
  push_all f [] = some (record { result = ok []; framer = f })
  push_all f (c ∷ cs) = elim (push utf8 f c) [
    | none ↦ none
    | some p ↦ elim p.result [ err e ↦ some p | ok fs ↦ prepend fs (push_all p.framer cs) ]
  ]

  push_all-cons :
      (f g : SseFramer) (c : List ℕ) (cs : List (List ℕ)) (hs : List String)
      → push_all f (c ∷ cs) ≡ done hs g
      → (fs gs : List String) × (f' : SseFramer) × (push utf8 f c ≡ done fs f')
        × (push_all f' cs ≡ done gs g)
        × (hs ≡ fs ++ gs)
  unfolding push_all
  push_all-cons f g c cs hs h = elim (Option-cases (push utf8 f c)) [
    | inl e ↦ absurd (ground (arith, e, h))
    | inr (p, e) ↦ went p e p.result refl
  ]
    where
      went :
          (p : Pushed)
          → push utf8 f c ≡ some p
          → (r : Result SseFrameError (List String)) → p.result ≡ r
          → (fs gs : List String) × (f' : SseFramer) × (push utf8 f c ≡ done fs f')
            × (push_all f' cs ≡ done gs g)
            × (hs ≡ fs ++ gs)
      went p e (err x) k = absurd (ground (arith, e, k, h))
      went p e (ok fs) k =
          let step : prepend fs (push_all p.framer cs) ≡ done hs g = ground (arith, e, k, h) in
          let (gs, q, split) = prepend-eq-done fs hs (push_all p.framer cs) g step in
          (fs, gs, p.framer, ground (arith, e, k), q, split)

  -- However a stream is cut into chunks: if all of them are accepted, pushing the whole stream at once
  -- is accepted too, yields the same frames in the same order and leaves the same framer.
  pub push_all-concat :
      (cs : List (List ℕ)) (f g : SseFramer) (c : List ℕ) (hs : List String)
      → IsScanned f
      → push_all f (c ∷ cs) ≡ done hs g
      → push utf8 f (c ++ concat cs) ≡ done hs g
  unfolding push_all
  push_all-concat [] f g c hs s h =
      let (fs, gs, f', p, q, split) = push_all-cons f g c [] hs h in
      let e : gs ≡ [] = ground (arith, q) in
      let k : g ≡ f' = ground (arith, q) in rw (append-nil c, split, e, k, append-nil fs) p
  push_all-concat (d ∷ cs) f g c hs s h =
      let (fs, gs, f', p, q, split) = push_all-cons f g c (d ∷ cs) hs h in
      let one : (m : List ℕ) → Clean f'.scan_from (f'.buffer ++ m) =
        first-IsScanned f f' c fs s p in
      let rest = push_all-concat cs f' g d gs one q in
      rw split ((push-append f f' g c (d ++ concat cs) fs gs s p rest).0)
