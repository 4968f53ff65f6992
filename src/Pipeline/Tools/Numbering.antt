-- ===== src/Pipeline/Tools/Numbering.antt =====
-- The numbering of tool calls: an index of the answer belongs to one id.
use Prim.Native.String.{len}
use text.Mathlib.TextEquality.{eq_iff}
use text.Mathlib.TextPositions.{len-append}
use kinetix.Base.{
  ℕ, ◌+◌, ◌≤◌, ◌<◌, ◌≡◌, refl, ap, inl, inr, false, Option, none, some, or_option, List, [], ◌∷◌,
  String, ◌<>◌, str_eq, if◌then◌else◌, get, length, In, Bool-cases, Option-cases, arith,
}
use kinetix.Types.{
  StreamEvent, start, thinking_delta, text_delta, refusal_delta, tool_call_start,
  tool_call_args_delta, usage, finish,
}
use kinetix.Pipeline.Tools.{
  ToolStreamState, new, put_id, bump, generated, start_call, normalize_one, normalize,
}

get-put_id :
    (m : List (String × ℕ)) (k i : String) (c : ℕ)
    → get i (put_id k c m) ≡ (if str_eq k i then some c else get i m)
unfolding get put_id
get-put_id [] k i c = refl
get-put_id ((j, d) ∷ m) k i c =
    ground (arith, eq_iff j k, eq_iff j i, eq_iff k i, get-put_id m k i c)

-- The calls that are announced to the client: index and id.
unfoldable pub calls : List StreamEvent → List (ℕ × String)
calls [] = []
calls (tool_call_start c (some a) n s ∷ es) = (c, a) ∷ calls es
calls (tool_call_start c none n s ∷ es) = calls es
calls (start i ∷ es) = calls es
calls (thinking_delta x s ∷ es) = calls es
calls (text_delta x ∷ es) = calls es
calls (refusal_delta x ∷ es) = calls es
calls (tool_call_args_delta i x ∷ es) = calls es
calls (usage u ∷ es) = calls es
calls (finish r ∷ es) = calls es

calls-start :
    (e : StreamEvent) (es : List StreamEvent) (c : ℕ) (a n : String) (s : Option String)
    → e ≡ tool_call_start c (some a) n s
    → calls (e ∷ es) ≡ (c, a) ∷ calls es
unfolding calls
calls-start e es c a n s h = rw h refl

-- What the next index and the ids of the state know of the calls announced so far.
record Numbered (next : ℕ) (ids : List (String × ℕ)) (log : List (ℕ × String)) : Type 0 where
  below : (c : ℕ) (a : String) → In (c, a) log → c < next
  agree : (c : ℕ) (a b : String) → In (c, a) log → In (c, b) log → a ≡ b
  kept : (a : String) (c : ℕ) → get a ids ≡ some c → In (c, a) log
  no_empty : get "" ids ≡ none

module _ (next : ℕ) (ids : List (String × ℕ)) (log : List (ℕ × String))
    (k : Numbered next ids log) where
  add_new :
      (a : String) → str_eq a "" ≡ false → Numbered (next + 1) (put_id a next ids) ((next, a) ∷ log)
  add_new a h = record {
    below = λ c b m. new_below c b m;
    agree = λ c b b' m m'. new_agree c b b' m m';
    kept = λ b c e. new_kept b c e;
    no_empty = rw (get-put_id ids a "" next, h) k.no_empty;
  }
    where
      new_below : (c : ℕ) (b : String) → In (c, b) ((next, a) ∷ log) → c < next + 1
      new_below c b (inl e) = omega (arith, ap (λ (z : ℕ × String). z.0) e)
      new_below c b (inr m) = omega (arith, k.below c b m)

      new_agree :
          (c : ℕ) (b b' : String)
          → In (c, b) ((next, a) ∷ log)
          → In (c, b') ((next, a) ∷ log)
          → b ≡ b'
      new_agree c b b' (inl e) (inl f) = cc
      new_agree c b b' (inl e) (inr m) =
          absurd (omega (arith, ap (λ (z : ℕ × String). z.0) e, k.below c b' m))
      new_agree c b b' (inr m) (inl e) =
          absurd (omega (arith, ap (λ (z : ℕ × String). z.0) e, k.below c b m))
      new_agree c b b' (inr m) (inr m') = k.agree c b b' m m'

      new_kept :
          (b : String) (c : ℕ) → get b (put_id a next ids) ≡ some c → In (c, b) ((next, a) ∷ log)
      new_kept b c e = elim (Bool-cases (str_eq a b)) [
        | inl f ↦ inl (ground (arith, get-put_id ids a b next, e, f, eq_iff a b))
        | inr f ↦ inr (k.kept b c (ground (arith, get-put_id ids a b next, e, f)))
      ]

  add_known : (a : String) (c : ℕ) → get a ids ≡ some c → Numbered next ids ((c, a) ∷ log)
  add_known a c e = record {
    below = λ d b m. known_below d b m;
    agree = λ d b b' m m'. k.agree d b b' (known d b m) (known d b' m');
    kept = λ b d f. inr (k.kept b d f);
    no_empty = k.no_empty;
  }
    where
      known : (d : ℕ) (b : String) → In (d, b) ((c, a) ∷ log) → In (d, b) log
      known d b (inl f) = rw (← f) (k.kept a c e)
      known d b (inr m) = m

      known_below : (d : ℕ) (b : String) → In (d, b) ((c, a) ∷ log) → d < next
      known_below d b m = k.below d b (known d b m)

module _ (to_text : ℕ → String) where
  generated-ne-nil : (r : String) (c : ℕ) → str_eq (generated to_text r c) "" ≡ false
  generated-ne-nil r c =
      let g = generated to_text r c in
      elim (Bool-cases (str_eq g "")) [
        | inr e ↦ e
        | inl e ↦ absurd (
            omega
              (arith, ap len ((eq_iff g "").0 e), len-append "call_" (r <> "_" <> to_text c), five))
      ]
    where
      five : len "call_" ≡ 5
      five = refl

  -- A call that is announced is new in the log, or has its id there.
  start_call-Numbered :
      (t : ToolStreamState) (log : List (ℕ × String)) (index : ℕ) (id : Option String) (n : String)
      (s : Option String)
      → Numbered t.next_index t.ids log
      → t.next_index + 1 < 4294967296
      → let (t', e) = start_call to_text t index id n s in
        (c : ℕ) × (a : String) × (e
          ≡ tool_call_start c (some a) n (or_option s t.pending_signature))
        × Numbered t'.next_index t'.ids ((c, a) ∷ log)
        × (t'.next_index ≤ t.next_index + 1)
  unfolding start_call
  start_call-Numbered t log index none n s k small =
      let g = generated to_text t.request_id t.next_index in
      let b : bump t.next_index ≡ t.next_index + 1 = omega arith in
      rw b (
        t.next_index,
        g,
        refl,
        add_new t.next_index t.ids log k g (generated-ne-nil t.request_id t.next_index),
        omega arith,
      )
  start_call-Numbered t log index (some i) n s k small = elim (Option-cases (get i t.ids)) [
    | inl f ↦ elim (Bool-cases (str_eq i "")) [
      | inl e ↦
          let g = generated to_text t.request_id t.next_index in
          let b : bump t.next_index ≡ t.next_index + 1 = omega arith in
          rw (f, e, b)
            (
              t.next_index,
              g,
              refl,
              add_new t.next_index t.ids log k g (generated-ne-nil t.request_id t.next_index),
              omega arith,
            )
      | inr e ↦
          let b : bump t.next_index ≡ t.next_index + 1 = omega arith in
          rw (f, e, b)
            (t.next_index, i, refl, rw f (add_new t.next_index t.ids log k i e), omega arith)
    ]
    | inr (c, f) ↦ elim (Bool-cases (str_eq i "")) [
      | inl e ↦ absurd (ground (arith, f, k.no_empty, ap (λ z. get z t.ids) ((eq_iff i "").0 e)))
      | inr e ↦ rw (f, e) (c, i, refl, rw f (add_known t.next_index t.ids log k i c f), omega arith)
    ]
  ]

  -- The calls of the outcome are in a log that the state after it knows.
  record Logged (log : List (ℕ × String)) (out : List (ℕ × String)) : Type 0 where
    whole : List (ℕ × String)
    numbered : (n : ℕ) × (ids : List (String × ℕ)) × Numbered n ids whole
    announced : (c : ℕ) (a : String) → In (c, a) out → In (c, a) whole
    before : (c : ℕ) (a : String) → In (c, a) log → In (c, a) whole

  normalize-Logged :
      (t : ToolStreamState) (log : List (ℕ × String)) (es : List StreamEvent)
      → Numbered t.next_index t.ids log
      → t.next_index + length es < 4294967296
      → Logged log (calls (normalize to_text t es).1)
  unfolding normalize normalize_one calls
  normalize-Logged t log [] k small = record {
    whole = log;
    numbered = (t.next_index, t.ids, k);
    announced = λ c a m. absurd m;
    before = λ c a m. m;
  }
  normalize-Logged t log (thinking_delta x s ∷ es) k small =
      normalize-Logged _ log es k (omega arith)
  normalize-Logged t log (text_delta x ∷ es) k small = normalize-Logged _ log es k (omega arith)
  normalize-Logged t log (refusal_delta x ∷ es) k small = normalize-Logged _ log es k (omega arith)
  normalize-Logged t log (tool_call_args_delta i x ∷ es) k small =
      normalize-Logged _ log es k (omega arith)
  normalize-Logged t log (usage u ∷ es) k small = normalize-Logged _ log es k (omega arith)
  normalize-Logged t log (finish r ∷ es) k small = normalize-Logged _ log es k (omega arith)
  normalize-Logged t log (start i ∷ es) k small = normalize-Logged _ log es k (omega arith)
  normalize-Logged t log (tool_call_start i id n s ∷ es) k small =
      let (c, a, e, k', le) = start_call-Numbered t log i id n s k (omega arith) in
      let t' = (start_call to_text t i id n s).0 in
      let rest = normalize-Logged t' ((c, a) ∷ log) es k' (omega arith) in
      rw (calls-start (start_call to_text t i id n s).1 (normalize to_text t' es).1 c a n _ e)
        (record {
          whole = rest.whole;
          numbered = rest.numbered;
          announced = λ d b m. now c a (calls (normalize to_text t' es).1) rest d b m;
          before = λ d b m. rest.before d b (inr m);
        })
    where
      now :
          (c : ℕ) (a : String) (out : List (ℕ × String)) (rest : Logged ((c, a) ∷ log) out) (d : ℕ)
          (b : String)
          → In (d, b) ((c, a) ∷ out)
          → In (d, b) rest.whole
      now c a out rest d b (inl f) = rw (← f) (rest.before c a (inl refl))
      now c a out rest d b (inr m) = rest.announced d b m

  -- In an answer of fewer than 2^32 events, an index that is announced to the client belongs to one
  -- id: two tool calls under different ids have different indexes, whatever indexes, ids or missing ids
  -- the provider sends.
  pub normalize-calls :
      (request_id : String) (es : List StreamEvent) (c : ℕ) (a b : String)
      → length es < 4294967296
      → In (c, a) (calls (normalize to_text (new request_id) es).1)
      → In (c, b) (calls (normalize to_text (new request_id) es).1)
      → a ≡ b
  unfolding get
  normalize-calls request_id es c a b small m m' =
      let start_log : Numbered 0 [] [] = record {
        below = λ c a m. absurd m;
        agree = λ c a b m m'. absurd m;
        kept = λ a c e. cc;
        no_empty = refl;
      } in
      let k = normalize-Logged (new request_id) [] es start_log (omega arith) in
      k.numbered.2.agree c a b (k.announced c a m) (k.announced c b m')
