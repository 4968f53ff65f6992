-- ===== src/Frontends/Responses/Items.antt =====
-- src/frontends/responses.rs: the output indexes of the items of a Responses stream.
use mathlib.Core.List.{append_assoc}
use kinetix.Base.{
  ℕ, ◌+◌, ◌≡◌, refl, sym, ap, ◌∙◌, Bool, true, false, List, [], ◌∷◌, ◌++◌, String, length, All,
  arith, if◌then◌else◌,
}
use kinetix.Types.{StreamEvent}
use kinetix.Frontends.Responses.{
  ResponsesEncoder, ActiveTool, output_item_added, Frame, new, push, append_arguments, encode,
  answer, ensure_created, close_text_item, closing_events, tool_output_index, start_tool, given_id,
}

-- The output indexes under which items are added, in order.
unfoldable pub added : List Frame → List ℕ
added [] = []
added ((n, output_item_added i item) ∷ fs) = i ∷ added fs
added (f ∷ fs) = added fs

added-append : (fs gs : List Frame) → added (fs ++ gs) ≡ added fs ++ added gs
unfolding added
added-append [] gs = refl
added-append ((n, output_item_added i item) ∷ fs) gs = ap (λ z. i ∷ z) (added-append fs gs)
added-append (f ∷ fs) gs = added-append fs gs

-- Neither text nor the end.
abbrev pub is_before_text : StreamEvent → Bool
is_before_text (StreamEvent.text_delta t) = false
is_before_text (StreamEvent.refusal_delta t) = false
is_before_text (StreamEvent.finish f) = false
is_before_text e = true

-- The indexes of `es`'s tool calls, from `n` on.
abbrev pub call_indexes : ℕ → List StreamEvent → List ℕ
call_indexes n [] = []
call_indexes n (StreamEvent.tool_call_start index id name signature ∷ es) =
    n ∷ call_indexes (n + 1) es
call_indexes n (e ∷ es) = call_indexes n es

abbrev pub calls_after : ℕ → StreamEvent → ℕ
calls_after n (StreamEvent.tool_call_start index id name signature) = n + 1
calls_after n e = n

-- The encoder has added `n` tool calls and no text.
abbrev NoText : ℕ → ResponsesEncoder → Type 0
NoText n s =
    (s.accumulated_text ≡ "")
    × (s.accumulated_refusal ≡ "")
    × (s.active_text_item ≡ false)
    × (length s.active_tools ≡ n)

length-append_arguments :
    (index : ℕ) (args : String) (ts : List ActiveTool)
    → length (append_arguments index args ts).0 ≡ length ts
unfolding append_arguments
length-append_arguments index args [] = refl
length-append_arguments index args (t ∷ ts) = ground (arith, length-append_arguments index args ts)

length-snoc : (ts : List ActiveTool) (t : ActiveTool) → length (ts ++ t ∷ []) ≡ length ts + 1
length-snoc [] t = refl
length-snoc (x ∷ ts) t = omega (arith, length-snoc ts t)

ensure_created-NoText :
    (n : ℕ) (s : ResponsesEncoder)
    → NoText n s
    → (added (ensure_created s).1 ≡ []) × NoText n (ensure_created s).0
unfolding added push
ensure_created-NoText n s h = ground (arith, h)

close_text_item-NoText :
    (n : ℕ) (s : ResponsesEncoder) → NoText n s → close_text_item s "completed" ≡ (s, [])
close_text_item-NoText n s h =
    ap
      (λ b.
        if b
        then push (record s { active_text_item = false }) (closing_events s "completed")
        else (s, []))
      h.2

tool_output_index-NoText : (n : ℕ) (s : ResponsesEncoder) → NoText n s → tool_output_index s ≡ n
tool_output_index-NoText n s h = rw (h.0, h.1, h.3) refl

start_tool-NoText :
    (n : ℕ) (s : ResponsesEncoder) (index : ℕ) (call_id name : String)
    → NoText n s
    → (added (start_tool s index call_id name).1 ≡ n ∷ [])
      × NoText (n + 1) (start_tool s index call_id name).0
unfolding added push
start_tool-NoText n s index call_id name h = (
  ap (λ i. i ∷ []) (tool_output_index-NoText n s h),
  (h.0, h.1, h.2, length-snoc s.active_tools _ ∙ ap (λ k. k + 1) h.3),
)

then-NoText :
    (x y : ResponsesEncoder × List Frame) (n m : ℕ) (ks : List ℕ)
    → added x.1 ≡ []
    → (added y.1 ≡ ks) × NoText m y.0
    → (added (x.1 ++ y.1) ≡ ks) × NoText m y.0
then-NoText x y n m ks e h = (added-append x.1 y.1 ∙ (ap (λ z. z ++ added y.1) e ∙ h.0), h.1)

module _ (to_text : ℕ → String) where
  encode-NoText :
      (n : ℕ) (s : ResponsesEncoder) (e : StreamEvent)
      → is_before_text e ≡ true
      → NoText n s
      → let (s', out) = encode to_text s e in
        (added out ≡ call_indexes n (e ∷ [])) × NoText (calls_after n e) s'
  unfolding encode added push
  encode-NoText n s (StreamEvent.start id) b h = ground (arith, h)
  encode-NoText n s (StreamEvent.thinking_delta t g) b h = (refl, h)
  encode-NoText n s (StreamEvent.usage u) b h = (refl, h)
  encode-NoText n s (StreamEvent.tool_call_start index id name g) b h =
      let (none_added, h1) = ensure_created-NoText n s h in
      let (s1, out) = ensure_created s in
      rw (close_text_item-NoText n s1 h1) (
        then-NoText (s1, out ++ []) (start_tool s1 index (given_id to_text s1 index id) name) n
          (n + 1) (n ∷ []) (added-append out [] ∙ ap (λ z. z ++ []) none_added)
          (start_tool-NoText n s1 index (given_id to_text s1 index id) name h1))
  encode-NoText n s (StreamEvent.tool_call_args_delta index args) b h =
      ground (arith, h, length-append_arguments index args s.active_tools)
  encode-NoText n s (StreamEvent.text_delta t) b h = cc
  encode-NoText n s (StreamEvent.refusal_delta t) b h = cc
  encode-NoText n s (StreamEvent.finish f) b h = cc

  text-NoText :
      (n : ℕ) (s : ResponsesEncoder) (t : String)
      → NoText n s
      → added (encode to_text s (StreamEvent.text_delta t)).1 ≡ 0 ∷ []
  unfolding encode added push
  text-NoText n s t h = ground (arith, h)

  call_indexes-cons :
      (n : ℕ) (e : StreamEvent) (es : List StreamEvent)
      → call_indexes n (e ∷ []) ++ call_indexes (calls_after n e) es ≡ call_indexes n (e ∷ es)
  call_indexes-cons n (StreamEvent.tool_call_start index id name g) es = refl
  call_indexes-cons n e es = ground arith

  takes_from :
      (n : ℕ) (s : ResponsesEncoder) (es rest : List StreamEvent) (t : String)
      → All (λ e. is_before_text e ≡ true) es
      → NoText n s
      → (more : List ℕ) × (added (answer to_text s (es ++ StreamEvent.text_delta t ∷ rest))
          ≡ call_indexes n es ++ 0 ∷ more)
  unfolding answer
  takes_from n s [] rest t b h =
      let (s', out) = encode to_text s (StreamEvent.text_delta t) in
      (
        added (answer to_text s' rest),
        added-append out (answer to_text s' rest)
            ∙ ap (λ z. z ++ added (answer to_text s' rest)) (text-NoText n s t h),
      )
  takes_from n s (e ∷ es) rest t b h =
      let (s', out) = encode to_text s e in
      let (added_out, h') = encode-NoText n s e b.0 h in
      let (more, eq) = takes_from (calls_after n e) s' es rest t b.1 h' in
      (
        more,
        added-append out (answer to_text s' (es ++ StreamEvent.text_delta t ∷ rest))
            ∙ (ap (λ z. z ++ added (answer to_text s' (es ++ StreamEvent.text_delta t ∷ rest)))
                  added_out
                ∙ (ap (λ z. call_indexes n (e ∷ []) ++ z) eq
                    ∙ (sym (
                          append_assoc (call_indexes n (e ∷ [])) (call_indexes (calls_after n e) es)
                            (0 ∷ more))
                        ∙ ap (λ z. z ++ 0 ∷ more) (call_indexes-cons n e es)))),
      )

  -- The tool calls of an answer before its first text are added under the output indexes 0, 1, 2 and so
  -- on, whatever stands between them, and the message that follows under 0 once more: so the first of
  -- them, if there is one, shares its index with the message.
  pub message_takes_index :
      (request_id : String) (es rest : List StreamEvent) (t : String)
      → All (λ e. is_before_text e ≡ true) es
      → (more : List ℕ) × (added
            (answer to_text (new request_id) (es ++ StreamEvent.text_delta t ∷ rest))
          ≡ call_indexes 0 es ++ 0 ∷ more)
  message_takes_index request_id es rest t b =
      takes_from 0 (new request_id) es rest t b (refl, refl, refl, refl)
