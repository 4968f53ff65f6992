-- ===== src/Frontends/OpenAi/Usage.antt =====
-- The finish reason, the usage and the end of an answer of OpenAI's chat completions.
use kinetix.Base.{
  ℕ, ◌≡◌, refl, ap, ◌∙◌, Bool, true, false, ◌&&◌, not, Option, none, some, List, [], ◌∷◌, ◌++◌,
  String, arith,
}
use kinetix.Types.{StreamEvent, FinishReason, TokenUsage}
use kinetix.Frontends.OpenAi.{
  Chunk, finish_reason, usage_of, done, OpenAiEncoder, new, usage_chunk, usage_chunks,
  openai_finish, encode, finalize, answer,
}

-- The chunks that say how the answer ends: its finish reason, its usage and the mark of the end.
unfoldable pub endings : List Chunk → List Chunk
endings [] = []
endings (finish_reason r ∷ cs) = finish_reason r ∷ endings cs
endings (usage_of i o t c h ∷ cs) = usage_of i o t c h ∷ endings cs
endings (done ∷ cs) = done ∷ endings cs
endings (_ ∷ cs) = endings cs

endings-append : (cs ds : List Chunk) → endings (cs ++ ds) ≡ endings cs ++ endings ds
unfolding endings
endings-append [] ds = refl
endings-append (finish_reason r ∷ cs) ds = ap (λ z. finish_reason r ∷ z) (endings-append cs ds)
endings-append (usage_of i o t c h ∷ cs) ds =
    ap (λ z. usage_of i o t c h ∷ z) (endings-append cs ds)
endings-append (done ∷ cs) ds = ap (λ z. done ∷ z) (endings-append cs ds)
endings-append (c ∷ cs) ds = endings-append cs ds

abbrev pub is_finish : StreamEvent → Bool
is_finish (StreamEvent.finish f) = true
is_finish _ = false

unfoldable pub no_finish : List StreamEvent → Bool
no_finish [] = true
no_finish (e ∷ es) = not (is_finish e) && no_finish es

-- The usage that an encoder knows after some events.
abbrev pub noticed : Option TokenUsage → StreamEvent → Option TokenUsage
noticed u (StreamEvent.usage v) = some v
noticed u _ = u

unfoldable pub last_usage : Option TokenUsage → List StreamEvent → Option TokenUsage
last_usage u [] = u
last_usage u (e ∷ es) = last_usage (noticed u e) es

-- The chunk of a usage, if there is one and the client asked for it.
abbrev pub reported : Bool → Option TokenUsage → List Chunk
reported true (some u) = usage_chunk u ∷ []
reported _ _ = []

abbrev told_end : FinishReason → Bool → Option TokenUsage → List Chunk
told_end f b u = finish_reason (openai_finish f) ∷ (reported b u ++ done ∷ [])

module _ (to_text : ℕ → String) where
  encode_quiet :
      (s : OpenAiEncoder) (e : StreamEvent)
      → is_finish e ≡ false
      → let (s', out) = encode to_text s e in
        (endings out ≡ [])
        × (s'.usage ≡ noticed s.usage e)
        × (s'.include_usage ≡ s.include_usage)
        × (s'.finish_sent ≡ s.finish_sent)
  unfolding encode endings
  encode_quiet s (StreamEvent.start id) h = (refl, refl, refl, refl)
  encode_quiet s e h = ground arith

  -- Once the finish reason is out, only the mark of the end follows.
  after_finish :
      (s : OpenAiEncoder) (es : List StreamEvent)
      → s.finish_sent ≡ true
      → no_finish es ≡ true
      → endings (answer to_text s es) ≡ done ∷ []
  unfolding answer no_finish finalize
  after_finish s [] f h = rw f (unfold endings in refl)
  after_finish s (e ∷ es) f h =
      let (out, u, i, g) = encode_quiet s e (ground arith) in
      endings-append (encode to_text s e).1 (answer to_text (encode to_text s e).0 es)
      ∙ rw out (after_finish (encode to_text s e).0 es (g ∙ f) (ground arith))

  up_to_finish :
      (s : OpenAiEncoder) (before after : List StreamEvent) (f : FinishReason)
      → no_finish before ≡ true
      → no_finish after ≡ true
      → endings (answer to_text s (before ++ StreamEvent.finish f ∷ after))
        ≡ finish_reason (openai_finish f)
          ∷ (reported s.include_usage (last_usage s.usage before) ++ done ∷ [])
  unfolding answer no_finish last_usage
  up_to_finish s [] after f h g =
      let s' : OpenAiEncoder = record s { finish_sent = true } in
      endings-append (finish_reason (openai_finish f) ∷ usage_chunks s) (answer to_text s' after)
      ∙ rw (after_finish s' after refl g) (end_chunks s f)
    where
      end_chunks :
          (s : OpenAiEncoder) (f : FinishReason)
          → endings (finish_reason (openai_finish f) ∷ usage_chunks s) ++ done ∷ []
            ≡ finish_reason (openai_finish f) ∷ (reported s.include_usage s.usage ++ done ∷ [])
      end_chunks s f = unfold endings in ground arith
  up_to_finish s (e ∷ before) after f h g =
      let (out, u, i, _) = encode_quiet s e (ground arith) in
      let s' = (encode to_text s e).0 in
      endings-append (encode to_text s e).1
        (answer to_text s' (before ++ StreamEvent.finish f ∷ after))
      ∙ rw out (
          up_to_finish s' before after f (ground arith) g
          ∙ (ap (λ b. told_end f b (last_usage s'.usage before)) i
              ∙ ap (λ z. told_end f s.include_usage (last_usage z before)) u))

  -- An answer whose events have one finish tells how it ended exactly once: the finish reason, then, if
  -- the client asked for it, the last usage that came before the finish, then the mark of the end, and
  -- nothing of these anywhere else. A usage that comes after the finish is not told.
  pub answer-endings :
      (id : String) (include_usage : Bool) (before after : List StreamEvent) (f : FinishReason)
      → no_finish before ≡ true
      → no_finish after ≡ true
      → endings (answer to_text (new id include_usage) (before ++ StreamEvent.finish f ∷ after))
        ≡ finish_reason (openai_finish f)
          ∷ (reported include_usage (last_usage none before) ++ done ∷ [])
  answer-endings id include_usage before after f h g =
      up_to_finish (new id include_usage) before after f h g
