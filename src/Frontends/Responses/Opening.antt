-- ===== src/Frontends/Responses/Opening.antt =====
-- src/frontends/responses.rs: the first event of a Responses stream.
use kinetix.Base.{
  ℕ, ◌≡◌, refl, inl, inr, Bool, true, false, ◌&&◌, is_some, List, [], ◌∷◌, ◌++◌, String, ◌==◌,
  arith, Option-cases,
}
use kinetix.Types.{StreamEvent}
use kinetix.Frontends.Responses.{
  ResponsesEncoder, created, Frame, new, push, encode, answer, finish_with,
  responses_stream_failure, responses_incomplete_reason,
}

abbrev pub is_quiet : StreamEvent → Bool
is_quiet (StreamEvent.thinking_delta t g) = true
is_quiet (StreamEvent.usage u) = true
is_quiet _ = false

unfoldable pub all_quiet : List StreamEvent → Bool
all_quiet [] = true
all_quiet (e ∷ es) = is_quiet e && all_quiet es

-- A finish announces the response only if it fails.
abbrev pub announces : StreamEvent → Bool
announces (StreamEvent.finish f) = is_some (responses_stream_failure f false)
announces _ = true

-- The stream begins with `response.created`, under the number 0.
unfoldable pub begins_created : List Frame → Bool
begins_created ((n, created r) ∷ fs) = n == 0
begins_created _ = false

-- Nothing but thinking and usage so far.
record Fresh (s : ResponsesEncoder) : Type 0 where
  unsent : s.created_sent ≡ false
  first : s.seq ≡ 0
  no_item : s.active_text_item ≡ false
  no_refusal : s.accumulated_refusal ≡ ""
  no_tools : s.active_tools ≡ []

module _ (to_text : ℕ → String) where
  quiet-Fresh :
      (s : ResponsesEncoder) (e : StreamEvent)
      → is_quiet e ≡ true
      → Fresh s
      → Fresh (encode to_text s e).0 × ((encode to_text s e).1 ≡ [])
  unfolding encode
  quiet-Fresh s (StreamEvent.thinking_delta t g) q f = (f, refl)
  quiet-Fresh s (StreamEvent.usage u) q f = (
    record {
      unsent = f.unsent;
      first = f.first;
      no_item = f.no_item;
      no_refusal = f.no_refusal;
      no_tools = f.no_tools;
    },
    refl,
  )
  quiet-Fresh s e q f = cc

  first_announced :
      (s : ResponsesEncoder) (e : StreamEvent) (rest : List Frame)
      → is_quiet e ≡ false
      → Fresh s
      → begins_created ((encode to_text s e).1 ++ rest) ≡ announces e
  unfolding encode push begins_created
  first_announced s (StreamEvent.start id) rest q f = rw (f.unsent, f.first) refl
  first_announced s (StreamEvent.text_delta t) rest q f = rw (f.unsent, f.first) refl
  first_announced s (StreamEvent.refusal_delta t) rest q f = rw (f.unsent, f.first) refl
  first_announced s (StreamEvent.tool_call_start i id n g) rest q f = rw (f.unsent, f.first) refl
  first_announced s (StreamEvent.tool_call_args_delta i a) rest q f = rw (f.unsent, f.first) refl
  first_announced s (StreamEvent.finish r) rest q f =
      elim (Option-cases (responses_stream_failure r false)) [
        | inr (failure, e) ↦ rw (finish_with, f.no_refusal, e, f.unsent, f.first) refl
        | inl e ↦ elim (Option-cases (responses_incomplete_reason r)) [
          | inl i ↦ rw (finish_with, f.no_refusal, e, f.no_item, f.no_tools, i) refl
          | inr (reason, i) ↦ rw (finish_with, f.no_refusal, e, f.no_item, f.no_tools, i) refl
        ]
      ]
  first_announced s (StreamEvent.thinking_delta t g) rest q f = cc
  first_announced s (StreamEvent.usage u) rest q f = cc

  opening :
      (s : ResponsesEncoder) (quiet rest : List StreamEvent) (e : StreamEvent)
      → all_quiet quiet ≡ true
      → is_quiet e ≡ false
      → Fresh s
      → begins_created (answer to_text s (quiet ++ e ∷ rest)) ≡ announces e
  unfolding answer all_quiet
  opening s [] rest e a q f = first_announced s e (answer to_text (encode to_text s e).0 rest) q f
  opening s (e' ∷ quiet) rest e a q f =
      let (f', nothing) = quiet-Fresh s e' (ground arith) f in
      rw nothing (opening (encode to_text s e').0 quiet rest e (ground arith) q f')

  -- Which event opens the stream of an answer is decided by the first event of the provider that is
  -- neither thinking nor usage: the stream begins with `response.created` under the number 0 if that is
  -- the start, text, a refusal, a tool call or a finish that fails, and does not if it is any other
  -- finish; then the stream is without `response.created` at its head.
  pub answer-announces :
      (request_id : String) (quiet rest : List StreamEvent) (e : StreamEvent)
      → all_quiet quiet ≡ true
      → is_quiet e ≡ false
      → begins_created (answer to_text (new request_id) (quiet ++ e ∷ rest)) ≡ announces e
  answer-announces request_id quiet rest e a q =
      opening (new request_id) quiet rest e a q
        (record { unsent = refl; first = refl; no_item = refl; no_refusal = refl; no_tools = refl })
