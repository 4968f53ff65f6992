-- ===== src/Frontends/Anthropic/Tests.antt =====
-- A tool call between two texts.
use kinetix.Base.{
  ℕ, ◌≡◌, refl, true, none, some, List, [], ◌∷◌, ◌++◌, String, ◌==◌, if◌then◌else◌, arith,
}
use kinetix.Types.{StreamEvent, FinishReason}
use kinetix.Frontends.Anthropic.{new, answer}
use kinetix.Frontends.Anthropic.Protocol.{
  idle, done, IsMisplaced, read_all, nothing, is_tool, ordered, last_of, answer-ordered,
  answer_broken,
}

abbrev to_text : ℕ → String
to_text n = if n == 0 then "0" else "many"

abbrev plain : String → String
plain s = s

abbrev events : List StreamEvent
events =
    StreamEvent.text_delta "I look."
    ∷ StreamEvent.tool_call_start 0 (some "t") "find" none
    ∷ StreamEvent.tool_call_args_delta 0 "{}"
    ∷ []

events-ordered : ordered nothing (events ++ StreamEvent.finish FinishReason.tool_calls ∷ []) ≡ true
unfolding ordered
events-ordered = refl

answer-ordered_example :
    read_all idle (
      answer to_text plain
        (new "r" "m")
        (events ++ StreamEvent.finish FinishReason.tool_calls ∷ []))
    ≡ done
answer-ordered_example =
    answer-ordered to_text plain "r" "m" (events ++ StreamEvent.finish FinishReason.tool_calls ∷ [])
      events-ordered (omega arith)

ends_in_tool : is_tool (last_of nothing events) ≡ true
unfolding last_of
ends_in_tool = refl

only_events : ordered nothing events ≡ true
unfolding ordered
only_events = refl

answer_broken_example : IsMisplaced to_text plain idle "Done." (
    answer to_text plain
      (new "r" "m")
      (events ++ StreamEvent.text_delta "Done." ∷ StreamEvent.finish FinishReason.stop ∷ []))
answer_broken_example =
    answer_broken to_text plain "r" "m" events (StreamEvent.finish FinishReason.stop ∷ []) "Done."
      only_events ends_in_tool (omega arith)
