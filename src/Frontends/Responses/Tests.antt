-- ===== src/Frontends/Responses/Tests.antt =====
-- An answer of thinking alone, and one whose tool call comes before its text.
use kinetix.Base.{
  ℕ, ◌≡◌, refl, true, false, none, some, List, [], ◌∷◌, ◌++◌, String, ◌==◌, if◌then◌else◌,
}
use kinetix.Types.{StreamEvent, FinishReason}
use kinetix.Frontends.Responses.{new, answer, responses_stream_failure}
use kinetix.Frontends.Responses.Opening.{begins_created, all_quiet, announces, answer-announces}
use kinetix.Frontends.Responses.Items.{added, message_takes_index}

abbrev to_text : ℕ → String
to_text n = if n == 0 then "0" else "many"

abbrev thoughts : List StreamEvent
thoughts = StreamEvent.thinking_delta "Hm." none ∷ []

thoughts_quiet : all_quiet thoughts ≡ true
unfolding all_quiet
thoughts_quiet = refl

answer-announces_example :
    begins_created
      (answer to_text (new "r") (thoughts ++ StreamEvent.finish FinishReason.stop ∷ []))
    ≡ announces (StreamEvent.finish FinishReason.stop)
answer-announces_example =
    answer-announces to_text "r" thoughts [] (StreamEvent.finish FinishReason.stop) thoughts_quiet
      refl

not_announced : announces (StreamEvent.finish FinishReason.stop) ≡ false
unfolding responses_stream_failure
not_announced = refl

abbrev two_calls : List StreamEvent
two_calls =
    StreamEvent.start none
    ∷ StreamEvent.tool_call_start 0 (some "t") "find" none
    ∷ StreamEvent.tool_call_args_delta 0 "{}"
    ∷ StreamEvent.tool_call_start 1 (some "u") "read" none
    ∷ []

message_takes_index_example :
    (more : List ℕ) × (added
        (answer to_text (new "r") (two_calls ++ StreamEvent.text_delta "Done." ∷ []))
      ≡ (0 ∷ 1 ∷ []) ++ 0 ∷ more)
message_takes_index_example =
    message_takes_index to_text "r" two_calls [] "Done." (refl, (refl, (refl, (refl, tt))))
