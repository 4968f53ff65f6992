-- ===== src/Frontends/Responses/Terminal.antt =====
-- src/frontends/responses.rs: how the reason of a finish ends a response.
use kinetix.Base.{Bool, Option, none, some, String, str_eq, if◌then◌else◌}
use kinetix.Types.{FinishReason}

pub data ResponsesTerminalFailure : Type 0 where
  unsupported_provider_reason unstreamable_refusal : ResponsesTerminalFailure

pub data ResponsesTerminal : Type 0 where
  completed_terminal refusal_terminal : ResponsesTerminal
  incomplete_terminal : String → ResponsesTerminal
  failed_terminal : ResponsesTerminalFailure → ResponsesTerminal

unfoldable pub responses_terminal : FinishReason → ResponsesTerminal
responses_terminal FinishReason.length = incomplete_terminal "max_output_tokens"
responses_terminal FinishReason.content_filter = incomplete_terminal "content_filter"
responses_terminal (FinishReason.other reason) =
    if str_eq reason "refusal"
    then refusal_terminal
    else if str_eq reason "steered"
    then incomplete_terminal "steered"
    else failed_terminal unsupported_provider_reason
responses_terminal FinishReason.stop = completed_terminal
responses_terminal FinishReason.tool_calls = completed_terminal

abbrev failure_of : ResponsesTerminal → Bool → Option ResponsesTerminalFailure
failure_of (failed_terminal failure) has_refusal = some failure
failure_of refusal_terminal has_refusal = if has_refusal then none else some unstreamable_refusal
failure_of completed_terminal has_refusal = none
failure_of (incomplete_terminal reason) has_refusal = none

unfoldable pub responses_stream_failure : FinishReason → Bool → Option ResponsesTerminalFailure
unfolding responses_terminal
responses_stream_failure f has_refusal = failure_of (responses_terminal f) has_refusal

abbrev reason_of : ResponsesTerminal → Option String
reason_of (incomplete_terminal reason) = some reason
reason_of _ = none

unfoldable pub responses_incomplete_reason : FinishReason → Option String
unfolding responses_terminal
responses_incomplete_reason f = reason_of (responses_terminal f)
