-- ===== src/Frontends/OpenAi.antt =====
-- src/frontends/openai.rs, `OpenAiEncoder`: the answer's events as chunks of OpenAI's chat completions.
-- A chunk is the data of its JSON without the id, the time and the model that every chunk repeats. The
-- set of started tools is written and never read, and left out. `to_text` prints a number, and `id` is
-- the id of the completion.
pub mod Usage
mod Tests
use kinetix.Base.{
  ℕ, ◌+◌, ◌%◌, Bool, true, false, ◌&&◌, not, Option, none, some, unwrap_or, List, [], ◌∷◌, ◌++◌,
  String, ◌<>◌, str_eq, if◌then◌else◌,
}
use kinetix.Types.{StreamEvent, FinishReason, TokenUsage}

pub data Chunk : Type 0 where
  role : Chunk
  content reasoning_content : String → Chunk
  tool_start : ℕ → String → String → Chunk
  tool_arguments : ℕ → String → Chunk
  finish_reason : String → Chunk
  usage_of : ℕ → ℕ → ℕ → Option ℕ → Option ℕ → Chunk
  error_object : String → Chunk
  done : Chunk

pub record OpenAiEncoder : Type 0 where
  pub include_usage : Bool
  pub role_sent : Bool
  pub finish_sent : Bool
  pub usage : Option TokenUsage
  pub id : String

-- `new`, then `set_include_usage`.
abbrev pub new : String → Bool → OpenAiEncoder
new id include_usage = record {
  include_usage = include_usage;
  role_sent = false;
  finish_sent = false;
  usage = none;
  id = id;
}

abbrev pub ensure_role : OpenAiEncoder → OpenAiEncoder × List Chunk
ensure_role s = if s.role_sent then (s, []) else (record s { role_sent = true }, role ∷ [])

abbrev pub openai_finish : FinishReason → String
openai_finish FinishReason.stop = "stop"
openai_finish FinishReason.length = "length"
openai_finish FinishReason.tool_calls = "tool_calls"
openai_finish FinishReason.content_filter = "content_filter"
openai_finish (FinishReason.other s) = s

-- The total is a sum of 64-bit words.
abbrev pub usage_chunk : TokenUsage → Chunk
usage_chunk u =
    let input = unwrap_or u.input 0 in
    let output = unwrap_or u.output 0 in
    usage_of input output ((input + output) % 18446744073709551616) u.cached u.thinking

abbrev pub usage_chunks : OpenAiEncoder → List Chunk
usage_chunks s =
    if s.include_usage then elim s.usage [ none ↦ [] | some u ↦ usage_chunk u ∷ [] ] else []

abbrev pub encode_content : OpenAiEncoder → List Chunk → OpenAiEncoder × List Chunk
encode_content s chunks = let (s', begin) = ensure_role s in (s', begin ++ chunks)

module _ (to_text : ℕ → String) where
  unfoldable pub encode : OpenAiEncoder → StreamEvent → OpenAiEncoder × List Chunk
  encode s (StreamEvent.start id) = (s, [])
  encode s (StreamEvent.text_delta t) = encode_content s (content t ∷ [])
  encode s (StreamEvent.refusal_delta t) = encode_content s (content t ∷ [])
  encode s (StreamEvent.thinking_delta t signature) =
      encode_content s (if str_eq t "" then [] else reasoning_content t ∷ [])
  encode s (StreamEvent.tool_call_start index id name signature) =
      encode_content s
        (tool_start index (unwrap_or id ("call_" <> s.id <> "_" <> to_text index)) name ∷ [])
  encode s (StreamEvent.tool_call_args_delta index args) =
      encode_content s (tool_arguments index args ∷ [])
  encode s (StreamEvent.usage u) = (record s { usage = some u }, [])
  encode s (StreamEvent.finish f) =
      (record s { finish_sent = true }, finish_reason (openai_finish f) ∷ usage_chunks s)

  unfoldable pub finalize : OpenAiEncoder → OpenAiEncoder × List Chunk
  finalize s =
      if s.finish_sent
      then (s, done ∷ [])
      else (let (s', begin) = ensure_role s in
          (s', begin ++ (finish_reason "stop" ∷ (usage_chunks s' ++ done ∷ []))))

  -- The chunks of an answer: those of its events in order, then those of the end.
  unfoldable pub answer : OpenAiEncoder → List StreamEvent → List Chunk
  unfolding encode finalize
  answer s [] = (finalize s).1
  answer s (e ∷ es) = let (s', out) = encode s e in out ++ answer s' es

pub error_frame : String → List Chunk
error_frame message = error_object message ∷ finish_reason "error" ∷ done ∷ []
