-- ===== src/Frontends/Anthropic.antt =====
-- src/frontends/anthropic.rs, `AnthropicEncoder`: the answer's events as the frames of Anthropic's
-- message stream. A frame is the data of its JSON; `to_text` prints a number, and `plain` takes the
-- dashes and underscores out of an id.
pub mod Protocol
mod Tests
use kinetix.Base.{
  ℕ, ◌+◌, ◌%◌, Bool, true, false, Option, none, some, is_some, unwrap_or, or_option, List, [], ◌∷◌,
  ◌++◌, String, ◌<>◌, str_eq, ◌==◌, if◌then◌else◌,
}
use kinetix.Types.{StreamEvent, FinishReason, TokenUsage, merge}

pub data BlockState : Type 0 where
  text thinking : BlockState

pub data Block : Type 0 where
  text_block thinking_block : Block
  tool_use : String → String → Block

pub data Delta : Type 0 where
  text_delta thinking_delta signature_delta input_json_delta : String → Delta

pub data Frame : Type 0 where
  message_start : String → String → Frame
  content_block_start : ℕ → Block → Frame
  content_block_delta : ℕ → Delta → Frame
  content_block_stop : ℕ → Frame
  message_delta : String → ℕ → Frame
  message_stop : Frame
  error : String → Frame

pub record AnthropicEncoder : Type 0 where
  pub request_id : String
  pub model_name : String
  pub started : Bool
  pub next_index : ℕ
  pub open_block : Option (ℕ × BlockState)
  pub tool_blocks : List (ℕ × (ℕ × String × String))
  pub usage : TokenUsage
  pub finish : Option FinishReason
  pub stop_reason_sent : Bool

abbrev pub new : String → String → AnthropicEncoder
new request_id model_name = record {
  request_id = request_id;
  model_name = model_name;
  started = false;
  next_index = 0;
  open_block = none;
  tool_blocks = [];
  usage = record {
    input = none;
    output = none;
    cached = none;
    cache_write = none;
    thinking = none;
  };
  finish = none;
  stop_reason_sent = false;
}

-- `HashMap<u32, (u32, String, String)>`
unfoldable pub block_of : ℕ → List (ℕ × (ℕ × String × String)) → Option ℕ
block_of i [] = none
block_of i ((j, (b, id, name)) ∷ m) = if j == i then some b else block_of i m

unfoldable pub put_block :
    ℕ → ℕ × String × String → List (ℕ × (ℕ × String × String)) → List (ℕ × (ℕ × String × String))
put_block i b [] = (i, b) ∷ []
put_block i b ((j, c) ∷ m) = if j == i then (j, b) ∷ m else (j, c) ∷ put_block i b m

-- `next_index += 1` on 32 bits.
abbrev pub bump : ℕ → ℕ
bump n = (n + 1) % 4294967296

abbrev pub close_open_block : AnthropicEncoder → AnthropicEncoder × List Frame
close_open_block s = elim s.open_block [
  | none ↦ (s, [])
  | some (i, b) ↦ (record s { open_block = none }, content_block_stop i ∷ [])
]

-- Every opener: close what is open, take the next index, and announce the block.
abbrev pub open_new : AnthropicEncoder → Block → BlockState → AnthropicEncoder × List Frame
open_new s block state =
    let (s', out) = close_open_block s in
    (
      record s' { next_index = bump s'.next_index; open_block = some (s'.next_index, state) },
      out ++ content_block_start s'.next_index block ∷ [],
    )

abbrev pub open_text_block : AnthropicEncoder → AnthropicEncoder × List Frame
open_text_block s = elim s.open_block [ some (i, text) ↦ (s, []) | _ ↦ open_new s text_block text ]

abbrev pub open_thinking_block : AnthropicEncoder → AnthropicEncoder × List Frame
open_thinking_block s = elim s.open_block [
  | some (i, thinking) ↦ (s, [])
  | _ ↦ open_new s thinking_block thinking
]

-- The block of the tool is opened as one of text.
abbrev pub open_tool_block : AnthropicEncoder → ℕ → String → String → AnthropicEncoder × List Frame
open_tool_block s index id name =
    let (s', out) = open_new s (tool_use id name) text in
    (record s' { tool_blocks = put_block index (s.next_index, id, name) s.tool_blocks }, out)

abbrev pub open_index : AnthropicEncoder → Option ℕ
open_index s = elim s.open_block [ none ↦ none | some (i, b) ↦ some i ]

-- What a delta of thinking writes: its text and its signature, each unless empty.
abbrev pub thinking_deltas : ℕ → String → Option String → List Frame
thinking_deltas i t signature =
    (if str_eq t "" then [] else content_block_delta i (thinking_delta t) ∷ []) ++ elim signature [
      | none ↦ []
      | some g ↦ if str_eq g "" then [] else content_block_delta i (signature_delta g) ∷ []
    ]

abbrev pub stop_reason : Option FinishReason → String
stop_reason (some FinishReason.length) = "max_tokens"
stop_reason (some FinishReason.tool_calls) = "tool_use"
stop_reason _ = "end_turn"

module _ (to_text : ℕ → String) (plain : String → String) where
  abbrev pub message_id : AnthropicEncoder → String
  message_id s = "msg_" <> plain s.request_id

  abbrev pub emit_start : AnthropicEncoder → AnthropicEncoder × List Frame
  emit_start s =
      if s.started
      then (s, [])
      else (record s { started = true }, message_start (message_id s) s.model_name ∷ [])

  -- The two arms that write text.
  abbrev pub encode_text : AnthropicEncoder → String → AnthropicEncoder × List Frame
  encode_text s t =
      let (s1, begin) = emit_start s in
      let (s2, opened) = open_text_block s1 in
      (
        s2,
        begin ++ (opened ++ content_block_delta (unwrap_or (open_index s2) 0) (text_delta t) ∷ []),
      )

  unfoldable pub encode : AnthropicEncoder → StreamEvent → AnthropicEncoder × List Frame
  unfolding block_of put_block
  encode s (StreamEvent.start id) = emit_start s
  encode s (StreamEvent.text_delta t) = encode_text s t
  encode s (StreamEvent.refusal_delta t) = encode_text s t
  encode s (StreamEvent.thinking_delta t signature) =
      let (s1, begin) = emit_start s in
      let (s2, opened) = open_thinking_block s1 in
      (s2, begin ++ (opened ++ thinking_deltas (unwrap_or (open_index s2) 0) t signature))
  encode s (StreamEvent.tool_call_start index id name signature) =
      let (s1, begin) = emit_start s in
      let shown = unwrap_or id ("toolu_" <> s.request_id <> "_" <> to_text index) in
      let (s2, opened) = open_tool_block s1 index shown name in (s2, begin ++ opened)
  encode s (StreamEvent.tool_call_args_delta index args) =
      let i = unwrap_or (or_option (block_of index s.tool_blocks) (open_index s)) 0 in
      (s, content_block_delta i (input_json_delta args) ∷ [])
  encode s (StreamEvent.usage u) = (record s { usage = merge s.usage u }, [])
  encode s (StreamEvent.finish f) = (record s { finish = some f }, [])

  unfoldable pub finalize : AnthropicEncoder → AnthropicEncoder × List Frame
  finalize s =
      let (s1, begin) = emit_start s in
      let (s2, closed) = close_open_block s1 in
      let last =
        if s2.stop_reason_sent
        then []
        else message_delta (stop_reason s2.finish) (unwrap_or s2.usage.output 0) ∷ [] in
      (record s2 { stop_reason_sent = true }, begin ++ (closed ++ (last ++ message_stop ∷ [])))

  -- The frames of an answer: those of its events in order, then those of the end.
  unfoldable pub answer : AnthropicEncoder → List StreamEvent → List Frame
  unfolding encode finalize
  answer s [] = (finalize s).1
  answer s (e ∷ es) = let (s', out) = encode s e in out ++ answer s' es

pub error_frame : String → List Frame
error_frame message = error message ∷ []
