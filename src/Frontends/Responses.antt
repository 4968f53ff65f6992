-- ===== src/Frontends/Responses.antt =====
-- src/frontends/responses.rs, `ResponsesEncoder`: the answer's events as events of OpenAI's Responses
-- stream, each with its sequence number. An event is the data of its JSON without the ids of the response
-- and of its one message, which every event repeats. The request's id is given without its dashes and
-- underscores, and `to_text` prints a number.
pub mod Terminal
pub mod Opening
pub mod Items
mod Tests
unfoldable pub use Terminal.*
use kinetix.Base.{
  ℕ, suc, ◌+◌, ◌%◌, Bool, true, false, ◌&&◌, ◌||◌, not, Option, none, some, is_some, unwrap_or,
  List, [], ◌∷◌, ◌++◌, String, ◌<>◌, str_eq, ◌==◌, if◌then◌else◌, length, min,
}
use kinetix.Types.{StreamEvent, FinishReason, TokenUsage}

pub record ActiveTool : Type 0 where
  pub index : ℕ
  pub call_id : String
  pub name : String
  pub arguments : String
  pub output_index : ℕ

pub data Part : Type 0 where
  output_text refusal : String → Part

pub data Item : Type 0 where
  message : String → List Part → Item
  function_call : String → String → String → String → Item

-- `responses_usage`: total, input, cached, written to the cache, output, reasoning.
pub record UsageObject : Type 0 where
  pub total_tokens : ℕ
  pub input_tokens : ℕ
  pub cached_tokens : ℕ
  pub cache_write_tokens : ℕ
  pub output_tokens : ℕ
  pub reasoning_tokens : ℕ

pub record ResponseObject : Type 0 where
  pub status : String
  pub incomplete_reason : Option String
  pub output : List Item
  pub usage : Option UsageObject

pub data Event : Type 0 where
  created in_progress completed incomplete : ResponseObject → Event
  failed : Option ResponsesTerminalFailure → String → Event
  output_item_added output_item_done : ℕ → Item → Event
  content_part_added content_part_done : Part → Event
  output_text_delta output_text_done refusal_delta refusal_done : String → Event
  arguments_delta : ℕ → String → String → Event
  arguments_done : ℕ → String → String → String → Event

-- A frame: its sequence number and its event.
abbrev pub Frame : Type 0
Frame = ℕ × Event

pub record ResponsesEncoder : Type 0 where
  pub response_id : String
  pub seq : ℕ
  pub created_sent : Bool
  pub active_text_item : Bool
  pub accumulated_text : String
  pub accumulated_refusal : String
  pub message_is_refusal : Bool
  pub active_tools : List ActiveTool
  pub finish_sent : Bool
  pub usage : Option TokenUsage

abbrev pub new : String → ResponsesEncoder
new request_id = record {
  response_id = "resp_" <> request_id;
  seq = 0;
  created_sent = false;
  active_text_item = false;
  accumulated_text = "";
  accumulated_refusal = "";
  message_is_refusal = false;
  active_tools = [];
  finish_sent = false;
  usage = none;
}

-- `seq += 1` on 64 bits.
abbrev pub bump : ℕ → ℕ
bump n = (n + 1) % 18446744073709551616

-- `out.push(self.frame(..))` for some events in order.
unfoldable pub push : ResponsesEncoder → List Event → ResponsesEncoder × List Frame
push s [] = (s, [])
push s (e ∷ es) = let (s', out) = push (record s { seq = bump s.seq }) es in (s', (s.seq, e) ∷ out)

abbrev then_push :
    ResponsesEncoder × List Frame → (ResponsesEncoder → List Event) → ResponsesEncoder × List Frame
then_push (s, out) es = let (s', more) = push s (es s) in (s', out ++ more)

abbrev empty_response : ResponseObject
empty_response = record {
  status = "in_progress";
  incomplete_reason = none;
  output = [];
  usage = none;
}

abbrev created_events : List Event
created_events = created empty_response ∷ in_progress empty_response ∷ []

abbrev pub ensure_created : ResponsesEncoder → ResponsesEncoder × List Frame
ensure_created s =
    if s.created_sent then (s, []) else push (record s { created_sent = true }) created_events

abbrev part_of : Bool → String → Part
part_of is_refusal t = if is_refusal then refusal t else output_text t

abbrev item_events : Bool → List Event
item_events is_refusal =
    output_item_added 0 (message "in_progress" []) ∷ content_part_added (part_of is_refusal "") ∷ []

abbrev pub ensure_message_item : ResponsesEncoder → Bool → ResponsesEncoder × List Frame
ensure_message_item s is_refusal =
    if s.active_text_item
    then (s, [])
    else push (record s { active_text_item = true; message_is_refusal = is_refusal })
        (item_events is_refusal)

abbrev pub closing_events : ResponsesEncoder → String → List Event
closing_events s status =
    let t = if s.message_is_refusal then s.accumulated_refusal else s.accumulated_text in
    let part = part_of s.message_is_refusal t in
    (if s.message_is_refusal then refusal_done t else output_text_done t)
    ∷ content_part_done part
    ∷ output_item_done 0 (message status (part ∷ []))
    ∷ []

abbrev pub close_text_item : ResponsesEncoder → String → ResponsesEncoder × List Frame
close_text_item s status =
    if s.active_text_item
    then push (record s { active_text_item = false }) (closing_events s status)
    else (s, [])

-- Run one step after another.
abbrev pub and_then_step :
    ResponsesEncoder × List Frame
    → (ResponsesEncoder → ResponsesEncoder × List Frame)
    → ResponsesEncoder × List Frame
and_then_step (s, out) f = let (s', more) = f s in (s', out ++ more)

-- The two arms that write text.
abbrev pub encode_text : ResponsesEncoder → Bool → String → ResponsesEncoder × List Frame
encode_text s is_refusal t =
    and_then_step (and_then_step (ensure_created s) (λ s. ensure_message_item s is_refusal)) λ s.
      push
        (if is_refusal
          then record s { accumulated_refusal = s.accumulated_refusal <> t }
          else record s { accumulated_text = s.accumulated_text <> t })
        ((if is_refusal then refusal_delta t else output_text_delta t) ∷ [])

abbrev pub tool_output_index : ResponsesEncoder → ℕ
tool_output_index s =
    if str_eq s.accumulated_text "" && str_eq s.accumulated_refusal ""
    then length s.active_tools
    else 1 + length s.active_tools

abbrev pub start_tool : ResponsesEncoder → ℕ → String → String → ResponsesEncoder × List Frame
start_tool s index call_id name =
    let i = tool_output_index s in
    let tool : ActiveTool = record {
      index = index;
      call_id = call_id;
      name = name;
      arguments = "";
      output_index = i;
    } in
    push (record s { active_tools = s.active_tools ++ tool ∷ [] })
      (output_item_added i (function_call call_id name "" "in_progress") ∷ [])

-- `active_tools.iter_mut().find(..)`, and the tool as it was found.
unfoldable pub append_arguments : ℕ → String → List ActiveTool → List ActiveTool × Option ActiveTool
append_arguments index args [] = ([], none)
append_arguments index args (t ∷ ts) =
    let (ts', found) = append_arguments index args ts in
    if t.index == index
    then (record t { arguments = t.arguments <> args } ∷ ts, some t)
    else (t ∷ ts', found)

abbrev pub add_arguments : ResponsesEncoder → ℕ → String → ResponsesEncoder × List Frame
add_arguments s index args =
    let (tools, found) = append_arguments index args s.active_tools in
    push (record s { active_tools = tools })
      (elim found [ none ↦ [] | some t ↦ arguments_delta t.output_index t.call_id args ∷ [] ])

abbrev saturating_add : ℕ → ℕ → ℕ
saturating_add a b = min (a + b) 18446744073709551615

abbrev pub responses_usage : Option TokenUsage → UsageObject
responses_usage u = elim u [
  | none ↦ record {
    total_tokens = 0;
    input_tokens = 0;
    cached_tokens = 0;
    cache_write_tokens = 0;
    output_tokens = 0;
    reasoning_tokens = 0;
  }
  | some u ↦ record {
    total_tokens = saturating_add (unwrap_or u.input 0) (unwrap_or u.output 0);
    input_tokens = unwrap_or u.input 0;
    cached_tokens = unwrap_or u.cached 0;
    cache_write_tokens = unwrap_or u.cache_write 0;
    output_tokens = unwrap_or u.output 0;
    reasoning_tokens = unwrap_or u.thinking 0;
  }
]

abbrev is_nil : List ActiveTool → Bool
is_nil [] = true
is_nil (t ∷ ts) = false

unfoldable pub tool_items : String → List ActiveTool → List Item
tool_items status [] = []
tool_items status (t ∷ ts) =
    function_call t.call_id t.name t.arguments status ∷ tool_items status ts

abbrev message_parts : ResponsesEncoder → List Part
message_parts s =
    let no_text = str_eq s.accumulated_text "" in
    let no_refusal = str_eq s.accumulated_refusal "" in
    (if not no_text || (no_refusal && is_nil s.active_tools)
      then output_text s.accumulated_text ∷ []
      else [])
    ++ (if no_refusal then [] else refusal s.accumulated_refusal ∷ [])

abbrev message_items : ResponsesEncoder → String → List Item
message_items s status =
    if not (str_eq s.accumulated_text "")
      || (not (str_eq s.accumulated_refusal "") || is_nil s.active_tools)
    then message status (message_parts s) ∷ []
    else []

abbrev pub response_status : FinishReason → String
response_status f = if is_some (responses_incomplete_reason f) then "incomplete" else "completed"

-- `build_response_object` where the finish is no failure.
unfoldable pub build_response_object : ResponsesEncoder → FinishReason → ResponseObject
unfolding tool_items
build_response_object s f = record {
  status = response_status f;
  incomplete_reason = responses_incomplete_reason f;
  output = message_items s (response_status f) ++ tool_items (response_status f) s.active_tools;
  usage = some (responses_usage s.usage);
}

unfoldable pub tool_endings : String → List ActiveTool → List Event
tool_endings status [] = []
tool_endings status (t ∷ ts) =
    arguments_done t.output_index t.call_id t.name t.arguments
    ∷ output_item_done t.output_index (function_call t.call_id t.name t.arguments status)
    ∷ tool_endings status ts

abbrev terminal_event : ResponsesEncoder → FinishReason → Event
terminal_event s f =
    if is_some (responses_incomplete_reason f)
    then incomplete (build_response_object s f)
    else completed (build_response_object s f)

abbrev finish_failed : ResponsesEncoder → ResponsesTerminalFailure → ResponsesEncoder × List Frame
finish_failed s failure =
    and_then_step (ensure_created s) (λ s. push s (failed (some failure) "" ∷ []))

abbrev finish_whole : ResponsesEncoder → FinishReason → ResponsesEncoder × List Frame
finish_whole s f =
    and_then_step (close_text_item s (response_status f))
      λ s. push s (tool_endings (response_status f) s.active_tools ++ terminal_event s f ∷ [])

-- The arm for `Finish`.
unfoldable pub finish_with : ResponsesEncoder → FinishReason → ResponsesEncoder × List Frame
unfolding build_response_object tool_endings push
finish_with s f =
    let s' = record s { finish_sent = true } in
    elim (responses_stream_failure f (not (str_eq s.accumulated_refusal ""))) [
      | some failure ↦ finish_failed s' failure
      | none ↦ finish_whole s' f
    ]

module _ (to_text : ℕ → String) where
  abbrev pub given_id : ResponsesEncoder → ℕ → Option String → String
  given_id s index id = unwrap_or id ("call_" <> s.response_id <> "_" <> to_text index)

  unfoldable pub encode : ResponsesEncoder → StreamEvent → ResponsesEncoder × List Frame
  unfolding finish_with append_arguments
  encode s (StreamEvent.start id) = ensure_created s
  encode s (StreamEvent.text_delta t) = encode_text s false t
  encode s (StreamEvent.refusal_delta t) = encode_text s true t
  encode s (StreamEvent.thinking_delta t signature) = (s, [])
  encode s (StreamEvent.tool_call_start index id name signature) =
      and_then_step (and_then_step (ensure_created s) (λ s. close_text_item s "completed"))
        λ s. start_tool s index (given_id s index id) name
  encode s (StreamEvent.tool_call_args_delta index args) =
      and_then_step (ensure_created s) (λ s. add_arguments s index args)
  encode s (StreamEvent.usage u) = (record s { usage = some u }, [])
  encode s (StreamEvent.finish f) = finish_with s f

  unfoldable pub finalize : ResponsesEncoder → ResponsesEncoder × List Frame
  unfolding encode
  finalize s = if s.finish_sent then (s, []) else encode s (StreamEvent.finish FinishReason.stop)

  -- The frames of an answer: those of its events in order, then those of the end.
  unfoldable pub answer : ResponsesEncoder → List StreamEvent → List Frame
  unfolding encode finalize
  answer s [] = (finalize s).1
  answer s (e ∷ es) = let (s', out) = encode s e in out ++ answer s' es

unfoldable pub error_frame : ResponsesEncoder → String → ResponsesEncoder × List Frame
unfolding push
error_frame s text = push s (failed none text ∷ [])
