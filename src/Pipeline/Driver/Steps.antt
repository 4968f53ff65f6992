-- ===== src/Pipeline/Driver/Steps.antt =====
-- src/pipeline.rs, `drive_stream`: the state of the driver, its interfaces to the encoder and the
-- adapter, and its smallest steps.
use kinetix.Base.{
  ℕ, zero, suc, Bool, true, false, ◌||◌, Option, none, some, List, [], ◌∷◌, ◌++◌, String, ◌<>◌,
  str_eq, if◌then◌else◌, Result, any,
}
use kinetix.Types.{StreamEvent, TokenUsage, FailureKind, merge}
use kinetix.Sse.{SseFramer, SseFrameError, frame_too_large}
use kinetix.Pipeline.Tools.{ToolStreamState}

-- `frontends::Encoder`
pub record EncoderOf (E F : Type 0) : Type 0 where
  pub encode : E → StreamEvent → E × List F
  pub finalize : E → E × List F
  pub error_frame : E → String → E × List F

-- What the driver asks the adapter of the provider's format, and the payload's JSON.
pub record AdapterOf : Type 0 where
  pub parse_stream_chunk : String → Result String (List StreamEvent)
  pub payload_error : String → Option (FailureKind × String)
  pub is_message_stop : String → Bool

pub data Status : Type 0 where
  success stream_error client_disconnect : Status

abbrev pub is_success : Status → Bool
is_success success = true
is_success _ = false

abbrev pub is_stream_error : Status → Bool
is_stream_error stream_error = true
is_stream_error _ = false

pub data Input : Type 0 where
  disconnected notified keepalive idle_timeout ended : Input
  chunk : List ℕ → Input
  chunk_error : Bool → String → Input

pub record Drive (E F : Type 0) : Type 0 where
  pub encoder : E
  pub tool_stream : ToolStreamState
  pub framer : SseFramer
  pub usage : TokenUsage
  pub terminal_seen : Bool
  pub status : Status
  pub status_code : ℕ
  pub error_message : Option String
  pub provider_failure : Option FailureKind
  pub committed : Bool
  pub cancellations : ℕ
  pub sent : List F
  pub room : Option ℕ

-- The three assignments of every failure.
abbrev pub fail : {E F : Type 0} → Drive E F → ℕ → String → Drive E F
fail d code message = record d {
  status = stream_error;
  status_code = code;
  error_message = some message;
}

-- `record_cancel`, and the client's going as the status.
abbrev pub cancel : {E F : Type 0} → Drive E F → Drive E F
cancel d = record d {
  status = client_disconnect;
  status_code = 499;
  cancellations = suc d.cancellations;
}

abbrev pub send_into : {E F : Type 0} → Drive E F → F → Option ℕ → Drive E F × Bool
send_into d f none = (record d { sent = d.sent ++ f ∷ [] }, true)
send_into d f (some zero) = (d, false)
send_into d f (some (suc n)) = (record d { sent = d.sent ++ f ∷ []; room = some n }, true)

-- `tx.send(..)`
unfoldable pub send : {E F : Type 0} → Drive E F → F → Drive E F × Bool
send d f = send_into d f d.room

-- A client that is gone takes nothing more.
unfoldable pub send_all : {E F : Type 0} → Drive E F → List F → Drive E F × Bool
send_all d [] = (d, true)
send_all d (f ∷ fs) =
    let (d', sent) = send d f in let rest = send_all d' fs in if sent then rest else (d', false)

-- The first frame commits the answer, before it is sent.
unfoldable pub emit_frames : {E F : Type 0} → Drive E F → List F → Drive E F × Bool
emit_frames d [] = (d, true)
emit_frames d (f ∷ fs) =
    let (d', sent) = send (record d { committed = true }) f in
    let rest = emit_frames d' fs in if sent then rest else (d', false)

abbrev pub count_usage : TokenUsage → StreamEvent → TokenUsage
count_usage u (StreamEvent.usage v) = merge u v
count_usage u _ = u

abbrev pub is_finish : StreamEvent → Bool
is_finish (StreamEvent.finish f) = true
is_finish _ = false

unfoldable pub payload_is_terminal :
    (String → String) → (String → Bool) → String → List StreamEvent → Bool
payload_is_terminal trim is_message_stop payload events =
    str_eq (trim payload) "[DONE]" || (any is_finish events || is_message_stop payload)

-- The error's text, with the two sizes.
abbrev pub framer_message : (ℕ → String) → SseFrameError → String
framer_message to_text (frame_too_large pending limit) =
    "upstream SSE frame exceeds "
    <> to_text limit
    <> " byte limit ("
    <> to_text pending
    <> " bytes buffered)"
