-- ===== src/Pipeline/Driver.antt =====
-- src/pipeline.rs, `drive_stream` on a validated stream: bytes of the provider in, frames for the client
-- out. What happens next (bytes, an error or the end of the provider's stream, a tick, a timeout, the
-- client going away) is a list of inputs. The encoder of the client's format and the adapter of the
-- provider's format are the section's parameters: `E` is the encoder's state and `F` its frames. The
-- channel to the client takes `room` more frames, or all of them if it is `none`. Log, traces, times
-- and the store of opaque state are left out.
mod Steps
mod Tests
mod Sending
mod Played
mod Taken
mod Following
pub mod Endings
pub mod Errors
unfoldable pub use Steps.*
use kinetix.Base.{
  ℕ, zero, suc, ◌+◌, Bool, true, false, ◌&&◌, ◌||◌, not, Option, none, some, unwrap_or, List, [],
  ◌∷◌, ◌++◌, String, str_eq, ltb, if◌then◌else◌, Result, ok, err, any,
}
use kinetix.Types.{StreamEvent, TokenUsage, merge, FailureKind, timeout, connection_error}
use kinetix.Sse.{SseFramer, SseFrameError, frame_too_large, Pushed, push, pending_bytes, too_large}
use kinetix.Sse.Data.{extract_data}
use kinetix.Pipeline.Tools.{ToolStreamState, normalize}

module _ {E F : Type 0} (to_text : ℕ → String) (from_utf8_lossy : List ℕ → String)
    (trim : String → String) (client : EncoderOf E F) (provider : AdapterOf) (comment : F) where
  unfoldable pub emit_translated_events : Drive E F → List StreamEvent → Drive E F × Bool
  emit_translated_events d [] = (d, true)
  emit_translated_events d (e ∷ es) =
      let (encoder', frames) = client.encode d.encoder e in
      let (d', sent) =
        emit_frames (record d { usage = count_usage d.usage e; encoder = encoder' }) frames in
      let rest = emit_translated_events d' es in if sent then rest else (d', false)

  -- `for out in encoder.error_frame(..) { let _ = tx.send(..) }`
  unfoldable pub send_error : Drive E F → String → Drive E F
  send_error d message =
      let (encoder', frames) = client.error_frame d.encoder message in
      (send_all (record d { encoder = encoder' }) frames).0

  unfoldable pub on_events : Drive E F → String → List StreamEvent → Drive E F × Bool
  unfolding emit_translated_events
  on_events d payload events =
      let terminal = payload_is_terminal trim provider.is_message_stop payload events in
      let (tools, events') = normalize to_text d.tool_stream events in
      let (d', sent) =
        emit_translated_events
          (record d { terminal_seen = d.terminal_seen || terminal; tool_stream = tools }) events' in
      if sent then (d', true) else (cancel d', false)

  -- The body of the loop over the frames: whether the outer loop goes on.
  unfoldable pub on_payload : Drive E F → String → Drive E F × Bool
  unfolding send_error on_events
  on_payload d payload =
      if str_eq (trim payload) "[DONE]"
      then (record d { terminal_seen = true }, true)
      else elim (provider.payload_error payload) [
        | some (kind, message) ↦ (
          send_error (fail (record d { provider_failure = some kind }) 502 message) message,
          false,
        )
        | none ↦ elim (provider.parse_stream_chunk payload) [
          | err message ↦ (send_error (fail d 502 message) message, false)
          | ok events ↦ on_events d payload events
        ]
      ]

  unfoldable pub on_frames : Drive E F → List String → Drive E F × Bool
  unfolding on_payload
  on_frames d [] = (d, true)
  on_frames d (frame ∷ frames) = elim (extract_data frame) [
    | none ↦ on_frames d frames
    | some payload ↦
        let (d', go) = on_payload d payload in
        let rest = on_frames d' frames in if go then rest else (d', false)
  ]

  abbrev pub on_pushed : Drive E F → Pushed → Drive E F × Bool
  on_pushed d p =
      let d' = record d { framer = p.framer } in
      elim p.result [
        | err e ↦ (fail d' 502 (framer_message to_text e), false)
        | ok frames ↦ on_frames d' frames
      ]

  -- The fuel of `push` is always enough.
  abbrev push_bytes : SseFramer → List ℕ → Pushed
  push_bytes f bytes = unwrap_or (push from_utf8_lossy f bytes) (too_large 0 f.max_frame_bytes)

  -- One round of the outer loop: whether it goes on.
  unfoldable pub on_input : Drive E F → Input → Drive E F × Bool
  unfolding on_frames
  on_input d disconnected = (cancel d, false)
  on_input d notified = (d, true)
  on_input d keepalive =
      let (d', sent) = send d comment in if sent then (d', true) else (cancel d', false)
  on_input d idle_timeout = (
    fail (record d { provider_failure = some timeout }) 504 "upstream stream idle timeout",
    false,
  )
  on_input d (chunk bytes) = on_pushed d (push_bytes d.framer bytes)
  on_input d (chunk_error is_timeout message) = (
    fail (record d { provider_failure = some (if is_timeout then timeout else connection_error) })
        502 message,
    false,
  )
  on_input d ended = (d, false)

  -- What follows the loop: an answer that did not end is a failure of the provider.
  unfoldable pub settle : Drive E F → Drive E F
  settle d =
      if is_success d.status && ltb 0 (pending_bytes d.framer)
      then fail d 502 "upstream SSE ended with an incomplete frame"
      else if is_success d.status && not d.terminal_seen
      then fail d 502 "upstream SSE ended before a terminal event"
      else d

  -- The client may go away while it is sent the end.
  abbrev pub or_cancel : Drive E F × Bool → Drive E F
  or_cancel (d, true) = d
  or_cancel (d, false) = cancel d

  abbrev pub close_as : Drive E F → Status → Drive E F
  close_as d stream_error = send_error d (unwrap_or d.error_message "upstream stream interrupted")
  close_as d success =
      let (encoder', frames) = client.finalize d.encoder in
      or_cancel (send_all (record d { encoder = encoder' }) frames)
  close_as d client_disconnect = d

  unfoldable pub close : Drive E F → Drive E F
  unfolding send_error
  close d = close_as d d.status

  -- `none`: the inputs do not end the loop.
  unfoldable pub drive : Drive E F → List Input → Option (Drive E F)
  unfolding on_input settle close
  drive d [] = none
  drive d (i ∷ is) =
      let (d', go) = on_input d i in
      let rest = drive d' is in if go then rest else some (close (settle d'))
