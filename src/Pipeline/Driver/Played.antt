-- ===== src/Pipeline/Driver/Played.antt =====
-- src/pipeline.rs, `drive_stream`: what a client is sent if nothing goes wrong, as a function of the
-- provider's stream alone.
use kinetix.Base.{
  ℕ, Bool, true, false, ◌||◌, none, some, unwrap_or, List, [], ◌∷◌, ◌++◌, String, str_eq,
  if◌then◌else◌, ok, err,
}
use kinetix.Types.{StreamEvent}
use kinetix.Sse.{SseFramer, Pushed, push, too_large}
use kinetix.Sse.Data.{extract_data}
use kinetix.Pipeline.Tools.{ToolStreamState, normalize}
use kinetix.Pipeline.Driver.{EncoderOf, AdapterOf, Input, keepalive, ended, chunk, Drive}

-- What has been read of the provider and written for the client.
pub record Play (E F : Type 0) : Type 0 where
  pub encoder : E
  pub tools : ToolStreamState
  pub framer : SseFramer
  pub over : Bool
  pub frames : List F

abbrev pub view : {E F : Type 0} → Drive E F → Play E F
view d = record {
  encoder = d.encoder;
  tools = d.tool_stream;
  framer = d.framer;
  over = d.terminal_seen;
  frames = d.sent;
}

-- The provider says with an event that it has finished.
abbrev pub finishes : List StreamEvent → Bool
finishes [] = false
finishes (StreamEvent.finish f ∷ es) = true
finishes (e ∷ es) = finishes es

module _ {E F : Type 0} (to_text : ℕ → String) (from_utf8_lossy : List ℕ → String)
    (trim : String → String) (client : EncoderOf E F) (provider : AdapterOf) (comment : F) where
  unfoldable pub play_events : Play E F → List StreamEvent → Play E F
  play_events v [] = v
  play_events v (e ∷ es) =
      let (encoder', frames) = client.encode v.encoder e in
      play_events (record v { encoder = encoder'; frames = v.frames ++ frames }) es

  -- Of a payload that cannot be parsed nothing is written.
  unfoldable pub play_payload : Play E F → String → Play E F
  play_payload v payload =
      if str_eq (trim payload) "[DONE]"
      then record v { over = true }
      else elim (provider.parse_stream_chunk payload) [
        | err message ↦ v
        | ok events ↦
            let (tools, events') = normalize to_text v.tools events in
            play_events
              (record v {
                tools = tools;
                over = v.over || (finishes events || provider.is_message_stop payload);
              })
              events'
      ]

  unfoldable pub play_frames : Play E F → List String → Play E F
  play_frames v [] = v
  play_frames v (frame ∷ frames) = elim (extract_data frame) [
    | none ↦ play_frames v frames
    | some payload ↦ play_frames (play_payload v payload) frames
  ]

  abbrev pub play_pushed : Play E F → Pushed → Play E F
  play_pushed v p = elim p.result [
    | err e ↦ v
    | ok frames ↦ play_frames (record v { framer = p.framer }) frames
  ]

  unfoldable pub play_input : Play E F → Input → Play E F
  play_input v keepalive = record v { frames = v.frames ++ comment ∷ [] }
  play_input v (chunk bytes) =
      play_pushed v
        (unwrap_or (push from_utf8_lossy v.framer bytes) (too_large 0 v.framer.max_frame_bytes))
  play_input v i = v

  -- All inputs before the end of the provider's stream.
  unfoldable pub play : Play E F → List Input → Play E F
  play v [] = v
  play v (ended ∷ inputs) = v
  play v (i ∷ inputs) = play (play_input v i) inputs
