-- ===== src/Pipeline/Driver/Following.antt =====
-- src/pipeline.rs, `drive_stream`: each step of the driver is the play's step, or the answer is no
-- success.
use kinetix.Base.{
  ℕ, ◌≡◌, ◌⊎◌, refl, ap, subst, ◌∙◌, inl, inr, Bool, true, false, ◌||◌, Option, none, some,
  unwrap_or, List, [], ◌∷◌, ◌++◌, String, str_eq, if◌then◌else◌, any, Result, ok, err, Bool-cases,
  Option-cases, Result-cases,
}
use kinetix.Types.{StreamEvent}
use kinetix.Sse.{SseFramer, SseFrameError, Pushed, push, too_large}
use kinetix.Sse.Data.{extract_data}
use kinetix.Pipeline.Tools.{normalize}
use kinetix.Pipeline.Driver.{
  EncoderOf, AdapterOf, Status, is_success, Input, disconnected, notified, keepalive, idle_timeout,
  ended, chunk, chunk_error, Drive, cancel, send, emit_translated_events, send_error, on_events,
  on_payload, on_frames, on_pushed, on_input, payload_is_terminal, is_finish,
}
use kinetix.Pipeline.Driver.Sending.{send_all-Kept}
use kinetix.Pipeline.Driver.Played.{
  Play, view, finishes, play_events, play_payload, play_frames, play_pushed, play_input, play,
}
use kinetix.Pipeline.Driver.Taken.{Taken, send-Taken, emit_translated_events-Taken}

any-finishes : (es : List StreamEvent) → any is_finish es ≡ finishes es
any-finishes [] = refl
any-finishes (StreamEvent.finish f ∷ es) = refl
any-finishes (e ∷ es) = any-finishes es

module _ {E F : Type 0} (to_text : ℕ → String) (from_utf8_lossy : List ℕ → String)
    (trim : String → String) (client : EncoderOf E F) (provider : AdapterOf) (comment : F) where
  -- A step is as the play says and keeps the status, or the loop is left and the answer no success.
  abbrev pub Stepped : Play E F → Status → Drive E F × Bool → Type 0
  Stepped v s (d, true) = (view d ≡ v) × (d.status ≡ s)
  Stepped v s (d, false) = is_success d.status ≡ false

  -- One step after another.
  then-Stepped :
      (v : Play E F) (s : Status) (x : Drive E F × Bool) (f : Drive E F → Drive E F × Bool)
      (g : Play E F → Play E F)
      → Stepped v s x
      → ((d : Drive E F) → Stepped (g (view d)) d.status (f d))
      → Stepped (g v) s (if x.1 then f x.0 else (x.0, false))
  then-Stepped v s (d, true) f g (e, k) h =
      subst (λ z. Stepped (g z) s (f d)) e (subst (λ z. Stepped (g (view d)) z (f d)) k (h d))
  then-Stepped v s (d, false) f g t h = t

  -- A client that goes away is no success.
  or_cancelled :
      (v : Play E F) (s : Status) (x : Drive E F × Bool)
      → Taken to_text from_utf8_lossy trim client provider comment v s x
      → Stepped v s (if x.1 then (x.0, true) else (cancel x.0, false))
  or_cancelled v s (d, true) t = t
  or_cancelled v s (d, false) t = refl

  finishes_lem :
      (payload : String) (es : List StreamEvent)
      → str_eq (trim payload) "[DONE]" ≡ false
      → payload_is_terminal trim provider.is_message_stop payload es
        ≡ (finishes es || provider.is_message_stop payload)
  unfolding payload_is_terminal
  finishes_lem payload es h = rw (h, any-finishes es) refl

  on_events-Stepped :
      (d : Drive E F) (payload : String) (events : List StreamEvent)
      → str_eq (trim payload) "[DONE]" ≡ false
      → let (tools, events') = normalize to_text d.tool_stream events in
        Stepped
          (play_events to_text from_utf8_lossy trim client provider comment
            (record (view d) {
              tools = tools;
              over = d.terminal_seen || (finishes events || provider.is_message_stop payload);
            })
            events')
          d.status
          (on_events to_text from_utf8_lossy trim client provider comment d payload events)
  unfolding on_events
  on_events-Stepped d payload events t =
      let (tools, events') = normalize to_text d.tool_stream events in
      let d1 : Drive E F = record d {
        terminal_seen =
            d.terminal_seen || payload_is_terminal trim provider.is_message_stop payload events;
        tool_stream = tools;
      } in
      rw (← finishes_lem payload events t) (
        or_cancelled
          (play_events to_text from_utf8_lossy trim client provider comment (view d1) events')
          d.status
          (emit_translated_events to_text from_utf8_lossy trim client provider comment d1 events')
          (emit_translated_events-Taken to_text from_utf8_lossy trim client provider comment d1
            events'))

  send_error-fails :
      (d : Drive E F) (message : String)
      → is_success d.status ≡ false
      → is_success
          (send_error to_text from_utf8_lossy trim client provider comment d message).status
        ≡ false
  unfolding send_error
  send_error-fails d message h =
      let (encoder', frames) = client.error_frame d.encoder message in
      ap (λ z. is_success z) (send_all-Kept (record d { encoder = encoder' }) frames).status ∙ h

  on_payload-Stepped :
      (d : Drive E F) (payload : String)
      → Stepped
          (play_payload to_text from_utf8_lossy trim client provider comment (view d) payload)
          d.status
          (on_payload to_text from_utf8_lossy trim client provider comment d payload)
  unfolding on_payload play_payload
  on_payload-Stepped d payload = elim (Bool-cases (str_eq (trim payload) "[DONE]")) [
    | inl t ↦ rw t (refl, refl)
    | inr t ↦ elim (Option-cases (provider.payload_error payload)) [
      | inr ((kind, message), e) ↦ rw (t, e) (send_error-fails _ message refl)
      | inl e ↦ elim (Result-cases (provider.parse_stream_chunk payload)) [
        | inr (message, p) ↦ rw (t, e, p) (send_error-fails _ message refl)
        | inl (events, p) ↦ rw (t, e, p) (on_events-Stepped d payload events t)
      ]
    ]
  ]

  on_extracted-Stepped :
      (d : Drive E F) (frames : List String)
      → ((z : Drive E F)
          → Stepped
              (play_frames to_text from_utf8_lossy trim client provider comment (view z) frames)
              z.status
              (on_frames to_text from_utf8_lossy trim client provider comment z frames))
      → (x : Option String)
      → Stepped
          (elim x [
            | none ↦
                play_frames to_text from_utf8_lossy trim client provider comment (view d) frames
            | some payload ↦
                play_frames to_text from_utf8_lossy trim client provider comment
                  (play_payload to_text from_utf8_lossy trim client provider comment
                    (view d)
                    payload)
                  frames
          ])
          d.status
          (elim x [
            | none ↦ on_frames to_text from_utf8_lossy trim client provider comment d frames
            | some payload ↦
                let (d', go) =
                  on_payload to_text from_utf8_lossy trim client provider comment d payload in
                let rest =
                  on_frames to_text from_utf8_lossy trim client provider comment d' frames in
                if go then rest else (d', false)
          ])
  on_extracted-Stepped d frames ih none = ih d
  on_extracted-Stepped d frames ih (some payload) =
      then-Stepped
        (play_payload to_text from_utf8_lossy trim client provider comment (view d) payload)
        d.status (on_payload to_text from_utf8_lossy trim client provider comment d payload)
        (λ z. on_frames to_text from_utf8_lossy trim client provider comment z frames)
        (λ v. play_frames to_text from_utf8_lossy trim client provider comment v frames)
        (on_payload-Stepped d payload) ih

  on_frames-Stepped :
      (d : Drive E F) (frames : List String)
      → Stepped
          (play_frames to_text from_utf8_lossy trim client provider comment (view d) frames)
          d.status
          (on_frames to_text from_utf8_lossy trim client provider comment d frames)
  unfolding on_frames play_frames
  on_frames-Stepped d [] = (refl, refl)
  on_frames-Stepped d (frame ∷ frames) =
      on_extracted-Stepped d frames (λ z. on_frames-Stepped z frames) (extract_data frame)

  on_pushed-Stepped :
      (d : Drive E F) (f : SseFramer) (x : Result SseFrameError (List String))
      → let p : Pushed = record { framer = f; result = x } in
        Stepped
          (play_pushed to_text from_utf8_lossy trim client provider comment (view d) p)
          d.status
          (on_pushed to_text from_utf8_lossy trim client provider comment d p)
  on_pushed-Stepped d f (err e) = refl
  on_pushed-Stepped d f (ok frames) = on_frames-Stepped (record d { framer = f }) frames

  on_chunk-Stepped :
      (d : Drive E F) (bytes : List ℕ)
      → Stepped
          (play_input to_text from_utf8_lossy trim client provider comment (view d) (chunk bytes))
          d.status
          (on_input to_text from_utf8_lossy trim client provider comment d (chunk bytes))
  unfolding on_input play_input
  on_chunk-Stepped d bytes =
      let p =
        unwrap_or (push from_utf8_lossy d.framer bytes) (too_large 0 d.framer.max_frame_bytes) in
      on_pushed-Stepped d p.framer p.result

  -- The end of the provider's stream is the only input after which the answer can be a success.
  pub on_input-Stepped :
      (d : Drive E F) (i : Input)
      → (i ≡ ended)
        ⊎ (((v : Play E F) (is : List Input)
              → play to_text from_utf8_lossy trim client provider comment v (i ∷ is)
                ≡ play to_text from_utf8_lossy trim client provider comment
                    (play_input to_text from_utf8_lossy trim client provider comment v i)
                    is)
            × Stepped
                (play_input to_text from_utf8_lossy trim client provider comment (view d) i)
                d.status
                (on_input to_text from_utf8_lossy trim client provider comment d i))
  unfolding on_input play_input play
  on_input-Stepped d disconnected = inr (λ v is. refl, refl)
  on_input-Stepped d notified = inr (λ v is. refl, (refl, refl))
  on_input-Stepped d keepalive = inr (
    λ v is. refl,
    or_cancelled (record (view d) { frames = d.sent ++ comment ∷ [] }) d.status (send d comment)
        (send-Taken to_text from_utf8_lossy trim client provider comment d comment),
  )
  on_input-Stepped d idle_timeout = inr (λ v is. refl, refl)
  on_input-Stepped d (chunk bytes) = inr (λ v is. refl, on_chunk-Stepped d bytes)
  on_input-Stepped d (chunk_error is_timeout message) = inr (λ v is. refl, refl)
  on_input-Stepped d ended = inl refl
