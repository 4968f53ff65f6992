-- ===== src/Pipeline/Driver/Errors.antt =====
-- src/pipeline.rs, `drive_stream`: what a client is told of an error of the provider.
use mathlib.Core.List.{append_assoc}
use kinetix.Base.{
  ℕ, ◌≡◌, refl, ap, ◌∙◌, false, ◌&&◌, not, none, some, unwrap_or, List, ◌∷◌, ◌++◌, String, str_eq,
  ltb, if◌then◌else◌, ok,
}
use kinetix.Types.{FailureKind}
use kinetix.Sse.{SseFramer, push, pending_bytes}
use kinetix.Sse.Data.{extract_data}
use kinetix.Pipeline.Driver.{
  EncoderOf, AdapterOf, Status, stream_error, is_success, Input, chunk, Drive, fail, send_error,
  on_payload, on_frames, on_input, settle, close, close_as, drive,
}
use kinetix.Pipeline.Driver.Sending.{send_all-Kept, send_all_sent, send_all_open}

-- The frames of two errors, as one state of the encoder after the other makes them.
abbrev pub twice : {E F : Type 0} → EncoderOf E F → E → String → List F
twice client e message =
    let (e', frames) = client.error_frame e message in frames ++ (client.error_frame e' message).1

module _ {E F : Type 0} (to_text : ℕ → String) (from_utf8_lossy : List ℕ → String)
    (trim : String → String) (client : EncoderOf E F) (provider : AdapterOf) (comment : F) where
  -- The frames of an error, sent to a client that stays.
  record Told (d d' : Drive E F) (message : String) : Type 0 where
    still_open : d'.room ≡ none
    next_encoder : d'.encoder ≡ (client.error_frame d.encoder message).0
    frames : d'.sent ≡ d.sent ++ (client.error_frame d.encoder message).1
    same_status : d'.status ≡ d.status
    same_message : d'.error_message ≡ d.error_message

  send_error-Told :
      (d : Drive E F) (message : String)
      → d.room ≡ none
      → Told d (send_error to_text from_utf8_lossy trim client provider comment d message) message
  unfolding send_error
  send_error-Told d message r =
      let (encoder', frames) = client.error_frame d.encoder message in
      let d1 : Drive E F = record d { encoder = encoder' } in
      let (taken, room, encoder, error) = send_all_open d1 frames r in
      record {
        still_open = room;
        next_encoder = encoder;
        frames = send_all_sent d1 frames taken;
        same_status = (send_all-Kept d1 frames).status;
        same_message = error;
      }

  settle_error :
      (d : Drive E F)
      → d.status ≡ stream_error
      → settle to_text from_utf8_lossy trim client provider comment d ≡ d
  unfolding settle
  settle_error d h = ap (λ s. picked d s) h
    where
      picked : Drive E F → Status → Drive E F
      picked d s =
          if is_success s && ltb 0 (pending_bytes d.framer)
          then fail d 502 "upstream SSE ended with an incomplete frame"
          else if is_success s && not d.terminal_seen
          then fail d 502 "upstream SSE ended before a terminal event"
          else d

  close_error :
      (d : Drive E F) (message : String)
      → d.status ≡ stream_error
      → d.error_message ≡ some message
      → close to_text from_utf8_lossy trim client provider comment d
        ≡ send_error to_text from_utf8_lossy trim client provider comment d message
  unfolding close
  close_error d message h m =
      ap (close_as to_text from_utf8_lossy trim client provider comment d) h
      ∙ ap
          (λ o.
            send_error to_text from_utf8_lossy trim client provider comment d
              (unwrap_or o "upstream stream interrupted"))
          m

  drive_error :
      (d d1 : Drive E F) (message : String) (i : Input) (inputs : List Input)
      → d.room ≡ none
      → on_input to_text from_utf8_lossy trim client provider comment d i
        ≡ (send_error to_text from_utf8_lossy trim client provider comment d1 message, false)
      → d1.room ≡ none
      → d1.status ≡ stream_error
      → d1.error_message ≡ some message
      → (d' : Drive E F) × (drive to_text from_utf8_lossy trim client provider comment d
            (i ∷ inputs)
          ≡ some d')
        × (d'.status ≡ stream_error)
        × (d'.sent
            ≡ d1.sent
              ++ ((client.error_frame d1.encoder message).1
                  ++ (client.error_frame (client.error_frame d1.encoder message).0 message).1))
  unfolding drive
  drive_error d d1 message i inputs r on r1 s m =
      let d2 = send_error to_text from_utf8_lossy trim client provider comment d1 message in
      let d3 = send_error to_text from_utf8_lossy trim client provider comment d2 message in
      let told = send_error-Told d1 message r1 in
      let told' = send_error-Told d2 message told.still_open in
      let s2 : d2.status ≡ stream_error = told.same_status ∙ s in
      (
        d3,
        rw (on, settle_error d2 s2, close_error d2 message s2 (told.same_message ∙ m)) refl,
        told'.same_status ∙ s2,
        told'.frames
            ∙ (ap (λ z. z ++ (client.error_frame d2.encoder message).1) told.frames
                ∙ (append_assoc d1.sent (client.error_frame d1.encoder message).1
                      (client.error_frame d2.encoder message).1
                    ∙ ap
                        (λ z.
                          d1.sent
                          ++ ((client.error_frame d1.encoder message).1
                              ++ (client.error_frame z message).1))
                        told.next_encoder)),
      )

  on_frames_error :
      (d : Drive E F) (frame payload message : String) (frames : List String) (kind : FailureKind)
      → extract_data frame ≡ some payload
      → str_eq (trim payload) "[DONE]" ≡ false
      → provider.payload_error payload ≡ some (kind, message)
      → on_frames to_text from_utf8_lossy trim client provider comment d (frame ∷ frames) ≡ (
        send_error to_text from_utf8_lossy trim client provider comment
            (fail (record d { provider_failure = some kind }) 502 message)
            message,
        false,
      )
  unfolding on_frames
  on_frames_error d frame payload message frames kind x t e =
      rw (x, on_frames, on_payload_error d payload message kind t e) refl
    where
      on_payload_error :
          (d : Drive E F) (payload message : String) (kind : FailureKind)
          → str_eq (trim payload) "[DONE]" ≡ false
          → provider.payload_error payload ≡ some (kind, message)
          → on_payload to_text from_utf8_lossy trim client provider comment d payload ≡ (
            send_error to_text from_utf8_lossy trim client provider comment
                (fail (record d { provider_failure = some kind }) 502 message)
                message,
            false,
          )
      on_payload_error d payload message kind t e = unfold on_payload in rw (t, e) refl

  -- An error that the provider reports in the first data frame of a chunk reaches the client twice:
  -- whatever was sent before, a client that stays gets the frames of the error once when the payload is
  -- read and once more when the driver is done.
  pub error_sent_twice :
      (d : Drive E F) (bytes : List ℕ) (frame payload message : String) (frames : List String)
      (framer : SseFramer) (kind : FailureKind) (inputs : List Input)
      → d.room ≡ none
      → push from_utf8_lossy d.framer bytes
        ≡ some (record { result = ok (frame ∷ frames); framer = framer })
      → extract_data frame ≡ some payload
      → str_eq (trim payload) "[DONE]" ≡ false
      → provider.payload_error payload ≡ some (kind, message)
      → (d' : Drive E F) × (drive to_text from_utf8_lossy trim client provider comment d
            (chunk bytes ∷ inputs)
          ≡ some d')
        × (d'.status ≡ stream_error)
        × (d'.sent ≡ d.sent ++ twice client d.encoder message)
  unfolding on_input
  error_sent_twice d bytes frame payload message frames framer kind inputs r p x t e =
      let d1 : Drive E F =
        fail (record d { framer = framer; provider_failure = some kind }) 502 message in
      drive_error d d1 message (chunk bytes) inputs r
        (rw p
          (on_frames_error (record d { framer = framer }) frame payload message frames kind x t e))
        r refl refl
