-- ===== src/Pipeline/Driver/Endings.antt =====
-- src/pipeline.rs, `drive_stream`: what a client has received when the driver is done with a success.
use kinetix.Base.{
  ℕ, ◌≡◌, ◌⊎◌, refl, sym, ap, subst, ◌∙◌, inl, inr, Bool, true, false, ◌&&◌, not, if◌then◌else◌,
  ltb, some, unwrap_or, List, [], ◌∷◌, ◌++◌, String, arith, Bool-cases,
}
use kinetix.Sse.{pending_bytes}
use kinetix.Pipeline.Driver.{
  EncoderOf, AdapterOf, Status, success, stream_error, client_disconnect, is_success, Input, ended,
  Drive, send_all, send_error, on_input, settle, close, close_as, or_cancel, drive,
}
use kinetix.Pipeline.Driver.Sending.{send_all-Kept, send_all_sent}
use kinetix.Pipeline.Driver.Played.{Play, view, play, play_input}
use kinetix.Pipeline.Driver.Following.{Stepped, on_input-Stepped}

module _ {E F : Type 0} (to_text : ℕ → String) (from_utf8_lossy : List ℕ → String)
    (trim : String → String) (client : EncoderOf E F) (provider : AdapterOf) (comment : F) where
  finalized_success :
      (x : Drive E F × Bool) (fs : List F)
      → (x.1 ≡ true → x.0.sent ≡ fs)
      → (or_cancel to_text from_utf8_lossy trim client provider comment x).status ≡ success
      → (or_cancel to_text from_utf8_lossy trim client provider comment x).sent ≡ fs
  finalized_success (d, true) fs w h = w refl
  finalized_success (d, false) fs w h = cc

  close_as-success :
      (s : Status) (d : Drive E F)
      → d.status ≡ s
      → (close_as to_text from_utf8_lossy trim client provider comment d s).status ≡ success
      → (s ≡ success)
        × ((close_as to_text from_utf8_lossy trim client provider comment d s).sent
            ≡ d.sent ++ (client.finalize d.encoder).1)
  unfolding send_error
  close_as-success client_disconnect d q h = cc
  close_as-success stream_error d q h =
      let (encoder', frames) =
        client.error_frame d.encoder (unwrap_or d.error_message "upstream stream interrupted") in
      let k = send_all-Kept (record d { encoder = encoder' }) frames in cc (k.status)
  close_as-success success d q h =
      let (encoder', frames) = client.finalize d.encoder in
      let d1 : Drive E F = record d { encoder = encoder' } in
      (refl, finalized_success (send_all d1 frames) (d.sent ++ frames) (send_all_sent d1 frames) h)

  -- What is settled as a success is complete, and left as it is.
  settle-success :
      (d : Drive E F)
      → let d' = settle to_text from_utf8_lossy trim client provider comment d in
        is_success d'.status ≡ true
        → (d' ≡ d)
          × (is_success d.status ≡ true)
          × (d.terminal_seen ≡ true)
          × (pending_bytes d.framer ≡ 0)
  unfolding settle
  settle-success d h = elim (Bool-cases (is_success d.status && ltb 0 (pending_bytes d.framer))) [
    | inl e ↦ let g = rw e at h in cc
    | inr e ↦ elim (Bool-cases (is_success d.status && not d.terminal_seen)) [
      | inl f ↦ let g = rw (e, f) at h in cc
      | inr f ↦ let g = rw (e, f) at h in (rw (e, f) refl, g, ground arith, ground arith)
    ]
  ]

  -- Where the loop is left.
  abbrev Left : Play E F → Drive E F → Type 0
  Left v d' =
      (d1 : Drive E F) × (d'
        ≡ close to_text from_utf8_lossy trim client provider comment
            (settle to_text from_utf8_lossy trim client provider comment d1))
      × ((is_success d1.status ≡ false) ⊎ (view d1 ≡ v))

  Stepped-Left :
      (d' : Drive E F) (is : List Input)
      → ((d : Drive E F)
          → drive to_text from_utf8_lossy trim client provider comment d is ≡ some d'
          → Left (play to_text from_utf8_lossy trim client provider comment (view d) is) d')
      → (v : Play E F) (s : Status) (x : Drive E F × Bool)
      → Stepped to_text from_utf8_lossy trim client provider comment v s x
      → (if x.1
          then drive to_text from_utf8_lossy trim client provider comment x.0 is
          else some (
              close to_text from_utf8_lossy trim client provider comment
                (settle to_text from_utf8_lossy trim client provider comment x.0)))
        ≡ some d'
      → Left (play to_text from_utf8_lossy trim client provider comment v is) d'
  Stepped-Left d' is ih v s (d, true) (e, k) h =
      subst (λ z. Left (play to_text from_utf8_lossy trim client provider comment z is) d') e
        (ih d h)
  Stepped-Left d' is ih v s (d, false) t h = (d, cc, inl t)

  ended-Left :
      (d d' : Drive E F) (is : List Input)
      → drive to_text from_utf8_lossy trim client provider comment d (ended ∷ is) ≡ some d'
      → Left (play to_text from_utf8_lossy trim client provider comment (view d) (ended ∷ is)) d'
  unfolding drive play on_input
  ended-Left d d' is h = (d, cc, inr refl)

  drive-Left :
      (d d' : Drive E F) (inputs : List Input)
      → drive to_text from_utf8_lossy trim client provider comment d inputs ≡ some d'
      → Left (play to_text from_utf8_lossy trim client provider comment (view d) inputs) d'
  unfolding drive
  drive-Left d d' [] h = cc
  drive-Left d d' (i ∷ is) h =
      elim (on_input-Stepped to_text from_utf8_lossy trim client provider comment d i) [
        | inl e ↦
            subst
              (λ j.
                Left (play to_text from_utf8_lossy trim client provider comment (view d) (j ∷ is))
                  d')
              (sym e)
              (ended-Left d d' is (
                subst
                  (λ j.
                    drive to_text from_utf8_lossy trim client provider comment d (j ∷ is) ≡ some d')
                  e h))
        | inr (p, t) ↦
            subst (λ z. Left z d') (sym (p (view d) is))
              (Stepped-Left d' is (λ z. drive-Left z d' is)
                (play_input to_text from_utf8_lossy trim client provider comment (view d) i)
                d.status (on_input to_text from_utf8_lossy trim client provider comment d i) t h)
      ]

  is_success-success : (s : Status) → s ≡ success → is_success s ≡ true
  is_success-success s h = rw h refl

  close-success :
      (d : Drive E F)
      → let d' =
          close to_text from_utf8_lossy trim client provider comment
            (settle to_text from_utf8_lossy trim client provider comment d) in
        d'.status ≡ success
        → (is_success d.status ≡ true)
          × (d.terminal_seen ≡ true)
          × (pending_bytes d.framer ≡ 0)
          × (d'.sent ≡ d.sent ++ (client.finalize d.encoder).1)
  unfolding close
  close-success d h =
      let d1 = settle to_text from_utf8_lossy trim client provider comment d in
      let (s, whole) = close_as-success d1.status d1 refl h in
      let (same, ok, terminal, none_left) = settle-success d (is_success-success d1.status s) in
      (
        ok,
        terminal,
        none_left,
        whole ∙ ap (λ (z : Drive E F). z.sent ++ (client.finalize z.encoder).1) same,
      )

  -- A client is told that the answer is whole only if it is. When the driver is done and the status is
  -- a success, the play of the provider's stream from the driver's start to the stream's end is over
  -- (from a start that is not, one of its payloads is the end mark or the adapter's end, or has the
  -- finish among its events) and leaves no bytes of an unfinished frame. What the client took is then
  -- the frames of the play, in order, and after them all frames of the regular end that the encoder
  -- writes.
  pub drive-success :
      (d d' : Drive E F) (inputs : List Input)
      → drive to_text from_utf8_lossy trim client provider comment d inputs ≡ some d'
      → d'.status ≡ success
      → let v = play to_text from_utf8_lossy trim client provider comment (view d) inputs in
        (v.over ≡ true)
        × (pending_bytes v.framer ≡ 0)
        × (d'.sent ≡ v.frames ++ (client.finalize v.encoder).1)
  drive-success d d' inputs h s =
      let (d1, e, left) = drive-Left d d' inputs h in
      let (ok, terminal, none_left, whole) =
        close-success d1 (ap (λ (z : Drive E F). z.status) (sym e) ∙ s) in
      elim left [
        | inl f ↦ cc
        | inr w ↦ (
          ap (λ (v : Play E F). v.over) (sym w) ∙ terminal,
          ap (λ (v : Play E F). pending_bytes v.framer) (sym w) ∙ none_left,
          ap (λ (z : Drive E F). z.sent) e
              ∙ whole
              ∙ ap (λ (v : Play E F). v.frames ++ (client.finalize v.encoder).1) w,
        )
      ]
