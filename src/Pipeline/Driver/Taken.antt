-- ===== src/Pipeline/Driver/Taken.antt =====
-- src/pipeline.rs, `drive_stream`: what a client that stays has been sent for the events of a payload.
use mathlib.Core.List.{append-nil, append_assoc}
use kinetix.Base.{
  ℕ, ◌≡◌, refl, sym, ap, subst, inl, inr, Bool, true, false, List, [], ◌∷◌, ◌++◌, String,
  if◌then◌else◌,
}
use kinetix.Types.{StreamEvent}
use kinetix.Pipeline.Driver.{
  EncoderOf, AdapterOf, Status, Drive, send, emit_frames, emit_translated_events, count_usage,
}
use kinetix.Pipeline.Driver.Sending.{send-cases}
use kinetix.Pipeline.Driver.Played.{Play, view, play_events}

module _ {E F : Type 0} (to_text : ℕ → String) (from_utf8_lossy : List ℕ → String)
    (trim : String → String) (client : EncoderOf E F) (provider : AdapterOf) (comment : F) where
  -- A step that the client took is as the play says, and keeps the status.
  abbrev pub Taken : Play E F → Status → Drive E F × Bool → Type 0
  Taken v s (d, true) = (view d ≡ v) × (d.status ≡ s)
  Taken v s (d, false) = Unit

  pub send-Taken :
      (d : Drive E F) (f : F)
      → Taken (record (view d) { frames = d.sent ++ f ∷ [] }) d.status (send d f)
  send-Taken d f = elim (send-cases d f) [ inl e ↦ rw e tt | inr (r, e) ↦ rw e (refl, refl) ]

  emit_frames-Taken :
      (d : Drive E F) (fs : List F)
      → Taken (record (view d) { frames = d.sent ++ fs }) d.status (emit_frames d fs)
  unfolding emit_frames
  emit_frames-Taken d [] =
      (ap (λ z. record (view d) { frames = z }) (sym (append-nil d.sent)), refl)
  emit_frames-Taken d (f ∷ fs) = elim (send-cases (record d { committed = true }) f) [
    | inl e ↦ rw e tt
    | inr (r, e) ↦
        let d1 : Drive E F = record d { committed = true; sent = d.sent ++ f ∷ []; room = r } in
        rw e (
          subst (λ z. Taken (record (view d) { frames = z }) d.status (emit_frames d1 fs))
            (append_assoc d.sent (f ∷ []) fs) (emit_frames-Taken d1 fs))
  ]

  -- One step after another.
  then-Taken :
      (v : Play E F) (s : Status) (x : Drive E F × Bool) (f : Drive E F → Drive E F × Bool)
      (g : Play E F → Play E F)
      → Taken v s x
      → ((d : Drive E F) → Taken (g (view d)) d.status (f d))
      → Taken (g v) s (if x.1 then f x.0 else (x.0, false))
  then-Taken v s (d, true) f g (e, k) h =
      subst (λ z. Taken (g z) s (f d)) e (subst (λ z. Taken (g (view d)) z (f d)) k (h d))
  then-Taken v s (d, false) f g t h = tt

  pub emit_translated_events-Taken :
      (d : Drive E F) (es : List StreamEvent)
      → Taken
          (play_events to_text from_utf8_lossy trim client provider comment (view d) es)
          d.status
          (emit_translated_events to_text from_utf8_lossy trim client provider comment d es)
  unfolding play_events emit_translated_events
  emit_translated_events-Taken d [] = (refl, refl)
  emit_translated_events-Taken d (e ∷ es) =
      let (encoder', frames) = client.encode d.encoder e in
      let d1 : Drive E F = record d { usage = count_usage d.usage e; encoder = encoder' } in
      then-Taken (record (view d1) { frames = d.sent ++ frames }) d.status (emit_frames d1 frames)
        (λ z. emit_translated_events to_text from_utf8_lossy trim client provider comment z es)
        (λ v. play_events to_text from_utf8_lossy trim client provider comment v es)
        (emit_frames-Taken d1 frames) (λ z. emit_translated_events-Taken z es)
