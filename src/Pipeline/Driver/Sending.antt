-- ===== src/Pipeline/Driver/Sending.antt =====
-- src/pipeline.rs, `drive_stream`: frames on their way to the client.
use mathlib.Core.List.{append-nil, append_assoc}
use kinetix.Base.{
  ℕ, zero, suc, ◌≡◌, refl, sym, ap, ◌∙◌, ◌⊎◌, inl, inr, true, false, Option, none, some, List, [],
  ◌∷◌, ◌++◌,
}
use kinetix.Pipeline.Driver.{Drive, send, send_into, send_all}

-- What sending leaves alone.
pub record Kept {E F : Type 0} (d d' : Drive E F) : Type 0 where
  pub status : d'.status ≡ d.status
  pub terminal_seen : d'.terminal_seen ≡ d.terminal_seen
  pub framer : d'.framer ≡ d.framer

module _ {E F : Type 0} where
  -- A frame is refused, and nothing changes, or taken.
  send_into-cases :
      (d : Drive E F) (f : F) (o : Option ℕ)
      → (send_into d f o ≡ (d, false))
        ⊎ ((r : Option ℕ) × (send_into d f o
              ≡ (record d { sent = d.sent ++ f ∷ []; room = r }, true)))
  send_into-cases d f none = inr (d.room, refl)
  send_into-cases d f (some zero) = inl refl
  send_into-cases d f (some (suc n)) = inr (some n, refl)

  pub send-cases :
      (d : Drive E F) (f : F)
      → (send d f ≡ (d, false))
        ⊎ ((r : Option ℕ) × (send d f ≡ (record d { sent = d.sent ++ f ∷ []; room = r }, true)))
  unfolding send
  send-cases d f = send_into-cases d f d.room

  pub send_all-Kept : (d : Drive E F) (fs : List F) → Kept d (send_all d fs).0
  unfolding send_all
  send_all-Kept d [] = record { status = refl; terminal_seen = refl; framer = refl }
  send_all-Kept d (f ∷ fs) = elim (send-cases d f) [
    | inl e ↦ rw e (record { status = refl; terminal_seen = refl; framer = refl })
    | inr (r, e) ↦
        let d1 : Drive E F = record d { sent = d.sent ++ f ∷ []; room = r } in
        let k = send_all-Kept d1 fs in
        rw e (record { status = k.status; terminal_seen = k.terminal_seen; framer = k.framer })
  ]

  -- A client that took every frame has them all, in order.
  pub send_all_sent :
      (d : Drive E F) (fs : List F)
      → (send_all d fs).1 ≡ true
      → (send_all d fs).0.sent ≡ d.sent ++ fs
  unfolding send_all
  send_all_sent d [] h = sym (append-nil d.sent)
  send_all_sent d (f ∷ fs) h = elim (send-cases d f) [
    | inl e ↦ let g = rw e at h in cc
    | inr (r, e) ↦
        let d1 : Drive E F = record d { sent = d.sent ++ f ∷ []; room = r } in
        rw e (send_all_sent d1 fs (rw e at h) ∙ append_assoc d.sent (f ∷ []) fs)
  ]

  -- A client that never goes away takes every frame.
  pub send_all_open :
      (d : Drive E F) (fs : List F)
      → d.room ≡ none
      → ((send_all d fs).1 ≡ true)
        × ((send_all d fs).0.room ≡ none)
        × ((send_all d fs).0.encoder ≡ d.encoder)
        × ((send_all d fs).0.error_message ≡ d.error_message)
  unfolding send_all
  send_all_open d [] h = (refl, h, refl, refl)
  send_all_open d (f ∷ fs) h =
      let d1 : Drive E F = record d { sent = d.sent ++ f ∷ [] } in
      rw (taken d f h) (send_all_open d1 fs h)
    where
      taken :
          (d : Drive E F) (f : F)
          → d.room ≡ none
          → send d f ≡ (record d { sent = d.sent ++ f ∷ [] }, true)
      taken d f h = unfold send in ap (send_into d f) h
