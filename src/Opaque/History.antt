-- ===== src/Opaque/History.antt =====
-- What happens to a store of continuation state, as a sequence of calls.
use kinetix.Base.{ℕ, Bool, Option, List, [], ◌∷◌, String}
use kinetix.Opaque.{OpaqueStateTarget, Cipher}
use kinetix.Opaque.Store.{
  OpaqueStateStore, capture_tool_signature, resolve_tool_signature, work, prune, send_flush,
}

-- The arguments of `capture_tool_signature`.
pub record Capture : Type 0 where
  pub scope : String
  pub target : OpaqueStateTarget
  pub session : Option String
  pub call : String
  pub name : String
  pub signature : String

pub data Event : Type 0 where
  capture : Capture → ℕ → Event
  resolve :
      String → Option OpaqueStateTarget → Option String → String → String → ℕ → ℕ → Bool → Event
  worked : ℕ → ℕ → Bool → Event
  pruned : ℕ → Event
  flushed : Event

module _ (sha256_hex : String → String) (cipher : Cipher) where
  unfoldable pub step : OpaqueStateStore → Event → OpaqueStateStore
  step s (capture c now) =
      capture_tool_signature sha256_hex s c.scope c.target c.session c.call c.name c.signature now
  step s (resolve scope capability session call name now now_wall read) =
      (resolve_tool_signature sha256_hex cipher s scope capability session call name now now_wall
        read).0
  step s (worked nonce now done) = work sha256_hex cipher s nonce now done
  step s (pruned now) = prune s now
  step s flushed = send_flush s

  unfoldable pub run : OpaqueStateStore → List Event → OpaqueStateStore
  run s [] = s
  run s (e ∷ es) = run (step s e) es
