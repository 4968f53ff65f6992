-- ===== src/Frontends.antt =====
-- src/frontends: the encoders of the answer's events for the protocols of the clients.
pub mod Anthropic
pub mod OpenAi
pub mod Responses
