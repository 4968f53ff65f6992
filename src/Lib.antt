-- ===== src/Lib.antt =====
-- Verification of Kinetix, a gateway that routes requests for language models to providers.
--
-- A request names a model or a route. The registry (src/registry.rs) resolves the name in a snapshot
-- of the configuration; admission (src/admission.rs) estimates what the request may use at most and
-- reserves that much of the key's limits, after a limiter per address (src/ratelimit.rs) and the checks
-- of the key's policy and allowlist of addresses (src/limits.rs). The pipeline
-- then tries the targets whose predicates allow it (src/predicate.rs) on accounts that are healthy
-- (src/pool.rs), guarded by one circuit per provider (src/provider_circuit.rs), until one gives an
-- answer or none is left (src/pipeline.rs). The answer's event stream is cut into frames (src/sse.rs),
-- its events are numbered and written in the client's protocol by an encoder (src/frontends); its cost
-- (src/cost.rs) and token usage settle the reservation. Signatures that a provider attaches to its tool
-- calls are kept for the next turn (src/opaque_state.rs). Leased credentials of accounts are renewed in
-- time (src/credential_refresh.rs), by plugins whose circuit and storage the host keeps (src/plugins).
-- Administrators sign in by src/auth.rs.
--
-- Files and the code that they model:
--   Base        helpers: Boolean tests, lists, 64-bit sums, results, integers, string maps
--   Types       src/types.rs: failure and error kinds, prices, token usage, events of an answer
--   Circuit     src/provider_circuit.rs: the circuit and its admission; Attempts: the methods of
--               ProviderAttempt; System: histories of calls; Registry: the circuits by provider
--   Admission   src/admission.rs: KeyLedger; Controller: AdmissionController and the reservations;
--               Estimate: estimate_request, with approx_input_tokens of src/types.rs
--   Registry    src/registry.rs: Snapshot, resolve_in and build_route, on rows of src/db.rs
--   Cost        src/cost.rs: compute_cost
--   Sse         src/sse.rs: SseFramer; Data: extract_data
--   Predicate   src/predicate.rs: facts and predicates; Eval: eval_with_facts and eligibility
--   RateLimit   src/ratelimit.rs: IpLimiter
--   Limits      src/limits.rs: enforce_ip, ip_matches and cidr_contains; Key: validate, with
--               permits_model of src/db.rs
--   Auth        src/auth.rs: Sessions, the administrator's password and requests; Plugin:
--               PluginAuthSessions
--   Opaque      src/opaque_state.rs: OpaqueStateStore (Store) and its table (Table); History: the
--               calls of a store in their order
--   Plugins     src/plugins: Circuit: a plugin's row of plugin_runtime_state in store.rs and how
--               manager.rs settles calls; Kv and Snapshot: the stored values of store.rs
--   Credentials src/credential_refresh.rs: the schedules of leases; Coordinator and Rotation:
--               RefreshCoordinator, on the strategies of src/credentials.rs
--   Pool        src/pool.rs: the health of an account, with the updates of src/db.rs
--   Frontends   src/frontends: Anthropic, OpenAi and Responses, the streaming encoders of anthropic.rs,
--               openai.rs and responses.rs, with Responses/Terminal for the reasons of a finish
--   Pipeline    src/pipeline.rs: Tools: ToolStreamState; Policy: route_allows_fallback,
--               handle_key_failure and the errors of failures; Failover: the attempt loop of run,
--               with its checks in Failover/Gates; Driver: drive_stream, with Driver/Steps
--               (Driver/Played: what it writes if nothing fails, to compare it with)
-- The other files prove what their first line says; the Tests files hold runs at concrete inputs.
--
-- How the code is modelled. A method that takes a lock is one step: a function from the state to the
-- state and what the method returns, with the clock as the argument `now` (a number of nanoseconds;
-- `now_wall` is the wall clock where the code reads both). Concurrency is the order of such steps: a
-- history is a list of them. A `HashMap` is an association list in the order in which it is enumerated.
-- Counters saturate or wrap at 2^64 where the code's do. Money is a whole number of a small unit, and
-- so is a price: the rounding of `f64` and negative amounts are not modelled. The messages of errors are
-- left out. In the attempt loop, what the database, the clock, the provider and the gateway's other
-- parts answer in one round is a `Visit`, and a run is given one for each round; database writes to an
-- account's row succeed. The driver of a stream takes what happens to it as a list of inputs, and the
-- client's channel as the number of frames that it still takes; the encoder and the provider's adapter
-- are records of functions, as they are trait objects in the code. An encoder's frame is the data of
-- its JSON. Parameters stand for code outside the repository: chrono's calendar (`Calendar`) and time
-- parser and printer (`parse_dt`, `to_rfc3339`), `str::split_once` and `trim`, `String::from_utf8_lossy`,
-- the printer of numbers (`to_text`), the parsers of addresses
-- (`Parsers`), the removal of dashes from an id (`plain`) and serde_json's
-- values (`Host`, `trigger`), SHA-256 (`sha256_hex`, `hash`, `challenge`), the parser of the crate url
-- (`parse`). The cipher of src/crypto.rs is an interface (`Cipher`, with `Laws`, and for
-- stored values `KvCodec`), and a credential strategy is one too (`CredentialStrategy`); random texts
-- are arguments. SQLite's tables are association lists by their primary keys.
--
-- Bounds and fuel. The loop of `push` takes fuel: a round removes at least two bytes, so one more
-- than the buffer's length is enough. The attempt loop takes fuel for two rounds per target and one
-- more: a target is taken again only once for its account's renewed credential. All other functions
-- are structural. Generations and reservation ids are 64-bit; where a theorem needs them not to
-- wrap, it supposes fewer than 2^64 steps.
--
-- Not modelled: of the pipeline, the choice and order of targets, the reading of the first event,
-- the pass-through of unchanged streams, logs, traces and telemetry; of the frontends, the decoding
-- of requests and the aggregation of whole answers; the adapters of providers; of plugins, the
-- host, the packages, manifests and permissions; the static credential strategy, cryptography, the
-- database, administration and the server's shell.
pub mod Base
pub mod Types
pub mod Circuit
pub mod Admission
pub mod Registry
pub mod Cost
pub mod Sse
pub mod Predicate
pub mod RateLimit
pub mod Limits
pub mod Auth
pub mod Opaque
pub mod Plugins
pub mod Credentials
pub mod Pool
pub mod Frontends
pub mod Pipeline
