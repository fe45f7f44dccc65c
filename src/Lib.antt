-- ===== src/Lib.antt =====
-- 1router, a gateway that offers one address for many model providers: a model of its routing core.
--
-- A client's chat request names a model. src/pools/select.rs turns the name into an ordered list of
-- candidates, from a pool or from a direct address `<provider_id>/<model>`; src/proxy/flow.rs offers the
-- request to the candidates in order until one of them answers; src/proxy/backoff.rs classifies each
-- answer; and src/core/runtime.rs keeps the health of every pair of a provider and a model, which decides
-- whom later requests skip. Around this core stand the report of quotas and health
-- (src/telemetry/limits.rs), the exchange of refresh tokens (src/providers/refresh_lock.rs), the limiter
-- of administrator logins (src/admin/auth/rate_limit.rs), the administrator's sessions
-- (src/admin/auth/session.rs), the users' keys (src/users/queries.rs) and the two guards of the routes
-- (src/auth). Clients of the Responses API are served by a translation to chat requests and back
-- (src/proxy/responses.rs), which reads the upstream's stream through src/providers/adapter/sse.rs.
--
-- Files and the code that they model:
--   Model, Error       the types of src/core/model.rs, src/core/reasoning.rs and src/core/error.rs, with
--                      `validate_path_id` and the answer to each error
--   Backoff            src/proxy/backoff.rs: `classify`, `cooldown_for`, `reset_after_from_header`
--   Runtime            src/core/runtime.rs: an entry's operations, `prune_idle`, the operations on all
--                      entries of a provider, and the keys of the map
--   Select             src/pools/select.rs: `select`, `select_image`, `rotate_from_cursor`, direct
--                      addressing and `direct_model_allowed`
--   Users, Credentials, Transport
--                      the caller and the presented key (src/users/mod.rs), what an adapter is given
--                      (src/providers/adapter/mod.rs, `is_ready` of src/providers/queries.rs), and the
--                      remembered transport of src/providers/adapter/commandcode/adapter.rs
--   Limits             src/telemetry/limits.rs: `extract`, `capture` and the reports
--   Flow               src/proxy/flow.rs. Flow/World has the state and the world outside, Flow/Attempt
--                      one iteration of the loop of `handle_proxy_inner`, with one function for each
--                      match of the code; Flow/Handler the loop, what precedes it and the 503; Flow/Debug and
--                      Flow/Messages the answers that the program makes itself
--   RateLimit          src/admin/auth/rate_limit.rs, and in RateLimit/Slots every interleaving of the
--                      attempts of one bucket
--   Refresh            src/providers/refresh_lock.rs
--   Sessions           src/admin/auth/session.rs, and in `admit` the session branch of
--                      `require_admin_session` of src/auth/middleware.rs
--   Users/Queries, Users/Keys
--                      src/users/queries.rs: the table of users and the life of a key
--   Access             src/auth/cf_access.rs; Access/Bearer has the guards `require_bearer` and
--                      `require_admin_session` of src/auth/middleware.rs and `extract_cookie` of
--                      src/admin/auth/session.rs, Access/Config the settings
--   Reasoning          src/core/reasoning.rs: `capability_for`, `client_specified_effort`,
--                      `effort_to_inject` and the two injections
--   Sse                src/providers/adapter/sse.rs: the UTF-8 decoder, the framer and its blocks
--   Responses          src/proxy/responses.rs: Responses/Names, Chat and Request have `request_to_chat`,
--                      Reply has `chat_to_response`, Stream the states of a translated stream, and
--                      Pipe the loop of `translate_stream`
--   Tee                src/proxy/dataset_tee.rs: `tee` as polls of a body, and `FireOnDrop`
--   Usage              src/telemetry/usage.rs: `usage_of` and the `Scanner` of a streamed body
--   Json               JSON values, with the lookups and updates that the code uses of serde_json
--   Prelude            lists, texts, maps, the stable sort and integers
--   Examples           a configuration that the examples of the Tests files share
--
-- State is passed explicitly. A text is a list of code points; a header value is a list of bytes; a
-- `DashMap` is an association list, whose order stands for any order of iteration. `Instant`s and
-- `Duration`s count nanoseconds. A `u8` or `u32` that is added to keeps its wrap-around.
--
-- The world of a request (Flow/World) is a parameter: the clock, the row of a provider's tokens, the
-- adapter and the upstream. Each of its observations is made at a tick of its own, so the results hold
-- whatever it answers and however its answers change. All adapters of the code classify an answer by
-- `backoff::classify`, so this is part of the model and not of the world.
--
-- Loops are structural recursion over the candidates, the headers or the entries; the retried write
-- recurses on the retries that are left. Two recursions have fuel, the length of what they read, of
-- which every step takes some: the loop over the blocks of a buffer (Sse/Split), with the theorem that
-- none is left, and the removal of a repeated prefix (Access/Config).
--
-- Libraries are parameters: the printing and parsing of JSON (and of UTF-8, in Usage), random ids and
-- keys, SHA-256, base64, RSA, and the parsing of an address. The random key and the id are arguments of
-- the operation that draws them.
--
-- Not modelled: the adapters' own translation of requests and streams (the results on the flow hold for
-- every adapter), SQL (a table is a map, and of the queries only the lookup of a presented key can fail),
-- HTTP routes, the cookies that set and clear a session, image generation, reports of usage, latencies,
-- tracing, the bytes of a dataset copy (its decision is modelled),
-- concurrency of whole requests (each request runs alone; the health map that it meets is arbitrary),
-- and the sleeps between the writes of refreshed tokens.
pub mod Prelude
pub mod Model
pub mod Error
pub mod Json
pub mod Backoff
pub mod Runtime
pub mod Reasoning
pub mod Select
pub mod Usage
pub mod Users
pub mod Credentials
pub mod Transport
pub mod Limits
pub mod Flow
pub mod Sse
pub mod Tee
pub mod Responses
pub mod RateLimit
pub mod Refresh
pub mod Access
pub mod Sessions
pub mod Examples
