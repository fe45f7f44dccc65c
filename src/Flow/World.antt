-- ===== src/Flow/World.antt =====
-- What the request path of src/proxy/flow.rs works on: the shared state, the progress of a request
-- through its candidates, and the world outside: the clock, the database, the adapters and the
-- upstreams. Each observation of the world is made at a tick of its own, so that it may answer
-- differently every time.
use router.Prelude.{ℕ, suc, ◌+◌, ◌%◌, ◌^◌, Bool, Option, some, List, ◌∷◌, unwrap_or}
use router.Prelude.Map.{get, upsert}
use router.Prelude.Text.{Text, text_Eq}
use router.Model.{WireFormat, Provider, LogEntry, OAuthState}
use router.Error.{AppError, Result, RefreshError}
use router.Users.{Caller}
use router.Backoff.{HeaderMap, cooldown_for}
use router.Runtime.{ProviderRuntimeState, RuntimeStateMap, default_state}
use router.Select.{PoolRotationMap}
use router.Credentials.{Credentials}
use router.Transport.{TransportCache}
use router.Limits.{LimitStore}
use router.Flow.Messages.{SkippedMember}

-- An upstream's answer, whose body is left to the adapter.
pub record Upstream (Payload : Type 0) : Type 0 where
  pub status : ℕ
  pub headers : HeaderMap
  pub payload : Payload

pub data Body (Payload : Type 0) : Type 0 where
  relayed : Payload → Body Payload
  text : Text → Body Payload
  wire_json : WireFormat → Text → Body Payload

pub record Response (Payload : Type 0) : Type 0 where
  pub status : ℕ
  pub headers : HeaderMap
  pub body : Body Payload

-- The operations of `ProviderAdapter` that the request path calls, with the provider that the
-- adapter was made for and the client's wire format, and the rest of the world.
pub record World (Request Payload : Type 0) : Type 0 where
  pub clock : ℕ → ℕ
  pub oauth_state : ℕ → Text → Option OAuthState
  pub build_request :
      ℕ
      → Provider
      → WireFormat
      → Option Text
      → TransportCache
      → Text
      → Credentials
      → Result AppError Request
  pub execute : ℕ → Request → Result Text (Upstream Payload)
  pub transform_response :
      ℕ → Provider → WireFormat → Upstream Payload → Bool → Result AppError (Response Payload)
  -- `refresh_and_persist_detached`.
  pub refresh : ℕ → Provider → Credentials → Result RefreshError Credentials
  pub read_text_truncated : Payload → Text
  -- `usage_limit_cooldown` of the body, if it is JSON.
  pub usage_limit_cooldown : ℕ → Text → Option ℕ
  -- The `stream` field of the client's JSON body.
  pub wants_stream : Text → Bool
  -- `Display` of a status code.
  pub show_status : ℕ → Text

-- The parts of `AppState` that the request path changes. `logs` and `taps` hold the entries handed
-- to the log and the exchanges whose response is copied for the dataset, the latest first; a full
-- channel may still drop them. `sent` records the provider and the model of each request that was
-- executed, the latest first; the program keeps no such record.
pub record State : Type 0 where
  pub tick : ℕ
  pub runtime : RuntimeStateMap
  pub rotation : PoolRotationMap
  pub transports : TransportCache
  pub limits : LimitStore
  pub logs : List LogEntry
  pub taps : List (Text × Text)
  pub sent : List (Text × Text)

-- The local variables of the loop over the candidates.
pub record Progress : Type 0 where
  pub tried : List Text
  pub last_error_body : Text
  pub last_provider : Text
  pub skipped : List SkippedMember
  pub prev_key : Option Text
  pub seen_error : Text

-- What stays the same for all candidates of a request.
pub record Context : Type 0 where
  pub wire : WireFormat
  pub pool_id : Text
  pub caller : Caller
  pub body : Text
  pub wanted_stream : Bool

abbrev pub tick_on : State → State
tick_on s = record s { tick = suc s.tick }

-- `state.runtime.entry(key).or_default()` with a change of the entry.
abbrev pub change_entry : State → Text → (ProviderRuntimeState → ProviderRuntimeState) → State
change_entry s key f = record s { runtime = upsert s.runtime key default_state f }

-- `entry(key).or_default().backoff_level`.
abbrev pub level_of : State → Text → ℕ
level_of s key = (unwrap_or (get s.runtime key) default_state).backoff_level

-- `cooldown_for(st.backoff_level + 1)`, where the sum is a `u8`.
unfoldable pub next_cooldown : State → Text → ℕ
unfolding get
next_cooldown s key = cooldown_for ((level_of s key + 1) % 2 ^ 8)

-- `log`.
unfoldable pub log : State → Context → Text → Option ℕ → Bool → State
log s ctx provider_id status success = record s {
  logs =
      record {
        pool_id = some ctx.pool_id;
        provider_id = some provider_id;
        status_code = status;
        success = success;
        user_id = ctx.caller.user_id;
      }
      ∷ s.logs;
}
