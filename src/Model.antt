-- ===== src/Model.antt =====
-- src/core/model.rs and the enums of src/core/reasoning.rs: what the administrator configures.
-- Times of creation, names and update stamps play no part in routing and are left out.
use router.Prelude.{ℕ, Bool, true, false, List, Option}
use router.Prelude.Int.{ℤ}
use router.Prelude.Text.{Text}

pub data WireFormat : Type 0 where
  open_ai anthropic : WireFormat

-- Which client routes a pool was created for.
pub data PoolWire : Type 0 where
  open_ai anthropic any : PoolWire

unfoldable accepts : PoolWire → WireFormat → Bool
accepts PoolWire.any w = true
accepts PoolWire.open_ai WireFormat.open_ai = true
accepts PoolWire.open_ai WireFormat.anthropic = false
accepts PoolWire.anthropic WireFormat.open_ai = false
accepts PoolWire.anthropic WireFormat.anthropic = true

abbrev from_wire : WireFormat → PoolWire
from_wire WireFormat.open_ai = PoolWire.open_ai
from_wire WireFormat.anthropic = PoolWire.anthropic

pub data ProviderKind : Type 0 where
  passthrough oauth_codex oauth_command_code : ProviderKind

abbrev pub is_codex : ProviderKind → Bool
is_codex ProviderKind.oauth_codex = true
is_codex _ = false

abbrev pub is_command_code : ProviderKind → Bool
is_command_code ProviderKind.oauth_command_code = true
is_command_code _ = false

pub data EffortLevel : Type 0 where
  low medium high : EffortLevel

pub record Provider : Type 0 where
  pub id : Text
  pub wire_format : WireFormat
  pub kind : ProviderKind
  pub base_url : Option Text
  pub api_key : Option Text
  pub upstream_model : Text
  pub dataset_logging : Bool
  pub default_reasoning_effort : Option EffortLevel

pub data PoolStrategy : Type 0 where
  priority round_robin : PoolStrategy

abbrev pub is_round_robin : PoolStrategy → Bool
is_round_robin PoolStrategy.priority = false
is_round_robin PoolStrategy.round_robin = true

pub data Modality : Type 0 where
  chat image : Modality

abbrev pub is_chat : Modality → Bool
is_chat Modality.chat = true
is_chat Modality.image = false

pub record Pool : Type 0 where
  pub id : Text
  pub wire_format : PoolWire
  pub strategy : PoolStrategy
  pub sticky_limit : Option ℤ
  pub modality : Modality

pub record PoolMember : Type 0 where
  pub pool_id : Text
  pub provider_id : Text
  pub priority : ℤ
  pub model_override : Option Text
  pub dataset_logging_override : Option Bool
  pub reasoning_effort_override : Option EffortLevel

pub record PoolWithMembers : Type 0 where
  pub pool : Pool
  pub members : List PoolMember

-- `ConfigSnapshot` of src/core/state.rs.
pub record ConfigSnapshot : Type 0 where
  pub providers : List Provider
  pub pools : List PoolWithMembers

-- A row of `provider_oauth_state`; the PKCE columns are not read on the request path. Times are
-- numbers, and `provider_data` is kept as its text.
pub record OAuthState : Type 0 where
  pub access_token : Option Text
  pub refresh_token : Option Text
  pub id_token : Option Text
  pub access_expires_at : Option ℕ
  pub provider_data : Text

pub record LogEntry : Type 0 where
  pub pool_id : Option Text
  pub provider_id : Option Text
  pub status_code : Option ℕ
  pub success : Bool
  pub user_id : Option Text
