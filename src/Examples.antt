-- ===== src/Examples.antt =====
-- A configuration and a world outside that the examples of the other files share: an API key
-- provider, a Codex account, a chat pool that takes them in turn, and an image pool.
use router.Prelude.{ℕ, false, none, some, [], ◌∷◌}
use router.Prelude.Int.{pos}
use router.Prelude.Text.{Text, codes}
use router.Model.{
  WireFormat, PoolWire, Provider, ProviderKind, PoolStrategy, Modality, Pool, PoolMember,
  PoolWithMembers, ConfigSnapshot,
}
use router.Error.{ok, err, RefreshError}
use router.Users.{Caller}
use router.Credentials.{Credentials}
use router.Select.{ResolvedMember}
use router.Flow.World.{World, Upstream, Body, State, Context}

abbrev pub acme : Provider
acme = record {
  id = codes "acme";
  wire_format = WireFormat.open_ai;
  kind = ProviderKind.passthrough;
  base_url = some (codes "https://acme.example");
  api_key = some (codes "k");
  upstream_model = codes "m1";
  dataset_logging = false;
  default_reasoning_effort = none;
}

abbrev pub codex : Provider
codex = record {
  id = codes "cx";
  wire_format = WireFormat.open_ai;
  kind = ProviderKind.oauth_codex;
  base_url = none;
  api_key = none;
  upstream_model = codes "gpt-image-2";
  dataset_logging = false;
  default_reasoning_effort = none;
}

abbrev pub member : (pool_id provider_id : Text) → ℕ → PoolMember
member pool_id provider_id priority = record {
  pool_id = pool_id;
  provider_id = provider_id;
  priority = pos priority;
  model_override = none;
  dataset_logging_override = none;
  reasoning_effort_override = none;
}

abbrev pub chat_pool : Pool
chat_pool = record {
  id = codes "chat";
  wire_format = PoolWire.any;
  strategy = PoolStrategy.priority;
  sticky_limit = none;
  modality = Modality.chat;
}

abbrev pub image_pool : Pool
image_pool = record {
  id = codes "draw";
  wire_format = PoolWire.any;
  strategy = PoolStrategy.priority;
  sticky_limit = none;
  modality = Modality.image;
}

abbrev pub chat_members : PoolWithMembers
chat_members = record {
  pool = chat_pool;
  members = member (codes "chat") (codes "cx") 2 ∷ member (codes "chat") (codes "acme") 1 ∷ [];
}

abbrev image_members : PoolWithMembers
image_members = record {
  pool = image_pool;
  members =
      record (member (codes "draw") (codes "cx") 1) { model_override = some (codes "gpt-image-2") }
      ∷ [];
}

abbrev pub config : ConfigSnapshot
config = record { providers = acme ∷ codex ∷ []; pools = chat_members ∷ image_members ∷ [] }

abbrev pub guest : Caller
guest = record { user_id = some (codes "u1") }

abbrev pub candidate : Provider → ResolvedMember
candidate p = record {
  provider = p;
  effective_model = p.upstream_model;
  dataset_logging_override = none;
  reasoning_effort_override = none;
}

abbrev pub credentials : Credentials
credentials = record {
  api_key = none;
  access_token = some (codes "a1");
  refresh_token = some (codes "r1");
  id_token = none;
  access_expires_at = none;
  provider_data = [];
}

-- A request and a payload are texts; every request gets the one answer.
abbrev pub world : Upstream Text → World Text Text
world up = record {
  clock = λ _. 1000;
  oauth_state = λ _ _. none;
  build_request = λ _ _ _ _ _ body _. ok body;
  execute = λ _ _. ok up;
  transform_response =
      λ _ _ _ u _. ok (record { status = u.status; headers = []; body = Body.text u.payload });
  refresh = λ _ _ _. err RefreshError.invalid_grant;
  read_text_truncated = λ p. p;
  usage_limit_cooldown = λ _ _. none;
  wants_stream = λ _. false;
  show_status = λ _. codes "status";
}

abbrev pub answer : ℕ → Upstream Text
answer status = record { status = status; headers = []; payload = codes "body" }

abbrev pub initial : State
initial = record {
  tick = 0;
  runtime = [];
  rotation = [];
  transports = [];
  limits = [];
  logs = [];
  taps = [];
  sent = [];
}

abbrev pub context : Context
context = record {
  wire = WireFormat.open_ai;
  pool_id = codes "chat";
  caller = guest;
  body = codes "{}";
  wanted_stream = false;
}
