-- ===== src/Limits.antt =====
-- src/telemetry/limits.rs: the quota headers of upstream responses, and the report of `GET
-- /v1/limits`. The time of an observation is left out of the store.
pub mod Extract
pub mod Report
mod Tests
use router.Prelude.{
  ℕ, ◌+◌, ◌-◌, Bool, true, false, ◌&&◌, ◌||◌, not, Option, none, some, List, [], ◌∷◌, ltb, leb,
  nat_beq, if◌then◌else◌, is_empty, length, ◌>>=◌,
}
use router.Prelude.Map.{Map, get, insert}
use router.Prelude.Text.{Text, text_Eq, codes, starts_with, len}
use router.Backoff.{HeaderMap, to_str, as_secs}
use router.Runtime.{
  ProviderRuntimeState, ProviderStatus, RuntimeStateMap, runtime_key, runtime_key_prefix,
  is_available,
}

abbrev pub max_headers : ℕ
max_headers = 32

abbrev pub max_value_len : ℕ
max_value_len = 64

pub is_limit_header : Text → Bool
unfolding starts_with
is_limit_header name =
    starts_with name (codes "x-codex-primary-")
    || starts_with name (codes "x-codex-secondary-")
    || starts_with name (codes "x-codex-credits-")
    || starts_with name (codes "x-ratelimit-")
    || starts_with name (codes "anthropic-ratelimit-")

-- A `BTreeMap` from names to values.
abbrev pub LimitValues : Type 0
LimitValues = Map Text Text

-- The value that a header contributes, if any.
pub limit_value : Text → List ℕ → Option Text
unfolding is_limit_header to_str len
limit_value name value =
    if not (is_limit_header name)
    then none
    else to_str value >>= λ text. if ltb max_value_len (len text) then none else some text

-- The loop of `extract`, which ends when the map is full.
pub extract_from : LimitValues → HeaderMap → LimitValues
unfolding limit_value insert
extract_from out [] = out
extract_from out ((name, value) ∷ headers) = elim (limit_value name value) [
  | none ↦ extract_from out headers
  | some text ↦
      if leb max_headers (length out) then out else extract_from (insert out name text) headers
]

pub extract : HeaderMap → LimitValues
unfolding extract_from
extract headers = extract_from [] headers

abbrev pub LimitStore : Type 0
LimitStore = Map Text LimitValues

unfoldable pub capture : LimitStore → Text → HeaderMap → LimitStore
unfolding extract
capture store provider_id headers =
    let values = extract headers in
    if is_empty values then store else insert store provider_id values

-- The order of the variants of `ProviderStatus`, which `st.status as u8` gives.
abbrev discriminant : ProviderStatus → ℕ
discriminant ProviderStatus.healthy = 0
discriminant ProviderStatus.cooling = 1
discriminant ProviderStatus.misconfigured = 2

-- `(a.status as u8, a.backoff_level) <= (b.status as u8, b.backoff_level)`.
abbrev pub at_most : ProviderRuntimeState → ProviderRuntimeState → Bool
at_most a b =
    ltb (discriminant a.status) (discriminant b.status)
    || (nat_beq (discriminant a.status) (discriminant b.status)
        && leb a.backoff_level b.backoff_level)

-- `max_by_key` answers the last of several greatest elements.
abbrev pub keep_max : Option ProviderRuntimeState → ProviderRuntimeState → ProviderRuntimeState
keep_max none st = st
keep_max (some best) st = if at_most best st then st else best

pub fold_unavailable :
    Text → ℕ → Option ProviderRuntimeState → RuntimeStateMap → Option ProviderRuntimeState
unfolding starts_with is_available
fold_unavailable prefix now best [] = best
fold_unavailable prefix now best ((k, st) ∷ m) =
    fold_unavailable prefix now
      (if starts_with k prefix && not (is_available st now) then some (keep_max best st) else best)
      m

pub worst_unavailable_state : RuntimeStateMap → Text → ℕ → Option ProviderRuntimeState
unfolding fold_unavailable
worst_unavailable_state runtime provider_id now =
    fold_unavailable (runtime_key_prefix provider_id) now none runtime

-- The three fields of the JSON object.
pub record StateFields : Type 0 where
  pub available : Bool
  pub status : ProviderStatus
  pub retry_in_seconds : Option ℕ

abbrev healthy_fields : StateFields
healthy_fields = record {
  available = true;
  status = ProviderStatus.healthy;
  retry_in_seconds = none;
}

pub state_fields : Option ProviderRuntimeState → ℕ → StateFields
unfolding is_available
state_fields none now = healthy_fields
state_fields (some st) now =
    if not (is_available st now)
    then record {
      available = false;
      status = st.status;
      retry_in_seconds = st.unavailable_until >>= λ until.
          if leb now until then some (as_secs (until - now)) else none;
    }
    else healthy_fields

pub provider_report : RuntimeStateMap → LimitStore → Text → ℕ → StateFields × Option LimitValues
unfolding worst_unavailable_state state_fields get
provider_report runtime store provider_id now =
    (state_fields (worst_unavailable_state runtime provider_id now) now, get store provider_id)

pub member_report : RuntimeStateMap → Text → Text → ℕ → StateFields
unfolding state_fields get runtime_key
member_report runtime provider_id effective_model now =
    state_fields (get runtime (runtime_key provider_id effective_model)) now
