-- ===== src/Reasoning.antt =====
-- src/core/reasoning.rs: which model takes a reasoning effort, in which shape, and how it is put into
-- a request; `wants_messages_shape` of src/providers/adapter/commandcode/transform.rs.
pub mod Choice
pub mod Effort
pub mod Inject
pub mod Tests
use router.Prelude.{
  ℕ, ◌+◌, Bool, true, false, ◌&&◌, ◌||◌, not, List, [], ◌∷◌, Option, none, some, ◌>>=◌, is_some_and,
  or_else, unwrap_or, if◌then◌else◌, is_empty,
}
use router.Prelude.Int.{ℤ, pos, int_leb}
use router.Prelude.Text.{Text, codes, text_eq, starts_with, contains_text, to_ascii_lowercase}
use router.Json.{Value, null, num, str, obj, lookup, set, delete, object, as_str, as_i64, is_null}
use router.Model.{EffortLevel, ProviderKind, WireFormat}

pub data ReasoningCapability : Type 0 where
  unsupported open_ai_effort anthropic_thinking_budget : ReasoningCapability

unfoldable supports : ReasoningCapability → Bool
supports ReasoningCapability.unsupported = false
supports _ = true

unfoldable openai_effort_str : EffortLevel → Text
openai_effort_str EffortLevel.low = codes "low"
openai_effort_str EffortLevel.medium = codes "medium"
openai_effort_str EffortLevel.high = codes "high"

unfoldable anthropic_budget_tokens : EffortLevel → ℕ
anthropic_budget_tokens EffortLevel.low = 1024
anthropic_budget_tokens EffortLevel.medium = 8192
anthropic_budget_tokens EffortLevel.high = 24576

unfoldable wants_messages_shape : Text → Bool
wants_messages_shape model = contains_text (to_ascii_lowercase model) (codes "claude")

-- Both vendors' models, by the prefix of the lowercased name.
unfoldable is_gpt5 : Text → Bool
is_gpt5 m = starts_with m (codes "gpt-5")

unfoldable is_claude : Text → Bool
is_claude m =
    starts_with m (codes "claude-sonnet-")
    || starts_with m (codes "claude-opus-")
    || starts_with m (codes "claude-haiku-")

unfoldable capability_for : ProviderKind → WireFormat → Text → ReasoningCapability
capability_for ProviderKind.oauth_codex wire_format upstream_model =
    ReasoningCapability.open_ai_effort
capability_for ProviderKind.oauth_command_code wire_format upstream_model =
    if wants_messages_shape (to_ascii_lowercase upstream_model)
    then ReasoningCapability.anthropic_thinking_budget
    else ReasoningCapability.unsupported
capability_for ProviderKind.passthrough WireFormat.open_ai upstream_model =
    if is_gpt5 (to_ascii_lowercase upstream_model)
    then ReasoningCapability.open_ai_effort
    else ReasoningCapability.unsupported
capability_for ProviderKind.passthrough WireFormat.anthropic upstream_model =
    if is_claude (to_ascii_lowercase upstream_model)
    then ReasoningCapability.anthropic_thinking_budget
    else ReasoningCapability.unsupported

-- A key that is there and not `null`.
unfoldable is_given : Value → Text → Bool
is_given body k = not (is_null (unwrap_or (lookup body k) null))

unfoldable client_specified_effort : Value → Bool
client_specified_effort client_json =
    is_given client_json (codes "reasoning_effort")
    || is_some_and (lookup client_json (codes "reasoning") >>= λ r. lookup r (codes "effort"))
        (λ e. not (is_null e))
    || is_given client_json (codes "thinking")

pub effort_from_responses : Value → Option Text
effort_from_responses req = lookup req (codes "reasoning") >>= λ r.
    lookup r (codes "effort") >>= λ e. as_str e >>= λ e. if is_empty e then none else some e

-- The level of an Anthropic budget.
unfoldable effort_of_budget : ℤ → Text
effort_of_budget budget =
    if int_leb budget (pos 4096)
    then codes "low"
    else if int_leb budget (pos 16384)
    then codes "medium"
    else codes "high"

-- The `thinking` object read as a level.
unfoldable effort_of_thinking : Value → Option Text
effort_of_thinking t =
    let budget =
      lookup t (codes "budget_tokens") >>= λ b. as_i64 b >>= λ b. some (effort_of_budget b) in
    if is_some_and (lookup t (codes "type") >>= λ v. as_str v) (λ s. text_eq s (codes "enabled"))
    then budget
    else none

-- `output_config.effort`, with Anthropic's `max` in OpenAI's words.
unfoldable configured_effort : Value → Option Text
configured_effort body = lookup body (codes "output_config") >>= λ o.
    lookup o (codes "effort") >>= λ e.
    as_str e >>= λ e. some (if text_eq e (codes "max") then codes "xhigh" else e)

unfoldable effort_from_anthropic : Value → Option Text
effort_from_anthropic body =
    or_else (configured_effort body) (lookup body (codes "thinking") >>= λ t. effort_of_thinking t)

unfoldable inject_openai_effort : Value → EffortLevel → Value
inject_openai_effort body level =
    set body (codes "reasoning_effort") (str (openai_effort_str level))

abbrev thinking_max_tokens_headroom : ℕ
thinking_max_tokens_headroom = 1024

-- The `thinking` object of a level.
unfoldable thinking_of : EffortLevel → Value
thinking_of level = object (
    (codes "type", str (codes "enabled"))
    ∷ (codes "budget_tokens", num (pos (anthropic_budget_tokens level)))
    ∷ [])

-- `current.is_none_or(|m| m < minimum)`.
unfoldable is_short : Option ℤ → ℕ → Bool
is_short none minimum = true
is_short (some m) minimum = not (int_leb (pos minimum) m)

unfoldable with_max_tokens : Value → ℕ → Value
with_max_tokens body minimum =
    if is_short (lookup body (codes "max_tokens") >>= λ m. as_i64 m) minimum
    then set body (codes "max_tokens") (num (pos minimum))
    else body

unfoldable without_sampling : Value → Value
without_sampling body =
    delete (delete (delete body (codes "temperature")) (codes "top_p")) (codes "top_k")

unfoldable inject_anthropic_thinking : Value → EffortLevel → Value
inject_anthropic_thinking (obj fs) level = without_sampling (
    with_max_tokens (set (obj fs) (codes "thinking") (thinking_of level))
      (anthropic_budget_tokens level + thinking_max_tokens_headroom))
inject_anthropic_thinking body level = body

unfoldable effort_to_inject :
    ProviderKind
    → WireFormat
    → Text
    → Option EffortLevel
    → Value
    → Option (ReasoningCapability × EffortLevel)
effort_to_inject kind wire_format upstream_model resolved client_json = resolved >>= λ level.
    let capability = capability_for kind wire_format upstream_model in
    if client_specified_effort client_json
    then none
    else if supports capability
    then some (capability, level)
    else none
