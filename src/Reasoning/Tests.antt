-- ===== src/Reasoning/Tests.antt =====
-- Runs of the reasoning table on concrete requests.
use router.Prelude.{◌≡◌, ◌≢◌, ◌↔◌, refl, true, false, Option, none, some, [], ◌∷◌}
use router.Prelude.Int.{pos}
use router.Prelude.Text.{codes, text_eq}
use router.Json.{Value, num, str, object, lookup, fields, entries}
use router.Model.{EffortLevel, ProviderKind, WireFormat}
use router.Reasoning.{
  ReasoningCapability, capability_for, effort_to_inject, inject_anthropic_thinking,
  inject_openai_effort, effort_from_anthropic, openai_effort_str, client_specified_effort,
}
use router.Reasoning.Choice.{Chooses, Takes}
use router.Reasoning.Effort.{effort_to_inject_iff, effort_to_inject-inject}
use router.Reasoning.Inject.{IsInjected, inject_anthropic_thinking_lem}

abbrev kind : ProviderKind
kind = ProviderKind.oauth_codex

abbrev wire : WireFormat
wire = WireFormat.open_ai

abbrev request : Value
request = object (
    (codes "max_tokens", num (pos 4096))
    ∷ (codes "temperature", num (pos 1))
    ∷ (codes "model", str (codes "m"))
    ∷ [])

gpt5_case :
    capability_for ProviderKind.passthrough WireFormat.open_ai (codes "GPT-5-mini")
    ≡ ReasoningCapability.open_ai_effort
unfolding capability_for router.Reasoning.is_gpt5 router.Prelude.Text.starts_with
    router.Prelude.Text.to_ascii_lowercase
gpt5_case = refl

mirror_case :
    capability_for ProviderKind.passthrough WireFormat.open_ai (codes "claude-sonnet-4")
    ≡ ReasoningCapability.unsupported
unfolding capability_for router.Reasoning.is_gpt5 router.Prelude.Text.starts_with
    router.Prelude.Text.to_ascii_lowercase
mirror_case = refl

raised :
    lookup (inject_anthropic_thinking request EffortLevel.high) (codes "max_tokens")
    ≡ some (num (pos 25600))
unfolding lookup inject_anthropic_thinking object router.Reasoning.without_sampling
    router.Json.delete router.Reasoning.with_max_tokens router.Reasoning.is_short router.Json.set
    router.Prelude.Text.text_eq router.Reasoning.anthropic_budget_tokens
raised = refl

effort_to_inject_iff_example :
    (effort_to_inject kind wire (codes "gpt-5") (some EffortLevel.low) request
      ≡ some (ReasoningCapability.open_ai_effort, EffortLevel.low))
    ↔ ((some EffortLevel.low ≡ some EffortLevel.low)
        × (¬ Chooses request)
        × Takes kind wire (codes "gpt-5") ReasoningCapability.open_ai_effort)
effort_to_inject_iff_example =
    effort_to_inject_iff kind wire (codes "gpt-5") (some EffortLevel.low) request
      ReasoningCapability.open_ai_effort EffortLevel.low

injected :
    effort_to_inject kind wire (codes "gpt-5") (some EffortLevel.low) request
    ≡ some (ReasoningCapability.open_ai_effort, EffortLevel.low)
unfolding effort_to_inject client_specified_effort router.Reasoning.is_given lookup object text_eq
    router.Reasoning.supports capability_for
injected = refl

effort_to_inject-inject_example :
    (effort_to_inject kind wire
        (codes "gpt-5")
        (some EffortLevel.low)
        (inject_openai_effort request EffortLevel.high)
      ≡ none)
    × (effort_to_inject kind wire
          (codes "gpt-5")
          (some EffortLevel.low)
          (inject_anthropic_thinking request EffortLevel.high)
        ≡ none)
unfolding object
effort_to_inject-inject_example =
    effort_to_inject-inject kind wire (codes "gpt-5") (some EffortLevel.low) request
      EffortLevel.high refl

inject_anthropic_thinking_lem_example :
    IsInjected request EffortLevel.high (inject_anthropic_thinking request EffortLevel.high)
unfolding object
inject_anthropic_thinking_lem_example = inject_anthropic_thinking_lem request EffortLevel.high refl
