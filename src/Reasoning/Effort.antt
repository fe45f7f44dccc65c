-- ===== src/Reasoning/Effort.antt =====
-- When src/core/reasoning.rs injects an effort.
use mathlib.Core.Path.{subst}
use mathlib.Core.Option.{some-injective}
use router.Prelude.{
  Bool-cases, Option-cases, inl, inr, test-some, ap, sym, ◌∙◌, ◌≡◌, ◌↔◌, refl, true, Option, none,
  some, arith,
}
use router.Prelude.Text.{Text, codes, text_eq, text_Eq}
use router.Json.{Value, str, is_object, object}
use router.Json.Laws.{lookup-set}
use router.Model.{EffortLevel, ProviderKind, WireFormat}
use router.Reasoning.{
  ReasoningCapability, supports, capability_for, client_specified_effort, effort_to_inject,
  inject_openai_effort, inject_anthropic_thinking, openai_effort_str, thinking_of, is_given,
}
use router.Reasoning.Choice.{Chooses, Takes, client_specified_effort_iff, capability_for_iff}
use router.Reasoning.Inject.{inject_anthropic_thinking_lem}

-- An effort is injected exactly where one is configured, the client has chosen none in any of the three
-- conventions, and the model is one that takes an effort; it is then the configured level, in the shape
-- that such models take.
pub effort_to_inject_iff :
    (kind : ProviderKind) (wire : WireFormat) (model : Text) (resolved : Option EffortLevel)
    (client : Value) (c : ReasoningCapability) (level : EffortLevel)
    → (effort_to_inject kind wire model resolved client ≡ some (c, level))
      ↔ ((resolved ≡ some level) × (¬ Chooses client) × Takes kind wire model c)
unfolding effort_to_inject
effort_to_inject_iff kind wire model resolved client c level =
    let (to_choice, of_choice) = client_specified_effort_iff client in
    let capability = capability_for kind wire model in
    let (to_takes, of_takes) = capability_for_iff kind wire model c in
    elim (Option-cases resolved) [
      | inl none_set ↦ (
        λ h. absurd (ground (arith, rw none_set at (h))),
        λ (e, _, _). absurd (ground (arith, none_set, e)),
      )
      | inr (l, set) ↦ elim (Bool-cases (client_specified_effort client)) [
        | inl chosen ↦ (
          λ h. absurd (ground (arith, rw (set, chosen) at (h))),
          λ (_, free, _). absurd (free (to_choice chosen)),
        )
        | inr unchosen ↦ (
          λ h.
              let (takes, h) =
                test-some (supports capability) (some (capability, l)) (c, level)
                  (rw (set, unchosen) at (h)) in
              let same : (capability, l) ≡ (c, level) = some-injective _ _ h in
              let is_c : capability ≡ c = ap (λ r. r.0) same in
              (
                set ∙ ap (λ r. some r.1) same,
                (λ chosen. ground (arith, of_choice chosen, unchosen)),
                to_takes (is_c, subst (λ x. supports x ≡ true) is_c takes),
              ),
          λ (e, _, takes).
              let (is_c, s) = of_takes takes in
              let s' : supports capability ≡ true = subst (λ x. supports x ≡ true) (sym is_c) s in
              let is_level : l ≡ level = some-injective _ _ (sym set ∙ e) in
              rw (set, unchosen, s') (ap (λ x. some (x, l)) is_c ∙ ap (λ x. some (c, x)) is_level),
        )
      ]
    ]

is_given-thinking :
    (v : Value) → is_given v (codes "thinking") ≡ true → client_specified_effort v ≡ true
unfolding client_specified_effort
is_given-thinking v h = ground (arith, h)

is_given-reasoning_effort :
    (v : Value) → is_given v (codes "reasoning_effort") ≡ true → client_specified_effort v ≡ true
unfolding client_specified_effort
is_given-reasoning_effort v h = ground (arith, h)

effort_to_inject-chosen :
    (kind : ProviderKind) (wire : WireFormat) (model : Text) (resolved : Option EffortLevel)
    (client : Value)
    → client_specified_effort client ≡ true
    → effort_to_inject kind wire model resolved client ≡ none
unfolding effort_to_inject
effort_to_inject-chosen kind wire model resolved client h = ground (arith, h)

is_given-openai :
    (body : Value) (level : EffortLevel)
    → is_object body ≡ true
    → is_given (inject_openai_effort body level) (codes "reasoning_effort") ≡ true
unfolding is_given inject_openai_effort text_eq
is_given-openai body level o =
    rw
      (lookup-set body (codes "reasoning_effort") (codes "reasoning_effort")
        (str (openai_effort_str level)) o)
      refl

is_given-anthropic :
    (body : Value) (level : EffortLevel)
    → is_object body ≡ true
    → is_given (inject_anthropic_thinking body level) (codes "thinking") ≡ true
unfolding is_given thinking_of object
is_given-anthropic body level o =
    let (_, _, _, _, thinking, _) = inject_anthropic_thinking_lem body level o in rw thinking refl

-- A request into which an effort was injected counts as one whose client chose: in either shape, a
-- second pass over it injects nothing.
pub effort_to_inject-inject :
    (kind : ProviderKind) (wire : WireFormat) (model : Text) (resolved : Option EffortLevel)
    (body : Value) (level : EffortLevel)
    → is_object body ≡ true
    → (effort_to_inject kind wire model resolved (inject_openai_effort body level) ≡ none)
      × (effort_to_inject kind wire model resolved (inject_anthropic_thinking body level) ≡ none)
effort_to_inject-inject kind wire model resolved body level o = (
  effort_to_inject-chosen kind wire model resolved (inject_openai_effort body level)
      (is_given-reasoning_effort (inject_openai_effort body level) (is_given-openai body level o)),
  effort_to_inject-chosen kind wire model resolved (inject_anthropic_thinking body level)
      (is_given-thinking (inject_anthropic_thinking body level) (is_given-anthropic body level o)),
)
