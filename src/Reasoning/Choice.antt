-- ===== src/Reasoning/Choice.antt =====
-- When the client of src/core/reasoning.rs has chosen an effort, and which models take one.
use mathlib.Core.Path.{subst}
use mathlib.Core.Option.{some-injective}
use router.Prelude.{
  ◌≡◌, ◌≢◌, ◌↔◌, ◌⊎◌, inl, inr, refl, sym, ◌∙◌, Bool, true, false, not, [], ◌∷◌, Option, none, some,
  ◌>>=◌, arith, Option-cases, or3_iff, is_some_and, if◌then◌else◌,
}
use router.Prelude.Text.{Text, codes, starts_with, contains_text, to_ascii_lowercase}
use router.Json.{Value, null, bool, num, other_num, str, arr, obj, lookup, is_null}
use router.Model.{ProviderKind, WireFormat}
use router.Reasoning.{
  ReasoningCapability, supports, capability_for, client_specified_effort, is_given,
  wants_messages_shape, is_gpt5, is_claude,
}

-- The value at a key is there, and not `null`.
abbrev pub Gives : Value → Text → Type 0
Gives v k = (e : Value) × (lookup v k ≡ some e) × (e ≢ null)

-- The client chose an effort: in OpenAI's words, in the words of the Responses API, or by an Anthropic
-- `thinking` object.
abbrev pub Chooses : Value → Type 0
Chooses client =
    Gives client (codes "reasoning_effort")
    ⊎ ((r : Value) × (lookup client (codes "reasoning") ≡ some r) × Gives r (codes "effort"))
    ⊎ Gives client (codes "thinking")

-- The models that take an effort, by the kind of provider and the lowercased name, with the shape.
abbrev pub Takes : ProviderKind → WireFormat → Text → ReasoningCapability → Type 0
Takes ProviderKind.oauth_codex wire model c = c ≡ ReasoningCapability.open_ai_effort
Takes ProviderKind.oauth_command_code wire model c =
    (c ≡ ReasoningCapability.anthropic_thinking_budget)
    × (contains_text (to_ascii_lowercase model) (codes "claude") ≡ true)
Takes ProviderKind.passthrough WireFormat.open_ai model c =
    (c ≡ ReasoningCapability.open_ai_effort)
    × (starts_with (to_ascii_lowercase model) (codes "gpt-5") ≡ true)
Takes ProviderKind.passthrough WireFormat.anthropic model c =
    (c ≡ ReasoningCapability.anthropic_thinking_budget)
    × ((starts_with (to_ascii_lowercase model) (codes "claude-sonnet-") ≡ true)
        ⊎ (starts_with (to_ascii_lowercase model) (codes "claude-opus-") ≡ true)
        ⊎ (starts_with (to_ascii_lowercase model) (codes "claude-haiku-") ≡ true))

not_null : (v : Value) → (not (is_null v) ≡ true) ↔ (v ≢ null)
not_null null = ground arith
not_null (bool b) = ground arith
not_null (num n) = ground arith
not_null (other_num t) = ground arith
not_null (str t) = ground arith
not_null (arr xs) = ground arith
not_null (obj fs) = ground arith

is_given_iff : (v : Value) (k : Text) → (is_given v k ≡ true) ↔ Gives v k
unfolding is_given
is_given_iff v k = elim (Option-cases (lookup v k)) [
  | inl e ↦ (λ h. absurd (ground (arith, rw e at (h))), λ (x, f, _). absurd (ground (arith, e, f)))
  | inr (x, e) ↦ (
    λ h. (x, e, (not_null x).0 (rw e at (h))),
    λ (y, f, y_given).
        rw e ((not_null x).1 (subst (λ z. z ≢ null) (some-injective _ _ (sym f ∙ e)) y_given)),
  )
]

given_of :
    (o : Option Value)
    → is_some_and o (λ e. not (is_null e)) ≡ true
    → (e : Value) × (o ≡ some e) × (e ≢ null)
given_of none h = absurd (ground (arith, h))
given_of (some e) h = (e, refl, (not_null e).0 h)

effort_iff :
    (client : Value)
    → (is_some_and
          (lookup client (codes "reasoning") >>= λ r. lookup r (codes "effort"))
          (λ e. not (is_null e))
        ≡ true)
      ↔ ((r : Value) × (lookup client (codes "reasoning") ≡ some r) × Gives r (codes "effort"))
effort_iff client = elim (Option-cases (lookup client (codes "reasoning"))) [
  | inl e ↦ (λ h. absurd (ground (arith, rw e at (h))), λ (r, f, _). absurd (ground (arith, e, f)))
  | inr (r, e) ↦ (
    λ h. (r, e, given_of (lookup r (codes "effort")) (rw e at (h))),
    λ (q, f, (x, g, there)).
        let same : q ≡ r = some-injective _ _ (sym f ∙ e) in
        let here : lookup r (codes "effort") ≡ some x =
          subst (λ z. lookup z (codes "effort") ≡ some x) same g in
        rw (e, here) ((not_null x).1 there),
  )
]

pub client_specified_effort_iff :
    (client : Value) → (client_specified_effort client ≡ true) ↔ Chooses client
unfolding client_specified_effort
client_specified_effort_iff client =
    or3_iff (is_given client (codes "reasoning_effort"))
      (is_some_and (lookup client (codes "reasoning") >>= λ r. lookup r (codes "effort"))
        (λ e. not (is_null e)))
      (is_given client (codes "thinking")) (is_given_iff client (codes "reasoning_effort"))
      (effort_iff client) (is_given_iff client (codes "thinking"))

to_ascii_lowercase_idem :
    (s : Text) → to_ascii_lowercase (to_ascii_lowercase s) ≡ to_ascii_lowercase s
unfolding to_ascii_lowercase
to_ascii_lowercase_idem [] = refl
to_ascii_lowercase_idem (c ∷ s) = ground (arith, to_ascii_lowercase_idem s)

same_iff : {A : Type 0} → A ↔ A
same_iff = (λ a. a, λ a. a)

-- A capability that only some models have.
picks :
    {Q : Type 0} (b : Bool) (good c : ReasoningCapability)
    → supports good ≡ true
    → ((b ≡ true) ↔ Q)
    → (((if b then good else ReasoningCapability.unsupported) ≡ c) × (supports c ≡ true))
      ↔ ((c ≡ good) × Q)
unfolding supports
picks true good c s (q, q') =
    (λ (e, _). (sym e, q refl), λ (e, _). (sym e, subst (λ x. supports x ≡ true) (sym e) s))
picks false good c s (q, q') = (
  λ (e, t). absurd (ground (arith, subst (λ x. supports x ≡ true) (sym e) t)),
  λ (_, x). absurd (ground (arith, q' x)),
)

-- The code's capability, where it is not `unsupported`, is the one of the list.
pub capability_for_iff :
    (kind : ProviderKind) (wire : WireFormat) (model : Text) (c : ReasoningCapability)
    → ((capability_for kind wire model ≡ c) × (supports c ≡ true)) ↔ Takes kind wire model c
unfolding capability_for supports wants_messages_shape is_gpt5 is_claude
capability_for_iff ProviderKind.oauth_codex wire model c =
    (λ (e, _). sym e, λ e. (sym e, subst (λ x. supports x ≡ true) (sym e) refl))
capability_for_iff ProviderKind.oauth_command_code wire model c =
    rw (to_ascii_lowercase_idem model) (
      picks (contains_text (to_ascii_lowercase model) (codes "claude"))
        ReasoningCapability.anthropic_thinking_budget c refl same_iff)
capability_for_iff ProviderKind.passthrough WireFormat.open_ai model c =
    picks (starts_with (to_ascii_lowercase model) (codes "gpt-5"))
      ReasoningCapability.open_ai_effort c refl same_iff
capability_for_iff ProviderKind.passthrough WireFormat.anthropic model c =
    let m = to_ascii_lowercase model in
    picks (is_claude m) ReasoningCapability.anthropic_thinking_budget c refl (
      or3_iff (starts_with m (codes "claude-sonnet-")) (starts_with m (codes "claude-opus-"))
        (starts_with m (codes "claude-haiku-")) same_iff same_iff same_iff)
