-- ===== src/Reasoning/Inject.antt =====
-- What `inject_anthropic_thinking` of src/core/reasoning.rs leaves of a request.
use router.Prelude.{
  ℕ, ◌+◌, ◌≡◌, inl, inr, refl, true, false, Option, none, some, ◌>>=◌, if◌then◌else◌, ◌==◌, arith,
  Bool-cases,
}
use router.Prelude.Int.{ℤ, pos, ◌≤ℤ◌, int_leb_iff}
use router.Prelude.Text.{Text, codes, text_eq, text_Eq}
use router.Prelude.Map.{get}
use router.Json.{
  Value, null, bool, num, other_num, str, arr, obj, lookup, set, delete, object, as_i64, is_object,
  fields, entries,
}
use router.Json.Laws.{lookup-set, lookup-delete, is_object-set}
use router.Model.{EffortLevel}
use router.Reasoning.{
  anthropic_budget_tokens, thinking_of, with_max_tokens, without_sampling, is_short,
  inject_anthropic_thinking, effort_from_anthropic, effort_of_thinking, effort_of_budget,
  configured_effort, openai_effort_str,
}

lookup-without_sampling :
    (body : Value) (k : Text)
    → lookup (without_sampling body) k ≡ (
        if codes "top_k" == k
        then none
        else if codes "top_p" == k
        then none
        else if codes "temperature" == k
        then none
        else lookup body k)
unfolding without_sampling
lookup-without_sampling body k =
    rw
      (
        lookup-delete (delete (delete body (codes "temperature")) (codes "top_p")) (codes "top_k")
            k,
        lookup-delete (delete body (codes "temperature")) (codes "top_p") k,
        lookup-delete body (codes "temperature") k,
      )
      refl

inject_anthropic_thinking-eq :
    (body : Value) (level : EffortLevel)
    → is_object body ≡ true
    → inject_anthropic_thinking body level
      ≡ without_sampling (
          with_max_tokens
            (set body (codes "thinking") (thinking_of level))
            (anthropic_budget_tokens level + 1024))
unfolding inject_anthropic_thinking
inject_anthropic_thinking-eq (obj fs) level h = refl
inject_anthropic_thinking-eq null level h = ground arith
inject_anthropic_thinking-eq (bool b) level h = ground arith
inject_anthropic_thinking-eq (num z) level h = ground arith
inject_anthropic_thinking-eq (other_num t) level h = ground arith
inject_anthropic_thinking-eq (str t) level h = ground arith
inject_anthropic_thinking-eq (arr xs) level h = ground arith

-- Only `max_tokens` changes, and only where it is too small.
lookup-with_max_tokens :
    (body : Value) (n : ℕ) (k : Text)
    → is_object body ≡ true
    → (codes "max_tokens" == k) ≡ false
    → lookup (with_max_tokens body n) k ≡ lookup body k
unfolding with_max_tokens
lookup-with_max_tokens body n k o h =
    let short = is_short (lookup body (codes "max_tokens") >>= λ m. as_i64 m) n in
    elim (Bool-cases short) [
      | inl e ↦ rw (e, lookup-set body (codes "max_tokens") k (num (pos n)) o, h) refl
      | inr e ↦ rw e refl
    ]

is_short-as_i64 :
    (o : Option Value) (n : ℕ)
    → is_short (o >>= λ m. as_i64 m) n ≡ false
    → (z : ℤ) × (o ≡ some (num z)) × (pos n ≤ℤ z)
unfolding is_short
is_short-as_i64 none n h = ground arith
is_short-as_i64 (some (num z)) n h = (z, refl, ground (arith, int_leb_iff (pos n) z))
is_short-as_i64 (some null) n h = ground arith
is_short-as_i64 (some (bool b)) n h = ground arith
is_short-as_i64 (some (other_num t)) n h = ground arith
is_short-as_i64 (some (str t)) n h = ground arith
is_short-as_i64 (some (arr xs)) n h = ground arith
is_short-as_i64 (some (obj fs)) n h = ground arith

max_tokens-with_max_tokens :
    (body : Value) (n : ℕ)
    → is_object body ≡ true
    → (z : ℤ) × (lookup (with_max_tokens body n) (codes "max_tokens") ≡ some (num z)) × (pos n ≤ℤ z)
unfolding with_max_tokens text_eq
max_tokens-with_max_tokens body n o =
    let current = lookup body (codes "max_tokens") in
    elim (Bool-cases (is_short (current >>= λ m. as_i64 m) n)) [
      | inl e ↦ (
        pos n,
        rw (e, lookup-set body (codes "max_tokens") (codes "max_tokens") (num (pos n)) o) refl,
        omega arith,
      )
      | inr e ↦
          let (z, found, enough) = is_short-as_i64 current n e in (z, rw (e, found) refl, enough)
    ]

lookup-inject_anthropic_thinking :
    (body : Value) (level : EffortLevel) (k : Text)
    → is_object body ≡ true
    → lookup (inject_anthropic_thinking body level) k ≡ (
        if codes "top_k" == k
        then none
        else if codes "top_p" == k
        then none
        else if codes "temperature" == k
        then none
        else lookup
            (with_max_tokens
              (set body (codes "thinking") (thinking_of level))
              (anthropic_budget_tokens level + 1024))
            k)
lookup-inject_anthropic_thinking body level k o =
    rw (inject_anthropic_thinking-eq body level o) (lookup-without_sampling _ k)

-- What a thinking budget makes of a request: `max_tokens` leaves room for the budget and an answer,
-- the sampling parameters that Anthropic would refuse are gone, all else is as it was.
abbrev pub IsInjected : Value → EffortLevel → Value → Type 0
IsInjected body level out =
    ((z : ℤ) × (lookup out (codes "max_tokens") ≡ some (num z))
      × (pos (anthropic_budget_tokens level + 1024) ≤ℤ z))
    × (lookup out (codes "temperature") ≡ none)
    × (lookup out (codes "top_p") ≡ none)
    × (lookup out (codes "top_k") ≡ none)
    × (lookup out (codes "thinking") ≡ some (thinking_of level))
    × ((k : Text)
        → (codes "top_k" == k) ≡ false
        → (codes "top_p" == k) ≡ false
        → (codes "temperature" == k) ≡ false
        → (codes "max_tokens" == k) ≡ false
        → (codes "thinking" == k) ≡ false
        → lookup out k ≡ lookup body k)

-- The injection into an object leaves a `max_tokens` of at least the budget and 1024 tokens more,
-- no sampling parameter, the `thinking` object of the level, and every other key as it was.
pub inject_anthropic_thinking_lem :
    (body : Value) (level : EffortLevel)
    → is_object body ≡ true
    → IsInjected body level (inject_anthropic_thinking body level)
unfolding text_eq
inject_anthropic_thinking_lem body level o =
    let n = anthropic_budget_tokens level + 1024 in
    let with_thinking = set body (codes "thinking") (thinking_of level) in
    let o' : is_object with_thinking ≡ true =
      rw (is_object-set body (codes "thinking") (thinking_of level)) o in
    let (z, found, enough) = max_tokens-with_max_tokens with_thinking n o' in
    (
      (z, rw (lookup-inject_anthropic_thinking body level (codes "max_tokens") o) found, enough),
      lookup-inject_anthropic_thinking body level (codes "temperature") o,
      lookup-inject_anthropic_thinking body level (codes "top_p") o,
      lookup-inject_anthropic_thinking body level (codes "top_k") o,
      rw
          (
            lookup-inject_anthropic_thinking body level (codes "thinking") o,
            lookup-with_max_tokens with_thinking n (codes "thinking") o' refl,
          )
          (lookup-set body (codes "thinking") (codes "thinking") (thinking_of level) o),
      λ k a b c d e.
          rw
            (
              lookup-inject_anthropic_thinking body level k o,
              a,
              b,
              c,
              lookup-with_max_tokens with_thinking n k o' d,
              lookup-set body (codes "thinking") k (thinking_of level) o,
              e,
            )
            refl,
    )

effort_of_thinking-thinking_of :
    (level : EffortLevel) → effort_of_thinking (thinking_of level) ≡ some (openai_effort_str level)
unfolding effort_of_thinking thinking_of openai_effort_str effort_of_budget anthropic_budget_tokens
    lookup object fields entries get text_eq
effort_of_thinking-thinking_of EffortLevel.low = refl
effort_of_thinking-thinking_of EffortLevel.medium = refl
effort_of_thinking-thinking_of EffortLevel.high = refl

-- The effort read back from a request into which one was injected as a thinking budget is the level
-- that was injected, where the request does not carry an `output_config`.
effort_from_anthropic-inject :
    (body : Value) (level : EffortLevel)
    → is_object body ≡ true
    → lookup body (codes "output_config") ≡ none
    → effort_from_anthropic (inject_anthropic_thinking body level) ≡ some (openai_effort_str level)
unfolding effort_from_anthropic configured_effort text_eq
effort_from_anthropic-inject body level o h =
    let (_, _, _, _, thinking, other) = inject_anthropic_thinking_lem body level o in
    rw (other (codes "output_config") refl refl refl refl refl, h, thinking)
      (effort_of_thinking-thinking_of level)
