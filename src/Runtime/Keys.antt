-- ===== src/Runtime/Keys.antt =====
-- The keys of the health map: one provider's entries are told from another's by the prefix.
use router.Prelude.{
  ℕ, ◌≡◌, ◌↔◌, ◌≢◌, refl, ap, ◌∙◌, true, false, Option, some, [], ◌∷◌, ◌++◌, arith, ◌>>=◌, is_empty,
}
use router.Prelude.Map.{get, get-modify_where}
use router.Prelude.Text.{Text, text_Eq, trim, contains, starts_with, split_once}
use router.Prelude.Text.Laws.{starts_with-append, split_once-append, contains-append}
use router.Error.{ok, validate_path_id}
use router.Runtime.{
  default_state, RuntimeStateMap, runtime_key, runtime_key_prefix, unit_separator,
  reset_provider_to_healthy, reset_to_healthy, mark_provider_misconfigured, mark_misconfigured,
}

-- An identifier without the separator.
abbrev pub IsPlain : Text → Type 0
IsPlain id = contains id unit_separator ≡ false

starts_with_inv : (s p : Text) → starts_with s p ≡ true → (r : Text) × (s ≡ p ++ r)
unfolding starts_with
starts_with_inv s [] h = (s, refl)
starts_with_inv [] (b ∷ p) h = cc
starts_with_inv (a ∷ s) (b ∷ p) h =
    let (r, e) = starts_with_inv s p (ground arith) in let same : a ≡ b = ground arith in (r, cc)

append_assoc₃ : (p r : Text) (c : ℕ) → (p ++ c ∷ []) ++ r ≡ p ++ c ∷ r
append_assoc₃ [] r c = refl
append_assoc₃ (a ∷ p) r c = ap (◌∷◌ a) (append_assoc₃ p r c)

runtime_key-inj :
    {p q m n : Text}
    → IsPlain p
    → IsPlain q
    → p ++ unit_separator ∷ m ≡ q ++ unit_separator ∷ n
    → (p ≡ q) × (m ≡ n)
runtime_key-inj {p} {q} {m} {n} hp hq e =
    let f : ◌≡◌ {A = Option (Text × Text)} (some (p, m)) (some (q, n)) = cc (
      split_once-append p m unit_separator hp,
      split_once-append q n unit_separator hq,
      ap (λ s. split_once s unit_separator) e,
    ) in
    (cc, cc)

-- Two pairs share an entry only if they are the same pair.
runtime_key-injective :
    (p q m n : Text) → IsPlain p → IsPlain q → runtime_key p m ≡ runtime_key q n → (p ≡ q) × (m ≡ n)
unfolding runtime_key
runtime_key-injective p q m n hp hq e = runtime_key-inj hp hq e

-- A key begins with a provider's prefix exactly if it is one of this provider's.
runtime_key-prefix_iff :
    (p q m : Text)
    → IsPlain p
    → IsPlain q
    → (starts_with (runtime_key p m) (runtime_key_prefix q) ≡ true) ↔ (p ≡ q)
unfolding runtime_key runtime_key_prefix
runtime_key-prefix_iff p q m hp hq = (
  λ h.
      let (r, e) = starts_with_inv (p ++ unit_separator ∷ m) (q ++ unit_separator ∷ []) h in
      (runtime_key-inj {m = m} {n = r} hp hq (e ∙ append_assoc₃ q r unit_separator)).0,
  λ e. rw (e, ← append_assoc₃ q m unit_separator) (starts_with-append (q ++ unit_separator ∷ []) m),
)

-- For providers whose ids do not hold the separator: a reset makes the provider's own entries as new,
-- adds none, and leaves another provider's as they are.
reset_provider_to_healthy_lem :
    (map : RuntimeStateMap) (p q m : Text)
    → IsPlain p
    → IsPlain q
    → (p ≢ q → get (reset_provider_to_healthy map q) (runtime_key p m) ≡ get map (runtime_key p m))
      × (p ≡ q
          → get (reset_provider_to_healthy map q) (runtime_key p m)
            ≡ (get map (runtime_key p m) >>= λ _. some default_state))
unfolding reset_provider_to_healthy reset_to_healthy
reset_provider_to_healthy_lem map p q m hp hq =
    let law =
      get-modify_where map (λ k. starts_with k (runtime_key_prefix q)) reset_to_healthy
        (runtime_key p m) in
    let same = runtime_key-prefix_iff p q m hp hq in
    (λ n. ground (arith, law, same), λ e. ground (arith, law, same))

-- For providers whose ids do not hold the separator: a credential that is found dead marks every entry
-- of its provider misconfigured, adds none, and leaves another provider's as they are.
mark_provider_misconfigured_lem :
    (map : RuntimeStateMap) (p q m : Text) (now : ℕ)
    → IsPlain p
    → IsPlain q
    → (p ≢ q
        → get (mark_provider_misconfigured map q now) (runtime_key p m) ≡ get map (runtime_key p m))
      × (p ≡ q
          → get (mark_provider_misconfigured map q now) (runtime_key p m)
            ≡ (get map (runtime_key p m) >>= λ st. some (mark_misconfigured st now)))
unfolding mark_provider_misconfigured
mark_provider_misconfigured_lem map p q m now hp hq =
    let law =
      get-modify_where map (λ k. starts_with k (runtime_key_prefix q))
        (λ st. mark_misconfigured st now) (runtime_key p m) in
    let same = runtime_key-prefix_iff p q m hp hq in
    (λ n. ground (arith, law, same), λ e. ground (arith, law, same))

shifted :
    (p q m : Text)
    → (p ++ unit_separator ∷ q) ++ unit_separator ∷ m
      ≡ p ++ unit_separator ∷ (q ++ unit_separator ∷ m)
shifted [] q m = refl
shifted (a ∷ p) q m = ap (◌∷◌ a) (shifted p q m)

-- The path id test lets the separator through: an identifier that holds it is accepted wherever it
-- is not blank and has no slash, and each of its entries is also one of the provider named by the
-- part before the separator.
pub validate_path_id-runtime_key :
    (p q m : Text)
    → is_empty (trim (p ++ unit_separator ∷ q)) ≡ false
    → contains p b'/' ≡ false
    → contains q b'/' ≡ false
    → (validate_path_id (p ++ unit_separator ∷ q) ≡ ok tt)
      × (runtime_key (p ++ unit_separator ∷ q) m ≡ runtime_key p (q ++ unit_separator ∷ m))
unfolding validate_path_id runtime_key contains
validate_path_id-runtime_key p q m h hp hq =
    (ground (arith, contains-append p (unit_separator ∷ q) b'/'), shifted p q m)
