-- ===== src/Runtime/Worst.antt =====
-- The state that the administrator is shown for a provider is the worst of its entries.
use router.Prelude.{
  ◌≡◌, ◌⊎◌, inl, inr, refl, true, false, Option, none, some, [], ◌∷◌, arith, Bool-cases, ◌∙◌,
}
use router.Prelude.Text.{Text, starts_with}
use router.Runtime.{
  ProviderRuntimeState, RuntimeStateMap, runtime_key_prefix, is_worse, keep_worse, fold_worst,
  worst_provider_state,
}

-- An entry of the map under the prefix has this state.
abbrev pub Has : Text → ProviderRuntimeState → RuntimeStateMap → Type 0
Has prefix st [] = ⊥
Has prefix st ((k, st') ∷ m) = ((starts_with k prefix ≡ true) × (st ≡ st')) ⊎ Has prefix st m

abbrev pub IsUpper : Text → ProviderRuntimeState → RuntimeStateMap → Type 0
IsUpper prefix w [] = Unit
IsUpper prefix w ((k, st) ∷ m) =
    (starts_with k prefix ≡ true → is_worse st w ≡ false) × IsUpper prefix w m

is_worse_trans :
    (a b c : ProviderRuntimeState)
    → is_worse a b ≡ false
    → is_worse b c ≡ false
    → is_worse a c ≡ false
is_worse_trans a b c h k = ground arith

is_worse-keep_worse :
    (w : Option ProviderRuntimeState) (c : ProviderRuntimeState)
    → is_worse c (keep_worse w c) ≡ false
is_worse-keep_worse none c = ground arith
is_worse-keep_worse (some w) c = ground arith

is_worse-keep_worse-some : (w c : ProviderRuntimeState) → is_worse w (keep_worse (some w) c) ≡ false
is_worse-keep_worse-some w c = ground arith

keep_worse-cases :
    (w c : ProviderRuntimeState) → (keep_worse (some w) c ≡ w) ⊎ (keep_worse (some w) c ≡ c)
keep_worse-cases w c = elim (Bool-cases (is_worse c w)) [ inl e ↦ inr (rw e) | inr e ↦ inl (rw e) ]

fold_worst-some :
    (prefix : Text) (w : ProviderRuntimeState) (m : RuntimeStateMap)
    → (r : ProviderRuntimeState) × (fold_worst prefix (some w) m ≡ some r)
      × (is_worse w r ≡ false)
      × IsUpper prefix r m
      × ((r ≡ w) ⊎ Has prefix r m)
unfolding fold_worst
fold_worst-some prefix w [] = (w, refl, ground arith, tt, inl refl)
fold_worst-some prefix w ((k, st) ∷ m) = elim (Bool-cases (starts_with k prefix)) [
  | inr e ↦
      let (r, f, below, upper, source) = fold_worst-some prefix w m in
      (r, rw e f, below, (λ h. cc, upper), elim source [ inl s ↦ inl s | inr s ↦ inr (inr s) ])
  | inl e ↦
      let (r, f, below, upper, source) = fold_worst-some prefix (keep_worse (some w) st) m in
      (
        r,
        rw e f,
        is_worse_trans w (keep_worse (some w) st) r (is_worse-keep_worse-some w st) below,
        (
          λ h. is_worse_trans st (keep_worse (some w) st) r (is_worse-keep_worse (some w) st) below,
          upper,
        ),
        elim source [
          | inr s ↦ inr (inr s)
          | inl s ↦ elim (keep_worse-cases w st) [
            | inl same ↦ inl (s ∙ same)
            | inr new ↦ inr (inl (e, s ∙ new))
          ]
        ],
      )
]

-- The meaning of an answer of the fold.
abbrev pub IsWorst : Text → RuntimeStateMap → Option ProviderRuntimeState → Type 0
IsWorst prefix m none = (st : ProviderRuntimeState) → ¬ Has prefix st m
IsWorst prefix m (some w) = Has prefix w m × IsUpper prefix w m

fold_worst-none :
    (prefix : Text) (m : RuntimeStateMap) → IsWorst prefix m (fold_worst prefix none m)
unfolding fold_worst
fold_worst-none prefix [] = λ st h. h
fold_worst-none prefix ((k, st) ∷ m) = elim (Bool-cases (starts_with k prefix)) [
  | inl e ↦
      let (r, f, below, upper, source) = fold_worst-some prefix st m in
      rw (e, f) (elim source [ inl s ↦ inl (e, s) | inr s ↦ inr s ], (λ h. below, upper))
  | inr e ↦ rw e (skip (fold_worst prefix none m) e (fold_worst-none prefix m))
]
  where
    skip :
        (o : Option ProviderRuntimeState)
        → starts_with k prefix ≡ false
        → IsWorst prefix m o
        → IsWorst prefix ((k, st) ∷ m) o
    skip none e h = λ st' i. elim i [ inl (here, _) ↦ cc | inr later ↦ h st' later ]
    skip (some w) e (h, upper) = (inr h, (λ here. cc, upper))

-- The state shown for a provider is one of its entries, and none of its entries has a higher rank
-- (misconfigured over cooling over healthy) or the same rank and more failures. No state is shown
-- exactly if the provider has no entry.
worst_provider_state-IsWorst :
    (m : RuntimeStateMap) (provider_id : Text)
    → IsWorst (runtime_key_prefix provider_id) m (worst_provider_state m provider_id)
unfolding worst_provider_state
worst_provider_state-IsWorst m provider_id = fold_worst-none (runtime_key_prefix provider_id) m
