-- ===== src/Limits/Report.antt =====
-- The availability that `GET /v1/limits` reports is the one that routing goes by.
use router.Prelude.{
  ℕ, ◌+◌, ◌≤◌, ◌<◌, ◌≡◌, ◌↔◌, refl, true, false, not, ◌&&◌, Option, none, some, [], ◌∷◌, arith, All,
  Option-cases, Bool-cases, inl, inr,
}
use router.Prelude.Map.{get}
use router.Prelude.Text.{Text, text_Eq, starts_with}
use router.Backoff.{from_secs}
use router.Runtime.{
  ProviderRuntimeState, RuntimeStateMap, is_available, runtime_key, runtime_key_prefix,
}
use router.Runtime.Prune.{key_available}
use router.Limits.{
  LimitStore, keep_max, at_most, fold_unavailable, worst_unavailable_state, state_fields,
  provider_report, member_report,
}

state_fields-wait :
    (st : ProviderRuntimeState) (now n : ℕ)
    → (state_fields (some st) now).retry_in_seconds ≡ some n
    → ((t : ℕ) → now ≤ t → t < now + from_secs n → is_available st t ≡ false)
      × (is_available st (now + from_secs (n + 1)) ≡ true)
unfolding state_fields is_available
state_fields-wait st now n h = (λ t le lt. ground arith, ground arith)

keep_max-is_available :
    (best : Option ProviderRuntimeState) (st : ProviderRuntimeState) (now : ℕ)
    → ((st' : ProviderRuntimeState) → best ≡ some st' → is_available st' now ≡ false)
    → is_available st now ≡ false
    → is_available (keep_max best st) now ≡ false
keep_max-is_available none st now h f = f
keep_max-is_available (some b) st now h f = elim (Bool-cases (at_most b st)) [
  | inl e ↦ rw e f
  | inr e ↦ rw e (h b refl)
]

-- A member is reported available exactly if the proxy would try it, and the seconds that a member is
-- reported to wait are its wait rounded down.
pub member_report-key_available :
    (runtime : RuntimeStateMap) (provider model : Text) (now : ℕ)
    → let report = member_report runtime provider model now in
      let key = runtime_key provider model in
      (report.available ≡ key_available runtime key now)
      × ((n : ℕ)
          → report.retry_in_seconds ≡ some n
          → ((t : ℕ) → now ≤ t → t < now + from_secs n → key_available runtime key t ≡ false)
            × (key_available runtime key (now + from_secs (n + 1)) ≡ true))
unfolding member_report state_fields key_available is_available
member_report-key_available runtime provider model now =
    elim (Option-cases (get runtime (runtime_key provider model))) [
      | inl e ↦ rw (e, member_report, key_available) (refl, λ n h. absurd cc)
      | inr (st, e) ↦ rw (e, member_report, key_available) (ground arith, state_fields-wait st now)
    ]

-- Every entry with the prefix is available.
abbrev pub Clear : Text → ℕ → RuntimeStateMap → Type 0
Clear prefix now runtime =
    All (λ (key, st). starts_with key prefix ≡ true → is_available st now ≡ true) runtime

fold_unavailable-none :
    (prefix : Text) (now : ℕ) (best : Option ProviderRuntimeState) (m : RuntimeStateMap)
    → (fold_unavailable prefix now best m ≡ none) ↔ ((best ≡ none) × Clear prefix now m)
unfolding fold_unavailable
fold_unavailable-none prefix now best [] = (λ h. (h, tt), λ h. h.0)
fold_unavailable-none prefix now best ((k, st) ∷ m) =
    elim (Bool-cases (starts_with k prefix && not (is_available st now))) [
      | inl h ↦ rw h (
        λ e.
            let f = (fold_unavailable-none prefix now (some (keep_max best st)) m).0 e in absurd cc,
        λ (e, f). absurd (ground arith),
      )
      | inr h ↦
          let (to, from) = fold_unavailable-none prefix now best m in
          rw h (λ e. ((to e).0, (λ p. ground arith, (to e).1)), λ (e, f). from (e, f.1))
    ]

fold_unavailable-some :
    (prefix : Text) (now : ℕ) (best : Option ProviderRuntimeState) (m : RuntimeStateMap)
    (worst : ProviderRuntimeState)
    → ((st : ProviderRuntimeState) → best ≡ some st → is_available st now ≡ false)
    → fold_unavailable prefix now best m ≡ some worst
    → is_available worst now ≡ false
unfolding fold_unavailable
fold_unavailable-some prefix now best [] worst h e = h worst e
fold_unavailable-some prefix now best ((k, st) ∷ m) worst h e =
    elim (Bool-cases (starts_with k prefix && not (is_available st now))) [
      | inl c ↦
          fold_unavailable-some prefix now (some (keep_max best st)) m worst
            (λ st' f.
              (let g : keep_max best st ≡ st' = cc in
                rw (← g) (keep_max-is_available best st now h (ground arith))))
            (rw (c, fold_unavailable) at e)
      | inr c ↦ fold_unavailable-some prefix now best m worst h (rw (c, fold_unavailable) at e)
    ]

-- A provider is reported available exactly if every entry of the health map that belongs to one of
-- its models is available; so no member that is skipped hides behind a healthy one.
provider_report-Clear :
    (runtime : RuntimeStateMap) (store : LimitStore) (provider : Text) (now : ℕ)
    → ((provider_report runtime store provider now).0.available ≡ true)
      ↔ Clear (runtime_key_prefix provider) now runtime
unfolding provider_report worst_unavailable_state state_fields
provider_report-Clear runtime store provider now =
    let prefix = runtime_key_prefix provider in
    let (to, from) = fold_unavailable-none prefix now none runtime in
    elim (Option-cases (fold_unavailable prefix now none runtime)) [
      | inl e ↦ rw e (λ _. (to e).1, λ _. refl)
      | inr (st, e) ↦
          let f = fold_unavailable-some prefix now none runtime st (λ st' g. absurd cc) e in
          rw (e, state_fields, f) (λ g. absurd cc, λ c. let g = from (refl, c) in absurd cc)
    ]
