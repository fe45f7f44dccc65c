-- ===== src/Flow/Direct.antt =====
-- Direct addressing through src/proxy/flow.rs: who may call which model of a provider.
use mathlib.Core.Path.{subst}
use mathlib.Core.Option.{some-injective}
use mathlib.Core.List.{Mem, mem-cons, not-mem-nil}
use mathlib.Core.Logic.Or
use router.Prelude.{
  ◌≡◌, ◌↔◌, ◌⊎◌, inl, inr, refl, sym, ap, ◌∙◌, Bool, true, false, ◌&&◌, ◌==◌, Option, none, some,
  List, [], ◌∷◌, arith, any, is_some_and, Bool-cases, ands, or3_iff,
}
use router.Prelude.Found.{any-Mem}
use router.Prelude.Map.{get}
use router.Prelude.Text.{Text, text_Eq, text_eq_iff}
use router.Model.{
  WireFormat, ConfigSnapshot, Provider, PoolMember, PoolWithMembers, Modality, is_chat,
}
use router.Users.{Caller, is_admin}
use router.Select.{Selection, DiscoveredModelsMap, select, direct_model_allowed, is_routed}
use router.Select.Order.{select-rotation}
use router.Select.Addressing.{IsDirect, direct_member, select-IsDirect}
use router.Flow.World.{World, State}
use router.Flow.Handler.{handle_proxy, start, is_refused, run_members}

-- A member of a chat pool that calls this model at the provider.
abbrev pub IsRouted : ConfigSnapshot → Provider → Text → Type 0
IsRouted snapshot provider model =
    (p : PoolWithMembers) × (m : PoolMember) × Mem p snapshot.pools
    × (p.pool.modality ≡ Modality.chat)
    × Mem m p.members
    × (m.provider_id ≡ provider.id)
    × (m.model_override ≡ some model)

-- The model is the provider's own, or a chat pool routes to it, or the provider was found to have it.
abbrev pub IsEnabled : ConfigSnapshot → DiscoveredModelsMap → Provider → Text → Type 0
IsEnabled snapshot discovered provider model =
    (provider.upstream_model ≡ model)
    ⊎ IsRouted snapshot provider model
    ⊎ ((models : List Text) × (get discovered provider.id ≡ some models) × Mem model models)

Mem-any :
    {A : Type 0} (p : A → Bool) (x : A) (xs : List A) → Mem x xs → p x ≡ true → any p xs ≡ true
Mem-any p x [] m e = absurd (not-mem-nil m)
Mem-any p x (y ∷ xs) m e =
    Or.elim (hlevel) (mem-cons.0 m) (λ same. rw (← same, e) refl)
      (λ later. ground (arith, Mem-any p x xs later e))

is_chat-chat : (m : Modality) → (is_chat m ≡ true) ↔ (m ≡ Modality.chat)
is_chat-chat Modality.chat = (λ _. refl, λ _. refl)
is_chat-chat Modality.image = (λ h. absurd (ground (arith, h)), λ h. absurd (ground (arith, h)))

override_iff :
    (o : Option Text) (model : Text) → (is_some_and o (λ x. x == model) ≡ true) ↔ (o ≡ some model)
override_iff none model = ground arith
override_iff (some x) model = (
  λ h. ap (λ y. some y) ((text_eq_iff x model).0 h),
  λ e. (text_eq_iff x model).1 (some-injective _ _ e),
)

is_routed_iff :
    (snapshot : ConfigSnapshot) (provider : Provider) (model : Text)
    → (is_routed snapshot provider model ≡ true) ↔ IsRouted snapshot provider model
unfolding is_routed
is_routed_iff snapshot provider model =
    let calls : PoolMember → Bool =
      λ m. m.provider_id == provider.id && is_some_and m.model_override (λ o. o == model) in
    (
      λ h.
          let (p, in_pools, h) =
            any-Mem (λ p. is_chat p.pool.modality && any calls p.members) snapshot.pools h in
          let (chat, h) = ands (is_chat p.pool.modality) (any calls p.members) h in
          let (m, in_pool, h) = any-Mem calls p.members h in
          let (here, over) =
            ands (m.provider_id == provider.id) (is_some_and m.model_override (λ o. o == model))
              h in
          (
            p,
            m,
            in_pools,
            (is_chat-chat p.pool.modality).0 chat,
            in_pool,
            (text_eq_iff m.provider_id provider.id).0 here,
            (override_iff m.model_override model).0 over,
          ),
      λ (p, m, in_pools, chat, in_pool, here, over).
          let calls_m : calls m ≡ true =
            rw ((text_eq_iff m.provider_id provider.id).1 here)
              ((override_iff m.model_override model).1 over) in
          Mem-any (λ p. is_chat p.pool.modality && any calls p.members) p snapshot.pools in_pools
            (rw ((is_chat-chat p.pool.modality).1 chat)
              (Mem-any calls m p.members in_pool calls_m)),
    )

discovered_iff :
    (found : Option (List Text)) (model : Text)
    → (is_some_and found (λ models. any (λ m. m == model) models) ≡ true)
      ↔ ((models : List Text) × (found ≡ some models) × Mem model models)
discovered_iff none model =
    (λ h. absurd (ground (arith, h)), λ (_, e, _). absurd (ground (arith, e)))
discovered_iff (some models) model = (
  λ h.
      let (m, mem, e) = any-Mem (λ m. m == model) models h in
      (models, refl, subst (λ x. Mem x models) ((text_eq_iff m model).0 e) mem),
  λ (others, e, mem).
      Mem-any (λ m. m == model) model models
        (subst (λ ms. Mem model ms) (sym (some-injective _ _ e)) mem)
        ((text_eq_iff model model).1 refl),
)

direct_model_allowed_iff :
    (snapshot : ConfigSnapshot) (discovered : DiscoveredModelsMap) (provider : Provider)
    (model : Text)
    → (direct_model_allowed snapshot discovered provider model ≡ true)
      ↔ IsEnabled snapshot discovered provider model
unfolding direct_model_allowed
direct_model_allowed_iff snapshot discovered provider model =
    or3_iff (provider.upstream_model == model) (is_routed snapshot provider model)
      (is_some_and (get discovered provider.id) (λ models. any (λ m. m == model) models))
      (text_eq_iff provider.upstream_model model) (is_routed_iff snapshot provider model)
      (discovered_iff (get discovered provider.id) model)

module _ {Request Payload : Type 0} (w : World Request Payload) (snapshot : ConfigSnapshot)
    (discovered : DiscoveredModelsMap) (wire : WireFormat) (requested : Text) (caller : Caller)
    (body : Text) (s : State) where
  -- A caller who is not the administrator and whose model resolves to no pool has named it as
  -- `<provider_id>/<model>`, for a configured provider. Where the model is enabled on the provider, this
  -- provider is tried with it, and no other; where it is not, the answer is 400 and nothing at all
  -- changes.
  pub handle_proxy-guarded :
      (sel : Selection)
      → is_admin caller ≡ false
      → (select snapshot requested wire s.rotation).0 ≡ some sel
      → sel.pool ≡ none
      → let (answer, after) = handle_proxy w snapshot discovered wire requested caller body s in
        (d : IsDirect snapshot requested sel) × ((IsEnabled snapshot discovered d.provider d.model
            × (after
                ≡ (run_members w
                    (record {
                      wire = wire;
                      pool_id = requested;
                      caller = caller;
                      body = body;
                      wanted_stream = w.wants_stream body;
                    })
                    (direct_member d.provider d.model ∷ [])
                    s
                    start).1))
          ⊎ ((¬ IsEnabled snapshot discovered d.provider d.model)
              × (answer.status ≡ 400)
              × (after ≡ s)))
  unfolding handle_proxy is_refused
  handle_proxy-guarded sel guest e direct =
      let d = select-IsDirect snapshot requested wire s.rotation sel e direct in
      let chosen : (select snapshot requested wire s.rotation).0
          ≡ some (record { pool = none; providers = direct_member d.provider d.model ∷ [] }) =
        e ∙ ap (λ x. some x) d.chosen in
      let unmoved : (select snapshot requested wire s.rotation).1 ≡ s.rotation =
        (select-rotation snapshot requested wire s.rotation).1 sel e direct in
      let enabled = direct_model_allowed_iff snapshot discovered d.provider d.model in
      (
        d,
        elim (Bool-cases (direct_model_allowed snapshot discovered d.provider d.model)) [
          | inl open_to ↦
              inl (enabled.0 open_to, rw (chosen, handle_proxy, guest, open_to, unmoved) refl)
          | inr barred ↦ inr (
            (λ x. ground (arith, enabled.1 x, barred)),
            rw (chosen, handle_proxy, guest, barred) refl,
            rw (chosen, handle_proxy, guest, barred, unmoved) refl,
          )
        ],
      )
