-- ===== src/Select/Images.antt =====
-- Image pools and chat pools are kept apart.
use router.Prelude.{
  ℕ, ◌≡◌, refl, Bool, true, false, not, ◌&&◌, ◌||◌, Option, none, some, List, [], ◌∷◌, ◌++◌, arith,
  Bool-cases, Option-cases, inl, inr, find, any, is_some_and, All, retain, filter_map, length, ltb,
  ◌==◌, ◌>>=◌, if◌then◌else◌, All-append, All-take, All-drop, take, drop, ◌%◌, unwrap_or,
}
use router.Prelude.Map.{get}
use router.Prelude.Sort.{sort_by_key, sort_by_key-All}
use router.Prelude.Text.{Text, text_Eq, split_once}
use router.Model.{
  WireFormat, Provider, ProviderKind, PoolMember, Pool, PoolWithMembers, ConfigSnapshot, Modality,
  is_codex, is_round_robin,
}
use router.Select.{
  ResolvedMember, Selection, PoolRotationMap, DiscoveredModelsMap, find_provider, find_pool,
  order_members, rotate_from_cursor, rotate_left, select, select_image, select_image_direct,
  resolve_image, image_member_eligible, is_image_model, direct_model_allowed, is_routed,
  select_direct_provider, default_rotation,
}

-- A candidate that may draw images: a Codex account, an image model, and no dataset logging.
pub record IsImageMember (r : ResolvedMember) : Type 0 where
  pub kind : r.provider.kind ≡ ProviderKind.oauth_codex
  pub model : is_image_model r.effective_model ≡ true
  pub unlogged : r.dataset_logging_override ≡ some false

abbrev direct_image : Provider → Text → ResolvedMember
direct_image p model = record {
  provider = p;
  effective_model = model;
  dataset_logging_override = some false;
  reasoning_effort_override = none;
}

abbrev image_selection : ConfigSnapshot → Pool → List PoolMember → Selection
image_selection snapshot pool members = record {
  pool = some pool;
  providers = filter_map (resolve_image snapshot) members;
}

abbrev is_eligible : ConfigSnapshot → PoolMember → Bool
is_eligible snapshot m =
    is_some_and (find_provider snapshot m.provider_id) (λ p. image_member_eligible p m)

All-retain : (p : PoolMember → Bool) (ms : List PoolMember) → All (λ m. p m ≡ true) (retain p ms)
All-retain p [] = tt
All-retain p (m ∷ ms) = elim (Bool-cases (p m)) [
  | inl e ↦ rw e (e, All-retain p ms)
  | inr e ↦ rw e (All-retain p ms)
]

rotate_left-All :
    (P : PoolMember → Type 0) (ms : List PoolMember) (n : ℕ) → All P ms → All P (rotate_left ms n)
unfolding rotate_left
rotate_left-All P ms n h =
    All-append P (drop n ms) (take n ms) (All-drop P n ms h) (All-take P n ms h)

order_members-All :
    (P : PoolMember → Type 0) (pool : Pool) (members : List PoolMember) (rotation : PoolRotationMap)
    → All P members
    → All P (order_members pool members rotation).0
unfolding order_members rotate_from_cursor
order_members-All P pool members rotation h =
    let s = sort_by_key-All (λ m. m.priority) P members h in
    elim (Bool-cases
      (is_round_robin pool.strategy && ltb 1 (length (sort_by_key (λ m. m.priority) members)))) [
        | inl e ↦ rw e (
            rotate_left-All P (sort_by_key (λ m. m.priority) members)
              (cursor % length (sort_by_key (λ m. m.priority) members)) s)
        | inr e ↦ rw e s
      ]
  where
    cursor : ℕ
    cursor = (unwrap_or (get rotation pool.id) default_rotation).index

resolve_image-IsImageMember :
    (snapshot : ConfigSnapshot) (m : PoolMember) (r : ResolvedMember)
    → is_eligible snapshot m ≡ true
    → resolve_image snapshot m ≡ some r
    → IsImageMember r
unfolding resolve_image image_member_eligible
resolve_image-IsImageMember snapshot m r h e =
    elim (Option-cases (find_provider snapshot m.provider_id)) [
      | inl n ↦ absurd (ground arith)
      | inr (p, f) ↦ record { kind = ground arith; model = ground arith; unlogged = ground arith }
    ]

filter_map-IsImageMember :
    (snapshot : ConfigSnapshot) (ms : List PoolMember)
    → All (λ m. is_eligible snapshot m ≡ true) ms
    → All IsImageMember (filter_map (resolve_image snapshot) ms)
filter_map-IsImageMember snapshot [] h = tt
filter_map-IsImageMember snapshot (m ∷ ms) (e, h) = elim (Option-cases (resolve_image snapshot m)) [
  | inl n ↦ rw (n, filter_map) (filter_map-IsImageMember snapshot ms h)
  | inr (r, f) ↦
      rw (f, filter_map)
        (resolve_image-IsImageMember snapshot m r e f, filter_map-IsImageMember snapshot ms h)
]

find-codex :
    (ps : List Provider) (id : Text) (p : Provider)
    → find (λ q. q.id == id && is_codex q.kind) ps ≡ some p
    → p.kind ≡ ProviderKind.oauth_codex
find-codex [] id p h = cc
find-codex (q ∷ ps) id p h = ground (arith, find-codex ps id p)

direct_image_inv :
    (o : Option Provider) (b : Bool) (model : Text) {sel : Selection}
    → (if not b
        then none
        else o >>= λ p. some (record { pool = none; providers = direct_image p model ∷ [] }))
      ≡ some sel
    → (p : Provider) × (o ≡ some p)
      × (b ≡ true)
      × (record { pool = none; providers = direct_image p model ∷ [] } ≡ sel)
direct_image_inv none true model h = cc
direct_image_inv none false model h = cc
direct_image_inv (some p) true model h = (p, refl, refl, cc)
direct_image_inv (some p) false model h = cc

select_image_direct-IsImageMember :
    (snapshot : ConfigSnapshot) (requested : Text) (sel : Selection)
    → select_image_direct snapshot requested ≡ some sel
    → All IsImageMember sel.providers × (sel.pool ≡ none)
unfolding select_image_direct
select_image_direct-IsImageMember snapshot requested sel h =
    elim (Option-cases (split_once requested b'/')) [
      | inl e ↦ absurd (ground arith)
      | inr ((id, model), e) ↦
          let (p, f, valid, same) =
            direct_image_inv (find (λ p. p.id == id && is_codex p.kind) snapshot.providers)
              (is_image_model model) model (rw (e, select_image_direct) at h) in
          rw (← same) (
            (
              record {
                kind = find-codex snapshot.providers id p f;
                model = valid;
                unlogged = refl;
              },
              tt,
            ),
            refl,
          )
    ]

-- Whatever `select_image` selects is a Codex account with an image model whose exchanges are not
-- kept, also where the configuration was imported with other members; and if it comes from a pool,
-- this is an image pool.
pub select_image-IsImageMember :
    (snapshot : ConfigSnapshot) (id : Text) (rotation : PoolRotationMap) (sel : Selection)
    → (select_image snapshot id rotation).0 ≡ some sel
    → All IsImageMember sel.providers
      × ((pool : Pool) → sel.pool ≡ some pool → pool.modality ≡ Modality.image)
unfolding select_image
select_image-IsImageMember snapshot id rotation sel h =
    elim (Option-cases (find_pool snapshot id)) [
      | inl e ↦
          let (all, direct) =
            select_image_direct-IsImageMember snapshot id sel (rw (e, select_image) at h) in
          (all, λ pool f. cc)
      | inr (pwm, e) ↦ from_pool pwm e pwm.pool.modality refl
    ]
  where
    from_pool :
        (pwm : PoolWithMembers)
        → find_pool snapshot id ≡ some pwm
        → (modality : Modality) → pwm.pool.modality ≡ modality
        → All IsImageMember sel.providers
          × ((pool : Pool) → sel.pool ≡ some pool → pool.modality ≡ Modality.image)
    from_pool pwm e Modality.chat m = absurd (ground arith)
    from_pool pwm e Modality.image m =
        let eligible = retain (is_eligible snapshot) pwm.members in
        let members = (order_members pwm.pool eligible rotation).0 in
        let same : image_selection snapshot pwm.pool members ≡ sel = ground arith in
        rw (← same) (
          filter_map-IsImageMember snapshot members (
              order_members-All (λ m. is_eligible snapshot m ≡ true) pwm.pool eligible rotation
                (All-retain (is_eligible snapshot) pwm.members)),
          λ pool f. cc,
        )

-- A chat request is never served by an image pool.
select-chat :
    (snapshot : ConfigSnapshot) (id : Text) (wire : WireFormat) (rotation : PoolRotationMap)
    (sel : Selection) (pool : Pool)
    → (select snapshot id wire rotation).0 ≡ some sel
    → sel.pool ≡ some pool
    → pool.modality ≡ Modality.chat
unfolding select select_direct_provider
select-chat snapshot id wire rotation sel pool h f = ground arith

any-append {ℓ} :
    {A : Type ℓ} (p : A → Bool) (xs ys : List A) → any p (xs ++ ys) ≡ (any p xs || any p ys)
any-append p [] ys = refl
any-append p (x ∷ xs) ys = ground (arith, any-append p xs ys)

-- An image pool, wherever it stands in the configuration, opens no model to direct addressing.
direct_model_allowed-image :
    (providers : List Provider) (before after : List PoolWithMembers) (pwm : PoolWithMembers)
    (discovered : DiscoveredModelsMap) (provider : Provider) (model : Text)
    → pwm.pool.modality ≡ Modality.image
    → direct_model_allowed
        (record { providers = providers; pools = before ++ pwm ∷ after })
        discovered
        provider
        model
      ≡ direct_model_allowed
          (record { providers = providers; pools = before ++ after })
          discovered
          provider
          model
unfolding direct_model_allowed is_routed
direct_model_allowed-image providers before after pwm discovered provider model h =
    rw (any-append _ before (pwm ∷ after), any-append _ before after, h) refl
