-- ===== src/Select/Order.antt =====
-- Which candidates a pool gives, and in which order.
use mathlib.Core.List.{Perm, Mem, mem-cons, not-mem-nil, mem-cons_self, mem-cons_of_mem}
use mathlib.Core.List.Perm
use mathlib.Core.Logic.Or
use router.Prelude.{
  ◌≡◌, ◌≢◌, ◌⊎◌, ◌==◌, false, All, refl, ap, Option, none, some, List, [], ◌∷◌, arith, length,
  Bool-cases, Option-cases, inl, inr, ltb, filter_map, unwrap_or, retain, ◌&&◌,
}
use router.Prelude.Int.{ℤ}
use router.Prelude.Sort.{
  sort_by_key, IsSorted, has_key, sort_by_key-perm, sort_by_key-IsSorted, sort_by_key-stable,
}
use router.Prelude.Found.{IsFirst, find-IsFirst, find-none}
use router.Prelude.Text.{Text, text_Eq}
use router.Model.{
  WireFormat, Provider, Pool, PoolMember, PoolWithMembers, ConfigSnapshot, is_round_robin,
  PoolStrategy, Modality,
}
use router.Select.{
  ResolvedMember, Selection, PoolRotationMap, find_provider, find_pool, order_members, resolve,
  select,
}
use router.Select.Rotation.{rotate_from_cursor_lem}

order_members-perm :
    (pool : Pool) (members : List PoolMember) (rotation : PoolRotationMap)
    → Perm (order_members pool members rotation).0 members
unfolding order_members
order_members-perm pool members rotation =
    elim (Bool-cases
      (is_round_robin pool.strategy && ltb 1 (length (sort_by_key (λ m. m.priority) members)))) [
        | inl e ↦ rw e (
            Perm.trans
              (rotate_from_cursor_lem pool (sort_by_key (λ m. m.priority) members) rotation pool.id
                (ground arith)).0
              (sort_by_key-perm (λ m. m.priority) members))
        | inr e ↦ rw e (sort_by_key-perm (λ m. m.priority) members)
      ]

order_members-priority :
    (pool : Pool) (members : List PoolMember) (rotation : PoolRotationMap)
    → pool.strategy ≡ PoolStrategy.priority
    → order_members pool members rotation ≡ (sort_by_key (λ m. m.priority) members, rotation)
unfolding order_members
order_members-priority pool members rotation h = rw h refl

-- The provider with the id: the first of that id among those configured.
abbrev pub IsProvider : ConfigSnapshot → Text → Provider → Type 0
IsProvider snapshot id p = IsFirst (λ q. q.id == id) snapshot.providers p

-- The member as it is called at its provider, with its own model or else the provider's.
abbrev pub candidate : PoolMember → Provider → ResolvedMember
candidate m p = record {
  provider = p;
  effective_model = unwrap_or m.model_override p.upstream_model;
  dataset_logging_override = m.dataset_logging_override;
  reasoning_effort_override = m.reasoning_effort_override;
}

-- The candidates are the members, one for one and in their order, but for those whose provider is not
-- configured.
abbrev pub AreOffered : ConfigSnapshot → List PoolMember → List ResolvedMember → Type 0
AreOffered snapshot [] cs = cs ≡ []
AreOffered snapshot (m ∷ ms) cs =
    (All (λ q. (q.id == m.provider_id) ≡ false) snapshot.providers × AreOffered snapshot ms cs)
    ⊎ ((p : Provider) × (rest : List ResolvedMember) × IsProvider snapshot m.provider_id p
        × (cs ≡ candidate m p ∷ rest)
        × AreOffered snapshot ms rest)

strategy-cases : (s : PoolStrategy) → (s ≢ PoolStrategy.priority) ⊎ (s ≡ PoolStrategy.priority)
strategy-cases PoolStrategy.priority = inr refl
strategy-cases PoolStrategy.round_robin = inl (λ e. ground (arith, e))

resolve-AreOffered :
    (snapshot : ConfigSnapshot) (ms : List PoolMember)
    → AreOffered snapshot ms (filter_map (resolve snapshot) ms)
unfolding resolve find_provider
resolve-AreOffered snapshot [] = refl
resolve-AreOffered snapshot (m ∷ ms) =
    let rest = resolve-AreOffered snapshot ms in
    elim (Option-cases (find_provider snapshot m.provider_id)) [
      | inl e ↦
          let missing : resolve snapshot m ≡ none = rw e refl in
          inl (
            find-none (λ q. q.id == m.provider_id) snapshot.providers e,
            rw (missing, filter_map) rest,
          )
      | inr (p, e) ↦
          let there : resolve snapshot m ≡ some (candidate m p) = rw e refl in
          inr (
            p,
            filter_map (resolve snapshot) ms,
            find-IsFirst (λ q. q.id == m.provider_id) snapshot.providers p e,
            rw (there, filter_map) refl,
            rest,
          )
    ]

select-chat :
    (snapshot : ConfigSnapshot) (id : Text) (wire : WireFormat) (rotation : PoolRotationMap)
    (pwm : PoolWithMembers)
    → find_pool snapshot id ≡ some pwm
    → pwm.pool.modality ≡ Modality.chat
    → let (members, rotation') = order_members pwm.pool pwm.members rotation in
      select snapshot id wire rotation ≡ (
        some (record { pool = some pwm.pool; providers = filter_map (resolve snapshot) members }),
        rotation',
      )
unfolding select
select-chat snapshot id wire rotation pwm found chat = rw (found, select) (ground arith)

-- A chat pool offers all of its members whose provider is configured, each once and with its own model or
-- else the provider's, in some order of the members. Under the priority strategy the order is by
-- ascending priority, members of one priority stay in the configured order, and no cursor moves.
pub select-perm :
    (snapshot : ConfigSnapshot) (id : Text) (wire : WireFormat) (rotation : PoolRotationMap)
    (pwm : PoolWithMembers)
    → find_pool snapshot id ≡ some pwm
    → pwm.pool.modality ≡ Modality.chat
    → (members : List PoolMember) × (candidates : List ResolvedMember)
      × (rotation' : PoolRotationMap) × (select snapshot id wire rotation
          ≡ (some (record { pool = some pwm.pool; providers = candidates }), rotation'))
      × AreOffered snapshot members candidates
      × Perm members pwm.members
      × ((pwm.pool.strategy ≢ PoolStrategy.priority)
          ⊎ (IsSorted (λ m. m.priority) members
              × ((k : ℤ)
                  → retain (has_key (λ m. m.priority) k) members
                    ≡ retain (has_key (λ m. m.priority) k) pwm.members)
              × (rotation' ≡ rotation)))
select-perm snapshot id wire rotation pwm found chat =
    let ordered = order_members pwm.pool pwm.members rotation in
    (
      ordered.0,
      filter_map (resolve snapshot) ordered.0,
      ordered.1,
      select-chat snapshot id wire rotation pwm found chat,
      resolve-AreOffered snapshot ordered.0,
      order_members-perm pwm.pool pwm.members rotation,
      elim (strategy-cases pwm.pool.strategy) [
        | inl other ↦ inl other
        | inr p ↦
            let e = order_members-priority pwm.pool pwm.members rotation p in
            inr (
              rw e (
                sort_by_key-IsSorted (λ m. m.priority) pwm.members,
                (λ k. sort_by_key-stable (λ m. m.priority) k pwm.members),
                refl,
              ))
      ],
    )

-- A selection that is refused, or that names a provider directly, moves no cursor.
pub select-rotation :
    (snapshot : ConfigSnapshot) (id : Text) (wire : WireFormat) (rotation : PoolRotationMap)
    → ((select snapshot id wire rotation).0 ≡ none
        → (select snapshot id wire rotation).1 ≡ rotation)
      × ((sel : Selection)
          → (select snapshot id wire rotation).0 ≡ some sel
          → sel.pool ≡ none
          → (select snapshot id wire rotation).1 ≡ rotation)
unfolding select
select-rotation snapshot id wire rotation = (ground arith, λ sel e h. ground arith)

module _ {A B : Type 0} (f : A → Option B) where
  mem-filter_map-cons :
      {b : B} (a : A) (xs : List A) → Mem b (filter_map f xs) → Mem b (filter_map f (a ∷ xs))
  mem-filter_map-cons a xs h = elim (Option-cases (f a)) [
    | inl e ↦ rw (e, filter_map) h
    | inr (c, e) ↦ rw (e, filter_map) (mem-cons_of_mem c h)
  ]

  mem-filter_map : {a : A} {b : B} (xs : List A) → Mem a xs → f a ≡ some b → Mem b (filter_map f xs)
  mem-filter_map [] m e = absurd (not-mem-nil m)
  mem-filter_map {a} {b} (x ∷ xs) m e =
      Or.elim squash₁ (mem-cons.0 m) (λ same. rw (← same, e, filter_map) mem-cons_self)
        (λ later. mem-filter_map-cons x xs (mem-filter_map xs later e))

-- Every member of a chat pool whose provider is configured is a candidate, called with the member's
-- own model or else the provider's.
select-mem :
    (snapshot : ConfigSnapshot) (id : Text) (wire : WireFormat) (rotation : PoolRotationMap)
    (pwm : PoolWithMembers) (m : PoolMember) (p : Provider)
    → find_pool snapshot id ≡ some pwm
    → pwm.pool.modality ≡ Modality.chat
    → Mem m pwm.members
    → find_provider snapshot m.provider_id ≡ some p
    → (sel : Selection) × ((select snapshot id wire rotation).0 ≡ some sel)
      × (sel.pool ≡ some pwm.pool)
      × Mem
          (record {
            provider = p;
            effective_model = unwrap_or m.model_override p.upstream_model;
            dataset_logging_override = m.dataset_logging_override;
            reasoning_effort_override = m.reasoning_effort_override;
          })
          sel.providers
unfolding resolve
select-mem snapshot id wire rotation pwm m p found chat mem known =
    let members = (order_members pwm.pool pwm.members rotation).0 in
    let perm = order_members-perm pwm.pool pwm.members rotation in
    (
      record { pool = some pwm.pool; providers = filter_map (resolve snapshot) members },
      ap (λ r. r.0) (select-chat snapshot id wire rotation pwm found chat),
      refl,
      mem-filter_map (resolve snapshot) members ((Perm.mem_iff perm).1 mem) (rw known refl),
    )
