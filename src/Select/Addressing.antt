-- ===== src/Select/Addressing.antt =====
-- Direct addressing, `<provider_id>/<model>`.
use router.Prelude.{
  ℕ, ◌≤◌, ◌≡◌, refl, true, false, none, some, List, [], ◌∷◌, ◌++◌, arith, Option-cases, inl, inr,
  find, any, is_empty, All, ◌==◌,
}
use router.Prelude.Text.{Text, text_Eq, text_eq_iff, contains, split_once, len}
use router.Prelude.Text.Laws.{split_once-append, split_once_sound, contains-append}
use router.Model.{WireFormat, Provider, PoolWithMembers, ConfigSnapshot}
use router.Select.{
  ResolvedMember, Selection, PoolRotationMap, find_provider, find_pool, select_direct_provider,
  select, max_direct_model_len, is_unusable,
}

-- A model name that direct addressing takes.
abbrev pub IsUsable : Text → Type 0
IsUsable model =
    (is_empty model ≡ false) × (len model ≤ max_direct_model_len) × (any is_unusable model ≡ false)

abbrev pub direct_member : Provider → Text → ResolvedMember
direct_member p model = record {
  provider = p;
  effective_model = model;
  dataset_logging_override = none;
  reasoning_effort_override = none;
}

-- No pool has a slash in its id, which the creation of pools sees to.
abbrev pub ArePlain : List PoolWithMembers → Type 0
ArePlain = All (λ p. contains p.pool.id b'/' ≡ false)

find-plain :
    (pools : List PoolWithMembers) (id : Text)
    → ArePlain pools
    → contains id b'/' ≡ true
    → find (λ p. p.pool.id == id) pools ≡ none
find-plain [] id h slash = refl
find-plain (p ∷ ps) id h slash = ground (arith, find-plain ps id h.1, text_eq_iff p.pool.id id)

contains_self : (c : ℕ) (r : Text) → contains (c ∷ r) c ≡ true
unfolding contains
contains_self c r = ground arith

select_direct_provider-append :
    (snapshot : ConfigSnapshot) (provider_id model : Text) (p : Provider) (wire : WireFormat)
    → contains provider_id b'/' ≡ false
    → find_provider snapshot provider_id ≡ some p
    → IsUsable model
    → select_direct_provider snapshot (provider_id ++ b'/' ∷ model) wire
      ≡ some (record { pool = none; providers = direct_member p model ∷ [] })
unfolding select_direct_provider
select_direct_provider-append snapshot provider_id model p wire plain known (full, short, clean) =
    rw (split_once-append provider_id model b'/' plain, full, clean, known) (ground arith)

-- A usable model of a known provider can always be called as `<provider_id>/<model>`, by either
-- wire format and without a change of any cursor: no pool gets in the way, as long as no pool has a
-- slash in its id.
select-append :
    (snapshot : ConfigSnapshot) (provider_id model : Text) (p : Provider) (wire : WireFormat)
    (rotation : PoolRotationMap)
    → ArePlain snapshot.pools
    → contains provider_id b'/' ≡ false
    → find_provider snapshot provider_id ≡ some p
    → IsUsable model
    → select snapshot (provider_id ++ b'/' ∷ model) wire rotation
      ≡ (some (record { pool = none; providers = direct_member p model ∷ [] }), rotation)
unfolding select find_pool
select-append snapshot provider_id model p wire rotation plain id_plain known usable = ground (
  arith,
  find-plain snapshot.pools (provider_id ++ b'/' ∷ model) plain,
  contains-append provider_id (b'/' ∷ model) b'/',
  contains_self b'/' model,
  select_direct_provider-append snapshot provider_id model p wire id_plain known usable,
)

-- What a direct selection has come from.
pub record IsDirect (snapshot : ConfigSnapshot) (requested : Text) (sel : Selection) : Type 0 where
  pub provider_id : Text
  pub model : Text
  pub provider : Provider
  pub split : requested ≡ provider_id ++ b'/' ∷ model
  pub plain : contains provider_id b'/' ≡ false
  pub usable : IsUsable model
  pub known : find_provider snapshot provider_id ≡ some provider
  pub chosen : sel ≡ record { pool = none; providers = direct_member provider model ∷ [] }

select_direct_provider_sound :
    (snapshot : ConfigSnapshot) (requested : Text) (wire : WireFormat) (sel : Selection)
    → select_direct_provider snapshot requested wire ≡ some sel
    → IsDirect snapshot requested sel
unfolding select_direct_provider
select_direct_provider_sound snapshot requested wire sel h =
    elim (Option-cases (split_once requested b'/')) [
      | inl e ↦ absurd (ground arith)
      | inr ((id, model), e) ↦ elim (Option-cases (find_provider snapshot id)) [
        | inl n ↦ absurd (ground arith)
        | inr (p, f) ↦
            let (same, plain) = split_once_sound requested b'/' id model e in
            record {
              provider_id = id;
              model = model;
              provider = p;
              split = same;
              plain = plain;
              usable = (ground arith, ground arith, ground arith);
              known = f;
              chosen = ground arith;
            }
      ]
    ]

-- A selection without a pool comes from `<provider_id>/<model>` alone, for the first provider with
-- the id before the first slash and a model that is not empty, no longer than 200 bytes and free of
-- control characters and white space. It has this provider as its one candidate.
pub select-IsDirect :
    (snapshot : ConfigSnapshot) (requested : Text) (wire : WireFormat) (rotation : PoolRotationMap)
    (sel : Selection)
    → (select snapshot requested wire rotation).0 ≡ some sel
    → sel.pool ≡ none
    → IsDirect snapshot requested sel
unfolding select
select-IsDirect snapshot requested wire rotation sel h direct =
    select_direct_provider_sound snapshot requested wire sel (ground arith)
