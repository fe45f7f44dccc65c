-- ===== src/Select/Tests.antt =====
-- Examples for src/pools/select.rs.
use mathlib.Core.List.{Perm}
use router.Prelude.{
  ℕ, ◌/◌, ◌%◌, ◌<◌, ◌≤◌, ◌≡◌, ◌≢◌, ◌⊎◌, refl, Bool, true, false, Option, none, some, List, [], ◌∷◌,
  ◌++◌, arith, length, first, get_elem?, unwrap_or, filter_map, retain, All,
}
use router.Prelude.Int.{ℤ}
use router.Prelude.Map.{get}
use router.Prelude.Sort.{IsSorted, has_key}
use router.Prelude.Text.{Text, text_Eq, codes, contains}
use router.Model.{WireFormat, Modality, PoolStrategy, PoolMember, Pool}
use router.Select.{
  ResolvedMember, Selection, RotationState, default_rotation, PoolRotationMap, rotate_from_cursor,
  find_pool, find_provider, select, select_image,
}
use router.Select.Rotation.{rotate_from_cursor_lem}
use router.Select.Order.{AreOffered, select-perm, select-rotation}
use router.Select.Addressing.{direct_member}
use router.Select.Images.{select_image-IsImageMember, IsImageMember}
use router.Examples.{acme, codex, member, chat_pool, chat_members, image_pool, config}

abbrev three : List PoolMember
three =
    member (codes "chat") (codes "a") 1
    ∷ member (codes "chat") (codes "b") 1
    ∷ member (codes "chat") (codes "c") 1
    ∷ []

-- A cursor that a removed member has left behind.
abbrev beyond : PoolRotationMap
beyond = (codes "chat", record { index = 4; consecutive_uses = 0 }) ∷ []

rotate_from_cursor_lem_example :
    let state = unwrap_or (get beyond chat_pool.id) default_rotation in
    let (rotated, rotation') = rotate_from_cursor chat_pool three beyond in
    Perm rotated three
    × (first rotated ≡ get_elem? three (state.index % length three))
    × ((next : RotationState) × (get rotation' chat_pool.id ≡ some next)
        × (next.index < length three))
    × (chat_pool.id ≢ codes "other" → get rotation' (codes "other") ≡ get beyond (codes "other"))
rotate_from_cursor_lem_example =
    rotate_from_cursor_lem chat_pool three beyond (codes "other") (omega arith)

finds_chat : find_pool config (codes "chat") ≡ some chat_members
unfolding find_pool router.Prelude.Text.text_eq
finds_chat = refl

select-perm_example :
    (members : List PoolMember) × (candidates : List ResolvedMember) × (rotation' : PoolRotationMap)
    × (select config (codes "chat") WireFormat.open_ai []
        ≡ (some (record { pool = some chat_pool; providers = candidates }), rotation'))
    × AreOffered config members candidates
    × Perm members chat_members.members
    × ((chat_pool.strategy ≢ PoolStrategy.priority)
        ⊎ (IsSorted (λ m. m.priority) members
            × ((k : ℤ)
                → retain (has_key (λ m. m.priority) k) members
                  ≡ retain (has_key (λ m. m.priority) k) chat_members.members)
            × (rotation' ≡ [])))
select-perm_example =
    select-perm config (codes "chat") WireFormat.open_ai [] chat_members finds_chat refl

finds_acme : find_provider config (codes "acme") ≡ some acme
unfolding find_provider router.Prelude.Text.text_eq
finds_acme = refl

selects_direct :
    (select config (codes "acme/gpt") WireFormat.open_ai []).0
    ≡ some (record { pool = none; providers = direct_member acme (codes "gpt") ∷ [] })
unfolding select router.Prelude.Text.text_eq
selects_direct = refl

select-rotation_example :
    ((select config (codes "acme/gpt") WireFormat.open_ai beyond).0 ≡ none
      → (select config (codes "acme/gpt") WireFormat.open_ai beyond).1 ≡ beyond)
    × ((sel : Selection)
        → (select config (codes "acme/gpt") WireFormat.open_ai beyond).0 ≡ some sel
        → sel.pool ≡ none
        → (select config (codes "acme/gpt") WireFormat.open_ai beyond).1 ≡ beyond)
select-rotation_example = select-rotation config (codes "acme/gpt") WireFormat.open_ai beyond

abbrev drawing : Selection
drawing = record {
  pool = some image_pool;
  providers =
      record {
        provider = codex;
        effective_model = codes "gpt-image-2";
        dataset_logging_override = some false;
        reasoning_effort_override = none;
      }
      ∷ [];
}

selects_image : (select_image config (codes "draw") []).0 ≡ some drawing
unfolding select_image router.Prelude.Text.text_eq
selects_image = refl

select_image-IsImageMember_example :
    All IsImageMember drawing.providers
    × ((pool : Pool) → drawing.pool ≡ some pool → pool.modality ≡ Modality.image)
select_image-IsImageMember_example =
    select_image-IsImageMember config (codes "draw") [] drawing selects_image

abbrev chatting : Selection
chatting = record {
  pool = some chat_pool;
  providers =
      record {
        provider = acme;
        effective_model = codes "m1";
        dataset_logging_override = none;
        reasoning_effort_override = none;
      }
      ∷ record {
        provider = codex;
        effective_model = codes "gpt-image-2";
        dataset_logging_override = none;
        reasoning_effort_override = none;
      }
      ∷ [];
}

selects_chat : (select config (codes "chat") WireFormat.open_ai []).0 ≡ some chatting
unfolding select router.Prelude.Text.text_eq
selects_chat = refl
