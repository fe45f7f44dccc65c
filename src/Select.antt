-- ===== src/Select.antt =====
-- src/pools/select.rs: from the model that a client names to the ordered list of providers to try.
pub mod Rotation
pub mod Order
pub mod Addressing
pub mod Images
mod Tests
use Prim.Native.Nat.{zero}
use router.Prelude.{
  ℕ, ◌+◌, ◌-◌, ◌%◌, ◌^◌, Bool, true, false, not, ◌&&◌, ◌||◌, Option, none, some, ltb, leb, nat_beq,
  if◌then◌else◌, List, [], ◌∷◌, ◌++◌, ◌>>=◌, ◌==◌, retain, take, drop, length, find, any,
  filter_map, unwrap_or, or_else, is_some_and, is_empty,
}
use router.Prelude.Int.{ℤ, pos, negsuc}
use router.Prelude.Map.{Map, get, insert}
use router.Prelude.Sort.{sort_by_key}
use router.Prelude.Text.{
  Text, text_Eq, codes, len, is_control, is_whitespace, strip_prefix, strip_suffix, split_once,
}
use router.Model.{
  WireFormat, ProviderKind, is_codex, EffortLevel, Provider, is_round_robin, is_chat, Pool,
  PoolMember, PoolWithMembers, ConfigSnapshot,
}

pub record ResolvedMember : Type 0 where
  pub provider : Provider
  pub effective_model : Text
  pub dataset_logging_override : Option Bool
  pub reasoning_effort_override : Option EffortLevel

pub record Selection : Type 0 where
  pub pool : Option Pool
  pub providers : List ResolvedMember

unfoldable pub dataset_logging_enabled : Provider → Option Bool → Bool
dataset_logging_enabled provider member_override =
    unwrap_or member_override provider.dataset_logging

unfoldable pub resolve_reasoning_effort : Provider → Option EffortLevel → Option EffortLevel
resolve_reasoning_effort provider member_override =
    or_else member_override provider.default_reasoning_effort

-- `RotationState` of src/core/state.rs: a cursor, and how often its member has been the head.
pub record RotationState : Type 0 where
  pub index : ℕ
  pub consecutive_uses : ℕ

abbrev pub default_rotation : RotationState
default_rotation = record { index = 0; consecutive_uses = 0 }

abbrev pub PoolRotationMap : Type 0
PoolRotationMap = Map Text RotationState

-- `n as u32` keeps the low 32 bits.
pub normalize_sticky_limit : Option ℤ → ℕ
normalize_sticky_limit none = 1
normalize_sticky_limit (some (negsuc n)) = 1
normalize_sticky_limit (some (pos n)) = if ltb 0 n then n % 2 ^ 32 else 1

-- `consecutive_uses + 1` is a `u32`.
pub advance : (len sticky_limit : ℕ) → RotationState → RotationState
advance len sticky_limit state =
    let head = state.index % len in
    if leb sticky_limit ((state.consecutive_uses + 1) % 2 ^ 32)
    then record { index = (head + 1) % len; consecutive_uses = 0 }
    else record { index = head; consecutive_uses = (state.consecutive_uses + 1) % 2 ^ 32 }

-- `Vec::rotate_left`.
pub rotate_left : List PoolMember → ℕ → List PoolMember
rotate_left members n = drop n members ++ take n members

pub rotate_from_cursor :
    Pool → List PoolMember → PoolRotationMap → List PoolMember × PoolRotationMap
unfolding get insert advance rotate_left normalize_sticky_limit
rotate_from_cursor pool members rotation =
    let state = unwrap_or (get rotation pool.id) default_rotation in
    (
      rotate_left members (state.index % length members),
      insert rotation pool.id
          (advance (length members) (normalize_sticky_limit pool.sticky_limit) state),
    )

abbrev pub max_direct_model_len : ℕ
max_direct_model_len = 200

abbrev is_unusable : ℕ → Bool
is_unusable c = is_control c || is_whitespace c

-- `find` by id.
pub find_provider : ConfigSnapshot → Text → Option Provider
find_provider snapshot id = find (λ p. p.id == id) snapshot.providers

pub find_pool : ConfigSnapshot → Text → Option PoolWithMembers
find_pool snapshot id = find (λ p. p.pool.id == id) snapshot.pools

pub select_direct_provider : ConfigSnapshot → Text → WireFormat → Option Selection
unfolding find_provider split_once len is_control is_whitespace
select_direct_provider snapshot requested wire =
    split_once requested b'/' >>= λ (provider_id, model).
    if is_empty model || ltb max_direct_model_len (len model) || any is_unusable model
    then none
    else find_provider snapshot provider_id >>= λ provider. some (record {
      pool = none;
      providers =
          record {
            provider = provider;
            effective_model = model;
            dataset_logging_override = none;
            reasoning_effort_override = none;
          }
          ∷ [];
    })

-- `members.sort_by_key(|m| m.priority)`, and the rotation of a round-robin pool of two or more.
pub order_members : Pool → List PoolMember → PoolRotationMap → List PoolMember × PoolRotationMap
unfolding sort_by_key rotate_from_cursor
order_members pool members rotation =
    let sorted = sort_by_key (λ m. m.priority) members in
    if is_round_robin pool.strategy && ltb 1 (length sorted)
    then rotate_from_cursor pool sorted rotation
    else (sorted, rotation)

-- A member whose provider is missing is left out.
pub resolve : ConfigSnapshot → PoolMember → Option ResolvedMember
unfolding find_provider
resolve snapshot m = find_provider snapshot m.provider_id >>= λ provider. some (record {
  provider = provider;
  effective_model = unwrap_or m.model_override provider.upstream_model;
  dataset_logging_override = m.dataset_logging_override;
  reasoning_effort_override = m.reasoning_effort_override;
})

-- The selection, and the rotation map that it leaves.
unfoldable pub select :
    ConfigSnapshot → Text → WireFormat → PoolRotationMap → Option Selection × PoolRotationMap
unfolding find_pool order_members resolve select_direct_provider
select snapshot pool_id wire rotation = elim (find_pool snapshot pool_id) [
  | none ↦ (select_direct_provider snapshot pool_id wire, rotation)
  | some pwm ↦
      if not (is_chat pwm.pool.modality)
      then (none, rotation)
      else let (members, rotation') = order_members pwm.pool pwm.members rotation in
        (
          some (record { pool = some pwm.pool; providers = filter_map (resolve snapshot) members }),
          rotation',
        )
]

-- The test `valid` of `is_image_model`.
unfoldable is_valid_model : Text → Bool
unfolding len is_control is_whitespace
is_valid_model s = not (is_empty s) && leb (len s) max_direct_model_len && not (any is_unusable s)

pub is_image_model : Text → Bool
unfolding is_valid_model strip_prefix strip_suffix
is_image_model model =
    is_valid_model model
    && (is_some_and (strip_prefix model (codes "gpt-image-")) (λ rest. not (is_empty rest))
        || is_some_and (strip_suffix model (codes "-image")) (λ host. not (is_empty host)))

pub image_member_eligible : Provider → PoolMember → Bool
unfolding is_image_model
image_member_eligible provider member =
    is_codex provider.kind && is_some_and member.model_override is_image_model

pub resolve_image : ConfigSnapshot → PoolMember → Option ResolvedMember
unfolding find_provider
resolve_image snapshot m = find_provider snapshot m.provider_id >>= λ provider.
    m.model_override >>= λ model. some (record {
      provider = provider;
      effective_model = model;
      dataset_logging_override = some false;
      reasoning_effort_override = none;
    })

pub select_image_direct : ConfigSnapshot → Text → Option Selection
unfolding split_once is_image_model
select_image_direct snapshot requested = split_once requested b'/' >>= λ (provider_id, model).
    if not (is_image_model model)
    then none
    else find (λ p. p.id == provider_id && is_codex p.kind) snapshot.providers >>= λ provider.
        some (record {
          pool = none;
          providers =
              record {
                provider = provider;
                effective_model = model;
                dataset_logging_override = some false;
                reasoning_effort_override = none;
              }
              ∷ [];
        })

pub select_image : ConfigSnapshot → Text → PoolRotationMap → Option Selection × PoolRotationMap
unfolding find_pool find_provider order_members resolve_image image_member_eligible
    select_image_direct
select_image snapshot pool_id rotation = elim (find_pool snapshot pool_id) [
  | none ↦ (select_image_direct snapshot pool_id, rotation)
  | some pwm ↦
      if is_chat pwm.pool.modality
      then (none, rotation)
      else let eligible =
          retain
            (λ m.
              is_some_and (find_provider snapshot m.provider_id) (λ p. image_member_eligible p m))
            pwm.members in
        let (members, rotation') = order_members pwm.pool eligible rotation in
        (
          some (record {
            pool = some pwm.pool;
            providers = filter_map (resolve_image snapshot) members;
          }),
          rotation',
        )
]

abbrev pub DiscoveredModelsMap : Type 0
DiscoveredModelsMap = Map Text (List Text)

-- Whether a chat pool has a member that routes to the model on the provider.
unfoldable pub is_routed : ConfigSnapshot → Provider → Text → Bool
is_routed snapshot provider model =
    any
      (λ p.
        is_chat p.pool.modality
        && any (λ m. m.provider_id == provider.id && is_some_and m.model_override (λ o. o == model))
            p.members)
      snapshot.pools

unfoldable pub direct_model_allowed : ConfigSnapshot → DiscoveredModelsMap → Provider → Text → Bool
unfolding get is_routed
direct_model_allowed snapshot discovered provider model =
    provider.upstream_model == model
    || is_routed snapshot provider model
    || is_some_and (get discovered provider.id) (λ models. any (λ m. m == model) models)
