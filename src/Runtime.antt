-- ===== src/Runtime.antt =====
-- src/core/runtime.rs: the health of each pair of a provider and a model, in memory.
pub mod Entry
pub mod Keys
pub mod Worst
pub mod Prune
mod Tests
use router.Prelude.{
  ℕ, ◌+◌, ◌-◌, ◌*◌, min, Bool, true, false, ◌&&◌, ◌||◌, Option, none, some, ltb, leb, nat_beq,
  if◌then◌else◌, List, [], ◌∷◌, ◌++◌, ◌>>=◌, retain, take, length,
}
use router.Prelude.Map.{Map, modify_where}
use router.Prelude.Text.{Text, text_Eq, starts_with, one_line}
use router.Backoff.{from_secs}

pub data ProviderStatus : Type 0 where
  healthy cooling misconfigured : ProviderStatus

abbrev pub misconfigured_retry_after : ℕ
misconfigured_retry_after = from_secs (5 * 60)

-- `Instant`s and `Duration`s are counted in nanoseconds.
pub record ProviderRuntimeState : Type 0 where
  pub backoff_level : ℕ
  pub unavailable_until : Option ℕ
  pub status : ProviderStatus
  pub last_error : Option Text

-- `Default`.
abbrev pub default_state : ProviderRuntimeState
default_state = record {
  backoff_level = 0;
  unavailable_until = none;
  status = ProviderStatus.healthy;
  last_error = none;
}

unfoldable pub is_available : ProviderRuntimeState → ℕ → Bool
is_available st now = elim st.unavailable_until [ none ↦ true | some until ↦ leb until now ]

unfoldable pub record_success : ProviderRuntimeState → ProviderRuntimeState
record_success st = record st {
  backoff_level = 0;
  unavailable_until = none;
  status = ProviderStatus.healthy;
  last_error = none;
}

-- `checked_duration_since` answers `None` when the deadline has passed.
unfoldable pub retry_in : ProviderRuntimeState → ℕ → Option ℕ
retry_in st now = st.unavailable_until >>= λ u. if leb now u then some (u - now) else none

unfoldable pub note_error : ProviderRuntimeState → Text → ProviderRuntimeState
unfolding one_line
note_error st msg = record st { last_error = some (take 240 (one_line msg)) }

pub reset_to_healthy : ProviderRuntimeState → ProviderRuntimeState
reset_to_healthy st = record st {
  backoff_level = 0;
  unavailable_until = none;
  status = ProviderStatus.healthy;
  last_error = none;
}

-- `saturating_add` on a `u8`.
unfoldable pub record_retryable : ProviderRuntimeState → ℕ → ℕ → ProviderRuntimeState
record_retryable st cooldown now = record st {
  backoff_level = min (st.backoff_level + 1) 255;
  unavailable_until = some (now + cooldown);
  status = ProviderStatus.cooling;
}

unfoldable pub mark_misconfigured : ProviderRuntimeState → ℕ → ProviderRuntimeState
mark_misconfigured st now = record st {
  status = ProviderStatus.misconfigured;
  unavailable_until = some (now + misconfigured_retry_after);
}

abbrev pub RuntimeStateMap : Type 0
RuntimeStateMap = Map Text ProviderRuntimeState

abbrev runtime_idle_retention : ℕ
runtime_idle_retention = from_secs (15 * 60)

pub is_kept : ℕ → ℕ → Text × ProviderRuntimeState → Bool
is_kept now retention (_, st) = elim st.unavailable_until [
  | none ↦ false
  | some until ↦ ltb now (until + retention)
]

-- The map that is left, and how many entries went.
pub prune_idle : RuntimeStateMap → ℕ → ℕ → RuntimeStateMap × ℕ
unfolding is_kept
prune_idle m now retention =
    let kept = retain (is_kept now retention) m in (kept, length m - length kept)

-- The unit separator, U+001F.
abbrev pub unit_separator : ℕ
unit_separator = 0x1f

unfoldable pub runtime_key : Text → Text → Text
runtime_key provider_id model = provider_id ++ unit_separator ∷ model

pub runtime_key_prefix : Text → Text
runtime_key_prefix provider_id = provider_id ++ unit_separator ∷ []

pub reset_provider_to_healthy : RuntimeStateMap → Text → RuntimeStateMap
unfolding modify_where reset_to_healthy
reset_provider_to_healthy m provider_id =
    modify_where m (λ k. starts_with k (runtime_key_prefix provider_id)) reset_to_healthy

pub mark_provider_misconfigured : RuntimeStateMap → Text → ℕ → RuntimeStateMap
unfolding modify_where mark_misconfigured
mark_provider_misconfigured m provider_id now =
    modify_where m (λ k. starts_with k (runtime_key_prefix provider_id))
      (λ st. mark_misconfigured st now)

abbrev rank : ProviderStatus → ℕ
rank ProviderStatus.healthy = 0
rank ProviderStatus.cooling = 1
rank ProviderStatus.misconfigured = 2

-- `(rank(candidate.status), candidate.backoff_level) > (rank(current.status), current.backoff_level)`
abbrev pub is_worse : ProviderRuntimeState → ProviderRuntimeState → Bool
is_worse candidate current =
    ltb (rank current.status) (rank candidate.status)
    || (nat_beq (rank current.status) (rank candidate.status)
        && ltb current.backoff_level candidate.backoff_level)

abbrev pub keep_worse : Option ProviderRuntimeState → ProviderRuntimeState → ProviderRuntimeState
keep_worse none candidate = candidate
keep_worse (some current) candidate = if is_worse candidate current then candidate else current

pub fold_worst : Text → Option ProviderRuntimeState → RuntimeStateMap → Option ProviderRuntimeState
fold_worst prefix worst [] = worst
fold_worst prefix worst ((k, st) ∷ m) =
    fold_worst prefix (if starts_with k prefix then some (keep_worse worst st) else worst) m

pub worst_provider_state : RuntimeStateMap → Text → Option ProviderRuntimeState
unfolding fold_worst
worst_provider_state m provider_id = fold_worst (runtime_key_prefix provider_id) none m
