-- ===== src/Runtime/Tests.antt =====
-- Examples for src/core/runtime.rs.
use router.Prelude.{
  ℕ, ◌+◌, ◌≤◌, ◌<◌, ◌≡◌, ◌≢◌, ◌↔◌, refl, Bool, true, false, Option, none, some, List, [], ◌∷◌, ◌++◌,
  arith, length, ◌>>=◌,
}
use router.Prelude.Map.{get}
use router.Prelude.Text.{Text, text_Eq, codes}
use router.Error.{validate_path_id, ok}
use router.Backoff.{from_secs}
use router.Runtime.{
  ProviderRuntimeState, ProviderStatus, RuntimeStateMap, default_state, is_available,
  record_retryable, mark_misconfigured, retry_in, runtime_key, unit_separator, prune_idle,
}
use router.Runtime.Entry.{start, next, cools, misconfigures, IsConsistent, Reach-IsConsistent}
use router.Runtime.Keys.{validate_path_id-runtime_key}
use router.Runtime.Prune.{key_available, prune_idle-key_available}

abbrev cooled : ProviderRuntimeState
cooled = record {
  backoff_level = 1;
  unavailable_until = some 5000;
  status = ProviderStatus.cooling;
  last_error = none;
}

abbrev health : RuntimeStateMap
health =
    (runtime_key (codes "acme") (codes "m1"), cooled)
    ∷ (runtime_key (codes "cx") (codes "m2"), default_state)
    ∷ []

Reach-IsConsistent_example :
    IsConsistent (mark_misconfigured (record_retryable default_state (from_secs 2) 10) 20)
Reach-IsConsistent_example =
    Reach-IsConsistent (next (next start (cools (from_secs 2) 10)) (misconfigures 20))

is_shut : is_available cooled 1000 ≡ false
unfolding is_available
is_shut = refl

waits : retry_in cooled 1000 ≡ some 4000
unfolding retry_in
waits = refl

validate_path_id-runtime_key_example :
    (validate_path_id (codes "a" ++ unit_separator ∷ codes "b") ≡ ok tt)
    × (runtime_key (codes "a" ++ unit_separator ∷ codes "b") (codes "m")
        ≡ runtime_key (codes "a") (codes "b" ++ unit_separator ∷ codes "m"))
unfolding router.Prelude.Text.trim router.Prelude.Text.contains
validate_path_id-runtime_key_example =
    validate_path_id-runtime_key (codes "a") (codes "b") (codes "m") refl refl refl

prune_idle-key_available_example :
    (key_available (prune_idle health 6000 1000).0 (runtime_key (codes "acme") (codes "m1")) 7000
      ≡ key_available health (runtime_key (codes "acme") (codes "m1")) 7000)
    × (length (prune_idle health 6000 1000).0 + (prune_idle health 6000 1000).1 ≡ length health)
unfolding get router.Prelude.Text.text_eq runtime_key
prune_idle-key_available_example =
    prune_idle-key_available health 6000 1000 7000 (runtime_key (codes "acme") (codes "m1"))
      (refl, (refl, tt)) (omega arith)

same_key : runtime_key (codes "acme") (codes "m1") ≡ runtime_key (codes "acme") (codes "m1")
same_key = refl
