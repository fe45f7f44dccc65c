-- ===== src/Runtime/Prune.antt =====
-- Forgetting idle entries is invisible to routing.
use router.Prelude.{
  ℕ, ◌+◌, ◌≤◌, ◌≡◌, refl, Bool, true, false, none, some, [], ◌∷◌, arith, retain, length,
  length-retain-le,
}
use router.Prelude.Map.{get, IsUnique, get-retain-none}
use router.Prelude.Text.{Text, text_Eq, text_eq_iff}
use router.Runtime.{ProviderRuntimeState, RuntimeStateMap, is_available, is_kept, prune_idle}

-- The test that the proxy makes before it tries a member: a key with no entry is available.
unfoldable pub key_available : RuntimeStateMap → Text → ℕ → Bool
unfolding get is_available
key_available m key now = elim (get m key) [ none ↦ true | some st ↦ is_available st now ]

is_kept-is_available :
    (now retention later : ℕ) (key : Text) (st : ProviderRuntimeState)
    → now ≤ later
    → is_kept now retention (key, st) ≡ false
    → is_available st later ≡ true
unfolding is_kept is_available
is_kept-is_available now retention later key st le h = ground arith

retain-key_available :
    (now retention later : ℕ) (m : RuntimeStateMap) (key : Text)
    → IsUnique m
    → now ≤ later
    → key_available (retain (is_kept now retention) m) key later ≡ key_available m key later
unfolding key_available
retain-key_available now retention later [] key u le = refl
retain-key_available now retention later ((k, st) ∷ m) key u le = ground (
  arith,
  retain-key_available now retention later m key u.1,
  is_kept-is_available now retention later k st,
  get-retain-none (is_kept now retention) m key,
  text_eq_iff k key,
)

-- On a map with one entry for a key, pruning at any time, with any retention, changes no answer of the availability test from then on,
-- for any key; the count that it reports is the number of entries that went.
pub prune_idle-key_available :
    (m : RuntimeStateMap) (now retention later : ℕ) (key : Text)
    → IsUnique m
    → now ≤ later
    → (key_available (prune_idle m now retention).0 key later ≡ key_available m key later)
      × (length (prune_idle m now retention).0 + (prune_idle m now retention).1 ≡ length m)
unfolding prune_idle
prune_idle-key_available m now retention later key u le = (
  retain-key_available now retention later m key u le,
  omega (arith, length-retain-le (is_kept now retention) m),
)
