-- ===== src/Access/Fetches.antt =====
-- How often src/auth/cf_access.rs fetches keys, and which it holds.
use router.Prelude.{
  ℕ, ◌+◌, ◌-◌, ◌≤◌, ◌≡◌, Bool, true, false, List, [], ◌∷◌, Option, none, some, if◌then◌else◌, arith,
  map_or, ltb, is_some_and, if-intro,
}
use router.Access.{CfAccess, Jwk, refresh, min_refresh_interval}

-- The times of the fetches in a run of refreshes, each with what a fetch would bring then.
abbrev pub fetches : CfAccess → List (ℕ × Option (List Jwk)) → List ℕ
fetches access [] = []
fetches access ((now, fetched) ∷ rest) =
    let (fetch, after) = refresh access now fetched in
    let times = fetches after rest in if fetch then now ∷ times else times

-- Every time is at least 30 seconds behind the one before it.
abbrev pub IsSpaced : Option ℕ → List ℕ → Type 0
IsSpaced last [] = Unit {0}
IsSpaced none (t ∷ rest) = IsSpaced (some t) rest
IsSpaced (some l) (t ∷ rest) = (l + min_refresh_interval ≤ t) × IsSpaced (some t) rest

-- The times follow one that is far enough off.
IsSpaced-cons :
    (last : Option ℕ) (now : ℕ) (times : List ℕ)
    → is_some_and last (λ t. ltb (now - t) min_refresh_interval) ≡ false
    → IsSpaced (some now) times
    → IsSpaced last (now ∷ times)
IsSpaced-cons none now times far rest = rest
IsSpaced-cons (some l) now times far rest = (ground (arith, far), rest)

-- In any run of refreshes, whatever the fetches bring, even none: no key set is fetched less than 30
-- seconds behind the last fetch, that of the start included.
pub fetches-IsSpaced :
    (access : CfAccess) (run : List (ℕ × Option (List Jwk)))
    → IsSpaced access.last_fetch (fetches access run)
unfolding refresh
fetches-IsSpaced access [] = tt
fetches-IsSpaced access ((now, fetched) ∷ rest) =
    let after : CfAccess = record {
      keys = map_or access.keys (λ keys. keys) fetched;
      last_fetch = some now;
    } in
    if-intro
      (λ (r : Bool × CfAccess).
        IsSpaced access.last_fetch (if r.0 then now ∷ fetches r.1 rest else fetches r.1 rest))
      (is_some_and access.last_fetch (λ t. ltb (now - t) min_refresh_interval)) (false, access)
      (true, after) (λ _. fetches-IsSpaced access rest)
      (λ far.
        IsSpaced-cons access.last_fetch now (fetches after rest) far (fetches-IsSpaced after rest))
