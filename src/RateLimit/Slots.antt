-- ===== src/RateLimit/Slots.antt =====
-- The slots of src/admin/auth/rate_limit.rs: attempts from one bucket that interleave in any way,
-- among attempts from others and the periodic pruning.
use router.Prelude.{ℕ, suc, ◌+◌, ◌≤◌, ◌<◌, ◌≡◌, refl, sym, none, some, [], inl, inr, Option-cases}
use router.Prelude.Map.{get, modify, get-modify, IsUnique}
use router.RateLimit.{
  IpAddr, ip_Eq, AttemptState, LoginAttemptMap, no_attempts, limit_key, entry_of, try_begin_attempt,
  release, record_failure, record_success, prune_stale, failure_threshold,
}

-- What the program does to the map of attempts, seen from one bucket: `waiting` attempts hold a slot
-- and have no verdict yet, `judged` ones hold a slot and have one.
pub record Bucket : Type 0 where
  pub map : LoginAttemptMap
  pub waiting : ℕ
  pub judged : ℕ

pub data Event (key : IpAddr) : Bucket → Bucket → Type 0 where
  -- A login that is let through, or refused.
  begins :
      {b : Bucket} (ip guard : IpAddr) (map : LoginAttemptMap) (now : ℕ)
      → limit_key ip ≡ key
      → try_begin_attempt b.map ip now ≡ (some guard, map)
      → Event key b (record { map = map; waiting = suc b.waiting; judged = b.judged })
  refused :
      {b : Bucket} (ip : IpAddr) (map : LoginAttemptMap) (now : ℕ)
      → limit_key ip ≡ key
      → try_begin_attempt b.map ip now ≡ (none, map)
      → Event key b (record b { map = map })
  -- The password is found wrong, or right.
  fails :
      {map : LoginAttemptMap} {waiting judged : ℕ} (ip : IpAddr) (now : ℕ)
      → limit_key ip ≡ key
      → Event key
          (record { map = map; waiting = suc waiting; judged = judged })
          (record { map = record_failure map ip now; waiting = waiting; judged = suc judged })
  succeeds :
      {map : LoginAttemptMap} {waiting judged : ℕ} (ip : IpAddr)
      → limit_key ip ≡ key
      → Event key
          (record { map = map; waiting = suc waiting; judged = judged })
          (record { map = record_success map ip; waiting = waiting; judged = suc judged })
  -- The handler returns, with or without a verdict, and drops its guard.
  abandons :
      {map : LoginAttemptMap} {waiting judged : ℕ}
      → Event key
          (record { map = map; waiting = suc waiting; judged = judged })
          (record { map = release map key; waiting = waiting; judged = judged })
  returns :
      {map : LoginAttemptMap} {waiting judged : ℕ}
      → Event key
          (record { map = map; waiting = waiting; judged = suc judged })
          (record { map = release map key; waiting = waiting; judged = judged })
  -- Whatever leaves the bucket's entry alone, as operations on other buckets do.
  elsewhere :
      {b : Bucket} (map : LoginAttemptMap)
      → IsUnique map
      → get map key ≡ get b.map key
      → Event key b (record b { map = map })
  prunes : {b : Bucket} (now : ℕ) → Event key b (record b { map = (prune_stale b.map now).0 })

pub data Reach (key : IpAddr) : Bucket → Type 0 where
  start : Reach key (record { map = []; waiting = 0; judged = 0 })
  step : {b b' : Bucket} → Reach key b → Event key b b' → Reach key b'

-- The entry counts exactly the slots that are held, which are at most five. While fewer than five
-- failures are recorded, those and the attempts without a verdict are five together at most; from the
-- fifth failure on there is one such attempt at most.
pub record IsWithin (st : AttemptState) (waiting judged : ℕ) : Type 0 where
  pub counted : st.in_flight ≡ waiting + judged
  pub few : waiting + judged ≤ failure_threshold
  pub below : st.failures < failure_threshold → st.failures + waiting ≤ failure_threshold
  pub above : failure_threshold ≤ st.failures → waiting ≤ 1

pub entry-modify :
    (map : LoginAttemptMap) (key : IpAddr) (f : AttemptState → AttemptState)
    → f no_attempts ≡ no_attempts
    → entry_of (modify map key f) key ≡ f (entry_of map key)
entry-modify map key f h = elim (Option-cases (get map key)) [
  | inl e ↦ rw (get-modify map key key f, (ip_Eq.beq_iff key key).1 refl, e) (sym h)
  | inr (st, e) ↦ rw (get-modify map key key f, (ip_Eq.beq_iff key key).1 refl, e) refl
]

-- The map has one entry for a key, and the bucket's is within the limits.
pub record IsLimited (key : IpAddr) (b : Bucket) : Type 0 where
  pub unique : IsUnique b.map
  pub within : IsWithin (entry_of b.map key) b.waiting b.judged
