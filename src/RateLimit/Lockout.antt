-- ===== src/RateLimit/Lockout.antt =====
-- The lockout of src/admin/auth/rate_limit.rs: when it starts, whom it hits and how long it lasts.
use router.Prelude.{
  ℕ, ◌+◌, ◌-◌, ◌^◌, ◌%◌, ◌≤◌, ◌<◌, ◌≡◌, ◌↔◌, refl, sym, ◌∙◌, true, false, none, some, arith, inl,
  inr, Option-cases, min, max,
}
use router.Prelude.Map.{get, get-insert, IsUnique, get-retain}
use router.Backoff.{from_secs}
use router.Backoff.Bounds.{pow-two-pos, pow-two_mono}
use router.RateLimit.Slots.{entry-modify}
use router.RateLimit.{
  IpAddr, v4, v6, Segments, ip_Eq, AttemptState, LoginAttemptMap, limit_key, entry_of, failed,
  try_begin_attempt, record_failure, record_success, prune_stale, is_kept, is_locked, is_locked_out,
  failure_threshold, cooldown_for, max_lockout, stale_after, is_v4_mapped,
}

-- A lockout lasts for two seconds at least and five minutes at most, and more failures never shorten
-- it.
cooldown_for-bounds_mono :
    (n m : ℕ)
    → n ≤ m
    → (from_secs 2 ≤ cooldown_for n)
      × (cooldown_for n ≤ cooldown_for m)
      × (cooldown_for m ≤ max_lockout)
unfolding cooldown_for
cooldown_for-bounds_mono n m h = (
  omega (arith, pow-two-pos (min (max n 1 - 1) 15)),
  omega (arith, pow-two_mono (min (max n 1 - 1) 15) (min (max m 1 - 1) 15) (omega arith)),
  omega arith,
)

is_locked_out-entry :
    (map : LoginAttemptMap) (ip : IpAddr) (now : ℕ)
    → is_locked_out map ip now ≡ is_locked (entry_of map (limit_key ip)) now
unfolding is_locked_out
is_locked_out-entry map ip now = elim (Option-cases (get map (limit_key ip))) [
  | inl e ↦ rw e refl
  | inr (st, e) ↦ rw e refl
]

-- An address that is locked out gets no slot.
is_locked_out-try_begin_attempt :
    (map : LoginAttemptMap) (ip : IpAddr) (now : ℕ)
    → is_locked_out map ip now ≡ true
    → (try_begin_attempt map ip now).0 ≡ none
unfolding try_begin_attempt
is_locked_out-try_begin_attempt map ip now h =
    let l : is_locked (entry_of map (limit_key ip)) now ≡ true =
      sym (is_locked_out-entry map ip now) ∙ h in
    rw l refl

record_failure-entry :
    (map : LoginAttemptMap) (ip : IpAddr) (now : ℕ)
    → entry_of (record_failure map ip now) (limit_key ip) ≡ failed (entry_of map (limit_key ip)) now
unfolding record_failure
record_failure-entry map ip now =
    rw
      (
        get-insert map (limit_key ip) (limit_key ip) (failed (entry_of map (limit_key ip)) now),
        (ip_Eq.beq_iff (limit_key ip) (limit_key ip)).1 refl,
      )
      refl

-- From the fifth failure on, each one locks out every address that shares the bucket, for exactly
-- the cooldown of the failures beyond the fifth, and no attempt begins in that time. The count of
-- failures is assumed not to exceed 32 bits.
pub record_failure-is_locked_out :
    (map : LoginAttemptMap) (ip other : IpAddr) (now t : ℕ)
    → limit_key other ≡ limit_key ip
    → let n = (entry_of map (limit_key ip)).failures + 1 in
      failure_threshold ≤ n
      → n < 2 ^ 32
      → ((is_locked_out (record_failure map ip now) other t ≡ true)
          ↔ (t < now + cooldown_for (n - failure_threshold)))
        × (t < now + cooldown_for (n - failure_threshold)
            → (try_begin_attempt (record_failure map ip now) other t).0 ≡ none)
record_failure-is_locked_out map ip other now t same ge lt =
    let n = (entry_of map (limit_key ip)).failures + 1 in
    let e : n % 2 ^ 32 ≡ n = omega arith in
    let iff : (is_locked_out (record_failure map ip now) other t ≡ true)
        ↔ (t < now + cooldown_for (n - failure_threshold)) =
      rw
        (
          is_locked_out-entry (record_failure map ip now) other t,
          same,
          record_failure-entry map ip now,
          e,
        )
        (ground arith) in
    (iff, λ h. is_locked_out-try_begin_attempt _ other t (iff.1 h))

-- On a map with one entry for a bucket, pruning unlocks nobody and locks nobody out, then or later; and no failure of the last quarter of
-- an hour is forgotten.
prune_stale-is_locked_out :
    (map : LoginAttemptMap) (ip : IpAddr) (now t : ℕ)
    → IsUnique map
    → now ≤ t
    → (is_locked_out (prune_stale map now).0 ip t ≡ is_locked_out map ip t)
      × ((st : AttemptState) (last : ℕ)
          → get map (limit_key ip) ≡ some st
          → st.last_failure ≡ some last
          → now < last + stale_after
          → get (prune_stale map now).0 (limit_key ip) ≡ some st)
unfolding prune_stale is_locked_out
prune_stale-is_locked_out map ip now t u le = (
  ground (arith, get-retain (is_kept now) map (limit_key ip) u),
  λ st last e f lt.
      let k : is_kept now (limit_key ip, st) ≡ true = rw f (ground arith) in
      rw (get-retain (is_kept now) map (limit_key ip) u, e, k) refl,
)

-- A right password lifts the lockout of the whole bucket.
record_success-is_locked_out :
    (map : LoginAttemptMap) (ip other : IpAddr) (t : ℕ)
    → limit_key other ≡ limit_key ip
    → is_locked_out (record_success map ip) other t ≡ false
unfolding record_success
record_success-is_locked_out map ip other t same =
    rw
      (
        is_locked_out-entry (record_success map ip) other t,
        same,
        entry-modify map (limit_key ip) (λ st. record st { failures = 0; locked_until = none })
            refl,
      )
      refl

-- Two IPv6 addresses that stand for no IPv4 address share a bucket exactly if they agree in the
-- first 64 bits; one that stands for an IPv4 address shares the bucket of that address.
limit_key_lem :
    (s t : Segments)
    → is_v4_mapped s ≡ false
    → is_v4_mapped t ≡ false
    → ((limit_key (v6 s) ≡ limit_key (v6 t))
        ↔ ((s.s0 ≡ t.s0) × (s.s1 ≡ t.s1) × (s.s2 ≡ t.s2) × (s.s3 ≡ t.s3)))
      × ((a b : ℕ)
          → limit_key
              (v6 (record { s0 = 0; s1 = 0; s2 = 0; s3 = 0; s4 = 0; s5 = 65535; s6 = a; s7 = b }))
            ≡ limit_key (v4 a b))
unfolding limit_key
limit_key_lem s t hs ht = (rw (hs, ht) (λ e. (cc, cc, cc, cc), λ (a, b, c, d). cc), λ a b. refl)
