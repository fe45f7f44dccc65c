-- ===== src/RateLimit/Tests.antt =====
-- Examples for src/admin/auth/rate_limit.rs.
use router.Prelude.{
  ℕ, ◌+◌, ◌-◌, ◌<◌, ◌≤◌, ◌≡◌, ◌↔◌, refl, Bool, true, false, Option, none, some, List, [], ◌∷◌,
  arith,
}
use router.Prelude.Map.{get}
use router.RateLimit.{
  IpAddr, v4, Segments, ip_Eq, LoginAttemptMap, no_attempts, limit_key, try_begin_attempt,
  record_failure, is_locked_out, failure_threshold, cooldown_for,
}
use router.RateLimit.Lockout.{record_failure-is_locked_out}

abbrev home : IpAddr
home = v4 0x7f00 1

abbrev one_slot : LoginAttemptMap
one_slot = (home, record no_attempts { in_flight = 1 }) ∷ []

abbrev four_failures : LoginAttemptMap
four_failures = (home, record no_attempts { failures = 4; last_failure = some 5 }) ∷ []

record_failure-is_locked_out_example :
    ((is_locked_out (record_failure four_failures home 10) home 11 ≡ true)
      ↔ (11 < 10 + cooldown_for (5 - failure_threshold)))
    × (11 < 10 + cooldown_for (5 - failure_threshold)
        → (try_begin_attempt (record_failure four_failures home 10) home 11).0 ≡ none)
unfolding get limit_key ip_Eq router.Prelude.Text.text_eq
record_failure-is_locked_out_example =
    record_failure-is_locked_out four_failures home home 10 11 refl (omega arith) (omega arith)

abbrev host : ℕ → Segments
host n = record { s0 = 0x2001; s1 = 0xdb8; s2 = 1; s3 = 2; s4 = 0; s5 = 0; s6 = 0; s7 = n }

-- The fifth and the sixth failure lock the address out for the same two seconds.
same_lockout : cooldown_for 0 ≡ cooldown_for 1
unfolding cooldown_for
same_lockout = refl
