-- ===== src/Backoff/Tests.antt =====
-- Examples for src/proxy/backoff.rs.
use router.Prelude.{ℕ, none, ◌≤◌, ◌<◌, ◌≡◌, ◌↔◌, ◌⊎◌, refl, min, ◌^◌, some, [], ◌∷◌, arith}
use router.Prelude.Text.{codes}
use router.Error.{retryable}
use router.Backoff.{HeaderMap, from_secs, classify, reset_after_from_header}

abbrev too_many : ℕ
too_many = 429

abbrev wait_90 : HeaderMap
wait_90 = (codes "retry-after", codes "90") ∷ []

reads_90 : classify too_many wait_90 ≡ retryable (some (from_secs 90))
unfolding classify reset_after_from_header router.Prelude.Text.text_eq
reads_90 = refl

-- A date is not a number of seconds.
ignores_date :
    reset_after_from_header ((codes "retry-after", codes "Wed, 21 Oct 2026 07:28:00 GMT") ∷ [])
    ≡ none
unfolding reset_after_from_header router.Prelude.Text.text_eq
ignores_date = refl
