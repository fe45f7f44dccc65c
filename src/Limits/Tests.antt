-- ===== src/Limits/Tests.antt =====
-- Examples for src/telemetry/limits.rs.
use router.Prelude.{
  ℕ, ◌+◌, ◌<◌, ◌≤◌, ◌≡◌, refl, true, false, not, ◌&&◌, none, some, [], ◌∷◌, is_empty, if◌then◌else◌,
}
use router.Prelude.Map.{get}
use router.Prelude.Text.{text_Eq, text_eq, codes}
use router.Backoff.{HeaderMap, from_secs}
use router.Runtime.{ProviderStatus, RuntimeStateMap, runtime_key}
use router.Runtime.Prune.{key_available}
use router.Limits.{extract, capture, member_report}
use router.Limits.Extract.{capture_lem}
use router.Limits.Report.{member_report-key_available}

abbrev quota : HeaderMap
quota = (codes "x-ratelimit-remaining", codes "9") ∷ (codes "server", codes "x") ∷ []

capture_lem_example : get (capture [] (codes "acme") quota) (codes "acme") ≡ (
    if text_eq (codes "acme") (codes "acme") && not (is_empty (extract quota))
    then some (extract quota)
    else get [] (codes "acme"))
capture_lem_example = capture_lem [] (codes "acme") (codes "acme") quota

keeps_one : extract quota ≡ (codes "x-ratelimit-remaining", codes "9") ∷ []
unfolding extract
keeps_one = refl

abbrev health : RuntimeStateMap
health =
    (
      runtime_key (codes "acme") (codes "m1"),
      record {
        backoff_level = 1;
        unavailable_until = some (from_secs 90);
        status = ProviderStatus.cooling;
        last_error = none;
      },
    )
    ∷ []

member_report-key_available_example :
    let report = member_report health (codes "acme") (codes "m1") 0 in
    let key = runtime_key (codes "acme") (codes "m1") in
    (report.available ≡ key_available health key 0)
    × ((n : ℕ)
        → report.retry_in_seconds ≡ some n
        → ((t : ℕ) → 0 ≤ t → t < 0 + from_secs n → key_available health key t ≡ false)
          × (key_available health key (0 + from_secs (n + 1)) ≡ true))
member_report-key_available_example =
    member_report-key_available health (codes "acme") (codes "m1") 0
