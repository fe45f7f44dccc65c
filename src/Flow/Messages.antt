-- ===== src/Flow/Messages.antt =====
-- The texts of src/proxy/flow.rs: how a wait is written, and the body of a 503.
use router.Prelude.{
  ℕ, ◌+◌, ◌/◌, ◌%◌, min, Bool, Option, none, some, List, [], ◌∷◌, ◌++◌, leb, ltb, if◌then◌else◌,
  map, is_empty, length, or_else,
}
use router.Prelude.Text.{Text, codes, join}
use router.Prelude.Text.Decimal.{show}
use router.Backoff.{as_secs}
use router.Runtime.{ProviderStatus}

pub record SkippedMember : Type 0 where
  pub provider : Text
  pub model : Text
  pub status : ProviderStatus
  pub retry_in : ℕ
  pub reason : Option Text

-- `{:02}`.
abbrev two_digits : ℕ → Text
two_digits n = if ltb n 10 then b'0' ∷ show n else show n

unfoldable fmt_wait : ℕ → Text
unfolding show
fmt_wait d =
    let s = as_secs d in
    if leb s 89
    then show s ++ codes "s"
    else if leb s 5399
    then show ((s + 30) / 60) ++ codes "m"
    else show (s / 3600) ++ codes "h" ++ two_digits ((s % 3600) / 60) ++ codes "m"

abbrev status_word : ProviderStatus → Text
status_word ProviderStatus.misconfigured = codes "misconfigured"
status_word _ = codes "cooling"

abbrev reason_suffix : Option Text → Text
reason_suffix none = []
reason_suffix (some r) = codes ": " ++ r

unfoldable describe : SkippedMember → Text
unfolding fmt_wait
describe m =
    m.provider
    ++ codes "/"
    ++ m.model
    ++ codes " "
    ++ status_word m.status
    ++ codes " (retry in "
    ++ fmt_wait m.retry_in
    ++ codes ")"
    ++ reason_suffix m.reason

-- `skipped.iter().map(|m| m.retry_in).min()`.
unfoldable pub min_wait : List SkippedMember → Option ℕ
min_wait [] = none
min_wait (m ∷ ms) = elim (min_wait ms) [
  | none ↦ some m.retry_in
  | some wait ↦ some (min m.retry_in wait)
]

-- `skipped.iter().find_map(|m| m.reason.clone())`.
unfoldable first_reason : List SkippedMember → Option Text
first_reason [] = none
first_reason (m ∷ ms) = or_else m.reason (first_reason ms)

-- `trim_end_matches('.')`.
unfoldable trim_dots : Text → Text
trim_dots [] = []
trim_dots (c ∷ s) = elim (trim_dots s) [
  | [] ↦ if leb c b'.' then (if leb b'.' c then [] else c ∷ []) else c ∷ []
  | d ∷ r ↦ c ∷ d ∷ r
]

abbrev why_suffix : Option Text → Text
why_suffix none = []
why_suffix (some why) = codes " Last upstream error: " ++ why

abbrev wait_or_default : Option ℕ → ℕ
wait_or_default none = 0
wait_or_default (some wait) = wait

unfoldable pub unavailable_message :
    (pool_id : Text) (tried : List Text)
    → List SkippedMember
    → (last_error : Text) (admin : Bool) → Text
unfolding describe fmt_wait min_wait first_reason trim_dots join show
unavailable_message pool_id tried skipped last_error admin =
    if is_empty skipped
    then last_error
    else if is_empty tried
    then codes "no upstream provider available for '"
      ++ pool_id
      ++ codes "': all "
      ++ show (length skipped)
      ++ codes " are cooling down after earlier failures (next retry in ~"
      ++ fmt_wait (wait_or_default (min_wait skipped))
      ++ codes ")."
      ++ (if admin
          then codes " Members: "
            ++ trim_dots (join (codes "; ") (map describe skipped))
            ++ codes "."
          else why_suffix (first_reason skipped))
    else last_error
      ++ codes " ("
      ++ show (length skipped)
      ++ codes " more upstream member(s) skipped while cooling down.)"
