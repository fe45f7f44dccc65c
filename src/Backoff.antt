-- ===== src/Backoff.antt =====
-- src/proxy/backoff.rs: the class of an upstream status, the cooldown of a failure count, and the
-- Retry-After header. Durations count nanoseconds.
pub mod Bounds
pub mod Classes
mod Tests
use router.Prelude.{
  ℕ, ◌+◌, ◌-◌, ◌*◌, ◌^◌, ◌/◌, min, max, Bool, true, false, ◌&&◌, ◌||◌, Option, none, some, ltb, leb,
  nat_beq, if◌then◌else◌, List, [], ◌∷◌, ◌>>=◌,
}
use router.Prelude.Map.{Map, get}
use router.Prelude.Text.{Text, text_Eq, codes, trim}
use router.Prelude.Text.Decimal.{parse_u64}
use router.Error.{ErrorClass}

abbrev pub nanos_per_sec : ℕ
nanos_per_sec = 1_000_000_000

-- `Duration::from_secs` and `Duration::as_secs`.
abbrev pub from_secs : ℕ → ℕ
from_secs s = s * nanos_per_sec

abbrev pub as_secs : ℕ → ℕ
as_secs d = d / nanos_per_sec

-- Header names are lower case, as `HeaderName` stores them; a value is its bytes. A name may occur
-- more than once: `get` answers the first occurrence.
abbrev pub HeaderMap : Type 0
HeaderMap = Map Text (List ℕ)

abbrev is_visible : ℕ → Bool
is_visible b = (leb 32 b && ltb b 127) || nat_beq b 9

-- `HeaderValue::to_str`: visible ASCII only.
unfoldable pub to_str : List ℕ → Option Text
to_str [] = some []
to_str (b ∷ bs) = let rest = to_str bs >>= λ t. some (b ∷ t) in if is_visible b then rest else none

abbrev max_backoff_level : ℕ
max_backoff_level = 15

abbrev u64_max : ℕ
u64_max = 2 ^ 64 - 1

abbrev pub saturating_mul : ℕ → ℕ → ℕ
saturating_mul a b = min (a * b) u64_max

abbrev pub saturating_pow : ℕ → ℕ → ℕ
saturating_pow a b = min (a ^ b) u64_max

unfoldable pub cooldown_for : ℕ → ℕ
cooldown_for level =
    from_secs
      (min (saturating_mul 2 (saturating_pow 2 (min (max level 1 - 1) max_backoff_level))) 300)

unfoldable pub reset_after_from_header : HeaderMap → Option ℕ
unfolding get to_str trim parse_u64
reset_after_from_header headers = get headers (codes "retry-after") >>= λ raw.
    to_str raw >>= λ text. parse_u64 (trim text) >>= λ secs. some (from_secs (min secs 1800))

-- `StatusCode::is_success`, `StatusCode::is_server_error`.
abbrev is_success : ℕ → Bool
is_success s = leb 200 s && ltb s 300

abbrev pub is_server_error : ℕ → Bool
is_server_error s = leb 500 s && ltb s 600

unfoldable pub classify : ℕ → HeaderMap → ErrorClass
classify status headers =
    if is_success status
    then ErrorClass.success
    else if nat_beq status 401
    then ErrorClass.auth_expired
    else if nat_beq status 400 || nat_beq status 413 || nat_beq status 422
    then ErrorClass.non_retryable
    else if nat_beq status 429
        || nat_beq status 408
        || nat_beq status 500
        || nat_beq status 502
        || nat_beq status 503
        || nat_beq status 504
    then ErrorClass.retryable (reset_after_from_header headers)
    else if is_server_error status
    then ErrorClass.retryable (reset_after_from_header headers)
    else ErrorClass.retryable none
