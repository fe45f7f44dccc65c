-- ===== src/Users.antt =====
-- src/users/mod.rs: who makes a request, and the key that a client presents.
pub mod Queries
pub mod Rows
pub mod Keys
pub mod Tests
use router.Prelude.{
  Bool, not, Option, none, some, ◌>>=◌, ◌==◌, or_else, is_some_and, is_empty, if◌then◌else◌,
}
use router.Prelude.Map.{get}
use router.Prelude.Text.{Text, text_Eq, codes, strip_prefix, trim}
use router.Backoff.{HeaderMap, to_str}

abbrev admin_user_id : Text
admin_user_id = codes "admin"

pub record Caller : Type 0 where
  pub user_id : Option Text

abbrev pub admin : Caller
admin = record { user_id = some admin_user_id }

-- Authenticated by Cloudflare Access.
abbrev pub cf : Text → Caller
cf id = record { user_id = some id }

abbrev pub anonymous : Caller
anonymous = record { user_id = none }

unfoldable pub is_admin : Caller → Bool
is_admin caller = is_some_and caller.user_id (λ id. id == admin_user_id)

unfoldable pub presented_key : HeaderMap → Option Text
unfolding get to_str strip_prefix trim
presented_key headers =
    let bearer = get headers (codes "authorization") >>= λ v.
    to_str v >>= λ s. strip_prefix s (codes "Bearer ") in
    let api_key = get headers (codes "x-api-key") >>= λ v. to_str v in
    or_else bearer api_key >>= λ key.
    let trimmed = trim key in if not (is_empty trimmed) then some trimmed else none
