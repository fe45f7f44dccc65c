-- ===== src/Sessions.antt =====
-- src/admin/auth/session.rs: the administrator's sessions, and how src/auth/middleware.rs admits a
-- request with a session cookie. Times count nanoseconds since a fixed instant.
pub mod Lifetime
mod Tests
use router.Prelude.{
  ℕ, ◌+◌, ◌-◌, ◌*◌, min, Bool, true, false, not, ◌||◌, Option, none, some, List, [], ◌∷◌, ltb, leb,
  if◌then◌else◌, ◌==◌, ◌>>=◌, retain, length, is_some_and,
}
use router.Prelude.Map.{Map, get, insert, modify}
use router.Prelude.Text.{Text, text_Eq, codes}
use router.Backoff.{HeaderMap, from_secs, to_str}

abbrev pub session_ttl : ℕ
session_ttl = from_secs (24 * 60 * 60)

abbrev pub absolute_lifetime : ℕ
absolute_lifetime = from_secs (7 * 24 * 60 * 60)

-- A row of `admin_sessions`, whose key is the hash of the token.
pub record SessionRow : Type 0 where
  pub created_at : ℕ
  pub expires_at : ℕ

abbrev pub Sessions : Type 0
Sessions = Map Text SessionRow

-- The new row, unless the hash is there already.
pub insert_session : Option SessionRow → Sessions → Text → ℕ → Option Sessions
unfolding insert
insert_session (some row) table hash now = none
insert_session none table hash now =
    some (insert table hash (record { created_at = now; expires_at = now + session_ttl }))

-- `remaining * 2 > full_window`, with both sides free of subtraction.
abbrev pub is_early : SessionRow → ℕ → Bool
is_early row now = ltb (row.expires_at + 2 * now) (2 * row.expires_at + row.created_at)

abbrev pub new_expiry : SessionRow → ℕ → ℕ
new_expiry row now = min (now + session_ttl) (row.created_at + absolute_lifetime)

-- The update of one row.
pub renew_if_needed : Sessions → Text → SessionRow → ℕ → Sessions
unfolding modify
renew_if_needed table hash row now =
    if is_early row now
    then table
    else if leb (new_expiry row now) row.expires_at
    then table
    else modify table hash (λ r. record r { expires_at = new_expiry row now })

abbrev is_valid : ℕ → SessionRow → Option SessionRow
is_valid now row = if ltb now row.expires_at then some row else none

pub delete_all_sessions : Sessions → Sessions
delete_all_sessions table = []

pub delete_all_sessions_except : Sessions → Text → Sessions
delete_all_sessions_except table keep = retain (λ (hash, row). hash == keep) table

pub delete_expired : Sessions → ℕ → Sessions × ℕ
delete_expired table now =
    let kept = retain (λ (hash, row). not (ltb row.expires_at now)) table in
    (kept, length table - length kept)

-- Every method but GET needs the header that a foreign page cannot set.
unfoldable pub csrf_header_ok : (method : Text) → HeaderMap → Bool
unfolding get to_str
csrf_header_ok method headers =
    if method == codes "GET"
    then true
    else is_some_and (get headers (codes "x-requested-with") >>= to_str)
        (λ v. v == codes "1router-ui")

-- What the middleware does with a session cookie.
pub data Admission : Type 0 where
  admitted : (token_hash : Text) → Admission
  missing_csrf : Admission
  no_session : Admission

-- The hash of a token, SHA-256, is not code of the program.
module _ (hash_token : Text → Text) where
  pub create_session : Sessions → (raw_token : Text) → ℕ → Option Sessions
  unfolding get insert_session
  create_session table raw_token now =
      insert_session (get table (hash_token raw_token)) table (hash_token raw_token) now

  pub validate_session : Sessions → (raw_token : Text) → ℕ → Option SessionRow
  unfolding get
  validate_session table raw_token now = get table (hash_token raw_token) >>= is_valid now

  abbrev admit_row :
      Sessions → Text → (csrf_ok : Bool) → ℕ → Option SessionRow → Admission × Sessions
  admit_row table hash csrf_ok now none = (Admission.no_session, table)
  admit_row table hash csrf_ok now (some row) =
      if not csrf_ok
      then (Admission.missing_csrf, table)
      else (Admission.admitted hash, renew_if_needed table hash row now)

  -- The part of `require_admin_session` for a request with a cookie.
  pub admit : Sessions → (raw_token method : Text) → HeaderMap → ℕ → Admission × Sessions
  unfolding validate_session renew_if_needed csrf_header_ok
  admit table raw_token method headers now =
      admit_row table (hash_token raw_token) (csrf_header_ok method headers) now
        (validate_session table raw_token now)
