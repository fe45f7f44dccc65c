-- ===== src/Sessions/Tests.antt =====
-- Examples for src/admin/auth/session.rs, with the identity in place of the hash.
use router.Prelude.{ℕ, ◌+◌, ◌-◌, ◌<◌, ◌≡◌, refl, true, some, [], ◌∷◌}
use router.Prelude.Text.{Text, text_Eq, text_eq, codes}
use router.Sessions.{
  SessionRow, Sessions, session_ttl, absolute_lifetime, create_session, validate_session,
  csrf_header_ok,
}
use router.Sessions.Lifetime.{start, next, logs_in, validate_session-absolute_lifetime}

abbrev plain : Text → Text
plain t = t

abbrev row : SessionRow
row = record { created_at = 100; expires_at = 100 + session_ttl }

abbrev table : Sessions
table = (codes "t", row) ∷ []

creates : create_session plain [] (codes "t") 100 ≡ some table
unfolding create_session
creates = refl

is_valid_then : validate_session plain table (codes "t") 200 ≡ some row
unfolding validate_session text_eq
is_valid_then = refl

validate_session-absolute_lifetime_example : 200 < 100 + absolute_lifetime
validate_session-absolute_lifetime_example =
    validate_session-absolute_lifetime plain (codes "t") 200 row
      (next start (logs_in (codes "t") 100 table creates)) is_valid_then

abbrev late : ℕ
late = 100 + session_ttl - 50

is_valid_late : validate_session plain table (codes "t") late ≡ some row
unfolding validate_session text_eq
is_valid_late = refl

is_safe : csrf_header_ok (codes "GET") [] ≡ true
unfolding csrf_header_ok text_eq
is_safe = refl
