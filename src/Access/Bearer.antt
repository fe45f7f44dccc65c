-- ===== src/Access/Bearer.antt =====
-- src/auth/middleware.rs: who may call, and who may administer; with the cookie of
-- src/admin/auth/session.rs and the address that src/auth/cf_access.rs limits. The digest of a secret is
-- SHA-256, a parameter here, and a request comes with an address that parsing has found.
use router.Prelude.{
  ℕ, Bool, true, false, ◌&&◌, List, [], ◌∷◌, Option, none, some, ◌>>=◌, if◌then◌else◌, ◌==◌,
  is_some, is_some_and, or_else, map_or, nat_beq, ◌/◌,
}
use router.Prelude.Int.{ℤ}
use router.Prelude.Text.{
  Text, codes, text_Eq, split_once, strip_prefix, starts_with, trim, to_ascii_lowercase,
}
use router.Prelude.Map.{get}
use router.Error.{AppError, Result, ok, err}
use router.Backoff.{HeaderMap, to_str}
use router.RateLimit.{IpAddr, v4, v6, LoginAttemptMap, is_locked_out, record_failure}
use router.Sessions.{Sessions, Admission, admit, csrf_header_ok}
use router.Users.{Caller, admin, cf, anonymous, presented_key}
use router.Users.Queries.{Users, authenticate}
use router.Access.{
  CfAccessConfig, CfIdentity, CfAccess, Jwk, JwtHeaderClaims, Claims, Parts, caller_id, is_cf_admin,
  identity,
}

-- Whether no byte of the two digests differs.
unfoldable pub same_bytes : List ℕ → List ℕ → Bool
same_bytes (x ∷ a) (y ∷ b) = nat_beq x y && same_bytes a b
same_bytes [] b = true
same_bytes (x ∷ a) [] = true

unfoldable pub is_https : HeaderMap → Bool
is_https headers =
    is_some_and (get headers (codes "x-forwarded-proto") >>= to_str)
      (λ v. to_ascii_lowercase v == codes "https")

unfoldable pub cookie_name : Bool → Text
cookie_name https = if https then codes "__Host-admin_session" else codes "admin_session"

-- A character more at the start of the first part.
abbrev pub push_first : ℕ → List Text → List Text
push_first c [] = (c ∷ []) ∷ []
push_first c (p ∷ ps) = (c ∷ p) ∷ ps

-- `split("; ")`; the flag says that the blank of a separator comes next.
unfoldable pub cookie_parts : Bool → Text → List Text
cookie_parts blank [] = [] ∷ []
cookie_parts true (c ∷ t) = cookie_parts false t
cookie_parts false (c ∷ t) =
    let is_end = nat_beq c b';' && starts_with t (codes " ") in
    let rest = cookie_parts is_end t in if is_end then [] ∷ rest else push_first c rest

unfoldable pub cookie_value : Text → Text → Option Text
cookie_value name part = split_once part b'=' >>= λ (k, v). if k == name then some v else none

unfoldable pub find_cookie : Text → List Text → Option Text
find_cookie name [] = none
find_cookie name (part ∷ rest) = or_else (cookie_value name part) (find_cookie name rest)

unfoldable pub extract_cookie : HeaderMap → Bool → Option Text
extract_cookie headers https = get headers (codes "cookie") >>= λ v.
    to_str v >>= λ raw. find_cookie (cookie_name https) (cookie_parts false raw)

unfoldable pub bearer_token : HeaderMap → Option Text
bearer_token headers =
    get headers (codes "authorization") >>= λ v. to_str v >>= λ s. strip_prefix s (codes "Bearer ")

unfoldable pub is_loopback : IpAddr → Bool
is_loopback (v4 a b) = nat_beq (a / 256) 127
is_loopback (v6 s) =
    nat_beq s.s0 0
    && nat_beq s.s1 0
    && nat_beq s.s2 0
    && nat_beq s.s3 0
    && nat_beq s.s4 0
    && nat_beq s.s5 0
    && nat_beq s.s6 0
    && nat_beq s.s7 1

-- The clocks that a request reads.
pub record Clocks : Type 0 where
  pub unix_now : ℤ
  pub utc_now : ℕ
  pub instant_now : ℕ

-- What the middleware keeps between requests.
pub record AuthState : Type 0 where
  pub shared_secret : Text
  pub sessions : Sessions
  pub cf_access : Option (CfAccessConfig × CfAccess)
  pub login_attempts : LoginAttemptMap

-- The answer to a request: it goes on, perhaps with a session, or ends here.
pub data Verdict : Type 0 where
  passed : Option Text → Verdict
  missing_csrf : Verdict
  too_many_attempts : Verdict
  unauthorized : Verdict

-- What a session cookie decides; `rest` is the answer without it.
unfoldable pub after_cookie :
    AuthState → Verdict × AuthState → Admission × Sessions → Verdict × AuthState
after_cookie state rest (Admission.admitted token_hash, sessions) =
    (Verdict.passed (some token_hash), record state { sessions = sessions })
after_cookie state rest (Admission.missing_csrf, sessions) = (Verdict.missing_csrf, state)
after_cookie state rest (Admission.no_session, sessions) = rest

module _ (digest : Text → List ℕ) where
  unfoldable pub secret_matches : (presented expected : Text) → Bool
  secret_matches presented expected = same_bytes (digest presented) (digest expected)

  module _ (hash_key : Text → Text) where
    -- Who a key of the program belongs to; a failed lookup is nobody.
    unfoldable pub key_caller : Text → Result AppError Users → Text → Option Caller
    key_caller secret db token =
        if secret_matches token secret
        then some admin
        else elim db [ err e ↦ none | ok users ↦ authenticate hash_key users token ]

module _ (parse_ip : Text → Option IpAddr) where
  unfoldable pub effective_ip : Bool → IpAddr → HeaderMap → IpAddr
  effective_ip has_cf peer headers =
      if has_cf && is_loopback peer
      then map_or peer (λ ip. ip)
          (get headers (codes "cf-connecting-ip") >>= λ v. to_str v >>= λ s. parse_ip (trim s))
      else peer

module _ (header_of : Text → Option JwtHeaderClaims) (claims_of : Text → Option Claims)
    (signature_ok : Parts → Jwk → Bool) where
  -- The identity that Cloudflare Access vouches for, and what is held behind it.
  unfoldable pub cf_identity :
      Option (CfAccessConfig × CfAccess)
      → HeaderMap
      → Clocks
      → Option (List Jwk)
      → Option (CfAccessConfig × CfIdentity) × Option (CfAccessConfig × CfAccess)
  cf_identity none headers clocks fetched = (none, none)
  cf_identity (some (cfg, access)) headers clocks fetched =
      let (id, after) =
        identity header_of claims_of signature_ok cfg access headers clocks.unix_now
          clocks.instant_now fetched in
      (id >>= λ id. some (cfg, id), some (cfg, after))

module _ (digest : Text → List ℕ) (hash_key hash_token : Text → Text)
    (parse_ip : Text → Option IpAddr) (header_of : Text → Option JwtHeaderClaims)
    (claims_of : Text → Option Claims) (signature_ok : Parts → Jwk → Bool) where
  -- The caller of a request under /v1, none for the answer 401.
  unfoldable pub require_bearer :
      AuthState
      → Bool
      → Result AppError Users
      → HeaderMap
      → Clocks
      → Option (List Jwk)
      → Option Caller × AuthState
  require_bearer state require db headers clocks fetched =
      let known = presented_key headers >>= key_caller digest hash_key state.shared_secret db in
      let (vouched, cf_after) =
        cf_identity header_of claims_of signature_ok state.cf_access headers clocks fetched in
      let of_cf = vouched >>= λ (cfg, id). caller_id id >>= λ name. some (cf name) in
      let stranger = if require then none else some anonymous in
      (
        or_else known (or_else of_cf stranger),
        record state { cf_access = if is_some known then state.cf_access else cf_after },
      )

  -- The part of `require_admin_session` for a bearer token.
  unfoldable pub admit_bearer : AuthState → HeaderMap → Option IpAddr → ℕ → Verdict × AuthState
  admit_bearer state headers peer now =
      let ip = peer >>= λ p. some (effective_ip parse_ip (is_some state.cf_access) p headers) in
      map_or (Verdict.unauthorized, state)
        (λ token.
          if is_some_and ip (λ a. is_locked_out state.login_attempts a now)
          then (Verdict.too_many_attempts, state)
          else if secret_matches digest token state.shared_secret
          then (Verdict.passed none, state)
          else (
            Verdict.unauthorized,
            record state {
              login_attempts =
                  map_or state.login_attempts (λ a. record_failure state.login_attempts a now) ip;
            },
          ))
        (bearer_token headers)

  -- The part for an identity of Cloudflare Access, and what follows it.
  unfoldable pub admit_cf :
      AuthState
      → Text
      → HeaderMap
      → Option IpAddr
      → Clocks
      → Option (List Jwk)
      → Verdict × AuthState
  admit_cf state method headers peer clocks fetched =
      let (vouched, cf_after) =
        cf_identity header_of claims_of signature_ok state.cf_access headers clocks fetched in
      let after : AuthState = record state { cf_access = cf_after } in
      if is_some_and vouched (λ (cfg, id). is_cf_admin cfg id)
      then (
        if csrf_header_ok method headers then Verdict.passed none else Verdict.missing_csrf,
        after,
      )
      else admit_bearer after headers peer clocks.instant_now

  -- The part for a session cookie, which the rest follows where it opens no session.
  unfoldable pub require_admin_session :
      AuthState
      → Text
      → HeaderMap
      → Option IpAddr
      → Clocks
      → Option (List Jwk)
      → Verdict × AuthState
  require_admin_session state method headers peer clocks fetched =
      let rest = admit_cf state method headers peer clocks fetched in
      map_or rest
        (λ raw.
          after_cookie state rest
            (admit hash_token state.sessions raw method headers clocks.utc_now))
        (extract_cookie headers (is_https headers))
