-- ===== src/Access/Attempts.antt =====
-- How src/auth/middleware.rs counts wrong bearer tokens, in the login limiter's table.
use router.Prelude.{ℕ, ◌≡◌, ◌≢◌, ◌⊎◌, Bool, false, Option, List, is_some}
use router.Prelude.Text.{Text}
use router.Backoff.{HeaderMap}
use router.RateLimit.{IpAddr, is_locked_out, record_failure}
use router.Sessions.{Sessions}
use router.Access.{Jwk, JwtHeaderClaims, Claims, Parts}
use router.Access.Bearer.{AuthState, Verdict, effective_ip}

module _ (digest : Text → List ℕ) (hash_key hash_token : Text → Text)
    (parse_ip : Text → Option IpAddr) (header_of : Text → Option JwtHeaderClaims)
    (claims_of : Text → Option Claims) (signature_ok : Parts → Jwk → Bool) where
  -- The attempts behind a request that brought a bearer token from an address.
  abbrev pub Counts : AuthState → HeaderMap → IpAddr → ℕ → Verdict × AuthState → Type 0
  Counts state headers p now (verdict, after) =
      let ip = effective_ip parse_ip (is_some state.cf_access) p headers in
      ((verdict ≡ Verdict.unauthorized)
        × (is_locked_out state.login_attempts ip now ≡ false)
        × (after.login_attempts ≡ record_failure state.login_attempts ip now))
      ⊎ ((verdict ≢ Verdict.unauthorized) × (after.login_attempts ≡ state.login_attempts))
