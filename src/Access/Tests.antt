-- ===== src/Access/Tests.antt =====
-- Runs of the request authentication on concrete requests.
use router.Prelude.{ℕ, ◌≡◌, ◌⊎◌, refl, true, false, [], ◌∷◌, List, Option, none, some, arith, Bool}
use router.Prelude.Int.{pos}
use router.Prelude.Text.{Text, codes}
use router.Error.{ok}
use router.Backoff.{HeaderMap}
use router.RateLimit.{IpAddr}
use router.Users.{admin, cf}
use router.Access.{
  CfAccessConfig, CfIdentity, CfAccess, Jwk, JwtHeaderClaims, Claims, Aud, Parts, identity, refresh,
  caller_id,
}
use router.Access.Config.{config_of}
use router.Access.Bearer.{
  AuthState, Clocks, Verdict, require_bearer, require_admin_session, extract_cookie,
}
use router.Access.Admitted.{
  IsKeyOf, IsVouched, MayAdminister, require_bearer-IsKnown, require_admin_session-IsAdmin,
}
use router.Access.Fetches.{fetches, IsSpaced, fetches-IsSpaced}

abbrev plain : Text → Text
plain t = t

abbrev no_ip : Text → Option IpAddr
no_ip t = none

abbrev header : Text → Option JwtHeaderClaims
header t = some (record { alg = codes "RS256"; kid = some (codes "k1") })

abbrev claims : Text → Option Claims
claims t = some (record {
  iss = codes "https://acme.cloudflareaccess.com";
  aud = Aud.many (codes "other" ∷ codes "tag" ∷ []);
  exp = pos 1000;
  nbf = none;
  email = some (codes " Ann@acme.example ");
  common_name = none;
})

abbrev signed : Parts → Jwk → Bool
signed parts k = true

abbrev cfg_held : CfAccessConfig
cfg_held = record {
  team_domain = codes "acme.cloudflareaccess.com";
  aud = codes "tag";
  admin_emails = codes "ann@acme.example" ∷ [];
  jwks_url = codes "https://acme.cloudflareaccess.com/cdn-cgi/access/certs";
}

configured :
    config_of (codes " https://Acme/") (codes "tag ") (codes "Ann@acme.example, ,") ≡ ok cfg_held
unfolding config_of router.Access.Config.normalize_team_domain
    router.Prelude.Text.to_ascii_lowercase router.Access.Config.trim_end_matches
    router.Access.Config.trim_start_matches router.Prelude.Text.trim
    router.Prelude.Text.strip_prefix router.Prelude.Text.contains router.Access.Config.emails_of
    router.Access.Config.split_commas
configured = refl

abbrev keys : List Jwk
keys = record { kid = codes "k1"; kty = codes "RSA"; n = []; e = [] } ∷ []

abbrev access : CfAccess
access = record { keys = []; last_fetch = none }

abbrev state : AuthState
state = record {
  shared_secret = codes "secret";
  sessions = [];
  cf_access = some (cfg_held, access);
  login_attempts = [];
}

abbrev clocks : Clocks
clocks = record { unix_now = pos 1010; utc_now = 5; instant_now = 7 }

abbrev with_token : HeaderMap
with_token = (codes "cf-access-jwt-assertion", codes "a.b.c") ∷ []

abbrev with_secret : HeaderMap
with_secret = (codes "authorization", codes "Bearer secret") ∷ []

abbrev with_guess : HeaderMap
with_guess = (codes "authorization", codes "Bearer guess") ∷ []

ann :
    (identity header claims signed cfg_held access with_token (pos 1010) 7 (some keys)).0
    ≡ some (record { email = some (codes "ann@acme.example"); common_name = none })
unfolding identity router.Access.presented_token router.Prelude.Map.get router.Prelude.Text.text_eq
    router.Backoff.to_str router.Prelude.Text.trim router.Prelude.Text.len router.Access.read_token
    router.Access.split_parts router.Prelude.Text.split_once router.Prelude.Text.contains
    router.Access.read_parts router.Access.read_header router.Access.read_claims
    router.Access.claims_ok router.Access.issuer router.Access.verified router.Access.filled_lower
    router.Access.filled_name router.Access.find_key router.Access.identity_of router.Access.key_for
    refresh router.Prelude.Text.is_whitespace router.Prelude.Text.to_ascii_lowercase
    router.Prelude.Text.trim_end router.Prelude.Text.trim_start
ann = refl

listed :
    (require_admin_session plain plain plain no_ip header claims signed state
      (codes "GET")
      with_token
      none
      clocks
      (some keys)).0
    ≡ Verdict.passed none
unfolding identity router.Access.presented_token router.Prelude.Map.get router.Prelude.Text.text_eq
    router.Backoff.to_str router.Prelude.Text.trim router.Prelude.Text.len router.Access.read_token
    router.Access.split_parts router.Prelude.Text.split_once router.Prelude.Text.contains
    router.Access.read_parts router.Access.read_header router.Access.read_claims
    router.Access.claims_ok router.Access.issuer router.Access.verified router.Access.filled_lower
    router.Access.filled_name router.Access.find_key router.Access.identity_of router.Access.key_for
    refresh router.Prelude.Text.is_whitespace router.Prelude.Text.to_ascii_lowercase
    router.Prelude.Text.trim_end router.Prelude.Text.trim_start require_admin_session extract_cookie
    router.Access.Bearer.is_https router.Access.Bearer.admit_cf router.Access.Bearer.cf_identity
    router.Access.is_cf_admin router.Sessions.csrf_header_ok
listed = refl

cookie :
    extract_cookie ((codes "cookie", codes "a=1; admin_session=x=y; b") ∷ []) false
    ≡ some (codes "x=y")
unfolding extract_cookie router.Prelude.Map.get router.Prelude.Text.text_eq router.Backoff.to_str
    router.Access.Bearer.find_cookie router.Access.Bearer.cookie_parts
    router.Prelude.Text.starts_with router.Access.Bearer.cookie_value router.Prelude.Text.split_once
    router.Access.Bearer.cookie_name
cookie = refl

caller :
    (require_bearer plain plain plain no_ip header claims signed state true
      (ok [])
      with_secret
      clocks
      none).0
    ≡ some admin
unfolding require_bearer router.Users.presented_key router.Prelude.Text.text_eq
    router.Access.Bearer.key_caller router.Access.Bearer.secret_matches
    router.Access.Bearer.same_bytes
caller = refl

vouched :
    (require_bearer plain plain plain no_ip header claims signed state true
      (ok [])
      with_token
      clocks
      (some keys)).0
    ≡ some (cf (codes "cf:ann@acme.example"))
unfolding identity router.Access.presented_token router.Prelude.Map.get router.Prelude.Text.text_eq
    router.Backoff.to_str router.Prelude.Text.trim router.Prelude.Text.len router.Access.read_token
    router.Access.split_parts router.Prelude.Text.split_once router.Prelude.Text.contains
    router.Access.read_parts router.Access.read_header router.Access.read_claims
    router.Access.claims_ok router.Access.issuer router.Access.verified router.Access.filled_lower
    router.Access.filled_name router.Access.find_key router.Access.identity_of router.Access.key_for
    refresh router.Prelude.Text.is_whitespace router.Prelude.Text.to_ascii_lowercase
    router.Prelude.Text.trim_end router.Prelude.Text.trim_start require_bearer
    router.Users.presented_key router.Access.Bearer.key_caller router.Access.Bearer.cf_identity
    caller_id
vouched = refl

require_bearer-IsKnown_example :
    IsKeyOf plain plain plain no_ip header claims signed
      (codes "secret")
      (ok [])
      with_token
      (cf (codes "cf:ann@acme.example"))
    ⊎ ((cfg : CfAccessConfig) × (id : CfIdentity) × (name : Text) × IsVouched plain plain plain
          no_ip header claims signed
          (some (cfg_held, access))
          with_token
          clocks
          (some keys)
          cfg
          id
        × (caller_id id ≡ some name)
        × (cf (codes "cf:ann@acme.example") ≡ cf name))
require_bearer-IsKnown_example =
    require_bearer-IsKnown plain plain plain no_ip header claims signed state (ok []) with_token
      clocks (some keys) (cf (codes "cf:ann@acme.example")) vouched

require_admin_session-IsAdmin_example :
    MayAdminister plain plain plain no_ip header claims signed state
      (codes "GET")
      with_token
      none
      clocks
      (some keys)
require_admin_session-IsAdmin_example =
    require_admin_session-IsAdmin plain plain plain no_ip header claims signed state (codes "GET")
      with_token none clocks (some keys) none listed

fetches-IsSpaced_example :
    IsSpaced none (fetches access ((5, none) ∷ (6, some keys) ∷ (40000000000, none) ∷ []))
fetches-IsSpaced_example =
    fetches-IsSpaced access ((5, none) ∷ (6, some keys) ∷ (40000000000, none) ∷ [])
