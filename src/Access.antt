-- ===== src/Access.antt =====
-- src/auth/cf_access.rs: who a request comes from. Base64, the JSON of a
-- token, RSA and SHA-256 are libraries, and parameters here.
pub mod Verified
pub mod Bearer
pub mod Config
pub mod Admitted
pub mod Attempts
pub mod Fetches
pub mod Tests
use router.Prelude.{
  ℕ, ◌+◌, ◌-◌, ◌*◌, Bool, true, false, ◌&&◌, ◌||◌, not, List, [], ◌∷◌, ◌++◌, Option, none, some,
  ◌>>=◌, if◌then◌else◌, ◌==◌, find, any, is_some, is_some_and, is_empty, ltb, or_else, map_or, map,
}
use router.Prelude.Int.{ℤ, pos, negsuc, add_i64, int_leb}
use router.Prelude.Text.{
  Text, codes, text_Eq, trim, to_ascii_lowercase, split_once, contains, len, strip_prefix,
}
use router.Prelude.Map.{get}
use router.Backoff.{HeaderMap, to_str, from_secs}
use router.Users.{Caller, admin, cf, anonymous, presented_key}

abbrev pub max_token_len : ℕ
max_token_len = 8 * 1024

abbrev pub min_refresh_interval : ℕ
min_refresh_interval = from_secs 30

pub record CfAccessConfig : Type 0 where
  pub team_domain : Text
  pub aud : Text
  pub admin_emails : List Text
  pub jwks_url : Text

unfoldable pub issuer : CfAccessConfig → Text
issuer cfg = codes "https://" ++ cfg.team_domain

pub record CfIdentity : Type 0 where
  pub email : Option Text
  pub common_name : Option Text

unfoldable pub caller_id : CfIdentity → Option Text
caller_id id = or_else id.email id.common_name >>= λ name. some (codes "cf:" ++ name)

unfoldable pub is_cf_admin : CfAccessConfig → CfIdentity → Bool
is_cf_admin cfg id = is_some_and id.email (λ e. any (λ a. a == e) cfg.admin_emails)

pub record Jwk : Type 0 where
  pub kid : Text
  pub kty : Text
  pub n : Text
  pub e : Text

pub record JwtHeaderClaims : Type 0 where
  pub alg : Text
  pub kid : Option Text

pub data Aud : Type 0 where
  one : Text → Aud
  many : List Text → Aud

pub record Claims : Type 0 where
  pub iss : Text
  pub aud : Aud
  pub exp : ℤ
  pub nbf : Option ℤ
  pub email : Option Text
  pub common_name : Option Text

-- The parts of a token, and what its signature is made of.
pub record Parts : Type 0 where
  pub header_b64 : Text
  pub payload_b64 : Text
  pub sig_b64 : Text
  pub signing_input : Text

unfoldable pub split_parts : Text → Option Parts
split_parts token = split_once token b'.' >>= λ (h, rest). split_once rest b'.' >>= λ (p, s).
    if contains s b'.'
    then none
    else some (record {
      header_b64 = h;
      payload_b64 = p;
      sig_b64 = s;
      signing_input = h ++ codes "." ++ p;
    })

abbrev pub aud_ok : Aud → Text → Bool
aud_ok (Aud.one a) expected = a == expected
aud_ok (Aud.many v) expected = any (λ a. a == expected) v

-- `claims_ok`: times are in seconds, with a leeway of 30.
unfoldable pub claims_ok : CfAccessConfig → Claims → ℤ → Bool
claims_ok cfg c now =
    c.iss == issuer cfg
    && aud_ok c.aud cfg.aud
    && not (int_leb (add_i64 c.exp (pos 30)) now)
    && map_or true (λ n. int_leb (add_i64 n (negsuc 29)) now) c.nbf

unfoldable pub find_key : List Jwk → Text → Option Jwk
find_key keys kid = find (λ k. k.kid == kid && k.kty == codes "RSA") keys

-- What `CfAccess` holds: the keys, and the time of the last fetch.
pub record CfAccess : Type 0 where
  pub keys : List Jwk
  pub last_fetch : Option ℕ

-- `refresh`: whether the keys are fetched, and the state then. `fetched` is what a fetch would bring.
unfoldable pub refresh : CfAccess → ℕ → Option (List Jwk) → Bool × CfAccess
refresh access now fetched =
    if is_some_and access.last_fetch (λ t. ltb (now - t) min_refresh_interval)
    then (false, access)
    else (true, record { keys = map_or access.keys (λ keys. keys) fetched; last_fetch = some now })

-- The key, and the state behind the refresh that an unknown one asks for.
unfoldable pub key_for : CfAccess → Text → ℕ → Option (List Jwk) → Option Jwk × CfAccess
key_for access kid now fetched =
    let refreshed = (refresh access now fetched).1 in
    map_or (find_key refreshed.keys kid, refreshed) (λ k. (some k, access))
      (find_key access.keys kid)

unfoldable pub filled_lower : Option Text → Option Text
filled_lower email =
    email >>= λ e. let e = to_ascii_lowercase (trim e) in if is_empty e then none else some e

unfoldable pub filled_name : Option Text → Option Text
filled_name name = name >>= λ c. if is_empty (trim c) then none else some c

unfoldable pub identity_of : Claims → Option CfIdentity
identity_of claims =
    let email = filled_lower claims.email in
    let common_name = filled_name claims.common_name in
    if is_some email || is_some common_name
    then some (record { email = email; common_name = common_name })
    else none

unfoldable pub presented_token : HeaderMap → Option Text
presented_token headers = get headers (codes "cf-access-jwt-assertion") >>= λ v. to_str v >>= λ t.
    let t = trim t in if is_empty t || ltb max_token_len (len t) then none else some t

module _ (header_of : Text → Option JwtHeaderClaims) (claims_of : Text → Option Claims)
    (signature_ok : Parts → Jwk → Bool) where
  -- Everything about a token that needs no key: the parts, its claims and the id of its key.
  unfoldable pub read_claims :
      CfAccessConfig → ℤ → Parts → JwtHeaderClaims → Claims → Option (Parts × Claims × Text)
  read_claims cfg unix_now parts header claims =
      if not (claims_ok cfg claims unix_now)
      then none
      else (header.kid >>= λ kid. some (parts, claims, kid))

  unfoldable pub read_header :
      CfAccessConfig → ℤ → Parts → JwtHeaderClaims → Option (Parts × Claims × Text)
  read_header cfg unix_now parts header =
      if not (header.alg == codes "RS256")
      then none
      else (claims_of parts.payload_b64 >>= read_claims cfg unix_now parts header)

  unfoldable pub read_parts : CfAccessConfig → ℤ → Parts → Option (Parts × Claims × Text)
  read_parts cfg unix_now parts = header_of parts.header_b64 >>= read_header cfg unix_now parts

  unfoldable pub read_token : CfAccessConfig → Text → ℤ → Option (Parts × Claims × Text)
  read_token cfg token unix_now = split_parts token >>= read_parts cfg unix_now

  unfoldable pub verified :
      CfAccess → ℕ → Option (List Jwk) → Parts × Claims × Text → Option CfIdentity × CfAccess
  verified access now fetched (parts, claims, kid) =
      let (key, after) = key_for access kid now fetched in
      (key >>= λ k. (if signature_ok parts k then identity_of claims else none), after)

  -- `identity`: who stands behind the request, and the state of the keys.
  unfoldable pub identity :
      CfAccessConfig
      → CfAccess
      → HeaderMap
      → ℤ
      → ℕ
      → Option (List Jwk)
      → Option CfIdentity × CfAccess
  identity cfg access headers unix_now now fetched =
      map_or (none, access) (verified access now fetched)
        (presented_token headers >>= λ token. read_token cfg token unix_now)
