-- ===== src/Access/Verified.antt =====
-- What an identity that src/auth/cf_access.rs accepts has been through.
use mathlib.Core.Path.{subst}
use mathlib.Core.List.{Mem}
use mathlib.Core.Option.{some-injective}
use router.Prelude.{
  ℕ, ◌+◌, ◌-◌, ◌≡◌, ◌⊎◌, inl, inr, refl, ◌∙◌, ◌∷◌, ◌++◌, ◌&&◌, not, false, ltb, leb, is_some_and,
  map_or, if-intro, ands, unless-some, ap, sym, append_assoc, Bool, true, List, Option, none, some,
  ◌>>=◌, if◌then◌else◌, ◌==◌, arith, bind-some, map_or-intro, guard-some, test-some,
}
use router.Prelude.Int.{ℤ, pos, negsuc, add_i64, int_leb}
use router.Prelude.Found.{find-Mem, any-Mem}
use router.Prelude.Text.Laws.{split_once_sound}
use router.Prelude.Text.{Text, codes, text_Eq, text_eq_iff, contains, split_once}
use router.Backoff.{HeaderMap}
use router.Access.{
  CfAccessConfig, CfIdentity, Jwk, JwtHeaderClaims, Claims, Parts, CfAccess, split_parts, claims_ok,
  find_key, refresh, key_for, issuer, aud_ok, min_refresh_interval, Aud, identity_of,
  presented_token, read_claims, read_header, read_parts, read_token, verified, identity,
}

-- The key that is used is one of those held behind the call.
key_for-some :
    (access : CfAccess) (kid : Text) (now : ℕ) (fetched : Option (List Jwk)) (k : Jwk)
    → (key_for access kid now fetched).0 ≡ some k
    → find_key (key_for access kid now fetched).1.keys kid ≡ some k
unfolding key_for
key_for-some access kid now fetched k =
    map_or-intro (λ (r : Option Jwk × CfAccess). r.0 ≡ some k → find_key r.1.keys kid ≡ some k)
      (find_key (refresh access now fetched).1.keys kid, (refresh access now fetched).1)
      (λ j. (some j, access)) (find_key access.keys kid) (λ _ h. h) (λ j e h. e ∙ h)

-- Three parts without a dot, with a dot between two of them; the first two are what is signed.
abbrev IsSplit : Text → Parts → Type 0
IsSplit token parts =
    (token ≡ parts.signing_input ++ b'.' ∷ parts.sig_b64)
    × (parts.signing_input ≡ parts.header_b64 ++ b'.' ∷ parts.payload_b64)
    × (contains parts.header_b64 b'.' ≡ false)
    × (contains parts.payload_b64 b'.' ≡ false)
    × (contains parts.sig_b64 b'.' ≡ false)

split_parts-IsSplit :
    (token : Text) (parts : Parts) → split_parts token ≡ some parts → IsSplit token parts
unfolding split_parts
split_parts-IsSplit token parts e =
    let ((h, rest), f, e) = bind-some (split_once token b'.') _ parts e in
    let ((p, s), g, e) = bind-some (split_once rest b'.') _ parts e in
    let (same, plain) = split_once_sound token b'.' h rest f in
    let (same', plain') = split_once_sound rest b'.' p s g in
    let (last, e) = unless-some (contains s b'.') _ parts e in
    let signed : h ++ codes "." ++ p ≡ h ++ b'.' ∷ p = append_assoc h (codes ".") p in
    let parted : token ≡ (h ++ codes "." ++ p) ++ b'.' ∷ s =
      same
      ∙ ap (λ r. h ++ b'.' ∷ r) same'
      ∙ sym (append_assoc h (b'.' ∷ p) (b'.' ∷ s))
      ∙ ap (λ l. l ++ b'.' ∷ s) (sym signed) in
    subst (IsSplit token) (some-injective _ _ e) (parted, signed, plain, plain', last)

-- The audience of a token.
abbrev IsAudience : Text → Aud → Type 0
IsAudience aud (Aud.one a) = a ≡ aud
IsAudience aud (Aud.many v) = Mem aud v

-- Claims that the team's issuer makes for this application, not yet expired and already in force, each
-- with a leeway of 30 seconds.
abbrev IsFor : CfAccessConfig → Claims → ℤ → Type 0
IsFor cfg claims now =
    (claims.iss ≡ codes "https://" ++ cfg.team_domain)
    × IsAudience cfg.aud claims.aud
    × (int_leb (add_i64 claims.exp (pos 30)) now ≡ false)
    × (map_or true (λ n. int_leb (add_i64 n (negsuc 29)) now) claims.nbf ≡ true)

aud_ok-IsAudience : (a : Aud) (expected : Text) → aud_ok a expected ≡ true → IsAudience expected a
aud_ok-IsAudience (Aud.one a) expected h = (text_eq_iff a expected).0 h
aud_ok-IsAudience (Aud.many v) expected h =
    let (a, m, e) = any-Mem (λ a. a == expected) v h in
    subst (λ x. Mem x v) ((text_eq_iff a expected).0 e) m

claims_ok-IsFor :
    (cfg : CfAccessConfig) (c : Claims) (now : ℤ) → claims_ok cfg c now ≡ true → IsFor cfg c now
unfolding claims_ok issuer
claims_ok-IsFor cfg c now h =
    let is_iss = c.iss == codes "https://" ++ cfg.team_domain in
    let is_aud = aud_ok c.aud cfg.aud in
    let lasts = not (int_leb (add_i64 c.exp (pos 30)) now) in
    let begun = map_or true (λ n. int_leb (add_i64 n (negsuc 29)) now) c.nbf in
    let (h, nbf) = ands (is_iss && is_aud && lasts) begun h in
    let (h, exp) = ands (is_iss && is_aud) lasts h in
    let (iss, aud) = ands is_iss is_aud h in
    (
      (text_eq_iff c.iss (codes "https://" ++ cfg.team_domain)).0 iss,
      aud_ok-IsAudience c.aud cfg.aud aud,
      ground (arith, exp),
      nbf,
    )

-- An RSA key with the id, among those.
abbrev IsKey : List Jwk → Text → Jwk → Type 0
IsKey keys kid k = Mem k keys × (k.kid ≡ kid) × (k.kty ≡ codes "RSA")

find_key-IsKey :
    (keys : List Jwk) (kid : Text) (k : Jwk) → find_key keys kid ≡ some k → IsKey keys kid k
unfolding find_key
find_key-IsKey keys kid k h =
    let (m, e) = find-Mem (λ k. k.kid == kid && k.kty == codes "RSA") keys k h in
    let (same, rsa) = ands (k.kid == kid) (k.kty == codes "RSA") e in
    (m, (text_eq_iff k.kid kid).0 same, (text_eq_iff k.kty (codes "RSA")).0 rsa)

-- The keys held, or those of a fetch that is due, at least 30 seconds behind the last one.
abbrev pub AreKeys : CfAccess → ℕ → Option (List Jwk) → List Jwk → Type 0
AreKeys access now fetched keys =
    (keys ≡ access.keys)
    ⊎ ((fetched ≡ some keys)
        × (map_or true (λ t. leb (t + min_refresh_interval) now) access.last_fetch ≡ true))

is_due :
    (last : Option ℕ) (now : ℕ)
    → is_some_and last (λ t. ltb (now - t) min_refresh_interval) ≡ false
    → map_or true (λ t. leb (t + min_refresh_interval) now) last ≡ true
is_due none now h = refl
is_due (some t) now h = ground (arith, h)

fetched-AreKeys :
    (access : CfAccess) (now : ℕ) (fetched : Option (List Jwk))
    → map_or true (λ t. leb (t + min_refresh_interval) now) access.last_fetch ≡ true
    → AreKeys access now fetched (map_or access.keys (λ keys. keys) fetched)
fetched-AreKeys access now none due = inl refl
fetched-AreKeys access now (some keys) due = inr (refl, due)

refresh-AreKeys :
    (access : CfAccess) (now : ℕ) (fetched : Option (List Jwk))
    → AreKeys access now fetched (refresh access now fetched).1.keys
unfolding refresh
refresh-AreKeys access now fetched =
    if-intro (λ (r : Bool × CfAccess). AreKeys access now fetched r.1.keys)
      (is_some_and access.last_fetch (λ t. ltb (now - t) min_refresh_interval)) _ _ (λ _. inl refl)
      (λ far. fetched-AreKeys access now fetched (is_due access.last_fetch now far))

key_for-AreKeys :
    (access : CfAccess) (kid : Text) (now : ℕ) (fetched : Option (List Jwk))
    → AreKeys access now fetched (key_for access kid now fetched).1.keys
unfolding key_for
key_for-AreKeys access kid now fetched =
    map_or-intro (λ (r : Option Jwk × CfAccess). AreKeys access now fetched r.1.keys)
      (find_key (refresh access now fetched).1.keys kid, (refresh access now fetched).1)
      (λ j. (some j, access)) (find_key access.keys kid) (λ _. refresh-AreKeys access now fetched)
      (λ j _. inl refl)

module _ (header_of : Text → Option JwtHeaderClaims) (claims_of : Text → Option Claims)
    (signature_ok : Parts → Jwk → Bool) where
  -- A token in three parts, with the algorithm RS256, claims for this application that are in force,
  -- and a signature by the one of the keys that it names.
  abbrev pub IsVerified : CfAccessConfig → Text → ℤ → List Jwk → CfIdentity → Type 0
  IsVerified cfg token unix_now keys id =
      (parts : Parts) × (header : JwtHeaderClaims) × (claims : Claims) × (kid : Text) × (k : Jwk)
      × IsSplit token parts
      × (header_of parts.header_b64 ≡ some header)
      × (header.alg ≡ codes "RS256")
      × (header.kid ≡ some kid)
      × (claims_of parts.payload_b64 ≡ some claims)
      × IsFor cfg claims unix_now
      × IsKey keys kid k
      × (signature_ok parts k ≡ true)
      × (identity_of claims ≡ some id)

  -- What is read of a token without its key.
  abbrev IsRead : CfAccessConfig → Text → ℤ → Parts × Claims × Text → Type 0
  IsRead cfg token unix_now (parts, claims, kid) =
      (header : JwtHeaderClaims) × IsSplit token parts
      × (header_of parts.header_b64 ≡ some header)
      × (header.alg ≡ codes "RS256")
      × (header.kid ≡ some kid)
      × (claims_of parts.payload_b64 ≡ some claims)
      × IsFor cfg claims unix_now

  read_token-some :
      (cfg : CfAccessConfig) (token : Text) (unix_now : ℤ) (r : Parts × Claims × Text)
      → read_token header_of claims_of signature_ok cfg token unix_now ≡ some r
      → IsRead cfg token unix_now r
  unfolding read_token read_parts read_header read_claims
  read_token-some cfg token unix_now r h =
      let (parts, p, h) =
        bind-some (split_parts token) (read_parts header_of claims_of signature_ok cfg unix_now) r
          h in
      let (header, e, h) =
        bind-some (header_of parts.header_b64)
          (read_header header_of claims_of signature_ok cfg unix_now parts) r h in
      let (alg, h) = guard-some (header.alg == codes "RS256") _ r h in
      let (claims, c, h) =
        bind-some (claims_of parts.payload_b64)
          (read_claims header_of claims_of signature_ok cfg unix_now parts header) r h in
      let (fine, h) = guard-some (claims_ok cfg claims unix_now) _ r h in
      let (kid, k, h) = bind-some header.kid (λ kid. some (parts, claims, kid)) r h in
      subst (IsRead cfg token unix_now) (some-injective _ _ h) (
        header,
        split_parts-IsSplit token parts p,
        e,
        (text_eq_iff header.alg (codes "RS256")).0 alg,
        k,
        c,
        claims_ok-IsFor cfg claims unix_now fine,
      )

  verified-some :
      (access : CfAccess) (now : ℕ) (fetched : Option (List Jwk)) (parts : Parts) (claims : Claims)
      (kid : Text) (id : CfIdentity)
      → let (found, after) =
          verified header_of claims_of signature_ok access now fetched (parts, claims, kid) in
        found ≡ some id
        → (k : Jwk) × IsKey after.keys kid k
          × (signature_ok parts k ≡ true)
          × (identity_of claims ≡ some id)
  unfolding verified
  verified-some access now fetched parts claims kid id h =
      let (k, found, h) =
        bind-some (key_for access kid now fetched).0
          (λ k. if signature_ok parts k then identity_of claims else none) id h in
      let (signed, h) = test-some (signature_ok parts k) (identity_of claims) id h in
      (
        k,
        find_key-IsKey (key_for access kid now fetched).1.keys kid k
            (key_for-some access kid now fetched k found),
        signed,
        h,
      )

  pub identity-AreKeys :
      (cfg : CfAccessConfig) (access : CfAccess) (headers : HeaderMap) (unix_now : ℤ) (now : ℕ)
      (fetched : Option (List Jwk))
      → AreKeys access now fetched
          (identity header_of claims_of signature_ok cfg access headers unix_now now fetched).1.keys
  unfolding identity verified
  identity-AreKeys cfg access headers unix_now now fetched =
      map_or-intro (λ r. AreKeys access now fetched r.1.keys) (none, access)
        (verified header_of claims_of signature_ok access now fetched)
        (presented_token headers >>= λ token.
          read_token header_of claims_of signature_ok cfg token unix_now)
        (λ _. inl refl) (λ (parts, claims, kid) _. key_for-AreKeys access kid now fetched)

  -- Whatever the keys held, and whatever a fetch of keys brings: a request is given an identity only
  -- for the token in its header, in three parts, with the algorithm RS256, whose claims are for this
  -- application and in force, and whose signature is good by the key it names, one of the keys held
  -- behind the call. The identity is that of these claims.
  pub identity-IsVerified :
      (cfg : CfAccessConfig) (access : CfAccess) (headers : HeaderMap) (unix_now : ℤ) (now : ℕ)
      (fetched : Option (List Jwk)) (id : CfIdentity)
      → let (found, after) =
          identity header_of claims_of signature_ok cfg access headers unix_now now fetched in
        found ≡ some id
        → (token : Text) × (presented_token headers ≡ some token)
          × IsVerified cfg token unix_now after.keys id
  unfolding identity
  identity-IsVerified cfg access headers unix_now now fetched id =
      map_or-intro
        (λ r.
          r.0 ≡ some id
          → (token : Text) × (presented_token headers ≡ some token)
            × IsVerified cfg token unix_now r.1.keys id)
        (none, access) (verified header_of claims_of signature_ok access now fetched)
        (presented_token headers >>= λ token.
          read_token header_of claims_of signature_ok cfg token unix_now)
        (λ _ h. absurd (ground arith))
        (λ (parts, claims, kid) e h.
          let (token, t, e) =
            bind-some (presented_token headers)
              (λ token. read_token header_of claims_of signature_ok cfg token unix_now)
              (parts, claims, kid) e in
          let (header, p, q, alg, k, c, fine) =
            read_token-some cfg token unix_now (parts, claims, kid) e in
          let (key, found, signed, h) = verified-some access now fetched parts claims kid id h in
          (token, t, (parts, header, claims, kid, key, p, q, alg, k, c, fine, found, signed, h)))
