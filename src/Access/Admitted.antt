-- ===== src/Access/Admitted.antt =====
-- Whom src/auth/middleware.rs lets through: callers of the API, and administrators.
use mathlib.Core.Path.{subst}
use mathlib.Core.List.{Mem}
use mathlib.Core.Option.{some-injective}
use router.Prelude.{
  ℕ, ◌<◌, ◌==◌, ◌≡◌, refl, sym, Bool, true, false, Option, none, some, ◌>>=◌, if◌then◌else◌, List,
  or_else, arith, bind-some, map_or-intro, if-intro, ◌⊎◌, inl, inr, Bool-cases, is_some,
  is_some_and,
}
use router.Prelude.Text.{Text, text_Eq, text_eq_iff}
use router.Prelude.Map.{get}
use router.Prelude.Found.{any-Mem}
use router.Error.{AppError, Result, ok, err}
use router.Backoff.{HeaderMap}
use router.RateLimit.{IpAddr, is_locked_out}
use router.Sessions.{Sessions, Admission, SessionRow, admit, csrf_header_ok, validate_session}
use router.Users.{Caller, admin, cf, presented_key}
use router.Users.Queries.{Users, authenticate}
use router.Sessions.Lifetime.{admit-admitted, validate_session-some}
use router.Access.{
  CfAccessConfig, CfIdentity, CfAccess, Jwk, JwtHeaderClaims, Claims, Parts, caller_id, is_cf_admin,
  identity, presented_token,
}
use router.Access.Verified.{IsVerified, AreKeys, identity-IsVerified, identity-AreKeys}
use router.Access.Bearer.{
  Clocks, AuthState, Verdict, secret_matches, effective_ip, key_caller, cf_identity, require_bearer,
  admit_bearer, admit_cf, require_admin_session, after_cookie, bearer_token, extract_cookie,
  is_https,
}

or_else-some :
    {A : Type 0} (a b : Option A) (c : A) → or_else a b ≡ some c → (a ≡ some c) ⊎ (b ≡ some c)
or_else-some none b c h = inr h
or_else-some (some a) b c h = inl h

is_some_and-true :
    {A : Type 0} (o : Option A) (f : A → Bool)
    → is_some_and o f ≡ true
    → (a : A) × (o ≡ some a) × (f a ≡ true)
is_some_and-true none f h = absurd (ground (arith, h))
is_some_and-true (some a) f h = (a, refl, h)

passed_test :
    (b : Bool) (token : Option Text)
    → (if b then Verdict.passed none else Verdict.missing_csrf) ≡ Verdict.passed token
    → b ≡ true
passed_test true token h = refl
passed_test false token h = absurd (ground (arith, h))

-- An address on the list of administrators.
abbrev pub IsListed : CfAccessConfig → CfIdentity → Type 0
IsListed cfg id = (e : Text) × (id.email ≡ some e) × Mem e cfg.admin_emails

is_cf_admin-IsListed :
    (cfg : CfAccessConfig) (id : CfIdentity) → is_cf_admin cfg id ≡ true → IsListed cfg id
unfolding is_cf_admin
is_cf_admin-IsListed cfg id h =
    let (e, m, h) = is_some_and-true id.email _ h in
    let (a, mem, same) = any-Mem (λ a. a == e) cfg.admin_emails h in
    (e, m, subst (λ x. Mem x cfg.admin_emails) ((text_eq_iff a e).0 same) mem)

module _ (digest : Text → List ℕ) (hash_key hash_token : Text → Text)
    (parse_ip : Text → Option IpAddr) (header_of : Text → Option JwtHeaderClaims)
    (claims_of : Text → Option Claims) (signature_ok : Parts → Jwk → Bool) where
  -- A key of the program: the shared secret, for the administrator, or the key of an active user.
  abbrev pub IsKeyOf : Text → Result AppError Users → HeaderMap → Caller → Type 0
  IsKeyOf secret db headers c =
      (token : Text) × (presented_key headers ≡ some token)
      × (((secret_matches digest token secret ≡ true) × (c ≡ admin))
          ⊎ ((users : Users) × (db ≡ ok users) × (authenticate hash_key users token ≡ some c)))

  -- An identity that a verified token of this application gives, by one of the keys that are held or
  -- that a fetch which is due has brought.
  abbrev pub IsVouched :
      Option (CfAccessConfig × CfAccess)
      → HeaderMap
      → Clocks
      → Option (List Jwk)
      → CfAccessConfig
      → CfIdentity
      → Type 0
  IsVouched held headers clocks fetched cfg id =
      (access : CfAccess) × (keys : List Jwk) × (token : Text) × (held ≡ some (cfg, access))
      × AreKeys access clocks.instant_now fetched keys
      × (presented_token headers ≡ some token)
      × IsVerified header_of claims_of signature_ok cfg token clocks.unix_now keys id

  of_users :
      (db : Result AppError Users) (token : Text) (c : Caller)
      → (elim db [ err e ↦ none | ok users ↦ authenticate hash_key users token ]) ≡ some c
      → (users : Users) × (db ≡ ok users) × (authenticate hash_key users token ≡ some c)
  of_users (err e) token c h = absurd (ground arith)
  of_users (ok users) token c h = (users, refl, h)

  key_caller-some :
      (secret : Text) (db : Result AppError Users) (headers : HeaderMap) (c : Caller)
      → (presented_key headers >>= key_caller digest hash_key secret db) ≡ some c
      → IsKeyOf secret db headers c
  unfolding key_caller
  key_caller-some secret db headers c h =
      let (token, p, h) = bind-some (presented_key headers) _ c h in
      (
        token,
        p,
        elim (Bool-cases (secret_matches digest token secret)) [
          | inl e ↦ inl (e, sym (some-injective _ _ (rw e at (h))))
          | inr e ↦ inr (of_users db token c (rw e at (h)))
        ],
      )

  cf_identity-some :
      (held : Option (CfAccessConfig × CfAccess)) (headers : HeaderMap) (clocks : Clocks)
      (fetched : Option (List Jwk)) (cfg : CfAccessConfig) (id : CfIdentity)
      → (cf_identity header_of claims_of signature_ok held headers clocks fetched).0
        ≡ some (cfg, id)
      → IsVouched held headers clocks fetched cfg id
  unfolding cf_identity
  cf_identity-some none headers clocks fetched cfg id h = absurd (ground arith)
  cf_identity-some (some (cfg', access)) headers clocks fetched cfg id h =
      let (id', e, h) =
        bind-some
          (identity header_of claims_of signature_ok cfg' access headers clocks.unix_now
            clocks.instant_now fetched).0
          (λ id. some (cfg', id)) (cfg, id) h in
      let (token, t, good) =
        identity-IsVerified header_of claims_of signature_ok cfg' access headers clocks.unix_now
          clocks.instant_now fetched id' e in
      let keys : List Jwk =
        (identity header_of claims_of signature_ok cfg' access headers clocks.unix_now
          clocks.instant_now fetched).1.keys in
      subst
        (λ (r : CfAccessConfig × CfIdentity).
          IsVouched (some (cfg', access)) headers clocks fetched r.0 r.1)
        (some-injective _ _ h)
        (
          access,
          keys,
          token,
          refl,
          identity-AreKeys header_of claims_of signature_ok cfg' access headers clocks.unix_now
              clocks.instant_now fetched,
          t,
          good,
        )

  -- With the secret required, whoever is let through under /v1 is known: by the shared secret, and then
  -- as the administrator; by the key of a user that is not revoked, and then as that user; or by a
  -- token of Cloudflare Access for this application, in force and signed by the RSA key that it names
  -- among those held or just fetched, and then under the name in its claims.
  pub require_bearer-IsKnown :
      (state : AuthState) (db : Result AppError Users) (headers : HeaderMap) (clocks : Clocks)
      (fetched : Option (List Jwk)) (c : Caller)
      → (require_bearer digest hash_key hash_token parse_ip header_of claims_of signature_ok state
          true db headers clocks fetched).0
        ≡ some c
      → IsKeyOf state.shared_secret db headers c
        ⊎ ((cfg : CfAccessConfig) × (id : CfIdentity) × (name : Text) × IsVouched state.cf_access
              headers clocks fetched cfg id
            × (caller_id id ≡ some name)
            × (c ≡ cf name))
  unfolding require_bearer
  require_bearer-IsKnown state db headers clocks fetched c h =
      let vouched : Option (CfAccessConfig × CfIdentity) =
        (cf_identity header_of claims_of signature_ok state.cf_access headers clocks fetched).0 in
      elim (or_else-some
        (presented_key headers >>= key_caller digest hash_key state.shared_secret db) _ c h) [
          | inl key ↦ inl (key_caller-some state.shared_secret db headers c key)
          | inr h ↦ elim (or_else-some _ none c h) [
            | inl h ↦
                let ((cfg, id), v, h) =
                  bind-some vouched (λ (cfg, id). caller_id id >>= λ name. some (cf name)) c h in
                let (name, n, h) = bind-some (caller_id id) (λ name. some (cf name)) c h in
                inr (
                  cfg,
                  id,
                  name,
                  cf_identity-some state.cf_access headers clocks fetched cfg id v,
                  n,
                  sym (some-injective _ _ h),
                )
            | inr h ↦ absurd (ground arith)
          ]
        ]

  -- A session cookie whose session is valid.
  abbrev pub HasSession : AuthState → HeaderMap → Clocks → Type 0
  HasSession state headers clocks =
      (raw : Text) × (row : SessionRow) × (extract_cookie headers (is_https headers) ≡ some raw)
      × (get state.sessions (hash_token raw) ≡ some row)
      × (clocks.utc_now < row.expires_at)

  -- The shared secret as the bearer token, from no address that is locked out.
  abbrev pub HasSecret : AuthState → HeaderMap → Option IpAddr → ℕ → Type 0
  HasSecret state headers peer now =
      (token : Text) × (bearer_token headers ≡ some token)
      × (secret_matches digest token state.shared_secret ≡ true)
      × (is_some_and
            (peer >>= λ p. some (effective_ip parse_ip (is_some state.cf_access) p headers))
            (λ a. is_locked_out state.login_attempts a now)
          ≡ false)

  -- What lets an administrator's request go on.
  abbrev pub MayAdminister :
      AuthState → Text → HeaderMap → Option IpAddr → Clocks → Option (List Jwk) → Type 0
  MayAdminister state method headers peer clocks fetched =
      (HasSession state headers clocks × (csrf_header_ok method headers ≡ true))
      ⊎ ((cfg : CfAccessConfig) × (id : CfIdentity) × IsVouched state.cf_access headers clocks
            fetched cfg id
          × IsListed cfg id
          × (csrf_header_ok method headers ≡ true))
      ⊎ HasSecret state headers peer clocks.instant_now

  -- An answer that is right if it lets the request go on.
  abbrev IsAdmin :
      AuthState
      → Text
      → HeaderMap
      → Option IpAddr
      → Clocks
      → Option (List Jwk)
      → Verdict × AuthState
      → Type 0
  IsAdmin state method headers peer clocks fetched (verdict, after) =
      (token : Option Text)
      → verdict ≡ Verdict.passed token
      → MayAdminister state method headers peer clocks fetched

  admit_bearer-HasSecret :
      (state : AuthState) (headers : HeaderMap) (peer : Option IpAddr) (now : ℕ)
      (token : Option Text)
      → (admit_bearer digest hash_key hash_token parse_ip header_of claims_of signature_ok state
          headers peer now).0
        ≡ Verdict.passed token
      → HasSecret state headers peer now
  unfolding admit_bearer
  admit_bearer-HasSecret state headers peer now found =
      let ip = peer >>= λ p. some (effective_ip parse_ip (is_some state.cf_access) p headers) in
      map_or-intro
        (λ (r : Verdict × AuthState). r.0 ≡ Verdict.passed found → HasSecret state headers peer now)
        (Verdict.unauthorized, state) _ (bearer_token headers) (λ _ h. absurd (ground (arith, h)))
        (λ token t.
          if-intro
            (λ (r : Verdict × AuthState).
              r.0 ≡ Verdict.passed found → HasSecret state headers peer now)
            (is_some_and ip (λ a. is_locked_out state.login_attempts a now))
            (Verdict.too_many_attempts, state) _ (λ _ h. absurd (ground (arith, h)))
            (λ free.
              if-intro
                (λ (r : Verdict × AuthState).
                  r.0 ≡ Verdict.passed found → HasSecret state headers peer now)
                (secret_matches digest token state.shared_secret) (Verdict.passed none, state) _
                (λ good h. (token, t, good, free)) (λ _ h. absurd (ground (arith, h)))))

  of_cookie :
      (state : AuthState) (method : Text) (headers : HeaderMap) (peer : Option IpAddr)
      (clocks : Clocks) (fetched : Option (List Jwk)) (raw : Text) (rest : Verdict × AuthState)
      (answer : Admission × Sessions)
      → extract_cookie headers (is_https headers) ≡ some raw
      → ((hash : Text)
          → answer.0 ≡ Admission.admitted hash
          → (row : SessionRow) × (validate_session hash_token state.sessions raw clocks.utc_now
              ≡ some row)
            × (csrf_header_ok method headers ≡ true)
            × (hash ≡ hash_token raw))
      → IsAdmin state method headers peer clocks fetched rest
      → IsAdmin state method headers peer clocks fetched (after_cookie state rest answer)
  unfolding after_cookie
  of_cookie state method headers peer clocks fetched raw rest (Admission.admitted hash, sessions) c
        known _ token h =
      let (row, v, csrf, _) = known hash refl in
      let (held, lasts) =
        validate_session-some hash_token state.sessions raw clocks.utc_now row v in
      inl ((raw, row, c, held, lasts), csrf)
  of_cookie state method headers peer clocks fetched raw rest (Admission.missing_csrf, sessions) c
        known _ token h =
      absurd (ground (arith, h))
  of_cookie state method headers peer clocks fetched raw rest (Admission.no_session, sessions) c
        known otherwise token h =
      otherwise token h

  pub cf_identity-is_some :
      (held : Option (CfAccessConfig × CfAccess)) (headers : HeaderMap) (clocks : Clocks)
      (fetched : Option (List Jwk))
      → is_some (cf_identity header_of claims_of signature_ok held headers clocks fetched).1
        ≡ is_some held
  unfolding cf_identity
  cf_identity-is_some none headers clocks fetched = refl
  cf_identity-is_some (some held) headers clocks fetched = refl

  admit_cf-IsAdmin :
      (state : AuthState) (method : Text) (headers : HeaderMap) (peer : Option IpAddr)
      (clocks : Clocks) (fetched : Option (List Jwk))
      → IsAdmin state method headers peer clocks fetched (
          admit_cf digest hash_key hash_token parse_ip header_of claims_of signature_ok state method
            headers peer clocks fetched)
  unfolding admit_cf
  admit_cf-IsAdmin state method headers peer clocks fetched =
      let vouched : Option (CfAccessConfig × CfIdentity) =
        (cf_identity header_of claims_of signature_ok state.cf_access headers clocks fetched).0 in
      let held : Option (CfAccessConfig × CfAccess) =
        (cf_identity header_of claims_of signature_ok state.cf_access headers clocks fetched).1 in
      let after : AuthState = record state { cf_access = held } in
      let same = cf_identity-is_some state.cf_access headers clocks fetched in
      if-intro (IsAdmin state method headers peer clocks fetched)
        (is_some_and vouched (λ (cfg, id). is_cf_admin cfg id))
        (if csrf_header_ok method headers then Verdict.passed none else Verdict.missing_csrf, after)
        _
        (λ listed token h.
          let ((cfg, id), v, a) =
            is_some_and-true vouched (λ (cfg, id). is_cf_admin cfg id) listed in
          inr (
            inl (
              cfg,
              id,
              cf_identity-some state.cf_access headers clocks fetched cfg id v,
              is_cf_admin-IsListed cfg id a,
              passed_test (csrf_header_ok method headers) token h,
            )))
        (λ _ found h.
          let (token, t, good, free) =
            admit_bearer-HasSecret after headers peer clocks.instant_now found h in
          inr (inr (token, t, good, rw same at (free))))

  -- An administrator's request goes on only in one of three ways: with the cookie of a session that is
  -- held and has not expired, and the header against forgery, which only a GET may lack; with a token
  -- of Cloudflare Access for an address on the list of administrators, for this application, in force
  -- and signed by the RSA key that it names among those held or just fetched, and that header too; or
  -- with the shared secret as its bearer token, from no address that is locked out for failed
  -- attempts.
  pub require_admin_session-IsAdmin :
      (state : AuthState) (method : Text) (headers : HeaderMap) (peer : Option IpAddr)
      (clocks : Clocks) (fetched : Option (List Jwk)) (token : Option Text)
      → (require_admin_session digest hash_key hash_token parse_ip header_of claims_of signature_ok
          state method headers peer clocks fetched).0
        ≡ Verdict.passed token
      → MayAdminister state method headers peer clocks fetched
  unfolding require_admin_session
  require_admin_session-IsAdmin state method headers peer clocks fetched =
      let rest = admit_cf-IsAdmin state method headers peer clocks fetched in
      map_or-intro (IsAdmin state method headers peer clocks fetched) _ _
        (extract_cookie headers (is_https headers)) (λ _. rest)
        (λ raw c.
          of_cookie state method headers peer clocks fetched raw
            (admit_cf digest hash_key hash_token parse_ip header_of claims_of signature_ok state
              method headers peer clocks fetched)
            (admit hash_token state.sessions raw method headers clocks.utc_now) c
            (admit-admitted hash_token state.sessions raw method headers clocks.utc_now) rest)
