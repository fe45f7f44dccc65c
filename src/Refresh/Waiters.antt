-- ===== src/Refresh/Waiters.antt =====
-- Callers of src/providers/refresh_lock.rs that wait for one another.
use native.Mathlib.Decide.{dec_le}
use router.Prelude.{
  ℕ, zero, suc, ◌+◌, ◌≤◌, ◌<◌, ◌≡◌, ◌↔◌, refl, true, false, Option, none, some, List, [], ◌∷◌,
  arith, All, Option-cases, Bool-cases, inl, inr,
}
use router.Prelude.Text.{Text}
use router.Model.{Provider, OAuthState}
use router.Error.{Result, ok, RefreshError}
use router.Credentials.{Credentials, from_provider_and_oauth}
use router.Refresh.{
  Answers, Persisted, persist_from, persist_retries, is_fresh, row_of, exchange,
  refresh_and_persist, run_waiters,
}

later :
    (write_error : ℕ → Option Text) (msg : Text) (attempt n : ℕ)
    → attempt ≤ n
    → write_error n ≡ none
    → write_error attempt ≡ some msg
    → attempt < n
later write_error msg attempt n le f e = elim (dec_le (suc attempt) n) [
  | yes h ↦ h
  | no h ↦ let d : n ≡ attempt = omega arith in absurd cc
]

-- The tokens are written exactly if one of the attempts succeeds.
persist_from_lem :
    (write_error : ℕ → Option Text) (retries attempt : ℕ)
    → (persist_from write_error retries attempt ≡ Persisted.written)
      ↔ ((n : ℕ) × (attempt ≤ n) × (n ≤ attempt + retries) × (write_error n ≡ none))
unfolding persist_from
persist_from_lem write_error zero attempt = elim (Option-cases (write_error attempt)) [
  | inl e ↦ rw (e, persist_from) (λ _. (attempt, omega arith, omega arith, e), λ _. refl)
  | inr (msg, e) ↦
      rw (e, persist_from)
        (λ h. absurd cc, λ (n, l, g, f). let d : n ≡ attempt = omega arith in absurd cc)
]
persist_from_lem write_error (suc retries) attempt =
    let (to, from) = persist_from_lem write_error retries (suc attempt) in
    elim (Option-cases (write_error attempt)) [
      | inl e ↦ rw (e, persist_from) (λ _. (attempt, omega arith, omega arith, e), λ _. refl)
      | inr (msg, e) ↦
          rw (e, persist_from)
            (
              λ h. let (n, l, g, f) = to h in (n, omega arith, omega arith, f),
              λ (n, l, g, f). from (n, later write_error msg attempt n l f e, omega arith, f),
            )
    ]

module _ (provider : Provider) (creds : Credentials) where
  -- Once the row holds fresh tokens, every caller that can read it gets them.
  reuse :
      (current : OAuthState) (others : List Answers)
      → is_fresh current creds ≡ true
      → All (λ a. a.readable ≡ true) others
      → ((run_waiters provider others creds (some current)).1 ≡ 0)
        × All
            (λ r. r ≡ ok (from_provider_and_oauth provider (some current)))
            (run_waiters provider others creds (some current)).0
  unfolding run_waiters refresh_and_persist
  reuse current [] h rs = (refl, tt)
  reuse current (a ∷ others) h (r, rs) =
      let (spent, same) = reuse current others h rs in
      rw (r, h, refresh_and_persist, run_waiters) (omega arith, (refl, same))

  -- The access token that a caller ends up with.
  abbrev pub HasToken : Option Text → Result RefreshError Credentials → Type 0
  HasToken token r = (c : Credentials) × (r ≡ ok c) × (c.access_token ≡ token)

  All-reuse :
      (current : OAuthState) (rs : List (Result RefreshError Credentials))
      → All (λ r. r ≡ ok (from_provider_and_oauth provider (some current))) rs
      → All (HasToken current.access_token) rs
  unfolding from_provider_and_oauth
  All-reuse current [] h = tt
  All-reuse current (r ∷ rs) (e, h) =
      ((from_provider_and_oauth provider (some current), e, refl), All-reuse current rs h)

  exchange-written :
      (a : Answers) (row : Option OAuthState) (new_creds : Credentials)
      → a.refreshed creds ≡ ok new_creds
      → persist_from a.write_error persist_retries 0 ≡ Persisted.written
      → exchange a creds row
        ≡ record { result = ok new_creds; row = some (row_of new_creds); spent = 1 }
  unfolding exchange
  exchange-written a row new_creds e f = rw (e, f) refl

  -- When the first of several callers with the same stale credentials exchanges the refresh token,
  -- gets another access token and can write it at one of four attempts, the later callers, who read
  -- the row after it, all get that access token: the refresh token is sent upstream just once.
  pub run_waiters-once :
      (a : Answers) (others : List Answers) (current : OAuthState) (new_creds : Credentials) (n : ℕ)
      → is_fresh current creds ≡ false
      → a.refreshed creds ≡ ok new_creds
      → is_fresh (row_of new_creds) creds ≡ true
      → n ≤ persist_retries
      → a.write_error n ≡ none
      → All (λ b. b.readable ≡ true) others
      → let (results, spent) = run_waiters provider (a ∷ others) creds (some current) in
        (spent ≡ 1) × All (HasToken new_creds.access_token) results
  unfolding run_waiters refresh_and_persist
  run_waiters-once a others current new_creds n stale e fresh le w rs =
      let done =
        (persist_from_lem a.write_error persist_retries 0).1 (n, omega arith, omega arith, w) in
      let o = exchange-written a (some current) new_creds e done in
      let (spent, same) = reuse (row_of new_creds) others fresh rs in
      elim (Bool-cases a.readable) [
        | inl r ↦
            rw (r, stale, refresh_and_persist, o)
              (omega arith, ((new_creds, refl, refl), All-reuse (row_of new_creds) _ same))
        | inr r ↦
            rw (r, refresh_and_persist, o)
              (omega arith, ((new_creds, refl, refl), All-reuse (row_of new_creds) _ same))
      ]
