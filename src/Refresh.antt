-- ===== src/Refresh.antt =====
-- src/providers/refresh_lock.rs: a provider's single-use refresh token is exchanged under the
-- provider's lock, and the new tokens are written to its row of the database.
pub mod Waiters
mod Tests
use router.Prelude.{
  ℕ, zero, suc, ◌+◌, Bool, true, false, not, ◌&&◌, Option, none, some, List, [], ◌∷◌, ◌++◌, is_some,
  if◌then◌else◌,
}
use router.Prelude.Text.{Text, text_eq, codes}
use router.Model.{Provider, OAuthState}
use router.Error.{Result, ok, err, RefreshError}
use router.Credentials.{Credentials, from_provider_and_oauth}

abbrev pub persist_retries : ℕ
persist_retries = 3

-- What the database and the upstream answer while one caller holds the lock: whether the row can be
-- read, the outcome of `refresh_credentials`, and the error of each write, if it has one.
pub record Answers : Type 0 where
  pub readable : Bool
  pub refreshed : Credentials → Result RefreshError Credentials
  pub write_error : ℕ → Option Text

pub data Persisted : Type 0 where
  written : Persisted
  gave_up : Text → Persisted

-- The loop of the writes, before the attempt of the given number; so many retries are left.
pub persist_from : (ℕ → Option Text) → (retries attempt : ℕ) → Persisted
persist_from write_error zero attempt = elim (write_error attempt) [
  | none ↦ Persisted.written
  | some e ↦ Persisted.gave_up e
]
persist_from write_error (suc retries) attempt =
    let rest = persist_from write_error retries (suc attempt) in
    elim (write_error attempt) [ none ↦ Persisted.written | some e ↦ rest ]

-- `Option<String> !=`.
abbrev differs : Option Text → Option Text → Bool
differs none none = false
differs none (some t) = true
differs (some s) none = true
differs (some s) (some t) = not (text_eq s t)

-- Another caller has refreshed the tokens meanwhile.
abbrev pub is_fresh : OAuthState → Credentials → Bool
is_fresh current creds =
    is_some current.access_token && differs current.access_token creds.access_token

-- `upsert_oauth_tokens`.
abbrev pub row_of : Credentials → OAuthState
row_of creds = record {
  access_token = creds.access_token;
  refresh_token = creds.refresh_token;
  id_token = creds.id_token;
  access_expires_at = creds.access_expires_at;
  provider_data = creds.provider_data;
}

-- The caller's result, the row, and how often a refresh token was sent upstream.
pub record Outcome : Type 0 where
  pub result : Result RefreshError Credentials
  pub row : Option OAuthState
  pub spent : ℕ

abbrev after_persist : Credentials → Option OAuthState → Persisted → Outcome
after_persist new_creds row Persisted.written = record {
  result = ok new_creds;
  row = some (row_of new_creds);
  spent = 1;
}
after_persist new_creds row (Persisted.gave_up e) = record {
  result = err (RefreshError.transient (codes "persist refreshed tokens: " ++ e));
  row = row;
  spent = 1;
}

abbrev after_refresh : Answers → Option OAuthState → Result RefreshError Credentials → Outcome
after_refresh a row (err e) = record { result = err e; row = row; spent = 1 }
after_refresh a row (ok new_creds) =
    after_persist new_creds row (persist_from a.write_error persist_retries 0)

pub exchange : Answers → Credentials → Option OAuthState → Outcome
unfolding persist_from
exchange a creds row = after_refresh a row (a.refreshed creds)

pub refresh_and_persist : Provider → Answers → Credentials → Option OAuthState → Outcome
unfolding exchange from_provider_and_oauth
refresh_and_persist provider a creds none = exchange a creds none
refresh_and_persist provider a creds (some current) =
    if a.readable && is_fresh current creds
    then record {
      result = ok (from_provider_and_oauth provider (some current));
      row = some current;
      spent = 0;
    }
    else exchange a creds (some current)

-- Callers that hold the same credentials take the provider's lock one after the other.
pub run_waiters :
    Provider
    → List Answers
    → Credentials
    → Option OAuthState
    → List (Result RefreshError Credentials) × ℕ
unfolding refresh_and_persist
run_waiters provider [] creds row = ([], 0)
run_waiters provider (a ∷ others) creds row =
    let o = refresh_and_persist provider a creds row in
    let (results, spent) = run_waiters provider others creds o.row in
    (o.result ∷ results, o.spent + spent)
