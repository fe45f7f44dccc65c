-- ===== src/Sessions/Lifetime.antt =====
-- How long a session of src/admin/auth/session.rs lives.
use router.Prelude.{
  ℕ, ◌+◌, ◌≤◌, ◌<◌, ◌≡◌, ◌⊎◌, refl, ap, sym, ◌∙◌, Bool, true, false, none, some, [], ◌∷◌, arith,
  All, retain, Bool-cases, Option-cases, inl, inr, max, ltb, leb, if◌then◌else◌,
}
use router.Prelude.Map.{get, insert, modify, get-modify}
use router.Prelude.Text.{Text, text_Eq, text_eq}
use router.Prelude.Text.Laws.{text_eq_refl}
use router.Backoff.{HeaderMap}
use router.Sessions.{
  csrf_header_ok, SessionRow, Sessions, session_ttl, absolute_lifetime, insert_session,
  create_session, validate_session, renew_if_needed, is_early, new_expiry, admit, admitted,
  missing_csrf, no_session, delete_all_sessions, delete_all_sessions_except, delete_expired,
}

hash_of : {h k : Text} → admitted k ≡ admitted h → h ≡ k
hash_of e = sym (ap (λ a. elim a [ admitted k ↦ k | missing_csrf ↦ [] | no_session ↦ [] ]) e)

-- A session expires within the absolute lifetime.
abbrev IsBounded : Text × SessionRow → Type 0
IsBounded (hash, row) = row.expires_at ≤ row.created_at + absolute_lifetime

All-retain :
    (p : Text × SessionRow → Bool) (table : Sessions)
    → All IsBounded table
    → All IsBounded (retain p table)
All-retain p [] h = tt
All-retain p (r ∷ table) (b, h) = elim (Bool-cases (p r)) [
  | inl e ↦ rw (e, retain) (b, All-retain p table h)
  | inr e ↦ rw (e, retain) (All-retain p table h)
]

All-insert :
    (table : Sessions) (hash : Text) (row : SessionRow)
    → IsBounded (hash, row)
    → All IsBounded table
    → All IsBounded (insert table hash row)
unfolding insert
All-insert [] hash row b h = (b, tt)
All-insert ((k, r) ∷ table) hash row b (c, h) = elim (Bool-cases (text_eq k hash)) [
  | inl e ↦ rw (e, insert) (b, h)
  | inr e ↦ rw (e, insert) (c, All-insert table hash row b h)
]

-- The renewal of a row that the table holds.
All-modify :
    (table : Sessions) (hash : Text) (row : SessionRow) (now : ℕ)
    → get table hash ≡ some row
    → All IsBounded table
    → All IsBounded (modify table hash (λ r. record r { expires_at = new_expiry row now }))
unfolding modify get
All-modify [] hash row now e h = tt
All-modify ((k, r) ∷ table) hash row now e (c, h) = elim (Bool-cases (text_eq k hash)) [
  | inl s ↦
      let f : some r ≡ some row = rw (s, get) at e in
      let g : r ≡ row = cc in rw (s, modify) (rw g (omega arith), h)
  | inr s ↦ rw (s, modify) (c, All-modify table hash row now (rw (s, get) at e) h)
]

get-All :
    (table : Sessions) (hash : Text) (row : SessionRow)
    → get table hash ≡ some row
    → All IsBounded table
    → row.expires_at ≤ row.created_at + absolute_lifetime
unfolding get
get-All [] hash row e h = absurd cc
get-All ((k, r) ∷ table) hash row e (c, h) = elim (Bool-cases (text_eq k hash)) [
  | inl s ↦ let f : some r ≡ some row = rw (s, get) at e in let g : r ≡ row = cc in rw (← g) c
  | inr s ↦ get-All table hash row (rw (s, get) at e) h
]

module _ (hash_token : Text → Text) where
  -- The operations of the program on the table of sessions.
  pub data Change (table : Sessions) : Sessions → Type 0 where
    logs_in :
        (raw_token : Text) (now : ℕ) (table' : Sessions)
        → create_session hash_token table raw_token now ≡ some table'
        → Change table table'
    requests :
        (raw_token method : Text) (headers : HeaderMap) (now : ℕ)
        → Change table (admit hash_token table raw_token method headers now).1
    logs_out : Change table (delete_all_sessions table)
    keeps : (hash : Text) → Change table (delete_all_sessions_except table hash)
    sweeps : (now : ℕ) → Change table (delete_expired table now).0

  pub data Reach : Sessions → Type 0 where
    start : Reach []
    next : {table table' : Sessions} → Reach table → Change table table' → Reach table'

  validate_session-cases :
      (table : Sessions) (raw_token : Text) (now : ℕ)
      → (validate_session hash_token table raw_token now ≡ none)
        ⊎ ((row : SessionRow) × (get table (hash_token raw_token) ≡ some row)
            × (now < row.expires_at)
            × (validate_session hash_token table raw_token now ≡ some row))
  unfolding validate_session
  validate_session-cases table raw_token now =
      elim (Option-cases (get table (hash_token raw_token))) [
        | inl e ↦ inl (rw e refl)
        | inr (row, e) ↦ elim (Bool-cases (ltb now row.expires_at)) [
          | inl lt ↦ inr (row, e, ground arith, rw (e, lt) refl)
          | inr ge ↦ inl (rw (e, ge) refl)
        ]
      ]

  admit-All :
      (table : Sessions) (raw_token method : Text) (headers : HeaderMap) (now : ℕ)
      → All IsBounded table
      → All IsBounded (admit hash_token table raw_token method headers now).1
  unfolding admit renew_if_needed
  admit-All table raw_token method headers now h =
      elim (validate_session-cases table raw_token now) [
        | inl e ↦ rw e h
        | inr (row, found, lt, e) ↦ elim (Bool-cases (csrf_header_ok method headers)) [
          | inr f ↦ rw (e, f) h
          | inl t ↦ elim (Bool-cases (is_early row now)) [
            | inl early ↦ rw (e, t, early) h
            | inr late ↦ elim (Bool-cases (leb (new_expiry row now) row.expires_at)) [
              | inl past ↦ rw (e, t, late, past) h
              | inr ahead ↦
                  rw (e, t, late, ahead) (All-modify table (hash_token raw_token) row now found h)
            ]
          ]
        ]
      ]

  create_session-All :
      (table table' : Sessions) (raw_token : Text) (now : ℕ)
      → create_session hash_token table raw_token now ≡ some table'
      → All IsBounded table
      → All IsBounded table'
  unfolding create_session insert_session
  create_session-All table table' raw_token now e h =
      elim (Option-cases (get table (hash_token raw_token))) [
        | inr (row, f) ↦ let g : none ≡ some table' = rw (f, create_session) at e in absurd cc
        | inl f ↦
            let row : SessionRow = record { created_at = now; expires_at = now + session_ttl } in
            let g : some (insert table (hash_token raw_token) row) ≡ some table' =
              rw (f, create_session) at e in
            let i : insert table (hash_token raw_token) row ≡ table' = cc in
            rw (← i) (All-insert table (hash_token raw_token) row (omega arith) h)
      ]

  Reach-All : {table : Sessions} → Reach table → All IsBounded table
  unfolding delete_all_sessions delete_all_sessions_except delete_expired
  Reach-All start = tt
  Reach-All (next {table} r (logs_in raw_token now table' e)) =
      create_session-All table table' raw_token now e (Reach-All r)
  Reach-All (next {table} r (requests raw_token method headers now)) =
      admit-All table raw_token method headers now (Reach-All r)
  Reach-All (next r logs_out) = tt
  Reach-All (next {table} r (keeps hash)) = All-retain _ table (Reach-All r)
  Reach-All (next {table} r (sweeps now)) = All-retain _ table (Reach-All r)

  -- However a session is used and renewed, no request is let in by it a week after it was created.
  pub validate_session-absolute_lifetime :
      {table : Sessions} (raw_token : Text) (now : ℕ) (row : SessionRow)
      → Reach table
      → validate_session hash_token table raw_token now ≡ some row
      → now < row.created_at + absolute_lifetime
  validate_session-absolute_lifetime {table} raw_token now row r e =
      elim (validate_session-cases table raw_token now) [
        | inl f ↦ absurd cc
        | inr (row', found, lt, f) ↦
            let g : row' ≡ row = cc in
            let b = get-All table (hash_token raw_token) row' found (Reach-All r) in
            rw (← g) (omega arith)
      ]

  -- A valid session is held under the hash of its token, and has not expired.
  pub validate_session-some :
      (table : Sessions) (raw_token : Text) (now : ℕ) (row : SessionRow)
      → validate_session hash_token table raw_token now ≡ some row
      → (get table (hash_token raw_token) ≡ some row) × (now < row.expires_at)
  validate_session-some table raw_token now row e =
      elim (validate_session-cases table raw_token now) [
        | inl f ↦ absurd cc
        | inr (row', found, lt, f) ↦ let g : row' ≡ row = cc in (rw (← g) found, rw (← g) lt)
      ]

  -- A request is admitted by its session only with the header against forgery.
  pub admit-admitted :
      (table : Sessions) (raw_token method : Text) (headers : HeaderMap) (now : ℕ) (hash : Text)
      → (admit hash_token table raw_token method headers now).0 ≡ admitted hash
      → (row : SessionRow) × (validate_session hash_token table raw_token now ≡ some row)
        × (csrf_header_ok method headers ≡ true)
        × (hash ≡ hash_token raw_token)
  unfolding admit
  admit-admitted table raw_token method headers now hash h =
      elim (Option-cases (validate_session hash_token table raw_token now)) [
        | inl e ↦ absurd (ground (arith, rw e at (h)))
        | inr (row, e) ↦ elim (Bool-cases (csrf_header_ok method headers)) [
          | inl t ↦ (row, e, t, hash_of (rw (e, t) at (h)))
          | inr f ↦ absurd (ground (arith, rw (e, f) at (h)))
        ]
      ]

  -- A request with a valid session and, unless it is a GET, the header against forgery is admitted.
  -- Its session never ends sooner for it, and in the second half of its window lasts for another day,
  -- up to a week from its creation; the other sessions stay as they are.
  admit_lem :
      (table : Sessions) (raw_token method other : Text) (headers : HeaderMap) (now : ℕ)
      (row : SessionRow)
      → validate_session hash_token table raw_token now ≡ some row
      → csrf_header_ok method headers ≡ true
      → let (admission, table') = admit hash_token table raw_token method headers now in
        (admission ≡ admitted (hash_token raw_token))
        × (get table' (hash_token raw_token)
            ≡ some (record row {
              expires_at =
                  if is_early row now
                  then row.expires_at
                  else max row.expires_at (new_expiry row now);
            }))
        × (text_eq (hash_token raw_token) other ≡ false → get table' other ≡ get table other)
  unfolding admit renew_if_needed
  admit_lem table raw_token method other headers now row e t =
      elim (validate_session-cases table raw_token now) [
        | inl f ↦ absurd cc
        | inr (row', held, lt, f) ↦
            let g : row' ≡ row = cc in
            let found : get table (hash_token raw_token) ≡ some row = rw (← g) held in
            let hash = hash_token raw_token in
            let renewed = λ (r : SessionRow). record r { expires_at = new_expiry row now } in
            elim (Bool-cases (is_early row now)) [
              | inl early ↦ rw (e, t, early) (refl, found, λ _. refl)
              | inr late ↦ elim (Bool-cases (leb (new_expiry row now) row.expires_at)) [
                | inl past ↦
                    let m : max row.expires_at (new_expiry row now) ≡ row.expires_at =
                      ground arith in
                    rw (e, t, late, past, m) (refl, found, λ _. refl)
                | inr ahead ↦
                    let m : max row.expires_at (new_expiry row now) ≡ new_expiry row now =
                      ground arith in
                    rw (e, t, late, ahead, m)
                      (
                        refl,
                        get-modify table hash hash renewed ∙ rw (text_eq_refl hash, found) refl,
                        λ apart. get-modify table hash other renewed ∙ rw apart refl,
                      )
              ]
            ]
      ]
