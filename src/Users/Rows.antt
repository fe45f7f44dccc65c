-- ===== src/Users/Rows.antt =====
-- The table of src/users/queries.rs: what keeps its ids and hashes unique, and whom a key authenticates.
use router.Prelude.{
  ℕ, ◌≡◌, ◌≢◌, refl, ap, ◌∙◌, sym, Bool, true, false, Option, none, some, if◌then◌else◌, ◌==◌, find,
  is_some, unwrap_or, arith, Bool-cases, Option-cases, ◌⊎◌, inl, inr, if-intro, map_or,
}
use router.Prelude.Text.{Text, text_Eq, text_eq_iff}
use router.Prelude.Map.{get, modify, get-modify, find-get, get-find, IsUnique}
use router.Error.{AppError, Result, ok, err}
use router.Users.{Caller}
use router.Users.Queries.{User, Users, has_hash, has_key, authenticate}

-- No key opens two users.
abbrev IsDistinct : Users → Type 0
IsDistinct table =
    (i j : Text) (u v : User)
    → get table i ≡ some u
    → get table j ≡ some v
    → u.key_hash ≡ v.key_hash
    → i ≡ j

-- What the primary key and the unique hashes keep.
abbrev pub IsTable : Users → Type 0
IsTable table = IsUnique table × IsDistinct table

-- The key opens the user's account.
abbrev pub Opens : (Text → Text) → Users → Text → Text → Type 0
Opens hash table raw id = authenticate hash table raw ≡ some (record { user_id = some id })

pub is_some-none : (o : Option ℕ) → is_some o ≡ false → o ≡ none
is_some-none none h = refl
is_some-none (some n) h = absurd (ground arith)

has_key-true :
    (h k : Text) (u : User) → has_key h (k, u) ≡ true → (u.key_hash ≡ h) × (u.revoked_at ≡ none)
unfolding has_key
has_key-true h k u e =
    (ground (arith, text_eq_iff u.key_hash h, e), is_some-none u.revoked_at (ground (arith, e)))

pub has_hash-false : (h k : Text) (u : User) → has_hash h (k, u) ≡ false → u.key_hash ≢ h
unfolding has_hash
has_hash-false h k u e same = ground (arith, text_eq_iff u.key_hash h, e, same)

has_key-fits :
    (h k : Text) (u : User) → u.key_hash ≡ h → u.revoked_at ≡ none → has_key h (k, u) ≡ true
unfolding has_key
has_key-fits h k u e r = rw r (ground (arith, text_eq_iff u.key_hash h, e))

pub Result-cases :
    {A : Type 0} (r : Result AppError A) → ((e : AppError) × (r ≡ err e)) ⊎ ((a : A) × (r ≡ ok a))
Result-cases (ok a) = inr (a, refl)
Result-cases (err e) = inl (e, refl)

-- The caller's id.
abbrev id_of : Text → Option Caller → Text
id_of other none = other
id_of other (some caller) = unwrap_or caller.user_id other

module _ (hash : Text → Text) where
  pub authenticate-found :
      (table : Users) (raw id : Text)
      → IsUnique table
      → Opens hash table raw id
      → (u : User) × (get table id ≡ some u) × (u.key_hash ≡ hash raw) × (u.revoked_at ≡ none)
  unfolding authenticate
  authenticate-found table raw id unique h = elim (Option-cases (find (has_key (hash raw)) table)) [
    | inl e ↦
        let lost : none ≡ some (record { user_id = some id }) = rw (e, authenticate) at h in
        absurd (ground (arith, lost))
    | inr ((k, u), e) ↦
        let (there, fits) = find-get (has_key (hash raw)) table k u unique e in
        let (same_hash, live) = has_key-true (hash raw) k u fits in
        let same : k ≡ id = ap (id_of k) (rw (e, authenticate) at h) in
        (u, rw⁻¹ same there, same_hash, live)
  ]

  pub found-authenticate :
      (table : Users) (raw id : Text) (u : User)
      → IsTable table
      → get table id ≡ some u
      → u.key_hash ≡ hash raw
      → u.revoked_at ≡ none
      → Opens hash table raw id
  unfolding authenticate
  found-authenticate table raw id u (unique, distinct) g h r =
      elim (Option-cases (find (has_key (hash raw)) table)) [
        | inl e ↦
            let found =
              get-find (has_key (hash raw)) table id u g (has_key-fits (hash raw) id u h r) in
            absurd (ground (arith, e, found))
        | inr ((k, v), e) ↦
            let (there, fits) = find-get (has_key (hash raw)) table k v unique e in
            let (same_hash, live) = has_key-true (hash raw) k v fits in
            let same : k ≡ id = distinct k id v u there g (same_hash ∙ sym h) in
            rw (e, authenticate, same) refl
      ]

-- One row is written whose key opens no other row.
pub IsDistinct-put :
    (table after : Users) (id : Text) (w : User)
    → ((k : Text) → get after k ≡ (if id == k then some w else get table k))
    → ((k : Text) (u : User) → get table k ≡ some u → (id == k) ≡ false → u.key_hash ≢ w.key_hash)
    → IsDistinct table
    → IsDistinct after
IsDistinct-put table after id w put apart distinct i j u v gi gj same =
    let put_other : (k : Text) → (id == k) ≡ false → get after k ≡ get table k =
      λ k h. rw h at (put k) in
    let put_here : (k : Text) (x : User)
        → (id == k) ≡ true
        → get after k ≡ some x
        → w.key_hash ≡ x.key_hash =
      λ k x h g. ap (map_or w.key_hash (λ (y : User). y.key_hash)) (rw h at (sym (put k) ∙ g)) in
    elim (Bool-cases (id == i)) [
      | inl hi ↦ elim (Bool-cases (id == j)) [
        | inl hj ↦ ground (arith, text_eq_iff id i, text_eq_iff id j, hi, hj)
        | inr hj ↦
            absurd (apart j v (sym (put_other j hj) ∙ gj) hj (sym same ∙ sym (put_here i u hi gi)))
      ]
      | inr hi ↦ elim (Bool-cases (id == j)) [
        | inl hj ↦
            absurd (apart i u (sym (put_other i hi) ∙ gi) hi (same ∙ sym (put_here j v hj gj)))
        | inr hj ↦ distinct i j u v (sym (put_other i hi) ∙ gi) (sym (put_other j hj) ∙ gj) same
      ]
    ]

-- No row but that of `id` differs.
abbrev pub KeepsOthers : Users → Users → Text → Type 0
KeepsOthers table after id = (k : Text) → ((id == k) ≡ true) ⊎ (get after k ≡ get table k)

pub keeps_others :
    (table after : Users) (id : Text)
    → ((k : Text) → (id == k) ≡ false → get after k ≡ get table k)
    → KeepsOthers table after id
keeps_others table after id h k = elim (Bool-cases (id == k)) [
  | inl same ↦ inl same
  | inr apart ↦ inr (h k apart)
]

-- What the issue of a key to `id` leaves behind: the table is as it was where the issue failed, and
-- else the key opens the account of `id` and no other row has changed.
abbrev pub IsIssued : (Text → Text) → Users → Text → Result AppError Text × Users → Type 0
IsIssued hash table id (err e, after) = after ≡ table
IsIssued hash table id (ok raw, after) =
    IsTable after × Opens hash after raw id × KeepsOthers table after id

pub get-modify-some :
    (table : Users) (id k : Text) (u : User) (f : User → User)
    → get table id ≡ some u
    → get (modify table id f) k ≡ (if id == k then some (f u) else get table k)
get-modify-some table id k u f g = ground (arith, get-modify table id k f, g, text_eq_iff id k)

-- The change of a revocation.
abbrev pub revoke : ℕ → User → User
revoke now u = if is_some u.revoked_at then u else record u { revoked_at = some now }

pub revoke-key_hash : (now : ℕ) (u : User) → (revoke now u).key_hash ≡ u.key_hash
revoke-key_hash now u =
    if-intro (λ (v : User). v.key_hash ≡ u.key_hash) (is_some u.revoked_at) _ _ (λ _. refl)
      (λ _. refl)

pub revoke-revoked_at : (now : ℕ) (u : User) → is_some (revoke now u).revoked_at ≡ true
revoke-revoked_at now u =
    if-intro (λ (v : User). is_some v.revoked_at ≡ true) (is_some u.revoked_at) _ _ (λ h. h)
      (λ _. refl)

-- Where the rows of a changed table come from.
pub modify-get :
    (table : Users) (id k : Text) (f : User → User) (u : User)
    → get (modify table id f) k ≡ some u
    → (v : User) × (get table k ≡ some v)
      × (((id == k) ≡ true → f v ≡ u) × ((id == k) ≡ false → v ≡ u))
modify-get table id k f u g = elim (Option-cases (get table k)) [
  | inl e ↦ absurd (ground (arith, get-modify table id k f, g, e))
  | inr (v, e) ↦ (
    v,
    e,
    (
      λ h. ap (map_or v (λ (x : User). x)) (sym (rw (h, e) at (get-modify table id k f)) ∙ g),
      λ h. ap (map_or v (λ (x : User). x)) (sym (rw (h, e) at (get-modify table id k f)) ∙ g),
    ),
  )
]

kept :
    (f : User → User)
    → ((u : User) → (f u).key_hash ≡ u.key_hash)
    → (b : Bool) (v u : User) → ((b ≡ true → f v ≡ u) × (b ≡ false → v ≡ u))
    → v.key_hash ≡ u.key_hash
kept f keeps true v u (h, k) = sym (keeps v) ∙ ap (λ (x : User). x.key_hash) (h refl)
kept f keeps false v u (h, k) = ap (λ (x : User). x.key_hash) (k refl)

pub IsDistinct-modify :
    (table : Users) (id : Text) (f : User → User)
    → ((u : User) → (f u).key_hash ≡ u.key_hash)
    → IsDistinct table
    → IsDistinct (modify table id f)
IsDistinct-modify table id f keeps distinct i j u v gi gj same =
    let (u', gi', ui) = modify-get table id i f u gi in
    let (v', gj', vj) = modify-get table id j f v gj in
    distinct i j u' v' gi' gj'
      (kept f keeps (id == i) u' u ui ∙ same ∙ sym (kept f keeps (id == j) v' v vj))
