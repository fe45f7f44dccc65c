-- ===== src/Users/Keys.antt =====
-- Which keys of src/users/queries.rs authenticate whom, through creation, rotation and revocation.
use router.Prelude.{
  ℕ, ◌≡◌, ◌≢◌, refl, ap, ◌∙◌, sym, true, false, ◌||◌, [], Option, none, some, if◌then◌else◌, ◌==◌,
  any, is_some, unwrap_or, arith, inl, inr, if-intro, map_or, map_or-intro,
}
use router.Prelude.Text.{Text, text_Eq, text_eq_iff}
use router.Prelude.Map.{
  get, modify, get-insert, get-modify, get-any, IsUnique, IsUnique-insert, IsUnique-modify,
}
use router.Error.{AppError, ok, err}
use router.Users.Queries.{
  User, Users, has_hash, revoke_user, new_user, insert_user, create_user, set_key, rotate_user_key,
  validate_id, validate_name, raw_key, display_prefix,
}
use router.Users.Rows.{
  IsTable, Opens, is_some-none, has_hash-false, Result-cases, authenticate-found,
  found-authenticate, IsDistinct-put, KeepsOthers, keeps_others, IsIssued, get-modify-some, revoke,
  revoke-key_hash, revoke-revoked_at, modify-get, IsDistinct-modify,
}

module _ (hash : Text → Text) where
  -- A row that no other row's key opens is written for `id`.
  issued :
      (table after : Users) (id raw : Text) (w : User)
      → IsTable table
      → IsUnique after
      → ((k : Text) → get after k ≡ (if id == k then some w else get table k))
      → w.key_hash ≡ hash raw
      → w.revoked_at ≡ none
      → any (has_hash (hash raw)) table ≡ false
      → IsIssued hash table id (ok raw, after)
  issued table after id raw w (unique, distinct) unique_after put h r free =
      let apart : (k : Text) (u : User)
          → get table k ≡ some u
          → (id == k) ≡ false
          → u.key_hash ≢ w.key_hash =
        λ k u g _ e.
          has_hash-false (hash raw) k u (get-any (has_hash (hash raw)) table k u g free) (e ∙ h) in
      let is_table : IsTable after =
        (unique_after, IsDistinct-put table after id w put apart distinct) in
      (
        is_table,
        found-authenticate hash after raw id w is_table (ground (arith, put id, text_eq_iff id id))
            h r,
        keeps_others table after id (λ k o. rw o at (put k)),
      )

  insert_user-IsIssued :
      (table : Users) (id name raw : Text) (now : ℕ)
      → IsTable table
      → IsIssued hash table id (insert_user hash table id name raw now)
  unfolding insert_user new_user
  insert_user-IsIssued table id name raw now h =
      if-intro (IsIssued hash table id) (is_some (get table id) || any (has_hash (hash raw)) table)
        _ _ (λ _. refl)
        (λ free.
          issued table _ id raw (new_user hash id name raw now) h
            (IsUnique-insert table id (new_user hash id name raw now) h.0)
            (λ k. get-insert table id k (new_user hash id name raw now)) refl refl
            (ground (arith, free)))

  -- The row with another key.
  abbrev with_key : Text → User → User
  with_key raw u = record u {
    key_hash = hash raw;
    key_prefix = display_prefix raw;
    last_used_at = none;
  }

  set_key-IsIssued :
      (table : Users) (id raw : Text) (u : User)
      → IsTable table
      → get table id ≡ some u
      → u.revoked_at ≡ none
      → IsIssued hash table id (set_key hash table id raw)
  unfolding set_key
  set_key-IsIssued table id raw u h g r =
      if-intro (IsIssued hash table id) (any (has_hash (hash raw)) table) _ _ (λ _. refl)
        (λ free.
          issued table _ id raw (with_key raw u) h (IsUnique-modify table id (with_key raw) h.0)
            (λ k. get-modify-some table id k u (with_key raw) g) refl r free)

  -- On a table with unique ids and unique hashes: a user is created with a key that opens the new
  -- account, no other row changes and ids and hashes stay unique; or the answer is an error and the
  -- table stays as it was.
  pub create_user-IsIssued :
      (table : Users) (id random : Text) (name : Option Text) (now : ℕ)
      → IsTable table
      → IsIssued hash table id (create_user hash table id name random now)
  unfolding create_user
  create_user-IsIssued table id random name now h = elim (Result-cases (validate_id id)) [
    | inl (e, v) ↦ rw (v, create_user) refl
    | inr (t, v) ↦ elim (Result-cases (validate_name (unwrap_or name []))) [
      | inl (e, n) ↦ rw (v, n, create_user) refl
      | inr (label, n) ↦
          rw (v, n, create_user) (insert_user-IsIssued table id label (raw_key random) now h)
    ]
  ]

  rotate_user_key-IsIssued :
      (table : Users) (id random : Text)
      → IsTable table
      → IsIssued hash table id (rotate_user_key hash table id random)
  unfolding rotate_user_key
  rotate_user_key-IsIssued table id random h =
      map_or-intro (IsIssued hash table id) (err AppError.not_found, table) _ (get table id)
        (λ _. refl)
        (λ u g.
          if-intro (IsIssued hash table id) (is_some u.revoked_at) _ _ (λ _. refl)
            (λ live.
              set_key-IsIssued table id (raw_key random) u h g (is_some-none u.revoked_at live)))

  -- An account has one key.
  Opens-once :
      (table : Users) (id raw old : Text)
      → IsUnique table
      → Opens hash table raw id
      → Opens hash table old id
      → hash old ≡ hash raw
  Opens-once table id raw old unique h k =
      let (u, g, e, _) = authenticate-found hash table raw id unique h in
      let (v, g', e', _) = authenticate-found hash table old id unique k in
      let same : u.key_hash ≡ v.key_hash =
        ap (map_or u.key_hash (λ (y : User). y.key_hash)) (sym g ∙ g') in
      sym e' ∙ sym same ∙ e

  -- On a table with unique ids and unique hashes: a key that a rotation returns opens the account, and
  -- no key of another hash does, so the one before it no longer does.
  pub rotate_user_key-Opens :
      (table after : Users) (id random raw old : Text)
      → IsTable table
      → rotate_user_key hash table id random ≡ (ok raw, after)
      → hash old ≢ hash raw
      → Opens hash after raw id × (¬ Opens hash after old id)
  rotate_user_key-Opens table after id random raw old h e apart =
      let (is_table, opens, _) = rw e at (rotate_user_key-IsIssued table id random h) in
      (opens, λ k. apart (Opens-once after id raw old is_table.0 opens k))

  -- On a table with unique ids and unique hashes: no key opens a revoked account, no other row changes,
  -- and ids and hashes stay unique.
  pub revoke_user-Opens :
      (table : Users) (id raw : Text) (now : ℕ)
      → IsTable table
      → IsTable (revoke_user table id now)
        × (¬ Opens hash (revoke_user table id now) raw id)
        × KeepsOthers table (revoke_user table id now) id
  unfolding revoke_user
  revoke_user-Opens table id raw now (unique, distinct) =
      let unique_after = IsUnique-modify table id (revoke now) unique in
      (
        (unique_after, IsDistinct-modify table id (revoke now) (revoke-key_hash now) distinct),
        λ k.
            let (u, g, _, live) =
              authenticate-found hash (modify table id (revoke now)) raw id unique_after k in
            let (v, _, (same, _)) = modify-get table id id (revoke now) u g in
            let here : (id == id) ≡ true = ground (arith, text_eq_iff id id) in
            absurd (
              ground (
                arith,
                revoke-revoked_at now v,
                ap (λ (x : User). x.revoked_at) (same here),
                live,
              )),
        keeps_others table (modify table id (revoke now)) id
            (λ k o. rw o at (get-modify table id k (revoke now))),
      )
