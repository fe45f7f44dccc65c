-- ===== src/Users/Queries.antt =====
-- src/users/queries.rs: the users' keys. A table row is found by its id; the database is one that
-- answers. `hash` is SHA-256, and `random` the hexadecimal text of 32 random bytes.
use router.Prelude.{
  ℕ, ◌+◌, Bool, true, ◌&&◌, ◌||◌, not, [], ◌++◌, Option, none, some, ◌>>=◌, if◌then◌else◌, ◌==◌,
  length, take, find, any, is_some, is_empty, ltb, unwrap_or, map_or,
}
use router.Prelude.Text.{Text, codes, text_Eq, trim, to_ascii_lowercase}
use router.Prelude.Map.{Map, get, insert, modify}
use router.Error.{AppError, Result, ok, err, validate_path_id}
use router.Users.{Caller}

abbrev pub display_prefix_len : ℕ
display_prefix_len = 10

abbrev pub max_name_len : ℕ
max_name_len = 64

-- In seconds.
abbrev pub last_used_resolution : ℕ
last_used_resolution = 60

pub record User : Type 0 where
  pub name : Text
  pub key_prefix : Text
  pub key_hash : Text
  pub created_at : ℕ
  pub last_used_at : Option ℕ
  pub revoked_at : Option ℕ

abbrev pub Users : Type 0
Users = Map Text User

unfoldable pub raw_key : Text → Text
raw_key random = codes "1r_" ++ random

unfoldable pub display_prefix : Text → Text
display_prefix raw = take display_prefix_len raw

unfoldable pub is_reserved : Text → Bool
is_reserved id =
    to_ascii_lowercase id == codes "admin" || to_ascii_lowercase id == codes "anonymous"

-- The checks behind `validate_path_id`.
unfoldable pub checked_id : Text → Result AppError (Unit {0})
checked_id id =
    if not (id == trim id)
    then err (AppError.bad_request (codes "id must not have leading/trailing whitespace"))
    else if is_reserved id
    then err (AppError.bad_request (codes "id '" ++ id ++ codes "' is reserved"))
    else ok tt

unfoldable pub validate_id : Text → Result AppError (Unit {0})
validate_id id = elim (validate_path_id id) [ ok t ↦ checked_id id | err e ↦ err e ]

unfoldable pub validate_name : Text → Result AppError Text
validate_name name =
    if ltb max_name_len (length (trim name))
    then err (AppError.bad_request (codes "name must be at most 64 characters"))
    else ok (trim name)

-- A row has the hash.
unfoldable pub has_hash : Text → Text × User → Bool
has_hash h (id, user) = user.key_hash == h

-- The row is not revoked and has the hash.
unfoldable pub has_key : Text → Text × User → Bool
has_key h (id, user) = user.key_hash == h && not (is_some user.revoked_at)

unfoldable pub get_user : Users → Text → Result AppError User
get_user table id = map_or (err AppError.not_found) (λ u. ok u) (get table id)

unfoldable pub revoke_user : Users → Text → ℕ → Users
revoke_user table id now =
    modify table id (λ u. if is_some u.revoked_at then u else record u { revoked_at = some now })

module _ (hash : Text → Text) where
  unfoldable pub new_user : (id name raw : Text) → ℕ → User
  new_user id name raw now = record {
    name = if is_empty name then id else name;
    key_prefix = display_prefix raw;
    key_hash = hash raw;
    created_at = now;
    last_used_at = none;
    revoked_at = none;
  }

  -- The insertion, which the primary key and the unique hash may refuse.
  unfoldable pub insert_user : Users → (id name raw : Text) → ℕ → Result AppError Text × Users
  insert_user table id name raw now =
      if is_some (get table id) || any (has_hash (hash raw)) table
      then (err (AppError.conflict (codes "user '" ++ id ++ codes "' already exists")), table)
      else (ok raw, insert table id (new_user id name raw now))

  -- The raw key, where the user is created.
  unfoldable pub create_user :
      Users → (id : Text) → Option Text → (random : Text) → ℕ → Result AppError Text × Users
  create_user table id name random now = elim (validate_id id) [
    | err e ↦ (err e, table)
    | ok t ↦ elim (validate_name (unwrap_or name [])) [
      | err e ↦ (err e, table)
      | ok name ↦ insert_user table id name (raw_key random) now
    ]
  ]

  -- The update of the row, which the unique hash may refuse.
  unfoldable pub set_key : Users → (id raw : Text) → Result AppError Text × Users
  set_key table id raw =
      if any (has_hash (hash raw)) table
      then (err (AppError.db (codes "UNIQUE constraint failed: users.key_hash")), table)
      else (
        ok raw,
        modify table id (λ u. record u {
          key_hash = hash raw;
          key_prefix = display_prefix raw;
          last_used_at = none;
        }),
      )

  unfoldable pub rotate_user_key : Users → (id random : Text) → Result AppError Text × Users
  rotate_user_key table id random =
      map_or (err AppError.not_found, table)
        (λ current.
          if is_some current.revoked_at
          then (err (AppError.conflict (codes "user '" ++ id ++ codes "' is revoked")), table)
          else set_key table id (raw_key random))
        (get table id)

  unfoldable pub authenticate : Users → (raw : Text) → Option Caller
  authenticate table raw =
      find (has_key (hash raw)) table >>= λ (id, user). some (record { user_id = some id })

-- What `authenticate` spawns: the time of the last use, at most once a minute.
unfoldable pub touch : Users → Text → ℕ → Users
touch table id now = modify table id (λ u.
    if map_or true (λ used. ltb (used + last_used_resolution) now) u.last_used_at
    then record u { last_used_at = some now }
    else u)
