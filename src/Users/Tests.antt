-- ===== src/Users/Tests.antt =====
-- Runs of the users' keys on a concrete table.
use router.Prelude.{ℕ, ◌≡◌, ◌≢◌, refl, true, false, [], ◌∷◌, ◌++◌, Option, none, some, arith, ◌==◌}
use router.Prelude.Text.{Text, codes, text_Eq, text_eq, text_eq_iff}
use router.Prelude.Map.{get}
use router.Error.{ok, err}
use router.Users.Queries.{
  User, Users, create_user, rotate_user_key, revoke_user, authenticate, validate_id, raw_key,
}
use router.Users.Rows.{IsTable, IsIssued, Opens, KeepsOthers}
use router.Users.Keys.{create_user-IsIssued, rotate_user_key-Opens, revoke_user-Opens}

-- A hash that tells apart what it needs to.
abbrev hash : Text → Text
hash t = t

abbrev ann : Users
ann = (create_user hash [] (codes "ann") none (codes "01") 5).1

abbrev rotated : Users
rotated = (rotate_user_key hash ann (codes "ann") (codes "02")).1

reserved : (create_user hash [] (codes "Admin") none (codes "01") 5).1 ≡ []
unfolding create_user validate_id router.Error.validate_path_id router.Users.Queries.checked_id
    router.Prelude.Text.text_eq router.Users.Queries.is_reserved
    router.Prelude.Text.to_ascii_lowercase
reserved = refl

empty-IsTable : IsTable []
unfolding get
empty-IsTable = (tt, λ i j u v g h e. absurd (ground arith))

created : create_user hash [] (codes "ann") none (codes "01") 5 ≡ (ok (codes "1r_01"), ann)
unfolding get create_user validate_id router.Error.validate_path_id router.Users.Queries.checked_id
    router.Prelude.Text.text_eq router.Users.Queries.is_reserved
    router.Prelude.Text.to_ascii_lowercase router.Users.Queries.validate_name
    router.Users.Queries.insert_user router.Prelude.Map.insert router.Users.Queries.new_user
    router.Users.Queries.has_hash raw_key
created = refl

ann-IsTable : IsTable ann
ann-IsTable =
    (rw created at (create_user-IsIssued hash [] (codes "ann") (codes "01") none 5 empty-IsTable)).0

create_user-IsIssued_example :
    IsIssued hash [] (codes "ann") (create_user hash [] (codes "ann") none (codes "01") 5)
create_user-IsIssued_example =
    create_user-IsIssued hash [] (codes "ann") (codes "01") none 5 empty-IsTable

rotation : rotate_user_key hash ann (codes "ann") (codes "02") ≡ (ok (codes "1r_02"), rotated)
unfolding rotate_user_key get create_user validate_id router.Error.validate_path_id
    router.Users.Queries.checked_id router.Prelude.Text.text_eq router.Users.Queries.is_reserved
    router.Prelude.Text.to_ascii_lowercase router.Users.Queries.validate_name
    router.Users.Queries.insert_user router.Prelude.Map.insert router.Users.Queries.new_user
    router.Users.Queries.set_key router.Users.Queries.has_hash raw_key
rotation = refl

other_key : codes "1r_01" ≢ codes "1r_02"
unfolding text_eq
other_key e = ground (arith, (text_eq_iff (codes "1r_01") (codes "1r_02")).1 e)

rotate_user_key-Opens_example :
    Opens hash rotated (codes "1r_02") (codes "ann")
    × (¬ Opens hash rotated (codes "1r_01") (codes "ann"))
rotate_user_key-Opens_example =
    rotate_user_key-Opens hash ann rotated (codes "ann") (codes "02") (codes "1r_02")
      (codes "1r_01") ann-IsTable rotation other_key

revoke_user-Opens_example :
    IsTable (revoke_user ann (codes "ann") 9)
    × (¬ Opens hash (revoke_user ann (codes "ann") 9) (codes "1r_01") (codes "ann"))
    × KeepsOthers ann (revoke_user ann (codes "ann") 9) (codes "ann")
revoke_user-Opens_example = revoke_user-Opens hash ann (codes "ann") (codes "1r_01") 9 ann-IsTable
