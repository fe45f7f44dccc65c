-- ===== src/Error.antt =====
-- src/core/error.rs: the application's errors with the status and body that they answer with, the
-- test of identifiers, and the classes of upstream failures.
use router.Prelude.{ℕ, Option, ◌++◌, if◌then◌else◌}
use router.Prelude.Text.{Text, codes, trim, contains}
use router.Prelude.Lists.{is_empty}

-- `Db` carries the text of the database's error.
pub data AppError : Type 0 where
  not_found : AppError
  bad_request : Text → AppError
  unauthorized : AppError
  conflict : Text → AppError
  db : Text → AppError
  upstream : Text → AppError
  upstream_with_status : (status : ℕ) → Text → AppError
  internal : Text → AppError

pub data Result {ℓ} (E A : Type ℓ) : Type ℓ where
  ok : A → Result E A
  err : E → Result E A

-- `into_response`: the status and the message of the JSON body.
unfoldable into_response : AppError → ℕ × Text
into_response AppError.not_found = (404, codes "not found")
into_response (AppError.bad_request m) = (400, m)
into_response AppError.unauthorized = (401, codes "unauthorized")
into_response (AppError.conflict m) = (409, m)
into_response (AppError.db e) = (500, codes "internal database error")
into_response (AppError.upstream m) = (502, m)
into_response (AppError.upstream_with_status s m) = (s, m)
into_response (AppError.internal m) = (500, m)

-- `Display`, where `show_status` is the `Display` of a status code.
pub display : (show_status : ℕ → Text) → AppError → Text
display show_status AppError.not_found = codes "not found"
display show_status (AppError.bad_request m) = codes "bad request: " ++ m
display show_status AppError.unauthorized = codes "unauthorized"
display show_status (AppError.conflict m) = codes "conflict: " ++ m
display show_status (AppError.db e) = codes "db error: " ++ e
display show_status (AppError.upstream m) = codes "upstream error: " ++ m
display show_status (AppError.upstream_with_status s m) =
    codes "upstream error (" ++ show_status s ++ codes "): " ++ m
display show_status (AppError.internal m) = codes "internal error: " ++ m

unfoldable pub validate_path_id : Text → Result AppError (Unit {0})
unfolding trim contains
validate_path_id id =
    if is_empty (trim id)
    then err (AppError.bad_request (codes "id must not be empty"))
    else if contains id b'/'
    then err (AppError.bad_request (codes "id must not contain '/'"))
    else ok tt

-- A retry delay is a duration in nanoseconds.
pub data ErrorClass : Type 0 where
  success : ErrorClass
  retryable : (retry_after : Option ℕ) → ErrorClass
  non_retryable : ErrorClass
  auth_expired : ErrorClass

pub data RefreshError : Type 0 where
  invalid_grant : RefreshError
  transient : Text → RefreshError
