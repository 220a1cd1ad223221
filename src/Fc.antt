-- ===== src/Fc.antt =====
-- fc/err.go: the status of an error in HTTP.
use c2g.Common.{ℕ, Bool, if◌then◌else◌}

-- The errors that are looked for: those of the package, and `os.ErrNotExist`.
pub data Target : Type 0 where
  not_found not_exist not_implemented bad_request conflict unauthorized : Target

-- `HttpStatusCode`, by what `errors.Is` says of the error.
unfoldable pub http_status_code : (Target → Bool) → ℕ
http_status_code is =
    if is not_found
    then 404
    else if is not_exist
    then 404
    else if is not_implemented
    then 501
    else if is bad_request
    then 400
    else if is conflict
    then 409
    else if is unauthorized
    then 401
    else 500
