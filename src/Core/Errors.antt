-- ===== src/Core/Errors.antt =====
-- apps/core/exceptions.py: the exceptions that the services raise, and their HTTP statuses.
use ishly_back.Prelude.{ℕ}

-- The subclasses of `GigBaseException`; then the other exceptions that reach a view.
pub data Error : Type 0 where
  validation not_found conflict forbidden unauthorized rate_limit : Error
  insufficient_balance job_state otp service_unavailable : Error
  -- `Model.DoesNotExist`, and `IntegrityError` or `DataError` from a column's CHECK
  does_not_exist integrity : Error
  -- `AttributeError`, from a setting that no settings module defines
  attribute : Error
  -- `NotSupportedError`, from a query that the database cannot run
  not_supported : Error

-- `status_code` of each class; what the handler does not know is a 500.
unfoldable pub status_code : Error → ℕ
status_code Error.validation = 422
status_code Error.not_found = 404
status_code Error.conflict = 409
status_code Error.forbidden = 403
status_code Error.unauthorized = 401
status_code Error.rate_limit = 429
status_code Error.insufficient_balance = 402
status_code Error.job_state = 409
status_code Error.otp = 400
status_code Error.service_unavailable = 503
status_code Error.does_not_exist = 500
status_code Error.integrity = 500
status_code Error.attribute = 500
status_code Error.not_supported = 500
