-- ===== src/Providers/Errors.antt =====
-- internal/providers/errors.go: the classes that routing keys off, and the error values that cross
-- the provider boundary.
use pen_stock.Base.{ℕ, Bool, not, ◌||◌, ◌&&◌, String, List, leb, ◌==◌, if◌then◌else◌}

pub data ErrorClass : Type 0 where
  auth : ErrorClass
  payment_required : ErrorClass
  rate_limited : ErrorClass
  invalid_request : ErrorClass
  model_not_found : ErrorClass
  upstream : ErrorClass
  timeout : ErrorClass
  canceled : ErrorClass
  internal : ErrorClass

-- A Go `error`. A `ProviderError` may carry a wrapped error, and `fmt.Errorf("%w")` wraps too;
-- `ctx_canceled` and `deadline_exceeded` are the sentinels of package context.
pub data GoError : Type 0 where
  provider_error : String → ErrorClass → String → GoError
  provider_error_from : String → ErrorClass → String → GoError → GoError
  wrapped : String → GoError → GoError
  plain : String → GoError
  ctx_canceled : GoError
  deadline_exceeded : GoError

-- `ClassFromStatus`
unfoldable pub class_from_status : ℕ → ErrorClass
class_from_status code =
    if code == 401 || code == 403
    then auth
    else if code == 402
    then payment_required
    else if code == 429
    then rate_limited
    else if code == 404
    then model_not_found
    else if code == 400 || code == 422
    then invalid_request
    else if leb 500 code
    then upstream
    else internal

-- `ClassFromStatusAndBody`. Whether the body is an error envelope is encoding/json's answer, so
-- `looks_like_error_envelope` is an argument.
unfoldable pub class_from_status_and_body : (List ℕ → Bool) → ℕ → List ℕ → ErrorClass
unfolding class_from_status
class_from_status_and_body looks_like_error_envelope code body =
    if code == 404 && not (looks_like_error_envelope body) then upstream else class_from_status code
