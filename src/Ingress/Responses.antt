-- ===== src/Ingress/Responses.antt =====
-- internal/ingress/errors.go and internal/ingress/accounting.go: what a client is told. Of an error the
-- status, the type and the code are modelled, and the message where it is the upstream's.
use pen_stock.Base.{ℕ, ◌+◌, ◌/◌, Option, none, some, String, ltb, if◌then◌else◌}
use pen_stock.Providers.Errors.{
  ErrorClass, auth, payment_required, rate_limited, invalid_request, model_not_found, upstream,
  timeout, canceled, internal, GoError,
}
use pen_stock.Router.Errors.{as_provider_error, is_canceled, is_deadline_exceeded}
use pen_stock.Budget.Types.{
  Denial, DenyReason, request_rate, token_rate, daily_budget, monthly_budget, store_degraded,
  unknown_tenant,
}

pub data ErrorType : Type 0 where
  invalid_request_error : ErrorType
  rate_limit_error : ErrorType
  api_error : ErrorType

pub record WireError : Type 0 where
  pub status : ℕ
  pub error_type : ErrorType
  pub code : String

abbrev pub wire_error : ℕ → ErrorType → String → WireError
wire_error status error_type code = record { status = status; error_type = error_type; code = code }

-- `classToWire`
unfoldable pub class_to_wire : ErrorClass → WireError
class_to_wire auth = wire_error 502 api_error "upstream_auth_failed"
class_to_wire payment_required = wire_error 402 api_error "upstream_payment_required"
class_to_wire rate_limited = wire_error 429 rate_limit_error "rate_limited"
class_to_wire invalid_request = wire_error 400 invalid_request_error "invalid_request"
class_to_wire model_not_found = wire_error 404 invalid_request_error "model_not_found"
class_to_wire upstream = wire_error 502 api_error "upstream_unavailable"
class_to_wire timeout = wire_error 504 api_error "timeout"
class_to_wire canceled = wire_error 499 api_error "canceled"
class_to_wire internal = wire_error 500 api_error "internal"

-- `writeUpstreamError`, given the class of the first `ProviderError` down the chain.
upstream_error_of : Option ErrorClass → GoError → WireError
unfolding class_to_wire
upstream_error_of (some class) e = class_to_wire class
upstream_error_of none e =
    if is_deadline_exceeded e
    then wire_error 504 api_error "timeout"
    else if is_canceled e
    then wire_error 499 api_error "canceled"
    else wire_error 500 api_error "internal"

unfoldable pub upstream_error : GoError → WireError
unfolding upstream_error_of
upstream_error e = upstream_error_of (as_provider_error e) e

-- `denialToWire`
unfoldable pub denial_to_wire : DenyReason → WireError
denial_to_wire request_rate = wire_error 429 rate_limit_error "tenant_request_rate_limited"
denial_to_wire token_rate = wire_error 429 rate_limit_error "tenant_token_rate_limited"
denial_to_wire daily_budget = wire_error 402 api_error "daily_budget_exhausted"
denial_to_wire monthly_budget = wire_error 402 api_error "monthly_budget_exhausted"
denial_to_wire store_degraded = wire_error 503 api_error "accounting_unavailable"
denial_to_wire unknown_tenant = wire_error 500 api_error "tenant_not_configured"

-- The `Retry-After` header of `writeDenial`, in seconds, rounded up past the whole ones.
unfoldable pub retry_after_header : Denial → Option ℕ
retry_after_header d =
    if ltb 0 d.retry_after then some (d.retry_after / 1_000_000_000 + 1) else none
