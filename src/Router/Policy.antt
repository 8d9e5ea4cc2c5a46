-- ===== src/Router/Policy.antt =====
-- internal/router/policy.go: what the attempt loop may do about a failure.
use pen_stock.Base.{Bool, true, false}
use pen_stock.Providers.Errors.{
  ErrorClass, auth, payment_required, rate_limited, invalid_request, model_not_found, upstream,
  timeout, canceled, internal,
}

pub data Disposition : Type 0 where
  fail : Disposition
  retry : Disposition
  failover : Disposition

-- `classDisposition`
unfoldable pub class_disposition : ErrorClass → Disposition
class_disposition invalid_request = fail
class_disposition canceled = fail
class_disposition upstream = retry
class_disposition timeout = retry
class_disposition rate_limited = failover
class_disposition auth = failover
class_disposition payment_required = failover
class_disposition model_not_found = failover
class_disposition internal = failover

-- `countsAgainstHealth`
unfoldable pub counts_against_health : ErrorClass → Bool
counts_against_health invalid_request = false
counts_against_health canceled = false
counts_against_health model_not_found = false
counts_against_health _ = true
