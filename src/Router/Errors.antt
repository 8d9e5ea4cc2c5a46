-- ===== src/Router/Errors.antt =====
-- internal/router/orchestrator.go: the errors of the attempt loop and their classes.
use pen_stock.Base.{Bool, true, false, Option, none, some, String, if◌then◌else◌}
use pen_stock.Providers.Errors.{
  ErrorClass, upstream, timeout, canceled, internal, GoError, provider_error, provider_error_from,
  wrapped, plain, ctx_canceled, deadline_exceeded,
}

-- `errors.As(err, &pe)`: the class of the first `ProviderError` down the chain.
unfoldable pub as_provider_error : GoError → Option ErrorClass
as_provider_error (provider_error provider class message) = some class
as_provider_error (provider_error_from provider class message inner) = some class
as_provider_error (wrapped message inner) = as_provider_error inner
as_provider_error (plain message) = none
as_provider_error ctx_canceled = none
as_provider_error deadline_exceeded = none

-- `errors.Is(err, context.Canceled)`
unfoldable pub is_canceled : GoError → Bool
is_canceled (provider_error provider class message) = false
is_canceled (provider_error_from provider class message inner) = is_canceled inner
is_canceled (wrapped message inner) = is_canceled inner
is_canceled (plain message) = false
is_canceled ctx_canceled = true
is_canceled deadline_exceeded = false

-- `errors.Is(err, context.DeadlineExceeded)`
unfoldable pub is_deadline_exceeded : GoError → Bool
is_deadline_exceeded (provider_error provider class message) = false
is_deadline_exceeded (provider_error_from provider class message inner) = is_deadline_exceeded inner
is_deadline_exceeded (wrapped message inner) = is_deadline_exceeded inner
is_deadline_exceeded (plain message) = false
is_deadline_exceeded ctx_canceled = false
is_deadline_exceeded deadline_exceeded = true

class_or : Option ErrorClass → GoError → ErrorClass
class_or (some class) err = class
class_or none err =
    if is_canceled err then canceled else if is_deadline_exceeded err then timeout else internal

-- `classOf`
unfoldable pub class_of : GoError → ErrorClass
unfolding class_or as_provider_error is_canceled is_deadline_exceeded
class_of err = class_or (as_provider_error err) err

-- `exhausted`
unfoldable pub exhausted : String → Option GoError → GoError
exhausted name (some last) = last
exhausted name none = provider_error name upstream "no provider attempt was made for this model"

-- `canceledError`
unfoldable pub canceled_error : String → GoError → GoError
unfolding is_deadline_exceeded
canceled_error name err =
    if is_deadline_exceeded err
    then provider_error_from name timeout "deadline exceeded before another provider could be tried"
        err
    else err

-- The answer of `runChain` when the selector returns nobody.
unfoldable pub no_healthy_provider : String → GoError
no_healthy_provider name =
    provider_error name upstream "no healthy provider is available for this model"
