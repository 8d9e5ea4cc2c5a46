-- ===== src/Providers/Readers.antt =====
-- internal/providers/rewrite.go, and the wrappers that a stream goes through on its way to the ingress:
-- `renamedStream` names the model that the upstream was asked for, the router's `timedReader`
-- (internal/router/orchestrator.go) the provider that answered. internal/ingress/metrics.go asks a
-- reader for both, by type assertion: a wrapper that lacks the method answers nothing.
use pen_stock.Base.{String, same, if◌then◌else◌}

pub data Reader : Type 0 where
  -- an adapter's own reader
  adapter_stream : Reader
  -- `renamedStream`
  renamed_stream : Reader → String → Reader
  -- `timedReader`
  timed_reader : Reader → String → Reader

-- `AnsweringProvider`, empty where the reader has none.
unfoldable pub provider_of_stream : Reader → String
provider_of_stream adapter_stream = ""
provider_of_stream (renamed_stream inner model) = provider_of_stream inner
provider_of_stream (timed_reader inner provider) = provider

-- `AnsweringModel`, empty where the reader has none.
unfoldable pub model_of_stream : Reader → String
model_of_stream adapter_stream = ""
model_of_stream (renamed_stream inner model) = model
model_of_stream (timed_reader inner provider) = ""

-- `answeringProvider`
unfoldable pub answering_provider : String → String → String
answering_provider route_label answered = if same answered "" then route_label else answered

-- `billedModel`
unfoldable pub billed_model : String → String → String
billed_model route_model upstream_model =
    if same upstream_model "" then route_model else upstream_model

-- `WithModel`, on the reader that `ChatStream` returns: an empty name leaves the provider as it is.
unfoldable pub with_model : String → Reader → Reader
with_model upstream_model inner =
    if same upstream_model "" then inner else renamed_stream inner upstream_model

-- What `Router.ChatStream` returns for a provider of its chain.
unfoldable pub routed_stream : String → Reader → Reader
routed_stream provider inner = timed_reader inner provider
