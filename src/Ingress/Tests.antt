-- ===== src/Ingress/Tests.antt =====
-- Examples for internal/ingress: one tenant asks the same question again, and the price list knows the
-- upstream's name for the model but not the route's.
use pen_stock.Base.{
  ℕ, ◌≡◌, refl, Bool, true, false, Option, none, some, String, List, [], ◌∷◌, ◌++◌, same, arith,
  if◌then◌else◌,
}
use pen_stock.Router.Chain.{contains}
use pen_stock.Config.Auth.{
  TenantConfig, AuthConfig, Strings, at_least_zero, validate_auth, is_loopback_listen, has_keys,
  some_tenant_keys, check_client_keys, check_tenants, check_name, check_keys, claim_key,
  check_limits,
}
use pen_stock.Ingress.Auth.{lookup_key, with_tenant_keys, new_key_set}
use pen_stock.Ingress.Auth.Identity.{Draws, Apart, lookup_key-owner}
use pen_stock.Providers.Samples.{toy_codec}
use pen_stock.Providers.Types.{Bytes, Usage, StreamChunk}
use pen_stock.Providers.Wire.{Envelope}
use pen_stock.Providers.Readers.{
  Reader, adapter_stream, routed_stream, with_model, provider_of_stream, answering_provider,
}
use pen_stock.Pricing.{Table, price_key, cost, priced, cost_usd}
use pen_stock.Router.Chain.{ok}
use pen_stock.Budget.Types.{Limits, Reservation}
use pen_stock.Budget.Enforcer.{reserve, reserve_known, admit, state_for, new_enforcer, committed}
use pen_stock.Budget.Windows.{check, check_rates, check_budgets, entry_for, first_state}
use pen_stock.Budget.Estimator.{
  estimate, estimate_usd, resolved_usd, estimated_tokens, prompt_tokens, tokens_for_chars, text_of,
  completion_tokens, requested_completion_cap, lower_cap, EstimatorOptions, new_estimator,
}
use pen_stock.Budget.Guard.{Guard, begin_request, settle_request}
use pen_stock.Budget.World.{opening, here}
use pen_stock.Budget.Beginning.{from_new}
use pen_stock.Cache.Types.{Entry, Key}
use pen_stock.Cache.Exact.{new_exact, get, lookup, look, find}
use pen_stock.Cache.Exact.Bounds.{new_exact-Valid}
use pen_stock.Cache.Policy.{eligible, judge_parsed, judge, has_content}
use pen_stock.Cache.Keys.{
  build_key, key_of_canonical, canonicalize, canonicalize_decoded, delete_unhashed, is_unhashed,
  preimage,
}
use pen_stock.Cache.Lookup.{
  lookup_get, get_enabled, get_keyed, result_of, lookup_nearest, Lookup, Result, Outside,
}
use pen_stock.Cache.Lookup.Repeats.{Asks}
use pen_stock.Ingress.Recorder.{recorded_entry, record_frame}
use pen_stock.Ingress.Stream.{
  received, ended, client_gone, pump, tally_chunk, frame_of, finish_frame, finish_stream,
  done_frame,
}
use pen_stock.Ingress.Handler.{
  Gateway, Request, whole, Upstream, answer, cached_answer, cached_stream, handle, cache_get,
  serve_cached, serve_missed, serve_counted, serve_admitted, serve, serve_chat, serve_routed,
  serve_opened,
}
use pen_stock.Ingress.Handler.Closing.{Accounted, handle-Accounted, handle-committed}
use pen_stock.Ingress.Handler.Replay.{partial_stream-cache, data_frames, says_done, frames_of}
use pen_stock.Ingress.Handler.Repeats.{
  repeat-answer, repeat-stream_answer, stream_repeat-empty, streamed, streamed_entry,
}
use pen_stock.Ingress.Handler.Billing.{routed_stream-unbilled}

abbrev outside : Outside
outside = record { codec = toy_codec; similarity = λ u v. 0; embed = λ text. none }

abbrev capped : String → Option Limits
capped t = some (record {
  requests_per_minute = 5;
  tokens_per_minute = 0;
  daily_usd = 1000;
  monthly_usd = 0;
  fail_closed = true;
})

abbrev upstream_prices : Table
upstream_prices = record {
  version = 3;
  prices = λ k.
      if same k "groq/llama"
      then some (record { input_per_mtok = 2; output_per_mtok = 3; free = false })
      else none;
}

abbrev opts : EstimatorOptions
opts = record { default_completion_tokens = 8; max_completion_tokens = 20 }

abbrev guarded : Guard
guarded = record {
  estimator = new_estimator (some upstream_prices) (some (λ m. ("groq", "llama"))) opts;
  enforcer = new_enforcer capped;
  disk = λ t. none;
  prices = some upstream_prices;
  kind_of = some (λ p. p);
  ledger = [];
}

abbrev two_usage : Usage
two_usage = record { prompt_tokens = 2; completion_tokens = 4; total_tokens = 6 }

abbrev tiers : Lookup
tiers = record {
  exact = some (new_exact 4 100);
  semantic = none;
  has_embedder = false;
  max_temp = 0;
}

abbrev gateway : Gateway
gateway = record { cache = some tiers; accounting = some guarded }

abbrev plain_request : ℕ → Request
plain_request now = record { tenant = "acme"; body = whole (1 ∷ []); can_flush = true; now = now }

abbrev chunk : Bytes → StreamChunk
chunk b = record { payload = b; usage = some two_usage; keepalive = false }

abbrev pause : StreamChunk
pause = record { payload = []; usage = none; keepalive = true }

abbrev upstream_reader : Reader
upstream_reader = routed_stream "groq" (with_model "llama" adapter_stream)

abbrev serving : Upstream
serving = record {
  chat =
      ok (record { model = "llama"; provider = "groq"; body = 72 ∷ 105 ∷ []; usage = two_usage });
  open_reply = ok upstream_reader;
  header_timed_out = false;
  arrivals =
      received (chunk (7 ∷ [])) true
      ∷ received pause true
      ∷ received (chunk (8 ∷ [])) true
      ∷ ended true true
      ∷ [];
  later = 20;
  saved = true;
}

abbrev hung_up : Upstream
hung_up = record serving { arrivals = received (chunk (7 ∷ [])) true ∷ client_gone ∷ [] }

abbrev routes : String → Option String
routes model = some "auto"

handle-Accounted_example :
    Accounted
      (opening capped)
      []
      (handle outside routes gateway (plain_request 5) serving).0.accounting
unfolding new_enforcer
handle-Accounted_example =
    handle-Accounted outside routes (opening capped) gateway guarded (plain_request 5) serving
      (omega arith) refl refl

handle-committed_example :
    (guard' : Guard) × ((handle outside routes gateway (plain_request 5) serving).0.accounting
      ≡ some guard')
    × ((committed guard'.enforcer "acme" 30).1 ≡ (committed guarded.enforcer "acme" 30).1)
unfolding new_enforcer
handle-committed_example =
    handle-committed outside routes capped (opening capped) gateway guarded (plain_request 5)
      serving "acme" 30 (record { start = opening capped; begins = from_new; path = here })
      (omega arith) refl refl

abbrev question : Key
question = record { tenant = "acme"; model = "auto"; hash = "5a" }

plain_question : Asks outside 0 "acme" "auto" (1 ∷ []) question
unfolding eligible judge_parsed judge has_content build_key key_of_canonical canonicalize
    canonicalize_decoded delete_unhashed is_unhashed preimage
plain_question = record { cacheable = refl; keyed = refl }

abbrev envelope_of : Bool → Envelope
envelope_of stream = record { model = "auto"; stream = stream }

first_answer :
    (serve_routed outside gateway (plain_request 5) (1 ∷ []) (envelope_of false) "auto" serving).1
    ≡ answer (72 ∷ 105 ∷ [])
unfolding serve_routed serve_missed serve_cached serve_counted serve_admitted serve serve_chat
    cache_get lookup_get get_enabled get_keyed result_of lookup_nearest get lookup look find
    new_exact begin_request reserve reserve_known admit check check_rates check_budgets new_enforcer
    state_for entry_for first_state eligible judge_parsed judge has_content build_key
    key_of_canonical canonicalize canonicalize_decoded delete_unhashed is_unhashed preimage estimate
    estimate_usd resolved_usd cost priced price_key cost_usd estimated_tokens prompt_tokens
    tokens_for_chars text_of completion_tokens requested_completion_cap lower_cap new_estimator
first_answer = refl

streamed_question : Asks outside 0 "acme" "auto" (1 ∷ 1 ∷ []) question
unfolding eligible judge_parsed judge has_content build_key key_of_canonical canonicalize
    canonicalize_decoded delete_unhashed is_unhashed preimage
streamed_question = record { cacheable = refl; keyed = refl }

repeat-answer_example :
    let g' =
      (serve_routed outside gateway
        (plain_request 5)
        (1 ∷ [])
        (envelope_of false)
        "auto"
        serving).0 in
    ((serve_routed outside g' (plain_request 30) (1 ∷ []) (envelope_of false) "auto" hung_up).1
      ≡ cached_answer false (72 ∷ 105 ∷ []))
    × ((serve_routed outside g'
          (plain_request 30)
          (1 ∷ [])
          (envelope_of false)
          "auto"
          hung_up).0.accounting
        ≡ g'.accounting)
unfolding new_exact
repeat-answer_example =
    repeat-answer outside gateway tiers (new_exact 4 100) question (plain_request 5)
      (plain_request 30) (1 ∷ []) (1 ∷ []) (envelope_of false) (envelope_of false) "auto" "auto"
      serving hung_up (72 ∷ 105 ∷ []) refl refl (new_exact-Valid 4 100) plain_question first_answer
      plain_question refl (omega arith)

abbrev asked : Result
asked = record { entry = none; semantic = false; key = some question; eligible = true }

partial_stream-cache_example :
    let p =
      serve_opened outside gateway "auto" "auto"
        (1 ∷ 1 ∷ [])
        none
        asked
        hung_up
        (ok upstream_reader) in
    (p.0.cache ≡ gateway.cache) × (says_done (frames_of p.1) ≡ false)
partial_stream-cache_example =
    partial_stream-cache outside gateway "auto" "auto" (1 ∷ 1 ∷ []) none asked hung_up
      upstream_reader refl

abbrev kept_stream : Entry
kept_stream = record {
  body = [];
  frames = (7 ∷ []) ∷ (8 ∷ []) ∷ [];
  usage = two_usage;
  usd = 0;
  provider = "groq";
  model = "auto";
  stored_at = 20;
}

stream_kept : streamed_entry "auto" "auto" serving upstream_reader ≡ some kept_stream
unfolding pump tally_chunk frame_of finish_stream finish_frame record_frame recorded_entry
    routed_stream with_model provider_of_stream answering_provider
stream_kept = refl

stream_whole : (streamed "auto" "auto" serving upstream_reader).0.completed ≡ true
unfolding pump tally_chunk frame_of finish_stream finish_frame
stream_whole = refl

repeat-stream_answer_example :
    (serve_routed outside
      (serve_opened outside gateway "auto" "auto"
        (1 ∷ 1 ∷ [])
        none
        asked
        serving
        (ok upstream_reader)).0
      (plain_request 30)
      (1 ∷ 1 ∷ [])
      (envelope_of true)
      "auto"
      hung_up).1
    ≡ cached_stream false
        (data_frames (streamed "auto" "auto" serving upstream_reader).1 ++ done_frame ∷ [])
unfolding new_exact
repeat-stream_answer_example =
    repeat-stream_answer outside gateway tiers (new_exact 4 100) asked kept_stream question
      upstream_reader "auto" "auto" (1 ∷ 1 ∷ []) (1 ∷ 1 ∷ []) none serving (plain_request 30)
      (envelope_of true) "auto" hung_up refl refl (new_exact-Valid 4 100) refl refl stream_whole
      stream_kept streamed_question (omega arith) refl refl

stream_repeat-empty_example :
    (serve_routed outside
      (serve_opened outside gateway "auto" "auto"
        (1 ∷ 1 ∷ [])
        none
        asked
        serving
        (ok upstream_reader)).0
      (plain_request 30)
      (1 ∷ [])
      (envelope_of false)
      "auto"
      hung_up).1
    ≡ cached_answer false []
unfolding new_exact
stream_repeat-empty_example =
    stream_repeat-empty outside gateway tiers (new_exact 4 100) asked kept_stream question
      upstream_reader "auto" "auto" (1 ∷ 1 ∷ []) (1 ∷ []) none serving (plain_request 30)
      (envelope_of false) "auto" hung_up refl refl (new_exact-Valid 4 100) refl refl stream_whole
      stream_kept plain_question (omega arith) refl

abbrev claimed : Reservation
claimed = record {
  tenant = "acme";
  estimate = record { prompt_tokens = 5; completion_tokens = 10; usd = 40 };
  issued_at = 5;
  id = 1;
}

routed_stream-unbilled_example :
    ((serve_opened outside gateway "auto" "auto"
        (1 ∷ 1 ∷ [])
        (some claimed)
        asked
        serving
        (ok (routed_stream "groq" (with_model "llama" adapter_stream)))).0.accounting
      ≡ some (settle_request guarded claimed two_usage "auto" "groq" 20 true).0)
    × ((settle_request guarded claimed two_usage "auto" "groq" 20 true).1 ≡ 0)
unfolding pump tally_chunk frame_of finish_stream finish_frame price_key
routed_stream-unbilled_example =
    routed_stream-unbilled outside gateway guarded upstream_prices (λ p. p) "auto" "auto" "llama"
      "groq" adapter_stream (1 ∷ 1 ∷ []) claimed asked serving two_usage refl refl refl refl refl
      refl

abbrev tenant_of : String → List String → TenantConfig
tenant_of name keys = record {
  name = name;
  keys = keys;
  requests_per_minute = at_least_zero 5;
  tokens_per_minute = at_least_zero 0;
  daily_usd = at_least_zero 1000;
  monthly_usd = at_least_zero 0;
}

abbrev two_tenants : AuthConfig
two_tenants = record {
  client_keys = [];
  tenants = tenant_of "acme" ("a1" ∷ "a2" ∷ []) ∷ tenant_of "zenith" ("z1" ∷ []) ∷ [];
}

abbrev long_strings : Strings
long_strings = record {
  byte_length = λ s. 20;
  is_tenant_name = λ s. true;
  split_host = λ s. none;
  ip_is_loopback = λ s. false;
}

accepted : validate_auth long_strings two_tenants "0.0.0.0:8080" ≡ []
unfolding validate_auth is_loopback_listen has_keys some_tenant_keys check_client_keys check_tenants
    check_name check_keys claim_key check_limits contains
accepted = refl

lookup_key-owner_example :
    lookup_key
      (λ s. s)
      (with_tenant_keys
        (λ s. s)
        (new_key_set (λ s. s) [])
        (("zenith", "z1" ∷ []) ∷ ("acme", "a1" ∷ "a2" ∷ []) ∷ []))
      "a2"
    ≡ some "acme"
unfolding Draws Apart
lookup_key-owner_example =
    lookup_key-owner (λ s. s) long_strings two_tenants "0.0.0.0:8080" (("zenith", "z1" ∷ []) ∷ [])
      [] "acme" "a2" ("a1" ∷ []) [] accepted
      (
        (
          tenant_of "acme" ("a1" ∷ "a2" ∷ []) ∷ [],
          [],
          tenant_of "zenith" ("z1" ∷ []),
          refl,
          refl,
          refl,
        ),
        (
          (
            [],
            tenant_of "zenith" ("z1" ∷ []) ∷ [],
            tenant_of "acme" ("a1" ∷ "a2" ∷ []),
            refl,
            refl,
            refl,
          ),
          tt,
        ),
      )
      refl ((λ e. e, tt), ((λ e. e, (λ e. e, tt)), tt))
