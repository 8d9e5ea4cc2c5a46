-- ===== src/Budget/Estimator/Cover.antt =====
-- What the estimate of internal/budget/estimator.go covers.
use pen_stock.Base.{
  ℕ, ◌+◌, ◌-◌, ◌*◌, ◌<◌, ◌≤◌, ◌≡◌, ◌⊎◌, subst, false, Option, none, some, String, List, [], ◌∷◌,
  length, same, arith,
}
use pen_stock.Providers.Types.{Bytes, Usage}
use pen_stock.Providers.Wire.{Codec, ChatBody, Message}
use pen_stock.Pricing.{Table, Price, cost, cost_usd, priced, price_key}
use pen_stock.Budget.Guard.{price, usd_of}
use pen_stock.Budget.Estimator.{
  EstimatorOptions, new_estimator, lower_cap, requested_completion_cap, completion_tokens,
  tokens_for_chars, unreadable_body_floor_tokens, text_of, prompt_tokens, unreadable_prompt_tokens,
  cost_or_zero, resolved_usd, estimate_usd, estimated_tokens, estimate,
}

-- A cap that the client set is kept.
pub Caps : Option ℕ → ℕ → Type 0
Caps none n = Unit
Caps (some c) n = (c ≡ 0) ⊎ (n ≤ c)

completion_tokens-positive :
    (opts : EstimatorOptions) (requested : ℕ)
    → 0 < opts.default_completion_tokens
    → 0 < completion_tokens opts requested
unfolding completion_tokens
completion_tokens-positive opts requested h = ground arith

completion_tokens-ceiling :
    (opts : EstimatorOptions) (requested : ℕ)
    → (opts.max_completion_tokens ≡ 0)
      ⊎ (completion_tokens opts requested ≤ opts.max_completion_tokens)
unfolding completion_tokens
completion_tokens-ceiling opts requested = ground arith

completion_tokens-requested :
    (opts : EstimatorOptions) (requested : ℕ)
    → (requested ≡ 0) ⊎ (completion_tokens opts requested ≤ requested)
unfolding completion_tokens
completion_tokens-requested opts requested = ground arith

-- The caps of a body that could be read.
pub ClientCaps : Option ChatBody → ℕ → Type 0
unfolding Caps
ClientCaps none n = Unit
ClientCaps (some b) n = Caps b.max_tokens n × Caps b.max_completion_tokens n

lower_cap-Caps :
    (a b : Option ℕ) (n : ℕ)
    → (lower_cap (lower_cap 0 a) b ≡ 0) ⊎ (n ≤ lower_cap (lower_cap 0 a) b)
    → Caps a n × Caps b n
unfolding Caps lower_cap
lower_cap-Caps none none n h = (tt, tt)
lower_cap-Caps (some x) none n h = (ground (arith, h), tt)
lower_cap-Caps none (some y) n h = (tt, ground (arith, h))
lower_cap-Caps (some x) (some y) n h = (ground (arith, h), ground (arith, h))

-- The lengths of the messages' texts.
abbrev pub text_size : List Message → ℕ
text_size [] = 0
text_size (m ∷ ms) = length (text_of m.content) + text_size ms

-- Four characters to a token, rounded up, and the framing of each message; a body that cannot be read
-- is text, and has a floor.
pub CoversPrompt : Option ChatBody → Bytes → ℕ → Type 0
CoversPrompt none raw p = (length raw ≤ 4 * p) × (unreadable_body_floor_tokens ≤ p)
CoversPrompt (some b) raw p = text_size b.messages + 16 * length b.messages ≤ 4 * p

tokens_for_chars-covers : (n : ℕ) → n ≤ 4 * tokens_for_chars n
unfolding tokens_for_chars
tokens_for_chars-covers n = ground arith

prompt_tokens-covers : (ms : List Message) → text_size ms + 16 * length ms ≤ 4 * prompt_tokens ms
unfolding prompt_tokens
prompt_tokens-covers [] = omega arith
prompt_tokens-covers (m ∷ ms) =
    omega (arith, prompt_tokens-covers ms, tokens_for_chars-covers (length (text_of m.content)))

-- What the estimate of a request sets aside for the answer is positive, within the operator's ceiling
-- where one is set, and within both of the client's caps where these are set; and what it sets aside
-- for the prompt covers the text of every message at four characters a token together with its
-- framing, and of a body that cannot be read every byte, and 1024 tokens at the least.
pub estimate-covers :
    (codec : Codec) (table : Option Table) (resolve : Option (String → String × String))
    (opts : EstimatorOptions) (model : String) (raw : Bytes)
    → let est = estimate codec (new_estimator table resolve opts) model raw in
      (0 < est.completion_tokens)
      × ((opts.max_completion_tokens ≡ 0) ⊎ (est.completion_tokens ≤ opts.max_completion_tokens))
      × ClientCaps (codec.chat_body raw) est.completion_tokens
      × CoversPrompt (codec.chat_body raw) raw est.prompt_tokens
unfolding estimate new_estimator estimated_tokens requested_completion_cap CoversPrompt ClientCaps
    unreadable_prompt_tokens
estimate-covers codec table resolve opts model raw = go (codec.chat_body raw)
  where
    opts' : EstimatorOptions
    opts' = (new_estimator table resolve opts).opts

    default_positive : 0 < opts'.default_completion_tokens
    default_positive = ground arith

    go :
        (b : Option ChatBody)
        → let (prompt, completion) = estimated_tokens opts' raw b in
          (0 < completion)
          × ((opts.max_completion_tokens ≡ 0) ⊎ (completion ≤ opts.max_completion_tokens))
          × ClientCaps b completion
          × CoversPrompt b raw prompt
    go none = (
      completion_tokens-positive opts' 0 default_positive,
      completion_tokens-ceiling opts' 0,
      tt,
      (omega (arith, tokens_for_chars-covers (length raw)), omega arith),
    )
    go (some b) =
        let requested = requested_completion_cap b in
        (
          completion_tokens-positive opts' requested default_positive,
          completion_tokens-ceiling opts' requested,
          lower_cap-Caps b.max_tokens b.max_completion_tokens _
              (completion_tokens-requested opts' requested),
          prompt_tokens-covers b.messages,
        )

mul_grows : (m d k : ℕ) → m * k ≤ (m + d) * k
mul_grows m d k = omega arith

mul_mono : (m n k : ℕ) → m ≤ n → m * k ≤ n * k
mul_mono m n k h =
    let whole : m + (n - m) ≡ n = omega arith in
    subst (λ x. m * k ≤ x * k) whole (mul_grows m (n - m) k)

cost_usd_mono : (p : Price) (u v u' v' : ℕ) → u ≤ u' → v ≤ v' → cost_usd p u v ≤ cost_usd p u' v'
unfolding cost_usd
cost_usd_mono p u v u' v' hu hv =
    ground (arith, mul_mono u u' p.input_per_mtok hu, mul_mono v v' p.output_per_mtok hv)

-- An answer that stays within what the estimate assumed, and that is billed at the provider's kind and
-- for the model that the estimator resolved, costs no more than the estimate: a settlement at that
-- price does not outrun the reservation. The table may hold any rates, and may hold none for the
-- model.
pub estimate_usd-covers :
    (table : Table) (resolve : String → String × String) (kind_of : String → String)
    (model upstream provider : String) (usage : Usage) (prompt completion : ℕ)
    → resolve model ≡ (kind_of provider, upstream)
    → same (kind_of provider) "" ≡ false
    → same upstream "" ≡ false
    → usage.prompt_tokens ≤ prompt
    → usage.completion_tokens ≤ completion
    → price (some table) (some kind_of) provider upstream usage
      ≤ estimate_usd (some table) (some resolve) model prompt completion
unfolding estimate_usd resolved_usd price cost
estimate_usd-covers table resolve kind_of model upstream provider usage prompt completion res known
      named hp hc =
    rw res (rw known (rw named (go (table.prices (price_key (kind_of provider) upstream)))))
  where
    go :
        (p : Option Price)
        → usd_of (priced p table.version usage)
          ≤ cost_or_zero (
              priced p table.version (record {
                prompt_tokens = prompt;
                completion_tokens = completion;
                total_tokens = 0;
              }))
    go none = omega arith
    go (some p) = cost_usd_mono p _ _ prompt completion hp hc
