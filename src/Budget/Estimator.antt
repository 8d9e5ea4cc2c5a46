-- ===== src/Budget/Estimator.antt =====
-- internal/budget/estimator.go: what a request is expected to consume.
pub mod Cover
use Prim.Native.Nat.{min, max}
use pen_stock.Base.{
  ℕ, zero, suc, ◌+◌, ◌-◌, ◌/◌, Bool, ◌||◌, Option, none, some, String, List, [], ◌∷◌, ◌++◌, length,
  ltb, leb, ◌==◌, same, if◌then◌else◌,
}
use pen_stock.Providers.Types.{Bytes, Usage}
use pen_stock.Providers.Wire.{
  Codec, ChatBody, Message, Content, plain_text, parts, unreadable, Part,
}
use pen_stock.Pricing.{Table, Cost, cost}
use pen_stock.Budget.Types.{Estimate}

abbrev pub chars_per_token : ℕ
chars_per_token = 4

abbrev pub message_overhead_tokens : ℕ
message_overhead_tokens = 4

abbrev pub unreadable_body_floor_tokens : ℕ
unreadable_body_floor_tokens = 1024

abbrev pub fallback_completion_tokens : ℕ
fallback_completion_tokens = 1024

pub record EstimatorOptions : Type 0 where
  pub default_completion_tokens : ℕ
  pub max_completion_tokens : ℕ

-- `resolve` maps a routed model to the vendor kind and the upstream model.
pub record Estimator : Type 0 where
  pub table : Option Table
  pub resolve : Option (String → String × String)
  pub opts : EstimatorOptions

-- `NewEstimator`; a negative number of tokens is read as zero is.
unfoldable pub new_estimator :
    Option Table → Option (String → String × String) → EstimatorOptions → Estimator
new_estimator table resolve opts = record {
  table = table;
  resolve = resolve;
  opts = record opts {
    default_completion_tokens =
        if leb opts.default_completion_tokens 0
        then fallback_completion_tokens
        else opts.default_completion_tokens;
  };
}

-- One round of the loop of `requestedCompletionCap`.
unfoldable pub lower_cap : ℕ → Option ℕ → ℕ
lower_cap limit none = limit
lower_cap limit (some c) = if leb c 0 then limit else if limit == 0 || ltb c limit then c else limit

unfoldable pub requested_completion_cap : ChatBody → ℕ
unfolding lower_cap
requested_completion_cap r = lower_cap (lower_cap 0 r.max_tokens) r.max_completion_tokens

-- `completionTokens`
unfoldable pub completion_tokens : EstimatorOptions → ℕ → ℕ
completion_tokens opts requested =
    let n = if leb requested 0 then opts.default_completion_tokens else requested in
    if ltb 0 opts.max_completion_tokens then min n opts.max_completion_tokens else n

-- `tokensForChars`
unfoldable pub tokens_for_chars : ℕ → ℕ
tokens_for_chars chars = if leb chars 0 then 0 else (chars + chars_per_token - 1) / chars_per_token

-- The loop of `textOf` over the parts.
unfoldable pub text_of_parts : List Part → Bytes
text_of_parts [] = []
text_of_parts (p ∷ ps) =
    let rest = text_of_parts ps in if same p.kind "text" then p.text ++ rest else rest

unfoldable pub text_of : Content → Bytes
unfolding text_of_parts
text_of (plain_text s) = s
text_of (parts ps) = text_of_parts ps
text_of unreadable = []

-- `promptTokens`
unfoldable pub prompt_tokens : List Message → ℕ
unfolding tokens_for_chars text_of
prompt_tokens [] = 0
prompt_tokens (m ∷ ms) =
    message_overhead_tokens + tokens_for_chars (length (text_of m.content)) + prompt_tokens ms

-- `unreadablePromptTokens`
unfoldable pub unreadable_prompt_tokens : Bytes → ℕ
unfolding tokens_for_chars
unreadable_prompt_tokens raw =
    max (message_overhead_tokens + tokens_for_chars (length raw)) unreadable_body_floor_tokens

unfoldable pub cost_or_zero : Option Cost → ℕ
cost_or_zero none = 0
cost_or_zero (some c) = c.usd

-- `usd`, on a table and a resolver that are there.
unfoldable pub resolved_usd : Table → String × String → String → ℕ → ℕ → ℕ
unfolding cost_or_zero
resolved_usd table (kind, upstream) model prompt completion =
    if same kind ""
    then 0
    else cost_or_zero (
        cost table kind (if same upstream "" then model else upstream)
          (record { prompt_tokens = prompt; completion_tokens = completion; total_tokens = 0 }))

unfoldable pub estimate_usd : Option Table → Option (String → String × String) → String → ℕ → ℕ → ℕ
unfolding resolved_usd
estimate_usd (some table) (some resolve) model prompt completion =
    resolved_usd table (resolve model) model prompt completion
estimate_usd none resolve model prompt completion = 0
estimate_usd (some table) none model prompt completion = 0

-- The tokens of the prompt and of the answer.
unfoldable pub estimated_tokens : EstimatorOptions → Bytes → Option ChatBody → ℕ × ℕ
unfolding unreadable_prompt_tokens completion_tokens prompt_tokens requested_completion_cap
estimated_tokens opts raw none = (unreadable_prompt_tokens raw, completion_tokens opts 0)
estimated_tokens opts raw (some req) =
    (prompt_tokens req.messages, completion_tokens opts (requested_completion_cap req))

-- `Estimate`
unfoldable pub estimate : Codec → Estimator → String → Bytes → Estimate
unfolding estimated_tokens estimate_usd
estimate codec e model raw =
    let (prompt, completion) = estimated_tokens e.opts raw (codec.chat_body raw) in
    record {
      prompt_tokens = prompt;
      completion_tokens = completion;
      usd = estimate_usd e.table e.resolve model prompt completion;
    }
