-- ===== src/Cache/Policy.antt =====
-- internal/cache/policy.go: which requests may be cached.
use pen_stock.Base.{
  ℕ, Bool, true, false, not, ◌||◌, Option, none, some, String, ltb, same, if◌then◌else◌,
}
use pen_stock.Providers.Types.{Bytes}
use pen_stock.Providers.Wire.{Codec, Shape}

pub data IneligibleReason : Type 0 where
  eligible_request : IneligibleReason
  temperature_too_high : IneligibleReason
  tool_use : IneligibleReason
  seeded : IneligibleReason
  unsupported_options : IneligibleReason
  unparsable_request : IneligibleReason

pub record Eligibility : Type 0 where
  pub cacheable : Bool
  pub reason : IneligibleReason

-- `hasContent`, on a raw value's text.
unfoldable pub has_content : (String → String) → String → Bool
has_content trim_space raw =
    let trimmed = trim_space raw in
    not (same trimmed "" || (same trimmed "null" || (same trimmed "[]" || same trimmed "{}")))

abbrev pub is_present : Option ℕ → Bool
is_present none = false
is_present (some n) = true

abbrev pub is_set : Option Bool → Bool
is_set none = false
is_set (some b) = b

abbrev pub above_one : Option ℕ → Bool
above_one none = false
above_one (some n) = ltb 1 n

abbrev pub too_hot : ℕ → Option ℕ → Bool
too_hot max_temperature none = true
too_hot max_temperature (some t) = ltb max_temperature t

abbrev refuse : IneligibleReason → Eligibility
refuse reason = record { cacheable = false; reason = reason }

-- The checks of `Eligible` on a body that was read.
unfoldable pub judge : (String → String) → Shape → ℕ → Eligibility
unfolding has_content
judge trim shape max_temperature =
    if has_content trim shape.tools
      || (has_content trim shape.tool_choice
          || (has_content trim shape.functions || has_content trim shape.function_call))
    then refuse tool_use
    else if is_present shape.seed
    then refuse seeded
    else if is_set shape.logprobs
    then refuse unsupported_options
    else if above_one shape.n
    then refuse unsupported_options
    else if too_hot max_temperature shape.temperature
    then refuse temperature_too_high
    else record { cacheable = true; reason = eligible_request }

unfoldable pub judge_parsed : (String → String) → Option Shape → ℕ → Eligibility
unfolding judge
judge_parsed trim none max_temperature = refuse unparsable_request
judge_parsed trim (some shape) max_temperature = judge trim shape max_temperature

-- `Eligible`
unfoldable pub eligible : Codec → Bytes → ℕ → Eligibility
unfolding judge_parsed
eligible codec raw max_temperature = judge_parsed codec.trim_space (codec.shape raw) max_temperature
