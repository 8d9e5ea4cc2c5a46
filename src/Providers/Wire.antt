-- ===== src/Providers/Wire.antt =====
-- The request body as the code decodes it, and the standard library's part in that. Each component
-- unmarshals the fields that it needs (internal/cache/policy.go, internal/cache/messages.go,
-- internal/budget/estimator.go, internal/ingress/handlers.go); how JSON is parsed and written, and how
-- bytes are hashed, is encoding/json's, strconv's and crypto/sha256's, so these are the fields of
-- `Codec`. A temperature and a price are exact numbers, not negative; a raw JSON value is its text.
use pen_stock.Base.{ℕ, Bool, Option, String, List}
use pen_stock.Providers.Types.{Bytes}

-- `requestShape`
pub record Shape : Type 0 where
  pub temperature : Option ℕ
  pub n : Option ℕ
  pub seed : Option ℕ
  pub tools : String
  pub tool_choice : String
  pub functions : String
  pub function_call : String
  pub logprobs : Option Bool

-- One part of a multimodal content array.
pub record Part : Type 0 where
  pub kind : String
  pub text : Bytes

-- A `content` field: a string, an array of parts, or neither.
pub data Content : Type 0 where
  plain_text : Bytes → Content
  parts : List Part → Content
  unreadable : Content

pub record Message : Type 0 where
  pub role : Bytes
  pub content : Content

-- `chatRequest`
pub record ChatBody : Type 0 where
  pub messages : List Message
  pub max_tokens : Option ℕ
  pub max_completion_tokens : Option ℕ

-- The routing envelope.
pub record Envelope : Type 0 where
  pub model : String
  pub stream : Bool

-- A body decoded into a generic value; an object has its members, with their values' texts.
pub data Decoded : Type 0 where
  invalid : Decoded
  trailing : Decoded
  not_object : Decoded
  object : List (String × String) → Decoded

pub record Codec : Type 0 where
  pub shape : Bytes → Option Shape
  pub messages : Bytes → Option (List Message)
  pub chat_body : Bytes → Option ChatBody
  pub envelope : Bytes → Option Envelope
  pub decode : Bytes → Decoded
  pub marshal : List (String × String) → Option Bytes
  pub trim_space : String → String
  pub utf8 : String → Bytes
  pub itoa : ℕ → Bytes
  pub sha256_hex : Bytes → String
