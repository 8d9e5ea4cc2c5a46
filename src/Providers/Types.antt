-- ===== src/Providers/Types.antt =====
-- internal/providers/types.go: usage, answers and the chunks of a stream. Bytes are numbers. A negative
-- count of tokens is not represented.
use pen_stock.Base.{ℕ, Bool, Option, String, List}

abbrev pub Bytes : Type 0
Bytes = List ℕ

pub record Usage : Type 0 where
  pub prompt_tokens : ℕ
  pub completion_tokens : ℕ
  pub total_tokens : ℕ

abbrev pub no_usage : Usage
no_usage = record { prompt_tokens = 0; completion_tokens = 0; total_tokens = 0 }

pub record ChatResponse : Type 0 where
  pub model : String
  pub provider : String
  pub body : Bytes
  pub usage : Usage

pub record StreamChunk : Type 0 where
  pub payload : Bytes
  pub usage : Option Usage
  pub keepalive : Bool
