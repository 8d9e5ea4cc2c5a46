-- ===== src/Providers/Samples.antt =====
-- Test data: a stand-in for what the standard library does with request bodies.
use pen_stock.Base.{none, some, [], ◌∷◌, length, ◌==◌}
use pen_stock.Providers.Wire.{Codec, object, Shape, plain_text}

abbrev cold : Shape
cold = record {
  temperature = some 0;
  n = none;
  seed = none;
  tools = "";
  tool_choice = "";
  functions = "";
  function_call = "";
  logprobs = none;
}

-- A body of one byte is a request, one of two bytes the same as a stream.
abbrev pub toy_codec : Codec
toy_codec = record {
  shape = λ raw. some cold;
  messages = λ raw. some (record { role = 85 ∷ []; content = plain_text raw } ∷ []);
  chat_body = λ raw. some (record {
    messages = record { role = 85 ∷ []; content = plain_text raw } ∷ [];
    max_tokens = some 10;
    max_completion_tokens = none;
  });
  envelope = λ raw. some (record { model = "auto"; stream = length raw == 2 });
  decode = λ raw. object (("model", "auto") ∷ []);
  marshal = λ fields. some (123 ∷ 125 ∷ []);
  trim_space = λ s. s;
  utf8 = λ s. 65 ∷ [];
  itoa = λ n. 49 ∷ [];
  sha256_hex = λ b. "5a";
}
