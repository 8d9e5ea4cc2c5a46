-- ===== src/Cache/Keys.antt =====
-- internal/cache/key.go: the key of a request.
pub mod Separation
use pen_stock.Base.{
  ℕ, Bool, ◌||◌, Option, none, some, String, List, [], ◌∷◌, ◌++◌, length, same, if◌then◌else◌,
}
use pen_stock.Providers.Types.{Bytes}
use pen_stock.Providers.Wire.{Codec, Decoded, invalid, trailing, not_object, object}
use pen_stock.Cache.Types.{Key}

abbrev pub hash_scheme : String
hash_scheme = "penstock/cache/exact/v1"

-- `unhashedFields`
unfoldable pub is_unhashed : String → Bool
is_unhashed name =
    same name "stream" || (same name "stream_options" || (same name "user" || same name "metadata"))

-- The loop of `canonicalize` that deletes those members.
unfoldable pub delete_unhashed : List (String × String) → List (String × String)
unfolding is_unhashed
delete_unhashed [] = []
delete_unhashed ((name, value) ∷ fields) =
    let rest = delete_unhashed fields in if is_unhashed name then rest else (name, value) ∷ rest

unfoldable pub canonicalize_decoded :
    (List (String × String) → Option Bytes) → Decoded → Option Bytes
unfolding delete_unhashed
canonicalize_decoded marshal invalid = none
canonicalize_decoded marshal trailing = none
canonicalize_decoded marshal not_object = none
canonicalize_decoded marshal (object fields) = marshal (delete_unhashed fields)

-- `canonicalize`; `none` is an error.
unfoldable pub canonicalize : Codec → Bytes → Option Bytes
unfolding canonicalize_decoded
canonicalize codec raw = canonicalize_decoded codec.marshal (codec.decode raw)

-- What is hashed: the scheme, the model with its length in front, and the canonical body.
unfoldable pub preimage : Codec → String → Bytes → Bytes
preimage codec model canonical =
    codec.utf8 hash_scheme
    ++ (codec.itoa (length (codec.utf8 model)) ++ (0 ∷ (codec.utf8 model ++ canonical)))

unfoldable pub key_of_canonical : Codec → String → String → Option Bytes → Option Key
unfolding preimage
key_of_canonical codec tenant model none = none
key_of_canonical codec tenant model (some canonical) = some (record {
  tenant = tenant;
  model = model;
  hash = codec.sha256_hex (preimage codec model canonical);
})

-- `BuildKey`
unfoldable pub build_key : Codec → String → String → Bytes → Option Key
unfolding key_of_canonical canonicalize
build_key codec tenant model raw = key_of_canonical codec tenant model (canonicalize codec raw)
