-- ===== src/Cache/Tests.antt =====
-- Examples for internal/cache: a cache of one entry, and two tenants that ask the same.
use pen_stock.Base.{
  Bool-cases, inl, inr, same, same→eq, ◌&&◌, ◌==◌, if◌then◌else◌, ℕ, suc, ◌-◌, ◌<◌, ◌≡◌, refl, ap,
  sym, ◌∙◌, Option, none, some, List, [], ◌∷◌, ◌++◌, String, take, length, arith,
}
use pen_stock.Providers.Types.{Bytes}
use pen_stock.Cache.Types.{Entry, Key, exact_hit, stored, same_key}
use pen_stock.Providers.Wire.{Codec, object}
use pen_stock.Providers.Samples.{toy_codec}
use pen_stock.Cache.Keys.{
  build_key, key_of_canonical, canonicalize, canonicalize_decoded, delete_unhashed, is_unhashed,
  preimage,
}
use pen_stock.Cache.Keys.Separation.{member, build_key-separates, build_key-unhashed}
use pen_stock.Cache.Semantic.{Vector, SemanticStore, nearest}
use pen_stock.Cache.Semantic.Nearest.{Best, nearest-Best}
use pen_stock.Cache.Exact.{
  Node, unlink, Exact, new_exact, find, get, lookup, look, put, insert_entry, put_node, evict,
  evictions, stamp,
}
use pen_stock.Cache.Exact.Bounds.{Op, puts, run, run-new_exact-Valid}
use pen_stock.Cache.Exact.Forgetting.{node_of, put-forgets}
use pen_stock.Cache.Exact.Answers.{latest, get-latest}
use pen_stock.Cache.Exact.Hits.{put-get}

abbrev key_of : String → Key
key_of tenant = record { tenant = tenant; model = "auto"; hash = "abc" }

abbrev answer : Entry
answer = record {
  body = 1 ∷ 2 ∷ [];
  frames = [];
  usage = record { prompt_tokens = 4; completion_tokens = 8; total_tokens = 12 };
  usd = 3;
  provider = "groq";
  model = "auto";
  stored_at = 0;
}

abbrev history : List Op
history = puts (key_of "acme") (some answer) 5 ∷ puts (key_of "zenith") (some answer) 6 ∷ []

hit : (get (run (new_exact 2 100) history) (key_of "acme") 50).1 ≡ some (stamp answer 5)
unfolding get lookup look put insert_entry put_node evict find same_key new_exact
hit = refl

get-latest_example :
    (expires_at : ℕ) × (latest (new_exact 2 100).ttl (key_of "acme") none history
      ≡ some (stamp answer 5, expires_at))
    × (50 < expires_at)
get-latest_example = get-latest 2 100 history (key_of "acme") 50 (stamp answer 5) hit

put-get_example :
    ((get (put (new_exact 1 100) (key_of "acme") (some answer) 5).0 (key_of "acme") 50).1
      ≡ some (stamp answer 5))
    × ((get (put (new_exact 1 100) (key_of "acme") (some answer) 5).0 (key_of "acme") 50).2
        ≡ exact_hit)
unfolding new_exact
put-get_example =
    put-get (new_exact 1 100) (key_of "acme") answer 5 50 (run-new_exact-Valid 1 100 [])
      (omega arith)

-- A cache of two entries, the newer one first.
abbrev full : Exact
full = run (new_exact 2 100) history

abbrev oldest : Node
oldest = record { key = key_of "acme"; entry = stamp answer 5; expires_at = 105 }

put-forgets_example :
    ((put full (key_of "hooli") (some answer) 8).0.nodes
      ≡ take full.max_entries (node_of full (key_of "hooli") answer 8 ∷ full.nodes))
    × ((put full (key_of "hooli") (some answer) 8).1
        ≡ evictions (suc (length full.nodes) - full.max_entries) ++ stored ∷ [])
    × ((put (get full (key_of "acme") 7).0 (key_of "hooli") (some answer) 8).0.nodes
        ≡ take full.max_entries
            (node_of full (key_of "hooli") answer 8 ∷ oldest ∷ unlink (key_of "acme") full.nodes))
    × ((put (put full (key_of "acme") (some answer) 7).0 (key_of "hooli") (some answer) 8).0.nodes
        ≡ take full.max_entries (
            node_of full (key_of "hooli") answer 8
            ∷ node_of full (key_of "acme") answer 7
            ∷ unlink (key_of "acme") full.nodes))
unfolding put insert_entry put_node evict find same_key new_exact
put-forgets_example =
    put-forgets full (key_of "acme") (key_of "hooli") oldest answer answer 7 8
      (run-new_exact-Valid 2 100 history) refl (omega arith) refl

abbrev three_vectors : SemanticStore
three_vectors = record {
  threshold = 3;
  max_per_tenant = 4;
  ttl = 100;
  dims = 1;
  tenants = λ t.
      record { vector = 9 ∷ []; entry = answer; stored_at = 1 }
      ∷ record { vector = 4 ∷ []; entry = answer; stored_at = 60 }
      ∷ record { vector = 6 ∷ []; entry = record answer { usd = 5 }; stored_at = 70 }
      ∷ [];
}

-- The first component.
abbrev first_of : Vector → ℕ
first_of [] = 0
first_of (x ∷ xs) = x

nearest-Best_example :
    Best
      (λ u v. first_of v)
      (0 ∷ [])
      3
      100
      120
      (three_vectors.tenants "acme")
      (nearest (λ u v. first_of v) three_vectors "acme" (0 ∷ []) 120)
nearest-Best_example =
    nearest-Best (λ u v. first_of v) three_vectors "acme" (0 ∷ []) 120 (omega arith) refl

abbrev acme : String
acme = "acme"

abbrev auto : String
auto = "auto"

-- A codec for bodies that name a model; the one of two bytes asks for a stream too.
toy_marshal : List (String × String) → Option Bytes
toy_marshal [] = none
toy_marshal ((name, value) ∷ []) =
    if same name "model" && same value "auto" then some (123 ∷ 125 ∷ []) else none
toy_marshal (x ∷ y ∷ fields) = none

abbrev streamed_fields : List (String × String)
streamed_fields = ("stream", "true") ∷ ("model", "auto") ∷ []

abbrev plain_fields : List (String × String)
plain_fields = ("model", "auto") ∷ []

abbrev printing_codec : Codec
printing_codec = record toy_codec {
  decode = λ raw. if length raw == 2 then object streamed_fields else object plain_fields;
  marshal = toy_marshal;
}

abbrev preimage_of : Option Bytes → Bytes
preimage_of none = []
preimage_of (some form) = preimage printing_codec "auto" form

toy_marshal-plain :
    (fields : List (String × String)) (form : Bytes)
    → toy_marshal fields ≡ some form
    → fields ≡ plain_fields
unfolding toy_marshal
toy_marshal-plain [] form h = cc h
toy_marshal-plain ((name, value) ∷ []) form h = elim (Bool-cases (same name "model")) [
  | inl m ↦ elim (Bool-cases (same value "auto")) [
    | inl v ↦
        ap (λ n. (n, value) ∷ []) (same→eq name "model" m)
        ∙ ap (λ v. ("model", v) ∷ []) (same→eq value "auto" v)
    | inr v ↦ ground (arith, m, v, h)
  ]
  | inr m ↦ ground (arith, m, h)
]
toy_marshal-plain (x ∷ y ∷ fields) form h = cc h

printed_keys :
    (build_key printing_codec acme auto (1 ∷ []) ≡ some (record (key_of "acme") { hash = "5a" }))
    × (build_key printing_codec acme auto (1 ∷ 1 ∷ [])
        ≡ some (record (key_of "acme") { hash = "5a" }))
unfolding build_key key_of_canonical canonicalize canonicalize_decoded delete_unhashed is_unhashed
    preimage toy_marshal
printed_keys = (refl, refl)

build_key-separates_example :
    (acme ≡ acme)
    × (auto ≡ auto)
    × (canonicalize printing_codec (1 ∷ []) ≡ canonicalize printing_codec (1 ∷ 1 ∷ []))
    × (member "messages" plain_fields ≡ member "messages" streamed_fields)
unfolding canonicalize canonicalize_decoded delete_unhashed is_unhashed preimage toy_marshal
build_key-separates_example =
    build_key-separates printing_codec acme acme auto auto (1 ∷ []) (1 ∷ 1 ∷ [])
      (record (key_of "acme") { hash = "5a" }) plain_fields streamed_fields "messages"
      (λ form form' h h' collide. ap (λ o. preimage_of o) (sym h ∙ h'))
      (λ fs fs' form h h' n.
        ap (member n) (toy_marshal-plain fs form h ∙ sym (toy_marshal-plain fs' form h')))
      refl refl (refl, (refl, (refl, (refl, tt)))) printed_keys.0 printed_keys.1

build_key-unhashed_example :
    build_key printing_codec acme auto (1 ∷ 1 ∷ []) ≡ build_key printing_codec acme auto (1 ∷ [])
build_key-unhashed_example =
    build_key-unhashed printing_codec acme auto (1 ∷ 1 ∷ []) (1 ∷ []) [] plain_fields "stream"
      "true" refl refl refl
