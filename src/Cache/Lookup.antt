-- ===== src/Cache/Lookup.antt =====
-- internal/cache/lookup.go and internal/cache/messages.go: both tiers behind one call. The embedder
-- reaches a model: what it answers is an argument, `none` where it fails. A lookup that is not there is
-- `none` in its callers.
pub mod Repeats
use pen_stock.Base.{
  ℕ, zero, suc, ◌+◌, Bool, true, false, not, ◌&&◌, ◌||◌, Option, none, some, String, List, [], ◌∷◌,
  ◌++◌, length, ◌==◌, same, if◌then◌else◌,
}
use pen_stock.Providers.Types.{Bytes}
use pen_stock.Providers.Wire.{Codec, Message, Content, plain_text, parts, unreadable}
use pen_stock.Budget.Estimator.{text_of}
use pen_stock.Cache.Types.{Entry, Key}
use pen_stock.Cache.Exact as Tier
use pen_stock.Cache.Exact.{Exact}
use pen_stock.Cache.Policy.{eligible}
use pen_stock.Cache.Keys.{build_key}
use pen_stock.Cache.Semantic.{Vector, SemanticStore, nearest, add_record}

pub record Lookup : Type 0 where
  pub exact : Option Exact
  pub semantic : Option SemanticStore
  pub has_embedder : Bool
  pub max_temp : ℕ

-- `Result`; the key is `none` where the request is not eligible.
pub record Result : Type 0 where
  pub entry : Option Entry
  pub semantic : Bool
  pub key : Option Key
  pub eligible : Bool

abbrev pub no_result : Result
no_result = record { entry = none; semantic = false; key = none; eligible = false }

-- What the standard library and the embedding model answer.
pub record Outside : Type 0 where
  pub codec : Codec
  pub similarity : Vector → Vector → ℕ
  pub embed : Bytes → Option Vector

-- `contentText`
unfoldable pub content_text : Content → Bytes
unfolding text_of
content_text c = text_of c

-- The loop of `PromptText`, with the text so far: lines of the form `role:text`.
unfoldable pub join_messages : Bytes → List Message → Bytes
unfolding content_text
join_messages sb [] = sb
join_messages sb (m ∷ ms) =
    let line = m.role ++ (b':' ∷ content_text m.content) in
    join_messages (if length sb == 0 then line else sb ++ (10 ∷ line)) ms

prompt_of : Option (List Message) → Bytes
unfolding join_messages
prompt_of none = []
prompt_of (some msgs) = join_messages [] msgs

-- `PromptText`; a body that cannot be read, or has no messages, has no text.
unfoldable pub prompt_text : Codec → Bytes → Bytes
unfolding prompt_of
prompt_text codec raw = prompt_of (codec.messages raw)

-- `PromptText` and `Embed`, as both callers make them: `none` where there is nothing to compare.
unfoldable pub embedded : Outside → Lookup → Bytes → Option Vector
unfolding prompt_text
embedded out l raw =
    let text = prompt_text out.codec raw in
    if not l.has_embedder || length text == 0 then none else out.embed text

nearest_to : Outside → SemanticStore → String → Option Vector → ℕ → Option (Entry × ℕ)
nearest_to out s tenant none now = none
nearest_to out s tenant (some v) now = nearest out.similarity s tenant v now

-- `nearest`
unfoldable pub lookup_nearest :
    Outside → Lookup → Option SemanticStore → String → Bytes → ℕ → Option (Entry × ℕ)
unfolding nearest_to embedded
lookup_nearest out l none tenant raw now = none
lookup_nearest out l (some s) tenant raw now = nearest_to out s tenant (embedded out l raw) now

-- What `Get` answers after the exact tier: its entry, or else that of the semantic tier.
unfoldable pub result_of : Key → Option Entry → Option (Entry × ℕ) → Result
result_of key (some e) similar = record {
  entry = some e;
  semantic = false;
  key = some key;
  eligible = true;
}
result_of key none (some (e, score)) = record {
  entry = some e;
  semantic = true;
  key = some key;
  eligible = true;
}
result_of key none none = record { entry = none; semantic = false; key = some key; eligible = true }

unfoldable pub get_keyed :
    Outside → Lookup → Exact → String → Bytes → ℕ → Option Key → Lookup × Result
unfolding result_of lookup_nearest
get_keyed out l exact tenant raw now none = (l, no_result)
get_keyed out l exact tenant raw now (some key) =
    let (exact', answer, event) = Tier.get exact key now in
    (
      record l { exact = some exact' },
      result_of key answer (lookup_nearest out l l.semantic tenant raw now),
    )

unfoldable pub get_enabled :
    Outside → Lookup → String → String → Bytes → ℕ → Option Exact → Lookup × Result
unfolding get_keyed
get_enabled out l tenant model raw now none = (l, no_result)
get_enabled out l tenant model raw now (some exact) =
    if (eligible out.codec raw l.max_temp).cacheable
    then get_keyed out l exact tenant raw now (build_key out.codec tenant model raw)
    else (l, no_result)

-- `Get`
unfoldable pub lookup_get : Outside → Lookup → String → String → Bytes → ℕ → Lookup × Result
unfolding get_enabled
lookup_get out l tenant model raw now = get_enabled out l tenant model raw now l.exact

add_to : Option SemanticStore → String → Option Vector → Entry → ℕ → Option SemanticStore
add_to none tenant v e now = none
add_to (some s) tenant none e now = some s
add_to (some s) tenant (some v) e now = some (add_record s tenant v e now)

unfoldable pub put_keyed :
    Outside → Lookup → Option Exact → Option Key → Option Entry → Bytes → ℕ → Lookup
unfolding add_to embedded
put_keyed out l (some exact) (some key) (some e) raw now = record l {
  exact = some (Tier.put exact key (some e) now).0;
  semantic = add_to l.semantic key.tenant (embedded out l raw) e now;
}
put_keyed out l none key e raw now = l
put_keyed out l (some exact) none e raw now = l
put_keyed out l (some exact) (some key) none raw now = l

-- `Put`
unfoldable pub lookup_put : Outside → Lookup → Result → Option Entry → Bytes → ℕ → Lookup
unfolding put_keyed
lookup_put out l res e raw now =
    if res.eligible then put_keyed out l l.exact res.key e raw now else l
