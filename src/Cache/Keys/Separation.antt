-- ===== src/Cache/Keys/Separation.antt =====
-- Which requests internal/cache/key.go gives the same key.
use pen_stock.Base.{
  ◌≡◌, refl, sym, ap, ◌∙◌, true, false, Option, none, some, String, List, [], ◌∷◌, ◌++◌, All, same,
  same→eq, Bool-cases, Bool, ◌||◌, arith, inl, inr, if◌then◌else◌,
}
use pen_stock.Providers.Types.{Bytes}
use pen_stock.Providers.Wire.{Codec, object}
use pen_stock.Cache.Types.{Key}
use pen_stock.Cache.Keys.{
  is_unhashed, delete_unhashed, canonicalize_decoded, canonicalize, preimage, key_of_canonical,
  build_key,
}

cons_tail : {A : Type 0} → List A → List A
cons_tail [] = []
cons_tail (x ∷ xs) = xs

append-cancel : {A : Type 0} (xs : List A) {ys zs : List A} → xs ++ ys ≡ xs ++ zs → ys ≡ zs
unfolding cons_tail
append-cancel [] h = h
append-cancel (x ∷ xs) h = append-cancel xs (ap cons_tail h)

-- What a key was made from.
record Made (codec : Codec) (tenant model : String) (raw : Bytes) (k : Key) : Type 0 where
  pub form : Bytes
  pub canonical : canonicalize codec raw ≡ some form
  pub same_tenant : k.tenant ≡ tenant
  pub same_model : k.model ≡ model
  pub same_hash : k.hash ≡ codec.sha256_hex (preimage codec model form)

some-injective : {A : Type 0} {x y : A} → some x ≡ some y → x ≡ y
some-injective {A} {x} h = ap (λ o. elim o [ none ↦ x | some z ↦ z ]) h

build_key-Made :
    (codec : Codec) (tenant model : String) (raw : Bytes) (k : Key)
    → build_key codec tenant model raw ≡ some k
    → Made codec tenant model raw k
unfolding build_key
build_key-Made codec tenant model raw k h = go (canonicalize codec raw) refl h
  where
    go :
        (o : Option Bytes)
        → canonicalize codec raw ≡ o
        → key_of_canonical codec tenant model o ≡ some k
        → Made codec tenant model raw k
    go none e x = cc x
    go (some form) e x =
        let same_key = some-injective x in
        record {
          form = form;
          canonical = e;
          same_tenant = sym (ap (λ k. k.tenant) same_key);
          same_model = sym (ap (λ k. k.model) same_key);
          same_hash = sym (ap (λ k. k.hash) same_key);
        }

-- The value of a member of an object.
abbrev pub member : String → List (String × String) → Option String
member name [] = none
member name ((field, value) ∷ fields) =
    let rest = member name fields in if same field name then some value else rest

-- Whether a name is one of some.
abbrev pub is_one_of : List String → String → Bool
is_one_of [] name = false
is_one_of (n ∷ names) name = same name n || is_one_of names name

-- That a name is none of some.
abbrev pub IsNoneOf : List String → String → Type 0
IsNoneOf names name = All (λ n. same name n ≡ false) names

hashed_name :
    (name : String)
    → IsNoneOf ("stream" ∷ "stream_options" ∷ "user" ∷ "metadata" ∷ []) name
    → is_unhashed name ≡ false
unfolding is_unhashed
hashed_name name h = rw (h.0, h.1.0, h.1.1.0, h.1.1.1.0) refl

member-delete_unhashed :
    (name : String) (fields : List (String × String))
    → is_unhashed name ≡ false
    → member name (delete_unhashed fields) ≡ member name fields
unfolding delete_unhashed
member-delete_unhashed name [] h = refl
member-delete_unhashed name ((field, value) ∷ fields) h =
    let ih = member-delete_unhashed name fields h in
    elim (Bool-cases (same field name)) [
      | inl e ↦ rw (ap is_unhashed (same→eq field name e) ∙ h, e) refl
      | inr e ↦ elim (Bool-cases (is_unhashed field)) [
        | inl u ↦ rw (u, e) ih
        | inr u ↦ rw (u, e) ih
      ]
    ]

canonicalize-object :
    (codec : Codec) (raw form : Bytes) (fields : List (String × String))
    → codec.decode raw ≡ object fields
    → canonicalize codec raw ≡ some form
    → codec.marshal (delete_unhashed fields) ≡ some form
unfolding canonicalize canonicalize_decoded
canonicalize-object codec raw form fields d h = sym (ap (canonicalize_decoded codec.marshal) d) ∙ h

-- Two requests whose bodies are objects and that get the same key are one tenant's, for one model, and
-- agree in their canonical form and in every member but `stream`, `stream_options`, `user` and
-- `metadata`, which may differ: no tenant is answered from another's entry, and no answer is given to a
-- request with other messages or other parameters. The hash does not collide on what the two keys are
-- made from, and `json.Marshal` prints no two objects alike that differ in a member.
pub build_key-separates :
    (codec : Codec) (tenant tenant' model model' : String) (raw raw' : Bytes) (k : Key)
    (fields fields' : List (String × String)) (name : String)
    → ((form form' : Bytes)
        → canonicalize codec raw ≡ some form
        → canonicalize codec raw' ≡ some form'
        → codec.sha256_hex (preimage codec model form)
          ≡ codec.sha256_hex (preimage codec model' form')
        → preimage codec model form ≡ preimage codec model' form')
    → ((fs fs' : List (String × String)) (form : Bytes)
        → codec.marshal fs ≡ some form
        → codec.marshal fs' ≡ some form
        → (n : String) → member n fs ≡ member n fs')
    → codec.decode raw ≡ object fields
    → codec.decode raw' ≡ object fields'
    → IsNoneOf ("stream" ∷ "stream_options" ∷ "user" ∷ "metadata" ∷ []) name
    → build_key codec tenant model raw ≡ some k
    → build_key codec tenant' model' raw' ≡ some k
    → (tenant ≡ tenant')
      × (model ≡ model')
      × (canonicalize codec raw ≡ canonicalize codec raw')
      × (member name fields ≡ member name fields')
unfolding preimage cons_tail
build_key-separates codec tenant tenant' model model' raw raw' k fields fields' name no_collision
      prints decoded decoded' named h h' =
    let a = build_key-Made codec tenant model raw k h in
    let b = build_key-Made codec tenant' model' raw' k h' in
    let one_model = sym a.same_model ∙ b.same_model in
    let one_preimage = no_collision _ _ a.canonical b.canonical (sym a.same_hash ∙ b.same_hash) in
    let renamed = one_preimage ∙ ap (λ m. preimage codec m b.form) (sym one_model) in
    let one_form =
      append-cancel (codec.utf8 model)
        (ap cons_tail (append-cancel (codec.itoa _) (append-cancel (codec.utf8 _) renamed))) in
    let one_canonical = a.canonical ∙ ap some one_form ∙ sym b.canonical in
    let hashed = hashed_name name named in
    let one_member =
      prints (delete_unhashed fields) (delete_unhashed fields') b.form
        (canonicalize-object codec raw b.form fields decoded (one_canonical ∙ b.canonical))
        (canonicalize-object codec raw' b.form fields' decoded' b.canonical) name in
    (
      sym a.same_tenant ∙ b.same_tenant,
      one_model,
      one_canonical,
      sym (member-delete_unhashed name fields hashed)
          ∙ one_member
          ∙ member-delete_unhashed name fields' hashed,
    )

delete_unhashed-insert :
    (before after : List (String × String)) (name value : String)
    → is_unhashed name ≡ true
    → delete_unhashed (before ++ (name, value) ∷ after) ≡ delete_unhashed (before ++ after)
unfolding delete_unhashed
delete_unhashed-insert [] after name value h = rw h refl
delete_unhashed-insert ((field, v) ∷ before) after name value h =
    rw (delete_unhashed-insert before after name value h) refl

unhashed_name :
    (name : String)
    → is_one_of ("stream" ∷ "stream_options" ∷ "user" ∷ "metadata" ∷ []) name ≡ true
    → is_unhashed name ≡ true
unfolding is_unhashed
unhashed_name name h = ground (arith, h)

-- The members `stream`, `stream_options`, `user` and `metadata` do not bear on the key: a body with one of
-- them, wherever it stands and whatever its value, and the body without it get the same key, or neither
-- gets one.
pub build_key-unhashed :
    (codec : Codec) (tenant model : String) (raw raw' : Bytes)
    (before after : List (String × String)) (name value : String)
    → is_one_of ("stream" ∷ "stream_options" ∷ "user" ∷ "metadata" ∷ []) name ≡ true
    → codec.decode raw ≡ object (before ++ (name, value) ∷ after)
    → codec.decode raw' ≡ object (before ++ after)
    → build_key codec tenant model raw ≡ build_key codec tenant model raw'
unfolding build_key canonicalize canonicalize_decoded
build_key-unhashed codec tenant model raw raw' before after name value h decoded decoded' =
    rw decoded (
      rw decoded' (
        ap (λ fields. key_of_canonical codec tenant model (codec.marshal fields))
          (delete_unhashed-insert before after name value (unhashed_name name h))))
