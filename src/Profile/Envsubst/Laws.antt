-- ===== src/Profile/Envsubst/Laws.antt =====
-- crates/wiremux-auth/src/profile/envsubst.rs: a walked value has nothing unset inside, and a text
-- without a reference stays.
use wiremux.Prelude.{
  ℕ, Bool, true, false, not, ◌&&◌, ◌||◌, ◌==◌, [], ◌∷◌, Option, none, some, any, ◌≡◌, refl, arith,
  Bool-cases, inl, inr,
}
use wiremux.Prelude.Text.{Str, strip_prefix}
use wiremux.Json.{
  Value, null, bool, number, string, array, object, Items, nil, cons, Fields, end, field, insert,
}
use wiremux.Profile.Envsubst.{
  Env, match_env_ref, match_dollar, in_front, subst_from, subst_string, is_null, kept_string,
  keep_item, keep_field, walk, walk_items, walk_fields,
}

-- No element of an array and no member of an object is null, at any depth.
unfoldable mutual
  pub is_filled : Value → Bool
  is_filled null = true
  is_filled (bool b) = true
  is_filled (number n) = true
  is_filled (string s) = true
  is_filled (array vs) = items_filled vs
  is_filled (object fs) = fields_filled fs

  pub items_filled : Items → Bool
  items_filled nil = true
  items_filled (cons v vs) = (not (is_null v) && is_filled v) && items_filled vs

  pub fields_filled : Fields → Bool
  fields_filled end = true
  fields_filled (field k v fs) = (not (is_null v) && is_filled v) && fields_filled fs

fields_filled-insert :
    (k : Str) (v : Value) (fs : Fields)
    → is_null v ≡ false
    → is_filled v ≡ true
    → fields_filled fs ≡ true
    → fields_filled (insert k v fs) ≡ true
unfolding fields_filled insert
fields_filled-insert k v end n f h = ground arith
fields_filled-insert k v (field j w fs) n f h = ground (arith, fields_filled-insert k v fs)

keep_item-filled :
    (v : Value) (vs : Items)
    → is_filled v ≡ true
    → items_filled vs ≡ true
    → items_filled (keep_item v vs) ≡ true
unfolding keep_item items_filled
keep_item-filled v vs f h = elim (Bool-cases (is_null v)) [ inl n ↦ rw n h | inr n ↦ ground arith ]

keep_field-filled :
    (k : Str) (v : Value) (fs : Fields)
    → is_filled v ≡ true
    → fields_filled fs ≡ true
    → fields_filled (keep_field k v fs) ≡ true
unfolding keep_field
keep_field-filled k v fs f h = elim (Bool-cases (is_null v)) [
  | inl n ↦ rw n h
  | inr n ↦ rw n (fields_filled-insert k v fs n f h)
]

kept_string-filled : (o : Option Str) → is_filled (kept_string o) ≡ true
unfolding kept_string is_filled
kept_string-filled none = refl
kept_string-filled (some s) = refl

mutual
  unfolding is_filled items_filled fields_filled walk walk_items walk_fields

  walk-filled : (env : Env) (v : Value) → is_filled (walk env v) ≡ true
  walk-filled env null = refl
  walk-filled env (bool b) = refl
  walk-filled env (number n) = refl
  walk-filled env (string s) = kept_string-filled (subst_string env s)
  walk-filled env (array vs) = walk_items-filled env vs
  walk-filled env (object fs) = walk_fields-filled env fs end refl

  walk_items-filled : (env : Env) (vs : Items) → items_filled (walk_items env vs) ≡ true
  walk_items-filled env nil = refl
  walk_items-filled env (cons v vs) =
      keep_item-filled (walk env v) (walk_items env vs) (walk-filled env v)
        (walk_items-filled env vs)

  walk_fields-filled :
      (env : Env) (fs out : Fields)
      → fields_filled out ≡ true
      → fields_filled (walk_fields env fs out) ≡ true
  walk_fields-filled env end out h = h
  walk_fields-filled env (field k v fs) out h =
      walk_fields-filled env fs (keep_field k (walk env v) out)
        (keep_field-filled k (walk env v) out (walk-filled env v) h)

-- `$` or `{`.
unfoldable pub opens : ℕ → Bool
opens c = c == 36 || c == 123

match_env_ref-plain : (c : ℕ) (cs : Str) → opens c ≡ false → match_env_ref (c ∷ cs) ≡ none
unfolding match_env_ref match_dollar strip_prefix opens
match_env_ref-plain c cs h = ground arith

subst_from-plain : (env : Env) (s : Str) → any opens s ≡ false → subst_from env 0 s ≡ some s
unfolding subst_from in_front
subst_from-plain env [] h = refl
subst_from-plain env (c ∷ cs) h =
    rw (subst_from, match_env_ref-plain c cs (ground arith), subst_from-plain env cs (ground arith))
      refl

-- Under any environment, no element of a walked array and no member of a walked object is null, at any
-- depth: what a missing variable unsets is gone. And a text with no `$` and no `{` is walked to itself.
pub walk-is_filled :
    (env : Env) (v : Value) (s : Str)
    → any opens s ≡ false
    → (is_filled (walk env v) ≡ true) × (walk env (string s) ≡ string s)
unfolding walk subst_string kept_string
walk-is_filled env v s h = (walk-filled env v, rw (subst_from-plain env s h) refl)
