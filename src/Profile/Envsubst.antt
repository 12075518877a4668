-- ===== src/Profile/Envsubst.antt =====
-- crates/wiremux-auth/src/profile/envsubst.rs: the environment's variables in a profile's strings. The
-- environment is an argument. Texts are their bytes: a reference and its name are ASCII, and no byte
-- inside another character begins one.
pub mod Laws
use wiremux.Prelude.{
  ℕ, zero, suc, ◌+◌, ◌-◌, Bool, true, false, not, ◌&&◌, ◌||◌, ◌==◌, List, [], ◌∷◌, ◌++◌, Option,
  none, some, if◌then◌else◌, is_empty, leb, all, length,
}
use wiremux.Prelude.Text.{Str, str, strip_prefix, split_once}
use wiremux.Prelude.Trim.{trim}
use wiremux.Json.{
  Value, null, bool, number, string, array, object, Items, nil, cons, Fields, end, field, insert,
}

-- `std::env::var`.
abbrev pub Env : Type 0
Env = Str → Option Str

unfoldable pub is_word_start : ℕ → Bool
is_word_start c = (leb 65 c && leb c 90) || ((leb 97 c && leb c 122) || c == 95)

unfoldable pub is_word : ℕ → Bool
is_word c = is_word_start c || (leb 48 c && leb c 57)

unfoldable pub is_ident : Str → Bool
is_ident [] = false
is_ident (c ∷ cs) = is_word_start c && all is_word (c ∷ cs)

-- The longest front of word characters.
unfoldable pub word_front : Str → Str
word_front [] = []
word_front (c ∷ cs) = let rest = word_front cs in if is_word c then c ∷ rest else []

-- `&rest[..ident_prefix_len(rest)]`.
unfoldable pub ident_prefix : Str → Str
ident_prefix [] = []
ident_prefix (c ∷ cs) = if is_word_start c then word_front (c ∷ cs) else []

-- A reference with a brace behind its name: the name, and how many bytes it takes.
unfoldable pub braced : ℕ → Str → Option (Str × ℕ)
braced opened rest = elim (split_once 125 rest) [
  | none ↦ none
  | some (var, behind) ↦ (if is_ident var then some (var, opened + (length var + 1)) else none)
]

unfoldable pub bare : Str → Option (Str × ℕ)
bare rest = let var = ident_prefix rest in if is_empty var then none else some (var, 1 + length var)

match_dollar : Str → Option (Str × ℕ)
match_dollar s = elim (strip_prefix (str "${") s) [
  | some rest ↦ braced 2 rest
  | none ↦ elim (strip_prefix (str "$") s) [ some rest ↦ bare rest | none ↦ none ]
]

unfoldable pub match_env_ref : Str → Option (Str × ℕ)
unfolding match_dollar
match_env_ref s = elim (strip_prefix (str "{env:") s) [
  | some rest ↦ braced 5 rest
  | none ↦ match_dollar s
]

-- The value of a variable, unless it is missing or blank.
unfoldable pub set_value : Option Str → Option Str
set_value none = none
set_value (some v) = if is_empty (trim v) then none else some v

-- A text with a part in front, which unsets the whole when either is unset.
unfoldable pub in_front : Option Str → Option Str → Option Str
in_front none rest = none
in_front (some v) none = none
in_front (some v) (some rest) = some (v ++ rest)

module _ (env : Env) where
  -- The loop, behind as many bytes as the last reference still takes.
  unfoldable pub subst_from : ℕ → Str → Option Str
  subst_from skip [] = some []
  subst_from (suc skip) (c ∷ cs) = subst_from skip cs
  subst_from zero (c ∷ cs) = elim (match_env_ref (c ∷ cs)) [
    | none ↦ in_front (some (c ∷ [])) (subst_from zero cs)
    | some (var, consumed) ↦ in_front (set_value (env var)) (subst_from (consumed - 1) cs)
  ]

  unfoldable pub subst_string : Str → Option Str
  subst_string input = subst_from 0 input

abbrev pub is_null : Value → Bool
is_null null = true
is_null value = false

-- `Keep` and `Unset`.
unfoldable pub kept_string : Option Str → Value
kept_string none = null
kept_string (some s) = string s

unfoldable pub keep_item : Value → Items → Items
keep_item v vs = if is_null v then vs else cons v vs

unfoldable pub keep_field : Str → Value → Fields → Fields
keep_field k v out = if is_null v then out else insert k v out

unfoldable mutual
  pub walk : Env → Value → Value
  walk env (string s) = kept_string (subst_string env s)
  walk env (array vs) = array (walk_items env vs)
  walk env (object fs) = object (walk_fields env fs end)
  walk env null = null
  walk env (bool b) = bool b
  walk env (number n) = number n

  walk_items : Env → Items → Items
  walk_items env nil = nil
  walk_items env (cons v vs) = keep_item (walk env v) (walk_items env vs)

  -- The members that are kept, inserted into the map so far.
  walk_fields : Env → Fields → Fields → Fields
  walk_fields env end out = out
  walk_fields env (field k v fs) out = walk_fields env fs (keep_field k (walk env v) out)
