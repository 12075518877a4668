-- ===== src/Writeback.antt =====
-- crates/wiremux-auth/src/writeback.rs: the JSON pointers by which a refreshed token is written back.
pub mod Laws
use wiremux.Prelude.{
  ℕ, Bool, true, false, ◌&&◌, ◌||◌, List, [], ◌∷◌, ◌++◌, Option, none, some, if◌then◌else◌,
  is_empty, ltb, leb, ◌==◌, ◌+◌, ◌-◌, ◌*◌, usize_max,
}
use wiremux.Prelude.Text.{Str, str, str_eq}
use wiremux.Json.{
  Value, object, array, string, number, bool, null, Items, nil, cons, Fields, end, field, insert,
  lookup,
}

-- The errors of the source's `AuthError` that these functions return.
pub data AuthError : Type 0 where
  empty_write_refused : AuthError
  token_provider : Str → AuthError

-- `str::replace` of two bytes by one.
unfoldable pub replace_pair : ℕ → ℕ → ℕ → Str → Str
replace_pair a b c [] = []
replace_pair a b c (x ∷ []) = x ∷ []
replace_pair a b c (x ∷ y ∷ ys) =
    if (x == a) && (y == b) then c ∷ replace_pair a b c ys else x ∷ replace_pair a b c (y ∷ ys)

-- `~` is 126, `/` is 47, and `0` and `1` are 48 and 49.
unfoldable pub unescape_pointer_token : Str → Str
unescape_pointer_token token = replace_pair 126 48 126 (replace_pair 126 49 47 token)

-- `str::split` at a byte.
unfoldable pub split_at_byte : ℕ → Str → List Str
split_at_byte b [] = [] ∷ []
split_at_byte b (x ∷ xs) =
    if x == b
    then [] ∷ split_at_byte b xs
    else elim (split_at_byte b xs) [ [] ↦ (x ∷ []) ∷ [] | s ∷ ss ↦ (x ∷ s) ∷ ss ]

abbrev pub tokens_of : List Str → List Str
tokens_of [] = []
tokens_of (t ∷ ts) = unescape_pointer_token t ∷ tokens_of ts

-- The digits of a number behind the ones that were read.
digits : ℕ → Str → Option ℕ
digits n [] = some n
digits n (d ∷ ds) = if leb 48 d && leb d 57 then digits (10 * n + (d - 48)) ds else none

bounded : Option ℕ → Option ℕ
bounded none = none
bounded (some n) = if leb n usize_max then some n else none

some_digits : Str → Option ℕ
some_digits [] = none
some_digits (d ∷ ds) = bounded (digits 0 (d ∷ ds))

-- `str::parse::<usize>`: digits behind a `+` that may be there, within the width.
pub parse_usize : Str → Option ℕ
parse_usize [] = none
parse_usize (d ∷ ds) = if d == 43 then some_digits ds else some_digits (d ∷ ds)

unfoldable pub get_item : ℕ → Items → Option Value
get_item i nil = none
get_item i (cons v vs) = if i == 0 then some v else get_item (i - 1) vs

unfoldable pub set_item : ℕ → Value → Items → Items
set_item i w nil = nil
set_item i w (cons v vs) = if i == 0 then cons w vs else cons v (set_item (i - 1) w vs)

unfoldable pub step_into : Str → Value → Option Value
step_into key (object map) = lookup key map
step_into key (array arr) = elim (parse_usize key) [ none ↦ none | some i ↦ get_item i arr ]
step_into key _ = none

unfoldable pub get_at : List Str → Value → Option Value
get_at [] doc = some doc
get_at (t ∷ ts) doc = elim (step_into t doc) [ none ↦ none | some v ↦ get_at ts v ]

-- `pointer_get` behind its first byte.
unfoldable pub pointer_get : Value → Str → Option Value
pointer_get doc [] = some doc
pointer_get doc (c ∷ rest) =
    if c == 47 then get_at (tokens_of (split_at_byte 47 rest)) doc else none

-- The member of an object that the walk enters: a container that is there, or a new object.
unfoldable pub entered : Option Value → Value
entered (some (object map)) = object map
entered (some (array arr)) = array arr
entered _ = object end

bad_index : Str → AuthError
bad_index token = token_provider (str "JSON pointer array index `" ++ (token ++ str "`"))

out_of_range : AuthError
out_of_range = token_provider (str "JSON pointer array index out of range")

-- A slot of an array by its token: its index, or why there is none.
pub data Slot : Type 0 where
  slot : ℕ → Value → Slot
  no_slot : AuthError → Slot

unfoldable pub find_slot : Str → Items → Slot
unfolding bad_index out_of_range
find_slot token arr = elim (parse_usize token) [
  | none ↦ no_slot (bad_index token)
  | some i ↦ elim (get_item i arr) [ none ↦ no_slot out_of_range | some v ↦ slot i v ]
]

-- The document after the write and the error, if it is refused: the parents that it made stay.
unfoldable pub set_at : List Str → Value → Value → Value × Option AuthError
set_at [] value doc = (doc, some empty_write_refused)
set_at (t ∷ []) value (object map) = (object (insert t value map), none)
set_at (t ∷ []) value (array arr) = elim (find_slot t arr) [
  | no_slot e ↦ (array arr, some e)
  | slot i v ↦ (array (set_item i value arr), none)
]
set_at (t ∷ u ∷ ts) value (object map) =
    let (child, e) = set_at (u ∷ ts) value (entered (lookup t map)) in
    (object (insert t child map), e)
set_at (t ∷ u ∷ ts) value (array arr) = elim (find_slot t arr) [
  | no_slot e ↦ (array arr, some e)
  | slot i v ↦ let (child, e) = set_at (u ∷ ts) value v in (array (set_item i child arr), e)
]
set_at (t ∷ ts) value doc = (doc, some empty_write_refused)

bad_pointer : Str → AuthError
bad_pointer pointer = token_provider (str "invalid JSON pointer `" ++ (pointer ++ str "`"))

unfoldable pub is_root_pointer : Str → Bool
is_root_pointer pointer = is_empty pointer

unfoldable pub pointer_set : Value → Str → Value → Value × Option AuthError
unfolding bad_pointer
pointer_set doc [] value = (doc, some empty_write_refused)
pointer_set doc (c ∷ rest) value =
    if c == 47
    then set_at (tokens_of (split_at_byte 47 rest)) value doc
    else (doc, some (bad_pointer (c ∷ rest)))
