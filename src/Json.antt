-- ===== src/Json.antt =====
-- The JSON values of `serde_json`, the data type that the source matches on and builds, and what it
-- reads from one. The parser and the printer of that crate are the fields of `Serde`.
use wiremux.Prelude.{
  ℕ, Bool, true, false, List, [], ◌∷◌, ◌≡◌, refl, Option, none, some, if◌then◌else◌, is_some, arith,
}
use wiremux.Prelude.Text.{Bytes, Str, str_eq, str_eq_iff, str_lt}

-- `Number`: a `u64`, a negative `i64` (`neg_int n` is -(n + 1)), or a finite `f64` by its bits.
pub data Number : Type 0 where
  pos_int neg_int float : ℕ → Number

-- `Value`, with the elements of an array and the entries of an object in the block.
mutual
  pub data Value : Type 0 where
    null : Value
    bool : Bool → Value
    number : Number → Value
    string : Str → Value
    array : Items → Value
    object : Fields → Value

  pub data Items : Type 0 where
    nil : Items
    cons : Value → Items → Items

  pub data Fields : Type 0 where
    end : Fields
    field : Str → Value → Fields → Fields

-- An array as a list.
abbrev pub items : Items → List Value
items nil = []
items (cons v vs) = v ∷ items vs

abbrev pub of_list : List Value → Items
of_list [] = nil
of_list (v ∷ vs) = cons v (of_list vs)

-- The entries of an object as a list.
abbrev pub entries : Fields → List (Str × Value)
entries end = []
entries (field k v fs) = (k, v) ∷ entries fs

-- `Map::get`.
unfoldable pub lookup : Str → Fields → Option Value
lookup k end = none
lookup k (field j v fs) = if str_eq j k then some v else lookup k fs

-- `Map::insert`: the keys of the map are sorted, and an entry of the same key is replaced.
unfoldable pub insert : Str → Value → Fields → Fields
insert k v end = field k v end
insert k v (field j w fs) =
    if str_eq j k
    then field k v fs
    else if str_lt k j
    then field k v (field j w fs)
    else field j w (insert k v fs)

-- `Value::get` at a key: nothing, unless the value is an object that has the key.
unfoldable pub get : Str → Value → Option Value
get k (object fs) = lookup k fs
get k _ = none

abbrev pub as_str : Value → Option Str
as_str (string s) = some s
as_str _ = none

abbrev pub as_array : Value → Option (List Value)
as_array (array vs) = some (items vs)
as_array _ = none

abbrev pub is_object : Value → Bool
is_object (object fs) = true
is_object _ = false

-- `serde_json::from_slice` and `Value::to_string`.
pub record Serde : Type 0 where
  pub from_slice : Bytes → Option Value
  pub to_string : Value → Str

-- A printed value is read back: the documented round trip of the crate.
pub record IsFaithful (serde : Serde) : Type 0 where
  pub from_slice-to_string : (v : Value) → serde.from_slice (serde.to_string v) ≡ some v

pub lookup-insert :
    (k j : Str) (v : Value) (fs : Fields)
    → lookup j (insert k v fs) ≡ (if str_eq k j then some v else lookup j fs)
unfolding lookup insert
lookup-insert k j v end = refl
lookup-insert k j v (field i w fs) =
    ground (arith, str_eq_iff i k, str_eq_iff i j, str_eq_iff k j, lookup-insert k j v fs)

-- `Map::remove`: a map holds a key once, so that all its entries are the one.
unfoldable pub remove : Str → Fields → Fields
remove k end = end
remove k (field j v fs) = if str_eq j k then remove k fs else field j v (remove k fs)

pub lookup-remove :
    (k j : Str) (fs : Fields) → lookup j (remove k fs) ≡ (if str_eq k j then none else lookup j fs)
unfolding lookup remove
lookup-remove k j end = ground arith
lookup-remove k j (field i v fs) =
    ground (arith, str_eq_iff i k, str_eq_iff i j, str_eq_iff k j, lookup-remove k j fs)

-- `Map::contains_key`.
unfoldable pub contains_key : Str → Fields → Bool
contains_key k fs = is_some (lookup k fs)

-- An object of the `json!` macro: the entries inserted in their order.
unfoldable pub fields_of : List (Str × Value) → Fields → Fields
fields_of [] fs = fs
fields_of ((k, v) ∷ kvs) fs = fields_of kvs (insert k v fs)

unfoldable pub json_object : List (Str × Value) → Value
json_object kvs = object (fields_of kvs end)

-- `json!(n)` at an unsigned number, and an array of the macro.
abbrev pub json_u32 : ℕ → Value
json_u32 n = number (pos_int n)

abbrev pub json_array : List Value → Value
json_array vs = array (of_list vs)

-- `as_object_mut` and `insert`: nothing, where the value is no object.
unfoldable pub set_key : Str → Value → Value → Value
set_key k v (object fs) = object (insert k v fs)
set_key k v value = value

-- `Value::as_u64`, `as_bool` and `as_object`.
abbrev pub as_u64 : Value → Option ℕ
as_u64 (number (pos_int n)) = some n
as_u64 _ = none

abbrev pub as_bool : Value → Option Bool
as_bool (bool b) = some b
as_bool _ = none
