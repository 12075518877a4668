-- ===== src/Stream/Fields.antt =====
-- crates/wiremux/src/stream/mod.rs: what the decoders of the wires read from a JSON value, and a frame.
use wiremux.Prelude.{ℕ, Option, none, some, if◌then◌else◌, ltb, leb, u32_max, is_empty}
use wiremux.Prelude.Results.{Result, ok, err}
use wiremux.Prelude.Text.{Str, str, decimal}
use wiremux.Prelude.{◌++◌}
use wiremux.Json.{Value, get, as_str, as_u64, Serde}
use wiremux.Map.Error.{MapError, invalid}
use wiremux.Stream.Frame.{RawSse}

-- A frame before its JSON is printed: the name of its event and its JSON.
abbrev pub Frame : Type 0
Frame = Str × Value

-- `named`.
unfoldable pub named : Serde → Frame → RawSse
named serde (event, value) = record { event = some event; payload = serde.to_string value }

-- `Option::filter(|s| !s.is_empty())`.
unfoldable pub non_empty : Option Str → Option Str
non_empty none = none
non_empty (some s) = if is_empty s then none else some s

unfoldable pub or_text : Option Str → Str → Str
or_text none s = s
or_text (some t) s = t

-- `value.get(key)?` and a reader behind it.
abbrev pub bind_option {ℓ κ} : {A : Type ℓ} {B : Type κ} → Option A → (A → Option B) → Option B
bind_option none f = none
bind_option (some a) f = f a

abbrev pub or_value : Option Value → Value → Value
or_value none v = v
or_value (some w) v = w

unfoldable pub str_field : Value → Str → Option Str
str_field value key = bind_option (get key value) as_str

-- `u32::try_from(n).ok()`.
unfoldable pub try_u32 : ℕ → Option ℕ
try_u32 n = if leb n u32_max then some n else none

unfoldable pub u32_field : Value → Str → Option ℕ
u32_field value key = bind_option (bind_option (get key value) as_u64) try_u32

unfoldable pub or_zero : Option ℕ → ℕ
or_zero none = 0
or_zero (some n) = n

-- `Value::pointer` at two keys that are no array index.
unfoldable pub get2 : Str → Str → Value → Option Value
get2 a b value = bind_option (get a value) (get b)

abbrev pub max_content_block_index : ℕ
max_content_block_index = 128

unfoldable pub check_index_of : Option Value → ℕ → Str → Result MapError (Unit {0})
check_index_of none max_index kind = ok tt
check_index_of (some raw) max_index kind = elim (as_u64 raw) [
  | none ↦ err (invalid (kind ++ str " index must be an unsigned integer"))
  | some n ↦
      (if ltb max_index n
        then err (
            invalid (
              kind
              ++ (str " index "
                  ++ (decimal n ++ (str " exceeds cap (" ++ (decimal max_index ++ str ")"))))))
        else ok tt)
]

unfoldable pub check_index : Value → Str → ℕ → Str → Result MapError (Unit {0})
check_index value key max_index kind = check_index_of (get key value) max_index kind
