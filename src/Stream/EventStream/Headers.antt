-- ===== src/Stream/EventStream/Headers.antt =====
-- crates/wiremux/src/stream/eventstream.rs: the headers of a message.
use wiremux.Prelude.{
  ℕ, zero, suc, ◌+◌, ◌-◌, ◌*◌, ◌/◌, ◌%◌, ◌^◌, [], ◌∷◌, ◌++◌, map, Option, none, some, ltb, ◌==◌,
  if◌then◌else◌, length, take, drop,
}
use wiremux.Prelude.Results.{Result, ok, err}
use wiremux.Prelude.Text.{Bytes, Str, str, str_eq, join, decimal}
use wiremux.Prelude.Utf8.{from_utf8}
use wiremux.Stream.Frame.{
  StreamError, name_truncated, name_not_utf8, value_not_utf8, unknown_header_type, out_of_fuel,
}
use wiremux.Stream.EventStream.Bytes.{◌>>=◌, from_be, take_bytes}

-- `to_string` of the signed number of `w` bytes whose two's complement is `n`.
signed : ℕ → ℕ → Str
signed w n = if ltb n (2 ^ (8 * w - 1)) then decimal n else b'-' ∷ decimal (2 ^ (8 * w) - n)

hex_digit : ℕ → ℕ
hex_digit n = if ltb n 10 then b'0' + n else b'a' + (n - 10)

-- `format!("{x:02x}")` of each byte, joined by nothing.
unfoldable pub hex : Bytes → Str
unfolding hex_digit
hex [] = []
hex (b ∷ r) = hex_digit (b / 16) ∷ hex_digit (b % 16) ∷ hex r

-- `format!("{bytes:?}")`.
unfoldable pub debug_bytes : Bytes → Str
debug_bytes r = str "[" ++ (join (str ", ") (map decimal r) ++ str "]")

unfoldable pub signed_value : ℕ → Bytes → Result StreamError (Str × Bytes)
unfolding signed
signed_value w rest = do (b, rest') ← take_bytes rest w; ok (signed w (from_be b 0), rest')

-- A value behind its length in two bytes.
unfoldable pub sized_bytes : Bytes → Result StreamError (Bytes × Bytes)
sized_bytes rest = do (l, rest') ← take_bytes rest 2; take_bytes rest' (from_be l 0)

unfoldable pub utf8_value : Bytes × Bytes → Result StreamError (Str × Bytes)
utf8_value (b, rest) = elim (from_utf8 b) [ some s ↦ ok (s, rest) | none ↦ err value_not_utf8 ]

unfoldable pub read_header_value : ℕ → Bytes → Result StreamError (Str × Bytes)
read_header_value ty rest =
    if ty == 0
    then ok (str "true", rest)
    else if ty == 1
    then ok (str "false", rest)
    else if ty == 2
    then (do (b, rest') ← take_bytes rest 1; ok (decimal (from_be b 0), rest'))
    else if ty == 3
    then signed_value 2 rest
    else if ty == 4
    then signed_value 4 rest
    else if ty == 5
    then signed_value 8 rest
    else if ty == 6
    then (do (b, rest') ← sized_bytes rest; ok (debug_bytes b, rest'))
    else if ty == 7
    then (do b ← sized_bytes rest; utf8_value b)
    else if ty == 8
    then signed_value 8 rest
    else if ty == 9
    then (do (b, rest') ← take_bytes rest 16; ok (hex b, rest'))
    else err (unknown_header_type ty)

pub record ParsedHeaders : Type 0 where
  pub event_type : Option Str
  pub message_type : Option Str
  pub exception_type : Option Str

abbrev pub no_headers : ParsedHeaders
no_headers = record { event_type = none; message_type = none; exception_type = none }

-- The `match name` of the loop.
unfoldable pub set_header : ParsedHeaders → Str → Str → ParsedHeaders
set_header h name value =
    if str_eq name (str ":event-type")
    then record h { event_type = some value }
    else if str_eq name (str ":message-type")
    then record h { message_type = some value }
    else if str_eq name (str ":exception-type")
    then record h { exception_type = some value }
    else h

-- The type byte and the value behind a header's name.
unfoldable pub header_value : Bytes → Result StreamError (Str × Bytes)
header_value [] = err name_truncated
header_value (ty ∷ rest) = read_header_value ty rest

-- One round of the loop, at a slice that begins with the length of a name.
unfoldable pub parse_header : ℕ → Bytes → ParsedHeaders → Result StreamError (ParsedHeaders × Bytes)
parse_header name_len rest h =
    if ltb (length rest) (name_len + 1)
    then err name_truncated
    else elim (from_utf8 (take name_len rest)) [
      | none ↦ err name_not_utf8
      | some name ↦ (do
        (value, rest') ← header_value (drop name_len rest)
        ok (set_header h name value, rest'))
    ]

-- The loop takes two bytes at least in each round, so the slice's length is fuel enough.
unfoldable pub parse_headers_loop : ℕ → Bytes → ParsedHeaders → Result StreamError ParsedHeaders
parse_headers_loop fuel [] h = ok h
parse_headers_loop zero (b ∷ r) h = err out_of_fuel
parse_headers_loop (suc fuel) (b ∷ r) h = do
  (h', rest) ← parse_header b r h
  parse_headers_loop fuel rest h'

unfoldable pub parse_headers : Bytes → Result StreamError ParsedHeaders
parse_headers buf = parse_headers_loop (length buf) buf no_headers
