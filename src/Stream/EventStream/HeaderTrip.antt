-- ===== src/Stream/EventStream/HeaderTrip.antt =====
-- crates/wiremux/src/stream/eventstream.rs: `parse_headers` reads what `write_string_header` writes.
use native.Mathlib.Nat.{mod-eq_of_lt}
use wiremux.Prelude.{
  ℕ, suc, ◌+◌, ◌-◌, ◌^◌, ◌<◌, ◌%◌, true, [], ◌∷◌, ◌++◌, none, some, ◌≡◌, refl, sym, ◌∙◌, le→ltb,
  length, length-append, take-append, drop-append, append_assoc, append-nil, arith,
}
use wiremux.Prelude.Results.{ok}
use wiremux.Prelude.Text.{Bytes, Str, str, str_eq}
use wiremux.Prelude.Utf8.{is_utf8, from_utf8}
use wiremux.Stream.EventStream.Bytes.{from_be, to_be2, to_be4, take_bytes}
use wiremux.Stream.EventStream.Headers.{
  ParsedHeaders, no_headers, set_header, parse_header, header_value, sized_bytes, utf8_value,
  read_header_value, parse_headers_loop, parse_headers,
}
use wiremux.Stream.EventStream.Encode.{string_header, event_headers, exception_headers}

pub from_be-to_be2 : (n : ℕ) → n < 2 ^ 16 → from_be (to_be2 n) 0 ≡ n
unfolding from_be to_be2
from_be-to_be2 n h = omega arith

pub from_be-to_be4 : (n : ℕ) → n < 2 ^ 32 → from_be (to_be4 n) 0 ≡ n
unfolding from_be to_be4
from_be-to_be4 n h = omega arith

take_bytes-append : (a b : Bytes) (n : ℕ) → n ≡ length a → take_bytes (a ++ b) n ≡ ok (a, b)
unfolding take_bytes
take_bytes-append a b n e =
    rw
      (
        e,
        le→ltb (length (a ++ b)) (length a) (omega (arith, length-append a b)),
        take-append,
        drop-append,
      )
      refl

from_utf8-valid : (s : Str) → is_utf8 s ≡ true → from_utf8 s ≡ some s
unfolding from_utf8
from_utf8-valid s h = rw h

sized_bytes-append :
    (a b : Bytes)
    → length a < 2 ^ 16
    → sized_bytes (to_be2 (length a % 2 ^ 16) ++ (a ++ b)) ≡ ok (a, b)
unfolding sized_bytes
sized_bytes-append a b h =
    rw (take_bytes-append (to_be2 (length a % 2 ^ 16)) (a ++ b) 2 (unfold to_be2 in refl))
      (take_bytes-append a b _ (from_be-to_be2 _ (omega arith) ∙ mod-eq_of_lt h))

utf8_value-valid : (a b : Bytes) → is_utf8 a ≡ true → utf8_value (a, b) ≡ ok (a, b)
unfolding utf8_value
utf8_value-valid a b h = rw (from_utf8-valid a h, utf8_value)

header_value-string :
    (a b : Bytes)
    → length a < 2 ^ 16
    → is_utf8 a ≡ true
    → header_value (7 ∷ (to_be2 (length a % 2 ^ 16) ++ (a ++ b))) ≡ ok (a, b)
unfolding header_value read_header_value
header_value-string a b h u = rw (sized_bytes-append a b h) (utf8_value-valid a b u)

parse_header-value :
    (name t : Bytes) (h : ParsedHeaders) {value more : Bytes}
    → 0 < length t
    → is_utf8 name ≡ true
    → header_value t ≡ ok (value, more)
    → parse_header (length name) (name ++ t) h ≡ ok (set_header h name value, more)
unfolding parse_header
parse_header-value name t h k u e =
    rw
      (
        le→ltb (length (name ++ t)) (length name + 1) (omega (arith, length-append name t)),
        take-append,
      )
      (rw (from_utf8-valid name u) (rw drop-append (rw e)))

-- One header is read back, and the loop goes on behind it.
header_step :
    (fuel : ℕ) (name value more : Bytes) (h : ParsedHeaders)
    → length name < 2 ^ 8
    → length value < 2 ^ 16
    → is_utf8 name ≡ true
    → is_utf8 value ≡ true
    → parse_headers_loop (suc fuel) (string_header name value ++ more) h
      ≡ parse_headers_loop fuel more (set_header h name value)
unfolding parse_headers_loop string_header
header_step fuel name value more h n v nu vu =
    rw
      (
        append_assoc name (7 ∷ (to_be2 (length value % 2 ^ 16) ++ value)) more,
        append_assoc (to_be2 (length value % 2 ^ 16)) value more,
        mod-eq_of_lt n,
      )
      (rw (parse_header-value name _ h (omega arith) nu (header_value-string value more v vu)) refl)

length-string_header :
    (name value : Bytes) → length (string_header name value) ≡ length name + length value + 4
unfolding string_header to_be2
length-string_header name value =
    omega (arith, length-append name (7 ∷ (to_be2 (length value % 2 ^ 16) ++ value)))

-- Three headers in turn, with their own length as fuel.
three_headers :
    (name value name' value' name'' value'' : Bytes)
    → length name < 2 ^ 8
    → length value < 2 ^ 16
    → length name' < 2 ^ 8
    → length value' < 2 ^ 16
    → length name'' < 2 ^ 8
    → length value'' < 2 ^ 16
    → is_utf8 name ≡ true
    → is_utf8 value ≡ true
    → is_utf8 name' ≡ true
    → is_utf8 value' ≡ true
    → is_utf8 name'' ≡ true
    → is_utf8 value'' ≡ true
    → parse_headers
        (string_header name value ++ (string_header name' value' ++ string_header name'' value''))
      ≡ ok (set_header (set_header (set_header no_headers name value) name' value') name'' value'')
unfolding parse_headers
three_headers name value name' value' name'' value'' n v n' v' n'' v'' u w u' w' u'' w'' = rw fuel (
    rw
      (
        header_step _ name value _ no_headers n v u w,
        header_step _ name' value' _ (set_header no_headers name value) n' v' u' w',
      )
      (rw last (
        header_step _ name'' value'' [] (set_header (set_header no_headers name value) name' value')
          n'' v'' u'' w''
        ∙ unfold parse_headers_loop in refl)))
  where
    buf : Bytes
    buf = string_header name value ++ (string_header name' value' ++ string_header name'' value'')

    fuel : length buf ≡ suc (suc (suc (length buf - 3)))
    fuel = omega (
      arith,
      length-append (string_header name value)
          (string_header name' value' ++ string_header name'' value''),
      length-string_header name value,
    )

    last : string_header name'' value'' ≡ string_header name'' value'' ++ []
    last = sym (append-nil _)

abbrev pub event_header : Str → ParsedHeaders
event_header event_type = record {
  event_type = some event_type;
  message_type = some (str "event");
  exception_type = none;
}

abbrev pub exception_header : Str → ParsedHeaders
exception_header exception_type = record {
  event_type = none;
  message_type = some (str "exception");
  exception_type = some exception_type;
}

-- The headers that `encode_message` writes are read as the type of the event.
pub parse_headers-event :
    (event_type : Str)
    → length event_type < 2 ^ 16
    → is_utf8 event_type ≡ true
    → parse_headers (event_headers event_type) ≡ ok (event_header event_type)
parse_headers-event t h u =
    three_headers (str ":message-type") (str "event") (str ":event-type") t (str ":content-type")
      (str "application/json") (omega arith) (omega arith) (omega arith) h (omega arith)
      (omega arith) (unfold is_utf8 in refl) (unfold is_utf8 in refl) (unfold is_utf8 in refl) u
      (unfold is_utf8 in refl) (unfold is_utf8 in refl)
    ∙ unfold set_header str_eq in refl

pub parse_headers-exception :
    (exception_type : Str)
    → length exception_type < 2 ^ 16
    → is_utf8 exception_type ≡ true
    → parse_headers (exception_headers exception_type) ≡ ok (exception_header exception_type)
parse_headers-exception t h u =
    three_headers (str ":message-type") (str "exception") (str ":exception-type") t
      (str ":content-type") (str "application/json") (omega arith) (omega arith) (omega arith) h
      (omega arith) (omega arith) (unfold is_utf8 in refl) (unfold is_utf8 in refl)
      (unfold is_utf8 in refl) u (unfold is_utf8 in refl) (unfold is_utf8 in refl)
    ∙ unfold set_header str_eq in refl
