-- ===== src/Stream/EventStream/Encode.antt =====
-- crates/wiremux/src/stream/eventstream.rs: the encoder of messages.
use wiremux.Prelude.{◌+◌, ◌%◌, ◌^◌, ◌∷◌, ◌++◌, length}
use wiremux.Prelude.Text.{Bytes, Str, str}
use wiremux.Stream.EventStream.Bytes.{prelude_len, crc_len, crc32_ieee, to_be2, to_be4}

-- `write_string_header`; the lengths are truncated to `u8` and `u16`.
unfoldable pub string_header : Str → Str → Bytes
string_header name value =
    (length name % 2 ^ 8) ∷ (name ++ 7 ∷ (to_be2 (length value % 2 ^ 16) ++ value))

unfoldable pub encode_with_headers : Bytes → Bytes → Bytes
encode_with_headers headers payload =
    let total = prelude_len + length headers + length payload + crc_len in
    let prelude = to_be4 (total % 2 ^ 32) ++ to_be4 (length headers % 2 ^ 32) in
    let body = prelude ++ (to_be4 (crc32_ieee prelude) ++ (headers ++ payload)) in
    body ++ to_be4 (crc32_ieee body)

abbrev pub event_headers : Str → Bytes
event_headers event_type =
    string_header (str ":message-type") (str "event")
    ++ (string_header (str ":event-type") event_type
        ++ string_header (str ":content-type") (str "application/json"))

abbrev pub exception_headers : Str → Bytes
exception_headers exception_type =
    string_header (str ":message-type") (str "exception")
    ++ (string_header (str ":exception-type") exception_type
        ++ string_header (str ":content-type") (str "application/json"))

unfoldable pub encode_message : Str → Bytes → Bytes
encode_message event_type payload = encode_with_headers (event_headers event_type) payload

unfoldable pub encode_exception_message : Str → Bytes → Bytes
encode_exception_message exception_type payload =
    encode_with_headers (exception_headers exception_type) payload
