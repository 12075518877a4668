-- ===== src/Stream/EventStream/Message.antt =====
-- crates/wiremux/src/stream/eventstream.rs: `take_message` and the frame of a message.
use wiremux.Prelude.{
  ℕ, ◌+◌, ◌-◌, not, ◌&&◌, ◌++◌, Option, none, some, ltb, leb, ◌==◌, if◌then◌else◌, length, is_empty,
  take, saturating_add,
}
use wiremux.Prelude.Results.{Result, ok, err}
use wiremux.Prelude.Text.{Bytes, Str, str, str_eq}
use wiremux.Prelude.Utf8.{from_utf8_lossy}
use wiremux.Stream.Frame.{
  RawSse, StreamError, prelude_crc_mismatch, message_crc_mismatch, headers_overflow,
  total_length_invalid,
}
use wiremux.Json.{Value, object, field, end, Serde, lookup, get, as_str}
use wiremux.Stream.EventStream.Bytes.{
  max_eventstream_pending, prelude_len, crc_len, ◌>>=◌, crc32_ieee, from_be, slice,
}
use wiremux.Stream.EventStream.Headers.{ParsedHeaders, parse_headers}

pub record EventStreamMessage : Type 0 where
  pub event_type : Option Str
  pub payload : Bytes

pub data Take : Type 0 where
  frame : EventStreamMessage → ℕ → Take
  exception : Str → ℕ → Take

-- `exception_error`: the `message` of a JSON payload, or the payload as text.
module _ (serde : Serde) where
  payload_message : Bytes → Option Str
  payload_message payload = elim (serde.from_slice payload) [
    | none ↦ none
    | some value ↦ elim (get (str "message") value) [ none ↦ none | some m ↦ as_str m ]
  ]

  unfoldable pub exception_error : Str → Bytes → Str
  unfolding payload_message
  exception_error exception_type payload =
      str "eventstream exception "
      ++ (exception_type
          ++ (str ": "
              ++ elim (payload_message payload) [ some m ↦ m | none ↦ from_utf8_lossy payload ]))

  -- The message that the headers announce.
  unfoldable pub classify : ParsedHeaders → Bytes → ℕ → Take
  classify headers payload total =
      let plain = frame (record { event_type = headers.event_type; payload = payload }) total in
      elim headers.message_type [
        | none ↦ plain
        | some t ↦
            if str_eq t (str "exception")
            then exception
                (exception_error (elim headers.exception_type [ some e ↦ e | none ↦ str "unknown" ])
                  payload)
                total
            else plain
      ]

  -- The checks behind the prelude, at a buffer that holds the whole message.
  unfoldable pub take_whole : Bytes → ℕ → ℕ → Result StreamError (Option Take)
  take_whole buf total headers_len =
      let headers_end = saturating_add prelude_len headers_len in
      if not
        (crc32_ieee (take (total - crc_len) buf) == from_be (slice (total - crc_len) total buf) 0)
      then err message_crc_mismatch
      else if ltb (total - crc_len) headers_end
      then err headers_overflow
      else do
        headers ← parse_headers (slice prelude_len headers_end buf)
        ok (some (classify headers (slice headers_end (total - crc_len) buf) total))

  unfoldable pub take_message : Bytes → Result StreamError (Option Take)
  take_message buf =
      let total = from_be (slice 0 4 buf) 0 in
      let headers_len = from_be (slice 4 8 buf) 0 in
      if ltb (length buf) prelude_len
      then ok none
      else if not (crc32_ieee (slice 0 8 buf) == from_be (slice 8 12 buf) 0)
      then err prelude_crc_mismatch
      else if not (leb (prelude_len + crc_len) total && leb total max_eventstream_pending)
      then err (total_length_invalid total)
      else if ltb (length buf) total
      then ok none
      else take_whole buf total headers_len

  -- `wrap_event_payload`: an object that lacks the event's name is put under that name.
  wrap_object : Str → Str → Option Value → Str
  wrap_object event_type text (some (object fs)) = elim (lookup event_type fs) [
    | some v ↦ text
    | none ↦ serde.to_string (object (field event_type (object fs) end))
  ]
  wrap_object event_type text _ = text

  unfoldable pub wrap_event_payload : Option Str → Bytes → Str
  unfolding wrap_object
  wrap_event_payload none payload = from_utf8_lossy payload
  wrap_event_payload (some name) payload =
      if is_empty name
      then from_utf8_lossy payload
      else wrap_object name (from_utf8_lossy payload) (serde.from_slice payload)

  unfoldable pub into_raw_sse : EventStreamMessage → RawSse
  into_raw_sse m = record {
    event = m.event_type;
    payload = wrap_event_payload m.event_type m.payload;
  }
