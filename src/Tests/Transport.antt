-- ===== src/Tests/Transport.antt =====
-- The readers of crates/wiremux/src/stream/sse.rs and eventstream.rs at fixed inputs.
use wiremux.Prelude.{
  Bool, ◌+◌, ◌≤◌, ◌≢◌, List, [], ◌∷◌, ◌++◌, map, none, some, ◌≡◌, refl, ap, length, All, arith,
}
use mathlib.Core.List.{flatten}
use wiremux.Prelude.Results.{ok, err}
use wiremux.Prelude.Text.{
  Bytes, Str, str, str_eq, join, contains_byte, split_once, strip_prefix, starts_with_byte,
}
use wiremux.Prelude.Utf8.{is_utf8, from_utf8_lossy}
use wiremux.Json.{Serde}
use wiremux.Stream.Frame.{RawSse, out_of_fuel}
use wiremux.Stream.Sse
use wiremux.Stream.Sse.Chunks.{feed_all, feed_all-eq-feed}
use wiremux.Stream.Sse.Bounds.{
  IsWellFormed, IsCapped, feed-IsWellFormed, feed-IsCapped, finish-new, new-IsWellFormed,
}
use wiremux.Stream.EventStream.Bytes.{max_eventstream_pending, to_be2, to_be4}
use wiremux.Stream.EventStream.Message.{frame, exception, exception_error, take_message}
use wiremux.Stream.EventStream.Encode.{
  encode_message, encode_exception_message, encode_with_headers, string_header,
}
use wiremux.Stream.EventStream.Reader
use wiremux.Stream.EventStream.RoundTrip.{
  take_message-encode_message, take_message-encode_exception_message,
}
use wiremux.Stream.EventStream.Prefix.{take_message-append}
use wiremux.Stream.EventStream.Chunks.{
  feed-append, feed-encode_all, feed-fuel, encode_all, frame_of, IsOk, and_then,
}

abbrev hello : Bytes
hello = str "event: ping\ndata: hel"

abbrev world : Bytes
world = str "lo\ndata: you\n\n: note\nid: 7\n"

abbrev greeting : RawSse
greeting = record { event = some (str "ping"); payload = str "hello\nyou" }

-- A frame that two pieces bring, with a comment and an open frame behind it.
one_frame :
    Sse.feed Sse.new (hello ++ world)
    ≡ (record Sse.new { has_fields = Bool.true }, ok (greeting ∷ []))
unfolding Sse.feed Sse.feed_lines Sse.split_lines Sse.strip_cr Sse.push_line Sse.split_field
    Sse.push_field Sse.push_data Sse.take_frame Sse.field_value str_eq join contains_byte split_once
    strip_prefix starts_with_byte from_utf8_lossy
one_frame = refl

feed_all-eq-feed_example :
    feed_all Sse.new hello (world ∷ []) ≡ Sse.feed Sse.new (hello ++ flatten (world ∷ []))
feed_all-eq-feed_example = feed_all-eq-feed Sse.new hello (world ∷ [])

feed-IsWellFormed_example : IsWellFormed (Sse.feed Sse.new hello).0
feed-IsWellFormed_example = feed-IsWellFormed Sse.new hello new-IsWellFormed

feed-IsCapped_example : All IsCapped (greeting ∷ [])
feed-IsCapped_example =
    feed-IsCapped Sse.new (hello ++ world) (greeting ∷ []) new-IsWellFormed
      (ap (λ o. o.1) one_frame)

finish-new_example : (Sse.finish (Sse.feed Sse.new hello).0).0 ≡ Sse.new
finish-new_example = finish-new (Sse.feed Sse.new hello).0 feed-IsWellFormed_example

-- A parser that reads nothing and a printer that writes nothing.
abbrev blank : Serde
blank = record { from_slice = λ b. none; to_string = λ v. [] }

abbrev delta : Bytes
delta = str "{\"delta\":{}}"

stop_fits : length (encode_message (str "messageStop") delta) ≤ max_eventstream_pending
unfolding encode_message encode_with_headers string_header to_be2 to_be4
stop_fits = omega arith

stop_utf8 : is_utf8 (str "messageStop") ≡ Bool.true
unfolding is_utf8
stop_utf8 = refl

take_message-encode_message_example :
    take_message blank (encode_message (str "messageStop") delta ++ delta)
    ≡ ok (
        some (
          frame
            (record { event_type = some (str "messageStop"); payload = delta })
            (length (encode_message (str "messageStop") delta))))
take_message-encode_message_example =
    take_message-encode_message blank (str "messageStop") delta delta (omega arith) stop_utf8
      stop_fits

exception_fits :
    length (encode_exception_message (str "messageStop") delta) ≤ max_eventstream_pending
unfolding encode_exception_message encode_with_headers string_header to_be2 to_be4
exception_fits = omega arith

take_message-encode_exception_message_example :
    take_message blank (encode_exception_message (str "messageStop") delta ++ [])
    ≡ ok (
        some (
          exception
            (exception_error blank (str "messageStop") delta)
            (length (encode_exception_message (str "messageStop") delta))))
take_message-encode_exception_message_example =
    take_message-encode_exception_message blank (str "messageStop") delta [] (omega arith) stop_utf8
      exception_fits

take_message-append_example :
    take_message blank ((encode_message (str "messageStop") delta ++ delta) ++ delta)
    ≡ take_message blank (encode_message (str "messageStop") delta ++ delta)
take_message-append_example =
    take_message-append blank (encode_message (str "messageStop") delta ++ delta) delta
      (λ e. cc (e, take_message-encode_message_example))

abbrev stops : List (Str × Bytes)
stops = (str "messageStop", delta) ∷ []

stops_fit : length (encode_all blank stops) ≤ max_eventstream_pending
unfolding encode_all encode_message encode_with_headers string_header to_be2 to_be4
stops_fit = omega arith

feed-encode_all_example :
    Reader.feed blank Reader.new (encode_all blank stops)
    ≡ (Reader.new, ok (map (frame_of blank) stops, none))
feed-encode_all_example =
    feed-encode_all blank stops ((omega arith, stop_utf8, stop_fits), tt) stops_fit

stops-IsOk : IsOk (Reader.feed blank Reader.new (encode_all blank stops))
stops-IsOk = rw feed-encode_all_example tt

stops_and_hello : 0 + length (encode_all blank stops) + length hello ≤ max_eventstream_pending
unfolding encode_all encode_message encode_with_headers string_header to_be2 to_be4
stops_and_hello = omega arith

feed-append_example :
    Reader.feed blank Reader.new (encode_all blank stops ++ hello)
    ≡ and_then
        (Reader.feed blank Reader.new (encode_all blank stops))
        (λ r'. Reader.feed blank r' hello)
feed-append_example =
    feed-append blank Reader.new (encode_all blank stops) hello stops_and_hello stops-IsOk

feed-fuel_example : (Reader.feed blank Reader.new hello).1 ≢ err out_of_fuel
feed-fuel_example = feed-fuel blank Reader.new hello
