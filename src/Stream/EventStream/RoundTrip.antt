-- ===== src/Stream/EventStream/RoundTrip.antt =====
-- crates/wiremux/src/stream/eventstream.rs: `take_message` reads what `encode_message` and
-- `encode_exception_message` write.
use native.Mathlib.Nat.{mod-eq_of_lt}
use wiremux.Prelude.{
  ℕ, ◌+◌, ◌-◌, ◌^◌, ◌≤◌, ◌<◌, ◌%◌, true, ◌++◌, some, ◌≡◌, refl, ap, sym, ◌∙◌, leb, ==_iff, le→ltb,
  length, take, length-append, take-append, drop-append, append_assoc, saturating_add, arith,
}
use wiremux.Prelude.Results.{ok}
use wiremux.Prelude.Text.{Bytes, Str, str_eq}
use wiremux.Prelude.Utf8.{is_utf8}
use wiremux.Json.{Serde}
use wiremux.Stream.EventStream.Bytes.{
  crc32_ieee, from_be, to_be4, slice, max_eventstream_pending, prelude_len, crc_len,
}
use wiremux.Stream.EventStream.Headers.{ParsedHeaders, parse_headers}
use wiremux.Stream.EventStream.Message.{
  frame, exception, exception_error, classify, take_whole, take_message,
}
use wiremux.Stream.EventStream.Encode.{
  encode_with_headers, encode_message, encode_exception_message, event_headers, exception_headers,
}
use wiremux.Stream.EventStream.HeaderTrip.{
  from_be-to_be4, event_header, exception_header, parse_headers-event, parse_headers-exception,
}

slice-append :
    {buf : Bytes} (i j : ℕ) (a b c : Bytes)
    → buf ≡ a ++ (b ++ c)
    → i ≡ length a
    → j ≡ length a + length b
    → slice i j buf ≡ b
slice-append i j a b c e p q =
    rw (e, q, p, drop-append) (rw (sub_self (length a) (length b)) (take-append b c))
  where
    sub_self : (m n : ℕ) → m + n - m ≡ n
    sub_self m n = omega arith

leb_of_le : (a b : ℕ) → a ≤ b → leb a b ≡ true
leb_of_le a b h = ground arith

module _ (serde : Serde) (headers payload rest : Bytes) where
  abbrev total : ℕ
  total = prelude_len + length headers + length payload + crc_len

  abbrev prelude : Bytes
  prelude = to_be4 (total % 2 ^ 32) ++ to_be4 (length headers % 2 ^ 32)

  abbrev body : Bytes
  body = prelude ++ (to_be4 (crc32_ieee prelude) ++ (headers ++ payload))

  abbrev buf : Bytes
  buf = encode_with_headers headers payload ++ rest

  length-body : length body ≡ total - crc_len
  unfolding to_be4
  length-body = omega (arith, length-append headers payload)

  length-encode : length (encode_with_headers headers payload) ≡ total
  unfolding encode_with_headers to_be4
  length-encode = omega (arith, length-append body (to_be4 (crc32_ieee body)), length-body)

  buf-eq-body : buf ≡ body ++ (to_be4 (crc32_ieee body) ++ rest)
  unfolding encode_with_headers
  buf-eq-body = append_assoc body _ rest

  first_slices :
      (slice 0 4 buf ≡ to_be4 (total % 2 ^ 32))
      × (slice 4 8 buf ≡ to_be4 (length headers % 2 ^ 32))
      × (slice 0 8 buf ≡ prelude)
      × (slice 8 12 buf ≡ to_be4 (crc32_ieee prelude))
  unfolding encode_with_headers to_be4
  first_slices = (refl, refl, refl, refl)

  abbrev tail : Bytes
  tail = to_be4 (crc32_ieee body) ++ rest

  buf_parts : buf ≡ (prelude ++ to_be4 (crc32_ieee prelude)) ++ (headers ++ (payload ++ tail))
  unfolding to_be4
  buf_parts = buf-eq-body ∙ rw (append_assoc headers payload tail) refl

  headers_slice : slice prelude_len (prelude_len + length headers) buf ≡ headers
  headers_slice =
      slice-append _ _ (prelude ++ to_be4 (crc32_ieee prelude)) headers (payload ++ tail) buf_parts
        (unfold to_be4 in refl) (unfold to_be4 in refl)

  payload_slice : slice (prelude_len + length headers) (total - crc_len) buf ≡ payload
  payload_slice =
      slice-append _ _ ((prelude ++ to_be4 (crc32_ieee prelude)) ++ headers) payload tail
        (buf_parts
          ∙ sym (append_assoc (prelude ++ to_be4 (crc32_ieee prelude)) headers (payload ++ tail)))
        (unfold to_be4 in omega arith) (unfold to_be4 in omega arith)

  body_slice : take (total - crc_len) buf ≡ body
  body_slice = rw (← length-body, buf-eq-body) (take-append body tail)

  crc_slice : slice (total - crc_len) total buf ≡ to_be4 (crc32_ieee body)
  crc_slice =
      slice-append _ _ body (to_be4 (crc32_ieee body)) rest buf-eq-body (sym length-body)
        (unfold to_be4 in omega (arith, length-body))

  length-buf : length buf ≡ total + length rest
  length-buf =
      length-append (encode_with_headers headers payload) rest
      ∙ ap (λ n. n + length rest) length-encode

crc-lt : (b : Bytes) → crc32_ieee b < 2 ^ 32
unfolding crc32_ieee
crc-lt b = omega arith

-- `take_whole` at a buffer whose parts pass its checks.
take_whole-parts :
    (serde : Serde) (buf : Bytes) (total headers_len : ℕ) (headers payload : Bytes)
    (h : ParsedHeaders)
    → crc32_ieee (take (total - crc_len) buf) ≡ from_be (slice (total - crc_len) total buf) 0
    → prelude_len + headers_len + crc_len ≤ total
    → total ≤ max_eventstream_pending
    → slice prelude_len (prelude_len + headers_len) buf ≡ headers
    → slice (prelude_len + headers_len) (total - crc_len) buf ≡ payload
    → parse_headers headers ≡ ok h
    → take_whole serde buf total headers_len ≡ ok (some (classify serde h payload total))
unfolding take_whole
take_whole-parts serde buf total headers_len headers payload h mc lo hi hs ps ph =
    rw (fits, (==_iff _ _).1 mc, le→ltb (total - crc_len) (prelude_len + headers_len) (omega arith))
      (rw (hs, ps) (rw ph))
  where
    fits : saturating_add prelude_len headers_len ≡ prelude_len + headers_len
    fits = omega arith

-- `take_message` at a buffer whose prelude passes its checks and that holds the message.
take_message-whole :
    (serde : Serde) (buf : Bytes) (total headers_len : ℕ)
    → from_be (slice 0 4 buf) 0 ≡ total
    → from_be (slice 4 8 buf) 0 ≡ headers_len
    → crc32_ieee (slice 0 8 buf) ≡ from_be (slice 8 12 buf) 0
    → prelude_len + crc_len ≤ total
    → total ≤ max_eventstream_pending
    → total ≤ length buf
    → take_message serde buf ≡ take_whole serde buf total headers_len
unfolding take_message
take_message-whole serde buf total headers_len t l pc lo hi whole =
    rw (t, l, (==_iff _ _).1 pc)
      (rw
        (le→ltb (length buf) prelude_len (omega arith), leb_of_le (prelude_len + crc_len) total lo)
        (rw (leb_of_le total max_eventstream_pending hi, le→ltb (length buf) total whole)))

-- An encoded message at the head of a buffer is taken whole: its headers as `parse_headers` reads
-- them, its payload, and as many bytes as the encoder wrote.
pub take_message-encode_with_headers :
    (serde : Serde) (headers payload rest : Bytes) (h : ParsedHeaders)
    → length (encode_with_headers headers payload) ≤ max_eventstream_pending
    → parse_headers headers ≡ ok h
    → take_message serde (encode_with_headers headers payload ++ rest)
      ≡ ok (some (classify serde h payload (length (encode_with_headers headers payload))))
take_message-encode_with_headers serde headers payload rest h fits ph = rw size (
    take_message-whole serde (buf serde headers payload rest) n (length headers)
      (ap (λ b. from_be b 0) s.0
        ∙ from_be-to_be4 _ (omega arith)
        ∙ mod-eq_of_lt (omega (arith, size)))
      (ap (λ b. from_be b 0) s.1
        ∙ from_be-to_be4 _ (omega arith)
        ∙ mod-eq_of_lt (omega (arith, size)))
      (rw (s.2, s.3) (sym (from_be-to_be4 _ (crc-lt _)))) (omega arith) (omega (arith, size))
      (omega (arith, length-buf serde headers payload rest))
    ∙ take_whole-parts serde (buf serde headers payload rest) n (length headers) headers payload h
        (rw (body_slice serde headers payload rest, crc_slice serde headers payload rest)
          (sym (from_be-to_be4 _ (crc-lt _))))
        (omega arith) (omega (arith, size)) (headers_slice serde headers payload rest)
        (payload_slice serde headers payload rest) ph)
  where
    n : ℕ
    n = total serde headers payload rest

    size : length (encode_with_headers headers payload) ≡ n
    size = length-encode serde headers payload rest

    s :
        (slice 0 4 (buf serde headers payload rest) ≡ to_be4 (n % 2 ^ 32))
        × (slice 4 8 (buf serde headers payload rest) ≡ to_be4 (length headers % 2 ^ 32))
        × (slice 0 8 (buf serde headers payload rest) ≡ prelude serde headers payload rest)
        × (slice 8 12 (buf serde headers payload rest)
            ≡ to_be4 (crc32_ieee (prelude serde headers payload rest)))
    s = first_slices serde headers payload rest

-- What `encode_message` writes is read back from the head of a buffer, whatever follows it: the
-- event's name, the payload, and the length of the message.
pub take_message-encode_message :
    (serde : Serde) (event_type : Str) (payload rest : Bytes)
    → length event_type < 2 ^ 16
    → is_utf8 event_type ≡ true
    → length (encode_message event_type payload) ≤ max_eventstream_pending
    → take_message serde (encode_message event_type payload ++ rest)
      ≡ ok (
          some (
            frame
              (record { event_type = some event_type; payload = payload })
              (length (encode_message event_type payload))))
unfolding encode_message
take_message-encode_message serde t payload rest h u fits =
    take_message-encode_with_headers serde (event_headers t) payload rest (event_header t) fits
      (parse_headers-event t h u)
    ∙ unfold classify str_eq in refl

-- What `encode_exception_message` writes is read back as an exception with the text that
-- `exception_error` gives.
pub take_message-encode_exception_message :
    (serde : Serde) (exception_type : Str) (payload rest : Bytes)
    → length exception_type < 2 ^ 16
    → is_utf8 exception_type ≡ true
    → length (encode_exception_message exception_type payload) ≤ max_eventstream_pending
    → take_message serde (encode_exception_message exception_type payload ++ rest)
      ≡ ok (
          some (
            exception
              (exception_error serde exception_type payload)
              (length (encode_exception_message exception_type payload))))
unfolding encode_exception_message
take_message-encode_exception_message serde t payload rest h u fits =
    take_message-encode_with_headers serde (exception_headers t) payload rest (exception_header t)
      fits (parse_headers-exception t h u)
    ∙ unfold classify str_eq in refl
