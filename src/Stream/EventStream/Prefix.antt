-- ===== src/Stream/EventStream/Prefix.antt =====
-- crates/wiremux/src/stream/eventstream.rs: `take_message` looks at the message at the head of the
-- buffer and at nothing behind it.
use wiremux.Prelude.{
  ℕ, zero, suc, ◌+◌, ◌-◌, ◌≤◌, inl, inr, [], ◌∷◌, ◌++◌, none, some, ◌≡◌, ◌≢◌, refl, ap, ltb, ltb→le,
  Bool-cases, length, take, drop, length-append, saturating_add, arith,
}
use wiremux.Prelude.Results.{ok}
use wiremux.Prelude.Text.{Bytes}
use wiremux.Json.{Serde}
use wiremux.Stream.EventStream.Bytes.{from_be, slice, prelude_len, crc_len}
use wiremux.Stream.EventStream.Message.{Take, frame, exception, classify, take_whole, take_message}

pub take-append_le : (n : ℕ) (a b : Bytes) → n ≤ length a → take n (a ++ b) ≡ take n a
take-append_le zero a b h = refl
take-append_le (suc n) [] b h = elim h [ ]
take-append_le (suc n) (x ∷ a) b h = ap (λ t. x ∷ t) (take-append_le n a b (omega arith))

pub drop-append_le : (n : ℕ) (a b : Bytes) → n ≤ length a → drop n (a ++ b) ≡ drop n a ++ b
drop-append_le zero a b h = refl
drop-append_le (suc n) [] b h = elim h [ ]
drop-append_le (suc n) (x ∷ a) b h = drop-append_le n a b (omega arith)

length-drop_le : (n : ℕ) (a : Bytes) → length (drop n a) ≡ length a - n
length-drop_le zero a = omega arith
length-drop_le (suc n) [] = omega arith
length-drop_le (suc n) (x ∷ a) = omega (arith, length-drop_le n a)

slice-append_le : (i j : ℕ) (a b : Bytes) → i ≤ j → j ≤ length a → slice i j (a ++ b) ≡ slice i j a
slice-append_le i j a b h k =
    rw (drop-append_le i a b (omega arith))
      (take-append_le (j - i) (drop i a) b (omega (arith, length-drop_le i a)))

take_whole-append :
    (serde : Serde) (buf more : Bytes) (total headers_len : ℕ)
    → crc_len ≤ total
    → total ≤ length buf
    → take_whole serde (buf ++ more) total headers_len ≡ take_whole serde buf total headers_len
unfolding take_whole
take_whole-append serde buf more total headers_len lo h =
    rw
      (
        take-append_le (total - crc_len) buf more (omega arith),
        slice-append_le (total - crc_len) total buf more (omega arith) h,
      )
      (elim (Bool-cases (ltb (total - crc_len) headers_end)) [
        | inl over ↦ rw over
        | inr within ↦ rw (
          slice-append_le prelude_len headers_end buf more (omega arith)
              (omega (arith, ltb→le _ _ within)),
          slice-append_le headers_end (total - crc_len) buf more (omega (arith, ltb→le _ _ within))
              (omega arith),
        )
      ])
  where
    headers_end : ℕ
    headers_end = saturating_add prelude_len headers_len

-- A message, an exception or an error at the head of a buffer is found whatever comes behind.
pub take_message-append :
    (serde : Serde) (buf more : Bytes)
    → take_message serde buf ≢ ok none
    → take_message serde (buf ++ more) ≡ take_message serde buf
unfolding take_message
take_message-append serde buf more h = elim (Bool-cases (ltb (length buf) prelude_len)) [
  | inl short ↦ absurd (h (rw short))
  | inr long ↦
      rw
        (
          slice-append_le 0 4 buf more (omega arith) (omega (arith, ltb→le _ _ long)),
          slice-append_le 4 8 buf more (omega arith) (omega (arith, ltb→le _ _ long)),
          slice-append_le 0 8 buf more (omega arith) (omega (arith, ltb→le _ _ long)),
          slice-append_le 8 12 buf more (omega arith) (omega (arith, ltb→le _ _ long)),
        )
        (ground (
          arith,
          long,
          h,
          length-append buf more,
          take_whole-append serde buf more (from_be (slice 0 4 buf) 0) (from_be (slice 4 8 buf) 0),
        ))
]

abbrev pub consumed : Take → ℕ
consumed (frame m n) = n
consumed (exception e n) = n

take_whole-consumed :
    (serde : Serde) (buf : Bytes) (total headers_len : ℕ) (t : Take)
    → take_whole serde buf total headers_len ≡ ok (some t)
    → consumed t ≡ total
unfolding take_whole classify
take_whole-consumed serde buf total headers_len t h = ground arith

-- A message takes its prelude and its checksum at least, and no more than the buffer holds.
pub take_message-consumed :
    (serde : Serde) (buf : Bytes) (t : Take)
    → take_message serde buf ≡ ok (some t)
    → (prelude_len + crc_len ≤ consumed t) × (consumed t ≤ length buf)
unfolding take_message
take_message-consumed serde buf t h =
    ground (
      arith,
      take_whole-consumed serde buf (from_be (slice 0 4 buf) 0) (from_be (slice 4 8 buf) 0) t,
    )
