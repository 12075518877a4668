-- ===== src/Stream/EventStream/Fuel.antt =====
-- crates/wiremux/src/stream/eventstream.rs: the loops of the model have fuel enough.
use wiremux.Prelude.{
  ℕ, zero, suc, ◌≤◌, inl, inr, [], ◌∷◌, ◌≢◌, length, saturating_add, drop, length-drop, ltb,
  Bool-cases, arith,
}
use wiremux.Prelude.Results.{Result, ok, err}
use wiremux.Prelude.Text.{Bytes}
use wiremux.Json.{Serde}
use wiremux.Stream.Frame.{StreamError, out_of_fuel}
use wiremux.Stream.EventStream.Bytes.{◌>>=◌, take_bytes, slice, from_be, prelude_len}
use wiremux.Stream.EventStream.Headers.{
  ParsedHeaders, parse_header, header_value, sized_bytes, utf8_value, signed_value,
  read_header_value, parse_headers_loop, parse_headers,
}
use wiremux.Stream.EventStream.Message.{take_whole, take_message}

-- What remains is no longer than `n`, and no error is the model's own.
abbrev Shrinks {ℓ} : {A : Type ℓ} → ℕ → Result StreamError (A × Bytes) → Type 0
Shrinks n (ok (a, rest)) = length rest ≤ n
Shrinks n (err e) = e ≢ out_of_fuel

take_bytes-Shrinks : (rest : Bytes) (n m : ℕ) → length rest ≤ m → Shrinks m (take_bytes rest n)
unfolding take_bytes
take_bytes-Shrinks rest n m h = elim (Bool-cases (ltb (length rest) n)) [
  | inl e ↦ rw e (λ z. cc z)
  | inr e ↦ rw e (omega (arith, length-drop n rest))
]

>>=-Shrinks {ℓ κ} :
    {A : Type ℓ} {B : Type κ} (n : ℕ) (m : Result StreamError (A × Bytes))
    (f : A × Bytes → Result StreamError (B × Bytes))
    → Shrinks n m
    → ((a : A) (rest : Bytes) → length rest ≤ n → Shrinks n (f (a, rest)))
    → Shrinks n (m >>= f)
>>=-Shrinks n (ok (a, rest)) f h k = k a rest h
>>=-Shrinks n (err e) f h k = h

sized_bytes-Shrinks : (rest : Bytes) → Shrinks (length rest) (sized_bytes rest)
unfolding sized_bytes
sized_bytes-Shrinks rest =
    >>=-Shrinks (length rest) (take_bytes rest 2) _ (take_bytes-Shrinks rest 2 _ (omega arith))
      (λ l rest' h. take_bytes-Shrinks rest' _ _ h)

utf8_value-Shrinks : (b rest : Bytes) (n : ℕ) → length rest ≤ n → Shrinks n (utf8_value (b, rest))
unfolding utf8_value
utf8_value-Shrinks b rest n h = ground arith

signed_value-Shrinks : (w : ℕ) (rest : Bytes) → Shrinks (length rest) (signed_value w rest)
unfolding signed_value
signed_value-Shrinks w rest =
    >>=-Shrinks (length rest) (take_bytes rest w) _ (take_bytes-Shrinks rest w _ (omega arith))
      (λ b rest' h. h)

read_string-Shrinks : (rest : Bytes) → Shrinks (length rest) (sized_bytes rest >>= utf8_value)
read_string-Shrinks rest =
    >>=-Shrinks (length rest) (sized_bytes rest) utf8_value (sized_bytes-Shrinks rest)
      (λ b rest' h. utf8_value-Shrinks b rest' (length rest) h)

read_header_value-Shrinks :
    (ty : ℕ) (rest : Bytes) → Shrinks (length rest) (read_header_value ty rest)
unfolding read_header_value
read_header_value-Shrinks ty rest = ground (
  arith,
  take_bytes-Shrinks rest 1 (length rest),
  take_bytes-Shrinks rest 16 (length rest),
  sized_bytes-Shrinks rest,
  read_string-Shrinks rest,
  signed_value-Shrinks 2 rest,
  signed_value-Shrinks 4 rest,
  signed_value-Shrinks 8 rest,
)

header_value-Shrinks : (rest : Bytes) → Shrinks (length rest) (header_value rest)
unfolding header_value
header_value-Shrinks [] = λ e. cc e
header_value-Shrinks (ty ∷ rest) = ground (arith, read_header_value-Shrinks ty rest)

parse_header-Shrinks :
    (n : ℕ) (rest : Bytes) (h : ParsedHeaders) → Shrinks (length rest) (parse_header n rest h)
unfolding parse_header
parse_header-Shrinks n rest h =
    ground (arith, header_value-Shrinks (drop n rest), length-drop n rest)

parse_headers_loop-fuel :
    (fuel : ℕ) (buf : Bytes) (h : ParsedHeaders)
    → length buf ≤ fuel
    → parse_headers_loop fuel buf h ≢ err out_of_fuel
unfolding parse_headers_loop
parse_headers_loop-fuel fuel [] h k = λ e. cc e
parse_headers_loop-fuel zero (b ∷ r) h k = elim k [ ]
parse_headers_loop-fuel (suc fuel) (b ∷ r) h k =
    loop (parse_header b r h) (parse_header-Shrinks b r h)
      (λ h' rest le. parse_headers_loop-fuel fuel rest h' (omega arith))
  where
    loop :
        (m : Result StreamError (ParsedHeaders × Bytes))
        → Shrinks (length r) m
        → ((h' : ParsedHeaders) (rest : Bytes)
            → length rest ≤ length r
            → parse_headers_loop fuel rest h' ≢ err out_of_fuel)
        → (m >>= λ x. parse_headers_loop fuel x.1 x.0) ≢ err out_of_fuel
    loop (ok (h', rest)) s ih = ih h' rest s
    loop (err e) s ih = λ q. ground (arith, s, q)

-- The headers of a message are always parsed to their end or refused by an error of the program.
pub parse_headers-fuel : (buf : Bytes) → parse_headers buf ≢ err out_of_fuel
unfolding parse_headers
parse_headers-fuel buf = parse_headers_loop-fuel (length buf) buf _ (omega arith)

take_whole-fuel :
    (serde : Serde) (buf : Bytes) (total headers_len : ℕ)
    → take_whole serde buf total headers_len ≢ err out_of_fuel
unfolding take_whole
take_whole-fuel serde buf total headers_len e =
    ground (
      arith,
      e,
      parse_headers-fuel (slice prelude_len (saturating_add prelude_len headers_len) buf),
    )

pub take_message-fuel : (serde : Serde) (buf : Bytes) → take_message serde buf ≢ err out_of_fuel
unfolding take_message
take_message-fuel serde buf e =
    ground
      (arith, e, take_whole-fuel serde buf (from_be (slice 0 4 buf) 0) (from_be (slice 4 8 buf) 0))
