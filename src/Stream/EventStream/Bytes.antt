-- ===== src/Stream/EventStream/Bytes.antt =====
-- crates/wiremux/src/stream/eventstream.rs: lengths, the CRC, big-endian numbers and slices. A slice
-- `buf[a..b]` is `take (b - a) (drop a buf)`; a cursor into a slice is what remains of it.
use Prim.Native.Nat.{bit_and, bit_xor}
use wiremux.Prelude.{
  ℕ, zero, suc, ◌+◌, ◌-◌, ◌*◌, ◌/◌, ◌%◌, ◌^◌, [], ◌∷◌, ltb, ◌==◌, if◌then◌else◌, length, take, drop,
}
use wiremux.Prelude.Results.{Result, ok, err}
use wiremux.Prelude.Text.{Bytes}
use wiremux.Stream.Frame.{StreamError, value_truncated}

abbrev pub max_eventstream_pending : ℕ
max_eventstream_pending = 16 * 1024 * 1024

abbrev pub prelude_len : ℕ
prelude_len = 12

abbrev pub crc_len : ℕ
crc_len = 4

-- `Result` chains by `?`.
infixl 5 ◌>>=◌
abbrev pub ◌>>=◌ {ℓ κ} :
    {A : Type ℓ} {B : Type κ}
    → Result StreamError A
    → (A → Result StreamError B)
    → Result StreamError B
ok a >>= f = f a
err e >>= f = err e

-- One bit of the inner loop of `crc32_ieee`.
crc_bit : ℕ → ℕ
crc_bit crc = if bit_and crc 1 == 1 then bit_xor (crc / 2) 0xedb8_8320 else crc / 2

crc_bits : ℕ → ℕ → ℕ
unfolding crc_bit
crc_bits zero crc = crc
crc_bits (suc n) crc = crc_bits n (crc_bit crc)

crc_bytes : ℕ → Bytes → ℕ
unfolding crc_bits
crc_bytes crc [] = crc
crc_bytes crc (b ∷ r) = crc_bytes (crc_bits 8 (bit_xor crc b)) r

-- `!crc` on `u32`.
unfoldable pub crc32_ieee : Bytes → ℕ
unfolding crc_bytes
crc32_ieee r = bit_xor (crc_bytes 0xffff_ffff r) 0xffff_ffff % 2 ^ 32

-- `from_be_bytes` of the first bytes, and `to_be_bytes`.
unfoldable pub from_be : Bytes → ℕ → ℕ
from_be [] acc = acc
from_be (b ∷ r) acc = from_be r (acc * 256 + b)

unfoldable pub to_be2 : ℕ → Bytes
to_be2 n = (n / 256 % 256) ∷ (n % 256) ∷ []

unfoldable pub to_be4 : ℕ → Bytes
to_be4 n = (n / 2 ^ 24 % 256) ∷ (n / 2 ^ 16 % 256) ∷ (n / 2 ^ 8 % 256) ∷ (n % 256) ∷ []

abbrev pub slice : ℕ → ℕ → Bytes → Bytes
slice a b buf = take (b - a) (drop a buf)

-- `take_bytes(buf, &mut i, n)`: the slice, and what remains behind it.
unfoldable pub take_bytes : Bytes → ℕ → Result StreamError (Bytes × Bytes)
take_bytes rest n =
    if ltb (length rest) n then err value_truncated else ok (take n rest, drop n rest)
