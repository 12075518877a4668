-- ===== src/Prelude/Utf8.antt =====
-- UTF-8 validity and `String::from_utf8_lossy` of the standard library: each maximal prefix of a
-- well-formed sequence that breaks off is replaced by U+FFFD.
use Prim.Native.Nat.{ℕ, zero, suc, ◌<◌}
use mathlib.Core.Path.{◌≡◌, refl, ap}
use mathlib.Core.Bool.{Bool, true, false, ◌&&◌, ◌||◌}
use mathlib.Core.List.{[], ◌∷◌, ◌++◌}
use mathlib.Core.Option.{Option, none, some}
use native.Mathlib.Omega.{arith}
use wiremux.Prelude.Tests.{ltb, leb, ◌==◌, if◌then◌else◌}
use wiremux.Prelude.Lists.{take, All}
use wiremux.Prelude.Text.{Bytes, Str}

abbrev in_range : ℕ → ℕ → ℕ → Bool
in_range lo hi b = leb lo b && leb b hi

-- The byte at an index, 0 past the end.
byte_at : Bytes → ℕ → ℕ
byte_at [] i = 0
byte_at (b ∷ r) zero = b
byte_at (b ∷ r) (suc i) = byte_at r i

is_continuation : Bytes → ℕ → Bool
unfolding byte_at
is_continuation r i = in_range 0x80 0xbf (byte_at r i)

-- The second bytes that a lead byte of a three-byte and of a four-byte sequence allows.
second_of_three : ℕ → ℕ → Bool
second_of_three b c =
    (b == 0xe0 && in_range 0xa0 0xbf c)
    || ((in_range 0xe1 0xec b || in_range 0xee 0xef b) && in_range 0x80 0xbf c)
    || (b == 0xed && in_range 0x80 0x9f c)

second_of_four : ℕ → ℕ → Bool
second_of_four b c =
    (b == 0xf0 && in_range 0x90 0xbf c)
    || (in_range 0xf1 0xf3 b && in_range 0x80 0xbf c)
    || (b == 0xf4 && in_range 0x80 0x8f c)

-- Behind a byte `b`: how many bytes belong to its sequence, and whether the sequence is whole.
sequence : ℕ → Bytes → ℕ × Bool
unfolding is_continuation second_of_three second_of_four byte_at
sequence b r =
    if ltb b 0x80
    then (0, true)
    else if in_range 0xc2 0xdf b
    then (if is_continuation r 0 then (1, true) else (0, false))
    else if in_range 0xe0 0xef b && second_of_three b (byte_at r 0)
    then (if is_continuation r 1 then (2, true) else (1, false))
    else if in_range 0xf0 0xf4 b && second_of_four b (byte_at r 0)
    then (if is_continuation r 1
        then (if is_continuation r 2 then (3, true) else (2, false))
        else (1, false))
    else (0, false)

-- U+FFFD.
abbrev replacement : Str
replacement = 0xef ∷ 0xbf ∷ 0xbd ∷ []

-- The first argument counts the bytes that the sequence before them has taken.
lossy_from : ℕ → Bytes → Str
lossy_from k [] = []
lossy_from (suc k) (b ∷ r) = lossy_from k r
lossy_from zero (b ∷ r) =
    let s = sequence b r in (if s.1 then b ∷ take s.0 r else replacement) ++ lossy_from s.0 r

valid_from : ℕ → Bytes → Bool
valid_from k [] = true
valid_from (suc k) (b ∷ r) = valid_from k r
valid_from zero (b ∷ r) = let s = sequence b r in s.1 && valid_from s.0 r

unfoldable pub from_utf8_lossy : Bytes → Str
unfolding lossy_from sequence
from_utf8_lossy = lossy_from 0

unfoldable pub is_utf8 : Bytes → Bool
unfolding valid_from sequence
is_utf8 = valid_from 0

-- `String::from_utf8(..).ok()`.
unfoldable pub from_utf8 : Bytes → Option Str
unfolding is_utf8
from_utf8 b = if is_utf8 b then some b else none

lossy_from-valid : (k : ℕ) (b : Bytes) → valid_from k b ≡ true → take k b ++ lossy_from k b ≡ b
unfolding lossy_from valid_from
lossy_from-valid zero [] h = refl
lossy_from-valid (suc k) [] h = refl
lossy_from-valid (suc k) (b ∷ r) h = ap (λ t. b ∷ t) (lossy_from-valid k r h)
lossy_from-valid zero (b ∷ r) h = ground (arith, lossy_from-valid (sequence b r).0 r)

pub from_utf8_lossy-valid : (b : Bytes) → is_utf8 b ≡ true → from_utf8_lossy b ≡ b
unfolding from_utf8_lossy is_utf8
from_utf8_lossy-valid b h = lossy_from-valid 0 b h

-- ASCII text is UTF-8.
pub is_utf8-ascii : (b : Bytes) → All (λ c. c < 0x80) b → is_utf8 b ≡ true
unfolding is_utf8
is_utf8-ascii [] h = refl
is_utf8-ascii (c ∷ r) h = ground (arith, is_utf8-ascii r h.1)
