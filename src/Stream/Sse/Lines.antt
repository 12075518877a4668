-- ===== src/Stream/Sse/Lines.antt =====
-- crates/wiremux/src/stream/sse.rs: the lines of a buffer.
use wiremux.Prelude.{ℕ, ◌≤◌, false, List, [], ◌∷◌, ◌++◌, ◌≡◌, refl, length, arith}
use wiremux.Prelude.Text.{Bytes, contains_byte}
use wiremux.Stream.Sse.{split_lines}

-- Lines of a buffer, when bytes come behind it.
pub split_lines-append :
    (a b : Bytes)
    → split_lines (a ++ b) ≡ (
      (split_lines a).0 ++ (split_lines ((split_lines a).1 ++ b)).0,
      (split_lines ((split_lines a).1 ++ b)).1,
    )
unfolding split_lines
split_lines-append [] b = refl
split_lines-append (c ∷ a) b = ground (arith, split_lines-append a b)

-- Without a newline the bytes are one unfinished line.
pub split_lines-rest : (a : Bytes) → contains_byte b'\n' a ≡ false → split_lines a ≡ ([], a)
unfolding split_lines contains_byte
split_lines-rest [] h = refl
split_lines-rest (c ∷ a) h = ground (arith, split_lines-rest a)

-- What is left behind the last newline holds none.
pub split_lines-no_newline : (a : Bytes) → contains_byte b'\n' (split_lines a).1 ≡ false
unfolding split_lines contains_byte
split_lines-no_newline [] = refl
split_lines-no_newline (c ∷ a) = ground (arith, split_lines-no_newline a)

pub contains_byte-append :
    (c : ℕ) (a b : Bytes)
    → contains_byte c a ≡ false
    → contains_byte c b ≡ false
    → contains_byte c (a ++ b) ≡ false
unfolding contains_byte
contains_byte-append c [] b h k = k
contains_byte-append c (x ∷ a) b h k = ground (arith, contains_byte-append c a b)

abbrev pub first_segment : List Bytes × Bytes → Bytes
first_segment ([], rest) = rest
first_segment (l ∷ ls, rest) = l

pub first_segment-grows :
    (a b : Bytes)
    → contains_byte b'\n' a ≡ false
    → length a ≤ length (first_segment (split_lines (a ++ b)))
unfolding split_lines contains_byte
first_segment-grows [] b h = omega arith
first_segment-grows (c ∷ a) b h = ground (arith, first_segment-grows a b)
