-- ===== src/Prelude/Trim.antt =====
-- `str::trim` and its kin on UTF-8 bytes, for every character of Unicode's White_Space, and the
-- ASCII cases. A suffix that begins inside a character is never taken for white space, since no
-- continuation byte begins one.
use Prim.Native.Nat.{ℕ, ◌+◌}
use mathlib.Core.Bool.{Bool, true, false, ◌&&◌, ◌||◌}
use mathlib.Core.List.{[], ◌∷◌, map}
use wiremux.Prelude.Tests.{leb, ◌==◌, if◌then◌else◌}
use wiremux.Prelude.Text.{Str, str_eq}

-- U+0009 to U+000D and U+0020.
is_space1 : ℕ → Bool
is_space1 a = (leb 9 a && leb a 13) || a == 32

-- U+0085 and U+00A0.
is_space2 : ℕ → ℕ → Bool
is_space2 a b = a == 0xC2 && (b == 0x85 || b == 0xA0)

-- U+1680, U+2000 to U+200A, U+2028, U+2029, U+202F, U+205F and U+3000.
is_space3 : ℕ → ℕ → ℕ → Bool
is_space3 a b c =
    (a == 0xE1 && (b == 0x9A && c == 0x80))
    || ((a == 0xE2
          && ((b == 0x80 && ((leb 0x80 c && leb c 0x8A) || (c == 0xA8 || (c == 0xA9 || c == 0xAF))))
              || (b == 0x81 && c == 0x9F)))
        || (a == 0xE3 && (b == 0x80 && c == 0x80)))

-- `trim_start`.
unfoldable pub trim_start : Str → Str
unfolding is_space1 is_space2 is_space3
trim_start [] = []
trim_start (a ∷ []) = elim (is_space1 a) [ true ↦ [] | false ↦ a ∷ [] ]
trim_start (a ∷ b ∷ []) = elim (is_space1 a) [
  | true ↦ trim_start (b ∷ [])
  | false ↦ elim (is_space2 a b) [ true ↦ [] | false ↦ a ∷ b ∷ [] ]
]
trim_start (a ∷ b ∷ c ∷ r) = elim (is_space1 a) [
  | true ↦ trim_start (b ∷ c ∷ r)
  | false ↦ elim (is_space2 a b) [
    | true ↦ trim_start (c ∷ r)
    | false ↦ elim (is_space3 a b c) [ true ↦ trim_start r | false ↦ a ∷ b ∷ c ∷ r ]
  ]
]

-- `trim().is_empty()`.
unfoldable pub is_blank : Str → Bool
is_blank s = elim (trim_start s) [ [] ↦ true | a ∷ r ↦ false ]

-- `trim_end`.
unfoldable pub trim_end : Str → Str
trim_end [] = []
trim_end (a ∷ r) = elim (is_blank (a ∷ r)) [ true ↦ [] | false ↦ a ∷ trim_end r ]

unfoldable pub trim : Str → Str
trim s = trim_end (trim_start s)

unfoldable pub to_ascii_lowercase : Str → Str
to_ascii_lowercase s = map (λ c. if leb b'A' c && leb c b'Z' then c + 32 else c) s

unfoldable pub eq_ignore_ascii_case : Str → Str → Bool
eq_ignore_ascii_case s t = str_eq (to_ascii_lowercase s) (to_ascii_lowercase t)
