-- ===== src/CappedBody.antt =====
-- crates/wiremux/src/capped_body.rs: a body that is read up to a cap. The response is its declared
-- length and the chunks that it gives, a chunk that fails to arrive as none.
use wiremux.Prelude.{
  ℕ, Bool, false, List, [], ◌∷◌, ◌++◌, Option, none, some, if◌then◌else◌, ltb, saturating_add,
  usize_max, length, length-append, append_assoc, append-nil, ◌≡◌, ◌≤◌, ◌<◌, ◌+◌, arith,
}
use wiremux.Prelude.Results.{Result, ok, err}
use wiremux.Prelude.Text.{Bytes, Str}
use wiremux.Prelude.Utf8.{from_utf8_lossy}

-- The texts of the two refusals by what they are built from.
pub data CappedBodyError : Type 0 where
  -- len, cap
  declared_too_large : ℕ → ℕ → CappedBodyError
  too_large : ℕ → CappedBodyError
  read_error : CappedBodyError

unfoldable pub read_chunks : ℕ → Bytes → List (Option Bytes) → Result CappedBodyError Bytes
read_chunks cap_bytes buf [] = ok buf
read_chunks cap_bytes buf (none ∷ chunks) = err read_error
read_chunks cap_bytes buf (some chunk ∷ chunks) =
    if ltb cap_bytes (saturating_add (length buf) (length chunk))
    then err (too_large cap_bytes)
    else read_chunks cap_bytes (buf ++ chunk) chunks

to_text : Result CappedBodyError Bytes → Result CappedBodyError Str
to_text (ok buf) = ok (from_utf8_lossy buf)
to_text (err e) = err e

unfoldable pub is_declared_over : Option ℕ → ℕ → Bool
is_declared_over none cap_bytes = false
is_declared_over (some len) cap_bytes = ltb cap_bytes len

declared : Option ℕ → ℕ
declared none = 0
declared (some len) = len

unfoldable pub read_capped_text : Option ℕ → List (Option Bytes) → ℕ → Result CappedBodyError Str
unfolding to_text is_declared_over declared
read_capped_text content_length chunks cap_bytes =
    if is_declared_over content_length cap_bytes
    then err (declared_too_large (declared content_length) cap_bytes)
    else to_text (read_chunks cap_bytes [] chunks)

unfoldable pub concat : List Bytes → Bytes
concat [] = []
concat (c ∷ cs) = c ++ concat cs

unfoldable pub arrived : List Bytes → List (Option Bytes)
arrived [] = []
arrived (c ∷ cs) = some c ∷ arrived cs

read_chunks-arrived :
    (n : ℕ) (buf : Bytes) (cs : List Bytes)
    → n < usize_max
    → length buf ≤ n
    → read_chunks n buf (arrived cs) ≡ (
        if ltb n (length buf + length (concat cs))
        then err (too_large n)
        else ok (buf ++ concat cs))
unfolding read_chunks concat arrived
read_chunks-arrived n buf [] h k = ground (arith, append-nil buf)
read_chunks-arrived n buf (c ∷ cs) h k = ground (
  arith,
  read_chunks-arrived n (buf ++ c) cs h,
  length-append buf c,
  length-append c (concat cs),
  append_assoc buf c (concat cs),
)

-- A body whose chunks all arrive is read whole when it is within the cap, however it is cut, and is
-- refused as too large when it is not, provided that no length is declared above the cap and that the
-- cap is below usize::MAX.
pub read_capped_text-arrived :
    (len : Option ℕ) (cs : List Bytes) (n : ℕ)
    → n < usize_max
    → is_declared_over len n ≡ false
    → read_capped_text len (arrived cs) n
      ≡ (if ltb n (length (concat cs)) then err (too_large n) else ok (from_utf8_lossy (concat cs)))
unfolding read_capped_text to_text
read_capped_text-arrived len cs n h k = ground (arith, read_chunks-arrived n [] cs h)
