-- ===== src/Stream/Sse/Chunks.antt =====
-- crates/wiremux/src/stream/sse.rs: how `feed` sees a stream that arrives in pieces.
use wiremux.Prelude.{
  ◌<◌, false, not, ◌&&◌, List, [], ◌∷◌, ◌++◌, ◌≡◌, refl, sym, ap, ◌∙◌, inl, inr, ltb, Bool-cases,
  lt→ltb, ltb→lt, length, length-append, append_assoc, append-nil, saturating_add, arith,
}
use mathlib.Core.Path.{fun_ext}
use mathlib.Core.List.{flatten}
use wiremux.Prelude.Results.{ok, err}
use wiremux.Prelude.Text.{Bytes, contains_byte}
use wiremux.Prelude.Utf8.{from_utf8_lossy}
use wiremux.Stream.Frame.{RawSse, sse_line_exceeds}
use wiremux.Stream.Sse.Lines.{
  split_lines-append, split_lines-rest, split_lines-no_newline, contains_byte-append, first_segment,
  first_segment-grows,
}
use wiremux.Stream.Sse.{
  SseFrameReader, Outcome, max_sse_pending, new, reset, take_frame, push_field, push_data, strip_cr,
  push_line, split_lines, feed_lines, feed, keep_rest,
}

-- The frames of an earlier piece stand before those of the pieces behind it; an error ends the
-- stream.
abbrev pub prepend_frames : List RawSse → Outcome (List RawSse) → Outcome (List RawSse)
prepend_frames fs (r, ok gs) = (r, ok (fs ++ gs))
prepend_frames fs (r, err e) = (r, err e)

abbrev pub and_then :
    Outcome (List RawSse) → (SseFrameReader → Outcome (List RawSse)) → Outcome (List RawSse)
and_then (r, ok fs) k = prepend_frames fs (k r)
and_then (r, err e) k = (r, err e)

abbrev with_buffer : Bytes → SseFrameReader → SseFrameReader
with_buffer x r = record r { buffer = x }

abbrev rebuffer {ℓ} : {A : Type ℓ} → Bytes → Outcome A → Outcome A
rebuffer x (r, ok a) = (with_buffer x r, ok a)
rebuffer x (r, err e) = (r, err e)

take_frame-with_buffer :
    (x : Bytes) (r : SseFrameReader)
    → take_frame (with_buffer x r) ≡ (with_buffer x (take_frame r).0, (take_frame r).1)
unfolding take_frame
take_frame-with_buffer x r = ground arith

push_line-with_buffer :
    (x : Bytes) (r : SseFrameReader) (l : Bytes)
    → push_line (with_buffer x r) l ≡ rebuffer x (push_line r l)
unfolding push_line push_field push_data reset
push_line-with_buffer x r l = ground (arith, take_frame-with_buffer x r)

feed_lines-with_buffer :
    (x : Bytes) (r : SseFrameReader) (ls : List Bytes)
    → feed_lines (with_buffer x r) ls ≡ rebuffer x (feed_lines r ls)
unfolding feed_lines reset
feed_lines-with_buffer x r [] = refl
feed_lines-with_buffer x r (l ∷ ls) =
    let t = from_utf8_lossy (strip_cr l) in
    ground (arith, push_line-with_buffer x r t, feed_lines-with_buffer x (push_line r t).0 ls)

feed_lines-append :
    (r : SseFrameReader) (ks ls : List Bytes)
    → feed_lines r (ks ++ ls) ≡ and_then (feed_lines r ks) (λ r'. feed_lines r' ls)
unfolding feed_lines
feed_lines-append r [] ls = ground arith
feed_lines-append r (k ∷ ks) ls =
    let t = from_utf8_lossy (strip_cr k) in
    ground (arith, feed_lines-append (push_line r t).0 ks ls)

-- The guard of `feed` refuses nothing that the checks behind it let through.
unfoldable pub unguarded : SseFrameReader → Bytes → Outcome (List RawSse)
unguarded r bytes =
    let (lines, rest) = split_lines (r.buffer ++ bytes) in keep_rest (feed_lines r lines) rest

keep_rest-with_buffer :
    (x rest : Bytes) (r : SseFrameReader) (ls : List Bytes)
    → keep_rest (feed_lines (with_buffer x r) ls) rest ≡ keep_rest (feed_lines r ls) rest
unfolding reset
keep_rest-with_buffer x rest r ls = ground (arith, feed_lines-with_buffer x r ls)

keep_rest-long :
    (r : SseFrameReader) (rest : Bytes)
    → max_sse_pending < length rest
    → keep_rest (r, ok []) rest ≡ (new, err sse_line_exceeds)
unfolding reset
keep_rest-long r rest h = rw (lt→ltb _ _ h)

feed_lines-nil : (r : SseFrameReader) → feed_lines r [] ≡ (r, ok [])
unfolding feed_lines
feed_lines-nil r = refl

unguarded-long :
    (r : SseFrameReader) (bytes : Bytes)
    → max_sse_pending < length (r.buffer ++ bytes)
    → contains_byte b'\n' bytes ≡ false
    → contains_byte b'\n' r.buffer ≡ false
    → unguarded r bytes ≡ (new, err sse_line_exceeds)
unfolding unguarded
unguarded-long r bytes h k l =
    rw
      (
        split_lines-rest (r.buffer ++ bytes) (contains_byte-append b'\n' r.buffer bytes l k),
        feed_lines-nil r,
      )
      (keep_rest-long r _ h)

pub feed-unguarded : (r : SseFrameReader) (bytes : Bytes) → feed r bytes ≡ unguarded r bytes
unfolding feed reset
feed-unguarded r bytes =
    elim (Bool-cases (
      ltb max_sse_pending (saturating_add (length r.buffer) (length bytes))
      && not (contains_byte b'\n' bytes)
      && not (contains_byte b'\n' r.buffer))) [
        | inl h ↦ rw h (
            sym (
              unguarded-long r bytes (ground (arith, length-append r.buffer bytes)) (ground arith)
                (ground arith)))
        | inr h ↦ rw h (unfold unguarded in keep_rest-with_buffer (r.buffer ++ bytes) _ r _)
      ]

long_segment :
    (s : List Bytes × Bytes) (r : SseFrameReader)
    → max_sse_pending < length (first_segment s)
    → keep_rest (feed_lines r s.0) s.1 ≡ (new, err sse_line_exceeds)
unfolding feed_lines reset
long_segment ([], rest) r h = rw (lt→ltb _ _ h)
long_segment (l ∷ ls, rest) r h = rw (lt→ltb _ _ h)

-- Behind a line that is too long already, the stream fails wherever its newline comes.
split_lines-long :
    (a b : Bytes)
    → contains_byte b'\n' a ≡ false
    → max_sse_pending < length a
    → (r : SseFrameReader)
    → keep_rest (feed_lines r (split_lines (a ++ b)).0) (split_lines (a ++ b)).1
      ≡ (new, err sse_line_exceeds)
split_lines-long a b h k r =
    long_segment (split_lines (a ++ b)) r (omega (arith, first_segment-grows a b h))

keep_rest-prepend_frames :
    (fs : List RawSse) (o : Outcome (List RawSse)) (rest : Bytes)
    → keep_rest (prepend_frames fs o) rest ≡ prepend_frames fs (keep_rest o rest)
keep_rest-prepend_frames fs o rest = ground arith

-- The second piece over the outcome of the first piece's lines.
second_piece :
    (o : Outcome (List RawSse)) (rest b : Bytes)
    → contains_byte b'\n' rest ≡ false
    → keep_rest
        (and_then o (λ r. feed_lines r (split_lines (rest ++ b)).0))
        (split_lines (rest ++ b)).1
      ≡ and_then (keep_rest o rest) (λ r. feed r b)
second_piece (r, err e) rest b h = refl
second_piece (r, ok fs) rest b h = elim (Bool-cases (ltb max_sse_pending (length rest))) [
  | inl long ↦
      rw (long, keep_rest-prepend_frames, split_lines-long rest b h (ltb→lt _ _ long) r)
        (unfold reset in refl)
  | inr short ↦
      rw (short, feed-unguarded, keep_rest-prepend_frames)
        (unfold unguarded in
          ap (prepend_frames fs) (sym (keep_rest-with_buffer rest (split_lines (rest ++ b)).1 r _)))
]

-- Two pieces of a stream, fed one behind the other, are read as the one piece that they make: the
-- same frames, the same reader afterwards, and the same error where there is one.
pub feed-append :
    (r : SseFrameReader) (a b : Bytes) → feed r (a ++ b) ≡ and_then (feed r a) (λ r'. feed r' b)
feed-append r a b =
    rw (feed-unguarded r (a ++ b), feed-unguarded r a)
      (unfold unguarded in
        rw (← append_assoc, split_lines-append (r.buffer ++ a) b, feed_lines-append)
          (second_piece (feed_lines r _) _ b (split_lines-no_newline _)))

-- A client's loop over the pieces of a body.
pub feed_all : SseFrameReader → Bytes → List Bytes → Outcome (List RawSse)
feed_all r piece [] = feed r piece
feed_all r piece (next ∷ pieces) = and_then (feed r piece) (λ r'. feed_all r' next pieces)

-- However a stream is cut into pieces, feeding them in turn reads what feeding it whole reads: the
-- same frames in the same order, the same reader afterwards, and the same error where there is one.
pub feed_all-eq-feed :
    (r : SseFrameReader) (piece : Bytes) (pieces : List Bytes)
    → feed_all r piece pieces ≡ feed r (piece ++ flatten pieces)
unfolding feed_all flatten
feed_all-eq-feed r piece [] = rw append-nil
feed_all-eq-feed r piece (next ∷ pieces) =
    ap (and_then (feed r piece)) (fun_ext (λ r'. feed_all-eq-feed r' next pieces))
    ∙ sym (feed-append r piece (next ++ flatten pieces))
