-- ===== src/Stream/Sse/Bounds.antt =====
-- crates/wiremux/src/stream/sse.rs: what a reader holds between calls, and the caps.
use wiremux.Prelude.{
  ◌+◌, ◌≤◌, true, false, List, [], ◌∷◌, ◌++◌, Option, none, some, ◌≡◌, refl, sym, inl, inr, ltb,
  Bool-cases, ltb→le, if◌then◌else◌, is_empty, length, length-append, All, option_list, arith,
}
use mathlib.Core.Path.{subst}
use wiremux.Prelude.Results.{Result, ok, err}
use wiremux.Prelude.Text.{Bytes, Str, str, join, contains_byte, trim_end_matches}
use wiremux.Prelude.Utf8.{from_utf8_lossy}
use wiremux.Stream.Frame.{RawSse, StreamError}
use wiremux.Stream.Sse.{
  SseFrameReader, Outcome, max_sse_pending, new, reset, take_frame, push_line, push_data,
  push_field, split_field, strip_cr, feed_lines, feed, finish, keep_rest, or_take_frame, go_on,
  prepend,
}
use wiremux.Stream.Sse.Chunks.{unguarded, feed-unguarded}
use wiremux.Stream.Sse.Lines.{split_lines-no_newline}

-- What holds of a reader between two calls: the open line is within the cap and holds no newline,
-- the counter is the length of the joined payload and is within the cap, and a reader with no open
-- frame holds no field.
pub record IsWellFormed (r : SseFrameReader) : Type 0 where
  pub no_newline : contains_byte b'\n' r.buffer ≡ false
  pub buffered : length r.buffer ≤ max_sse_pending
  pub counted : r.data_bytes ≡ length (join (str "\n") r.data_lines)
  pub capped : r.data_bytes ≤ max_sse_pending
  pub idle_event : r.has_fields ≡ false → r.event ≡ none
  pub idle_data : r.has_fields ≡ false → r.data_lines ≡ []

-- What the loop keeps of it: the buffer may be any.
record Holds (r : SseFrameReader) : Type 0 where
  counted : r.data_bytes ≡ length (join (str "\n") r.data_lines)
  capped : r.data_bytes ≤ max_sse_pending
  idle_event : r.has_fields ≡ false → r.event ≡ none
  idle_data : r.has_fields ≡ false → r.data_lines ≡ []

abbrev pub IsCapped : RawSse → Type 0
IsCapped f = length f.payload ≤ max_sse_pending

length-join-concat :
    (ls : List Str) (v : Str)
    → length (join (str "\n") (ls ++ v ∷ []))
      ≡ (if is_empty ls then length v else length (join (str "\n") ls) + length v + 1)
unfolding join
length-join-concat [] v = refl
length-join-concat (l ∷ []) v = ground (arith, length-append l (str "\n" ++ v))
length-join-concat (l ∷ k ∷ ls) v = omega (
  arith,
  length-append l (str "\n" ++ join (str "\n") (k ∷ ls ++ v ∷ [])),
  length-append l (str "\n" ++ join (str "\n") (k ∷ ls)),
  length-join-concat (k ∷ ls) v,
)

new-Holds : Holds new
unfolding join
new-Holds = record {
  counted = refl;
  capped = omega arith;
  idle_event = λ _. refl;
  idle_data = λ _. refl;
}

push_data-Holds : (r : SseFrameReader) (v : Str) → Holds r → Holds (push_data r v).0
unfolding push_data reset join
push_data-Holds r v h = ground (arith, length-join-concat r.data_lines v)

take_frame-Holds : (r : SseFrameReader) → Holds r → Holds (take_frame r).0
unfolding take_frame join
take_frame-Holds r h = ground arith

push_field-Holds :
    (r : SseFrameReader) (name value : Str) → Holds r → Holds (push_field r name value).0
unfolding push_field
push_field-Holds r name value h = ground (arith, push_data-Holds r value)

push_line-Holds : (r : SseFrameReader) (l : Str) → Holds r → Holds (push_line r l).0
unfolding push_line
push_line-Holds r l h =
    ground (arith, take_frame-Holds r, push_field-Holds r (split_field l).0 (split_field l).1)

abbrev IsCappedFrames : Result StreamError (List RawSse) → Type 0
IsCappedFrames (ok fs) = All IsCapped fs
IsCappedFrames (err e) = Unit

abbrev IsCappedFrame : Result StreamError (Option RawSse) → Type 0
IsCappedFrame (ok fs) = All IsCapped (option_list fs)
IsCappedFrame (err e) = Unit

take_frame-IsCapped : (r : SseFrameReader) → Holds r → All IsCapped (option_list (take_frame r).1)
unfolding take_frame
take_frame-IsCapped r h = ground arith

push_field-IsCapped :
    (r : SseFrameReader) (name value : Str) → IsCappedFrame (push_field r name value).1
unfolding push_field push_data
push_field-IsCapped r name value = ground arith

push_line-IsCapped : (r : SseFrameReader) (l : Str) → Holds r → IsCappedFrame (push_line r l).1
unfolding push_line
push_line-IsCapped r l h =
    ground (arith, take_frame-IsCapped r, push_field-IsCapped r (split_field l).0 (split_field l).1)

feed_lines-Holds : (r : SseFrameReader) (ls : List Bytes) → Holds r → Holds (feed_lines r ls).0
unfolding feed_lines reset
feed_lines-Holds r [] h = h
feed_lines-Holds r (l ∷ ls) h =
    let t = from_utf8_lossy (strip_cr l) in
    ground (arith, new-Holds, push_line-Holds r t, feed_lines-Holds (push_line r t).0 ls)

prepend-IsCapped :
    (o : Option RawSse) (m : Outcome (List RawSse))
    → All IsCapped (option_list o)
    → IsCappedFrames m.1
    → IsCappedFrames (prepend o m).1
prepend-IsCapped none (r, ok fs) h k = k
prepend-IsCapped (some f) (r, ok fs) h k = (h.0, k)
prepend-IsCapped o (r, err e) h k = tt

feed_lines-IsCapped :
    (r : SseFrameReader) (ls : List Bytes) → Holds r → IsCappedFrames (feed_lines r ls).1
unfolding feed_lines
feed_lines-IsCapped r [] h = tt
feed_lines-IsCapped r (l ∷ ls) h = elim (Bool-cases (ltb max_sse_pending (length l))) [
  | inl long ↦ rw long tt
  | inr short ↦ rw short (
      go_on-IsCapped (push_line r t) (push_line-IsCapped r t h)
        (feed_lines-IsCapped (push_line r t).0 ls (push_line-Holds r t h)))
]
  where
    t : Str
    t = from_utf8_lossy (strip_cr l)

    go_on-IsCapped :
        (m : Outcome (Option RawSse))
        → IsCappedFrame m.1
        → IsCappedFrames (feed_lines m.0 ls).1
        → IsCappedFrames (go_on m (λ r'. feed_lines r' ls)).1
    go_on-IsCapped (r', ok o) h k = prepend-IsCapped o (feed_lines r' ls) h k
    go_on-IsCapped (r', err e) h k = tt

-- An error leaves the reader empty.
abbrev IsReset {ℓ} : {A : Type ℓ} → Outcome A → Type 0
IsReset (r, ok a) = Unit
IsReset (r, err e) = r ≡ new

push_line-IsReset : (r : SseFrameReader) (l : Str) → IsReset (push_line r l)
unfolding push_line push_field push_data reset
push_line-IsReset r l = ground arith

feed_lines-IsReset : (r : SseFrameReader) (ls : List Bytes) → IsReset (feed_lines r ls)
unfolding feed_lines reset
feed_lines-IsReset r [] = tt
feed_lines-IsReset r (l ∷ ls) =
    let t = from_utf8_lossy (strip_cr l) in
    ground (arith, push_line-IsReset r t, feed_lines-IsReset (push_line r t).0 ls)

pub new-IsWellFormed : IsWellFormed new
unfolding join contains_byte
new-IsWellFormed = record {
  no_newline = refl;
  buffered = omega arith;
  counted = refl;
  capped = omega arith;
  idle_event = λ _. refl;
  idle_data = λ _. refl;
}

keep_rest-IsWellFormed :
    (o : Outcome (List RawSse)) (rest : Bytes)
    → Holds o.0
    → IsReset o
    → contains_byte b'\n' rest ≡ false
    → IsWellFormed (keep_rest o rest).0
unfolding reset
keep_rest-IsWellFormed (r, err e) rest h k n = subst IsWellFormed (sym k) new-IsWellFormed
keep_rest-IsWellFormed (r, ok fs) rest h k n =
    elim (Bool-cases (ltb max_sse_pending (length rest))) [
      | inl long ↦ rw long new-IsWellFormed
      | inr short ↦ rw short (record {
        no_newline = n;
        buffered = ltb→le _ _ short;
        counted = h.counted;
        capped = h.capped;
        idle_event = h.idle_event;
        idle_data = h.idle_data;
      })
    ]

keep_rest-IsCapped :
    (o : Outcome (List RawSse)) (rest : Bytes)
    → IsCappedFrames o.1
    → IsCappedFrames (keep_rest o rest).1
keep_rest-IsCapped (r, err e) rest h = tt
keep_rest-IsCapped (r, ok fs) rest h = ground (arith, h)

holds : {r : SseFrameReader} → IsWellFormed r → Holds r
holds h = record {
  counted = h.counted;
  capped = h.capped;
  idle_event = h.idle_event;
  idle_data = h.idle_data;
}

-- Whatever bytes arrive, accepted or refused, `feed` leaves a well-formed reader.
pub feed-IsWellFormed :
    (r : SseFrameReader) (bytes : Bytes) → IsWellFormed r → IsWellFormed (feed r bytes).0
feed-IsWellFormed r bytes h = rw (feed-unguarded r bytes) (
    unfold unguarded in
    keep_rest-IsWellFormed (feed_lines r _) _ (feed_lines-Holds r _ (holds h))
      (feed_lines-IsReset r _) (split_lines-no_newline _))

-- Every frame that `feed` emits has a payload within the cap.
pub feed-IsCapped :
    (r : SseFrameReader) (bytes : Bytes) (frames : List RawSse)
    → IsWellFormed r
    → (feed r bytes).1 ≡ ok frames
    → All IsCapped frames
feed-IsCapped r bytes frames h e = subst IsCappedFrames e (
    rw (feed-unguarded r bytes) (
      unfold unguarded in
      keep_rest-IsCapped (feed_lines r _) _ (feed_lines-IsCapped r _ (holds h))))

take_frame-new : (r : SseFrameReader) → Holds r → r.buffer ≡ [] → (take_frame r).0 ≡ new
unfolding take_frame join
take_frame-new r h e = ground arith

push_line-buffer : (r : SseFrameReader) (l : Str) → r.buffer ≡ [] → (push_line r l).0.buffer ≡ []
unfolding push_line push_field push_data take_frame reset
push_line-buffer r l e = ground arith

-- A line that closes a frame leaves the reader as `take_frame` does.
abbrev IsTaken : Outcome (Option RawSse) → Type 0
IsTaken (r, ok none) = Unit
IsTaken (r, ok (some f)) = r ≡ new
IsTaken (r, err e) = r ≡ new

push_line-IsTaken :
    (r : SseFrameReader) (l : Str) → Holds r → r.buffer ≡ [] → IsTaken (push_line r l)
unfolding push_line push_field push_data reset
push_line-IsTaken r l h e = ground (arith, take_frame-new r h e)

or_take_frame-new :
    (o : Outcome (Option RawSse))
    → IsTaken o
    → Holds o.0
    → o.0.buffer ≡ []
    → (or_take_frame o).0 ≡ new
or_take_frame-new (r, ok none) k h e = take_frame-new r h e
or_take_frame-new (r, ok (some f)) k h e = k
or_take_frame-new (r, err e') k h e = k

-- At the end of a body a well-formed reader, with an open frame or none, becomes a fresh reader.
pub finish-new : (r : SseFrameReader) → IsWellFormed r → (finish r).0 ≡ new
unfolding finish
finish-new r h = elim (Bool-cases (is_empty r.buffer)) [
  | inl e ↦ rw e (take_frame-new r (holds h) (is_empty-nil r.buffer e))
  | inr e ↦ rw e (
      or_take_frame-new (push_line r' t) (push_line-IsTaken r' t h' refl) (push_line-Holds r' t h')
        (push_line-buffer r' t refl))
]
  where
    r' : SseFrameReader
    r' = record r { buffer = [] }

    t : Str
    t = trim_end_matches b'\r' (from_utf8_lossy r.buffer)

    h' : Holds r'
    h' = record {
      counted = h.counted;
      capped = h.capped;
      idle_event = h.idle_event;
      idle_data = h.idle_data;
    }

    is_empty-nil : (x : Bytes) → is_empty x ≡ true → x ≡ []
    is_empty-nil x e = ground arith
