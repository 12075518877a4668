-- ===== src/Stream/Sse.antt =====
-- crates/wiremux/src/stream/sse.rs: the incremental reader of SSE frames. A method `&mut self`
-- returns the new reader with its result.
mod Lines
pub mod Bounds
pub mod Chunks
use wiremux.Prelude.{
  ℕ, ◌*◌, Bool, true, false, not, ◌&&◌, ◌||◌, List, [], ◌∷◌, ◌++◌, Option, none, some, ltb, ◌==◌,
  if◌then◌else◌, length, is_empty, option_list, saturating_add,
}
use wiremux.Prelude.Results.{Result, ok, err}
use wiremux.Prelude.Text.{
  Bytes, Str, str, str_eq, starts_with_byte, contains_byte, strip_prefix, split_once,
  trim_end_matches, join,
}
use wiremux.Prelude.Utf8.{from_utf8_lossy}
use wiremux.Stream.Frame.{RawSse, StreamError, sse_line_exceeds, sse_data_exceeds}

abbrev pub max_sse_pending : ℕ
max_sse_pending = 16 * 1024 * 1024

pub record SseFrameReader : Type 0 where
  pub buffer : Bytes
  pub event : Option Str
  pub data_lines : List Str
  pub data_bytes : ℕ
  pub has_fields : Bool

-- `SseFrameReader::default()`.
abbrev pub new : SseFrameReader
new = record { buffer = []; event = none; data_lines = []; data_bytes = 0; has_fields = false }

abbrev pub Outcome {ℓ} : Type ℓ → Type ℓ
Outcome A = SseFrameReader × Result StreamError A

unfoldable pub reset : SseFrameReader → SseFrameReader
reset r = record { buffer = []; event = none; data_lines = []; data_bytes = 0; has_fields = false }

unfoldable pub take_frame : SseFrameReader → SseFrameReader × Option RawSse
take_frame r = if not r.has_fields then (r, none) else (
  record r { event = none; data_lines = []; data_bytes = 0; has_fields = false },
  some (record { event = r.event; payload = join (str "\n") r.data_lines }),
)

-- The arm for `data`, whose payload may not grow past the cap.
unfoldable pub push_data : SseFrameReader → Str → Outcome (Option RawSse)
push_data r value =
    let extra = if is_empty r.data_lines then length value else saturating_add (length value) 1 in
    if ltb max_sse_pending (saturating_add r.data_bytes extra)
    then (reset r, err sse_data_exceeds)
    else (
      record r {
        data_lines = r.data_lines ++ value ∷ [];
        data_bytes = saturating_add r.data_bytes extra;
        has_fields = true;
      },
      ok none,
    )

-- A field's name and value: `value.strip_prefix(' ').unwrap_or(value)`.
unfoldable pub field_value : Str → Str
field_value value = elim (strip_prefix (str " ") value) [ some rest ↦ rest | none ↦ value ]

unfoldable pub split_field : Str → Str × Str
split_field line = elim (split_once b':' line) [
  | some (name, value) ↦ (name, field_value value)
  | none ↦ (line, [])
]

unfoldable pub push_field : SseFrameReader → Str → Str → Outcome (Option RawSse)
push_field r name value =
    if str_eq name (str "event")
    then (record r { event = some value; has_fields = true }, ok none)
    else if str_eq name (str "data")
    then push_data r value
    else if str_eq name (str "id") || str_eq name (str "retry")
    then (record r { has_fields = true }, ok none)
    else (r, ok none)

unfoldable pub push_line : SseFrameReader → Str → Outcome (Option RawSse)
push_line r line =
    if is_empty line
    then (let (r', frame) = take_frame r in (r', ok frame))
    else if starts_with_byte b':' line
    then (r, ok none)
    else (let (name, value) = split_field line in push_field r name value)

-- The lines of the buffer that a newline ends, and the bytes behind the last newline.
unfoldable pub split_lines : Bytes → List Bytes × Bytes
split_lines [] = ([], [])
split_lines (b ∷ r) =
    let (lines, rest) = split_lines r in
    if b == b'\n'
    then ([] ∷ lines, rest)
    else elim lines [ [] ↦ ([], b ∷ rest) | l ∷ ls ↦ ((b ∷ l) ∷ ls, rest) ]

-- A line without one carriage return at its end.
unfoldable pub strip_cr : Bytes → Bytes
strip_cr [] = []
strip_cr (b ∷ []) = if b == b'\r' then [] else b ∷ []
strip_cr (b ∷ c ∷ r) = b ∷ strip_cr (c ∷ r)

-- `out` behind the frame of one line.
abbrev pub prepend : Option RawSse → Outcome (List RawSse) → Outcome (List RawSse)
prepend frame (r, ok frames) = (r, ok (option_list frame ++ frames))
prepend frame (r, err e) = (r, err e)

-- The rest of the loop, behind the outcome of one `push_line` and its `?`.
abbrev pub go_on :
    Outcome (Option RawSse) → (SseFrameReader → Outcome (List RawSse)) → Outcome (List RawSse)
go_on (r, ok frame) k = prepend frame (k r)
go_on (r, err e) k = (r, err e)

-- The loop of `feed` over the lines that the buffer holds.
unfoldable pub feed_lines : SseFrameReader → List Bytes → Outcome (List RawSse)
feed_lines r [] = (r, ok [])
feed_lines r (l ∷ ls) =
    let rest = λ (r' : SseFrameReader). feed_lines r' ls in
    if ltb max_sse_pending (length l)
    then (reset r, err sse_line_exceeds)
    else go_on (push_line r (from_utf8_lossy (strip_cr l))) rest

-- The drain of the consumed prefix, and the check of what stays buffered.
abbrev pub keep_rest : Outcome (List RawSse) → Bytes → Outcome (List RawSse)
keep_rest (r, err e) rest = (r, err e)
keep_rest (r, ok frames) rest =
    if ltb max_sse_pending (length rest)
    then (reset r, err sse_line_exceeds)
    else (record r { buffer = rest }, ok frames)

unfoldable pub feed : SseFrameReader → Bytes → Outcome (List RawSse)
feed r bytes =
    if ltb max_sse_pending (saturating_add (length r.buffer) (length bytes))
      && not (contains_byte b'\n' bytes)
      && not (contains_byte b'\n' r.buffer)
    then (reset r, err sse_line_exceeds)
    else (let buffered = record r { buffer = r.buffer ++ bytes } in
        let (lines, rest) = split_lines buffered.buffer in
        keep_rest (feed_lines buffered lines) rest)

unfoldable pub has_open_frame : SseFrameReader → Bool
has_open_frame r = r.has_fields || not (is_empty r.buffer)

data_wire_lines : List Str → Bytes
data_wire_lines [] = []
data_wire_lines (l ∷ ls) = (str "data: " ++ l ++ str "\n") ++ data_wire_lines ls

event_wire_line : Option Str → Bytes
event_wire_line none = []
event_wire_line (some e) = str "event: " ++ e ++ str "\n"

unfoldable pub pending_wire_bytes : SseFrameReader → Bytes
unfolding data_wire_lines event_wire_line
pending_wire_bytes r = event_wire_line r.event ++ data_wire_lines r.data_lines ++ r.buffer

-- `Ok(Some(frame))` returns, `Ok(None)` goes on to `take_frame`.
abbrev pub or_take_frame : Outcome (Option RawSse) → Outcome (Option RawSse)
or_take_frame (r, ok (some frame)) = (r, ok (some frame))
or_take_frame (r, ok none) = let (r', frame) = take_frame r in (r', ok frame)
or_take_frame (r, err e) = (r, err e)

unfoldable pub finish : SseFrameReader → Outcome (Option RawSse)
finish r =
    if not (is_empty r.buffer)
    then or_take_frame
        (push_line (record r { buffer = [] }) (trim_end_matches b'\r' (from_utf8_lossy r.buffer)))
    else (let (r', frame) = take_frame r in (r', ok frame))

-- `self.finish().ok().flatten()`.
unfoldable pub drain : SseFrameReader → SseFrameReader × Option RawSse
drain r = let (r', result) = finish r in (r', elim result [ ok frame ↦ frame | err e ↦ none ])

-- `RawSse::parse_all` of crates/wiremux/src/stream/mod.rs.
unfoldable pub parse_all : Str → Result StreamError (List RawSse)
parse_all text =
    let (r, fed) = feed new text in
    elim fed [
      | err e ↦ err e
      | ok out ↦ elim (finish r).1 [ err e ↦ err e | ok last ↦ ok (out ++ option_list last) ]
    ]
