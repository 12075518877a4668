-- ===== src/Stream/EventStream/Reader.antt =====
-- crates/wiremux/src/stream/eventstream.rs: `EventStreamReader`.
use wiremux.Prelude.{
  ℕ, zero, suc, List, [], ◌∷◌, ◌++◌, Option, none, some, ltb, if◌then◌else◌, length, is_empty, drop,
  saturating_add,
}
use wiremux.Prelude.Results.{Result, ok, err}
use wiremux.Prelude.Text.{Bytes, Str}
use wiremux.Stream.Frame.{RawSse, StreamError, buffer_exceeds, trailing_bytes, out_of_fuel}
use wiremux.Json.{Serde}
use wiremux.Stream.EventStream.Bytes.{max_eventstream_pending}
use wiremux.Stream.EventStream.Message.{Take, frame, exception, take_message, into_raw_sse}

pub record EventStreamReader : Type 0 where
  pub buffer : Bytes

abbrev pub new : EventStreamReader
new = record { buffer = [] }

-- What `feed` gives: frames with the exception behind them, or an error.
abbrev pub Fed : Type 0
Fed = EventStreamReader × Result StreamError (List RawSse × Option Str)

abbrev pub prepend_frame : RawSse → Fed → Fed
prepend_frame f (r, ok (fs, e)) = (r, ok (f ∷ fs, e))
prepend_frame f (r, err e) = (r, err e)

module _ (serde : Serde) where
  -- One round at the buffer behind the cursor, and the rest of the loop as a function.
  unfoldable pub feed_step : Result StreamError (Option Take) → Bytes → (Bytes → Fed) → Fed
  feed_step (err e) rest k = (record { buffer = rest }, err e)
  feed_step (ok none) rest k = (record { buffer = rest }, ok ([], none))
  feed_step (ok (some (frame msg consumed))) rest k =
      prepend_frame (into_raw_sse serde msg) (k (drop consumed rest))
  feed_step (ok (some (exception e consumed))) rest k = (record { buffer = [] }, ok ([], some e))

  -- Each round that goes on takes a message, so the buffer's length and one more is fuel enough.
  unfoldable pub feed_loop : ℕ → Bytes → Fed
  feed_loop zero rest = (record { buffer = rest }, err out_of_fuel)
  feed_loop (suc fuel) rest = feed_step (take_message serde rest) rest (λ r. feed_loop fuel r)

  unfoldable pub feed : EventStreamReader → Bytes → Fed
  feed r bytes =
      if ltb max_eventstream_pending (saturating_add (length r.buffer) (length bytes))
      then (record r { buffer = [] }, err buffer_exceeds)
      else (let buffered = record r { buffer = r.buffer ++ bytes } in
          feed_loop (suc (length buffered.buffer)) buffered.buffer)

unfoldable pub drain : EventStreamReader → EventStreamReader × Option RawSse
drain r = (r, none)

unfoldable pub finish : EventStreamReader → EventStreamReader × Result StreamError (Option RawSse)
finish r =
    if is_empty r.buffer
    then (r, ok none)
    else (record r { buffer = [] }, err (trailing_bytes (length r.buffer)))
