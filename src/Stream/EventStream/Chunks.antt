-- ===== src/Stream/EventStream/Chunks.antt =====
-- crates/wiremux/src/stream/eventstream.rs: how `EventStreamReader::feed` sees a stream that
-- arrives in pieces, and a stream of encoded messages.
use wiremux.Prelude.{
  ℕ, zero, suc, ◌+◌, ◌-◌, ◌^◌, ◌≤◌, ◌<◌, true, inl, inr, List, [], ◌∷◌, ◌++◌, map, Option, none,
  some, ◌≡◌, ◌≢◌, refl, ap, sym, ◌∙◌, ltb, le→ltb, length, drop, drop-append, length-append,
  append_assoc, saturating_add, All, Bool-cases, arith,
}
use wiremux.Prelude.Results.{Result, ok, err}
use wiremux.Prelude.Text.{Bytes, Str}
use wiremux.Prelude.Utf8.{is_utf8}
use wiremux.Json.{Serde}
use wiremux.Stream.Frame.{RawSse, StreamError, out_of_fuel}
use wiremux.Stream.EventStream.Bytes.{max_eventstream_pending}
use wiremux.Stream.EventStream.Message.{Take, frame, exception, take_message, into_raw_sse}
use wiremux.Stream.EventStream.Reader.{
  EventStreamReader, new, Fed, prepend_frame, feed_step, feed_loop, feed,
}
use wiremux.Stream.EventStream.Encode.{encode_message}
use wiremux.Stream.EventStream.RoundTrip.{take_message-encode_message}
use wiremux.Stream.EventStream.Fuel.{take_message-fuel}
use wiremux.Stream.EventStream.Prefix.{
  consumed, drop-append_le, take_message-append, take_message-consumed,
}

length-drop : (n : ℕ) (a : Bytes) → length (drop n a) ≡ length a - n
length-drop zero a = omega arith
length-drop (suc n) [] = omega arith
length-drop (suc n) (x ∷ a) = omega (arith, length-drop n a)

-- The frames of an earlier piece before those of the pieces behind it.
abbrev pub prepend_frames : List RawSse → Fed → Fed
prepend_frames fs (r, ok (gs, e)) = (r, ok (fs ++ gs, e))
prepend_frames fs (r, err e) = (r, err e)

-- The stream goes on behind a piece, unless an error or an exception has ended it.
abbrev pub and_then : Fed → (EventStreamReader → Fed) → Fed
and_then (r, ok (fs, none)) k = prepend_frames fs (k r)
and_then (r, ok (fs, some e)) k = (r, ok (fs, some e))
and_then (r, err e) k = (r, err e)

abbrev pub IsOk : Fed → Type 0
IsOk (r, ok x) = Unit
IsOk (r, err e) = ⊥

prepend_frames-cons :
    (f : RawSse) (fs : List RawSse) (o : Fed)
    → prepend_frame f (prepend_frames fs o) ≡ prepend_frames (f ∷ fs) o
prepend_frames-cons f fs (r, ok x) = refl
prepend_frames-cons f fs (r, err e) = refl

prepend_frames-nil : (o : Fed) → prepend_frames [] o ≡ o
prepend_frames-nil (r, ok x) = refl
prepend_frames-nil (r, err e) = refl

module _ (serde : Serde) where
  shorter :
      (rest : Bytes) (t : Take)
      → take_message serde rest ≡ ok (some t)
      → length (drop (consumed t) rest) < length rest
  shorter rest t e =
      omega (arith, length-drop (consumed t) rest, take_message-consumed serde rest t e)

  feed_step-cong :
      (m : Result StreamError (Option Take)) (rest : Bytes) (k k' : Bytes → Fed)
      → ((t : Take) → m ≡ ok (some t) → k (drop (consumed t) rest) ≡ k' (drop (consumed t) rest))
      → feed_step serde m rest k ≡ feed_step serde m rest k'
  unfolding feed_step
  feed_step-cong (err e) rest k k' h = refl
  feed_step-cong (ok none) rest k k' h = refl
  feed_step-cong (ok (some (frame msg n))) rest k k' h =
      ap (prepend_frame (into_raw_sse serde msg)) (h (frame msg n) refl)
  feed_step-cong (ok (some (exception e n))) rest k k' h = refl

  -- More fuel than bytes gives one result.
  feed_loop-fuel :
      (f g : ℕ) (rest : Bytes)
      → length rest < f
      → length rest < g
      → feed_loop serde f rest ≡ feed_loop serde g rest
  unfolding feed_loop
  feed_loop-fuel zero g rest h k = elim h [ ]
  feed_loop-fuel (suc f) zero rest h k = elim k [ ]
  feed_loop-fuel (suc f) (suc g) rest h k =
      feed_step-cong (take_message serde rest) rest _ _ (λ t e.
        feed_loop-fuel f g (drop (consumed t) rest) (omega (arith, shorter rest t e))
          (omega (arith, shorter rest t e)))

  -- The loop with fuel enough, and its equation.
  run : Bytes → Fed
  run rest = feed_loop serde (suc (length rest)) rest

  run_lem : (rest : Bytes) → run rest ≡ feed_step serde (take_message serde rest) rest run
  unfolding run feed_loop
  run_lem rest = feed_step-cong (take_message serde rest) rest _ _ (λ t e.
      feed_loop-fuel _ (suc (length (drop (consumed t) rest))) (drop (consumed t) rest)
        (shorter rest t e) (omega arith))

  -- Bytes that arrive behind a piece: an open message is completed by them, and an exception ends
  -- the stream.
  abbrev resume : Fed → Bytes → Fed
  resume (r, ok (fs, none)) more = prepend_frames fs (run (r.buffer ++ more))
  resume (r, ok (fs, some e)) more = (r, ok (fs, some e))
  resume (r, err e) more = (r, err e)

  resume-prepend_frame :
      (f : RawSse) (o : Fed) (more : Bytes)
      → resume (prepend_frame f o) more ≡ prepend_frame f (resume o more)
  resume-prepend_frame f (r, ok (fs, none)) more =
      sym (prepend_frames-cons f fs (run (r.buffer ++ more)))
  resume-prepend_frame f (r, ok (fs, some e)) more = refl
  resume-prepend_frame f (r, err e) more = refl

  prepend_frame-IsOk : (f : RawSse) (o : Fed) → IsOk (prepend_frame f o) → IsOk o
  prepend_frame-IsOk f (r, ok y) h = tt
  prepend_frame-IsOk f (r, err e) h = h

  -- The round at a buffer that `more` extends.
  run-step :
      (rest more : Bytes) (m : Result StreamError (Option Take))
      → take_message serde rest ≡ m
      → ((t : Take)
          → m ≡ ok (some t)
          → IsOk (run (drop (consumed t) rest))
          → run (drop (consumed t) rest ++ more) ≡ resume (run (drop (consumed t) rest)) more)
      → IsOk (feed_step serde m rest run)
      → run (rest ++ more) ≡ resume (feed_step serde m rest run) more
  unfolding feed_step
  run-step rest more (err e') e ih h = absurd h
  run-step rest more (ok none) e ih h = sym (prepend_frames-nil (run (rest ++ more)))
  run-step rest more (ok (some (frame msg n))) e ih h =
      rw
        (
          run_lem (rest ++ more),
          take_message-append serde rest more (λ z. cc e),
          e,
          drop-append_le n rest more (take_message-consumed serde rest _ e).1,
        )
        (rw (ih (frame msg n) refl (prepend_frame-IsOk _ _ h))
          (sym (resume-prepend_frame _ (run (drop n rest)) more)))
  run-step rest more (ok (some (exception e' n))) e ih h =
      rw (run_lem (rest ++ more), take_message-append serde rest more (λ z. cc e), e) refl

  run-append_below :
      (n : ℕ) (rest more : Bytes)
      → length rest < n
      → IsOk (run rest)
      → run (rest ++ more) ≡ resume (run rest) more
  run-append_below zero rest more b h = elim b [ ]
  run-append_below (suc n) rest more b h = rw (run_lem rest) (
      run-step rest more (take_message serde rest) refl
        (λ t e. run-append_below n (drop (consumed t) rest) more (omega (arith, shorter rest t e)))
        (rw (run_lem rest) at h))

  prepend_frame-buffer : (f : RawSse) (o : Fed) → (prepend_frame f o).0 ≡ o.0
  prepend_frame-buffer f (r, ok x) = refl
  prepend_frame-buffer f (r, err e) = refl

  feed_step-buffer :
      (m : Result StreamError (Option Take)) (rest : Bytes)
      → ((t : Take)
          → m ≡ ok (some t)
          → length (run (drop (consumed t) rest)).0.buffer ≤ length rest)
      → length (feed_step serde m rest run).0.buffer ≤ length rest
  unfolding feed_step
  feed_step-buffer (err e) rest h = omega arith
  feed_step-buffer (ok none) rest h = omega arith
  feed_step-buffer (ok (some (frame msg n))) rest h = rw prepend_frame-buffer (h (frame msg n) refl)
  feed_step-buffer (ok (some (exception e n))) rest h = omega arith

  run-buffer_below :
      (n : ℕ) (rest : Bytes) → length rest < n → length (run rest).0.buffer ≤ length rest
  run-buffer_below zero rest b = elim b [ ]
  run-buffer_below (suc n) rest b = rw (run_lem rest) (
      feed_step-buffer (take_message serde rest) rest (λ t e. omega (
        arith,
        shorter rest t e,
        run-buffer_below n (drop (consumed t) rest) (omega (arith, shorter rest t e)),
      )))

  feed-run :
      (r : EventStreamReader) (bytes : Bytes)
      → length r.buffer + length bytes ≤ max_eventstream_pending
      → feed serde r bytes ≡ run (r.buffer ++ bytes)
  unfolding feed run
  feed-run r bytes h =
      rw
        (le→ltb max_eventstream_pending (saturating_add (length r.buffer) (length bytes))
          (omega arith))
        refl

  resume-and_then :
      (o : Fed) (b : Bytes)
      → length o.0.buffer + length b ≤ max_eventstream_pending
      → resume o b ≡ and_then o (λ r'. feed serde r' b)
  resume-and_then (r, ok (fs, none)) b h = ap (prepend_frames fs) (sym (feed-run r b h))
  resume-and_then (r, ok (fs, some e)) b h = refl
  resume-and_then (r, err e) b h = refl

  -- A piece that is read without error, and another behind it: the one piece that they make, if it
  -- is within the cap, is read as the two are. An exception ends the stream.
  pub feed-append :
      (r : EventStreamReader) (a b : Bytes)
      → length r.buffer + length a + length b ≤ max_eventstream_pending
      → IsOk (feed serde r a)
      → feed serde r (a ++ b) ≡ and_then (feed serde r a) (λ r'. feed serde r' b)
  feed-append r a b fits h =
      rw
        (
          feed-run r (a ++ b) (omega (arith, length-append a b)),
          feed-run r a (omega arith),
          ← append_assoc r.buffer a b,
        )
        (run-append_below (suc (length (r.buffer ++ a))) (r.buffer ++ a) b (omega arith)
            (rw (feed-run r a (omega arith)) at h)
          ∙ resume-and_then (run (r.buffer ++ a)) b (
              omega (
                arith,
                length-append r.buffer a,
                run-buffer_below (suc (length (r.buffer ++ a))) (r.buffer ++ a) (omega arith),
              )))

  feed_step-fuel :
      (m : Result StreamError (Option Take)) (rest : Bytes)
      → m ≢ err out_of_fuel
      → ((t : Take) → m ≡ ok (some t) → (run (drop (consumed t) rest)).1 ≢ err out_of_fuel)
      → (feed_step serde m rest run).1 ≢ err out_of_fuel
  unfolding feed_step
  feed_step-fuel (err e) rest h k = λ q. h (cc q)
  feed_step-fuel (ok none) rest h k = λ e. cc e
  feed_step-fuel (ok (some (frame msg n))) rest h k = λ e. ground (arith, k (frame msg n) refl, e)
  feed_step-fuel (ok (some (exception e' n))) rest h k = λ e. cc e

  run-fuel_below : (n : ℕ) (rest : Bytes) → length rest < n → (run rest).1 ≢ err out_of_fuel
  run-fuel_below zero rest b = elim b [ ]
  run-fuel_below (suc n) rest b = rw (run_lem rest) (
      feed_step-fuel (take_message serde rest) rest (take_message-fuel serde rest)
        (λ t e. run-fuel_below n (drop (consumed t) rest) (omega (arith, shorter rest t e))))

  -- `feed` ends with frames, an exception or an error of the program, whatever it is fed: the loop
  -- of the model never stops for want of fuel.
  pub feed-fuel : (r : EventStreamReader) (bytes : Bytes) → (feed serde r bytes).1 ≢ err out_of_fuel
  unfolding feed
  feed-fuel r bytes =
      elim (Bool-cases
        (ltb max_eventstream_pending (saturating_add (length r.buffer) (length bytes)))) [
          | inl over ↦ rw over (λ e. cc e)
          | inr within ↦ rw within (
              unfold run in
              run-fuel_below (suc (length (r.buffer ++ bytes))) (r.buffer ++ bytes) (omega arith))
        ]

  -- Messages that the encoder wrote, one behind the other.
  unfoldable pub encode_all : List (Str × Bytes) → Bytes
  encode_all [] = []
  encode_all ((t, p) ∷ ms) = encode_message t p ++ encode_all ms

  abbrev pub IsEncodable : Str × Bytes → Type 0
  IsEncodable (t, p) =
      (length t < 2 ^ 16)
      × (is_utf8 t ≡ true)
      × (length (encode_message t p) ≤ max_eventstream_pending)

  unfoldable pub frame_of : Str × Bytes → RawSse
  frame_of (t, p) = into_raw_sse serde (record { event_type = some t; payload = p })

  run-encode_all :
      (ms : List (Str × Bytes))
      → All IsEncodable ms
      → run (encode_all ms) ≡ (new, ok (map frame_of ms, none))
  unfolding encode_all frame_of feed_step
  run-encode_all [] h = rw (run_lem []) (unfold take_message in refl)
  run-encode_all ((t, p) ∷ ms) h =
      rw
        (
          run_lem (encode_message t p ++ encode_all ms),
          take_message-encode_message serde t p (encode_all ms) h.0.0 h.0.1 h.0.2,
        )
        (rw (drop-append, run-encode_all ms h.1) refl)

  -- A fresh reader that is fed encoded messages gives one frame for each in order and keeps nothing, if
  -- each event type is valid UTF-8 shorter than 2^16 bytes, each encoded message is within the cap
  -- (max_eventstream_pending), and so is the length of all of them together.
  pub feed-encode_all :
      (ms : List (Str × Bytes))
      → All IsEncodable ms
      → length (encode_all ms) ≤ max_eventstream_pending
      → feed serde new (encode_all ms) ≡ (new, ok (map frame_of ms, none))
  feed-encode_all ms h fits = feed-run new (encode_all ms) (omega arith) ∙ run-encode_all ms h
