-- ===== src/Stream/Encoder/Ends.antt =====
-- crates/wiremux/src/stream/encoder.rs: `finish`, run by the client's automaton.
use wiremux.Prelude.{
  ℕ, Bool, true, false, List, [], ◌∷◌, ◌++◌, Option, none, some, is_none, all, length, u32_max, ◌≡◌,
  refl, ap, arith, ◌∙◌, sym, ◌≤◌, ◌+◌,
}
use wiremux.Json.{Serde}
use wiremux.Ir.{IrStreamEvent}
use wiremux.Stream.Fields.{Frame}
use wiremux.Stream.Messages.{stop_frame}
use wiremux.Stream.Encoder.{StreamEncoder}
use wiremux.Stream.Encoder.Blocks.{Emitted, close_open, messages_start_frame}
use wiremux.Stream.Encoder.Messages.{custom_tool_as_function, open_at, open_message}
use wiremux.Stream.Encoder.Finish.{final_delta, push_step, push_deferred, finish_messages}
use wiremux.Stream.Encoder.Protocol.{
  within, over, run, run-then, advance, signal-final_delta, signal-stop_frame,
}
use wiremux.Stream.Encoder.Sim.{contents, IsSound, close_open-Closing}
use wiremux.Stream.Encoder.Steps.{total, closed-Sound}
use wiremux.Stream.Encoder.Events.{needs, is_plain, is_own, custom_tool_as_function-is_answered}
use wiremux.Stream.Encoder.Answers.{has_last}
use wiremux.Stream.Encoder.Moves.{phase, phase-started, run-start, Live, push_messages-Moves}

-- The deferred events, pushed in a message that is open.
record Drains (s : StreamEncoder) (low : ℕ) (e : Emitted) : Type 0 where
  state : StreamEncoder
  sent : List Frame
  free : ℕ
  result : e ≡ (state, sent)
  runs :
      run (within (contents s.open_block) low) sent ≡ some (within (contents state.open_block) free)
  sound : IsSound state free

is_plain-own : (ev : IrStreamEvent) → is_plain ev ≡ true → is_own ev ≡ true
unfolding is_plain is_own
is_plain-own ev h = rw (custom_tool_as_function-is_answered ev (ground arith)) (ground arith)

is_plain-needs :
    (s : StreamEncoder) (ev : IrStreamEvent)
    → is_plain ev ≡ true
    → has_last s (needs (custom_tool_as_function ev)) ≡ true
unfolding is_plain has_last
is_plain-needs s ev h =
    rw (custom_tool_as_function-is_answered ev (ground arith)) (no-needs (needs ev) (ground arith))
  where
    no-needs : (o : Option ℕ) → is_none o ≡ true → has_last s o ≡ true
    no-needs none e = refl
    no-needs (some k) e = ground arith

push_deferred-Drains :
    (serde : Serde) (s : StreamEncoder) (low : ℕ) (evs : List IrStreamEvent)
    → Live s low
    → s.started ≡ true
    → all is_plain evs ≡ true
    → total s + length evs ≤ u32_max
    → Drains s low (push_deferred serde s evs)
unfolding push_deferred push_step run
push_deferred-Drains serde s low [] l st p h = record {
  state = s;
  sent = [];
  free = low;
  result = refl;
  runs = refl;
  sound = l.sound;
}
push_deferred-Drains serde s low (ev ∷ evs) l st p h =
    let m =
      push_messages-Moves serde s low ev l (is_plain-own ev (ground arith))
        (is_plain-needs s ev (ground arith)) (ground arith) in
    let d =
      push_deferred-Drains serde m.state m.free evs m.live (m.stays st) (ground arith)
        (ground (arith, m.budget)) in
    record {
      state = d.state;
      sent = m.sent ++ d.sent;
      free = d.free;
      result =
          ap
            (λ r. (
              (push_deferred serde (push_step s r).0 evs).0,
              (push_step s r).1 ++ (push_deferred serde (push_step s r).0 evs).1,
            ))
            m.result
          ∙ ap (λ x. (x.0, m.sent ++ x.1)) d.result;
      runs =
          run-then _ _ _ m.sent d.sent
            (sym (ap (λ q. run q m.sent) (phase-started s low st))
              ∙ (m.runs ∙ ap some (phase-started m.state m.free (m.stays st))))
            d.runs;
      sound = d.sound;
    }

-- The message is open: at once, or by the start frame.
record Opened (s : StreamEncoder) (low : ℕ) (e : Emitted) : Type 0 where
  state : StreamEncoder
  sent : List Frame
  free : ℕ
  result : e ≡ (state, sent)
  runs : run (phase s low) sent ≡ some (within (contents state.open_block) free)
  live : Live state free
  is_started : state.started ≡ true
  same : total state ≡ total s

open_at-Opened :
    (s : StreamEncoder) (low : ℕ) (started : Bool)
    → Live s low
    → s.started ≡ started
    → Opened s low (open_at started s)
unfolding open_at run
open_at-Opened s low true l st = record {
  state = s;
  sent = [];
  free = low;
  result = refl;
  runs = ap some (phase-started s low st);
  live = l;
  is_started = st;
  same = refl;
}
open_at-Opened s low false l st =
    let (nothing_open, low0) = l.fresh st in
    record {
      state = (open_at false s).0;
      sent = messages_start_frame s ∷ [];
      free = 0;
      result = refl;
      runs = run-start s s low st nothing_open;
      live = record { sound = rw low0 at l.sound; fresh = λ e. ground arith; waiting = l.waiting };
      is_started = refl;
      same = refl;
    }

run-final :
    (s : StreamEncoder) (free : ℕ)
    → run (within none free) (final_delta s ∷ stop_frame ∷ []) ≡ some over
unfolding run advance
run-final s free = rw (signal-final_delta s, signal-stop_frame) refl

-- The frames of `finish_messages` behind each of its four calls.
last_frames : Emitted → List Frame
last_frames x = x.1 ++ final_delta x.0 ∷ stop_frame ∷ []

last_frames-over :
    (serde : Serde) (s : StreamEncoder) (low : ℕ)
    → IsSound s low
    → run (within (contents s.open_block) low) (last_frames (close_open serde s)) ≡ some over
unfolding last_frames
last_frames-over serde s low i =
    let c = close_open-Closing serde s low s.next_block i.order in
    ap (λ x. run (within (contents s.open_block) low) (last_frames x)) c.result
    ∙ run-then _ _ _ c.sent _ c.runs (run-final _ c.free)

drained_frames : Serde → Emitted → List Frame
drained_frames serde x = x.1 ++ last_frames (close_open serde x.0)

drained_frames-over :
    (serde : Serde) (s : StreamEncoder) (low : ℕ) (evs : List IrStreamEvent)
    → Live s low
    → s.started ≡ true
    → all is_plain evs ≡ true
    → total s + length evs ≤ u32_max
    → run (within (contents s.open_block) low) (drained_frames serde (push_deferred serde s evs))
      ≡ some over
unfolding drained_frames
drained_frames-over serde s low evs l st p h =
    let d = push_deferred-Drains serde s low evs l st p h in
    ap (λ x. run (within (contents s.open_block) low) (drained_frames serde x)) d.result
    ∙ run-then _ _ _ d.sent _ d.runs (last_frames-over serde d.state d.free d.sound)

closed_frames : Serde → Emitted → List Frame
closed_frames serde x =
    x.1 ++ drained_frames serde (push_deferred serde (record x.0 { deferred = [] }) x.0.deferred)

closed_frames-over :
    (serde : Serde) (s : StreamEncoder) (low : ℕ)
    → Live s low
    → s.started ≡ true
    → total s ≤ u32_max
    → run (within (contents s.open_block) low) (closed_frames serde (close_open serde s))
      ≡ some over
unfolding closed_frames contents
closed_frames-over serde s low l st h =
    let c = close_open-Closing serde s low s.next_block l.sound.order in
    ap (λ x. run (within (contents s.open_block) low) (closed_frames serde x)) c.result
    ∙ run-then _ _ _ c.sent _ c.runs (
        drained_frames-over serde _ c.free s.deferred
          (record {
            sound = closed-Sound s low s.next_block none _ l.sound c c.free c.bound;
            fresh = λ e. ground arith;
            waiting = refl;
          })
          st l.waiting (ground arith))

pub finish_messages-over :
    (serde : Serde) (s : StreamEncoder) (low : ℕ)
    → Live s low
    → total s ≤ u32_max
    → run (phase s low) (finish_messages serde s).1 ≡ some over
unfolding finish_messages open_message last_frames drained_frames closed_frames
finish_messages-over serde s low l h =
    let o = open_at-Opened s low s.started l refl in
    ap (λ x. run (phase s low) (x.1 ++ closed_frames serde (close_open serde x.0))) o.result
    ∙ run-then _ _ _ o.sent _ o.runs
        (closed_frames-over serde o.state o.free o.live o.is_started (ground (arith, o.same)))
