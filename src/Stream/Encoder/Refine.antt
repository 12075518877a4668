-- ===== src/Stream/Encoder/Refine.antt =====
-- crates/wiremux/src/stream/encoder.rs: whole streams, pushed to the encoder and finished.
use wiremux.Prelude.{
  ℕ, Bool, true, false, ◌&&◌, List, [], ◌∷◌, ◌++◌, Option, none, some, if◌then◌else◌, is_some, all,
  length, u32_max, ◌≡◌, refl, ap, arith, ◌∙◌, ◌≤◌, ◌+◌,
}
use wiremux.Prelude.Results.{Result, ok, err}
use wiremux.Prelude.Text.{Str}
use wiremux.Prelude.NatMap.{at, member}
use wiremux.Json.{Serde}
use wiremux.Ir.{
  IrStreamEvent, text_delta, refusal_delta, reasoning_delta, reasoning_signature, tool_call_start,
  tool_call_arg_delta, tool_call_end, annotation_added, search_entry_point, audio_delta,
  image_delta, audio_transcript_delta, custom_tool_call_start, custom_tool_call_input_delta,
  logprobs, created, service_tier, metadata, moderation, diagnostics, container, context_management,
  stop_sequence, usage, finish_reason, protocol, unknown_event, done,
}
use wiremux.Map.Error.{MapError}
use wiremux.Stream.Fields.{Frame}
use wiremux.Stream.Encoder.{StreamEncoder, new, with_model, or_nil}
use wiremux.Stream.Encoder.Blocks.{is_tool_open}
use wiremux.Stream.Encoder.Messages.{custom_tool_as_function, is_enc, push_messages}
use wiremux.Stream.Encoder.Finish.{finish, finish_messages}
use wiremux.Stream.Encoder.Push.{
  Pushed, frames, passed, framed, framed_result, push_event, push, prepend, session,
}
use wiremux.Stream.Encoder.Protocol.{before, over, run, run-then}
use wiremux.Stream.Encoder.Held.{ordered}
use wiremux.Stream.Encoder.Sim.{accounted, known, IsSound}
use wiremux.Stream.Encoder.Steps.{total}
use wiremux.Stream.Encoder.Events.{announces, needs, is_answered, is_own}
use wiremux.Stream.Encoder.Answers.{has_last}
use wiremux.Stream.Encoder.Moves.{phase, Live, push_messages-Moves}
use wiremux.Stream.Encoder.Ends.{finish_messages-over}

-- Every argument of a call is behind the start of the call.
unfoldable pub is_told : List ℕ → Option ℕ → Bool
is_told told none = true
is_told told (some k) = member k told

unfoldable pub tell : List ℕ → Option ℕ → List ℕ
tell told none = told
tell told (some k) = k ∷ told

unfoldable pub follows : List ℕ → List IrStreamEvent → Bool
follows told [] = true
follows told (ev ∷ evs) =
    is_told told (needs (custom_tool_as_function ev))
    && follows (tell told (announces (custom_tool_as_function ev))) evs

push_event-is_own :
    (serde : Serde) (s : StreamEncoder) (ev : IrStreamEvent)
    → is_own ev ≡ true
    → push_event serde s ev ≡ framed_result (push_messages serde s ev)
unfolding push_event is_own is_answered custom_tool_as_function
push_event-is_own serde s (text_delta a) h = refl
push_event-is_own serde s (refusal_delta a) h = refl
push_event-is_own serde s (reasoning_delta a) h = refl
push_event-is_own serde s (reasoning_signature a) h = refl
push_event-is_own serde s (tool_call_start a b c d) h = refl
push_event-is_own serde s (tool_call_arg_delta a b) h = refl
push_event-is_own serde s tool_call_end h = refl
push_event-is_own serde s (annotation_added a) h = refl
push_event-is_own serde s (audio_delta a) h = refl
push_event-is_own serde s (image_delta a b) h = refl
push_event-is_own serde s (audio_transcript_delta a) h = refl
push_event-is_own serde s (logprobs a b) h = refl
push_event-is_own serde s (created a) h = refl
push_event-is_own serde s (service_tier a) h = refl
push_event-is_own serde s (metadata a) h = refl
push_event-is_own serde s (moderation a b) h = refl
push_event-is_own serde s (diagnostics a) h = refl
push_event-is_own serde s (container a) h = refl
push_event-is_own serde s (context_management a) h = refl
push_event-is_own serde s (stop_sequence a) h = refl
push_event-is_own serde s (usage a) h = refl
push_event-is_own serde s (finish_reason a b) h = refl
push_event-is_own serde s (custom_tool_call_start a b c) h = refl
push_event-is_own serde s (custom_tool_call_input_delta a b) h = refl
push_event-is_own serde s (search_entry_point a) h = ground arith
push_event-is_own serde s (protocol a b) h = ground arith
push_event-is_own serde s (unknown_event a b) h = ground arith
push_event-is_own serde s done h = ground arith

if-false {ℓ} : {A : Type ℓ} (b : Bool) (x y : A) → b ≡ false → (if b then x else y) ≡ y
if-false true x y e = ground arith
if-false false x y e = refl

push-is_own :
    (serde : Serde) (s : StreamEncoder) (ev : IrStreamEvent)
    → s.finished ≡ false
    → is_own ev ≡ true
    → push serde s ev ≡ framed_result (push_messages serde s ev)
unfolding push
push-is_own serde s ev f h = if-false s.finished _ _ f ∙ push_event-is_own serde s ev h

-- The calls that a state has been told of.
Knows : StreamEncoder → List ℕ → Type 0
Knows s told = (k : ℕ) → member k told ≡ true → is_some (at k s.last_tool) ≡ true

is_told-has_last :
    (s : StreamEncoder) (told : List ℕ) (o : Option ℕ)
    → Knows s told
    → is_told told o ≡ true
    → has_last s o ≡ true
unfolding is_told has_last Knows
is_told-has_last s told none n h = refl
is_told-has_last s told (some k) n h = n k h

tell-Knows :
    (s t : StreamEncoder) (told : List ℕ) (o : Option ℕ)
    → Knows s told
    → ((k : ℕ) → is_some (at k s.last_tool) ≡ true → is_some (at k t.last_tool) ≡ true)
    → has_last t o ≡ true
    → Knows t (tell told o)
unfolding Knows tell has_last member
tell-Knows s t told none n l h = λ k e. l k (n k e)
tell-Knows s t told (some j) n l h = λ k e. ground (arith, n k, l k)

session-from :
    (serde : Serde) (s : StreamEncoder) (low : ℕ) (told : List ℕ) (evs : List IrStreamEvent)
    → Live s low
    → s.finished ≡ false
    → Knows s told
    → all is_own evs ≡ true
    → follows told evs ≡ true
    → total s + length evs ≤ u32_max
    → (fs : List Frame) × (session serde s evs ≡ some fs) × (run (phase s low) fs ≡ some over)
unfolding session follows finish phase framed framed_result prepend
session-from serde s low told [] l f n o w h = (
  (finish_messages serde (record s { finished = true })).1,
  ap (λ (x : StreamEncoder × List Frame). some x.1) (if-false s.finished _ _ f),
  finish_messages-over serde (record s { finished = true }) low
      (record { sound = l.sound; fresh = l.fresh; waiting = l.waiting }) (ground arith),
)
session-from serde s low told (ev ∷ evs) l f n o w h =
    let m =
      push_messages-Moves serde s low ev l (ground arith)
        (is_told-has_last s told (needs (custom_tool_as_function ev)) n (ground arith))
        (ground arith) in
    let (fs, e, r) =
      session-from serde m.state m.free (tell told (announces (custom_tool_as_function ev))) evs
        m.live (m.ends ∙ f)
        (tell-Knows s m.state told (announces (custom_tool_as_function ev)) n m.lasts m.tells)
        (ground arith) (ground arith) (ground (arith, m.budget)) in
    (
      m.sent ++ fs,
      ap after (push-is_own serde s ev f (ground arith) ∙ ap framed_result m.result)
          ∙ ap (prepend m.sent) e,
      run-then _ _ _ m.sent fs m.runs r,
    )
  where
    after : Result MapError Pushed → Option (List Frame)
    after x = elim x [
      | ok (s', frames gs) ↦ prepend gs (session serde s' evs)
      | ok (s', passed raw) ↦ none
      | err e ↦ none
    ]

new-IsSound : IsSound new 0
unfolding ordered accounted known at member is_tool_open or_nil is_enc
new-IsSound = record {
  order = refl;
  alone = refl;
  calls = λ k n h. ground arith;
  begun = λ k h. ground arith;
}

-- For events that are no protocol frame, no unknown event, no end mark and no search entry point, at most
-- `u32::MAX` of them and each argument of a tool call behind the start of the call: every push succeeds,
-- and the frames, with those of `finish`, are one whole message for the client's automaton, from its
-- start frame to its stop frame.
pub session-over :
    (serde : Serde) (model : Str) (evs : List IrStreamEvent)
    → all is_own evs ≡ true
    → follows [] evs ≡ true
    → length evs ≤ u32_max
    → (fs : List Frame) × (session serde (with_model new model) evs ≡ some fs)
      × (run before fs ≡ some over)
unfolding with_model phase Knows member
session-over serde model evs o w h =
    session-from serde (with_model new model) 0 [] evs
      (record { sound = new-IsSound; fresh = λ e. (refl, refl); waiting = refl }) refl
      (λ k e. ground arith) o w (ground arith)
