-- ===== src/Stream/Encoder/Answers.antt =====
-- crates/wiremux/src/stream/encoder.rs: each event's answer, run by the client's automaton.
use wiremux.Prelude.{
  ℕ, suc, Bool, true, [], ◌++◌, Option, none, some, is_some, all, u32_max, ◌≡◌, refl, arith, sym,
  ◌<◌, ◌≤◌,
}
use wiremux.Prelude.Results.{Result, ok}
use wiremux.Prelude.NatMap.{at}
use wiremux.Json.{Serde}
use wiremux.Ir.{
  IrStreamEvent, text_delta, refusal_delta, reasoning_delta, reasoning_signature, tool_call_start,
  tool_call_arg_delta, tool_call_end, annotation_added, search_entry_point, audio_delta,
  image_delta, audio_transcript_delta, custom_tool_call_start, custom_tool_call_input_delta,
  logprobs, created, service_tier, metadata, moderation, diagnostics, container, context_management,
  stop_sequence, usage, finish_reason, protocol, unknown_event, done,
}
use wiremux.Map.Error.{MapError}
use wiremux.Stream.Messages.{citation_from_annotation}
use wiremux.Stream.Encoder.{StreamEncoder, text, thinking}
use wiremux.Stream.Encoder.Blocks.{Emitted, emit_text}
use wiremux.Stream.Encoder.Messages.{respond}
use wiremux.Stream.Encoder.Protocol.{
  content_of, run, signal-text, signal-thinking, signal-signature, signal-citation,
}
use wiremux.Stream.Encoder.Events.{announces, needs, is_answered, is_plain}
use wiremux.Stream.Encoder.Sim.{Sound, IsSound}
use wiremux.Stream.Encoder.Steps.{
  Goes, total, Goes-still, emit_in-Goes, emit_image-Goes, unless_tool-Goes,
}
use wiremux.Stream.Encoder.Calls.{arg_delta-Goes}
use wiremux.Stream.Encoder.Starts.{start_tool-Starts}

-- An optional call is known to the state.
unfoldable pub has_last : StreamEncoder → Option ℕ → Bool
has_last s none = true
has_last s (some k) = is_some (at k s.last_tool)

-- A result that goes, with the call that it announces.
pub record Answers (s : StreamEncoder) (low : ℕ) (told : Option ℕ) (r : Result MapError Emitted)
    : Type 0 where
  pub e : Emitted
  pub is_ok : r ≡ ok e
  pub goes : Goes s low e
  pub tells : has_last goes.state told ≡ true

still-Answers : (s : StreamEncoder) (low : ℕ) → IsSound s low → Answers s low none (ok (s, []))
unfolding has_last
still-Answers s low i = record { e = _; is_ok = refl; goes = Goes-still s low i; tells = refl }

-- No frame, and a state whose blocks are the same.
kept-Answers :
    (s : StreamEncoder) (low : ℕ) (t : StreamEncoder)
    → Sound t.next_block s.open_block t.held_tools t.closed_tools t.tool_slots t.last_tool low
    → total t ≤ suc (total s)
    → t.started ≡ s.started
    → t.finished ≡ s.finished
    → ((k : ℕ) → is_some (at k s.last_tool) ≡ true → is_some (at k t.last_tool) ≡ true)
    → s.open_block ≡ t.open_block
    → (all is_plain s.deferred ≡ true → all is_plain t.deferred ≡ true)
    → Answers s low none (ok (t, []))
unfolding has_last run
kept-Answers s low t i b st f l o w = record {
  e = _;
  is_ok = refl;
  goes = record {
    state = t;
    sent = [];
    free = low;
    result = refl;
    runs = rw o refl;
    sound = rw (sym o) i;
    budget = b;
    starts = st;
    ends = f;
    lasts = l;
    waits = w;
  };
  tells = refl;
}

pub respond-Answers :
    (serde : Serde) (custom : Bool) (s : StreamEncoder) (low : ℕ) (ev : IrStreamEvent)
    → is_answered ev ≡ true
    → has_last s (needs ev) ≡ true
    → IsSound s low
    → s.next_block < u32_max
    → Answers s low (announces ev) (respond serde custom s ev)
unfolding is_plain is_answered has_last needs announces respond emit_text content_of
respond-Answers serde custom s low (text_delta words) a k i h = record {
  e = _;
  is_ok = refl;
  goes =
      unless_tool-Goes s low _ _ refl i
        (emit_in-Goes serde s low text _ (λ j. signal-text j words) i h);
  tells = refl;
}
respond-Answers serde custom s low (audio_transcript_delta words) a k i h = record {
  e = _;
  is_ok = refl;
  goes =
      unless_tool-Goes s low _ _ refl i
        (emit_in-Goes serde s low text _ (λ j. signal-text j words) i h);
  tells = refl;
}
respond-Answers serde custom s low (reasoning_delta words) a k i h = record {
  e = _;
  is_ok = refl;
  goes =
      unless_tool-Goes s low _ _ refl i
        (emit_in-Goes serde s low thinking _ (λ j. signal-thinking j words) i h);
  tells = refl;
}
respond-Answers serde custom s low (reasoning_signature signature) a k i h = record {
  e = _;
  is_ok = refl;
  goes =
      unless_tool-Goes s low _ _ refl i
        (emit_in-Goes serde s low thinking _ (λ j. signal-signature j signature) i h);
  tells = refl;
}
respond-Answers serde custom s low (annotation_added annotation) a k i h = record {
  e = _;
  is_ok = refl;
  goes = unless_tool-Goes s low _ _ refl i (
      emit_in-Goes serde s low text _ (λ j. signal-citation j (citation_from_annotation annotation))
        i h);
  tells = refl;
}
respond-Answers serde custom s low (tool_call_start id name thought_signature index) a k i h =
    let g = start_tool-Starts serde custom s low index id name i h in
    record { e = _; is_ok = refl; goes = g.goes; tells = g.announced }
respond-Answers serde custom s low (tool_call_arg_delta delta index) a k i h = record {
  e = _;
  is_ok = refl;
  goes = arg_delta-Goes serde custom s low index delta i k;
  tells = refl;
}
respond-Answers serde custom s low (image_delta media_type payload) a k i h = record {
  e = _;
  is_ok = refl;
  goes = emit_image-Goes serde s low media_type payload i h;
  tells = refl;
}
respond-Answers serde custom s low (finish_reason reason vendor) a k i h =
    kept-Answers s low (record s { finish_reason = some reason }) i (ground arith) refl refl
      (λ j d. d) refl (λ w. w)
respond-Answers serde custom s low (refusal_delta words) a k i h =
    kept-Answers s low (record s { refusal = s.refusal ++ words }) i (ground arith) refl refl
      (λ j d. d) refl (λ w. w)
respond-Answers serde custom s low (usage u) a k i h =
    kept-Answers s low (record s { usage = some u }) i (ground arith) refl refl (λ j d. d) refl
      (λ w. w)
respond-Answers serde custom s low tool_call_end a k i h = still-Answers s low i
respond-Answers serde custom s low (audio_delta payload) a k i h = still-Answers s low i
respond-Answers serde custom s low (logprobs content refusal) a k i h = still-Answers s low i
respond-Answers serde custom s low (created at_time) a k i h = still-Answers s low i
respond-Answers serde custom s low (service_tier tier) a k i h = still-Answers s low i
respond-Answers serde custom s low (metadata values) a k i h = still-Answers s low i
respond-Answers serde custom s low (moderation input output) a k i h = still-Answers s low i
respond-Answers serde custom s low (diagnostics reason) a k i h = still-Answers s low i
respond-Answers serde custom s low (container value) a k i h = still-Answers s low i
respond-Answers serde custom s low (context_management value) a k i h = still-Answers s low i
respond-Answers serde custom s low (stop_sequence words) a k i h = still-Answers s low i
respond-Answers serde custom s low (search_entry_point html) a k i h = ground arith
respond-Answers serde custom s low (custom_tool_call_start id name index) a k i h = ground arith
respond-Answers serde custom s low (custom_tool_call_input_delta delta index) a k i h = ground arith
respond-Answers serde custom s low (protocol item_type payload) a k i h = ground arith
respond-Answers serde custom s low (unknown_event event payload) a k i h = ground arith
respond-Answers serde custom s low done a k i h = ground arith
