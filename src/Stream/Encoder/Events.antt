-- ===== src/Stream/Encoder/Events.antt =====
-- crates/wiremux/src/stream/encoder.rs: the events by what `push_messages` does with them.
use wiremux.Prelude.{ℕ, Bool, true, false, ◌&&◌, Option, none, some, is_none, ◌≡◌, refl, arith}
use wiremux.Ir.{
  IrStreamEvent, text_delta, refusal_delta, reasoning_delta, reasoning_signature, tool_call_start,
  tool_call_arg_delta, tool_call_end, annotation_added, search_entry_point, audio_delta,
  image_delta, audio_transcript_delta, custom_tool_call_start, custom_tool_call_input_delta,
  logprobs, created, service_tier, metadata, moderation, diagnostics, container, context_management,
  stop_sequence, usage, finish_reason, protocol, unknown_event, done,
}
use wiremux.Stream.Encoder.Messages.{is_quiet, custom_tool_as_function}

-- The call that an event announces, and the one that an argument needs.
unfoldable pub announces : IrStreamEvent → Option ℕ
announces (tool_call_start id name thought_signature index) = some index
announces ev = none

unfoldable pub needs : IrStreamEvent → Option ℕ
needs (tool_call_arg_delta delta index) = some index
needs ev = none

-- The events that `respond` answers itself.
unfoldable pub is_answered : IrStreamEvent → Bool
is_answered (custom_tool_call_start id name index) = false
is_answered (custom_tool_call_input_delta delta index) = false
is_answered (search_entry_point html) = false
is_answered (protocol item_type payload) = false
is_answered (unknown_event event payload) = false
is_answered done = false
is_answered ev = true

-- An event that neither starts nor needs a call.
unfoldable pub is_plain : IrStreamEvent → Bool
is_plain ev = is_answered ev && (is_none (needs ev) && is_none (announces ev))

pub announces-is_quiet : (ev : IrStreamEvent) → is_quiet ev ≡ true → announces ev ≡ none
unfolding announces is_quiet
announces-is_quiet (text_delta a) h = refl
announces-is_quiet (refusal_delta a) h = refl
announces-is_quiet (reasoning_delta a) h = refl
announces-is_quiet (reasoning_signature a) h = refl
announces-is_quiet (tool_call_arg_delta a b) h = refl
announces-is_quiet tool_call_end h = refl
announces-is_quiet (annotation_added a) h = refl
announces-is_quiet (search_entry_point a) h = refl
announces-is_quiet (audio_delta a) h = refl
announces-is_quiet (image_delta a b) h = refl
announces-is_quiet (audio_transcript_delta a) h = refl
announces-is_quiet (custom_tool_call_start a b c) h = refl
announces-is_quiet (custom_tool_call_input_delta a b) h = refl
announces-is_quiet (logprobs a b) h = refl
announces-is_quiet (created a) h = refl
announces-is_quiet (service_tier a) h = refl
announces-is_quiet (metadata a) h = refl
announces-is_quiet (moderation a b) h = refl
announces-is_quiet (diagnostics a) h = refl
announces-is_quiet (container a) h = refl
announces-is_quiet (context_management a) h = refl
announces-is_quiet (stop_sequence a) h = refl
announces-is_quiet (usage a) h = refl
announces-is_quiet (finish_reason a b) h = refl
announces-is_quiet (protocol a b) h = refl
announces-is_quiet (unknown_event a b) h = refl
announces-is_quiet done h = refl
announces-is_quiet (tool_call_start a b c d) h = ground arith

pub custom_tool_as_function-is_answered :
    (ev : IrStreamEvent) → is_answered ev ≡ true → custom_tool_as_function ev ≡ ev
unfolding is_answered custom_tool_as_function
custom_tool_as_function-is_answered (text_delta a) h = refl
custom_tool_as_function-is_answered (refusal_delta a) h = refl
custom_tool_as_function-is_answered (reasoning_delta a) h = refl
custom_tool_as_function-is_answered (reasoning_signature a) h = refl
custom_tool_as_function-is_answered (tool_call_start a b c d) h = refl
custom_tool_as_function-is_answered (tool_call_arg_delta a b) h = refl
custom_tool_as_function-is_answered tool_call_end h = refl
custom_tool_as_function-is_answered (annotation_added a) h = refl
custom_tool_as_function-is_answered (audio_delta a) h = refl
custom_tool_as_function-is_answered (image_delta a b) h = refl
custom_tool_as_function-is_answered (audio_transcript_delta a) h = refl
custom_tool_as_function-is_answered (logprobs a b) h = refl
custom_tool_as_function-is_answered (created a) h = refl
custom_tool_as_function-is_answered (service_tier a) h = refl
custom_tool_as_function-is_answered (metadata a) h = refl
custom_tool_as_function-is_answered (moderation a b) h = refl
custom_tool_as_function-is_answered (diagnostics a) h = refl
custom_tool_as_function-is_answered (container a) h = refl
custom_tool_as_function-is_answered (context_management a) h = refl
custom_tool_as_function-is_answered (stop_sequence a) h = refl
custom_tool_as_function-is_answered (usage a) h = refl
custom_tool_as_function-is_answered (finish_reason a b) h = refl
custom_tool_as_function-is_answered (custom_tool_call_start a b c) h = ground arith
custom_tool_as_function-is_answered (custom_tool_call_input_delta a b) h = ground arith
custom_tool_as_function-is_answered (search_entry_point a) h = ground arith
custom_tool_as_function-is_answered (protocol a b) h = ground arith
custom_tool_as_function-is_answered (unknown_event a b) h = ground arith
custom_tool_as_function-is_answered done h = ground arith

-- An event of this wire: no vendor's own frame, no end of the stream, no search entry point.
unfoldable pub is_own : IrStreamEvent → Bool
is_own ev = is_answered (custom_tool_as_function ev)
