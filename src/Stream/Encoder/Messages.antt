-- ===== src/Stream/Encoder/Messages.antt =====
-- crates/wiremux/src/stream/encoder.rs: `push_messages`, the events as frames of the Messages wire.
use wiremux.Prelude.{
  ℕ, Bool, true, false, not, ◌&&◌, ◌||◌, ◌==◌, List, [], ◌∷◌, ◌++◌, Option, none, some,
  if◌then◌else◌, is_empty, saturating_add32, is_some,
}
use wiremux.Prelude.Results.{Result, ok, err}
use wiremux.Prelude.Text.{Str, str, str_eq}
use wiremux.Prelude.NatMap.{at, put_at, remove_at, member}
use wiremux.Json.{Value, Serde}
use wiremux.Ir.{
  IrStreamEvent, text_delta, refusal_delta, reasoning_delta, reasoning_signature, tool_call_start,
  tool_call_arg_delta, tool_call_end, annotation_added, audio_delta, image_delta,
  audio_transcript_delta, custom_tool_call_start, custom_tool_call_input_delta, logprobs, created,
  service_tier, metadata, moderation, diagnostics, container, context_management, stop_sequence,
  usage, finish_reason,
}
use wiremux.Map.Error.{MapError}
use wiremux.Map.PromptCache.{response_custom_tool_input}
use wiremux.Stream.Fields.{Frame, bind_option, or_text}
use wiremux.Stream.Messages.{
  encode, block_start, block_stop, typed_delta, image_block, citation_delta,
  citation_from_annotation,
}
use wiremux.Stream.Encoder.{
  BlockKind, text, thinking, tool, HeldTool, StreamEncoder, or_nil, alloc_tool, tool_enc,
}
use wiremux.Stream.Encoder.Blocks.{
  Emitted, is_tool, tool_start_frame, tool_arg_frame, tool_block_open, note_custom_slot, close_open,
  emit_in, emit_text, messages_start_frame,
}

-- `custom`: the event is one of a custom tool's.
unfoldable pub is_custom : IrStreamEvent → Bool
is_custom (custom_tool_call_start id name index) = true
is_custom (custom_tool_call_input_delta delta index) = true
is_custom ev = false

unfoldable pub custom_tool_as_function : IrStreamEvent → IrStreamEvent
custom_tool_as_function (custom_tool_call_start id name index) = tool_call_start id name none index
custom_tool_as_function (custom_tool_call_input_delta delta index) = tool_call_arg_delta delta index
custom_tool_as_function ev = ev

-- The five `if let` that keep an event's value, each by the field that it writes.
unfoldable pub kept_tier : IrStreamEvent → Option Str → Option Str
kept_tier (service_tier tier) old = some tier
kept_tier ev old = old

unfoldable pub kept_stop : IrStreamEvent → Option Str → Option Str
kept_stop (stop_sequence words) old = some words
kept_stop ev old = old

unfoldable pub kept_container : IrStreamEvent → Option Value → Option Value
kept_container (container value) old = some value
kept_container ev old = old

unfoldable pub kept_management : IrStreamEvent → Option Value → Option Value
kept_management (context_management value) old = some value
kept_management ev old = old

unfoldable pub kept_miss : IrStreamEvent → Option Value → Option Value
kept_miss (diagnostics reason) old = some reason
kept_miss ev old = old

unfoldable pub note_event : StreamEncoder → IrStreamEvent → StreamEncoder
note_event s ev = record s {
  service_tier = kept_tier ev s.service_tier;
  stop_sequence = kept_stop ev s.stop_sequence;
  messages_container = kept_container ev s.messages_container;
  messages_context_management = kept_management ev s.messages_context_management;
  messages_cache_miss = kept_miss ev s.messages_cache_miss;
}

-- The events that do not open the message.
unfoldable pub is_quiet : IrStreamEvent → Bool
is_quiet (service_tier tier) = true
is_quiet (stop_sequence words) = true
is_quiet (container value) = true
is_quiet (context_management value) = true
is_quiet (diagnostics reason) = true
is_quiet ev = false

-- The start frame, unless the message is open.
unfoldable pub open_at : Bool → StreamEncoder → Emitted
open_at started s = if started then (s, []) else (
  record s { started = true; messages_container_written = is_some s.messages_container },
  messages_start_frame s ∷ [],
)

unfoldable pub open_message : StreamEncoder → Emitted
open_message s = open_at s.started s

unfoldable pub defer : StreamEncoder → IrStreamEvent → Emitted
defer s ev = (record s { deferred = s.deferred ++ ev ∷ [] }, [])

-- The block of the tool that is open.
unfoldable pub open_tool : Option (ℕ × BlockKind) → Option ℕ
open_tool none = none
open_tool (some (enc, kind)) = if is_tool kind then some enc else none

unfoldable pub is_enc : Option ℕ → ℕ → Bool
is_enc none enc = false
is_enc (some e) enc = e == enc

-- `same_open`: the last block of the call is the open one.
unfoldable pub is_last : Option ℕ → Option ℕ → Bool
is_last none last = false
is_last (some enc) last = is_enc last enc

unfoldable pub same_open : StreamEncoder → ℕ → Bool
same_open s index = is_last (open_tool s.open_block) (at index s.last_tool)

unfoldable pub open_id : StreamEncoder → Str
open_id s = or_text (bind_option (open_tool s.open_block) (λ enc. at enc s.tool_ids)) []

unfoldable pub note_open : StreamEncoder → Option ℕ → Bool → StreamEncoder
note_open s none custom = s
note_open s (some enc) custom = note_custom_slot s enc custom

-- A tool's block is open from its start frame on.
unfoldable pub begin_tool : StreamEncoder → ℕ → Str → Str → Emitted
begin_tool s enc id name = (
  record s { tool_ids = put_at enc id s.tool_ids; open_block = some (enc, tool) },
  tool_start_frame enc id name ∷ [],
)

-- An id or a name that is still empty takes the new one.
unfoldable pub fill : Str → Str → Str
fill old new = if is_empty old then new else old

unfoldable pub hold : StreamEncoder → ℕ → HeldTool → StreamEncoder
hold s index h = record s { held_tools = put_at index h s.held_tools }

unfoldable pub is_other_tool : Option (ℕ × BlockKind) → ℕ → Bool
is_other_tool none enc = false
is_other_tool (some (e, kind)) enc = is_tool kind && not (e == enc)

unfoldable pub append_custom : StreamEncoder → ℕ → Str → StreamEncoder
append_custom s enc delta = record s {
  custom_args = put_at enc (or_nil (at enc s.custom_args) ++ delta) s.custom_args;
}

-- `custom || self.custom_args.contains_key(&enc)`.
unfoldable pub is_custom_slot : StreamEncoder → ℕ → Bool → Bool
is_custom_slot s enc custom = custom || is_some (at enc s.custom_args)

-- `self.open == Some((enc, BlockKind::Tool))`.
unfoldable pub is_open_tool : Option (ℕ × BlockKind) → ℕ → Bool
is_open_tool o enc = is_enc (open_tool o) enc

module _ (serde : Serde) (custom : Bool) where
  -- Another id under the index of the open block: a new call.
  unfoldable pub start_again : StreamEncoder → ℕ → Str → Str → Emitted
  start_again s index id name =
      let (s1, fs) = close_open serde s in
      let s2 = alloc_tool (record s1 { tool_slots = remove_at index s1.tool_slots }) index in
      let (s3, gs) = begin_tool (note_custom_slot s2 s1.next_block custom) s1.next_block id name in
      (s3, fs ++ gs)

  -- A call that is neither open nor held: held behind the open tool, or opened.
  unfoldable pub start_new : StreamEncoder → ℕ → Str → Str → Emitted
  start_new s index id name =
      let enc = s.next_block in
      let s1 = alloc_tool s index in
      let s2 = note_custom_slot s1 enc custom in
      if is_other_tool s1.open_block enc
      then (hold s2 index (record { enc = enc; id = id; name = name; args = [] }), [])
      else let (s3, fs) = close_open serde s2 in
        let (s4, gs) = begin_tool s3 enc id name in (s4, fs ++ gs)

  unfoldable pub start_held : StreamEncoder → ℕ → Str → Str → Option HeldTool → Emitted
  start_held s index id name none = start_new s index id name
  start_held s index id name (some h) = (
    note_custom_slot (hold s index (record h { id = fill h.id id; name = fill h.name name })) h.enc
        custom,
    [],
  )

  unfoldable pub start_tool : StreamEncoder → ℕ → Str → Str → Emitted
  start_tool s index id name =
      if same_open s index
      then (if is_empty id || str_eq (open_id s) id
          then (note_open s (open_tool s.open_block) custom, [])
          else start_again s index id name)
      else start_held s index id name (at index s.held_tools)

  -- The argument as the client's frame carries it.
  unfoldable pub arg_text : StreamEncoder → ℕ → Str → Str
  arg_text s enc delta =
      if is_custom_slot s enc custom
      then serde.to_string (response_custom_tool_input serde delta)
      else delta

  unfoldable pub arg_held : StreamEncoder → ℕ → ℕ → Str → Option HeldTool → Emitted
  arg_held s enc index delta none =
      if member enc s.closed_tools
      then (s, [])
      else (s, tool_arg_frame enc (arg_text s enc delta) ∷ [])
  arg_held s enc index delta (some h) =
      if is_custom_slot s h.enc custom
      then (append_custom s h.enc delta, [])
      else (hold s index (record h { args = h.args ++ delta }), [])

  -- An argument of the block that `tool_enc` found.
  unfoldable pub arg_at : StreamEncoder → ℕ → ℕ → Str → Emitted
  arg_at s enc index delta =
      if is_open_tool s.open_block enc && is_custom_slot s enc custom
      then (append_custom s enc delta, [])
      else arg_held s enc index delta (at index s.held_tools)

  unfoldable pub arg_delta : StreamEncoder → ℕ → Str → Emitted
  arg_delta s index delta = let (s', enc) = tool_enc s index in arg_at s' enc index delta

-- A whole block with an image in it.
unfoldable pub emit_image : Serde → StreamEncoder → Str → Str → Emitted
emit_image serde s media_type payload =
    let (s', fs) = close_open serde s in
    (
      record s' { next_block = saturating_add32 s'.next_block 1 },
      fs
          ++ block_start s'.next_block (image_block media_type payload)
            ∷ block_stop s'.next_block
            ∷ [],
    )

-- The text of a frame waits while a tool's block is open.
unfoldable pub unless_tool : StreamEncoder → IrStreamEvent → Emitted → Emitted
unless_tool s ev e = if tool_block_open s then defer s ev else e

frame_of : StreamEncoder → Result MapError Frame → Result MapError Emitted
frame_of s (ok f) = ok (s, f ∷ [])
frame_of s (err e) = err e

-- The `match` of `push_messages`, of an event that is no custom tool's any more.
unfoldable pub respond : Serde → Bool → StreamEncoder → IrStreamEvent → Result MapError Emitted
unfolding frame_of
respond serde custom s (text_delta words) =
    ok (unless_tool s (text_delta words) (emit_text serde s words))
respond serde custom s (audio_transcript_delta words) =
    ok (unless_tool s (audio_transcript_delta words) (emit_text serde s words))
respond serde custom s (reasoning_delta words) = ok (
    unless_tool s (reasoning_delta words)
      (emit_in serde s thinking (typed_delta (str "thinking_delta") (str "thinking") words)))
respond serde custom s (reasoning_signature signature) = ok (
    unless_tool s (reasoning_signature signature)
      (emit_in serde s thinking (typed_delta (str "signature_delta") (str "signature") signature)))
respond serde custom s (annotation_added annotation) = ok (
    unless_tool s (annotation_added annotation)
      (emit_in serde s text (citation_delta (citation_from_annotation annotation))))
respond serde custom s (tool_call_start id name thought_signature index) =
    ok (start_tool serde custom s index id name)
respond serde custom s (tool_call_arg_delta delta index) = ok (arg_delta serde custom s index delta)
respond serde custom s (image_delta media_type payload) = ok (emit_image serde s media_type payload)
respond serde custom s (finish_reason reason vendor) =
    ok (record s { finish_reason = some reason }, [])
respond serde custom s (refusal_delta words) = ok (record s { refusal = s.refusal ++ words }, [])
respond serde custom s (usage u) = ok (record s { usage = some u }, [])
respond serde custom s tool_call_end = ok (s, [])
respond serde custom s (audio_delta payload) = ok (s, [])
respond serde custom s (logprobs content refusal) = ok (s, [])
respond serde custom s (created at_time) = ok (s, [])
respond serde custom s (service_tier tier) = ok (s, [])
respond serde custom s (metadata values) = ok (s, [])
respond serde custom s (moderation input output) = ok (s, [])
respond serde custom s (diagnostics reason) = ok (s, [])
respond serde custom s (container value) = ok (s, [])
respond serde custom s (context_management value) = ok (s, [])
respond serde custom s (stop_sequence words) = ok (s, [])
respond serde custom s ev = frame_of s (encode serde ev)

unfoldable pub behind : List Frame → Result MapError Emitted → Result MapError Emitted
behind fs (ok (s, gs)) = ok (s, fs ++ gs)
behind fs (err e) = err e

-- A state that has noted the event, by whether its message is open and the event is quiet.
unfoldable pub push_noted :
    Serde → Bool → Bool → Bool → StreamEncoder → IrStreamEvent → Result MapError Emitted
push_noted serde custom started quiet s ev =
    if not started && quiet
    then ok (s, [])
    else let (s', fs) = open_at started s in behind fs (respond serde custom s' ev)

unfoldable pub push_messages : Serde → StreamEncoder → IrStreamEvent → Result MapError Emitted
push_messages serde s given =
    let ev = custom_tool_as_function given in
    let noted = note_event s ev in
    push_noted serde (is_custom given) noted.started (is_quiet ev) noted ev
