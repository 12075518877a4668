-- ===== src/Stream/Encoder/Blocks.antt =====
-- crates/wiremux/src/stream/encoder.rs: opening and closing the content blocks of the Messages wire.
use wiremux.Prelude.{
  ℕ, Bool, true, false, not, ◌&&◌, ◌||◌, List, [], ◌∷◌, ◌++◌, Option, none, some, if◌then◌else◌,
  is_empty, leb, saturating_add32, is_none,
}
use wiremux.Prelude.Text.{Str, str}
use wiremux.Prelude.NatMap.{NatMap, at, put_at, remove_at}
use wiremux.Json.{Value, string, null, json_object, json_u32, json_array, set_key, Serde}
use wiremux.Map.PromptCache.{response_custom_tool_input}
use wiremux.Stream.Fields.{Frame, or_text, bind_option}
use wiremux.Stream.Usage.{set_some, option_string}
use wiremux.Stream.Messages.{
  block_start, block_delta, block_stop, text_value, input_json_value, tool_use_block,
  usage_service_tier_to_messages,
}
use wiremux.Stream.Encoder.{BlockKind, text, thinking, tool, HeldTool, StreamEncoder}

abbrev pub Emitted : Type 0
Emitted = StreamEncoder × List Frame

abbrev pub is_tool : BlockKind → Bool
is_tool tool = true
is_tool _ = false

abbrev pub same_kind : BlockKind → BlockKind → Bool
same_kind text text = true
same_kind thinking thinking = true
same_kind tool tool = true
same_kind _ _ = false

abbrev pub tool_start_frame : ℕ → Str → Str → Frame
tool_start_frame enc id name = block_start enc (tool_use_block id name)

abbrev pub tool_arg_frame : ℕ → Str → Frame
tool_arg_frame enc delta = block_delta enc (input_json_value delta)

unfoldable pub is_tool_open : Option (ℕ × BlockKind) → Bool
is_tool_open none = false
is_tool_open (some (enc, kind)) = is_tool kind

unfoldable pub tool_block_open : StreamEncoder → Bool
tool_block_open s = is_tool_open s.open_block || not (is_empty s.held_tools)

unfoldable pub note_custom_slot : StreamEncoder → ℕ → Bool → StreamEncoder
note_custom_slot s enc custom =
    if custom && is_none (at enc s.custom_args)
    then record s { custom_args = put_at enc [] s.custom_args }
    else s

-- `sort_by_key` at the block, which keeps the order of equal keys.
unfoldable pub insert_held : HeldTool → List HeldTool → List HeldTool
insert_held h [] = h ∷ []
insert_held h (k ∷ ks) = if leb h.enc k.enc then h ∷ k ∷ ks else k ∷ insert_held h ks

unfoldable pub sort_held : NatMap HeldTool → List HeldTool
sort_held [] = []
sort_held ((index, h) ∷ hs) = insert_held h (sort_held hs)

unfoldable pub block_of : BlockKind → Value
block_of text = json_object ((str "type", string (str "text")) ∷ (str "text", string []) ∷ [])
block_of thinking =
    json_object ((str "type", string (str "thinking")) ∷ (str "thinking", string []) ∷ [])
block_of tool = tool_use_block [] []

-- The arguments of a held call, from its custom input if it has some.
unfoldable pub held_args : HeldTool → Option Str → List Frame
held_args h (some given) = tool_arg_frame h.enc given ∷ []
held_args h none = if is_empty h.args then [] else tool_arg_frame h.enc h.args ∷ []

unfoldable pub custom_arg : ℕ → Option Str → List Frame
custom_arg enc none = []
custom_arg enc (some given) = tool_arg_frame enc given ∷ []

unfoldable pub has_kind : Option (ℕ × BlockKind) → BlockKind → Bool
has_kind none kind = false
has_kind (some (index, k)) kind = same_kind k kind

-- `self.open.map(|(i, _)| i).unwrap_or(0)`.
unfoldable pub open_index : Option (ℕ × BlockKind) → ℕ
open_index none = 0
open_index (some (index, kind)) = index

module _ (serde : Serde) where
  custom_json : Option Str → Option Str
  custom_json none = none
  custom_json (some args) =
      if is_empty args then none else some (serde.to_string (response_custom_tool_input serde args))

  unfoldable pub take_custom_json : StreamEncoder → ℕ → StreamEncoder × Option Str
  unfolding custom_json
  take_custom_json s enc =
      (record s { custom_args = remove_at enc s.custom_args }, custom_json (at enc s.custom_args))

  unfoldable pub flush_one : StreamEncoder → HeldTool → Emitted
  flush_one s h =
      let (s', given) =
        take_custom_json (record s { closed_tools = h.enc ∷ s.closed_tools }) h.enc in
      (s', tool_start_frame h.enc h.id h.name ∷ (held_args h given ++ block_stop h.enc ∷ []))

  unfoldable pub flush_each : StreamEncoder → List HeldTool → Emitted
  flush_each s [] = (s, [])
  flush_each s (h ∷ hs) =
      let (s', fs) = flush_one s h in let (s'', gs) = flush_each s' hs in (s'', fs ++ gs)

  unfoldable pub flush_held_tools : StreamEncoder → Emitted
  flush_held_tools s = flush_each (record s { held_tools = [] }) (sort_held s.held_tools)

  -- The open block at its number and kind: the custom input that waits, and the stop.
  unfoldable pub close_block : StreamEncoder → ℕ → BlockKind → Emitted
  close_block s index tool =
      let (s', given) = take_custom_json s index in
      (s', custom_arg index given ++ block_stop index ∷ [])
  close_block s index kind = (s, block_stop index ∷ [])

  -- `close_open`, by the block that `open.take()` takes.
  unfoldable pub close_at : StreamEncoder → Option (ℕ × BlockKind) → Emitted
  close_at s none = flush_held_tools s
  close_at s (some (index, kind)) =
      let (s', fs) =
        close_block (record s { open_block = none; closed_tools = index ∷ s.closed_tools }) index
          kind in
      let (s'', gs) = flush_held_tools s' in (s'', fs ++ gs)

  unfoldable pub close_open : StreamEncoder → Emitted
  close_open s = close_at s s.open_block

  -- A new block behind the close of the open one.
  unfoldable pub open_new : StreamEncoder → BlockKind → Emitted
  open_new s kind =
      let (s', fs) = close_open s in
      (
        record s' {
          next_block = saturating_add32 s'.next_block 1;
          open_block = some (s'.next_block, kind);
        },
        fs ++ block_start s'.next_block (block_of kind) ∷ [],
      )

  unfoldable pub ensure_block : StreamEncoder → BlockKind → Emitted
  ensure_block s kind = if has_kind s.open_block kind then (s, []) else open_new s kind

  -- A delta in a block of a kind.
  unfoldable pub emit_in : StreamEncoder → BlockKind → Value → Emitted
  emit_in s kind delta =
      let (s', fs) = ensure_block s kind in
      (s', fs ++ block_delta (open_index s'.open_block) delta ∷ [])

  unfoldable pub emit_text : StreamEncoder → Str → Emitted
  emit_text s value = emit_in s text (text_value value)

-- The members of the message that a state writes where it has them.
unfoldable pub messages_start_frame : StreamEncoder → Frame
messages_start_frame s =
    let usage =
      set_some (option_string (bind_option s.service_tier usage_service_tier_to_messages))
        (str "service_tier")
        (json_object ((str "input_tokens", json_u32 0) ∷ (str "output_tokens", json_u32 0) ∷ [])) in
    let message = json_object (
      (str "id", string (or_text s.messages_id (str "msg_wiremux")))
      ∷ (str "type", string (str "message"))
      ∷ (str "role", string (str "assistant"))
      ∷ (str "content", json_array [])
      ∷ (str "stop_reason", null)
      ∷ (str "stop_sequence", null)
      ∷ (str "usage", usage)
      ∷ []) in
    let modelled =
      if is_empty s.model then message else set_key (str "model") (string s.model) message in
    (
      str "message_start",
      json_object (
          (str "type", string (str "message_start"))
          ∷ (str "message", set_some s.messages_container (str "container") modelled)
          ∷ []),
    )
