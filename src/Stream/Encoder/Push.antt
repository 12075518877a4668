-- ===== src/Stream/Encoder/Push.antt =====
-- crates/wiremux/src/stream/encoder.rs: `push` at the Messages wire.
use wiremux.Prelude.{
  ℕ, Bool, ◌&&◌, ◌||◌, List, [], ◌∷◌, ◌++◌, Option, none, some, if◌then◌else◌, is_empty, any,
  is_some,
}
use wiremux.Prelude.Results.{Result, ok, err}
use wiremux.Prelude.Text.{Str, str, str_eq}
use wiremux.Prelude.Trim.{trim}
use wiremux.Json.{Value, string, get, as_str, as_u64, is_object, Serde}
use wiremux.Ir.{IrStreamEvent, search_entry_point, protocol, unknown_event, done}
use wiremux.Map.Error.{MapError}
use wiremux.Map.PromptCache.{is_given}
use wiremux.Stream.Fields.{Frame, bind_option, try_u32, u32_field, str_field}
use wiremux.Stream.Frame.{RawSse}
use wiremux.Stream.Messages.{citation_delta}
use wiremux.Stream.Encoder.{StreamEncoder, text}
use wiremux.Stream.Encoder.Blocks.{Emitted, emit_in}
use wiremux.Stream.Encoder.Finish.{finish}
use wiremux.Stream.Encoder.Messages.{push_messages}

-- What a push returns: frames of the wire, or the one frame that passes through as it is.
pub data Output : Type 0 where
  frames : List Frame → Output
  passed : RawSse → Output

abbrev pub Pushed : Type 0
Pushed = StreamEncoder × Output

-- `sse_event_field` and `encode_named`.
sse_event_field : Str → Option Str
sse_event_field name =
    if is_empty name || (str_eq name (str "chunk") || str_eq name (str "[DONE]"))
    then none
    else some name

payload_text : Serde → Value → Str
payload_text serde (string s) = s
payload_text serde other = serde.to_string other

unfoldable pub encode_named : Serde → Str → Value → RawSse
unfolding sse_event_field payload_text
encode_named serde name value = record {
  event = sse_event_field name;
  payload = payload_text serde value;
}

-- `tool_extra_from_protocol(...).is_some()`.
caller_type : Value → Option Str
caller_type payload =
    bind_option (get (str "caller") payload) (λ c. bind_option (get (str "type") c) as_str)

is_extra : Str → Value → Bool
unfolding caller_type
is_extra name payload =
    if str_eq name (str "responses_tool_status")
    then is_given (str_field payload (str "status"))
    else if str_eq name (str "responses_tool_namespace")
    then is_given (str_field payload (str "namespace"))
    else if str_eq name (str "responses_tool_created_by")
    then is_given (str_field payload (str "created_by"))
    else if str_eq name (str "responses_tool_item_id")
    then is_given (str_field payload (str "id"))
    else str_eq name (str "responses_tool_caller") && is_given (caller_type payload)

unfoldable pub tool_extra_from_protocol : Str → Value → Bool
unfolding is_extra
tool_extra_from_protocol name payload =
    is_some (u32_field payload (str "index")) && is_extra name payload

-- The item types that another wire reads and this one drops.
abbrev dropped_types : List Str
dropped_types =
    str "chat_accepted_prediction_tokens"
    ∷ str "chat_rejected_prediction_tokens"
    ∷ str "responses_id"
    ∷ str "responses_previous_id"
    ∷ str "responses_message_id"
    ∷ str "responses_message_status"
    ∷ str "responses_message_phase"
    ∷ str "responses_message_agent"
    ∷ str "responses_reasoning_id"
    ∷ str "responses_reasoning_status"
    ∷ str "responses_reasoning_content"
    ∷ str "gemini_response_id"
    ∷ str "gemini_url_context"
    ∷ str "gemini_citation_metadata"
    ∷ str "gemini_code_part"
    ∷ str "gemini_safety_ratings"
    ∷ str "gemini_prompt_safety"
    ∷ str "gemini_block_reason_message"
    ∷ str "gemini_traffic_type"
    ∷ str "gemini_tool_use_prompt_tokens"
    ∷ str "gemini_avg_logprobs"
    ∷ str "gemini_candidate_tokens"
    ∷ str "gemini_prompt_token_details"
    ∷ str "gemini_candidate_token_details"
    ∷ str "converse_frame"
    ∷ str "converse_citation"
    ∷ str "converse_redacted_content"
    ∷ str "converse_guard_content"
    ∷ str "converse_document"
    ∷ str "converse_video"
    ∷ str "converse_image"
    ∷ str "converse_audio"
    ∷ []

unfoldable pub is_dropped : Str → Value → Bool
is_dropped name payload = any (str_eq name) dropped_types || tool_extra_from_protocol name payload

note_id : StreamEncoder → Option Str → StreamEncoder
note_id s none = s
note_id s (some id) = if is_empty (trim id) then s else record s { messages_id = some id }

count_of : Value → Option ℕ
count_of payload = bind_option (as_u64 payload) try_u32

note_search : StreamEncoder → Option ℕ → StreamEncoder
note_search s none = s
note_search s (some count) = record s { messages_web_search_requests = some count }

note_fetch : StreamEncoder → Option ℕ → StreamEncoder
note_fetch s none = s
note_fetch s (some count) = record s { messages_web_fetch_requests = some count }

unfoldable pub push_protocol : Serde → StreamEncoder → Str → Value → Pushed
unfolding note_id count_of note_search note_fetch
push_protocol serde s name payload =
    if str_eq name (str "messages_id")
    then (note_id s (as_str payload), frames [])
    else if str_eq name (str "messages_web_search_requests")
    then (note_search s (count_of payload), frames [])
    else if str_eq name (str "messages_web_fetch_requests")
    then (note_fetch s (count_of payload), frames [])
    else if str_eq name (str "messages_cache_creation")
    then (
      (if is_object payload then record s { messages_cache_creation = some payload } else s),
      frames [],
    )
    else if str_eq name (str "messages_citation")
    then (if is_object payload
        then (let (s', fs) = emit_in serde s text (citation_delta payload) in (s', frames fs))
        else (s, frames []))
    else if is_dropped name payload
    then (s, frames [])
    else (s, passed (encode_named serde name payload))

unfoldable pub framed : Emitted → Pushed
framed (s, fs) = (s, frames fs)

unfoldable pub framed_result : Result MapError Emitted → Result MapError Pushed
framed_result (ok e) = ok (framed e)
framed_result (err e) = err e

unfoldable pub push_event : Serde → StreamEncoder → IrStreamEvent → Result MapError Pushed
push_event serde s (protocol name payload) = ok (push_protocol serde s name payload)
push_event serde s (unknown_event event payload) = ok (s, passed (encode_named serde event payload))
push_event serde s done = ok (framed (finish serde s))
push_event serde s (search_entry_point html) = ok (s, frames [])
push_event serde s ev = framed_result (push_messages serde s ev)

unfoldable pub push : Serde → StreamEncoder → IrStreamEvent → Result MapError Pushed
push serde s ev = if s.finished then ok (s, frames []) else push_event serde s ev

unfoldable pub prepend : List Frame → Option (List Frame) → Option (List Frame)
prepend fs none = none
prepend fs (some gs) = some (fs ++ gs)

-- A stream's events pushed in their order, and its end: the frames, unless an event fails or passes through.
unfoldable pub session : Serde → StreamEncoder → List IrStreamEvent → Option (List Frame)
session serde s [] = some (finish serde s).1
session serde s (ev ∷ evs) = elim (push serde s ev) [
  | ok (s', frames fs) ↦ prepend fs (session serde s' evs)
  | ok (s', passed raw) ↦ none
  | err e ↦ none
]
