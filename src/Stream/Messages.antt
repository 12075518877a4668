-- ===== src/Stream/Messages.antt =====
-- crates/wiremux/src/stream/messages.rs: the frames of the Messages wire and the events they stand for.
pub mod Decode
pub mod Back
pub mod Frames
pub mod Trip
use wiremux.Prelude.{
  ℕ, Bool, true, false, ◌&&◌, ◌||◌, List, [], ◌∷◌, ◌++◌, Option, none, some, if◌then◌else◌, is_some,
}
use wiremux.Prelude.Results.{Result, ok, err}
use wiremux.Prelude.Text.{Str, str, str_eq}
use wiremux.Prelude.Trim.{trim, to_ascii_lowercase}
use wiremux.Json.{
  Value, null, object, string, Fields, end, get, as_str, json_object, json_u32, Serde,
}
use wiremux.Ir.{
  IrStreamEvent, Usage, text_delta, refusal_delta, reasoning_delta, reasoning_signature,
  tool_call_start, tool_call_arg_delta, tool_call_end, annotation_added, search_entry_point,
  audio_delta, image_delta, audio_transcript_delta, custom_tool_call_start,
  custom_tool_call_input_delta, logprobs, created, service_tier, metadata, moderation, diagnostics,
  container, context_management, stop_sequence, usage, finish_reason, protocol, unknown_event, done,
}
use wiremux.Map.Error.{MapError, invalid}
use wiremux.Map.PromptCache.{response_custom_tool_input}
use wiremux.Stream.Fields.{Frame, non_empty, or_text, bind_option, get2, str_field}
use wiremux.Stream.Usage.{encode_anthropic, set_some, option_string}

-- `chat::annotation_url` and `chat::annotation_title`, at their key.
or_else : Option Value → Option Value → Option Value
or_else none v = v
or_else (some u) v = some u

unfoldable pub annotation_field : Str → Value → Option Str
unfolding or_else
annotation_field key ann =
    non_empty (bind_option (or_else (get2 (str "url_citation") key ann) (get key ann)) as_str)

unfoldable pub annotation_url : Value → Option Str
unfolding annotation_field
annotation_url ann = annotation_field (str "url") ann

unfoldable pub annotation_title : Value → Option Str
unfolding annotation_field
annotation_title ann = annotation_field (str "title") ann

unfoldable pub citation_from_annotation : Value → Value
citation_from_annotation annotation =
    set_some (option_string (annotation_title annotation)) (str "title") (
      json_object (
        (str "type", string (str "web_search_result_location"))
        ∷ (str "url", string (or_text (annotation_url annotation) []))
        ∷ (str "encrypted_index", string [])
        ∷ (str "cited_text", string [])
        ∷ []))

unfoldable pub map_stop_reason : Str → Str
map_stop_reason reason =
    if str_eq reason (str "refusal")
    then str "content_filter"
    else if str_eq reason (str "max_tokens")
    then str "max_tokens"
    else if str_eq reason (str "tool_use")
    then str "tool_calls"
    else if str_eq reason (str "end_turn")
    then str "stop"
    else reason

unfoldable pub encode_stop_reason : Str → Str
encode_stop_reason reason =
    if str_eq reason (str "stop") || str_eq reason (str "end_turn")
    then str "end_turn"
    else if str_eq reason (str "length") || str_eq reason (str "max_tokens")
    then str "max_tokens"
    else if str_eq reason (str "tool_calls") || str_eq reason (str "tool_use")
    then str "tool_use"
    else reason

unfoldable pub usage_service_tier_to_messages : Str → Option Str
usage_service_tier_to_messages tier =
    let word = to_ascii_lowercase (trim tier) in
    if str_eq word (str "priority")
    then some (str "priority")
    else if str_eq word (str "default") || str_eq word (str "standard")
    then some (str "standard")
    else none

-- The frames that `encode` and the stream's encoder share, at the index of their block.
unfoldable pub block_start : ℕ → Value → Frame
block_start index content_block = (
  str "content_block_start",
  json_object (
      (str "type", string (str "content_block_start"))
      ∷ (str "index", json_u32 index)
      ∷ (str "content_block", content_block)
      ∷ []),
)

unfoldable pub block_delta : ℕ → Value → Frame
block_delta index delta = (
  str "content_block_delta",
  json_object (
      (str "type", string (str "content_block_delta"))
      ∷ (str "index", json_u32 index)
      ∷ (str "delta", delta)
      ∷ []),
)

unfoldable pub block_stop : ℕ → Frame
block_stop index = (
  str "content_block_stop",
  json_object
      ((str "type", string (str "content_block_stop")) ∷ (str "index", json_u32 index) ∷ []),
)

-- A delta of a type with one text.
unfoldable pub typed_delta : Str → Str → Str → Value
typed_delta type_name key text =
    json_object ((str "type", string type_name) ∷ (key, string text) ∷ [])

abbrev pub text_value : Str → Value
text_value text = typed_delta (str "text_delta") (str "text") text

abbrev pub input_json_value : Str → Value
input_json_value delta = typed_delta (str "input_json_delta") (str "partial_json") delta

unfoldable pub tool_use_block : Str → Str → Value
tool_use_block id name = json_object (
    (str "type", string (str "tool_use"))
    ∷ (str "id", string id)
    ∷ (str "name", string name)
    ∷ (str "input", object end)
    ∷ [])

unfoldable pub image_block : Str → Str → Value
image_block media_type payload = json_object (
    (str "type", string (str "image"))
    ∷ (
      str "source",
      json_object (
          (str "type", string (str "base64"))
          ∷ (str "media_type", string media_type)
          ∷ (str "data", string payload)
          ∷ []),
    )
    ∷ [])

unfoldable pub citation_delta : Value → Value
citation_delta citation =
    json_object ((str "type", string (str "citations_delta")) ∷ (str "citation", citation) ∷ [])

-- A `message_delta` with a `delta` and one more member.
unfoldable pub message_delta : List (Str × Value) → Frame
message_delta members =
    (str "message_delta", json_object ((str "type", string (str "message_delta")) ∷ members))

unfoldable pub refusal_frame : Str → Frame
refusal_frame text = message_delta (
    (
      str "delta",
      json_object (
          (
            str "stop_details",
            json_object
                ((str "type", string (str "refusal")) ∷ (str "explanation", string text) ∷ []),
          )
          ∷ []),
    )
    ∷ [])

unfoldable pub finish_frame : Str → Frame
finish_frame reason = message_delta (
    (
      str "delta",
      json_object (
          (str "stop_reason", string (encode_stop_reason reason))
          ∷ (str "stop_sequence", null)
          ∷ []),
    )
    ∷ [])

abbrev pub stop_frame : Frame
stop_frame = (str "message_stop", json_object ((str "type", string (str "message_stop")) ∷ []))

abbrev pub empty_text_delta : Frame
empty_text_delta = block_delta 0 (text_value [])

unfoldable pub service_tier_frame : Option Str → Frame
service_tier_frame none = empty_text_delta
service_tier_frame (some mapped) = (
  str "message_start",
  json_object (
      (str "type", string (str "message_start"))
      ∷ (
        str "message",
        json_object (
            (
              str "usage",
              json_object (
                  (str "input_tokens", json_u32 0)
                  ∷ (str "output_tokens", json_u32 0)
                  ∷ (str "service_tier", string mapped)
                  ∷ []),
            )
            ∷ []),
      )
      ∷ []),
)

unfoldable pub encode : Serde → IrStreamEvent → Result MapError Frame
unfolding service_tier_frame
encode serde (text_delta text) = ok (block_delta 0 (text_value text))
encode serde (audio_transcript_delta text) = ok (block_delta 0 (text_value text))
encode serde (refusal_delta text) = ok (refusal_frame text)
encode serde (reasoning_delta text) =
    ok (block_delta 0 (typed_delta (str "thinking_delta") (str "thinking") text))
encode serde (reasoning_signature signature) =
    ok (block_delta 0 (typed_delta (str "signature_delta") (str "signature") signature))
encode serde (tool_call_start id name thought_signature index) =
    ok (block_start index (tool_use_block id name))
encode serde (custom_tool_call_start id name index) =
    ok (block_start index (tool_use_block id name))
encode serde (tool_call_arg_delta delta index) = ok (block_delta index (input_json_value delta))
encode serde (custom_tool_call_input_delta delta index) = ok (
    block_delta index (input_json_value (serde.to_string (response_custom_tool_input serde delta))))
encode serde (annotation_added annotation) =
    ok (block_delta 0 (citation_delta (citation_from_annotation annotation)))
encode serde (service_tier tier) = ok (service_tier_frame (usage_service_tier_to_messages tier))
encode serde (image_delta media_type payload) = ok (block_start 0 (image_block media_type payload))
encode serde (audio_delta payload) = ok empty_text_delta
encode serde (logprobs content refusal) = ok empty_text_delta
encode serde (created at) = ok empty_text_delta
encode serde (metadata values) = ok empty_text_delta
encode serde (moderation input output) = ok empty_text_delta
encode serde tool_call_end = ok (block_stop 0)
encode serde (usage u) = ok (str "message_delta", encode_anthropic u)
encode serde (finish_reason reason vendor) = ok (finish_frame reason)
encode serde (diagnostics cache_miss_reason) = ok (
    message_delta (
      (str "delta", object end)
      ∷ (str "diagnostics", json_object ((str "cache_miss_reason", cache_miss_reason) ∷ []))
      ∷ []))
encode serde (container value) =
    ok (message_delta ((str "delta", object end) ∷ (str "container", value) ∷ []))
encode serde (stop_sequence text) = ok (message_delta ((str "delta", object end) ∷ []))
encode serde (search_entry_point html) = ok (message_delta ((str "delta", object end) ∷ []))
encode serde (context_management value) =
    ok (message_delta ((str "delta", object end) ∷ (str "context_management", value) ∷ []))
encode serde done = ok stop_frame
encode serde (protocol item_type payload) =
    err (invalid (str "protocol/unknown events are encoded at the stream root"))
encode serde (unknown_event event payload) =
    err (invalid (str "protocol/unknown events are encoded at the stream root"))
