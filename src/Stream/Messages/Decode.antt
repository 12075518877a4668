-- ===== src/Stream/Messages/Decode.antt =====
-- crates/wiremux/src/stream/messages.rs: the event of a Messages frame.
use wiremux.Prelude.{
  ℕ, Bool, true, [], ◌∷◌, ◌++◌, Option, none, some, if◌then◌else◌, is_some, is_none,
}
use wiremux.Prelude.Results.{Result, ok, err}
use wiremux.Prelude.Text.{Str, str, str_eq, strip_prefix}
use wiremux.Prelude.Trim.{to_ascii_lowercase}
use wiremux.Json.{Value, string, get, as_str, is_object, json_object}
use wiremux.Ir.{
  IrStreamEvent, text_delta, refusal_delta, reasoning_delta, reasoning_signature, tool_call_start,
  tool_call_arg_delta, annotation_added, image_delta, usage, finish_reason, protocol, done,
}
use wiremux.Map.Error.{MapError, invalid}
use wiremux.Stream.Fields.{
  non_empty, or_text, or_value, or_zero, bind_option, get2, str_field, u32_field, check_index,
  max_content_block_index,
}
use wiremux.Stream.Usage.{from_anthropic, set_some, option_string}
use wiremux.Stream.Messages.{map_stop_reason}

abbrev pub Decoded : Type 0
Decoded = Result MapError (Option IrStreamEvent)

abbrev opt_map {ℓ κ} : {A : Type ℓ} {B : Type κ} → (A → B) → Option A → Option B
opt_map f none = none
opt_map f (some a) = some (f a)

unfoldable pub type_of : Value → Option Str
type_of value = bind_option (get (str "type") value) as_str

unfoldable pub block_index : Value → ℕ
block_index value = or_zero (u32_field value (str "index"))

-- `source.type` absent or `base64`.
unfoldable pub is_base64 : Value → Bool
is_base64 source = elim (type_of source) [ none ↦ true | some ty ↦ str_eq ty (str "base64") ]

-- The image behind the check of its type, with text and a media type.
image_of : Option Str → Option Str → Option IrStreamEvent
image_of (some payload) (some media_type) =
    if is_some (strip_prefix (str "image/") (to_ascii_lowercase media_type))
    then some (image_delta media_type payload)
    else none
image_of _ _ = none

unfoldable pub image_delta_from_block : Value → Option IrStreamEvent
unfolding image_of
image_delta_from_block block = bind_option (get (str "source") block) (λ source.
    if is_base64 source
    then image_of (non_empty (str_field source (str "data"))) (str_field source (str "media_type"))
    else none)

citation_url : Value → Option Str
citation_url citation =
    let ty = or_text (type_of citation) [] in
    non_empty (
      if str_eq ty (str "web_search_result_location")
      then str_field citation (str "url")
      else if str_eq ty (str "search_result_location")
      then str_field citation (str "source")
      else none)

unfoldable pub annotation_from_messages_citation : Value → Option Value
unfolding citation_url
annotation_from_messages_citation citation =
    opt_map
      (λ url.
        set_some (option_string (non_empty (str_field citation (str "title")))) (str "title")
          (json_object ((str "type", string (str "url_citation")) ∷ (str "url", string url) ∷ [])))
      (citation_url citation)

unfoldable pub stop_details_explanation : Value → Option Str
stop_details_explanation value = non_empty (
    bind_option
      (bind_option (get2 (str "delta") (str "stop_details") value) (get (str "explanation")))
      as_str)

unfoldable pub nonempty_text : Option Str → (Str → IrStreamEvent) → Decoded
nonempty_text text wrap = ok (opt_map wrap (non_empty text))

decode_error : Value → Decoded
decode_error value =
    let e = or_value (get (str "error") value) value in
    err (
      invalid (
        or_text (str_field e (str "type")) (str "error")
        ++ (str ": " ++ or_text (str_field e (str "message")) [])))

or_event : Option IrStreamEvent → IrStreamEvent → IrStreamEvent
or_event none e = e
or_event (some e') e = e'

-- The arm of `content_block_start` by the block's type.
unfoldable pub decode_start : Str → Value → Value → Option Str → Decoded
unfolding or_event
decode_start name value block none = ok (some (protocol name value))
decode_start name value block (some ty) =
    if str_eq ty (str "tool_use")
    then ok (
        some (
          tool_call_start (or_text (str_field block (str "id")) [])
            (or_text (str_field block (str "name")) []) none (block_index value)))
    else if str_eq ty (str "image")
    then ok (some (or_event (image_delta_from_block block) (protocol name value)))
    else if str_eq ty (str "redacted_thinking")
    then (if is_none (non_empty (str_field block (str "data")))
        then ok none
        else ok (some (protocol name value)))
    else ok (some (protocol name value))

decode_citation : Str → Value → Value → Decoded
decode_citation name value citation = elim (annotation_from_messages_citation citation) [
  | some annotation ↦ ok (some (annotation_added annotation))
  | none ↦ (if is_some (type_of citation) then ok (some (protocol name value)) else ok none)
]

-- The arm of `content_block_delta` by the delta's type.
unfoldable pub decode_delta : Str → Value → Value → Option Str → Decoded
unfolding decode_citation
decode_delta name value delta none = ok (some (protocol name value))
decode_delta name value delta (some ty) =
    if str_eq ty (str "text_delta")
    then nonempty_text (str_field delta (str "text")) text_delta
    else if str_eq ty (str "thinking_delta")
    then nonempty_text (str_field delta (str "thinking")) reasoning_delta
    else if str_eq ty (str "signature_delta")
    then nonempty_text (str_field delta (str "signature")) reasoning_signature
    else if str_eq ty (str "input_json_delta")
    then ok (
        some (
          tool_call_arg_delta (or_text (str_field delta (str "partial_json")) [])
            (block_index value)))
    else if str_eq ty (str "citations_delta")
    then decode_citation name value (or_value (get (str "citation") delta) delta)
    else ok (some (protocol name value))

filter_object : Option Value → Option Value
filter_object none = none
filter_object (some v) = if is_object v then some v else none

unfoldable pub decode_message_delta : Str → Value → Decoded
unfolding filter_object
decode_message_delta name value =
    elim (bind_option (get2 (str "delta") (str "stop_reason") value) as_str) [
      | some reason ↦ ok (some (finish_reason (map_stop_reason reason) none))
      | none ↦ elim (stop_details_explanation value) [
        | some text ↦ ok (some (refusal_delta text))
        | none ↦ elim (filter_object (get (str "usage") value)) [
          | some u ↦ ok (some (usage (from_anthropic u)))
          | none ↦ ok (some (protocol name value))
        ]
      ]
    ]

unfoldable pub decode_message_start : Str → Value → Decoded
decode_message_start name value = elim (get2 (str "message") (str "usage") value) [
  | some u ↦ ok (some (usage (from_anthropic u)))
  | none ↦ ok (some (protocol name value))
]

infixl 5 ◌>>◌
abbrev pub ◌>>◌ : Result MapError (Unit {0}) → Decoded → Decoded
ok a >> d = d
err e >> d = err e

abbrev check_block : Value → Result MapError (Unit {0})
check_block value = check_index value (str "index") max_content_block_index (str "content block")

unfoldable pub decode : Str → Value → Decoded
unfolding decode_error
decode name value =
    let block = or_value (get (str "content_block") value) value in
    let delta = or_value (get (str "delta") value) value in
    if str_eq name (str "ping")
    then ok none
    else if str_eq name (str "error")
    then decode_error value
    else if str_eq name (str "message_stop")
    then ok (some done)
    else if str_eq name (str "message_start")
    then decode_message_start name value
    else if str_eq name (str "content_block_start")
    then (check_block value >> decode_start name value block (type_of block))
    else if str_eq name (str "content_block_delta")
    then (check_block value >> decode_delta name value delta (type_of delta))
    else if str_eq name (str "content_block_stop")
    then (check_block value >> ok (some (protocol name value)))
    else if str_eq name (str "message_delta")
    then decode_message_delta name value
    else ok (some (protocol name value))
