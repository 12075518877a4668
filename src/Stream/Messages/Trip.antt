-- ===== src/Stream/Messages/Trip.antt =====
-- crates/wiremux/src/stream/messages.rs: what `decode` reads of a frame that `encode` wrote.
use wiremux.Prelude.{[], ◌∷◌, Option, none, some, is_empty, ◌&&◌, not, if◌then◌else◌, ◌≡◌, refl}
use wiremux.Prelude.Results.{ok}
use wiremux.Prelude.Text.{Str, str}
use wiremux.Json.{Value, null, Serde}
use wiremux.Map.PromptCache.{response_custom_tool_input}
use wiremux.Ir.{
  IrStreamEvent, text_delta, refusal_delta, reasoning_delta, reasoning_signature, tool_call_start,
  tool_call_arg_delta, custom_tool_call_start, audio_transcript_delta, finish_reason, done,
  audio_delta, search_entry_point, annotation_added, tool_call_end, custom_tool_call_input_delta,
  logprobs, created, service_tier, metadata, moderation, diagnostics, container, context_management,
  stop_sequence, usage, protocol, unknown_event, image_delta,
}
use wiremux.Stream.Fields.{Frame, non_empty}
use wiremux.Stream.Usage.{anthropic_usage, from_anthropic}
use wiremux.Stream.Messages.{
  block_start, block_delta, block_stop, message_delta, map_stop_reason, encode_stop_reason, encode,
  image_block, refusal_frame, finish_frame, citation_delta, citation_from_annotation,
  annotation_url, annotation_title, annotation_field, usage_service_tier_to_messages,
  service_tier_frame,
}
use wiremux.Stream.Messages.Decode.{Decoded, decode}
use wiremux.Stream.Messages.Back.{capped, is_image, no_usage, cited, citation_event}
use wiremux.Stream.Messages.Frames.{
  text_delta-trip, tool_use-trip, input_json-trip, image-trip, refusal-trip, finish-trip, stop-trip,
  block_stop-trip, usage-trip, service_tier-trip, message_delta-trip, citation-trip,
}

-- The events that the Messages wire has a frame for.
unfoldable pub HasFrame : IrStreamEvent → Type 0
HasFrame (protocol item_type payload) = ⊥
HasFrame (unknown_event event payload) = ⊥
HasFrame ev = Unit {0}

unless_empty : Str → IrStreamEvent → Decoded
unless_empty t ev = ok (if is_empty t then none else some ev)

as_protocol : Frame → Decoded
as_protocol frame = ok (some (protocol frame.0 frame.1))

tier_event : Option Str → Decoded
tier_event none = ok none
tier_event (some mapped) = ok (some (usage no_usage))

-- What an event comes back as.
unfoldable pub read_back : Serde → Frame → IrStreamEvent → Decoded
unfolding unless_empty as_protocol tier_event
read_back serde frame (text_delta t) = unless_empty t (text_delta t)
read_back serde frame (audio_transcript_delta t) = unless_empty t (text_delta t)
read_back serde frame (reasoning_delta t) = unless_empty t (reasoning_delta t)
read_back serde frame (reasoning_signature t) = unless_empty t (reasoning_signature t)
read_back serde frame (refusal_delta t) =
    ok (some (if is_empty t then protocol frame.0 frame.1 else refusal_delta t))
read_back serde frame (tool_call_start id name signature n) =
    capped n (tool_call_start id name none n)
read_back serde frame (custom_tool_call_start id name n) = capped n (tool_call_start id name none n)
read_back serde frame (tool_call_arg_delta delta n) = capped n (tool_call_arg_delta delta n)
read_back serde frame (custom_tool_call_input_delta delta n) =
    capped n (tool_call_arg_delta (serde.to_string (response_custom_tool_input serde delta)) n)
read_back serde frame (image_delta media_type payload) = ok (
    some (
      if not (is_empty payload) && is_image media_type
      then image_delta media_type payload
      else protocol frame.0 frame.1))
read_back serde frame (annotation_added annotation) =
    ok (some (citation_event frame (annotation_url annotation) (annotation_title annotation)))
read_back serde frame (finish_reason reason vendor) =
    ok (some (finish_reason (map_stop_reason (encode_stop_reason reason)) none))
read_back serde frame (usage u) = ok (some (usage (from_anthropic (anthropic_usage u))))
read_back serde frame (service_tier tier) = tier_event (usage_service_tier_to_messages tier)
read_back serde frame done = ok (some done)
read_back serde frame (audio_delta payload) = ok none
read_back serde frame (logprobs content refusal) = ok none
read_back serde frame (created at) = ok none
read_back serde frame (metadata values) = ok none
read_back serde frame (moderation input output) = ok none
read_back serde frame ev = as_protocol frame

non_empty-again : (o : Option Str) → non_empty (non_empty o) ≡ non_empty o
unfolding non_empty
non_empty-again none = refl
non_empty-again (some []) = refl
non_empty-again (some (x ∷ xs)) = refl

annotation-trip :
    (annotation : Value)
    → decode
        (str "content_block_delta")
        (block_delta 0 (citation_delta (citation_from_annotation annotation))).1
      ≡ ok (
          some (
            citation_event
              (block_delta 0 (citation_delta (citation_from_annotation annotation)))
              (annotation_url annotation)
              (annotation_title annotation)))
unfolding citation_from_annotation cited annotation_url annotation_title annotation_field
annotation-trip annotation =
    citation-trip (annotation_url annotation) (annotation_title annotation) (non_empty-again _)
      (non_empty-again _)

tier-trip :
    (o : Option Str) → decode (service_tier_frame o).0 (service_tier_frame o).1 ≡ tier_event o
unfolding service_tier_frame block_delta tier_event
tier-trip none = (text_delta-trip []).0
tier-trip (some mapped) = service_tier-trip mapped

-- encode has a frame for every event but a protocol or an unknown event, and decode reads of that frame:
-- of a text, transcript, reasoning or signature delta the same text (a transcript as text), and nothing
-- if it is empty; of a refusal the refusal, or, if it is empty, a protocol event of the frame; of a
-- tool-call start and a custom-tool start a tool-call start without thought signature, of an argument
-- delta the same, and of a custom-tool input delta an argument delta with the printed value of
-- response_custom_tool_input, each at its own index up to 128, and an error beyond it; of an image the
-- image if its payload is not empty and its media type starts with image/ in any case, else a protocol
-- event; of an annotation its URL and title as a url_citation, or, without a URL, a protocol event; of a
-- finish reason map_stop_reason of its encode_stop_reason, without the vendor's own; of a usage what
-- from_anthropic makes of its anthropic_usage; of a service tier that the wire knows a usage of no
-- counts, and nothing of another tier; of the end the end; nothing of audio, logprobs, created, metadata
-- and moderation; and of each other event a protocol event of the frame.
pub decode-encode :
    (serde : Serde) (ev : IrStreamEvent)
    → HasFrame ev
    → (frame : Frame) × (encode serde ev ≡ ok frame)
      × (decode frame.0 frame.1 ≡ read_back serde frame ev)
unfolding HasFrame read_back encode block_delta block_stop refusal_frame message_delta block_start
    finish_frame unless_empty as_protocol
decode-encode serde (text_delta t) h = (_, refl, (text_delta-trip t).0)
decode-encode serde (audio_transcript_delta t) h = (_, refl, (text_delta-trip t).0)
decode-encode serde (reasoning_delta t) h = (_, refl, (text_delta-trip t).1)
decode-encode serde (reasoning_signature t) h = (_, refl, (text_delta-trip t).2)
decode-encode serde (refusal_delta t) h = (refusal_frame t, refl, refusal-trip t)
decode-encode serde (tool_call_start id name signature n) h = (_, refl, tool_use-trip id name n)
decode-encode serde (custom_tool_call_start id name n) h = (_, refl, tool_use-trip id name n)
decode-encode serde (tool_call_arg_delta delta n) h = (_, refl, input_json-trip delta n)
decode-encode serde (custom_tool_call_input_delta delta n) h = (_, refl, input_json-trip _ n)
decode-encode serde (image_delta media_type payload) h =
    (block_start 0 (image_block media_type payload), refl, image-trip media_type payload)
decode-encode serde (annotation_added annotation) h = (_, refl, annotation-trip annotation)
decode-encode serde (finish_reason reason vendor) h = (_, refl, finish-trip reason)
decode-encode serde (usage u) h = (_, refl, usage-trip u)
decode-encode serde (service_tier tier) h =
    (_, refl, tier-trip (usage_service_tier_to_messages tier))
decode-encode serde done h = (_, refl, stop-trip)
decode-encode serde tool_call_end h = (block_stop 0, refl, block_stop-trip)
decode-encode serde (audio_delta payload) h = (_, refl, (text_delta-trip []).0)
decode-encode serde (logprobs content refusal) h = (_, refl, (text_delta-trip []).0)
decode-encode serde (created at) h = (_, refl, (text_delta-trip []).0)
decode-encode serde (metadata values) h = (_, refl, (text_delta-trip []).0)
decode-encode serde (moderation input output) h = (_, refl, (text_delta-trip []).0)
decode-encode serde (search_entry_point html) h = (_, refl, (message_delta-trip null).3)
decode-encode serde (stop_sequence text) h = (_, refl, (message_delta-trip null).3)
decode-encode serde (diagnostics reason) h = (_, refl, (message_delta-trip reason).0)
decode-encode serde (container value) h = (_, refl, (message_delta-trip value).1)
decode-encode serde (context_management value) h = (_, refl, (message_delta-trip value).2)
decode-encode serde (protocol item_type payload) h = absurd h
decode-encode serde (unknown_event event payload) h = absurd h
