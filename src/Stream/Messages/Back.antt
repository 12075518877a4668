-- ===== src/Stream/Messages/Back.antt =====
-- crates/wiremux/src/stream/messages.rs: the forms in which an event of a Messages frame comes back.
use wiremux.Prelude.{Option, [], ◌∷◌, none, some, ltb, ℕ, is_some, Bool, ◌++◌, if◌then◌else◌}
use wiremux.Prelude.Results.{ok, err}
use wiremux.Prelude.Text.{Str, str, strip_prefix, decimal}
use wiremux.Prelude.Trim.{to_ascii_lowercase}
use wiremux.Json.{json_object, Value, string, object, end}
use wiremux.Ir.{IrStreamEvent, protocol, Usage, annotation_added}
use wiremux.Map.Error.{invalid}
use wiremux.Stream.Usage.{set_some, option_string}
use wiremux.Stream.Fields.{Frame, or_text, max_content_block_index}
use wiremux.Stream.Messages.{message_delta}
use wiremux.Stream.Messages.Decode.{Decoded}

-- The event at an index that is within the cap, and the refusal of an index beyond it.
unfoldable pub capped : ℕ → IrStreamEvent → Decoded
capped n ev =
    if ltb max_content_block_index n
    then err (invalid (str "content block index " ++ (decimal n ++ str " exceeds cap (128)")))
    else ok (some ev)

-- A media type that starts with `image/`, in any case.
unfoldable pub is_image : Str → Bool
is_image media_type = is_some (strip_prefix (str "image/") (to_ascii_lowercase media_type))

-- The usage that no count and no region make.
abbrev pub no_usage : Usage
no_usage = record {
  prompt_tokens = 0;
  completion_tokens = 0;
  cache_read_tokens = 0;
  cache_write_tokens = 0;
  reasoning_tokens = 0;
  audio_tokens = 0;
  completion_audio_tokens = 0;
  inference_geo = none;
}

-- A `message_delta` with an empty delta, and one with one more member.
abbrev pub bare_frame : Frame
bare_frame = message_delta ((str "delta", object end) ∷ [])

abbrev pub member_frame : Str → Value → Frame
member_frame key v = message_delta ((str "delta", object end) ∷ (key, v) ∷ [])

abbrev pub diagnostics_frame : Value → Frame
diagnostics_frame v =
    member_frame (str "diagnostics") (json_object ((str "cache_miss_reason", v) ∷ []))

-- The citation of an annotation with a URL and a title, and the annotation of a citation.
unfoldable pub cited : Option Str → Option Str → Value
cited url title = set_some (option_string title) (str "title") (
    json_object (
      (str "type", string (str "web_search_result_location"))
      ∷ (str "url", string (or_text url []))
      ∷ (str "encrypted_index", string [])
      ∷ (str "cited_text", string [])
      ∷ []))

unfoldable pub url_citation : Str → Option Str → Value
url_citation url title =
    set_some (option_string title) (str "title")
      (json_object ((str "type", string (str "url_citation")) ∷ (str "url", string url) ∷ []))

unfoldable pub citation_event : Frame → Option Str → Option Str → IrStreamEvent
citation_event frame none title = protocol frame.0 frame.1
citation_event frame (some url) title = annotation_added (url_citation url title)
