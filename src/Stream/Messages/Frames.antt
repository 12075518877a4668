-- ===== src/Stream/Messages/Frames.antt =====
-- crates/wiremux/src/stream/messages.rs: what `decode` reads of each frame that `encode` writes.
use wiremux.Prelude.{
  Option, true, false, [], ◌∷◌, none, some, is_empty, leb, ltb, u32_max, ℕ, is_some, ◌≡◌, refl,
  arith, Bool, not, ◌&&◌, if◌then◌else◌, inl, inr, Bool-cases,
}
use wiremux.Prelude.Results.{ok}
use wiremux.Prelude.Text.{Str, str, str_eq, str_lt, strip_prefix, decimal}
use wiremux.Prelude.Trim.{to_ascii_lowercase}
use wiremux.Json.{
  get, lookup, insert, fields_of, json_object, is_object, Value, string, object, end, set_key,
}
use wiremux.Ir.{
  text_delta, refusal_delta, reasoning_delta, reasoning_signature, tool_call_start,
  tool_call_arg_delta, finish_reason, done, usage, protocol, image_delta, Usage,
}
use wiremux.Stream.Usage.{
  anthropic_usage, encode_anthropic, from_anthropic, set_if, set_some, thinking_tokens,
}
use wiremux.Stream.Fields.{
  non_empty, or_text, get2, str_field, u32_field, try_u32, or_zero, check_index, check_index_of,
  max_content_block_index,
}
use wiremux.Stream.Messages.{
  block_start, block_delta, block_stop, message_delta, typed_delta, tool_use_block, map_stop_reason,
  encode_stop_reason, text_value, input_json_value, image_block, refusal_frame, finish_frame,
  stop_frame, citation_delta, service_tier_frame,
}
use wiremux.Stream.Messages.Decode.{
  decode, decode_start, decode_delta, decode_message_delta, type_of, block_index, nonempty_text,
  stop_details_explanation, image_delta_from_block, is_base64, decode_message_start,
  annotation_from_messages_citation,
}
use wiremux.Stream.Messages.Back.{
  capped, is_image, no_usage, bare_frame, member_frame, diagnostics_frame, cited, url_citation,
  citation_event,
}

index-fits : (n : ℕ) → ltb max_content_block_index n ≡ false → leb n u32_max ≡ true
index-fits n h = ground arith

pub text_delta-trip :
    (t : Str)
    → (decode (str "content_block_delta") (block_delta 0 (text_value t)).1
        ≡ ok (if is_empty t then none else some (text_delta t)))
      × (decode
            (str "content_block_delta")
            (block_delta 0 (typed_delta (str "thinking_delta") (str "thinking") t)).1
          ≡ ok (if is_empty t then none else some (reasoning_delta t)))
      × (decode
            (str "content_block_delta")
            (block_delta 0 (typed_delta (str "signature_delta") (str "signature") t)).1
          ≡ ok (if is_empty t then none else some (reasoning_signature t)))
unfolding fields_of get insert json_object lookup str_eq str_lt check_index check_index_of non_empty
    or_text or_zero str_field try_u32 u32_field block_index decode decode_start decode_delta
    nonempty_text type_of block_start block_delta typed_delta tool_use_block
text_delta-trip [] = (refl, refl, refl)
text_delta-trip (x ∷ xs) = (refl, refl, refl)

pub tool_use-trip :
    (id name : Str) (n : ℕ)
    → decode (str "content_block_start") (block_start n (tool_use_block id name)).1
      ≡ capped n (tool_call_start id name none n)
unfolding fields_of get insert json_object lookup str_eq str_lt check_index check_index_of non_empty
    or_text or_zero str_field try_u32 u32_field block_index decode decode_start decode_delta
    nonempty_text type_of block_start block_delta typed_delta tool_use_block capped decimal
tool_use-trip id name n = elim (Bool-cases (ltb max_content_block_index n)) [
  | inl h ↦ rw h refl
  | inr h ↦ rw (h, index-fits n h) refl
]

pub input_json-trip :
    (delta : Str) (n : ℕ)
    → decode (str "content_block_delta") (block_delta n (input_json_value delta)).1
      ≡ capped n (tool_call_arg_delta delta n)
unfolding fields_of get insert json_object lookup str_eq str_lt check_index check_index_of non_empty
    or_text or_zero str_field try_u32 u32_field block_index decode decode_start decode_delta
    nonempty_text type_of block_start block_delta typed_delta tool_use_block capped decimal
input_json-trip delta n = elim (Bool-cases (ltb max_content_block_index n)) [
  | inl h ↦ rw h refl
  | inr h ↦ rw (h, index-fits n h) refl
]

pub image-trip :
    (media_type payload : Str)
    → decode (str "content_block_start") (block_start 0 (image_block media_type payload)).1
      ≡ ok (
          some (
            if not (is_empty payload) && is_image media_type
            then image_delta media_type payload
            else protocol
                (str "content_block_start")
                (block_start 0 (image_block media_type payload)).1))
unfolding fields_of get insert json_object lookup str_eq str_lt check_index check_index_of non_empty
    or_text or_zero str_field try_u32 u32_field block_index decode decode_start decode_delta
    nonempty_text type_of block_start block_delta typed_delta tool_use_block image_block
    image_delta_from_block is_base64 is_image
image-trip media_type [] = refl
image-trip media_type (x ∷ payload) =
    elim (Bool-cases (is_some (strip_prefix (str "image/") (to_ascii_lowercase media_type)))) [
      | inl k ↦ rw k refl
      | inr k ↦ rw k refl
    ]

pub refusal-trip :
    (t : Str)
    → decode (str "message_delta") (refusal_frame t).1
      ≡ ok (
          some (
            if is_empty t
            then protocol (str "message_delta") (refusal_frame t).1
            else refusal_delta t))
unfolding fields_of get insert json_object lookup str_eq str_lt check_index check_index_of non_empty
    or_text or_zero str_field try_u32 u32_field block_index decode decode_start decode_delta
    nonempty_text type_of block_start block_delta typed_delta tool_use_block refusal_frame
    message_delta decode_message_delta stop_details_explanation get2
refusal-trip [] = refl
refusal-trip (x ∷ xs) = refl

pub finish-trip :
    (reason : Str)
    → decode (str "message_delta") (finish_frame reason).1
      ≡ ok (some (finish_reason (map_stop_reason (encode_stop_reason reason)) none))
unfolding fields_of get insert json_object lookup str_eq str_lt check_index check_index_of non_empty
    or_text or_zero str_field try_u32 u32_field block_index decode decode_start decode_delta
    nonempty_text type_of block_start block_delta typed_delta tool_use_block finish_frame
    message_delta decode_message_delta get2
finish-trip reason = refl

pub stop-trip : decode (str "message_stop") stop_frame.1 ≡ ok (some done)
unfolding fields_of get insert json_object lookup str_eq str_lt check_index check_index_of non_empty
    or_text or_zero str_field try_u32 u32_field block_index decode decode_start decode_delta
    nonempty_text type_of block_start block_delta typed_delta tool_use_block
stop-trip = refl

pub block_stop-trip :
    decode (str "content_block_stop") (block_stop 0).1
    ≡ ok (some (protocol (str "content_block_stop") (block_stop 0).1))
unfolding fields_of get insert json_object lookup str_eq str_lt check_index check_index_of non_empty
    or_text or_zero str_field try_u32 u32_field block_index decode decode_start decode_delta
    nonempty_text type_of block_start block_delta typed_delta tool_use_block block_stop
block_stop-trip = refl

is_object-set_if :
    (b : Bool) (k : Str) (x v : Value) → is_object v ≡ true → is_object (set_if b k x v) ≡ true
unfolding set_if set_key
is_object-set_if b k x v h = ground arith

is_object-set_some :
    (o : Option Value) (k : Str) (v : Value)
    → is_object v ≡ true
    → is_object (set_some o k v) ≡ true
unfolding set_some set_key
is_object-set_some o k v h = ground arith

is_object-anthropic_usage : (u : Usage) → is_object (anthropic_usage u) ≡ true
unfolding anthropic_usage json_object
is_object-anthropic_usage u =
    is_object-set_some _ _ _
      (is_object-set_if _ _ _ _ (is_object-set_if _ _ _ _ (is_object-set_if _ _ _ _ refl)))

pub usage_of-trip :
    (v : Value)
    → is_object v ≡ true
    → decode (str "message_delta") (
        json_object (
          (str "type", string (str "message_delta"))
          ∷ (str "delta", object end)
          ∷ (str "usage", v)
          ∷ []))
      ≡ ok (some (usage (from_anthropic v)))
unfolding fields_of get insert json_object lookup str_eq str_lt check_index check_index_of non_empty
    or_text or_zero str_field try_u32 u32_field block_index decode decode_start decode_delta
    nonempty_text type_of block_start block_delta typed_delta tool_use_block encode_anthropic
    decode_message_delta get2 stop_details_explanation
usage_of-trip (object m) h = refl
usage_of-trip v h = ground arith

pub usage-trip :
    (u : Usage)
    → decode (str "message_delta") (encode_anthropic u)
      ≡ ok (some (usage (from_anthropic (anthropic_usage u))))
unfolding encode_anthropic
usage-trip u = usage_of-trip (anthropic_usage u) (is_object-anthropic_usage u)

pub service_tier-trip :
    (mapped : Str)
    → decode (str "message_start") (service_tier_frame (some mapped)).1 ≡ ok (some (usage no_usage))
unfolding fields_of get insert json_object lookup str_eq str_lt check_index check_index_of non_empty
    or_text or_zero str_field try_u32 u32_field block_index decode decode_start decode_delta
    nonempty_text type_of block_start block_delta typed_delta tool_use_block service_tier_frame
    decode_message_start get2 from_anthropic thinking_tokens
service_tier-trip mapped = refl

pub message_delta-trip :
    (v : Value)
    → (decode (str "message_delta") (diagnostics_frame v).1
        ≡ ok (some (protocol (str "message_delta") (diagnostics_frame v).1)))
      × (decode (str "message_delta") (member_frame (str "container") v).1
          ≡ ok (some (protocol (str "message_delta") (member_frame (str "container") v).1)))
      × (decode (str "message_delta") (member_frame (str "context_management") v).1
          ≡ ok
              (some (protocol (str "message_delta") (member_frame (str "context_management") v).1)))
      × (decode (str "message_delta") bare_frame.1
          ≡ ok (some (protocol (str "message_delta") bare_frame.1)))
unfolding fields_of get insert json_object lookup str_eq str_lt check_index check_index_of non_empty
    or_text or_zero str_field try_u32 u32_field block_index decode decode_start decode_delta
    nonempty_text type_of block_start block_delta typed_delta tool_use_block message_delta
    decode_message_delta get2 stop_details_explanation
message_delta-trip v = (refl, refl, refl, refl)

pub citation-trip :
    (url title : Option Str)
    → non_empty url ≡ url
    → non_empty title ≡ title
    → decode (str "content_block_delta") (block_delta 0 (citation_delta (cited url title))).1
      ≡ ok (some (citation_event (block_delta 0 (citation_delta (cited url title))) url title))
unfolding fields_of get insert json_object lookup str_eq str_lt check_index check_index_of non_empty
    or_text or_zero str_field try_u32 u32_field block_index decode decode_start decode_delta
    nonempty_text type_of block_start block_delta typed_delta tool_use_block cited url_citation
    citation_event citation_delta set_some set_key annotation_from_messages_citation
citation-trip none none h k = refl
citation-trip none (some []) h k = ground arith
citation-trip none (some (y ∷ t)) h k = refl
citation-trip (some []) title h k = ground arith
citation-trip (some (x ∷ u)) none h k = refl
citation-trip (some (x ∷ u)) (some []) h k = ground arith
citation-trip (some (x ∷ u)) (some (y ∷ t)) h k = refl
