-- ===== src/Map/PromptCache.antt =====
-- crates/wiremux/src/map/mod.rs: cache breakpoints around a part, and the text of a system role.
pub mod Laws
use wiremux.Prelude.{
  Bool, true, false, not, ◌&&◌, List, [], ◌∷◌, ◌++◌, Option, none, some, if◌then◌else◌, is_empty,
  is_some, any, length, ltb, ◌==◌,
}
use wiremux.Prelude.Text.{Bytes, Str, str, join}
use wiremux.Json.{
  Value, object, array, string, number, bool, null, Fields, end, field, insert, is_object, Serde,
}
use wiremux.Ir.{
  IrPart, part_text, image_url, image_base64, thinking, raw, document, audio,
  prompt_cache_breakpoint,
}
use wiremux.Ir.Loss.{LossReport, note, drop, degrade}

unfoldable pub json_kind : Value → Str
json_kind null = str "null"
json_kind (bool b) = str "bool"
json_kind (number n) = str "number"
json_kind (string s) = str "string"
json_kind (array vs) = str "array"
json_kind (object fs) = str "object"

pub wrapped_json : Str → Value → Value
wrapped_json wrap_key value = object (insert wrap_key value end)

unfoldable pub json_object_or_wrapped : Serde → Str → Str → Value × Bool
json_object_or_wrapped serde raw_text wrap_key = elim (serde.from_slice raw_text) [
  | some value ↦ (if is_object value then (value, false) else (wrapped_json wrap_key value, true))
  | none ↦ (wrapped_json wrap_key (string raw_text), true)
]

unfoldable pub json_object_or_raw : Serde → Str → Str → LossReport → Str → Str → Value × LossReport
json_object_or_raw serde raw_text path report detail wrap_key =
    let (value, degraded) = json_object_or_wrapped serde raw_text wrap_key in
    (value, if degraded then note report path degrade detail else report)

unfoldable pub response_custom_tool_input : Serde → Str → Value
response_custom_tool_input serde raw_text =
    if is_empty raw_text then object end else (json_object_or_wrapped serde raw_text (str "raw")).0

-- `Option::is_some_and` of a text that is not empty.
unfoldable pub is_given : Option Str → Bool
is_given none = false
is_given (some x) = not (is_empty x)

unfoldable pub note_dropped_image_detail : Option Str → Str → LossReport → LossReport
note_dropped_image_detail detail wire report =
    if is_given detail
    then note report (str "part.image.detail") drop
        (str "image detail has no " ++ (wire ++ str " slot"))
    else report

unfoldable pub peel_prompt_cache : IrPart → IrPart × Option Str
peel_prompt_cache (prompt_cache_breakpoint mode inner) = (inner, some mode)
peel_prompt_cache other = (other, none)

-- The loop that unwraps every breakpoint, with the modes on the way.
unfoldable pub peel_prompt_cache_modes : IrPart → IrPart × List Str
peel_prompt_cache_modes (prompt_cache_breakpoint mode inner) =
    let (payload, modes) = peel_prompt_cache_modes inner in (payload, mode ∷ modes)
peel_prompt_cache_modes other = (other, [])

unfoldable pub innermost : IrPart → IrPart
innermost (prompt_cache_breakpoint mode inner) = innermost inner
innermost other = other

unfoldable pub peel_prompt_cache_all : IrPart → IrPart × Option Str
peel_prompt_cache_all (prompt_cache_breakpoint mode inner) = (innermost inner, some mode)
peel_prompt_cache_all other = (other, none)

pub no_slot : Str
no_slot = str "prompt cache breakpoint has no slot"

-- The field, where the value has a place for it.
pub write_mode : Value → Str → Value
write_mode (object fs) mode =
    object
      (insert (str "prompt_cache_breakpoint") (object (insert (str "mode") (string mode) end)) fs)
write_mode value mode = value

unfoldable pub apply_prompt_cache : Value → Option Str → Bool → LossReport → Value × LossReport
apply_prompt_cache value none keep report = (value, report)
apply_prompt_cache value (some mode) keep report =
    if is_empty mode
    then (value, report)
    else if keep
    then (write_mode value mode, report)
    else (value, note report (str "part.prompt_cache_breakpoint") drop no_slot)

unfoldable pub role_text_breakpoint : List IrPart → Option Str
role_text_breakpoint (part ∷ []) = (peel_prompt_cache part).1
role_text_breakpoint parts = none

unfoldable pub role_content_parts : List IrPart → List IrPart
role_content_parts parts =
    if ltb 1 (length parts) && any (λ p. is_some (peel_prompt_cache p).1) parts then parts else []

unfoldable pub note_role_breakpoint : Option Str → LossReport → LossReport
note_role_breakpoint mode report =
    if is_given mode then note report (str "part.prompt_cache_breakpoint") drop no_slot else report

-- One part of a system role: the text that it adds, if it is one, or the loss.
unfoldable pub role_part : IrPart → List Str → LossReport → List Str × LossReport
role_part (part_text value) texts report = (texts ++ value ∷ [], report)
role_part (thinking text signature) texts report = (texts ++ text ∷ [], report)
role_part (prompt_cache_breakpoint mode inner) texts report = (texts, report)
role_part (image_url u d b f) texts report =
    (texts, note report (str "part.image") drop (str "system role has no image slot"))
role_part (image_base64 m d) texts report =
    (texts, note report (str "part.image") drop (str "system role has no image slot"))
role_part (document s m n c x) texts report =
    (texts, note report (str "part.document") drop (str "system role has no document slot"))
role_part (audio d f) texts report =
    (texts, note report (str "part.audio") drop (str "system role has no audio slot"))
role_part (raw t v) texts report =
    (texts, note report (str "part.raw") drop (str "system role has no slot"))

unfoldable pub role_parts : List IrPart → List Str → LossReport → List Str × LossReport
role_parts [] texts report = (texts, report)
role_parts (part ∷ parts) texts report =
    let (texts', report') = role_part (peel_prompt_cache_all part).0 texts report in
    role_parts parts texts' report'

unfoldable pub system_role_text : Str → List IrPart → LossReport → Str × LossReport
system_role_text text [] report = (text, report)
system_role_text text (part ∷ parts) report =
    let (texts, report') = role_parts (part ∷ parts) [] report in (join [] texts, report')

unfoldable pub image_file_id_without_url : Str → Option Str → Bool
image_file_id_without_url url file_id = is_empty url && is_given file_id

unfoldable pub drop_image_file_id_without_url : Str → Option Str → LossReport → Bool × LossReport
drop_image_file_id_without_url url file_id report =
    if image_file_id_without_url url file_id
    then (true, note report (str "part.image.file_id") drop (str "no slot"))
    else (false, report)
