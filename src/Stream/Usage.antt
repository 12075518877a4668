-- ===== src/Stream/Usage.antt =====
-- crates/wiremux/src/stream/usage.rs: the token counts of the Messages wire.
pub mod Trip
use wiremux.Prelude.{
  ℕ, Bool, true, false, not, ◌&&◌, List, [], ◌∷◌, ◌++◌, ◌-◌, Option, none, some, if◌then◌else◌, ltb,
  is_empty, is_none, saturating_add32,
}
use wiremux.Prelude.Text.{Str, str}
use wiremux.Prelude.Trim.{trim}
use wiremux.Json.{
  Value, object, string, Fields, end, get, as_str, is_object, json_object, json_u32, set_key,
  insert,
}
use wiremux.Ir.{Usage}
use wiremux.Stream.Fields.{u32_field, or_zero, bind_option, non_empty}

-- A key that is written under a test.
unfoldable pub set_if : Bool → Str → Value → Value → Value
set_if b k v value = if b then set_key k v value else value

unfoldable pub set_some : Option Value → Str → Value → Value
set_some none k value = value
set_some (some v) k value = set_key k v value

abbrev pub option_string : Option Str → Option Value
option_string none = none
option_string (some s) = some (string s)

abbrev pub option_u32 : Option ℕ → Option Value
option_u32 none = none
option_u32 (some n) = some (json_u32 n)

-- The `usage` member of the frame that `encode_anthropic` makes.
unfoldable pub anthropic_usage : Usage → Value
anthropic_usage u =
    let base = json_object (
      (str "input_tokens", json_u32 u.prompt_tokens)
      ∷ (str "output_tokens", json_u32 (saturating_add32 u.completion_tokens u.reasoning_tokens))
      ∷ []) in
    let read =
      set_if (ltb 0 u.cache_read_tokens) (str "cache_read_input_tokens")
        (json_u32 u.cache_read_tokens) base in
    let write =
      set_if (ltb 0 u.cache_write_tokens) (str "cache_creation_input_tokens")
        (json_u32 u.cache_write_tokens) read in
    let details = json_object ((str "thinking_tokens", json_u32 u.reasoning_tokens) ∷ []) in
    set_some (option_string u.inference_geo) (str "inference_geo")
      (set_if (ltb 0 u.reasoning_tokens) (str "output_tokens_details") details write)

unfoldable pub encode_anthropic : Usage → Value
encode_anthropic u = json_object (
    (str "type", string (str "message_delta"))
    ∷ (str "delta", object end)
    ∷ (str "usage", anthropic_usage u)
    ∷ [])

-- `nested_u32(usage, "output_tokens_details", "thinking_tokens")`.
unfoldable pub thinking_tokens : Value → ℕ
thinking_tokens usage = or_zero (
    bind_option (get (str "output_tokens_details") usage)
      (λ d. u32_field d (str "thinking_tokens")))

unfoldable pub trimmed : Option Str → Option Str
trimmed none = none
trimmed (some s) = some (trim s)

-- `-` on ℕ is the source's `saturating_sub`.
unfoldable pub from_anthropic : Value → Usage
unfolding trimmed
from_anthropic usage =
    let reasoning = thinking_tokens usage in
    record {
      prompt_tokens = or_zero (u32_field usage (str "input_tokens"));
      completion_tokens = or_zero (u32_field usage (str "output_tokens")) - reasoning;
      cache_read_tokens = or_zero (u32_field usage (str "cache_read_input_tokens"));
      cache_write_tokens = or_zero (u32_field usage (str "cache_creation_input_tokens"));
      reasoning_tokens = reasoning;
      audio_tokens = 0;
      completion_audio_tokens = 0;
      inference_geo = non_empty (trimmed (bind_option (get (str "inference_geo") usage) as_str));
    }

unfoldable pub insert_messages_server_tool_counts : Value → Option ℕ → Option ℕ → Value
insert_messages_server_tool_counts usage search fetch =
    if is_none search && is_none fetch
    then usage
    else set_key (str "server_tool_use")
        (set_some (option_u32 fetch) (str "web_fetch_requests")
          (set_some (option_u32 search) (str "web_search_requests") (object end)))
        usage

unfoldable pub insert_messages_cache_creation : Value → Option Value → Value
insert_messages_cache_creation usage none = usage
insert_messages_cache_creation usage (some creation) =
    set_if (is_object creation) (str "cache_creation") creation usage
