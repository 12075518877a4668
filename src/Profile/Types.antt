-- ===== src/Profile/Types.antt =====
-- crates/wiremux-auth/src/profile/types.rs: the data of a resolved profile.
use wiremux.Prelude.{ℕ, Bool, true, List, [], ◌∷◌, Option, none, some}
use wiremux.Prelude.Text.{Str, str}
use wiremux.Prelude.Maps.{StrMap}
use wiremux.Json.{Value}

abbrev pub schema_version_max : ℕ
schema_version_max = 1

pub data Wire : Type 0 where
  chat_completions messages responses gemini converse : Wire

-- `Wire::as_str`, the spelling of profile files.
unfoldable pub wire_str : Wire → Str
wire_str chat_completions = str "chat-completions"
wire_str messages = str "messages"
wire_str responses = str "responses"
wire_str gemini = str "gemini"
wire_str converse = str "converse"

pub data ListMerge : Type 0 where
  union replace : ListMerge

pub data ToolTypePolicy : Type 0 where
  tool_passthrough flatten_namespace tool_hard_error : ToolTypePolicy

pub data StreamUnknownPolicy : Type 0 where
  stream_hard_error stream_passthrough : StreamUnknownPolicy

pub data AuthScheme : Type 0 where
  bearer x_api_key : AuthScheme
  header : Str → AuthScheme
  no_auth : AuthScheme

pub data TokenRequestFormat : Type 0 where
  json form : TokenRequestFormat

pub data CredsFormat : Type 0 where
  json_pointer claude_credentials oidc_auth_json copilot_hosts : CredsFormat

pub data ExpiresUnit : Type 0 where
  ms s : ExpiresUnit

pub data Login : Type 0 where
  setup_token pkce_login device no_login : Login

pub data ToolNameCase : Type 0 where
  as_is snake kebab : ToolNameCase

pub data ForbiddenFieldPolicy : Type 0 where
  strip hard_error : ForbiddenFieldPolicy

-- `Option::unwrap_or_default` at the types with a `#[default]`.
abbrev pub or_union : Option ListMerge → ListMerge
or_union none = union
or_union (some m) = m

abbrev pub or_tool_hard_error : Option ToolTypePolicy → ToolTypePolicy
or_tool_hard_error none = tool_hard_error
or_tool_hard_error (some p) = p

abbrev pub or_stream_hard_error : Option StreamUnknownPolicy → StreamUnknownPolicy
or_stream_hard_error none = stream_hard_error
or_stream_hard_error (some p) = p

abbrev pub or_hard_error : Option ForbiddenFieldPolicy → ForbiddenFieldPolicy
or_hard_error none = hard_error
or_hard_error (some p) = p

-- `Option::unwrap_or_default` at a list or a map.
abbrev pub or_empty {ℓ} : {A : Type ℓ} → Option (List A) → List A
or_empty none = []
or_empty (some xs) = xs

unfoldable pub default_stream_events : Wire → List Str
default_stream_events chat_completions = str "chunk" ∷ str "[DONE]" ∷ []
default_stream_events messages =
    str "message_start"
    ∷ str "content_block_start"
    ∷ str "content_block_delta"
    ∷ str "content_block_stop"
    ∷ str "message_delta"
    ∷ str "message_stop"
    ∷ str "ping"
    ∷ str "error"
    ∷ []
default_stream_events responses =
    str "response.created"
    ∷ str "response.in_progress"
    ∷ str "response.output_item.added"
    ∷ str "response.content_part.added"
    ∷ str "response.content_part.done"
    ∷ str "response.output_text.delta"
    ∷ str "response.output_text.done"
    ∷ str "response.reasoning_summary_part.added"
    ∷ str "response.reasoning_summary_part.done"
    ∷ str "response.reasoning_summary_text.delta"
    ∷ str "response.reasoning_summary_text.done"
    ∷ str "response.reasoning.delta"
    ∷ str "response.reasoning_text.delta"
    ∷ str "response.reasoning_text.done"
    ∷ str "response.refusal.delta"
    ∷ str "response.refusal.done"
    ∷ str "response.output_text.annotation.added"
    ∷ str "response.audio.delta"
    ∷ str "response.audio.done"
    ∷ str "response.audio.transcript.delta"
    ∷ str "response.audio.transcript.done"
    ∷ str "response.function_call_arguments.delta"
    ∷ str "response.function_call_arguments.done"
    ∷ str "response.custom_tool_call_input.delta"
    ∷ str "response.custom_tool_call_input.done"
    ∷ str "response.output_item.done"
    ∷ str "response.completed"
    ∷ str "response.failed"
    ∷ str "response.incomplete"
    ∷ str "error"
    ∷ str "response.web_search_call.in_progress"
    ∷ str "response.web_search_call.searching"
    ∷ str "response.web_search_call.completed"
    ∷ str "response.file_search_call.in_progress"
    ∷ str "response.file_search_call.searching"
    ∷ str "response.file_search_call.completed"
    ∷ str "response.code_interpreter_call.in_progress"
    ∷ str "response.code_interpreter_call.interpreting"
    ∷ str "response.code_interpreter_call.completed"
    ∷ str "response.image_generation_call.in_progress"
    ∷ str "response.image_generation_call.generating"
    ∷ str "response.image_generation_call.completed"
    ∷ str "response.mcp_call.in_progress"
    ∷ str "response.mcp_call.completed"
    ∷ str "response.mcp_call.failed"
    ∷ str "response.mcp_list_tools.in_progress"
    ∷ str "response.mcp_list_tools.completed"
    ∷ str "response.mcp_list_tools.failed"
    ∷ []
default_stream_events gemini = str "chunk" ∷ []
default_stream_events converse =
    str "messageStart"
    ∷ str "contentBlockStart"
    ∷ str "contentBlockDelta"
    ∷ str "contentBlockStop"
    ∷ str "messageStop"
    ∷ str "metadata"
    ∷ []

unfoldable pub default_chat_path : Wire → Str
default_chat_path chat_completions = str "/v1/chat/completions"
default_chat_path messages = str "/v1/messages"
default_chat_path responses = str "/v1/responses"
default_chat_path gemini = str "/v1beta/models/{model}:generateContent"
default_chat_path converse = str "/model/{model}/converse"

unfoldable pub default_auth_scheme : Wire → AuthScheme
default_auth_scheme messages = x_api_key
default_auth_scheme gemini = header (str "x-goog-api-key")
default_auth_scheme chat_completions = bearer
default_auth_scheme responses = bearer
default_auth_scheme converse = bearer

pub record Dialect : Type 0 where
  pub wire : Option Wire
  pub stream_events : List Str
  pub list_merge : ListMerge
  pub tool_type_policy : ToolTypePolicy
  pub stream_unknown_policy : StreamUnknownPolicy

pub record Http : Type 0 where
  pub base_url : Option Str
  pub chat_path : Option Str
  pub auth_scheme : Option AuthScheme
  pub headers : StrMap Str
  pub header_merge : ListMerge
  pub aws_service : Option Str
  pub aws_region : Option Str
  pub gcp_key_env : Option Str
  pub read_timeout_secs : Option ℕ

pub record TokenResponse : Type 0 where
  pub access_token_ptr : Option Str
  pub refresh_token_ptr : Option Str
  pub expires_ptr : Option Str
  pub expires_unit : Option ExpiresUnit

pub record OauthPack : Type 0 where
  pub token_url : Str
  pub token_url_fallback : Option Str
  pub authorize_url : Option Str
  pub authorize_params : StrMap Str
  pub device_auth_url : Option Str
  pub client_id : Option Str
  pub redirect_uri : Option Str
  pub scopes : List Str
  pub list_merge : ListMerge
  pub pkce : Option Bool
  pub refresh_grant : Option Str
  pub refresh_body : StrMap Str
  pub token_request_format : Option TokenRequestFormat
  pub token_headers : StrMap Str
  pub creds_path : Option Str
  pub creds_format : Option CredsFormat
  pub access_token_ptr : Option Str
  pub refresh_token_ptr : Option Str
  pub expires_ptr : Option Str
  pub expires_unit : Option ExpiresUnit
  pub access_env : Option Str
  pub login : Option Login
  pub setup_token_hint : Option Str
  pub keychain_service : Option Str
  pub keychain_accounts : List Str
  pub token_response : Option TokenResponse

pub record Fingerprint : Type 0 where
  pub user_agent : Option Str
  pub x_app : Option Str
  pub system_prompt_prefix : Option Str
  pub tool_name_case : Option ToolNameCase
  pub forbidden_body_fields : List Str
  pub forbidden_field_policy : ForbiddenFieldPolicy
  pub extra_body : StrMap Value

pub record Betas : Type 0 where
  pub values : List Str
  pub header_name : Str
  pub merge : ListMerge

-- `Betas::default_for`.
default_merge : Option Wire → Bool → ListMerge
default_merge (some messages) true = replace
default_merge _ _ = union

unfoldable pub default_betas : Option Wire → Bool → Betas
unfolding default_merge
default_betas wire has_oauth = record {
  values = [];
  header_name = str "anthropic-beta";
  merge = default_merge wire has_oauth;
}

pub record ResolvedProfile : Type 0 where
  pub schema_version : ℕ
  pub id : Str
  pub display_name : Option Str
  pub dialect : Dialect
  pub http : Http
  pub oauth : Option OauthPack
  pub access_env : List Str
  pub fingerprint : Option Fingerprint
  pub betas : Betas
