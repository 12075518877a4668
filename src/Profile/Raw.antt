-- ===== src/Profile/Raw.antt =====
-- crates/wiremux-auth/src/profile/parse.rs: one layer of a profile as it is read, before its
-- defaults. `serde` fills it from the document; every field may be absent.
use wiremux.Prelude.{ℕ, Bool, List, Option, none}
use wiremux.Prelude.Text.{Str}
use wiremux.Prelude.Maps.{StrMap}
use wiremux.Json.{Value}
use wiremux.Profile.Types.{
  Wire, ListMerge, ToolTypePolicy, StreamUnknownPolicy, AuthScheme, TokenRequestFormat, CredsFormat,
  ExpiresUnit, Login, ToolNameCase, ForbiddenFieldPolicy,
}

pub data RawAccessEnv : Type 0 where
  one : Str → RawAccessEnv
  many : List Str → RawAccessEnv

pub record RawBetasTable : Type 0 where
  pub values : Option (List Str)
  pub header_name : Option Str
  pub merge : Option ListMerge

pub data RawBetasField : Type 0 where
  list : List Str → RawBetasField
  table : RawBetasTable → RawBetasField

pub record RawTokenResponse : Type 0 where
  pub access_token_ptr : Option Str
  pub refresh_token_ptr : Option Str
  pub expires_ptr : Option Str
  pub expires_unit : Option ExpiresUnit

pub record RawOauth : Type 0 where
  pub token_url : Option Str
  pub token_url_fallback : Option Str
  pub authorize_url : Option Str
  pub authorize_params : Option (StrMap Str)
  pub device_auth_url : Option Str
  pub client_id : Option Str
  pub redirect_uri : Option Str
  pub scopes : Option (List Str)
  pub list_merge : Option ListMerge
  pub pkce : Option Bool
  pub refresh_grant : Option Str
  pub refresh_body : Option (StrMap Str)
  pub token_request_format : Option TokenRequestFormat
  pub token_headers : Option (StrMap Str)
  pub creds_path : Option Str
  pub creds_format : Option CredsFormat
  pub access_token_ptr : Option Str
  pub refresh_token_ptr : Option Str
  pub expires_ptr : Option Str
  pub expires_unit : Option ExpiresUnit
  pub access_env : Option Str
  pub login : Option Login
  pub setup_token_hint : Option Str
  pub keychain_service : Option Str
  pub keychain_accounts : Option (List Str)
  pub token_response : Option RawTokenResponse

pub record RawFingerprint : Type 0 where
  pub user_agent : Option Str
  pub x_app : Option Str
  pub system_prompt_prefix : Option Str
  pub tool_name_case : Option ToolNameCase
  pub forbidden_body_fields : Option (List Str)
  pub forbidden_field_policy : Option ForbiddenFieldPolicy
  pub extra_body : Option (StrMap Value)

pub record RawProfile : Type 0 where
  pub schema_version : Option ℕ
  pub id : Option Str
  pub display_name : Option Str
  pub wire : Option Wire
  pub stream_events : Option (List Str)
  pub list_merge : Option ListMerge
  pub tool_type_policy : Option ToolTypePolicy
  pub stream_unknown_policy : Option StreamUnknownPolicy
  pub base_url : Option Str
  pub chat_path : Option Str
  pub messages_path : Option Str
  pub responses_path : Option Str
  pub gemini_path : Option Str
  pub converse_path : Option Str
  pub auth_scheme : Option AuthScheme
  pub headers : Option (StrMap Str)
  pub header_merge : Option ListMerge
  pub aws_service : Option Str
  pub aws_region : Option Str
  pub gcp_key_env : Option Str
  pub read_timeout_secs : Option ℕ
  pub access_env : Option RawAccessEnv
  pub oauth : Option RawOauth
  pub fingerprint : Option RawFingerprint
  pub betas : Option RawBetasField
  pub beta_header : Option Str
  pub beta_merge : Option ListMerge

-- The layer of an empty document: it says nothing.
abbrev pub empty_layer : RawProfile
empty_layer = record {
  schema_version = none;
  id = none;
  display_name = none;
  wire = none;
  stream_events = none;
  list_merge = none;
  tool_type_policy = none;
  stream_unknown_policy = none;
  base_url = none;
  chat_path = none;
  messages_path = none;
  responses_path = none;
  gemini_path = none;
  converse_path = none;
  auth_scheme = none;
  headers = none;
  header_merge = none;
  aws_service = none;
  aws_region = none;
  gcp_key_env = none;
  read_timeout_secs = none;
  access_env = none;
  oauth = none;
  fingerprint = none;
  betas = none;
  beta_header = none;
  beta_merge = none;
}
