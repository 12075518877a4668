-- ===== src/Profile/Resolve.antt =====
-- crates/wiremux-auth/src/profile/parse.rs: from a merged layer to a resolved profile.
pub mod Checks
use wiremux.Prelude.{
  ℕ, Bool, true, false, not, List, [], ◌∷◌, Option, none, some, ltb, if◌then◌else◌, is_empty,
  is_some,
}
use wiremux.Prelude.Results.{Result, ok, err}
use wiremux.Prelude.Text.{Str, str}
use wiremux.Profile.Types.{
  Wire, chat_completions, messages, responses, gemini, converse, ListMerge, CredsFormat,
  claude_credentials, ExpiresUnit, ms, s, Dialect, Http, OauthPack, TokenResponse, Fingerprint,
  Betas, ResolvedProfile, schema_version_max, default_chat_path, default_stream_events,
  default_auth_scheme, default_betas, or_union, or_tool_hard_error, or_stream_hard_error,
  or_hard_error, or_empty,
}
use wiremux.Profile.Error.{ProfileError, schema_version_error, missing_field}
use wiremux.Profile.Raw.{
  RawAccessEnv, one, many, RawBetasField, RawBetasTable, list, table, RawOauth, RawTokenResponse,
  RawFingerprint, RawProfile,
}
use wiremux.Profile.Overlay.{or}

-- The path of the layer's own wire.
pub wire_path : RawProfile → Wire → Option Str
wire_path raw messages = raw.messages_path
wire_path raw responses = raw.responses_path
wire_path raw gemini = raw.gemini_path
wire_path raw converse = raw.converse_path
wire_path raw chat_completions = none

pub effective_chat_path : RawProfile → Option Str
effective_chat_path raw = elim raw.chat_path [
  | some path ↦ some path
  | none ↦ elim raw.wire [ some w ↦ wire_path raw w | none ↦ none ]
]

drop_empty : List Str → List Str
drop_empty [] = []
drop_empty (x ∷ xs) = if is_empty x then drop_empty xs else x ∷ drop_empty xs

pub resolve_access_env : Option RawAccessEnv → List Str
unfolding drop_empty
resolve_access_env none = []
resolve_access_env (some (one name)) = if is_empty name then [] else name ∷ []
resolve_access_env (some (many names)) = drop_empty names

-- `filter(|s| !s.is_empty())`.
non_empty : Option Str → Option Str
non_empty none = none
non_empty (some x) = if is_empty x then none else some x

positive : Option ℕ → Option ℕ
positive none = none
positive (some n) = if ltb 0 n then some n else none

-- The pointers of the store, by its format.
is_claude : Option CredsFormat → Bool
is_claude (some claude_credentials) = true
is_claude _ = false

pointer : Bool → Option Str → Str → Option Str
pointer claude given default = if claude then or given (some default) else given

pub resolve_token_response : RawTokenResponse → TokenResponse
resolve_token_response t = record {
  access_token_ptr = t.access_token_ptr;
  refresh_token_ptr = t.refresh_token_ptr;
  expires_ptr = t.expires_ptr;
  expires_unit = t.expires_unit;
}

option_map {ℓ κ} : {A : Type ℓ} {B : Type κ} → (A → B) → Option A → Option B
option_map f none = none
option_map f (some a) = some (f a)

resolve_pkce : Option Bool → Bool → Option Bool
resolve_pkce (some v) has_authorize_url = some v
resolve_pkce none true = some true
resolve_pkce none false = none

-- The pack behind its check, at the token URL that passed it.
oauth_pack : RawOauth → Str → OauthPack
oauth_pack raw token_url =
    let claude = is_claude raw.creds_format in
    record {
      token_url = token_url;
      token_url_fallback = raw.token_url_fallback;
      authorize_url = raw.authorize_url;
      authorize_params = or_empty raw.authorize_params;
      device_auth_url = raw.device_auth_url;
      client_id = raw.client_id;
      redirect_uri = raw.redirect_uri;
      scopes = or_empty raw.scopes;
      list_merge = or_union raw.list_merge;
      pkce = resolve_pkce raw.pkce (is_some raw.authorize_url);
      refresh_grant = or raw.refresh_grant (some (str "refresh_token"));
      refresh_body = or_empty raw.refresh_body;
      token_request_format = raw.token_request_format;
      token_headers = or_empty raw.token_headers;
      creds_path = raw.creds_path;
      creds_format = raw.creds_format;
      access_token_ptr = pointer claude raw.access_token_ptr (str "/claudeAiOauth/accessToken");
      refresh_token_ptr = pointer claude raw.refresh_token_ptr (str "/claudeAiOauth/refreshToken");
      expires_ptr = pointer claude raw.expires_ptr (str "/claudeAiOauth/expiresAt");
      expires_unit = or raw.expires_unit (some (if claude then ms else s));
      access_env = raw.access_env;
      login = raw.login;
      setup_token_hint = raw.setup_token_hint;
      keychain_service = raw.keychain_service;
      keychain_accounts = or_empty raw.keychain_accounts;
      token_response = option_map resolve_token_response raw.token_response;
    }

pub resolve_oauth : RawOauth → Result ProfileError OauthPack
resolve_oauth raw = elim raw.token_url [
  | some url ↦
      (if is_empty url
        then err (missing_field (str "oauth.token_url"))
        else ok (oauth_pack raw url))
  | none ↦ err (missing_field (str "oauth.token_url"))
]

pub resolve_fingerprint : RawFingerprint → Fingerprint
resolve_fingerprint raw = record {
  user_agent = raw.user_agent;
  x_app = raw.x_app;
  system_prompt_prefix = raw.system_prompt_prefix;
  tool_name_case = raw.tool_name_case;
  forbidden_body_fields = or_empty raw.forbidden_body_fields;
  forbidden_field_policy = or_hard_error raw.forbidden_field_policy;
  extra_body = or_empty raw.extra_body;
}

unwrap_or {ℓ} : {A : Type ℓ} → Option A → A → A
unwrap_or (some a) b = a
unwrap_or none b = b

-- The table's own header and merge come before the ones of the root.
table_betas : RawBetasTable → Option Str → Option ListMerge → Betas → Betas
table_betas t root_header root_merge b = record {
  values = unwrap_or t.values b.values;
  header_name = unwrap_or (or t.header_name root_header) b.header_name;
  merge = unwrap_or (or t.merge root_merge) b.merge;
}

pub resolve_betas : Option RawBetasField → Option Str → Option ListMerge → Betas → Betas
resolve_betas none root_header root_merge b = record b {
  header_name = unwrap_or root_header b.header_name;
  merge = unwrap_or root_merge b.merge;
}
resolve_betas (some (list values)) root_header root_merge b = record {
  values = values;
  header_name = unwrap_or root_header b.header_name;
  merge = unwrap_or root_merge b.merge;
}
resolve_betas (some (table t)) root_header root_merge b = table_betas t root_header root_merge b

resolve_stream_events : Option (List Str) → Option Wire → List Str
resolve_stream_events (some events) wire = events
resolve_stream_events none (some w) = default_stream_events w
resolve_stream_events none none = []

-- The profile behind the checks.
pub resolved : RawProfile → ℕ → Str → Option OauthPack → ResolvedProfile
resolved raw schema_version id oauth = record {
  schema_version = schema_version;
  id = id;
  display_name = raw.display_name;
  dialect = record {
    wire = raw.wire;
    stream_events = resolve_stream_events raw.stream_events raw.wire;
    list_merge = or_union raw.list_merge;
    tool_type_policy = or_tool_hard_error raw.tool_type_policy;
    stream_unknown_policy = or_stream_hard_error raw.stream_unknown_policy;
  };
  http = record {
    base_url = raw.base_url;
    chat_path = or (effective_chat_path raw) (option_map default_chat_path raw.wire);
    auth_scheme = or raw.auth_scheme (option_map default_auth_scheme raw.wire);
    headers = or_empty raw.headers;
    header_merge = or_union raw.header_merge;
    aws_service = non_empty raw.aws_service;
    aws_region = non_empty raw.aws_region;
    gcp_key_env = non_empty raw.gcp_key_env;
    read_timeout_secs = positive raw.read_timeout_secs;
  };
  oauth = oauth;
  access_env = resolve_access_env raw.access_env;
  fingerprint = option_map resolve_fingerprint raw.fingerprint;
  betas =
      resolve_betas raw.betas raw.beta_header raw.beta_merge
        (default_betas raw.wire (is_some oauth));
}

resolve_version : Option ℕ → Result ProfileError ℕ
resolve_version none = err (missing_field (str "schema_version"))
resolve_version (some v) = if ltb schema_version_max v then err (schema_version_error v) else ok v

resolve_id : Option Str → Result ProfileError Str
resolve_id none = err (missing_field (str "id"))
resolve_id (some id) = if is_empty id then err (missing_field (str "id")) else ok id

resolve_oauth? : Option RawOauth → Result ProfileError (Option OauthPack)
resolve_oauth? none = ok none
resolve_oauth? (some o) = elim (resolve_oauth o) [ ok p ↦ ok (some p) | err e ↦ err e ]

infixl 5 ◌>>=◌
abbrev pub ◌>>=◌ {ℓ κ} :
    {A : Type ℓ} {B : Type κ}
    → Result ProfileError A
    → (A → Result ProfileError B)
    → Result ProfileError B
ok a >>= f = f a
err e >>= f = err e

pub resolve : RawProfile → Result ProfileError ResolvedProfile
resolve raw = do
  version ← resolve_version raw.schema_version
  id ← resolve_id raw.id
  oauth ← resolve_oauth? raw.oauth
  ok (resolved raw version id oauth)
