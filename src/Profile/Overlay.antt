-- ===== src/Profile/Overlay.antt =====
-- crates/wiremux-auth/src/profile/overlay.rs: the field-wise merge of two layers of one id.
pub mod Laws
use wiremux.Prelude.{
  ℕ, Bool, true, false, not, ◌&&◌, List, [], ◌∷◌, ◌++◌, Option, none, some, max, if◌then◌else◌,
  is_none,
}
use wiremux.Prelude.Text.{Str, str_eq}
use wiremux.Prelude.Maps.{StrMap, extend}
use wiremux.Profile.Types.{ListMerge, union, replace, or_union}
use wiremux.Profile.Raw.{
  RawProfile, RawOauth, RawTokenResponse, RawFingerprint, RawBetasField, RawBetasTable, list, table,
}

-- `Option::or`: `or later earlier` is the later value, unless it is absent.
abbrev pub or {ℓ} : {A : Type ℓ} → Option A → Option A → Option A
or (some x) e = some x
or none e = e

max_version : Option ℕ → Option ℕ → Option ℕ
max_version none none = none
max_version (some x) none = some x
max_version none (some y) = some y
max_version (some x) (some y) = some (max x y)

-- `Vec::contains`.
unfoldable pub contains : List Str → Str → Bool
contains [] x = false
contains (y ∷ ys) x = if str_eq y x then true else contains ys x

-- The loop of the union: an item that is not there yet is pushed.
pub push_new : List Str → List Str → List Str
push_new a [] = a
push_new a (x ∷ b) = push_new (if contains a x then a else a ++ x ∷ []) b

pub merge_list : Option (List Str) → Option (List Str) → ListMerge → Option (List Str)
merge_list none none policy = none
merge_list (some a) none policy = some a
merge_list none (some b) policy = some b
merge_list (some a) (some b) union = some (push_new a b)
merge_list (some a) (some b) replace = some b

pub merge_map : Option (StrMap Str) → Option (StrMap Str) → ListMerge → Option (StrMap Str)
merge_map none none policy = none
merge_map (some a) none policy = some a
merge_map none (some b) policy = some b
merge_map (some a) (some b) union = some (extend a b)
merge_map (some a) (some b) replace = some b

both_token_responses : RawTokenResponse → RawTokenResponse → RawTokenResponse
both_token_responses a b = record {
  access_token_ptr = or b.access_token_ptr a.access_token_ptr;
  refresh_token_ptr = or b.refresh_token_ptr a.refresh_token_ptr;
  expires_ptr = or b.expires_ptr a.expires_ptr;
  expires_unit = or b.expires_unit a.expires_unit;
}

pub merge_token_response :
    Option RawTokenResponse → Option RawTokenResponse → Option RawTokenResponse
merge_token_response none none = none
merge_token_response (some a) none = some a
merge_token_response none (some b) = some b
merge_token_response (some a) (some b) = some (both_token_responses a b)

both_oauths : RawOauth → RawOauth → RawOauth
both_oauths a b = record {
  token_url = or b.token_url a.token_url;
  token_url_fallback = or b.token_url_fallback a.token_url_fallback;
  authorize_url = or b.authorize_url a.authorize_url;
  authorize_params = or b.authorize_params a.authorize_params;
  device_auth_url = or b.device_auth_url a.device_auth_url;
  client_id = or b.client_id a.client_id;
  redirect_uri = or b.redirect_uri a.redirect_uri;
  scopes = merge_list a.scopes b.scopes (or_union (or b.list_merge a.list_merge));
  list_merge = or b.list_merge a.list_merge;
  pkce = or b.pkce a.pkce;
  refresh_grant = or b.refresh_grant a.refresh_grant;
  refresh_body = or b.refresh_body a.refresh_body;
  token_request_format = or b.token_request_format a.token_request_format;
  token_headers = or b.token_headers a.token_headers;
  creds_path = or b.creds_path a.creds_path;
  creds_format = or b.creds_format a.creds_format;
  access_token_ptr = or b.access_token_ptr a.access_token_ptr;
  refresh_token_ptr = or b.refresh_token_ptr a.refresh_token_ptr;
  expires_ptr = or b.expires_ptr a.expires_ptr;
  expires_unit = or b.expires_unit a.expires_unit;
  access_env = or b.access_env a.access_env;
  login = or b.login a.login;
  setup_token_hint = or b.setup_token_hint a.setup_token_hint;
  keychain_service = or b.keychain_service a.keychain_service;
  keychain_accounts = or b.keychain_accounts a.keychain_accounts;
  token_response = merge_token_response a.token_response b.token_response;
}

pub merge_oauth : Option RawOauth → Option RawOauth → Option RawOauth
merge_oauth none none = none
merge_oauth (some a) none = some a
merge_oauth none (some b) = some b
merge_oauth (some a) (some b) = some (both_oauths a b)

both_fingerprints : RawFingerprint → RawFingerprint → RawFingerprint
both_fingerprints a b = record {
  user_agent = or b.user_agent a.user_agent;
  x_app = or b.x_app a.x_app;
  system_prompt_prefix = or b.system_prompt_prefix a.system_prompt_prefix;
  tool_name_case = or b.tool_name_case a.tool_name_case;
  forbidden_body_fields = or b.forbidden_body_fields a.forbidden_body_fields;
  forbidden_field_policy = or b.forbidden_field_policy a.forbidden_field_policy;
  extra_body = or b.extra_body a.extra_body;
}

pub merge_fingerprint : Option RawFingerprint → Option RawFingerprint → Option RawFingerprint
merge_fingerprint none none = none
merge_fingerprint (some a) none = some a
merge_fingerprint none (some b) = some b
merge_fingerprint (some a) (some b) = some (both_fingerprints a b)

unfoldable pub betas_parts :
    Option RawBetasField → Option (List Str) × Option Str × Option ListMerge
betas_parts none = (none, none, none)
betas_parts (some (list values)) = (some values, none, none)
betas_parts (some (table t)) = (t.values, t.header_name, t.merge)

unfoldable pub rebuild_betas :
    Option (List Str) → Option Str → Option ListMerge → Option RawBetasField
rebuild_betas values header merge =
    if is_none values && is_none header && is_none merge
    then none
    else some (table (record { values = values; header_name = header; merge = merge }))

pub merge : RawProfile → RawProfile → RawProfile
merge earlier later =
    let (e_values, e_header, e_merge) = betas_parts earlier.betas in
    let (l_values, l_header, l_merge) = betas_parts later.betas in
    let beta_merge' = or l_merge e_merge in
    let values = merge_list e_values l_values (or_union beta_merge') in
    let header = or l_header e_header in
    let root_list_merge = or later.list_merge earlier.list_merge in
    let header_merge' = or later.header_merge earlier.header_merge in
    record {
      schema_version = max_version earlier.schema_version later.schema_version;
      id = or later.id earlier.id;
      display_name = or later.display_name earlier.display_name;
      wire = or later.wire earlier.wire;
      stream_events =
          merge_list earlier.stream_events later.stream_events (or_union root_list_merge);
      list_merge = root_list_merge;
      tool_type_policy = or later.tool_type_policy earlier.tool_type_policy;
      stream_unknown_policy = or later.stream_unknown_policy earlier.stream_unknown_policy;
      base_url = or later.base_url earlier.base_url;
      chat_path = or later.chat_path earlier.chat_path;
      messages_path = or later.messages_path earlier.messages_path;
      responses_path = or later.responses_path earlier.responses_path;
      gemini_path = or later.gemini_path earlier.gemini_path;
      converse_path = or later.converse_path earlier.converse_path;
      auth_scheme = or later.auth_scheme earlier.auth_scheme;
      headers = merge_map earlier.headers later.headers (or_union header_merge');
      header_merge = header_merge';
      aws_service = or later.aws_service earlier.aws_service;
      aws_region = or later.aws_region earlier.aws_region;
      gcp_key_env = or later.gcp_key_env earlier.gcp_key_env;
      read_timeout_secs = or later.read_timeout_secs earlier.read_timeout_secs;
      access_env = or later.access_env earlier.access_env;
      oauth = merge_oauth earlier.oauth later.oauth;
      fingerprint = merge_fingerprint earlier.fingerprint later.fingerprint;
      betas = rebuild_betas values header beta_merge';
      beta_header = or later.beta_header earlier.beta_header;
      beta_merge = or later.beta_merge earlier.beta_merge;
    }
