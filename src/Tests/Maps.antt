-- ===== src/Tests/Maps.antt =====
-- A body, a request and a profile with policies, a document of credentials, and the theorems at them.
use wiremux.Prelude.{true, List, [], ◌∷◌, none, some, ◌≡◌, refl, length, ◌+◌, is_none}
use wiremux.Prelude.Results.{Result, ok, err}
use wiremux.Prelude.Text.{Str, str, str_eq, str_lt, join}
use wiremux.Json.{
  Value, string, object, Fields, end, field, Serde, get, lookup, insert, remove, contains_key,
}
use wiremux.Ir.{
  IrRequest, system, user, IrPart, part_text, image_base64, prompt_cache_breakpoint, new_request,
}
use wiremux.Ir.Loss.{LossReport, no_loss, note, drop}
use wiremux.Profile.Types.{
  Wire, messages, union, tool_hard_error, stream_hard_error, ResolvedProfile, strip, hard_error,
}
use wiremux.Profile.Overlay.{contains}
use wiremux.Map.Error.{MapError, hard}
use wiremux.Map.Policy.{
  prompt_prefix, apply_system_prefix, forbid, forbidden_detail, strip_detail, encode,
  merge_extra_body, insert_all, apply_forbidden_fields, strip_or_refuse_store,
}
use wiremux.Map.Policy.Laws.{IsStripped, first_held, forbid-strip, forbid-hard, forbidden_keys}
use wiremux.Map.Policy.Encode.{encode-IsAllowed}
use wiremux.Map.Policy.Prefix.{first_system, IsSentFor, other_items, apply_system_prefix_lem}
use wiremux.Map.PromptCache.{
  peel_prompt_cache, peel_prompt_cache_modes, peel_prompt_cache_all, system_role_text,
}
use wiremux.Map.PromptCache.Laws.{
  wrap, first, wrap-peel, payload_texts, other_payloads, system_role_text_lem,
}
use wiremux.Writeback.{
  pointer_set, pointer_get, set_at, split_at_byte, replace_pair, unescape_pointer_token, entered,
}
use wiremux.Writeback.Laws.{pointer_get-pointer_set, pointer_set-keeps, first_token, head_of}

abbrev body : Fields
body = field (str "a") (string (str "1")) (field (str "b") (string (str "2")) end)

abbrev keys : List Str
keys = str "b" ∷ str "c" ∷ []

forbid-strip_example :
    (out : Fields) × (s : LossReport) × (forbid keys strip body no_loss ≡ ok (out, s))
    × IsStripped keys body no_loss out s
forbid-strip_example = forbid-strip keys body no_loss

forbid-hard_example : forbid keys hard_error body no_loss ≡ elim (first_held keys body) [
  | none ↦ ok (body, no_loss)
  | some k ↦ err (hard k (forbidden_detail k))
]
forbid-hard_example = forbid-hard keys body no_loss

abbrev marked : IrPart
marked =
    prompt_cache_breakpoint (str "explicit")
      (prompt_cache_breakpoint (str "5m") (part_text (str "hello")))

wrap-peel_example :
    (wrap (peel_prompt_cache_modes marked).1 (peel_prompt_cache_modes marked).0 ≡ marked)
    × (is_none (peel_prompt_cache (peel_prompt_cache_modes marked).0).1 ≡ true)
    × (peel_prompt_cache_all marked
        ≡ ((peel_prompt_cache_modes marked).0, first (peel_prompt_cache_modes marked).1))
wrap-peel_example = wrap-peel marked

abbrev picture : List IrPart
picture = image_base64 (str "image/png") (str "AA==") ∷ []

system_role_text_lem_example :
    ((system_role_text (str "t") (marked ∷ picture) no_loss).0
      ≡ join [] (payload_texts (marked ∷ picture)))
    × (length (system_role_text (str "t") (marked ∷ picture) no_loss).1.events
        ≡ length no_loss.events + other_payloads (marked ∷ picture))
system_role_text_lem_example = system_role_text_lem (str "t") marked picture no_loss

abbrev credentials : Fields
credentials = field (str "other") (string (str "kept")) end

abbrev token_pointer : Str
token_pointer = str "/oauth/token"

pointer_get-pointer_set_example :
    pointer_get (pointer_set (object credentials) token_pointer (string (str "t1"))).0 token_pointer
    ≡ some (string (str "t1"))
unfolding pointer_set set_at split_at_byte replace_pair unescape_pointer_token entered lookup str_eq
pointer_get-pointer_set_example =
    pointer_get-pointer_set (object credentials) token_pointer (string (str "t1")) refl

pointer_set-keeps_example :
    (out : Fields) × ((pointer_set (object credentials) token_pointer (string (str "t1"))).0
      ≡ object out)
    × (lookup (str "other") out ≡ lookup (str "other") credentials)
unfolding first_token head_of split_at_byte replace_pair unescape_pointer_token str_eq
pointer_set-keeps_example =
    pointer_set-keeps credentials token_pointer (string (str "t1")) (str "other") refl

abbrev policy_profile : ResolvedProfile
policy_profile = record {
  schema_version = 1;
  id = str "p";
  display_name = none;
  dialect = record {
    wire = some messages;
    stream_events = [];
    list_merge = union;
    tool_type_policy = tool_hard_error;
    stream_unknown_policy = stream_hard_error;
  };
  http = record {
    base_url = none;
    chat_path = none;
    auth_scheme = none;
    headers = [];
    header_merge = union;
    aws_service = none;
    aws_region = none;
    gcp_key_env = none;
    read_timeout_secs = none;
  };
  oauth = none;
  access_env = [];
  fingerprint = some (record {
    user_agent = none;
    x_app = none;
    system_prompt_prefix = some (str "You are");
    tool_name_case = none;
    forbidden_body_fields = str "store" ∷ [];
    forbidden_field_policy = strip;
    extra_body = (str "store", string (str "x")) ∷ [];
  });
  betas = record { values = []; header_name = []; merge = union };
}

abbrev question : IrRequest
question =
    new_request (str "m") (user (part_text (str "hi") ∷ []) ∷ system (str "Be brief.") none [] ∷ [])

apply_system_prefix_lem_example :
    ((sent : Str) × (first_system (apply_system_prefix question policy_profile).items ≡ some sent)
      × IsSentFor (str "You are") (first_system question.items) sent)
    × (other_items (apply_system_prefix question policy_profile).items ≡ other_items question.items)
    × (apply_system_prefix (apply_system_prefix question policy_profile) policy_profile
        ≡ apply_system_prefix question policy_profile)
unfolding prompt_prefix
apply_system_prefix_lem_example =
    apply_system_prefix_lem question policy_profile (str "You are") refl

-- A printer that writes one text, and a wire whose encoder writes a store flag.
abbrev one_text : Serde
one_text = record { from_slice = λ b. none; to_string = λ v. str "{}" }

abbrev store_body :
    Wire → IrRequest → ResolvedProfile → LossReport → Result MapError (Value × LossReport)
store_body wire ir profile report = ok (object (field (str "store") (string (str "y")) end), report)

encode-IsAllowed_example :
    (out : Value) × (str "{}" ≡ one_text.to_string out)
    × ((k : Str) → contains (forbidden_keys policy_profile) k ≡ true → get k out ≡ none)
unfolding encode strip_or_refuse_store apply_system_prefix prompt_prefix new_request
    merge_extra_body insert_all insert apply_forbidden_fields forbid contains_key lookup remove
    str_eq str_lt note
encode-IsAllowed_example =
    encode-IsAllowed one_text store_body messages question policy_profile (str "{}")
      (note no_loss (str "store") drop strip_detail) refl
