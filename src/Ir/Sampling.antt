-- ===== src/Ir/Sampling.antt =====
-- crates/wiremux/src/ir/mod.rs: the sampling part of a request. A map with string keys is the list
-- of its entries.
use wiremux.Prelude.{ℕ, Bool, true, false, List, [], Option, none, some}
use wiremux.Prelude.Text.{Str}
use wiremux.Json.{Value}

-- A number of type `f32` or `f64`, by its bits. Nothing here computes with one.
abbrev pub F32 : Type 0
F32 = ℕ

abbrev pub F64 : Type 0
F64 = ℕ

-- `negsuc n` is -(n + 1).
pub data ℤ : Type 0 where
  pos negsuc : ℕ → ℤ

pub data IrToolChoice : Type 0 where
  auto never required : IrToolChoice
  named : Str → IrToolChoice

pub record IrCache : Type 0 where
  pub enabled : Bool
  pub retention : Option Str
  pub min_cacheable_tokens : Option ℕ

-- `IrCache::default()`.
abbrev pub no_cache : IrCache
no_cache = record { enabled = false; retention = none; min_cacheable_tokens = none }

abbrev pub enabled_cache : IrCache
enabled_cache = record no_cache { enabled = true }

pub with_retention : IrCache → Str → IrCache
with_retention c retention = record c { retention = some retention }

pub with_min_cacheable_tokens : IrCache → ℕ → IrCache
with_min_cacheable_tokens c tokens = record c { min_cacheable_tokens = some tokens }

pub record IrSampling : Type 0 where
  pub temperature : Option F32
  pub top_p : Option F32
  pub top_k : Option ℕ
  pub max_tokens : Option ℕ
  pub stop : List Str
  pub tool_choice : IrToolChoice
  pub parallel_tool_calls : Option Bool
  pub store : Option Bool
  pub previous_response_id : Option Str
  pub cache : IrCache
  pub stream : Option Bool
  pub include_thoughts : Option Bool
  pub thinking_budget : Option ℕ
  pub reasoning_effort : Option Str
  pub max_reasoning_tokens : Option ℕ
  pub json_schema : Option Value
  pub json_schema_name : Option Str
  pub json_schema_description : Option Str
  pub json_schema_strict : Option Bool
  pub json_object : Option Bool
  pub include : List Str
  pub prompt_cache_key : Option Str
  pub prompt_cache_retention : Option Str
  pub prompt_cache_mode : Option Str
  pub prompt_cache_ttl : Option Str
  pub top_logprobs : Option ℕ
  pub moderation_model : Option Str
  pub moderation_input : Option Str
  pub moderation_output : Option Str
  pub include_obfuscation : Option Bool
  pub user : Option Str
  pub verbosity : Option Str
  pub safety_identifier : Option Str
  pub metadata : List (Str × Str)
  pub frequency_penalty : Option F32
  pub presence_penalty : Option F32
  pub seed : Option ℤ
  pub n : Option ℕ
  pub service_tier : Option Str
  pub output_modalities : List Str
  pub audio_voice : Option Str
  pub audio_format : Option Str
  pub logprobs : Option Bool
  pub logit_bias : List (Str × F64)
  pub prediction : Option Value
  pub web_search_options : Option Value
  pub inference_geo : Option Str
  pub performance_latency : Option Str
  pub previous_message_id : Option Str
  pub response_field_paths : List Str
  pub additional_request_fields : Option Value
  pub prompt_variables : Option Value
  pub guardrail : Option Value
  pub container : Option Value
  pub context_management : Option Value
  pub mcp_servers : Option Value
  pub media_resolution : Option Str
  pub image_config : Option Value
  pub audio_transcription_config : Option Value
  pub translation_config : Option Value
  pub affective_dialog : Option Bool
  pub enhanced_civic_answers : Option Bool
  pub multi_speaker_speech : Option Value
  pub cached_content : Option Str
  pub safety_settings : Option Value
  pub request_labels : Option Value
  pub truncation : Option Str
  pub max_tool_calls : Option ℕ
  pub background : Option Bool
  pub conversation : Option Value
  pub responses_context_management : Option Value
  pub messages_thinking : Option Value

-- `IrSampling::default()`.
abbrev pub default_sampling : IrSampling
default_sampling = record {
  temperature = none;
  top_p = none;
  top_k = none;
  max_tokens = none;
  stop = [];
  tool_choice = auto;
  parallel_tool_calls = none;
  store = none;
  previous_response_id = none;
  cache = no_cache;
  stream = none;
  include_thoughts = none;
  thinking_budget = none;
  reasoning_effort = none;
  max_reasoning_tokens = none;
  json_schema = none;
  json_schema_name = none;
  json_schema_description = none;
  json_schema_strict = none;
  json_object = none;
  include = [];
  prompt_cache_key = none;
  prompt_cache_retention = none;
  prompt_cache_mode = none;
  prompt_cache_ttl = none;
  top_logprobs = none;
  moderation_model = none;
  moderation_input = none;
  moderation_output = none;
  include_obfuscation = none;
  user = none;
  verbosity = none;
  safety_identifier = none;
  metadata = [];
  frequency_penalty = none;
  presence_penalty = none;
  seed = none;
  n = none;
  service_tier = none;
  output_modalities = [];
  audio_voice = none;
  audio_format = none;
  logprobs = none;
  logit_bias = [];
  prediction = none;
  web_search_options = none;
  inference_geo = none;
  performance_latency = none;
  previous_message_id = none;
  response_field_paths = [];
  additional_request_fields = none;
  prompt_variables = none;
  guardrail = none;
  container = none;
  context_management = none;
  mcp_servers = none;
  media_resolution = none;
  image_config = none;
  audio_transcription_config = none;
  translation_config = none;
  affective_dialog = none;
  enhanced_civic_answers = none;
  multi_speaker_speech = none;
  cached_content = none;
  safety_settings = none;
  request_labels = none;
  truncation = none;
  max_tool_calls = none;
  background = none;
  conversation = none;
  responses_context_management = none;
  messages_thinking = none;
}
