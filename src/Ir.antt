-- ===== src/Ir.antt =====
-- crates/wiremux/src/ir/mod.rs: the representation between the wires.
pub mod Sampling
pub mod Loss
use wiremux.Prelude.{ℕ, Bool, List, [], Option, none}
use wiremux.Prelude.Text.{Str}
use wiremux.Json.{Value}
use Sampling.{ℤ, IrSampling, default_sampling}

pub data IrDocumentSource : Type 0 where
  base64 plain_text url : Str → IrDocumentSource
  s3 : Str → Option Str → IrDocumentSource
  file_id : Str → IrDocumentSource

-- The fields of a variant are the arguments of its constructor, in the source's order.
pub data IrPart : Type 0 where
  part_text : Str → IrPart
  -- url, detail, bucket_owner, file_id
  image_url : Str → Option Str → Option Str → Option Str → IrPart
  -- media_type, data
  image_base64 : Str → Str → IrPart
  -- text, signature
  thinking : Str → Option Str → IrPart
  -- type_name, raw
  raw : Str → Value → IrPart
  -- source, media_type, name, citations_enabled, context
  document : IrDocumentSource → Str → Option Str → Option Bool → Option Str → IrPart
  -- data, format
  audio : Str → Str → IrPart
  -- mode, inner
  prompt_cache_breakpoint : Str → IrPart → IrPart

pub data IrItem : Type 0 where
  -- text, prompt_cache_breakpoint, content_parts
  system : Str → Option Str → List IrPart → IrItem
  system_cache system_guard : Value → IrItem
  developer : Str → Option Str → List IrPart → IrItem
  user : List IrPart → IrItem
  -- parts, phase
  assistant : List IrPart → Option Str → IrItem
  -- call_id, name, arguments, thought_signature
  function_call : Str → Str → Str → Option Str → IrItem
  -- call_id, name, input, responses_item
  custom_tool_call : Str → Str → Str → Option Value → IrItem
  -- call_id, output, parts, is_error
  function_output : Str → Str → List IrPart → Bool → IrItem
  -- encrypted, summary, raw
  reasoning : Option Str → Option Str → Option Value → IrItem
  -- kind, raw
  hosted_tool_call : Str → Value → IrItem
  -- type_name, raw
  unknown : Str → Value → IrItem

pub data IrTool : Type 0 where
  -- name, description, parameters, strict
  function : Str → Str → Value → Option Bool → IrTool
  namespace : Str → Value → IrTool
  hosted : Str → Value → IrTool
  unknown_tool : Str → Value → IrTool
  cache_point : Value → IrTool

pub record IrRequest : Type 0 where
  pub model : Str
  pub items : List IrItem
  pub tools : List IrTool
  pub sampling : IrSampling

-- `IrRequest::new`, `with_tools` and `with_sampling`.
unfoldable pub new_request : Str → List IrItem → IrRequest
new_request model items = record {
  model = model;
  items = items;
  tools = [];
  sampling = default_sampling;
}

pub with_tools : IrRequest → List IrTool → IrRequest
with_tools r tools = record r { tools = tools }

pub with_sampling : IrRequest → IrSampling → IrRequest
with_sampling r sampling = record r { sampling = sampling }

-- The counts of the token buckets of `Usage`, in the source's order.
pub record Usage : Type 0 where
  pub prompt_tokens : ℕ
  pub completion_tokens : ℕ
  pub cache_read_tokens : ℕ
  pub cache_write_tokens : ℕ
  pub reasoning_tokens : ℕ
  pub audio_tokens : ℕ
  pub completion_audio_tokens : ℕ
  pub inference_geo : Option Str

pub data IrStreamEvent : Type 0 where
  text_delta refusal_delta reasoning_delta reasoning_signature : Str → IrStreamEvent
  -- id, name, thought_signature, index
  tool_call_start : Str → Str → Option Str → ℕ → IrStreamEvent
  tool_call_arg_delta : Str → ℕ → IrStreamEvent
  tool_call_end : IrStreamEvent
  annotation_added : Value → IrStreamEvent
  search_entry_point audio_delta : Str → IrStreamEvent
  -- media_type, data
  image_delta : Str → Str → IrStreamEvent
  audio_transcript_delta : Str → IrStreamEvent
  custom_tool_call_start : Str → Str → ℕ → IrStreamEvent
  custom_tool_call_input_delta : Str → ℕ → IrStreamEvent
  -- content, refusal
  logprobs : Value → Option Value → IrStreamEvent
  created : ℤ → IrStreamEvent
  service_tier : Str → IrStreamEvent
  metadata : List (Str × Str) → IrStreamEvent
  -- input, output
  moderation : Option Value → Option Value → IrStreamEvent
  diagnostics container context_management : Value → IrStreamEvent
  stop_sequence : Str → IrStreamEvent
  usage : Usage → IrStreamEvent
  -- reason, vendor
  finish_reason : Str → Option Str → IrStreamEvent
  -- item_type, payload
  protocol : Str → Value → IrStreamEvent
  -- event, raw
  unknown_event : Str → Value → IrStreamEvent
  done : IrStreamEvent
