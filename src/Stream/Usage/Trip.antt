-- ===== src/Stream/Usage/Trip.antt =====
-- crates/wiremux/src/stream/usage.rs: the counts that are read back from a Messages `usage` object.
use wiremux.Prelude.{
  ℕ, true, false, Option, none, some, ltb, leb, u32_max, is_empty, ◌≡◌, ◌≤◌, ◌+◌, arith,
}
use wiremux.Prelude.Text.{Str, str, str_eq, str_lt}
use wiremux.Prelude.Trim.{trim}
use wiremux.Json.{as_str, get, lookup, insert, fields_of, json_object, set_key}
use wiremux.Ir.{Usage}
use wiremux.Stream.Fields.{bind_option, non_empty, u32_field, try_u32, or_zero}
use wiremux.Stream.Usage.{
  set_if, set_some, anthropic_usage, thinking_tokens, from_anthropic, trimmed,
}

-- A count that is written only when it is not 0.
fits : (n : ℕ) → n ≤ u32_max → leb n u32_max ≡ true
fits n h = ground arith

zero_of : (n : ℕ) → ltb 0 n ≡ false → n ≡ 0
zero_of n h = ground arith

unfoldable pub IsGeo : Option Str → Type 0
IsGeo none = Unit {0}
IsGeo (some g) = (trim g ≡ g) × (is_empty g ≡ false)

-- Counts of the Messages wire: 32 bits wide, the sum that is sent too, and no audio.
pub record IsMessagesUsage (u : Usage) : Type 0 where
  pub prompt_fits : u.prompt_tokens ≤ u32_max
  pub output_fits : u.completion_tokens + u.reasoning_tokens ≤ u32_max
  pub read_fits : u.cache_read_tokens ≤ u32_max
  pub write_fits : u.cache_write_tokens ≤ u32_max
  pub no_audio : u.audio_tokens ≡ 0
  pub no_completion_audio : u.completion_audio_tokens ≡ 0
  pub geo_trimmed : IsGeo u.inference_geo

module _ (u : Usage) where
  input_tokens-trip :
      u.prompt_tokens ≤ u32_max
      → or_zero (u32_field (anthropic_usage u) (str "input_tokens")) ≡ u.prompt_tokens
  unfolding anthropic_usage set_if set_some u32_field get lookup insert fields_of json_object str_eq
      str_lt set_key or_zero try_u32
  input_tokens-trip h = ground (arith, fits u.prompt_tokens h)

  output_tokens-trip :
      u.completion_tokens + u.reasoning_tokens ≤ u32_max
      → or_zero (u32_field (anthropic_usage u) (str "output_tokens"))
        ≡ u.completion_tokens + u.reasoning_tokens
  unfolding anthropic_usage set_if set_some u32_field get lookup insert fields_of json_object str_eq
      str_lt set_key or_zero try_u32
  output_tokens-trip h = ground (arith, fits (u.completion_tokens + u.reasoning_tokens) h)

  cache_read-trip :
      u.cache_read_tokens ≤ u32_max
      → or_zero (u32_field (anthropic_usage u) (str "cache_read_input_tokens"))
        ≡ u.cache_read_tokens
  unfolding anthropic_usage set_if set_some u32_field get lookup insert fields_of json_object str_eq
      str_lt set_key or_zero try_u32
  cache_read-trip h = ground (arith, fits u.cache_read_tokens h)

  cache_write-trip :
      u.cache_write_tokens ≤ u32_max
      → or_zero (u32_field (anthropic_usage u) (str "cache_creation_input_tokens"))
        ≡ u.cache_write_tokens
  unfolding anthropic_usage set_if set_some u32_field get lookup insert fields_of json_object str_eq
      str_lt set_key or_zero try_u32
  cache_write-trip h = ground (arith, fits u.cache_write_tokens h)

  thinking_tokens-trip :
      u.reasoning_tokens ≤ u32_max → thinking_tokens (anthropic_usage u) ≡ u.reasoning_tokens
  unfolding anthropic_usage set_if set_some u32_field get lookup insert fields_of json_object str_eq
      str_lt set_key or_zero try_u32 thinking_tokens
  thinking_tokens-trip h = ground (arith, fits u.reasoning_tokens h)

  inference_geo-trip :
      IsGeo u.inference_geo
      → non_empty (trimmed (bind_option (get (str "inference_geo") (anthropic_usage u)) as_str))
        ≡ u.inference_geo
  unfolding anthropic_usage set_if set_some u32_field get lookup insert fields_of json_object str_eq
      str_lt set_key or_zero try_u32 non_empty trimmed IsGeo
  inference_geo-trip h = ground arith

  -- What the Messages encoder writes of a usage is read back as it was, if its prompt tokens, its cache
  -- read and cache write tokens, and the sum of its completion and reasoning tokens are at most u32::MAX
  -- each, its two audio counts are 0, and its region is absent, or trimmed and not empty.
  pub from_anthropic-anthropic_usage : IsMessagesUsage u → from_anthropic (anthropic_usage u) ≡ u
  unfolding from_anthropic
  from_anthropic-anthropic_usage h = ground (
    arith,
    input_tokens-trip h.prompt_fits,
    output_tokens-trip h.output_fits,
    cache_read-trip h.read_fits,
    cache_write-trip h.write_fits,
    thinking_tokens-trip (omega (arith, h.output_fits)),
    inference_geo-trip h.geo_trimmed,
  )
