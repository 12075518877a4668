-- ===== src/Tests/Streams.antt =====
-- The stream's frames and its encoder at fixed inputs, and the theorems at inputs that meet their hypotheses.
use wiremux.Prelude.{List, [], ◌∷◌, none, some, ◌≡◌, refl, arith}
use wiremux.Prelude.Results.{ok}
use wiremux.Prelude.Text.{str}
use wiremux.Prelude.NatMap.{member}
use wiremux.Json.{Serde}
use wiremux.Ir.{
  Usage, IrStreamEvent, text_delta, tool_call_start, tool_call_arg_delta, finish_reason, usage,
}
use wiremux.Stream.Fields.{Frame}
use wiremux.Stream.Usage.{anthropic_usage, from_anthropic}
use wiremux.Stream.Usage.Trip.{IsGeo, IsMessagesUsage, from_anthropic-anthropic_usage}
use wiremux.Stream.Messages.{encode}
use wiremux.Stream.Messages.Decode.{decode}
use wiremux.Stream.Messages.Trip.{HasFrame, read_back, decode-encode}
use wiremux.Stream.Encoder.{new, with_model}
use wiremux.Stream.Encoder.Messages.{custom_tool_as_function}
use wiremux.Stream.Encoder.Push.{session}
use wiremux.Stream.Encoder.Protocol.{before, over, run}
use wiremux.Stream.Encoder.Events.{is_own, is_answered, needs, announces}
use wiremux.Stream.Encoder.Refine.{follows, is_told, tell, session-over}

abbrev no_serde : Serde
no_serde = record { from_slice = λ bytes. none; to_string = λ value. str "{}" }

abbrev counted : Usage
counted = record {
  prompt_tokens = 12;
  completion_tokens = 5;
  cache_read_tokens = 3;
  cache_write_tokens = 0;
  reasoning_tokens = 2;
  audio_tokens = 0;
  completion_audio_tokens = 0;
  inference_geo = none;
}

counted-IsMessagesUsage : IsMessagesUsage counted
unfolding IsGeo
counted-IsMessagesUsage = record {
  prompt_fits = omega arith;
  output_fits = omega arith;
  read_fits = omega arith;
  write_fits = omega arith;
  no_audio = refl;
  no_completion_audio = refl;
  geo_trimmed = tt;
}

from_anthropic-anthropic_usage_example : from_anthropic (anthropic_usage counted) ≡ counted
from_anthropic-anthropic_usage_example =
    from_anthropic-anthropic_usage counted counted-IsMessagesUsage

abbrev hello : IrStreamEvent
hello = text_delta (str "hello")

decode-encode_example :
    (frame : Frame) × (encode no_serde hello ≡ ok frame)
    × (decode frame.0 frame.1 ≡ read_back no_serde frame hello)
unfolding HasFrame
decode-encode_example = decode-encode no_serde hello tt

-- Two calls whose arguments alternate, with a text between them.
abbrev two_calls : List IrStreamEvent
two_calls =
    hello
    ∷ tool_call_start (str "a") (str "f") none 0
    ∷ tool_call_arg_delta (str "{") 0
    ∷ tool_call_start (str "b") (str "g") none 1
    ∷ tool_call_arg_delta (str "[") 1
    ∷ hello
    ∷ tool_call_arg_delta (str "}") 0
    ∷ usage counted
    ∷ finish_reason (str "tool_calls") none
    ∷ []

session-over_example :
    (fs : List Frame) × (session no_serde (with_model new (str "m")) two_calls ≡ some fs)
    × (run before fs ≡ some over)
unfolding is_own follows member is_answered custom_tool_as_function is_told needs tell announces
session-over_example = session-over no_serde (str "m") two_calls refl refl (omega arith)
