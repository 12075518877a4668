-- ===== src/Stream/Encoder/Finish.antt =====
-- crates/wiremux/src/stream/encoder.rs: `finish` at the Messages wire.
use wiremux.Prelude.{
  Bool, true, not, ◌&&◌, List, [], ◌∷◌, ◌++◌, Option, none, some, if◌then◌else◌, is_empty,
}
use wiremux.Prelude.Results.{Result, ok, err}
use wiremux.Prelude.Text.{Str, str, str_eq}
use wiremux.Json.{Value, null, string, json_object, Serde}
use wiremux.Ir.{IrStreamEvent, Usage}
use wiremux.Map.Error.{MapError}
use wiremux.Stream.Fields.{Frame, or_text}
use wiremux.Stream.Usage.{
  set_some, set_if, anthropic_usage, insert_messages_server_tool_counts,
  insert_messages_cache_creation,
}
use wiremux.Stream.Messages.{encode_stop_reason, message_delta, stop_frame}
use wiremux.Stream.Encoder.{StreamEncoder}
use wiremux.Stream.Encoder.Blocks.{Emitted, close_open}
use wiremux.Stream.Encoder.Messages.{open_message, push_messages}

-- The deferred events, pushed again. The message is open, so that an event that fails changes nothing.
unfoldable pub push_step : StreamEncoder → Result MapError Emitted → Emitted
push_step s (ok e) = e
push_step s (err e) = (s, [])

unfoldable pub push_deferred : Serde → StreamEncoder → List IrStreamEvent → Emitted
push_deferred serde s [] = (s, [])
push_deferred serde s (ev ∷ evs) =
    let (s', fs) = push_step s (push_messages serde s ev) in
    let (s'', gs) = push_deferred serde s' evs in (s'', fs ++ gs)

mapped_reason : Option Str → Option Str
mapped_reason none = none
mapped_reason (some reason) = some (encode_stop_reason reason)

-- `mapped.is_none_or(|r| r == word)`.
none_or_is : Str → Option Str → Bool
none_or_is word none = true
none_or_is word (some r) = str_eq r word

unfoldable pub stop_reason : StreamEncoder → Str
unfolding mapped_reason none_or_is
stop_reason s =
    let mapped = mapped_reason s.finish_reason in
    if not (is_empty s.refusal) && none_or_is (str "content_filter") mapped
    then str "refusal"
    else if not (is_empty s.used_tool) && none_or_is (str "end_turn") mapped
    then str "tool_use"
    else or_text mapped (str "end_turn")

nullable : Option Str → Value
nullable none = null
nullable (some s) = string s

final_usage : StreamEncoder → Option Usage → Option Value
final_usage s none = none
final_usage s (some u) = some (
    insert_messages_cache_creation
      (insert_messages_server_tool_counts (anthropic_usage u) s.messages_web_search_requests
        s.messages_web_fetch_requests)
      s.messages_cache_creation)

diagnostics_of : Option Value → Option Value
diagnostics_of none = none
diagnostics_of (some reason) = some (json_object ((str "cache_miss_reason", reason) ∷ []))

-- The last `message_delta`, each member from what the state has kept.
unfoldable pub final_delta : StreamEncoder → Frame
unfolding nullable final_usage diagnostics_of
final_delta s =
    let delta =
      set_if (not (is_empty s.refusal)) (str "stop_details")
        (json_object
          ((str "type", string (str "refusal")) ∷ (str "explanation", string s.refusal) ∷ []))
        (json_object (
          (str "stop_reason", string (stop_reason s))
          ∷ (str "stop_sequence", nullable s.stop_sequence)
          ∷ [])) in
    let (event, base) = message_delta ((str "delta", delta) ∷ []) in
    let counted = set_some (final_usage s s.usage) (str "usage") base in
    let contained =
      if s.messages_container_written
      then counted
      else set_some s.messages_container (str "container") counted in
    let managed = set_some s.messages_context_management (str "context_management") contained in
    (event, set_some (diagnostics_of s.messages_cache_miss) (str "diagnostics") managed)

-- What the last frames take out of the state.
unfoldable pub taken : StreamEncoder → Option Usage → StreamEncoder
taken s none = record s { refusal = [] }
taken s (some u) = record s {
  refusal = [];
  messages_web_search_requests = none;
  messages_web_fetch_requests = none;
}

unfoldable pub finish_messages : Serde → StreamEncoder → Emitted
finish_messages serde s =
    let (s1, fs1) = open_message s in
    let (s2, fs2) = close_open serde s1 in
    let (s3, fs3) = push_deferred serde (record s2 { deferred = [] }) s2.deferred in
    let (s4, fs4) = close_open serde s3 in
    (taken s4 s4.usage, fs1 ++ (fs2 ++ (fs3 ++ (fs4 ++ final_delta s4 ∷ stop_frame ∷ []))))

unfoldable pub finish : Serde → StreamEncoder → Emitted
finish serde s =
    if s.finished then (s, []) else finish_messages serde (record s { finished = true })
