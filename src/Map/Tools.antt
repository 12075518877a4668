-- ===== src/Map/Tools.antt =====
-- crates/wiremux/src/map/tools.rs: the tools of a request under the profile's policy. What
-- `apply_tool_name_case` makes of a name is an argument, since it reads the tables of Unicode.
pub mod Reports
pub mod Pieces
pub mod Kept
pub mod Laws
pub mod Names
use wiremux.Prelude.{
  ℕ, suc, Bool, true, false, ◌&&◌, ◌||◌, ◌==◌, List, [], ◌∷◌, ◌++◌, Option, none, some,
  if◌then◌else◌, is_empty, is_some, not, any,
}
use wiremux.Prelude.Results.{Result, ok, err}
use wiremux.Prelude.Text.{Str, str, str_eq, decimal, strip_prefix}
use wiremux.Prelude.Trim.{trim}
use wiremux.Json.{
  Value, object, string, end, Fields, get, as_str, as_array, as_bool, is_object, json_object,
  insert,
}
use wiremux.Ir.{IrTool, function, namespace, hosted, unknown_tool, cache_point}
use wiremux.Ir.Loss.{LossReport, note, preserve, degrade, drop}
use wiremux.Profile.Types.{
  Wire, chat_completions, responses, converse, wire_str, ToolTypePolicy, tool_passthrough,
  flatten_namespace, tool_hard_error,
}
use wiremux.Map.Error.{MapError, hard}
use wiremux.Stream.Fields.{or_text, or_value, bind_option}

-- `?`.
infixl 5 ◌>>=◌
abbrev pub ◌>>=◌ {ℓ κ} :
    {A : Type ℓ} {B : Type κ} → Result MapError A → (A → Result MapError B) → Result MapError B
ok a >>= f = f a
err e >>= f = err e

-- A function by its name, description, parameters and strictness, or a tool as it came.
pub data PreparedTool : Type 0 where
  prepared : Str → Str → Value → Option Bool → PreparedTool
  raw_tool : Value → PreparedTool

abbrev hosted_kinds : List Str
hosted_kinds =
    str "web_search"
    ∷ str "web_search_preview"
    ∷ str "file_search"
    ∷ str "code_interpreter"
    ∷ str "computer"
    ∷ str "image_generation"
    ∷ str "mcp"
    ∷ str "local_shell"
    ∷ str "shell"
    ∷ str "tool_search"
    ∷ []

unfoldable pub is_hosted : Str → Bool
is_hosted type_name = any (str_eq type_name) hosted_kinds

-- `get(key).and_then(Value::as_str).unwrap_or("")`.
unfoldable pub text_at : Str → Value → Str
text_at key value = or_text (bind_option (get key value) as_str) []

abbrev pub no_parameters : Value
no_parameters =
    json_object ((str "type", string (str "object")) ∷ (str "properties", object end) ∷ [])

-- `parameters` or `input_schema`, or the schema of no parameters.
unfoldable pub parameters_of : Value → Value
parameters_of src = elim (get (str "parameters") src) [
  | some p ↦ p
  | none ↦ or_value (get (str "input_schema") src) no_parameters
]

unfoldable pub bool_field : Value → Str → Option Bool
bool_field value key = bind_option (get key value) as_bool

unfoldable pub function_from : Value → IrTool
function_from src =
    function (text_at (str "name") src) (text_at (str "description") src) (parameters_of src)
      (bool_field src (str "strict"))

unfoldable pub looks_like_function : Value → Bool
looks_like_function value =
    is_some (bind_option (get (str "name") value) as_str)
    && (is_some (get (str "parameters") value)
        || (is_some (get (str "input_schema") value)
            || (is_some (get (str "description") value)
                || str_eq (text_at (str "type") value) (str "function"))))

unfoldable pub decode_function_or_messages : Value → Str → IrTool
decode_function_or_messages value type_name = elim (get (str "function") value) [
  | some func ↦ function_from func
  | none ↦ (if looks_like_function value then function_from value else unknown_tool type_name value)
]

unfoldable pub decode_tool : Value → IrTool
decode_tool value =
    let type_name = text_at (str "type") value in
    if str_eq type_name (str "namespace")
    then namespace (text_at (str "name") value) value
    else if str_eq type_name (str "function") || is_empty type_name
    then decode_function_or_messages value type_name
    else if is_hosted type_name
    then hosted type_name value
    else unknown_tool type_name value

unfoldable pub wire_keeps_strict : Wire → Bool
wire_keeps_strict chat_completions = true
wire_keeps_strict responses = true
wire_keeps_strict converse = true
wire_keeps_strict wire = false

abbrev pub is_responses : Wire → Bool
is_responses responses = true
is_responses wire = false

abbrev pub is_converse : Wire → Bool
is_converse converse = true
is_converse wire = false

abbrev pub keeps_custom : Wire → Bool
keeps_custom chat_completions = true
keeps_custom responses = true
keeps_custom wire = false

unfoldable pub namespace_raw : Str → Value → Value
namespace_raw name raw =
    let typed =
      insert (str "type") (string (str "namespace")) (elim raw [ object map ↦ map | _ ↦ end ]) in
    object (if is_empty name then typed else insert (str "name") (string name) typed)

-- The tools that a push appends, and the report behind it.
abbrev pub Pushed : Type 0
Pushed = List PreparedTool × LossReport

-- A dropped `strict` is reported.
unfoldable pub note_strict : Wire → Option Bool → Str → LossReport → LossReport
note_strict wire strict path report =
    if is_some strict && not (wire_keeps_strict wire)
    then note report (path ++ str ".strict") drop (str "no slot")
    else report

-- One child of a namespace, its name behind the namespace's and a dot.
unfoldable pub flatten_child : Str → Str → Value → Result MapError IrTool
flatten_child name path child = elim (bind_option (get (str "name") child) as_str) [
  | none ↦ err (hard path (str "namespace child missing name"))
  | some child_name ↦ ok (
      function (name ++ (str "." ++ child_name)) (text_at (str "description") child)
        (parameters_of child) (bool_field child (str "strict")))
]

unfoldable pub flatten_children : Str → Str → List Value → Result MapError (List IrTool)
flatten_children name path [] = ok []
flatten_children name path (child ∷ children) = do
  tool ← flatten_child name path child
  tools ← flatten_children name path children
  ok (tool ∷ tools)

unfoldable pub flatten_table : Str → Str → Option (List Value) → Result MapError (List IrTool)
flatten_table name path none = err (hard path (str "namespace has no flatten table (tools[])"))
flatten_table name path (some []) = err (hard path (str "namespace flatten table is empty"))
flatten_table name path (some (child ∷ children)) = flatten_children name path (child ∷ children)

-- The source's `flatten_namespace`, whose name is a policy's.
unfoldable pub flatten : Str → Value → Str → Result MapError (List IrTool)
flatten name raw path = flatten_table name path (bind_option (get (str "tools") raw) as_array)

abbrev pub tool_path : ℕ → Str
tool_path idx = str "tools[" ++ (decimal idx ++ str "]")

module _ (wire : Wire) (policy : ToolTypePolicy) (case : Str → Str) where
  -- A tool of a flattened namespace; every one is a function.
  unfoldable pub push_flat : Str → List IrTool → LossReport → Pushed
  push_flat path [] report = ([], report)
  push_flat path (function name description parameters strict ∷ tools) report =
      let (out, report') = push_flat path tools (note_strict wire strict path report) in
      (prepared (case name) description parameters strict ∷ out, report')
  push_flat path (tool ∷ tools) report = push_flat path tools report

  unfoldable pub flattened :
      Str → LossReport → Result MapError (List IrTool) → Result MapError Pushed
  flattened path report (err e) = err e
  flattened path report (ok flat) = ok (
      push_flat path flat
        (note report path degrade (str "flatten namespace to dotted function tools")))

  unfoldable pub namespace_by :
      ToolTypePolicy → Str → Value → Str → LossReport → Result MapError Pushed
  namespace_by tool_passthrough name raw path report =
      ok (raw_tool raw ∷ [], note report path preserve (str "namespace passthrough"))
  namespace_by flatten_namespace name raw path report =
      flattened path report (flatten name raw path)
  namespace_by tool_hard_error name raw path report =
      if is_responses wire
      then ok
          (raw_tool (namespace_raw name raw) ∷ [], note report path preserve (str "namespace tool"))
      else err (
          hard path (
            str
              "type=namespace is not silent-stripped; hard-error (set tool_type_policy = flatten-namespace to flatten)"))

  unfoldable pub push_namespace : Str → Value → Str → LossReport → Result MapError Pushed
  push_namespace name raw path report = namespace_by policy name raw path report

  unfoldable pub push_custom_tool : Value → Str → LossReport → Result MapError Pushed
  push_custom_tool raw path report =
      let name = text_at (str "name") raw in
      if is_empty (trim name)
      then err (hard path (str "custom tool name is empty"))
      else if keeps_custom wire
      then ok (raw_tool raw ∷ [], note report path preserve (str "custom tool"))
      else ok (
        prepared (case name) (text_at (str "description") raw) no_parameters none ∷ [],
        note report path degrade (str "custom tool became a function tool"),
      )

  unfoldable pub hosted_by :
      ToolTypePolicy → Str → Value → Str → LossReport → Result MapError Pushed
  hosted_by tool_passthrough kind raw path report =
      ok (raw_tool raw ∷ [], note report path preserve (str "hosted passthrough"))
  hosted_by other kind raw path report =
      if is_responses wire
      then ok (raw_tool raw ∷ [], note report path preserve (str "hosted " ++ kind))
      else err (
          hard path (
            str "hosted tool `"
            ++ (kind ++ (str "` has no slot on `" ++ (wire_str wire ++ str "`")))))

  unfoldable pub push_hosted : Str → Value → Str → LossReport → Result MapError Pushed
  push_hosted kind raw path report = hosted_by policy kind raw path report

  unfoldable pub push_function :
      Str → Str → Value → Option Bool → Str → LossReport → Result MapError Pushed
  push_function name description parameters strict path report =
      if is_empty (trim name)
      then err (hard path (str "function tool name is empty"))
      else ok (
        prepared (case name) description parameters strict ∷ [],
        note_strict wire strict path report,
      )

  unfoldable pub push_cache_point : Value → Str → LossReport → Result MapError Pushed
  push_cache_point raw path report =
      if is_converse wire
      then ok (raw_tool (json_object ((str "cachePoint", raw) ∷ [])) ∷ [], report)
      else ok ([], note report path drop (str "tool cache point has no slot"))

  unfoldable pub push_system_tool : Value → Str → LossReport → Result MapError Pushed
  push_system_tool raw path report =
      if is_converse wire && is_object raw
      then ok (raw_tool (json_object ((str "systemTool", raw) ∷ [])) ∷ [], report)
      else ok ([], note report path drop (str "system tool has no slot"))

  unfoldable pub unknown_by :
      ToolTypePolicy → Str → Value → Str → LossReport → Result MapError Pushed
  unknown_by tool_passthrough type_name raw path report =
      ok (raw_tool raw ∷ [], note report path preserve (str "unknown tool passthrough"))
  unknown_by other type_name raw path report = err (
      hard path (
        str "unknown tool type `"
        ++ (type_name ++ str "` (tool_type_policy = passthrough|flatten-namespace|hard-error)")))

  unfoldable pub push_unknown : Str → Value → Str → LossReport → Result MapError Pushed
  push_unknown type_name raw path report =
      if str_eq type_name (str "systemTool")
      then push_system_tool raw path report
      else if str_eq type_name (str "custom")
      then push_custom_tool raw path report
      else unknown_by policy type_name raw path report

  -- The `match` of `prepare_tools`, for one tool at its path.
  unfoldable pub prepare_tool : IrTool → Str → LossReport → Result MapError Pushed
  prepare_tool (function name description parameters strict) path report =
      push_function name description parameters strict path report
  prepare_tool (namespace name raw) path report = push_namespace name raw path report
  prepare_tool (hosted kind raw) path report = push_hosted kind raw path report
  prepare_tool (cache_point raw) path report = push_cache_point raw path report
  prepare_tool (unknown_tool type_name raw) path report = push_unknown type_name raw path report

  -- The tools from an index on.
  unfoldable pub prepare_from : ℕ → List IrTool → LossReport → Result MapError Pushed
  prepare_from idx [] report = ok ([], report)
  prepare_from idx (tool ∷ tools) report = do
    (out, report') ← prepare_tool tool (tool_path idx) report
    (rest, report'') ← prepare_from (suc idx) tools report'
    ok (out ++ rest, report'')

  -- The source takes the policy and the case from the profile.
  unfoldable pub prepare_tools : List IrTool → LossReport → Result MapError Pushed
  prepare_tools tools report = prepare_from 0 tools report
