-- ===== src/Tests/Tools.antt =====
-- A request's tools at fixed inputs, and the theorems at inputs that meet their hypotheses.
use wiremux.Prelude.{true, List, [], ◌∷◌, none, some, ◌≡◌, refl}
use wiremux.Prelude.Text.{Str, str, str_eq, str_lt, strip_prefix}
use wiremux.Json.{
  Value, null, string, object, end, json_object, json_array, get, lookup, insert, fields_of,
}
use wiremux.Ir.{IrTool, function, namespace, cache_point}
use wiremux.Ir.Loss.{LossReport, no_loss, note, degrade, drop}
use wiremux.Map.Tools.{PreparedTool, prepared, text_at}
use wiremux.Stream.Fields.{or_text}
use wiremux.Map.Tools.Names.{
  split_namespace_name, qualify_call_name, split_namespace_name-qualify_call_name,
}

abbrev as_written : Str → Str
as_written name = name

-- A function with a `strict` that Messages has no slot for, a namespace and a cache point.
abbrev three_tools : List IrTool
three_tools =
    function (str "run") (str "runs") null (some true)
    ∷ namespace (str "fs") (
        json_object (
          (str "tools", json_array (json_object ((str "name", string (str "read")) ∷ []) ∷ []))
          ∷ []))
    ∷ cache_point null
    ∷ []

abbrev three_prepared : List PreparedTool
three_prepared =
    prepared (str "run") (str "runs") null (some true)
    ∷ prepared (str "fs.read") []
        (json_object ((str "type", string (str "object")) ∷ (str "properties", object end) ∷ []))
        none
    ∷ []

abbrev three_losses : LossReport
three_losses =
    note
      (note (note no_loss (str "tools[0].strict") drop (str "no slot")) (str "tools[1]") degrade
        (str "flatten namespace to dotted function tools"))
      (str "tools[2]") drop (str "tool cache point has no slot")

abbrev read_call : Value
read_call =
    json_object ((str "namespace", string (str "fs")) ∷ (str "name", string (str "read")) ∷ [])

split_namespace_name-qualify_call_name_example :
    split_namespace_name (qualify_call_name read_call) ≡ some (str "fs", str "read")
unfolding get lookup insert fields_of json_object str_eq str_lt strip_prefix text_at or_text
split_namespace_name-qualify_call_name_example =
    split_namespace_name-qualify_call_name read_call (str "fs") (str "read") refl refl refl refl
      refl refl
