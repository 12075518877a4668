-- ===== src/Map/Tools/Pieces.antt =====
-- crates/wiremux/src/map/tools.rs: the prepared forms that a tool may take on a wire, as a relation
-- beside the code, and the forms of a flattened namespace's children.
use mathlib.Core.List.{Forall₂}
use mathlib.Core.List.Forall₂.{nil, cons}
use wiremux.Prelude.{
  true, false, ◌&&◌, List, [], ◌∷◌, ◌++◌, Option, none, some, is_empty, ◌≡◌, refl, Option-cases,
  inl, inr, Bool,
}
use wiremux.Prelude.Results.{Result, ok, err}
use wiremux.Prelude.Text.{Str, str, str_eq}
use wiremux.Json.{Value, get, as_str, as_array, is_object, json_object}
use wiremux.Ir.{IrTool, function, namespace, hosted, unknown_tool, cache_point}
use wiremux.Ir.Loss.{LossReport}
use wiremux.Profile.Types.{
  Wire, ToolTypePolicy, tool_passthrough, flatten_namespace, tool_hard_error,
}
use wiremux.Map.Error.{MapError}
use wiremux.Stream.Fields.{bind_option}
use wiremux.Map.Tools.{
  ◌>>=◌, PreparedTool, prepared, raw_tool, text_at, parameters_of, no_parameters, bool_field,
  namespace_raw, is_responses, is_converse, keeps_custom, flatten_child, flatten_children,
  push_flat,
}
use wiremux.Map.Tools.Reports.{dropped, Grows, dropped-Grows}

-- A child of a namespace as a function of the dotted name.
unfoldable pub IsFlatChild : Str → Value → IrTool → Type 0
IsFlatChild name child tool =
    (n : Str) × (bind_option (get (str "name") child) as_str ≡ some n)
    × (tool
        ≡ function (name ++ (str "." ++ n)) (text_at (str "description") child)
            (parameters_of child) (bool_field child (str "strict")))

module _ (wire : Wire) (policy : ToolTypePolicy) (case : Str → Str) where
  -- A child of a namespace as it is sent: a function of the dotted name, with the child's own
  -- description, schema and strictness.
  unfoldable pub IsChild : Str → Value → PreparedTool → Type 0
  IsChild name child tool =
      (n : Str) × (bind_option (get (str "name") child) as_str ≡ some n)
      × (tool
          ≡ prepared (case (name ++ (str "." ++ n))) (text_at (str "description") child)
              (parameters_of child) (bool_field child (str "strict")))

  -- What may be sent for a tool that stands at a path, with the report of the whole request: a tool is
  -- absent only on a wire without a slot for it, and then the report has dropped its path.
  pub data IsPiece (path : Str) (r : LossReport) : IrTool → List PreparedTool → Type 0 where
    function_piece :
        (name description : Str) (parameters : Value) (strict : Option Bool)
        → IsPiece path r
            (function name description parameters strict)
            (prepared (case name) description parameters strict ∷ [])
    namespace_as_it_is :
        (name : Str) (raw : Value)
        → policy ≡ tool_passthrough
        → IsPiece path r (namespace name raw) (raw_tool raw ∷ [])
    namespace_typed :
        (name : Str) (raw : Value)
        → policy ≡ tool_hard_error
        → is_responses wire ≡ true
        → IsPiece path r (namespace name raw) (raw_tool (namespace_raw name raw) ∷ [])
    namespace_children :
        (name : Str) (raw : Value) (children : List Value) (out : List PreparedTool)
        → policy ≡ flatten_namespace
        → bind_option (get (str "tools") raw) as_array ≡ some children
        → is_empty children ≡ false
        → Forall₂ (IsChild name) children out
        → IsPiece path r (namespace name raw) out
    hosted_as_it_is :
        (kind : Str) (raw : Value)
        → policy ≡ tool_passthrough
        → IsPiece path r (hosted kind raw) (raw_tool raw ∷ [])
    hosted_piece :
        (kind : Str) (raw : Value)
        → is_responses wire ≡ true
        → IsPiece path r (hosted kind raw) (raw_tool raw ∷ [])
    cache_point_piece :
        (raw : Value)
        → is_converse wire ≡ true
        → IsPiece path r
            (cache_point raw)
            (raw_tool (json_object ((str "cachePoint", raw) ∷ [])) ∷ [])
    cache_point_dropped :
        (raw : Value)
        → is_converse wire ≡ false
        → dropped path r ≡ true
        → IsPiece path r (cache_point raw) []
    system_tool_piece :
        (type_name : Str) (raw : Value)
        → str_eq type_name (str "systemTool") ≡ true
        → (is_converse wire && is_object raw) ≡ true
        → IsPiece path r
            (unknown_tool type_name raw)
            (raw_tool (json_object ((str "systemTool", raw) ∷ [])) ∷ [])
    system_tool_dropped :
        (type_name : Str) (raw : Value)
        → str_eq type_name (str "systemTool") ≡ true
        → (is_converse wire && is_object raw) ≡ false
        → dropped path r ≡ true
        → IsPiece path r (unknown_tool type_name raw) []
    custom_piece :
        (type_name : Str) (raw : Value)
        → str_eq type_name (str "custom") ≡ true
        → keeps_custom wire ≡ true
        → IsPiece path r (unknown_tool type_name raw) (raw_tool raw ∷ [])
    custom_function :
        (type_name : Str) (raw : Value)
        → str_eq type_name (str "custom") ≡ true
        → keeps_custom wire ≡ false
        → IsPiece path r (unknown_tool type_name raw) (
            prepared
              (case (text_at (str "name") raw))
              (text_at (str "description") raw)
              no_parameters
              none
            ∷ [])
    unknown_as_it_is :
        (type_name : Str) (raw : Value)
        → policy ≡ tool_passthrough
        → IsPiece path r (unknown_tool type_name raw) (raw_tool raw ∷ [])

  -- A later report still has the drop.
  pub IsPiece-Grows :
      {tool : IrTool} {out : List PreparedTool} (path : Str) (r s : LossReport)
      → Grows r s
      → IsPiece path r tool out
      → IsPiece path s tool out
  IsPiece-Grows path r s g (function_piece n d p b) = function_piece n d p b
  IsPiece-Grows path r s g (namespace_as_it_is n v h) = namespace_as_it_is n v h
  IsPiece-Grows path r s g (namespace_typed n v h k) = namespace_typed n v h k
  IsPiece-Grows path r s g (namespace_children n v cs out h k l m) =
      namespace_children n v cs out h k l m
  IsPiece-Grows path r s g (hosted_as_it_is k v h) = hosted_as_it_is k v h
  IsPiece-Grows path r s g (hosted_piece k v h) = hosted_piece k v h
  IsPiece-Grows path r s g (cache_point_piece v h) = cache_point_piece v h
  IsPiece-Grows path r s g (cache_point_dropped v h k) =
      cache_point_dropped v h (dropped-Grows path r s g k)
  IsPiece-Grows path r s g (system_tool_piece t v h k) = system_tool_piece t v h k
  IsPiece-Grows path r s g (system_tool_dropped t v h k d) =
      system_tool_dropped t v h k (dropped-Grows path r s g d)
  IsPiece-Grows path r s g (custom_piece t v h k) = custom_piece t v h k
  IsPiece-Grows path r s g (custom_function t v h k) = custom_function t v h k
  IsPiece-Grows path r s g (unknown_as_it_is t v h) = unknown_as_it_is t v h

  -- The functions of a flattened namespace are pushed as its children.
  pub push_flat-IsChild :
      (name path : Str) (children : List Value) (tools : List IrTool) (r : LossReport)
      → Forall₂ (IsFlatChild name) children tools
      → Forall₂ (IsChild name) children (push_flat wire policy case path tools r).0
  unfolding push_flat IsFlatChild IsChild
  push_flat-IsChild name path children tools r nil = nil
  push_flat-IsChild name path children tools r (cons (n, e, f) hs) =
      rw f (cons (n, e, refl) (push_flat-IsChild name path _ _ _ hs))

-- The functions of a table are those of its children, in their order.
unfoldable pub IsFlat : Str → List Value → Result MapError (List IrTool) → Type 0
IsFlat name children (err e) = Unit {0}
IsFlat name children (ok tools) = Forall₂ (IsFlatChild name) children tools

flatten_rest-IsFlat :
    (name n : Str) (child : Value) (children : List Value) (rest : Result MapError (List IrTool))
    → bind_option (get (str "name") child) as_str ≡ some n
    → IsFlat name children rest
    → IsFlat name (child ∷ children) (
        rest >>= (λ tools. ok (
          function
            (name ++ (str "." ++ n))
            (text_at (str "description") child)
            (parameters_of child)
            (bool_field child (str "strict"))
          ∷ tools)))
unfolding IsFlat IsFlatChild
flatten_rest-IsFlat name n child children (ok tools) e h = cons (n, e, refl) h
flatten_rest-IsFlat name n child children (err e') e h = tt

pub flatten_children-IsFlat :
    (name path : Str) (children : List Value)
    → IsFlat name children (flatten_children name path children)
unfolding flatten_children flatten_child IsFlat
flatten_children-IsFlat name path [] = nil
flatten_children-IsFlat name path (child ∷ children) =
    elim (Option-cases (bind_option (get (str "name") child) as_str)) [
      | inl e ↦ rw (IsFlat, e) tt
      | inr (n, e) ↦
          rw (IsFlat, e)
            (flatten_rest-IsFlat name n child children _ e
              (flatten_children-IsFlat name path children))
    ]
