-- ===== src/Map/Tools/Kept.antt =====
-- crates/wiremux/src/map/tools.rs: each push leaves a form of its tool and a longer report.
use wiremux.Prelude.{
  Bool, true, false, ◌&&◌, List, [], ◌∷◌, Option, none, some, if◌then◌else◌, is_empty, is_some, not,
  ◌≡◌, refl, Bool-cases, inl, inr,
}
use wiremux.Prelude.Results.{Result, ok, err}
use wiremux.Prelude.Text.{Str, str, str_eq}
use wiremux.Prelude.Trim.{trim}
use wiremux.Json.{Value, get, as_array, is_object}
use wiremux.Ir.{IrTool, function, namespace, hosted, unknown_tool, cache_point}
use wiremux.Ir.Loss.{LossReport, note, preserve}
use wiremux.Profile.Types.{
  Wire, ToolTypePolicy, tool_passthrough, flatten_namespace, tool_hard_error,
}
use wiremux.Map.Error.{MapError}
use wiremux.Stream.Fields.{bind_option}
use wiremux.Map.Tools.{
  raw_tool, Pushed, note_strict, wire_keeps_strict, flatten_children, flatten_table, flatten,
  push_flat, flattened, namespace_by, push_namespace, keeps_custom, is_responses, is_converse,
  push_custom_tool, hosted_by, push_hosted, push_function, push_cache_point, push_system_tool,
  unknown_by, push_unknown, prepare_tool, text_at,
}
use wiremux.Map.Tools.Pieces.{
  IsPiece, function_piece, namespace_as_it_is, namespace_typed, namespace_children, hosted_as_it_is,
  hosted_piece, cache_point_piece, cache_point_dropped, system_tool_piece, system_tool_dropped,
  custom_piece, custom_function, unknown_as_it_is, push_flat-IsChild, IsFlat,
  flatten_children-IsFlat,
}
use wiremux.Map.Tools.Reports.{Grows, Grows-still, Grows-note, Grows-then, dropped-note}

note_strict-Grows :
    (wire : Wire) (strict : Option Bool) (path : Str) (r : LossReport)
    → Grows r (note_strict wire strict path r)
unfolding note_strict
note_strict-Grows wire strict path r =
    elim (Bool-cases (is_some strict && not (wire_keeps_strict wire))) [
      | inl e ↦ rw e (Grows-note r _ _ _)
      | inr e ↦ rw e (Grows-still r)
    ]

module _ (wire : Wire) (policy : ToolTypePolicy) (case : Str → Str) where
  -- A tool leaves one of its forms and a longer report, unless the request is refused.
  unfoldable pub Kept : IrTool → Str → LossReport → Result MapError Pushed → Type 0
  Kept tool path r (err e) = Unit {0}
  Kept tool path r (ok (out, r')) = IsPiece wire policy case path r' tool out × Grows r r'

  push_flat-Grows :
      (path : Str) (tools : List IrTool) (r : LossReport)
      → Grows r (push_flat wire policy case path tools r).1
  unfolding push_flat
  push_flat-Grows path [] r = Grows-still r
  push_flat-Grows path (function n d p s ∷ tools) r =
      Grows-then r _ _ (note_strict-Grows wire s path r)
        (push_flat-Grows path tools (note_strict wire s path r))
  push_flat-Grows path (namespace n v ∷ tools) r = push_flat-Grows path tools r
  push_flat-Grows path (hosted k v ∷ tools) r = push_flat-Grows path tools r
  push_flat-Grows path (unknown_tool k v ∷ tools) r = push_flat-Grows path tools r
  push_flat-Grows path (cache_point v ∷ tools) r = push_flat-Grows path tools r

  flattened-Kept :
      (name path : Str) (raw : Value) (children : List Value) (r : LossReport)
      (flat : Result MapError (List IrTool))
      → policy ≡ flatten_namespace
      → bind_option (get (str "tools") raw) as_array ≡ some children
      → is_empty children ≡ false
      → IsFlat name children flat
      → Kept (namespace name raw) path r (flattened wire policy case path r flat)
  unfolding flattened Kept IsFlat
  flattened-Kept name path raw children r (err e) p t l h = tt
  flattened-Kept name path raw children r (ok tools) p t l h = (
    namespace_children name raw children _ p t l
        (push_flat-IsChild wire policy case name path children tools _ h),
    Grows-then r _ _ (Grows-note r path _ _) (push_flat-Grows path tools _),
  )

  flatten-Kept :
      (name path : Str) (raw : Value) (r : LossReport) (o : Option (List Value))
      → policy ≡ flatten_namespace
      → bind_option (get (str "tools") raw) as_array ≡ o
      → Kept
          (namespace name raw)
          path
          r
          (flattened wire policy case path r (flatten_table name path o))
  unfolding flatten_table Kept flattened
  flatten-Kept name path raw r none p t = tt
  flatten-Kept name path raw r (some []) p t = tt
  flatten-Kept name path raw r (some (child ∷ children)) p t =
      flattened-Kept name path raw (child ∷ children) r
        (flatten_children name path (child ∷ children)) p t refl
        (flatten_children-IsFlat name path (child ∷ children))

  push_namespace-Kept :
      (name : Str) (raw : Value) (path : Str) (r : LossReport)
      → Kept (namespace name raw) path r (push_namespace wire policy case name raw path r)
  unfolding push_namespace namespace_by flatten Kept
  push_namespace-Kept name raw path r = by policy refl
    where
      by :
          (p : ToolTypePolicy)
          → policy ≡ p
          → Kept (namespace name raw) path r (namespace_by wire policy case p name raw path r)
      by tool_passthrough h = (namespace_as_it_is name raw h, Grows-note r _ _ _)
      by flatten_namespace h = flatten-Kept name path raw r _ h refl
      by tool_hard_error h = elim (Bool-cases (is_responses wire)) [
        | inl e ↦ rw e (namespace_typed name raw h e, Grows-note r _ _ _)
        | inr e ↦ rw e tt
      ]

  push_custom_tool-Kept :
      (type_name : Str) (raw : Value) (path : Str) (r : LossReport)
      → str_eq type_name (str "custom") ≡ true
      → Kept (unknown_tool type_name raw) path r (push_custom_tool wire policy case raw path r)
  unfolding push_custom_tool Kept
  push_custom_tool-Kept type_name raw path r h =
      elim (Bool-cases (is_empty (trim (text_at (str "name") raw)))) [
        | inl e ↦ rw e tt
        | inr e ↦ elim (Bool-cases (keeps_custom wire)) [
          | inl d ↦ rw (e, d) (custom_piece type_name raw h d, Grows-note r _ _ _)
          | inr d ↦ rw (e, d) (custom_function type_name raw h d, Grows-note r _ _ _)
        ]
      ]

  -- A hosted tool that only the Responses wire has.
  responses-Kept :
      (path d kind : Str) (raw : Value) (e : MapError) (r : LossReport)
      → Kept
          (hosted kind raw)
          path
          r
          (if is_responses wire then ok (raw_tool raw ∷ [], note r path preserve d) else err e)
  unfolding Kept
  responses-Kept path d kind raw e r = elim (Bool-cases (is_responses wire)) [
    | inl h ↦ rw h (hosted_piece kind raw h, Grows-note r _ _ _)
    | inr h ↦ rw h tt
  ]

  push_hosted-Kept :
      (kind : Str) (raw : Value) (path : Str) (r : LossReport)
      → Kept (hosted kind raw) path r (push_hosted wire policy case kind raw path r)
  unfolding push_hosted hosted_by Kept
  push_hosted-Kept kind raw path r = by policy refl
    where
      by :
          (p : ToolTypePolicy)
          → policy ≡ p
          → Kept (hosted kind raw) path r (hosted_by wire policy case p kind raw path r)
      by tool_passthrough h = (hosted_as_it_is kind raw h, Grows-note r _ _ _)
      by flatten_namespace h = responses-Kept path _ kind raw _ r
      by tool_hard_error h = responses-Kept path _ kind raw _ r

  push_function-Kept :
      (name description : Str) (parameters : Value) (strict : Option Bool) (path : Str)
      (r : LossReport)
      → Kept
          (function name description parameters strict)
          path
          r
          (push_function wire policy case name description parameters strict path r)
  unfolding push_function Kept
  push_function-Kept name description parameters strict path r =
      elim (Bool-cases (is_empty (trim name))) [
        | inl e ↦ rw e tt
        | inr e ↦ rw e (
          function_piece name description parameters strict,
          note_strict-Grows wire strict path r,
        )
      ]

  push_cache_point-Kept :
      (raw : Value) (path : Str) (r : LossReport)
      → Kept (cache_point raw) path r (push_cache_point wire policy case raw path r)
  unfolding push_cache_point Kept
  push_cache_point-Kept raw path r = elim (Bool-cases (is_converse wire)) [
    | inl e ↦ rw e (cache_point_piece raw e, Grows-still r)
    | inr e ↦ rw e (cache_point_dropped raw e (dropped-note path r _), Grows-note r _ _ _)
  ]

  push_system_tool-Kept :
      (type_name : Str) (raw : Value) (path : Str) (r : LossReport)
      → str_eq type_name (str "systemTool") ≡ true
      → Kept (unknown_tool type_name raw) path r (push_system_tool wire policy case raw path r)
  unfolding push_system_tool Kept
  push_system_tool-Kept type_name raw path r h =
      elim (Bool-cases (is_converse wire && is_object raw)) [
        | inl e ↦ rw e (system_tool_piece type_name raw h e, Grows-still r)
        | inr e ↦
            rw e (system_tool_dropped type_name raw h e (dropped-note path r _), Grows-note r _ _ _)
      ]

  push_unknown-Kept :
      (type_name : Str) (raw : Value) (path : Str) (r : LossReport)
      → Kept
          (unknown_tool type_name raw)
          path
          r
          (push_unknown wire policy case type_name raw path r)
  unfolding push_unknown unknown_by Kept
  push_unknown-Kept type_name raw path r = elim (Bool-cases (str_eq type_name (str "systemTool"))) [
    | inl e ↦ rw e (push_system_tool-Kept type_name raw path r e)
    | inr e ↦ elim (Bool-cases (str_eq type_name (str "custom"))) [
      | inl d ↦ rw (e, d) (push_custom_tool-Kept type_name raw path r d)
      | inr d ↦ rw (e, d) (by policy refl)
    ]
  ]
    where
      by :
          (p : ToolTypePolicy)
          → policy ≡ p
          → Kept
              (unknown_tool type_name raw)
              path
              r
              (unknown_by wire policy case p type_name raw path r)
      by tool_passthrough h = (unknown_as_it_is type_name raw h, Grows-note r _ _ _)
      by flatten_namespace h = tt
      by tool_hard_error h = tt

  pub prepare_tool-Kept :
      (tool : IrTool) (path : Str) (r : LossReport)
      → Kept tool path r (prepare_tool wire policy case tool path r)
  unfolding prepare_tool
  prepare_tool-Kept (function name description parameters strict) path r =
      push_function-Kept name description parameters strict path r
  prepare_tool-Kept (namespace name raw) path r = push_namespace-Kept name raw path r
  prepare_tool-Kept (hosted kind raw) path r = push_hosted-Kept kind raw path r
  prepare_tool-Kept (cache_point raw) path r = push_cache_point-Kept raw path r
  prepare_tool-Kept (unknown_tool type_name raw) path r = push_unknown-Kept type_name raw path r
