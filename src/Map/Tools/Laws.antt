-- ===== src/Map/Tools/Laws.antt =====
-- crates/wiremux/src/map/tools.rs: the prepared tools of a request, tool by tool.
use wiremux.Prelude.{ℕ, suc, List, [], ◌∷◌, ◌++◌, ◌≡◌}
use wiremux.Prelude.Results.{Result, ok, err}
use wiremux.Prelude.Text.{Str}
use wiremux.Ir.{IrTool}
use wiremux.Ir.Loss.{LossReport}
use wiremux.Profile.Types.{Wire, ToolTypePolicy}
use wiremux.Map.Error.{MapError}
use wiremux.Map.Tools.{PreparedTool, Pushed, tool_path}
use wiremux.Map.Tools.Pieces.{IsPiece}
use wiremux.Map.Tools.Kept.{Kept}
use wiremux.Map.Tools.Reports.{Grows}

module _ (wire : Wire) (policy : ToolTypePolicy) (case : Str → Str) where
  -- The prepared tools are one piece for each tool, in order, and each is a form of its tool.
  pub IsAccounted : ℕ → List IrTool → List PreparedTool → LossReport → Type 0
  IsAccounted idx [] out r = out ≡ []
  IsAccounted idx (tool ∷ tools) out r =
      (piece : List PreparedTool) × (rest : List PreparedTool) × (out ≡ piece ++ rest)
      × IsPiece wire policy case (tool_path idx) r tool piece
      × IsAccounted (suc idx) tools rest r

  Accounted : ℕ → List IrTool → LossReport → Result MapError Pushed → Type 0
  Accounted idx tools r (err e) = Unit {0}
  Accounted idx tools r (ok (out, r')) = IsAccounted idx tools out r' × Grows r r'
