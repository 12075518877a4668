-- ===== src/Map/Tools/Reports.antt =====
-- crates/wiremux/src/map/tools.rs: what a report says of a tool, and the growth of a report.
use wiremux.Prelude.{
  Bool, true, false, ◌&&◌, ◌||◌, List, [], ◌∷◌, ◌++◌, append-nil, append_assoc, any, ◌≡◌, refl, ap,
  sym, ◌∙◌, arith,
}
use wiremux.Prelude.Text.{Str, str_eq, str_eq_refl}
use wiremux.Ir.Loss.{LossReport, LossEvent, LossAction, note, drop}

abbrev pub is_drop : LossAction → Bool
is_drop drop = true
is_drop action = false

unfoldable pub drops_at : Str → LossEvent → Bool
drops_at path e = str_eq e.path path && is_drop e.action

-- The report says that the tool at a path was dropped.
unfoldable pub dropped : Str → LossReport → Bool
dropped path report = any (drops_at path) report.events

-- A report with more behind it.
unfoldable pub Grows : LossReport → LossReport → Type 0
Grows r r' = (more : List LossEvent) × (r'.events ≡ r.events ++ more)

pub Grows-still : (r : LossReport) → Grows r r
unfolding Grows
Grows-still r = ([], sym (append-nil r.events))

pub Grows-note :
    (r : LossReport) (path : Str) (a : LossAction) (d : Str) → Grows r (note r path a d)
unfolding Grows note
Grows-note r path a d = (_, refl)

pub Grows-then : (r s t : LossReport) → Grows r s → Grows s t → Grows r t
unfolding Grows
Grows-then r s t (m, e) (n, d) = (m ++ n, (d ∙ ap (λ x. x ++ n) e) ∙ append_assoc r.events m n)

pub any-append :
    (p : LossEvent → Bool) (xs ys : List LossEvent) → any p (xs ++ ys) ≡ (any p xs || any p ys)
any-append p [] ys = refl
any-append p (x ∷ xs) ys = ground (arith, any-append p xs ys)

pub dropped-Grows :
    (path : Str) (r s : LossReport) → Grows r s → dropped path r ≡ true → dropped path s ≡ true
unfolding dropped Grows
dropped-Grows path r s (m, e) h = rw (e) (ground (arith, any-append (drops_at path) r.events m))

pub dropped-note :
    (path : Str) (r : LossReport) (d : Str) → dropped path (note r path drop d) ≡ true
unfolding dropped note drops_at
dropped-note path r d = ground (
  arith,
  any-append (drops_at path) r.events (record { path = path; action = drop; detail = d } ∷ []),
  str_eq_refl path,
)
