-- ===== src/Map/Policy.antt =====
-- crates/wiremux/src/map/mod.rs: the profile's policies around the encoder of a wire.
pub mod Laws
pub mod Encode
pub mod Prefix
use wiremux.Prelude.{
  Bool, true, false, List, [], ◌∷◌, ◌++◌, Option, none, some, if◌then◌else◌, is_empty, is_none,
  is_some,
}
use wiremux.Prelude.Results.{Result, ok, err}
use wiremux.Prelude.Text.{Bytes, Str, str, str_eq, strip_prefix}
use wiremux.Prelude.Maps.{StrMap}
use wiremux.Json.{Value, object, Fields, insert, remove, contains_key, Serde}
use wiremux.Ir.{IrRequest, IrItem, system}
use wiremux.Ir.Loss.{LossReport, no_loss, note, drop}
use wiremux.Profile.Types.{
  Wire, ResolvedProfile, Fingerprint, ForbiddenFieldPolicy, hard_error, strip,
}
use wiremux.Profile.Overlay.{contains}
use wiremux.Map.Error.{MapError, hard}

-- `str::starts_with`.
unfoldable pub starts_with : Str → Str → Bool
starts_with text prefix = is_some (strip_prefix prefix text)

-- The prefix of the fingerprint, if there is one and it is not empty.
unfoldable pub prompt_prefix : ResolvedProfile → Option Str
prompt_prefix profile = elim profile.fingerprint [
  | none ↦ none
  | some fp ↦ elim fp.system_prompt_prefix [
    | none ↦ none
    | some p ↦ if is_empty p then none else some p
  ]
]

unfoldable pub prefixed : Str → Str → Str
prefixed prefix text = if starts_with text prefix then text else prefix ++ text

-- The first system item with the prefix, unless there is no system item.
unfoldable pub prefix_first : Str → List IrItem → Option (List IrItem)
prefix_first prefix [] = none
prefix_first prefix (system text breakpoint parts ∷ items) =
    some (system (prefixed prefix text) breakpoint parts ∷ items)
prefix_first prefix (item ∷ items) = elim (prefix_first prefix items) [
  | none ↦ none
  | some rest ↦ some (item ∷ rest)
]

unfoldable pub prefix_items : Str → List IrItem → List IrItem
prefix_items prefix items = elim (prefix_first prefix items) [
  | some items' ↦ items'
  | none ↦ system prefix none [] ∷ items
]

unfoldable pub apply_system_prefix : IrRequest → ResolvedProfile → IrRequest
apply_system_prefix ir profile = elim (prompt_prefix profile) [
  | none ↦ ir
  | some p ↦ record ir { items = prefix_items p ir.items }
]

pub strip_detail : Str
strip_detail = str "forbidden_body_fields strip"

-- The store flag that the fingerprint forbids.
forbid_store :
    IrRequest → ForbiddenFieldPolicy → LossReport → Result MapError (IrRequest × LossReport)
forbid_store ir hard_error report =
    err (hard (str "sampling.store") (str "forbidden body field `store`"))
forbid_store ir strip report = ok (
  record ir { sampling = record ir.sampling { store = none } },
  note report (str "sampling.store") drop strip_detail,
)

unfoldable pub strip_or_refuse_store :
    IrRequest → ResolvedProfile → LossReport → Result MapError (IrRequest × LossReport)
unfolding forbid_store
strip_or_refuse_store ir profile report = elim profile.fingerprint [
  | none ↦ ok (ir, report)
  | some fp ↦
      if is_none ir.sampling.store
      then ok (ir, report)
      else if contains fp.forbidden_body_fields (str "store")
      then forbid_store ir fp.forbidden_field_policy report
      else ok (ir, report)
]

unfoldable pub insert_all : StrMap Value → Fields → Fields
insert_all [] obj = obj
insert_all ((k, v) ∷ extra) obj = insert_all extra (insert k v obj)

unfoldable pub merge_extra_body : Value → ResolvedProfile → Value
merge_extra_body (object obj) profile = elim profile.fingerprint [
  | none ↦ object obj
  | some fp ↦ object (insert_all fp.extra_body obj)
]
merge_extra_body body profile = body

pub forbidden_detail : Str → Str
forbidden_detail key = str "forbidden body field `" ++ (key ++ str "`")

-- The loop over the forbidden keys.
unfoldable pub forbid :
    List Str → ForbiddenFieldPolicy → Fields → LossReport → Result MapError (Fields × LossReport)
forbid [] policy obj report = ok (obj, report)
forbid (key ∷ keys) hard_error obj report =
    if contains_key key obj
    then err (hard key (forbidden_detail key))
    else forbid keys hard_error obj report
forbid (key ∷ keys) strip obj report =
    if contains_key key obj
    then forbid keys strip (remove key obj) (note report key drop strip_detail)
    else forbid keys strip obj report

-- An object that the loop leaves, in place of the body.
pub as_body : Result MapError (Fields × LossReport) → Result MapError (Value × LossReport)
as_body (ok (obj, report)) = ok (object obj, report)
as_body (err e) = err e

unfoldable pub apply_forbidden_fields :
    Value → ResolvedProfile → LossReport → Result MapError (Value × LossReport)
unfolding as_body
apply_forbidden_fields (object obj) profile report = elim profile.fingerprint [
  | none ↦ ok (object obj, report)
  | some fp ↦ as_body (forbid fp.forbidden_body_fields fp.forbidden_field_policy obj report)
]
apply_forbidden_fields body profile report = ok (body, report)

infixl 5 ◌>>=◌
abbrev pub ◌>>=◌ {ℓ κ} :
    {A : Type ℓ} {B : Type κ} → Result MapError A → (A → Result MapError B) → Result MapError B
ok a >>= f = f a
err e >>= f = err e

-- `encode`, with the wire's own part (`prepare_tools` and the `encode` of its module) as `body_of`.
unfoldable pub encode :
    Serde
    → (Wire → IrRequest → ResolvedProfile → LossReport → Result MapError (Value × LossReport))
    → Wire
    → IrRequest
    → ResolvedProfile
    → Result MapError (Bytes × LossReport)
encode serde body_of wire ir profile = do
  (ir', report) ← strip_or_refuse_store (apply_system_prefix ir profile) profile no_loss
  (body, report') ← body_of wire ir' profile report
  (body', report'') ← apply_forbidden_fields (merge_extra_body body profile) profile report'
  ok (serde.to_string body', report'')
