-- ===== src/Map/Policy/Encode.antt =====
-- crates/wiremux/src/map/mod.rs: what `encode` promises, whatever the encoder of the wire does.
use wiremux.Prelude.{true, none, ◌≡◌, refl}
use mathlib.Core.Path.{subst}
use wiremux.Prelude.Results.{Result, ok, err}
use wiremux.Prelude.Text.{Bytes, Str}
use wiremux.Json.{Value, get, Serde}
use wiremux.Ir.{IrRequest}
use wiremux.Ir.Loss.{LossReport, no_loss}
use wiremux.Profile.Types.{Wire, ResolvedProfile}
use wiremux.Profile.Overlay.{contains}
use wiremux.Map.Error.{MapError}
use wiremux.Map.Policy.{
  apply_system_prefix, strip_or_refuse_store, merge_extra_body, apply_forbidden_fields, encode,
  ◌>>=◌,
}
use wiremux.Map.Policy.Laws.{IsAllowed, Holds, forbidden_keys, apply_forbidden_fields-Holds}

Holds-ok :
    (P : Value → Type 0) (x : Result MapError (Value × LossReport)) (v : Value) (s : LossReport)
    → x ≡ ok (v, s)
    → Holds P x
    → P v
unfolding Holds
Holds-ok P x v s h w = subst (Holds P) h w

-- What is true of every success.
AllOk {ℓ κ} : {A : Type ℓ} → (A → Type κ) → Result MapError A → Type κ
AllOk P (ok a) = P a
AllOk P (err e) = Unit

AllOk-bind {ℓ κ ι} :
    {A : Type ℓ} {B : Type κ} (P : B → Type ι) (x : Result MapError A) (f : A → Result MapError B)
    → ((a : A) → x ≡ ok a → AllOk P (f a))
    → AllOk P (x >>= f)
unfolding AllOk
AllOk-bind P (ok a) f h = h a refl
AllOk-bind P (err e) f h = tt

AllOk-ok {ℓ κ} :
    {A : Type ℓ} (P : A → Type κ) (x : Result MapError A) (a : A) → AllOk P x → x ≡ ok a → P a
unfolding AllOk
AllOk-ok P x a h q = subst (AllOk P) q h

IsBodyAllowed : Serde → ResolvedProfile → Bytes × LossReport → Type 0
IsBodyAllowed serde profile (bytes, report) =
    (body : Value) × (bytes ≡ serde.to_string body) × IsAllowed (forbidden_keys profile) body

-- A request that is encoded has a body in which no field stands under a key that the profile
-- forbids: neither what the wire's encoder writes nor the extra body of the profile brings one in.
pub encode-IsAllowed :
    (serde : Serde)
    (body_of : Wire
      → IrRequest
      → ResolvedProfile
      → LossReport
      → Result MapError (Value × LossReport))
    (wire : Wire) (ir : IrRequest) (profile : ResolvedProfile) (bytes : Bytes) (report : LossReport)
    → encode serde body_of wire ir profile ≡ ok (bytes, report)
    → (body : Value) × (bytes ≡ serde.to_string body)
      × ((k : Str) → contains (forbidden_keys profile) k ≡ true → get k body ≡ none)
unfolding encode IsBodyAllowed IsAllowed AllOk
encode-IsAllowed serde body_of wire ir profile bytes report h =
    AllOk-ok (IsBodyAllowed serde profile) (encode serde body_of wire ir profile) (bytes, report)
      (AllOk-bind (IsBodyAllowed serde profile)
        (strip_or_refuse_store (apply_system_prefix ir profile) profile no_loss) _
        (λ (ir', r) p.
          AllOk-bind (IsBodyAllowed serde profile) (body_of wire ir' profile r) _ (λ (v, r') q.
            AllOk-bind (IsBodyAllowed serde profile)
              (apply_forbidden_fields (merge_extra_body v profile) profile r') _
              (λ (v', r'') w. (
                v',
                refl,
                Holds-ok (IsAllowed (forbidden_keys profile))
                    (apply_forbidden_fields (merge_extra_body v profile) profile r') v' r'' w
                    (apply_forbidden_fields-Holds (merge_extra_body v profile) profile r'),
              )))))
      h
