-- ===== src/Map/Policy/Laws.antt =====
-- crates/wiremux/src/map/mod.rs: what the policies promise of an encoded request.
use wiremux.Prelude.{
  Bool, true, false, ◌&&◌, List, [], ◌∷◌, ◌++◌, Option, none, some, if◌then◌else◌, ◌≡◌, refl, sym,
  ◌∙◌, Bool-cases, Option-cases, inl, inr, arith, append-nil, append_assoc,
}
use wiremux.Prelude.Results.{Result, ok, err}
use wiremux.Prelude.Text.{Str, str_eq, str_eq_iff}
use wiremux.Json.{
  Value, null, bool, number, string, array, object, Fields, remove, contains_key, lookup,
  lookup-remove, get,
}
use wiremux.Ir.Loss.{LossReport, LossEvent, note, drop}
use wiremux.Profile.Types.{ResolvedProfile, ForbiddenFieldPolicy, hard_error, strip}
use wiremux.Profile.Overlay.{contains}
use wiremux.Map.Error.{MapError, hard}
use wiremux.Map.Policy.{strip_detail, forbid, apply_forbidden_fields, forbidden_detail, as_body}

-- The keys of a profile that no body may hold.
unfoldable pub forbidden_keys : ResolvedProfile → List Str
forbidden_keys p = elim p.fingerprint [ none ↦ [] | some fp ↦ fp.forbidden_body_fields ]

-- Whether a key is among the paths of a list of events.
unfoldable pub reported : List LossEvent → Str → Bool
reported [] k = false
reported (e ∷ es) k = if str_eq e.path k then true else reported es k

-- What the strip leaves of an object: the fields under the keys that are not forbidden. It adds
-- to the report one event for each key that was there, and none for another key.
unfoldable pub IsStripped : List Str → Fields → LossReport → Fields → LossReport → Type 0
IsStripped keys obj r out s =
    ((k : Str) → lookup k out ≡ (if contains keys k then none else lookup k obj))
    × (es : List LossEvent) × (s.events ≡ r.events ++ es)
    × ((k : Str) → reported es k ≡ contains keys k && contains_key k obj)

IsStripped-absent :
    (key : Str) (keys : List Str) (obj out : Fields) (r s : LossReport)
    → contains_key key obj ≡ false
    → IsStripped keys obj r out s
    → IsStripped (key ∷ keys) obj r out s
unfolding IsStripped contains contains_key
IsStripped-absent key keys obj out r s h (f, es, q, g) = (
  (λ k. ground (arith, f k, str_eq_iff key k)),
  es,
  q,
  (λ k. ground (arith, g k, str_eq_iff key k)),
)

IsStripped-present :
    (key : Str) (keys : List Str) (obj out : Fields) (r s : LossReport)
    → contains_key key obj ≡ true
    → IsStripped keys (remove key obj) (note r key drop strip_detail) out s
    → IsStripped (key ∷ keys) obj r out s
unfolding IsStripped contains contains_key note reported
IsStripped-present key keys obj out r s h (f, es, q, g) = (
  (λ k. ground (arith, f k, lookup-remove key k obj, str_eq_iff key k)),
  record { path = key; action = drop; detail = strip_detail } ∷ es,
  q ∙ append_assoc r.events (record { path = key; action = drop; detail = strip_detail } ∷ []) es,
  (λ k. ground (arith, g k, lookup-remove key k obj, str_eq_iff key k)),
)

-- The strip always ends with an object. Its fields are those of the body under the keys that are not
-- forbidden, and the report has an event for each forbidden key that the body held, and no other new one.
pub forbid-strip :
    (keys : List Str) (obj : Fields) (r : LossReport)
    → (out : Fields) × (s : LossReport) × (forbid keys strip obj r ≡ ok (out, s))
      × IsStripped keys obj r out s
unfolding forbid IsStripped contains reported
forbid-strip [] obj r = (obj, r, refl, ((λ k. refl), [], sym (append-nil r.events), (λ k. refl)))
forbid-strip (key ∷ keys) obj r = elim (Bool-cases (contains_key key obj)) [
  | inl h ↦
      let (out, s, q, w) = forbid-strip keys (remove key obj) (note r key drop strip_detail) in
      (out, s, rw h q, IsStripped-present key keys obj out r s h w)
  | inr h ↦
      let (out, s, q, w) = forbid-strip keys obj r in
      (out, s, rw h q, IsStripped-absent key keys obj out r s h w)
]

-- The first forbidden key that an object holds.
unfoldable pub first_held : List Str → Fields → Option Str
first_held [] obj = none
first_held (key ∷ keys) obj = if contains_key key obj then some key else first_held keys obj

-- The refusal: it lets an object through as it is, or names the first forbidden key that it holds.
pub forbid-hard :
    (keys : List Str) (obj : Fields) (r : LossReport)
    → forbid keys hard_error obj r ≡ elim (first_held keys obj) [
      | none ↦ ok (obj, r)
      | some k ↦ err (hard k (forbidden_detail k))
    ]
unfolding forbid first_held
forbid-hard [] obj r = refl
forbid-hard (key ∷ keys) obj r = ground (arith, forbid-hard keys obj r)

first_held-none :
    (k : Str) (keys : List Str) (obj : Fields)
    → first_held keys obj ≡ none
    → contains keys k ≡ true
    → lookup k obj ≡ none
unfolding first_held contains contains_key
first_held-none k [] obj h c = ground arith
first_held-none k (key ∷ keys) obj h c =
    ground (arith, first_held-none k keys obj, str_eq_iff key k)

-- No field under a forbidden key.
unfoldable pub IsAllowed : List Str → Value → Type 0
IsAllowed keys body = (k : Str) → contains keys k ≡ true → get k body ≡ none

strip-IsAllowed :
    (keys : List Str) (obj : Fields) (r : LossReport) (out : Fields) (s : LossReport)
    → forbid keys strip obj r ≡ ok (out, s)
    → IsAllowed keys (object out)
unfolding IsAllowed get IsStripped
strip-IsAllowed keys obj r out s h k c =
    let (out', s', q, (f, _, _, _)) = forbid-strip keys obj r in ground (arith, f k)

hard-IsAllowed :
    (keys : List Str) (obj : Fields) (r : LossReport) (out : Fields) (s : LossReport)
    → forbid keys hard_error obj r ≡ ok (out, s)
    → IsAllowed keys (object out)
unfolding IsAllowed get
hard-IsAllowed keys obj r out s h k c =
    ground (arith, forbid-hard keys obj r, first_held-none k keys obj)

forbid-IsAllowed :
    (keys : List Str) (policy : ForbiddenFieldPolicy) (obj : Fields) (r : LossReport) (out : Fields)
    (s : LossReport)
    → forbid keys policy obj r ≡ ok (out, s)
    → IsAllowed keys (object out)
forbid-IsAllowed keys strip obj r out s h = strip-IsAllowed keys obj r out s h
forbid-IsAllowed keys hard_error obj r out s h = hard-IsAllowed keys obj r out s h

-- The value of a success.
unfoldable pub Holds : (Value → Type 0) → Result MapError (Value × LossReport) → Type 0
Holds P (ok (v, s)) = P v
Holds P (err e) = Unit

Holds-as_body :
    (P : Value → Type 0) (x : Result MapError (Fields × LossReport))
    → ((out : Fields) (s : LossReport) → x ≡ ok (out, s) → P (object out))
    → Holds P (as_body x)
unfolding as_body Holds
Holds-as_body P (ok (out, s)) h = h out s refl
Holds-as_body P (err e) h = tt

none-IsAllowed : (v : Value) → IsAllowed [] v
unfolding IsAllowed contains
none-IsAllowed v k c = ground arith

pub apply_forbidden_fields-Holds :
    (body : Value) (p : ResolvedProfile) (r : LossReport)
    → Holds (IsAllowed (forbidden_keys p)) (apply_forbidden_fields body p r)
unfolding apply_forbidden_fields Holds forbidden_keys IsAllowed get
apply_forbidden_fields-Holds (object obj) p r = elim (Option-cases p.fingerprint) [
  | inl e ↦ rw e (none-IsAllowed (object obj))
  | inr (fp, e) ↦ rw e (
      Holds-as_body (IsAllowed fp.forbidden_body_fields)
        (forbid fp.forbidden_body_fields fp.forbidden_field_policy obj r)
        (λ out s h.
          forbid-IsAllowed fp.forbidden_body_fields fp.forbidden_field_policy obj r out s h))
]
apply_forbidden_fields-Holds null p r = λ k c. refl
apply_forbidden_fields-Holds (bool b) p r = λ k c. refl
apply_forbidden_fields-Holds (number n) p r = λ k c. refl
apply_forbidden_fields-Holds (string t) p r = λ k c. refl
apply_forbidden_fields-Holds (array vs) p r = λ k c. refl
