-- ===== src/Profile/Resolve/Checks.antt =====
-- crates/wiremux-auth/src/profile/parse.rs: which layers resolve, and what a resolved profile holds.
use wiremux.Prelude.{
  ℕ, Bool, true, false, not, ◌||◌, ◌&&◌, List, [], ◌∷◌, Option, none, some, ◌≡◌, refl, ap, sym, ◌∙◌,
  ◌⊎◌, inl, inr, Bool-cases, arith, is_none, is_some, is_empty, all, ltb,
}
use wiremux.Prelude.Results.{Result, ok, err}
use wiremux.Prelude.Text.{Str}
use wiremux.Profile.Types.{
  Wire, ListMerge, schema_version_max, ResolvedProfile, Betas, OauthPack, default_betas,
  default_auth_scheme, default_chat_path,
}
use wiremux.Profile.Error.{ProfileError}
use wiremux.Profile.Raw.{
  RawProfile, RawOauth, RawAccessEnv, one, many, RawBetasField, list, table, empty_layer,
}
use wiremux.Profile.Overlay.{merge, betas_parts, rebuild_betas, or}
use wiremux.Profile.Overlay.Laws.{merge-empty_left, merge-empty_right, table_form}
use wiremux.Profile.Resolve.{
  resolve, resolve_betas, resolve_access_env, drop_empty, resolve_oauth, resolve_oauth?,
  resolve_version, resolve_id, resolved, oauth_pack, positive, non_empty, option_map, unwrap_or,
  table_betas, effective_chat_path, wire_path,
}

-- What the checks require of a layer.
unfoldable pub accepts_version : Option ℕ → Bool
accepts_version none = false
accepts_version (some v) = not (ltb schema_version_max v)

unfoldable pub accepts_text : Option Str → Bool
accepts_text none = false
accepts_text (some x) = not (is_empty x)

unfoldable pub accepts_oauth : Option RawOauth → Bool
accepts_oauth none = true
accepts_oauth (some o) = accepts_text o.token_url

unfoldable pub is_ok {ℓ κ} : {E : Type ℓ} {A : Type κ} → Result E A → Bool
is_ok (ok a) = true
is_ok (err e) = false

version-is_ok : (v : Option ℕ) → is_ok (resolve_version v) ≡ accepts_version v
unfolding resolve_version accepts_version is_ok
version-is_ok none = refl
version-is_ok (some v) = ground arith

id-is_ok : (v : Option Str) → is_ok (resolve_id v) ≡ accepts_text v
unfolding resolve_id accepts_text is_ok
id-is_ok none = refl
id-is_ok (some v) = ground arith

oauth-is_ok : (o : Option RawOauth) → is_ok (resolve_oauth? o) ≡ accepts_oauth o
unfolding resolve_oauth? resolve_oauth accepts_oauth accepts_text is_ok
oauth-is_ok none = refl
oauth-is_ok (some o) = ground arith

-- A layer resolves exactly when its schema version is known, its id is a non-empty text and its
-- OAuth pack, if any, has a token URL that is not empty.
pub resolve-is_ok :
    (raw : RawProfile)
    → is_ok (resolve raw)
      ≡ accepts_version raw.schema_version && (accepts_text raw.id && accepts_oauth raw.oauth)
unfolding resolve is_ok
resolve-is_ok raw =
    ground (arith, version-is_ok raw.schema_version, id-is_ok raw.id, oauth-is_ok raw.oauth)

betas-table_form :
    (f : Option RawBetasField) (h : Option Str) (m : Option ListMerge) (b : Betas)
    → resolve_betas (table_form f) h m b ≡ resolve_betas f h m b
unfolding resolve_betas table_form betas_parts rebuild_betas table_betas unwrap_or
betas-table_form none h m b = refl
betas-table_form (some (list v)) h m b = refl
betas-table_form (some (table t)) h m b = ground arith

resolved-table_form :
    (p : RawProfile) (v : ℕ) (id : Str) (o : Option OauthPack)
    → resolved (record p { betas = table_form p.betas }) v id o ≡ resolved p v id o
unfolding resolved effective_chat_path wire_path
resolved-table_form p v id o =
    rw (betas-table_form p.betas p.beta_header p.beta_merge (default_betas p.wire (is_some o))) refl

resolve-table_form :
    (p : RawProfile) → resolve (record p { betas = table_form p.betas }) ≡ resolve p
unfolding resolve
resolve-table_form p = simp resolved-table_form

-- An empty layer, under a layer or over it, does not change what the layer resolves to.
pub resolve-merge_empty :
    (p : RawProfile)
    → (resolve (merge p empty_layer) ≡ resolve p) × (resolve (merge empty_layer p) ≡ resolve p)
resolve-merge_empty p = (
  (rw (merge-empty_right p) (resolve-table_form p)),
  (rw (merge-empty_left p) (resolve-table_form p)),
)

no_empty : List Str → Bool
no_empty xs = all (λ x. not (is_empty x)) xs

drop_empty-no_empty : (xs : List Str) → no_empty (drop_empty xs) ≡ true
unfolding drop_empty no_empty
drop_empty-no_empty [] = refl
drop_empty-no_empty (x ∷ xs) = elim (Bool-cases (is_empty x)) [
  | inl e ↦ rw e (drop_empty-no_empty xs)
  | inr e ↦ rw e (simp e (drop_empty-no_empty xs))
]

access_env-no_empty : (o : Option RawAccessEnv) → no_empty (resolve_access_env o) ≡ true
unfolding resolve_access_env no_empty
access_env-no_empty none = refl
access_env-no_empty (some (one name)) = ground arith
access_env-no_empty (some (many names)) = drop_empty-no_empty names

text_or_none : Option Str → Bool
text_or_none none = true
text_or_none (some x) = not (is_empty x)

non_empty-text_or_none : (o : Option Str) → text_or_none (non_empty o) ≡ true
unfolding text_or_none non_empty
non_empty-text_or_none none = refl
non_empty-text_or_none (some x) = ground arith

positive_or_none : Option ℕ → Bool
positive_or_none none = true
positive_or_none (some n) = ltb 0 n

positive-positive_or_none : (o : Option ℕ) → positive_or_none (positive o) ≡ true
unfolding positive positive_or_none
positive-positive_or_none none = refl
positive-positive_or_none (some n) = ground arith

oauth_or_none : Option OauthPack → Bool
oauth_or_none none = true
oauth_or_none (some o) = not (is_empty o.token_url)

-- What the code that uses a profile relies on.
unfoldable pub is_resolved : ResolvedProfile → Bool
unfolding no_empty text_or_none positive_or_none oauth_or_none
is_resolved p =
    not (ltb schema_version_max p.schema_version)
    && (not (is_empty p.id)
        && (oauth_or_none p.oauth
            && (no_empty p.access_env
                && (text_or_none p.http.aws_service
                    && (text_or_none p.http.aws_region
                        && (text_or_none p.http.gcp_key_env
                            && (positive_or_none p.http.read_timeout_secs
                                && (is_none p.dialect.wire
                                    || (is_some p.http.chat_path
                                        && is_some p.http.auth_scheme)))))))))

wire_has_defaults {ℓ κ} :
    {A : Type ℓ} {B : Type κ} (w : Option Wire) (x : Option A) (y : Option B) (f : Wire → A)
    (g : Wire → B)
    → (is_none w || (is_some (or x (option_map f w)) && is_some (or y (option_map g w)))) ≡ true
unfolding option_map
wire_has_defaults none x y f g = refl
wire_has_defaults (some w) none none f g = refl
wire_has_defaults (some w) none (some y) f g = refl
wire_has_defaults (some w) (some x) none f g = refl
wire_has_defaults (some w) (some x) (some y) f g = refl

-- The parts of `is_resolved` that a resolved layer has whatever the checks say.
resolved-is_resolved :
    (raw : RawProfile) (v : ℕ) (id : Str) (o : Option OauthPack)
    → ltb schema_version_max v ≡ false
    → is_empty id ≡ false
    → oauth_or_none o ≡ true
    → is_resolved (resolved raw v id o) ≡ true
unfolding is_resolved resolved
resolved-is_resolved raw v id o h k l =
    simp
      (
        h,
        k,
        l,
        access_env-no_empty raw.access_env,
        non_empty-text_or_none raw.aws_service,
        non_empty-text_or_none raw.aws_region,
        non_empty-text_or_none raw.gcp_key_env,
        positive-positive_or_none raw.read_timeout_secs,
      )
      (wire_has_defaults raw.wire (effective_chat_path raw) raw.auth_scheme default_chat_path
        default_auth_scheme)

holds : Result ProfileError ResolvedProfile → Bool
holds (ok p) = is_resolved p
holds (err e) = true

oauth-oauth_or_none :
    (o : Option RawOauth) (p : Option OauthPack) → resolve_oauth? o ≡ ok p → oauth_or_none p ≡ true
unfolding resolve_oauth? resolve_oauth oauth_or_none oauth_pack
oauth-oauth_or_none o p h = ground arith

version-bound : (o : Option ℕ) (v : ℕ) → resolve_version o ≡ ok v → ltb schema_version_max v ≡ false
unfolding resolve_version
version-bound o v h = ground arith

id-non_empty : (o : Option Str) (v : Str) → resolve_id o ≡ ok v → is_empty v ≡ false
unfolding resolve_id
id-non_empty o v h = ground arith

Result-cases {ℓ κ} :
    {E : Type ℓ} {A : Type κ} (r : Result E A) → ((a : A) × (r ≡ ok a)) ⊎ ((e : E) × (r ≡ err e))
Result-cases (ok a) = inl (a, refl)
Result-cases (err e) = inr (e, refl)

resolve-holds : (raw : RawProfile) → holds (resolve raw) ≡ true
unfolding resolve holds
resolve-holds raw = elim (Result-cases (resolve_version raw.schema_version)) [
  | inr (e, h) ↦ rw h refl
  | inl (v, h) ↦ elim (Result-cases (resolve_id raw.id)) [
    | inr (e, k) ↦ rw (h, k) refl
    | inl (id, k) ↦ elim (Result-cases (resolve_oauth? raw.oauth)) [
      | inr (e, l) ↦ rw (h, k, l) refl
      | inl (o, l) ↦
          rw (h, k, l)
            (resolved-is_resolved raw v id o (version-bound raw.schema_version v h)
              (id-non_empty raw.id id k) (oauth-oauth_or_none raw.oauth o l))
    ]
  ]
]

-- A layer that resolves gives a profile whose schema version is known, whose id, token URL,
-- AWS service, AWS region, key variable and access variables are not empty where they are there,
-- whose read timeout is not 0, and which has a chat path and an auth scheme if it has a wire.
pub resolve-is_resolved :
    (raw : RawProfile) (p : ResolvedProfile) → resolve raw ≡ ok p → is_resolved p ≡ true
unfolding holds
resolve-is_resolved raw p h = sym (ap holds h) ∙ resolve-holds raw

-- A layer with a known version, an id and no OAuth pack resolves, to the profile of its fields.
pub resolve-resolved :
    (raw : RawProfile) (v : ℕ) (id : Str)
    → raw.schema_version ≡ some v
    → ltb schema_version_max v ≡ false
    → raw.id ≡ some id
    → is_empty id ≡ false
    → raw.oauth ≡ none
    → resolve raw ≡ ok (resolved raw v id none)
unfolding resolve resolve_version resolve_id resolve_oauth?
resolve-resolved raw v id h k l m n = rw (h, k, l, m, n) refl
