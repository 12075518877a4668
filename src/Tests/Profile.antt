-- ===== src/Tests/Profile.antt =====
-- Layers of a profile to merge and resolve, and the theorems at them.
use wiremux.Prelude.{true, ◌&&◌, ◌||◌, List, [], ◌∷◌, ◌++◌, none, some, ◌≡◌, refl}
use wiremux.Prelude.Text.{Str, str, str_eq}
use wiremux.Prelude.Maps.{StrMap, find, find_last}
use wiremux.Profile.Types.{messages}
use wiremux.Profile.Raw.{RawProfile, many, list, empty_layer}
use wiremux.Profile.Overlay.{or, contains, push_new, merge}
use wiremux.Profile.Overlay.Laws.{
  listed, beta_values, betas_policy, merge-union, unique, unique-push_new, push_new-prefix,
}
use wiremux.Profile.Resolve.{resolve, resolved}
use wiremux.Profile.Resolve.Checks.{
  is_ok, accepts_version, accepts_text, accepts_oauth, resolve-is_ok, resolve-resolved,
  resolve-merge_empty, is_resolved, resolve-is_resolved,
}

abbrev base_headers : StrMap Str
base_headers = (str "x-a", str "1") ∷ []

abbrev user_headers : StrMap Str
user_headers = (str "x-a", str "2") ∷ (str "x-b", str "3") ∷ []

abbrev base : RawProfile
base = record empty_layer {
  schema_version = some 1;
  id = some (str "claude");
  wire = some messages;
  stream_events = some (str "ping" ∷ []);
  headers = some base_headers;
  access_env = some (many ([] ∷ str "KEY" ∷ []));
  betas = some (list (str "b1" ∷ []));
}

abbrev user : RawProfile
user = record empty_layer {
  stream_events = some (str "stop" ∷ str "ping" ∷ []);
  headers = some user_headers;
  betas = some (list (str "b2" ∷ []));
}

merge-union_example :
    ((y : Str)
      → listed (merge base user).stream_events y
        ≡ listed base.stream_events y || listed user.stream_events y)
    × ((y : Str)
        → listed (beta_values (merge base user).betas) y
          ≡ listed (beta_values base.betas) y || listed (beta_values user.betas) y)
    × ((k : Str)
        → elim (merge base user).headers [ none ↦ none | some m ↦ find k m ]
          ≡ or (find_last k user_headers) (find k base_headers))
unfolding betas_policy
merge-union_example = merge-union base user base_headers user_headers refl refl refl refl refl

unique-push_new_example : unique (push_new (str "a" ∷ str "b" ∷ []) (str "b" ∷ str "c" ∷ [])) ≡ true
unfolding unique contains str_eq
unique-push_new_example = unique-push_new (str "a" ∷ str "b" ∷ []) (str "b" ∷ str "c" ∷ []) refl

push_new-prefix_example :
    (c : List Str) × (push_new (str "a" ∷ str "b" ∷ []) (str "b" ∷ str "c" ∷ [])
      ≡ (str "a" ∷ str "b" ∷ []) ++ c)
push_new-prefix_example = push_new-prefix (str "a" ∷ str "b" ∷ []) (str "b" ∷ str "c" ∷ [])

resolve-is_ok_example :
    is_ok (resolve base)
    ≡ accepts_version base.schema_version && (accepts_text base.id && accepts_oauth base.oauth)
resolve-is_ok_example = resolve-is_ok base

resolve-merge_empty_example :
    (resolve (merge base empty_layer) ≡ resolve base)
    × (resolve (merge empty_layer base) ≡ resolve base)
resolve-merge_empty_example = resolve-merge_empty base

resolve-is_resolved_example : is_resolved (resolved base 1 (str "claude") none) ≡ true
resolve-is_resolved_example =
    resolve-is_resolved base (resolved base 1 (str "claude") none)
      (resolve-resolved base 1 (str "claude") refl refl refl refl refl)
