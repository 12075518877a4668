-- ===== src/Map/Tools/Names.antt =====
-- crates/wiremux/src/map/tools.rs: the dotted names of a namespace's tools.
use wiremux.Prelude.{
  false, ◌&&◌, ◌||◌, ◌==◌, [], ◌∷◌, ◌++◌, Option, none, some, if◌then◌else◌, is_empty, is_some, not,
  any, ◌≡◌, refl, Bool-cases, inl, inr, arith,
}
use wiremux.Prelude.Text.{Str, str, split_once, strip_prefix}
use wiremux.Json.{Value, get, as_str}
use wiremux.Stream.Fields.{bind_option}
use wiremux.Map.Tools.{text_at}

both_given : Option (Str × Str) → Option (Str × Str)
both_given none = none
both_given (some (ns, leaf)) = if is_empty ns || is_empty leaf then none else some (ns, leaf)

unfoldable pub split_namespace_name : Str → Option (Str × Str)
unfolding both_given
split_namespace_name name = both_given (split_once 46 name)

qualified : Option Str → Str → Str
qualified none name = name
qualified (some ns) name =
    if not (is_empty ns) && not (is_some (strip_prefix (ns ++ str ".") name))
    then ns ++ (str "." ++ name)
    else name

unfoldable pub qualify_call_name : Value → Str
unfolding qualified
qualify_call_name item =
    qualified (bind_option (get (str "namespace") item) as_str) (text_at (str "name") item)

split_once-dot :
    (ns leaf : Str)
    → any (λ c. c == 46) ns ≡ false
    → split_once 46 (ns ++ (str "." ++ leaf)) ≡ some (ns, leaf)
unfolding split_once
split_once-dot [] leaf h = refl
split_once-dot (c ∷ cs) leaf h = elim (Bool-cases (c == 46)) [
  | inl d ↦ ground arith
  | inr d ↦ rw (d, split_once-dot cs leaf (ground arith)) refl
]

split_namespace_name-dot :
    (ns leaf : Str)
    → any (λ c. c == 46) ns ≡ false
    → is_empty ns ≡ false
    → is_empty leaf ≡ false
    → split_namespace_name (ns ++ (str "." ++ leaf)) ≡ some (ns, leaf)
unfolding split_namespace_name both_given
split_namespace_name-dot ns leaf d n l = rw (split_once-dot ns leaf d, n, l) refl

-- The name that a call with a namespace is given is split into the namespace and the call's own name
-- again, when neither is empty, the namespace has no dot and the name is not qualified already.
pub split_namespace_name-qualify_call_name :
    (item : Value) (ns leaf : Str)
    → bind_option (get (str "namespace") item) as_str ≡ some ns
    → text_at (str "name") item ≡ leaf
    → any (λ c. c == 46) ns ≡ false
    → is_empty ns ≡ false
    → is_empty leaf ≡ false
    → is_some (strip_prefix (ns ++ str ".") leaf) ≡ false
    → split_namespace_name (qualify_call_name item) ≡ some (ns, leaf)
unfolding qualify_call_name qualified
split_namespace_name-qualify_call_name item ns leaf a b d n l p =
    rw (a, b, n, p) (split_namespace_name-dot ns leaf d n l)
