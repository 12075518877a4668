-- ===== src/Profile/Overlay/Laws.antt =====
-- crates/wiremux-auth/src/profile/overlay.rs: what the merge of two layers keeps of each.
use wiremux.Prelude.{
  ℕ, not, append-nil, append_assoc, Bool, true, false, ◌||◌, ◌&&◌, List, [], ◌∷◌, ◌++◌, Option,
  none, some, if◌then◌else◌, ◌≡◌, refl, sym, ◌∙◌, inl, inr, Bool-cases, arith,
}
use wiremux.Prelude.Text.{Str, str_eq, str_eq_iff}
use wiremux.Prelude.Maps.{StrMap, find, find_last, find-extend}
use wiremux.Profile.Types.{ListMerge, union, or_union}
use wiremux.Profile.Raw.{
  RawProfile, RawOauth, RawFingerprint, RawBetasField, list, table, empty_layer,
}
use wiremux.Profile.Overlay.{
  or, max_version, contains, push_new, merge_list, merge_map, merge_oauth, merge_fingerprint,
  betas_parts, rebuild_betas, merge,
}

contains-append : (x : Str) (a b : List Str) → contains (a ++ b) x ≡ contains a x || contains b x
unfolding contains
contains-append x [] b = refl
contains-append x (y ∷ a) b = ground (arith, contains-append x a b)

contains-singleton : (x y : Str) → contains (x ∷ []) y ≡ str_eq x y
unfolding contains
contains-singleton x y = ground arith

contains-push :
    (x y : Str) (a : List Str)
    → contains (if contains a x then a else a ++ x ∷ []) y ≡ contains a y || str_eq x y
contains-push x y a =
    ground (arith, contains-append y a (x ∷ []), str_eq_iff x y, contains-singleton x y)

-- Membership in the union of two lists: an item is in the result exactly when it is in one of them.
pub contains-push_new :
    (a b : List Str) (y : Str) → contains (push_new a b) y ≡ contains a y || contains b y
unfolding push_new contains
contains-push_new a [] y = ground arith
contains-push_new a (x ∷ b) y =
    ground
      (arith, contains-push_new (if contains a x then a else a ++ x ∷ []) b y, contains-push x y a)

-- No item stands in a list twice.
unfoldable pub unique : List Str → Bool
unique [] = true
unique (x ∷ xs) = not (contains xs x) && unique xs

unique-append : (a : List Str) (x : Str) → unique (a ++ x ∷ []) ≡ unique a && not (contains a x)
unfolding unique contains
unique-append [] x = refl
unique-append (y ∷ a) x = ground (
  arith,
  unique-append a x,
  contains-append y a (x ∷ []),
  contains-singleton x y,
  str_eq_iff x y,
  str_eq_iff y x,
)

unique-push :
    (a : List Str) (x : Str)
    → unique a ≡ true
    → unique (if contains a x then a else a ++ x ∷ []) ≡ true
unique-push a x h = ground (arith, unique-append a x)

-- The union of a list without duplicates with any list has no duplicates.
pub unique-push_new : (a b : List Str) → unique a ≡ true → unique (push_new a b) ≡ true
unfolding push_new
unique-push_new a [] h = h
unique-push_new a (x ∷ b) h =
    unique-push_new (if contains a x then a else a ++ x ∷ []) b (unique-push a x h)

-- The union keeps the earlier list in front, in its order.
pub push_new-prefix : (a b : List Str) → (c : List Str) × (push_new a b ≡ a ++ c)
unfolding push_new
push_new-prefix a [] = ([], sym (append-nil a))
push_new-prefix a (x ∷ b) = elim (Bool-cases (contains a x)) [
  | inl e ↦ rw e (push_new-prefix a b)
  | inr e ↦
      rw e (let (c, q) = push_new-prefix (a ++ x ∷ []) b in (x ∷ c, q ∙ append_assoc a (x ∷ []) c))
]

-- Whether an optional list holds an item.
unfoldable pub listed : Option (List Str) → Str → Bool
listed none y = false
listed (some xs) y = contains xs y

merge_list-union :
    (a b : Option (List Str)) (p : ListMerge)
    → p ≡ union
    → (y : Str) → listed (merge_list a b p) y ≡ listed a y || listed b y
unfolding merge_list listed
merge_list-union none none p h y = refl
merge_list-union none (some b) p h y = refl
merge_list-union (some a) none p h y = ground arith
merge_list-union (some a) (some b) p h y = rw h (contains-push_new a b y)

-- The values of the betas of a layer, however the document spells them.
unfoldable pub beta_values : Option RawBetasField → Option (List Str)
beta_values none = none
beta_values (some (list values)) = some values
beta_values (some (table t)) = t.values

-- The betas that two layers lay over each other, by their values.
beta_values-rebuild :
    (v : Option (List Str)) (h : Option Str) (m : Option ListMerge)
    → beta_values (rebuild_betas v h m) ≡ v
unfolding beta_values rebuild_betas
beta_values-rebuild none h m = ground arith
beta_values-rebuild (some v) h m = refl

or_none {ℓ} : {A : Type ℓ} (o : Option A) → or o none ≡ o
or_none none = refl
or_none (some a) = refl

merge_list-right : (a : Option (List Str)) (p : ListMerge) → merge_list a none p ≡ a
unfolding merge_list
merge_list-right none p = refl
merge_list-right (some a) p = refl

merge_list-left : (a : Option (List Str)) (p : ListMerge) → merge_list none a p ≡ a
unfolding merge_list
merge_list-left none p = refl
merge_list-left (some a) p = refl

merge_map-right : (a : Option (StrMap Str)) (p : ListMerge) → merge_map a none p ≡ a
unfolding merge_map
merge_map-right none p = refl
merge_map-right (some a) p = refl

merge_map-left : (a : Option (StrMap Str)) (p : ListMerge) → merge_map none a p ≡ a
unfolding merge_map
merge_map-left none p = refl
merge_map-left (some a) p = refl

max_version-right : (a : Option ℕ) → max_version a none ≡ a
unfolding max_version
max_version-right none = refl
max_version-right (some a) = refl

max_version-left : (a : Option ℕ) → max_version none a ≡ a
unfolding max_version
max_version-left none = refl
max_version-left (some a) = refl

merge_oauth-right : (a : Option RawOauth) → merge_oauth a none ≡ a
unfolding merge_oauth
merge_oauth-right none = refl
merge_oauth-right (some a) = refl

merge_oauth-left : (a : Option RawOauth) → merge_oauth none a ≡ a
unfolding merge_oauth
merge_oauth-left none = refl
merge_oauth-left (some a) = refl

merge_fingerprint-right : (a : Option RawFingerprint) → merge_fingerprint a none ≡ a
unfolding merge_fingerprint
merge_fingerprint-right none = refl
merge_fingerprint-right (some a) = refl

merge_fingerprint-left : (a : Option RawFingerprint) → merge_fingerprint none a ≡ a
unfolding merge_fingerprint
merge_fingerprint-left none = refl
merge_fingerprint-left (some a) = refl

-- The betas as the merge writes them: a table, unless they say nothing.
unfoldable pub table_form : Option RawBetasField → Option RawBetasField
table_form b = let (v, h, m) = betas_parts b in rebuild_betas v h m

-- An empty layer over a layer changes nothing but the spelling of the betas.
pub merge-empty_right :
    (p : RawProfile) → merge p empty_layer ≡ record p { betas = table_form p.betas }
unfolding merge table_form betas_parts
merge-empty_right p = simp (
  max_version-right, merge_list-right, merge_map-right, merge_oauth-right, merge_fingerprint-right,
)

pub merge-empty_left :
    (p : RawProfile) → merge empty_layer p ≡ record p { betas = table_form p.betas }
unfolding merge table_form betas_parts
merge-empty_left p = simp (
  max_version-left, merge_list-left, merge_map-left, merge_oauth-left, merge_fingerprint-left,
  or_none,
)

or_elim {ℓ} : {A : Type ℓ} (x y : Option A) → elim x [ some v ↦ some v | none ↦ y ] ≡ or x y
or_elim none y = refl
or_elim (some v) y = refl

find-merge_map :
    (a b : StrMap Str) (p : ListMerge)
    → p ≡ union
    → (k : Str)
    → elim (merge_map (some a) (some b) p) [ none ↦ none | some m ↦ find k m ]
      ≡ or (find_last k b) (find k a)
unfolding merge_map
find-merge_map a b p h k = rw (h, find-extend k a b) (or_elim (find_last k b) (find k a))

-- The policy that the merge of two layers applies to the values of their betas.
unfoldable pub betas_policy : RawProfile → RawProfile → ListMerge
unfolding betas_parts
betas_policy a b = or_union (or (betas_parts b.betas).2 (betas_parts a.betas).2)

beta_values-parts : (b : Option RawBetasField) → beta_values b ≡ (betas_parts b).0
unfolding beta_values betas_parts
beta_values-parts none = refl
beta_values-parts (some (list v)) = refl
beta_values-parts (some (table t)) = refl

-- Where the policies in force are the union, the merge of two layers lists exactly the stream
-- events and the betas that one of the layers lists, and a header that both layers' maps may hold has the
-- value of the later map, or else the one of the earlier.
pub merge-union :
    (a b : RawProfile) (hs ks : StrMap Str)
    → or_union (or b.list_merge a.list_merge) ≡ union
    → betas_policy a b ≡ union
    → or_union (or b.header_merge a.header_merge) ≡ union
    → a.headers ≡ some hs
    → b.headers ≡ some ks
    → ((y : Str)
        → listed (merge a b).stream_events y ≡ listed a.stream_events y || listed b.stream_events y)
      × ((y : Str)
          → listed (beta_values (merge a b).betas) y
            ≡ listed (beta_values a.betas) y || listed (beta_values b.betas) y)
      × ((k : Str)
          → elim (merge a b).headers [ none ↦ none | some m ↦ find k m ]
            ≡ or (find_last k ks) (find k hs))
unfolding merge betas_policy
merge-union a b hs ks u v w p q = (
  merge_list-union a.stream_events b.stream_events (or_union (or b.list_merge a.list_merge)) u,
  (λ y.
      rw
        (
          beta_values-rebuild
              (merge_list (betas_parts a.betas).0 (betas_parts b.betas).0 (betas_policy a b))
              (or (betas_parts b.betas).1 (betas_parts a.betas).1)
              (or (betas_parts b.betas).2 (betas_parts a.betas).2),
          beta_values-parts a.betas,
          beta_values-parts b.betas,
        )
        (merge_list-union (betas_parts a.betas).0 (betas_parts b.betas).0 (betas_policy a b) v y)),
  (λ k. rw (p, q) (find-merge_map hs ks (or_union (or b.header_merge a.header_merge)) w k)),
)
