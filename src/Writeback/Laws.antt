-- ===== src/Writeback/Laws.antt =====
-- crates/wiremux-auth/src/writeback.rs: what a write through a pointer leaves.
use wiremux.Prelude.{
  Bool-cases, inl, inr, ◌==◌, ℕ, false, List, [], ◌∷◌, Option, none, some, ◌≡◌, refl, arith, ◌-◌,
}
use wiremux.Prelude.Text.{Str, str_eq, str_eq_refl}
use wiremux.Json.{
  Value, object, array, string, number, bool, null, Items, nil, cons, Fields, insert, lookup,
  lookup-insert,
}
use wiremux.Writeback.{
  AuthError, split_at_byte, tokens_of, get_item, set_item, step_into, get_at, pointer_get, entered,
  Slot, slot, no_slot, find_slot, set_at, pointer_set,
}

get_item-set_item :
    (i : ℕ) (w v : Value) (vs : Items)
    → get_item i vs ≡ some v
    → get_item i (set_item i w vs) ≡ some w
unfolding get_item set_item
get_item-set_item i w v nil h = ground arith
get_item-set_item i w v (cons u vs) h = ground (arith, get_item-set_item (i - 1) w v vs)

step_into-insert :
    (t : Str) (v : Value) (map : Fields) → step_into t (object (insert t v map)) ≡ some v
unfolding step_into
step_into-insert t v map = ground (arith, lookup-insert t t v map, str_eq_refl t)

step_into-set_item :
    (t : Str) (w v : Value) (i : ℕ) (vs : Items)
    → find_slot t vs ≡ slot i v
    → step_into t (array (set_item i w vs)) ≡ some w
unfolding step_into find_slot
step_into-set_item t w v i vs h = ground (arith, get_item-set_item i w v vs)

get_at-step :
    (t : Str) (ts : List Str) (doc child : Value) (v : Option Value)
    → step_into t doc ≡ some child
    → get_at ts child ≡ v
    → get_at (t ∷ ts) doc ≡ v
unfolding get_at
get_at-step t ts doc child v h k = ground arith

at_last : Value → Items → Slot → Value × Option AuthError
at_last value arr s = elim s [
  | no_slot e ↦ (array arr, some e)
  | slot i v ↦ (array (set_item i value arr), none)
]

at_inner : List Str → Value → Items → Slot → Value × Option AuthError
at_inner ts value arr s = elim s [
  | no_slot e ↦ (array arr, some e)
  | slot i v ↦ (array (set_item i (set_at ts value v).0 arr), (set_at ts value v).1)
]

array_last :
    (t : Str) (value : Value) (arr : Items) (s : Slot)
    → find_slot t arr ≡ s
    → (at_last value arr s).1 ≡ none
    → get_at (t ∷ []) (at_last value arr s).0 ≡ some value
unfolding at_last
array_last t value arr (no_slot e) q h = ground arith
array_last t value arr (slot i v) q h =
    get_at-step t [] (array (set_item i value arr)) value (some value)
      (step_into-set_item t value v i arr q) (unfold get_at in refl)

array_inner :
    (t : Str) (ts : List Str) (value : Value) (arr : Items) (s : Slot)
    → find_slot t arr ≡ s
    → ((v : Value) → (set_at ts value v).1 ≡ none → get_at ts (set_at ts value v).0 ≡ some value)
    → (at_inner ts value arr s).1 ≡ none
    → get_at (t ∷ ts) (at_inner ts value arr s).0 ≡ some value
unfolding at_inner
array_inner t ts value arr (no_slot e) q ih h = ground arith
array_inner t ts value arr (slot i v) q ih h =
    get_at-step t ts (array (set_item i (set_at ts value v).0 arr)) (set_at ts value v).0
      (some value) (step_into-set_item t (set_at ts value v).0 v i arr q) (ih v h)

-- Behind a write that is not refused, the tokens lead to the value.
get_at-set_at :
    (ts : List Str) (value doc : Value)
    → (set_at ts value doc).1 ≡ none
    → get_at ts (set_at ts value doc).0 ≡ some value
unfolding set_at get_at at_last at_inner
get_at-set_at [] value doc h = ground arith
get_at-set_at (t ∷ []) value (object map) h =
    get_at-step t [] (object (insert t value map)) value (some value) (step_into-insert t value map)
      refl
get_at-set_at (t ∷ []) value (array arr) h = array_last t value arr (find_slot t arr) refl h
get_at-set_at (t ∷ u ∷ ts) value (object map) h =
    get_at-step t (u ∷ ts)
      (object (insert t (set_at (u ∷ ts) value (entered (lookup t map))).0 map))
      (set_at (u ∷ ts) value (entered (lookup t map))).0 (some value)
      (step_into-insert t (set_at (u ∷ ts) value (entered (lookup t map))).0 map)
      (get_at-set_at (u ∷ ts) value (entered (lookup t map)) h)
get_at-set_at (t ∷ u ∷ ts) value (array arr) h =
    array_inner t (u ∷ ts) value arr (find_slot t arr) refl
      (λ v k. get_at-set_at (u ∷ ts) value v k) h
get_at-set_at (t ∷ []) value null h = ground arith
get_at-set_at (t ∷ u ∷ ts) value null h = ground arith
get_at-set_at (t ∷ []) value (bool b) h = ground arith
get_at-set_at (t ∷ u ∷ ts) value (bool b) h = ground arith
get_at-set_at (t ∷ []) value (number n) h = ground arith
get_at-set_at (t ∷ u ∷ ts) value (number n) h = ground arith
get_at-set_at (t ∷ []) value (string x) h = ground arith
get_at-set_at (t ∷ u ∷ ts) value (string x) h = ground arith

-- A write that is not refused is read back: the pointer then leads to the value that was written.
pub pointer_get-pointer_set :
    (doc : Value) (pointer : Str) (value : Value)
    → (pointer_set doc pointer value).1 ≡ none
    → pointer_get (pointer_set doc pointer value).0 pointer ≡ some value
unfolding pointer_set pointer_get
pointer_get-pointer_set doc [] value h = ground arith
pointer_get-pointer_set doc (c ∷ rest) value h =
    ground (arith, get_at-set_at (tokens_of (split_at_byte 47 rest)) value doc)

unfoldable pub head_of : List Str → Str
head_of [] = []
head_of (t ∷ ts) = t

-- What is an object, with a member as it was.
unfoldable pub IsObjectKeeping : Str → Fields → Value → Type 0
IsObjectKeeping k map doc = (out : Fields) × (doc ≡ object out) × (lookup k out ≡ lookup k map)

set_at-IsObjectKeeping :
    (ts : List Str) (value : Value) (map : Fields) (k : Str)
    → str_eq (head_of ts) k ≡ false
    → IsObjectKeeping k map (set_at ts value (object map)).0
unfolding set_at head_of IsObjectKeeping
set_at-IsObjectKeeping [] value map k h = (map, refl, refl)
set_at-IsObjectKeeping (t ∷ []) value map k h =
    (insert t value map, refl, ground (arith, lookup-insert t k value map))
set_at-IsObjectKeeping (t ∷ u ∷ ts) value map k h =
    let child = (set_at (u ∷ ts) value (entered (lookup t map))).0 in
    (insert t child map, refl, ground (arith, lookup-insert t k child map))

-- The member of the root that a pointer goes into.
unfoldable pub first_token : Str → Str
first_token [] = []
first_token (c ∷ rest) = head_of (tokens_of (split_at_byte 47 rest))

-- A write into an object, refused or not, leaves an object, and in it every member but the one that
-- the pointer's first token names is what it was.
pub pointer_set-keeps :
    (map : Fields) (pointer : Str) (value : Value) (k : Str)
    → str_eq (first_token pointer) k ≡ false
    → (out : Fields) × ((pointer_set (object map) pointer value).0 ≡ object out)
      × (lookup k out ≡ lookup k map)
unfolding pointer_set first_token IsObjectKeeping
pointer_set-keeps map [] value k h = (map, refl, refl)
pointer_set-keeps map (c ∷ rest) value k h = elim (Bool-cases (c == 47)) [
  | inl e ↦ rw e (set_at-IsObjectKeeping (tokens_of (split_at_byte 47 rest)) value map k h)
  | inr e ↦ rw e (map, refl, refl)
]
