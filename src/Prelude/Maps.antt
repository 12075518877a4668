-- ===== src/Prelude/Maps.antt =====
-- `BTreeMap<String, V>` as the list of its entries in the order of the keys.
use mathlib.Core.Path.{◌≡◌, refl}
use mathlib.Core.List.{List, [], ◌∷◌}
use mathlib.Core.Option.{Option, none, some}
use native.Mathlib.Omega.{arith}
use wiremux.Prelude.Tests.{if◌then◌else◌}
use wiremux.Prelude.Text.{Str, str_eq, str_eq_iff, str_lt}

abbrev pub StrMap {ℓ} : Type ℓ → Type ℓ
StrMap V = List (Str × V)

module _ {ℓ} {V : Type ℓ} where
  -- `BTreeMap::get`.
  unfoldable pub find : Str → StrMap V → Option V
  find k [] = none
  find k ((j, v) ∷ m) = if str_eq j k then some v else find k m

  -- `BTreeMap::insert`.
  unfoldable pub put : Str → V → StrMap V → StrMap V
  put k v [] = (k, v) ∷ []
  put k v ((j, w) ∷ m) =
      if str_eq j k
      then (k, v) ∷ m
      else if str_lt k j
      then (k, v) ∷ (j, w) ∷ m
      else (j, w) ∷ put k v m

  -- `BTreeMap::extend`.
  unfoldable pub extend : StrMap V → StrMap V → StrMap V
  extend a [] = a
  extend a ((k, v) ∷ b) = extend (put k v a) b

  pub find-put :
      (k j : Str) (v : V) (m : StrMap V)
      → find j (put k v m) ≡ (if str_eq k j then some v else find j m)
  unfolding find put
  find-put k j v [] = refl
  find-put k j v ((i, w) ∷ m) =
      ground (arith, str_eq_iff i k, str_eq_iff i j, str_eq_iff k j, find-put k j v m)

  -- The last entry of a key, as `extend` leaves it.
  unfoldable pub find_last : Str → StrMap V → Option V
  find_last k [] = none
  find_last k ((j, v) ∷ m) = elim (find_last k m) [
    | some w ↦ some w
    | none ↦ (if str_eq j k then some v else none)
  ]

  pub find-extend :
      (k : Str) (a b : StrMap V)
      → find k (extend a b) ≡ elim (find_last k b) [ some v ↦ some v | none ↦ find k a ]
  unfolding extend find_last
  find-extend k a [] = refl
  find-extend k a ((j, v) ∷ b) = ground (arith, find-extend k (put j v a) b, find-put j k v a)
