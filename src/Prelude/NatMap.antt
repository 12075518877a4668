-- ===== src/Prelude/NatMap.antt =====
-- `HashMap<u32, V>` and `BTreeMap<u32, V>` as the list of their entries, each key once, and
-- `HashSet<u32>` as the list of its members. Where the source reads
-- their entries in an order, it sorts them by another key that no two entries share.
use Prim.Native.Nat.{ℕ}
use mathlib.Core.Path.{◌≡◌, refl}
use mathlib.Core.Bool.{Bool, true, false}
use mathlib.Core.List.{List, [], ◌∷◌}
use mathlib.Core.Option.{Option, none, some}
use native.Mathlib.Omega.{arith}
use wiremux.Prelude.Tests.{◌==◌, if◌then◌else◌}

abbrev pub NatMap {ℓ} : Type ℓ → Type ℓ
NatMap V = List (ℕ × V)

module _ {ℓ} {V : Type ℓ} where
  unfoldable pub at : ℕ → NatMap V → Option V
  at k [] = none
  at k ((j, v) ∷ m) = if j == k then some v else at k m

  -- A new key goes behind the others.
  unfoldable pub put_at : ℕ → V → NatMap V → NatMap V
  put_at k v [] = (k, v) ∷ []
  put_at k v ((j, w) ∷ m) = if j == k then (k, v) ∷ m else (j, w) ∷ put_at k v m

  unfoldable pub remove_at : ℕ → NatMap V → NatMap V
  remove_at k [] = []
  remove_at k ((j, v) ∷ m) = if j == k then remove_at k m else (j, v) ∷ remove_at k m

  pub at-put_at :
      (k j : ℕ) (v : V) (m : NatMap V) → at j (put_at k v m) ≡ (if k == j then some v else at j m)
  unfolding at put_at
  at-put_at k j v [] = refl
  at-put_at k j v ((i, w) ∷ m) = ground (arith, at-put_at k j v m)

  pub at-remove_at :
      (k j : ℕ) (m : NatMap V) → at j (remove_at k m) ≡ (if k == j then none else at j m)
  unfolding at remove_at
  at-remove_at k j [] = ground arith
  at-remove_at k j ((i, w) ∷ m) = ground (arith, at-remove_at k j m)

-- `HashSet::contains`; an insertion is `∷`.
unfoldable pub member : ℕ → List ℕ → Bool
member k [] = false
member k (j ∷ s) = if j == k then true else member k s
