-- ===== src/Common/Maps.antt =====
-- `BTreeMap<String, V>`: an association list that insertion keeps in the order of its keys.
use Prim.Native.Nat.{ℕ, Ordering}
use Prim.Native.String.{String, compare}
use mathlib.Core.Path.{◌≡◌, refl}
use mathlib.Core.Bool.{Bool}
use mathlib.Core.Logic.{inl, inr}
use mathlib.Core.Option.{Option, none, some}
use mathlib.Core.List.{List, [], ◌∷◌}
use native.Mathlib.Omega.{arith}
use text.Mathlib.Text.{◌==◌ as str_eq}
use text.Mathlib.TextEquality.{eq_iff, path_by_compare}
use text.Mathlib.TextPositions.{eq_refl}
use cede_grid.Common.Tests.{if◌then◌else◌, unwrap_or, is_some, Bool-cases}

abbrev pub StringMap {ℓ} : Type ℓ → Type ℓ
StringMap V = List (String × V)

module _ {ℓ} {V : Type ℓ} where
  unfoldable pub get : String → StringMap V → Option V
  get k [] = none
  get k ((j, v) ∷ m) = if str_eq k j then some v else get k m

  unfoldable pub insert : String → V → StringMap V → StringMap V
  insert k v [] = (k, v) ∷ []
  insert k v ((j, w) ∷ m) = elim (compare k j) [
    | Ordering.lt ↦ (k, v) ∷ (j, w) ∷ m
    | Ordering.eq ↦ (k, v) ∷ m
    | Ordering.gt ↦ (j, w) ∷ insert k v m
  ]

  -- `contains_key`
  abbrev pub contains_key : String → StringMap V → Bool
  contains_key k m = is_some (get k m)

  abbrev pub keys : StringMap V → List String
  keys [] = []
  keys ((k, v) ∷ m) = k ∷ keys m

  abbrev pub values : StringMap V → List V
  values [] = []
  values ((k, v) ∷ m) = v ∷ values m

  pub get-insert :
      (j k : String) (v : V) (m : StringMap V)
      → get j (insert k v m) ≡ (if str_eq j k then some v else get j m)
  unfolding get insert
  get-insert j k v [] = refl
  get-insert j k v ((i, w) ∷ m) =
      ground (arith, path_by_compare k i, eq_iff j k, eq_iff j i, get-insert j k v m)

-- The amount under a key, and 0 where there is none: `get(k).copied().unwrap_or(0)`.
abbrev pub amount : String → StringMap ℕ → ℕ
amount k m = unwrap_or (get k m) 0

-- `retain` on the keys.
module _ {ℓ} {V : Type ℓ} where
  unfoldable pub retain : (String → Bool) → StringMap V → StringMap V
  retain p [] = []
  retain p ((k, v) ∷ m) = let rest = retain p m in if p k then (k, v) ∷ rest else rest

  pub get-retain :
      (p : String → Bool) (j : String) (m : StringMap V)
      → get j (retain p m) ≡ (if p j then get j m else none)
  unfolding get retain
  get-retain p j [] = ground arith
  get-retain p j ((i, w) ∷ m) = elim (Bool-cases (str_eq j i)) [
    | inl e ↦
        let q : j ≡ i = (eq_iff j i).0 e in
        rw q (ground (arith, eq_refl i, rw q at (get-retain p j m)))
    | inr e ↦ ground (arith, get-retain p j m)
  ]
