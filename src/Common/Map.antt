-- ===== src/Common/Map.antt =====
-- A JavaScript `Map` with string keys: its entries in insertion order. `set` on a present key keeps
-- the key's place; `delete` removes the key.
use mathlib.Core.Bool.{false}
use mathlib.Core.Path.{◌≡◌, refl}
use mathlib.Core.Logic.{inl, inr}
use mathlib.Core.Bool.{Bool}
use mathlib.Core.Option.{Option, none, some}
use mathlib.Core.List.{List, [], ◌∷◌, map}
use native.Mathlib.Omega.{arith}
use pi_ptc_advanced.Common.Tests.{if◌then◌else◌, is_some, Bool-cases}
use pi_ptc_advanced.Common.Strings.{Text, ◌==◌, eq_iff}

abbrev pub Map {ℓ} : Type ℓ → Type ℓ
Map V = List (Text × V)

module _ {ℓ} {V : Type ℓ} where
  unfoldable pub get : Map V → Text → Option V
  get [] k = none
  get ((j, v) ∷ m) k = if j == k then some v else get m k

  abbrev pub has : Map V → Text → Bool
  has m k = is_some (get m k)

  unfoldable pub set : Map V → Text → V → Map V
  set [] k v = (k, v) ∷ []
  set ((j, w) ∷ m) k v = if j == k then (j, v) ∷ m else (j, w) ∷ set m k v

  unfoldable pub delete : Map V → Text → Map V
  delete [] k = []
  delete ((j, w) ∷ m) k = let rest = delete m k in if j == k then rest else (j, w) ∷ rest

  unfoldable pub keys : Map V → List Text
  keys m = map (λ e. e.0) m

  unfoldable pub values : Map V → List V
  values m = map (λ e. e.1) m

  pub get-empty : (k : Text) → get [] k ≡ none
  unfolding get
  get-empty k = refl

  pub get-set :
      (m : Map V) (k j : Text) (v : V) → get (set m k v) j ≡ (if k == j then some v else get m j)
  unfolding get set
  get-set [] k j v = refl
  get-set ((i, w) ∷ m) k j v = ground (arith, eq_iff k j, eq_iff i k, eq_iff i j, get-set m k j v)

  pub get-delete :
      (m : Map V) (k j : Text) → get (delete m k) j ≡ (if k == j then none else get m j)
  unfolding get delete
  get-delete [] k j = ground arith
  get-delete ((i, w) ∷ m) k j = ground (arith, eq_iff k j, eq_iff i k, eq_iff i j, get-delete m k j)

  -- No key stands twice.
  abbrev pub IsDistinct : Map V → Type ℓ
  IsDistinct [] = Unit
  IsDistinct ((k, v) ∷ m) = (get m k ≡ none) × IsDistinct m

  pub set-IsDistinct : (m : Map V) (k : Text) (v : V) → IsDistinct m → IsDistinct (set m k v)
  unfolding get set
  set-IsDistinct [] k v h = ground arith
  set-IsDistinct ((i, w) ∷ m) k v (fresh, h) =
      ground (arith, eq_iff i k, eq_iff k i, get-set m k i v, set-IsDistinct m k v h)

  pub delete-IsDistinct : (m : Map V) (k : Text) → IsDistinct m → IsDistinct (delete m k)
  unfolding delete
  delete-IsDistinct [] k h = h
  delete-IsDistinct ((i, w) ∷ m) k (fresh, h) =
      ground (arith, eq_iff k i, get-delete m k i, delete-IsDistinct m k h)

module _ {ℓ κ} {V : Type ℓ} (P : Text → V → Type κ) where
  -- What holds of every entry.
  abbrev pub AllEntries : Map V → Type κ
  AllEntries [] = Unit
  AllEntries ((k, v) ∷ m) = P k v × AllEntries m

  pub set-AllEntries :
      (m : Map V) (k : Text) (v : V) → AllEntries m → P k v → AllEntries (set m k v)
  unfolding set
  set-AllEntries [] k v h p = (p, tt)
  set-AllEntries ((i, w) ∷ m) k v (q, h) p = elim (Bool-cases (i == k)) [
    | inl same ↦ rw same (rw ((eq_iff i k).0 same) p, h)
    | inr other ↦ rw other (q, set-AllEntries m k v h p)
  ]

  pub delete-AllEntries : (m : Map V) (k : Text) → AllEntries m → AllEntries (delete m k)
  unfolding delete
  delete-AllEntries [] k h = tt
  delete-AllEntries ((i, w) ∷ m) k (q, h) = ground (arith, delete-AllEntries m k h)

  pub get-AllEntries : (m : Map V) (k : Text) {v : V} → AllEntries m → get m k ≡ some v → P k v
  unfolding get
  get-AllEntries [] k h e = cc
  get-AllEntries ((i, w) ∷ m) k {v} (q, h) e = elim (Bool-cases (i == k)) [
    | inl same ↦ let found : w ≡ v = cc (rw same at e) in rw (← (eq_iff i k).0 same, ← found) q
    | inr other ↦ get-AllEntries m k h (rw other at e)
  ]

module _ {ℓ} {V : Type ℓ} where
  -- No key of the rest is the deleted one.
  pub delete-AllEntries_ne :
      (m : Map V) (k : Text) → AllEntries (λ j _. (j == k) ≡ false) (delete m k)
  unfolding delete
  delete-AllEntries_ne [] k = tt
  delete-AllEntries_ne ((i, w) ∷ m) k = ground (arith, delete-AllEntries_ne m k)
