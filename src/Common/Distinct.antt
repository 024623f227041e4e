-- ===== src/Common/Distinct.antt =====
-- Lists of texts without repeats, such as the elements of a `Set`.
use mathlib.Core.Path.{◌≡◌}
use mathlib.Core.Logic.{inl, inr}
use mathlib.Core.Bool.{false, ◌||◌}
use mathlib.Core.List.{List, [], ◌∷◌, ◌++◌}
use native.Mathlib.Omega.{arith}
use pi_ptc_advanced.Common.Tests.{Bool-cases}
use pi_ptc_advanced.Common.Strings.{Text, includes, eq_iff, add, add_all, to_set}

-- No text stands twice.
abbrev pub AreDistinct : List Text → Type 0
AreDistinct [] = Unit
AreDistinct (x ∷ xs) = (includes xs x ≡ false) × AreDistinct xs

pub includes-append :
    (xs ys : List Text) (k : Text) → includes (xs ++ ys) k ≡ (includes xs k || includes ys k)
unfolding includes
includes-append [] ys k = ground arith
includes-append (x ∷ xs) ys k = ground (arith, includes-append xs ys k)

pub snoc-AreDistinct :
    (xs : List Text) (x : Text)
    → includes xs x ≡ false
    → AreDistinct xs
    → AreDistinct (xs ++ x ∷ [])
unfolding includes
snoc-AreDistinct [] x e d = ground arith
snoc-AreDistinct (y ∷ ys) x e (fresh, d) = (
  ground (arith, includes-append ys (x ∷ []) y, eq_iff x y, eq_iff y x),
  snoc-AreDistinct ys x (ground arith) d,
)

add-AreDistinct : (xs : List Text) (x : Text) → AreDistinct xs → AreDistinct (add xs x)
unfolding add
add-AreDistinct xs x d = elim (Bool-cases (includes xs x)) [
  | inl known ↦ rw known d
  | inr fresh ↦ rw fresh (snoc-AreDistinct xs x fresh d)
]

add_all-AreDistinct : (acc xs : List Text) → AreDistinct acc → AreDistinct (add_all acc xs)
unfolding add_all
add_all-AreDistinct acc [] d = d
add_all-AreDistinct acc (x ∷ xs) d = add_all-AreDistinct (add acc x) xs (add-AreDistinct acc x d)

pub to_set-AreDistinct : (xs : List Text) → AreDistinct (to_set xs)
unfolding to_set
to_set-AreDistinct xs = add_all-AreDistinct [] xs tt
