-- ===== src/Common/Lists.antt =====
-- Arrays: `length`, `every`, `some`, `filter`, `slice`, membership and what holds of each element.
use Prim.Native.Nat.{ℕ, zero, suc, ◌+◌, ◌≤◌, min}
use mathlib.Core.Path.{◌≡◌, refl, sym}
use mathlib.Core.Logic.{inl, inr}
use mathlib.Core.Bool.{Bool, true, false, ◌&&◌, ◌||◌}
use mathlib.Core.Option.{Option, none, some}
use mathlib.Core.List.{List, [], ◌∷◌, ◌++◌, map, Memᴰ}
use native.Mathlib.Omega.{arith}
use pi_ptc_advanced.Common.Tests.{if◌then◌else◌, Bool-cases}

module _ {ℓ} {A : Type ℓ} where
  abbrev pub length : List A → ℕ
  length [] = 0
  length (x ∷ xs) = suc (length xs)

  abbrev pub get_elem? : List A → ℕ → Option A
  get_elem? [] i = none
  get_elem? (x ∷ xs) zero = some x
  get_elem? (x ∷ xs) (suc i) = get_elem? xs i

  abbrev pub take : ℕ → List A → List A
  take zero xs = []
  take (suc n) [] = []
  take (suc n) (x ∷ xs) = x ∷ take n xs

  abbrev pub drop : ℕ → List A → List A
  drop zero xs = xs
  drop (suc n) [] = []
  drop (suc n) (x ∷ xs) = drop n xs

  abbrev pub every : (A → Bool) → List A → Bool
  every p [] = true
  every p (x ∷ xs) = p x && every p xs

  abbrev pub any : (A → Bool) → List A → Bool
  any p [] = false
  any p (x ∷ xs) = p x || any p xs

  -- `xs.filter(p)`; the library's `filter` takes a decision procedure.
  abbrev pub keep : (A → Bool) → List A → List A
  keep p [] = []
  keep p (x ∷ xs) = let rest = keep p xs in if p x then x ∷ rest else rest

  pub length-append : (xs ys : List A) → length (xs ++ ys) ≡ length xs + length ys
  length-append [] ys = omega arith
  length-append (x ∷ xs) ys = omega (arith, length-append xs ys)

  pub length-take : (n : ℕ) (xs : List A) → length (take n xs) ≡ min n (length xs)
  length-take zero xs = omega arith
  length-take (suc n) [] = omega arith
  length-take (suc n) (x ∷ xs) = omega (arith, length-take n xs)

  pub length-keep-le : (p : A → Bool) (xs : List A) → length (keep p xs) ≤ length xs
  length-keep-le p [] = omega arith
  length-keep-le p (x ∷ xs) = ground (arith, length-keep-le p xs)

  -- What is kept was there and passes the test.
  pub mem-keep :
      (p : A → Bool) (xs : List A) {a : A} → Memᴰ a (keep p xs) → Memᴰ a xs × (p a ≡ true)
  mem-keep p [] m = elim m [ ]
  mem-keep p (x ∷ xs) {a} m = elim (Bool-cases (p x)) [
    | inl passes ↦ at_head passes (mem-keep p xs) (rw passes at m)
    | inr fails ↦ let (there, e) = mem-keep p xs (rw fails at m) in (Memᴰ.tail there, e)
  ]
    where
      at_head :
          p x ≡ true
          → (Memᴰ a (keep p xs) → Memᴰ a xs × (p a ≡ true))
          → Memᴰ a (x ∷ keep p xs)
          → Memᴰ a (x ∷ xs) × (p a ≡ true)
      at_head passes rest (Memᴰ.head e) = (Memᴰ.head e, rw e passes)
      at_head passes rest (Memᴰ.tail m) = let (there, e) = rest m in (Memᴰ.tail there, e)

  pub keep-mem : (p : A → Bool) (xs : List A) {a : A} → Memᴰ a xs → p a ≡ true → Memᴰ a (keep p xs)
  keep-mem p [] m passes = elim m [ ]
  keep-mem p (x ∷ xs) (Memᴰ.head e) passes = rw (← e, passes) (Memᴰ.head refl)
  keep-mem p (x ∷ xs) (Memᴰ.tail m) passes = elim (Bool-cases (p x)) [
    | inl first ↦ rw first (Memᴰ.tail (keep-mem p xs m passes))
    | inr not_first ↦ rw not_first (keep-mem p xs m passes)
  ]

module _ {ℓ} {A : Type ℓ} where
  -- The list without the element at a place.
  abbrev pub remove_at : List A → ℕ → List A
  remove_at [] i = []
  remove_at (x ∷ xs) zero = xs
  remove_at (x ∷ xs) (suc i) = x ∷ remove_at xs i

module _ {ℓ κ} {A : Type ℓ} (P : A → Type κ) where
  abbrev pub All : List A → Type κ
  All [] = Unit
  All (x ∷ xs) = P x × All xs

  pub All-append : (xs ys : List A) → All xs → All ys → All (xs ++ ys)
  All-append [] ys _ k = k
  All-append (x ∷ xs) ys (p, h) k = (p, All-append xs ys h k)

  pub All-mem : {a : A} (xs : List A) → All xs → Memᴰ a xs → P a
  All-mem [] h m = elim m [ ]
  All-mem (x ∷ xs) (p, h) (Memᴰ.head e) = rw e p
  All-mem (x ∷ xs) (p, h) (Memᴰ.tail m) = All-mem xs h m

  pub All-keep : (p : A → Bool) (xs : List A) → All xs → All (keep p xs)
  All-keep p [] h = tt
  All-keep p (x ∷ xs) (q, h) = ground (arith, All-keep p xs h)

pub mem-map {ℓ κ} :
    {A : Type ℓ} {B : Type κ} (f : A → B) (xs : List A) {b : B}
    → Memᴰ b (map f xs)
    → (a : A) × Memᴰ a xs × (f a ≡ b)
mem-map f [] m = elim m [ ]
mem-map f (x ∷ xs) (Memᴰ.head e) = (x, Memᴰ.head refl, sym e)
mem-map f (x ∷ xs) (Memᴰ.tail m) = let (a, there, e) = mem-map f xs m in (a, Memᴰ.tail there, e)
