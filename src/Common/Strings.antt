-- ===== src/Common/Strings.antt =====
-- JavaScript strings: lists of UTF-16 code units. `lit` reads a literal whose characters lie in the
-- basic plane, where a character is one unit. `==` and `lit` stay shut in proofs.
use Prim.Native.Nat.{ℕ, zero, suc, ◌+◌, ◌/◌, ◌%◌}
use Prim.Native.Char.{code}
use Prim.Native.String.{String}
use mathlib.Core.Path.{◌≡◌, refl, sym, ap₂}
use mathlib.Core.Logic.{◌↔◌, inl, inr}
use mathlib.Core.Bool.{Bool, true, false, not, ◌&&◌, ◌||◌}
use mathlib.Core.List.{List, [], ◌∷◌, ◌++◌, reverse, Memᴰ}
use native.Mathlib.Omega.{arith}
use pi_ptc_advanced.Common.Tests.{nat_beq, nat_beq_iff, leb, if◌then◌else◌, Bool-cases}
use pi_ptc_advanced.Common.Lists.{any}

abbrev pub Text : Type 0
Text = List ℕ

unfoldable pub lit : String → Text
lit String.[] = []
lit (String.◌∷◌ c s) = code c ∷ lit s

infix 50 ◌==◌
unfoldable pub ◌==◌ : Text → Text → Bool
[] == [] = true
(x ∷ xs) == (y ∷ ys) = nat_beq x y && xs == ys
[] == (y ∷ ys) = false
(x ∷ xs) == [] = false

eq_of_== : (s t : Text) → (s == t) ≡ true → s ≡ t
unfolding ◌==◌
eq_of_== [] [] h = refl
eq_of_== (x ∷ xs) (y ∷ ys) h =
    ap₂ ◌∷◌ ((nat_beq_iff x y).0 (ground arith)) (eq_of_== xs ys (ground arith))
eq_of_== [] (y ∷ ys) h = cc
eq_of_== (x ∷ xs) [] h = cc

pub eq_refl : (s : Text) → (s == s) ≡ true
unfolding ◌==◌
eq_refl [] = refl
eq_refl (x ∷ xs) = ground (arith, eq_refl xs, nat_beq_iff x x)

pub eq_iff : (s t : Text) → ((s == t) ≡ true) ↔ (s ≡ t)
eq_iff s t = (eq_of_== s t, λ e. rw e (eq_refl t))

-- The characters that `trim` removes: white space and line terminators of ECMAScript.
abbrev pub is_space : ℕ → Bool
is_space c =
    (leb 9 c && leb c 13)
    || nat_beq c 32
    || nat_beq c 0xA0
    || nat_beq c 0x1680
    || (leb 0x2000 c && leb c 0x200A)
    || nat_beq c 0x2028
    || nat_beq c 0x2029
    || nat_beq c 0x202F
    || nat_beq c 0x205F
    || nat_beq c 0x3000
    || nat_beq c 0xFEFF

unfoldable pub trim_start : Text → Text
trim_start [] = []
trim_start (c ∷ s) = let rest = trim_start s in if is_space c then rest else c ∷ s

-- `s.trim()`
unfoldable pub trim : Text → Text
unfolding trim_start
trim s = reverse (trim_start (reverse (trim_start s)))

-- A JavaScript string is falsy when it is empty.
abbrev pub is_empty : Text → Bool
is_empty [] = true
is_empty (c ∷ s) = false

abbrev pub truthy : Text → Bool
truthy s = not (is_empty s)

-- `xs.join(sep)`
unfoldable pub join : Text → List Text → Text
join sep [] = []
join sep (x ∷ []) = x
join sep (x ∷ y ∷ xs) = x ++ (sep ++ join sep (y ∷ xs))

split_from : ℕ → Text → Text → List Text
split_from sep part [] = reverse part ∷ []
split_from sep part (c ∷ s) = elim (nat_beq c sep) [
  | true ↦ reverse part ∷ split_from sep [] s
  | false ↦ split_from sep (c ∷ part) s
]

-- `s.split(c)` at a separator of one character.
unfoldable pub split : ℕ → Text → List Text
unfolding split_from
split sep s = split_from sep [] s

-- `xs.includes(s)`, and `has` of a `Set` given by its elements.
unfoldable pub includes : List Text → Text → Bool
includes xs s = any (λ x. x == s) xs

-- `set.add(s)` on a `Set` given by its elements in insertion order.
unfoldable pub add : List Text → Text → List Text
unfolding includes
add xs s = if includes xs s then xs else xs ++ s ∷ []

unfoldable pub add_all : List Text → List Text → List Text
add_all acc [] = acc
add_all acc (x ∷ xs) = add_all (add acc x) xs

-- `new Set(xs)`
unfoldable pub to_set : List Text → List Text
unfolding add_all add
to_set xs = add_all [] xs

pub includes_of_mem : (xs : List Text) {s : Text} → Memᴰ s xs → includes xs s ≡ true
unfolding includes
includes_of_mem [] m = elim m [ ]
includes_of_mem (x ∷ xs) {s} (Memᴰ.head e) = rw e (ground (arith, eq_refl x))
includes_of_mem (x ∷ xs) (Memᴰ.tail m) = ground (arith, includes_of_mem xs m)

pub mem_of_includes : (xs : List Text) (s : Text) → includes xs s ≡ true → Memᴰ s xs
unfolding includes
mem_of_includes [] s e = absurd (ground arith)
mem_of_includes (x ∷ xs) s e = elim (Bool-cases (x == s)) [
  | inl same ↦ Memᴰ.head (sym ((eq_iff x s).0 same))
  | inr other ↦ Memᴰ.tail (mem_of_includes xs s (ground arith))
]

pub includes-concat : (xs : List Text) (s : Text) → includes (xs ++ s ∷ []) s ≡ true
unfolding includes
includes-concat [] s = ground (arith, eq_refl s)
includes-concat (x ∷ xs) s = ground (arith, includes-concat xs s)

pub includes-add_self : (xs : List Text) (s : Text) → includes (add xs s) s ≡ true
unfolding add
includes-add_self xs s = ground (arith, includes-concat xs s)

pub includes-snoc :
    (xs : List Text) (x s : Text) → includes (xs ++ x ∷ []) s ≡ (includes xs s || x == s)
unfolding includes
includes-snoc [] x s = ground arith
includes-snoc (y ∷ xs) x s = ground (arith, includes-snoc xs x s)

pub includes-add : (xs : List Text) (x s : Text) → includes (add xs x) s ≡ (includes xs s || x == s)
unfolding add
includes-add xs x s = ground (arith, includes-snoc xs x s, eq_iff x s)

includes-add_all :
    (acc xs : List Text) (s : Text)
    → includes (add_all acc xs) s ≡ (includes acc s || includes xs s)
unfolding add_all includes
includes-add_all acc [] s = ground arith
includes-add_all acc (x ∷ xs) s =
    ground (arith, includes-add_all (add acc x) xs s, includes-add acc x s)

-- A `Set` of a list has just the elements of the list.
pub includes-to_set : (xs : List Text) (s : Text) → includes (to_set xs) s ≡ includes xs s
unfolding to_set includes
includes-to_set xs s = includes-add_all [] xs s

digits_fuel : ℕ → ℕ → Text → Text
digits_fuel zero n acc = acc
digits_fuel (suc f) n acc =
    let more = digits_fuel f (n / 10) ((48 + n % 10) ∷ acc) in
    if leb n 9 then (48 + n) ∷ acc else more

-- `String(n)` of a natural number.
unfoldable pub show_ℕ : ℕ → Text
unfolding digits_fuel
show_ℕ n = digits_fuel (suc n) n []

show_ℕ_tests : (show_ℕ 0 ≡ lit "0") × (show_ℕ 100000 ≡ lit "100000") × (show_ℕ 7 ≡ lit "7")
unfolding show_ℕ lit
show_ℕ_tests = (refl, refl, refl)

trim_tests : (trim (lit " \ta b\n ") ≡ lit "a b") × (trim (lit "  ") ≡ [])
unfolding trim lit
trim_tests = (refl, refl)

split_tests : split b',' (lit "a,,b") ≡ lit "a" ∷ [] ∷ lit "b" ∷ []
unfolding split lit
split_tests = refl
