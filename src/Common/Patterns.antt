-- ===== src/Common/Patterns.antt =====
-- Regular expressions of the program as tests on texts.
use Prim.Native.Nat.{ℕ, ◌+◌}
use mathlib.Core.Bool.{Bool, true, false, not, ◌&&◌, ◌||◌}
use mathlib.Core.List.{List, [], ◌∷◌, map}
use pi_ptc_advanced.Common.Tests.{leb, nat_beq, if◌then◌else◌}
use pi_ptc_advanced.Common.Lists.{any, length, drop}
use pi_ptc_advanced.Common.Strings.{Text}

unfoldable pub starts_with : Text → Text → Bool
starts_with [] s = true
starts_with (c ∷ p) [] = false
starts_with (c ∷ p) (d ∷ s) = nat_beq c d && starts_with p s

abbrev pub is_digit : ℕ → Bool
is_digit c = leb 48 c && leb c 57

-- A line terminator, which `.` does not match.
abbrev pub is_terminator : ℕ → Bool
is_terminator c = nat_beq c 10 || nat_beq c 13 || nat_beq c 0x2028 || nat_beq c 0x2029

-- `\w`
abbrev pub is_word : ℕ → Bool
is_word c =
    (leb 48 c && leb c 57) || (leb 65 c && leb c 90) || (leb 97 c && leb c 122) || nat_beq c 95

abbrev pub begins_with_word : Text → Bool
begins_with_word [] = false
begins_with_word (c ∷ s) = is_word c

-- `\b` between a character that is or is not a word's and the text after it.
abbrev pub is_boundary : Bool → Text → Bool
is_boundary before s = if before then not (begins_with_word s) else begins_with_word s

-- A test that some place of a text passes, given whether a word's character stands before it.
unfoldable pub search_from : (Bool → Text → Bool) → Bool → Text → Bool
search_from p before [] = p before []
search_from p before (c ∷ s) = p before (c ∷ s) || search_from p (is_word c) s

unfoldable pub contains : Text → Text → Bool
unfolding search_from starts_with
contains pattern s = search_from (λ _. starts_with pattern) false s

-- `/\b(?:...)\b/` of words.
unfoldable pub contains_word : List Text → Text → Bool
unfolding search_from starts_with
contains_word words s =
    search_from
      (λ before rest.
        is_boundary before rest
        && any (λ w. starts_with w rest && is_boundary true (drop (length w) rest)) words)
      false s

-- `/.../i` of ASCII letters: the text with its ASCII capitals made small.
abbrev pub small : ℕ → ℕ
small c = if leb 65 c && leb c 90 then c + 32 else c

unfoldable pub ascii_lower : Text → Text
ascii_lower s = map small s
