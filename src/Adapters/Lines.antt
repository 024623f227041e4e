-- ===== src/Adapters/Lines.antt =====
-- The text parsers of src/tool-adapters.ts: lines of a listing and matches of a search.
use pi_ptc_advanced.Common.Patterns.{starts_with, is_digit, is_terminator}
use pi_ptc_advanced.Common.{
  nat_beq, if◌then◌else◌, or_else, any, keep, Text, lit, ◌==◌, is_space, trim, is_empty, truthy,
  includes, ℕ, ◌+◌, ◌-◌, ◌*◌, Bool, true, false, not, ◌&&◌, ◌||◌, Option, none, some, get_or, List,
  [], ◌∷◌, map,
}
use mathlib.Core.List.{reverse}

-- `text.split(/\r?\n/)`: a carriage return goes only with the line feed after it.
split_lines_from : Text → Text → List Text
split_lines_from part [] = reverse part ∷ []
split_lines_from part (c ∷ s) = elim (nat_beq c 10) [
  | true ↦ reverse (without_return part) ∷ split_lines_from [] s
  | false ↦ split_lines_from (c ∷ part) s
]
  where
    without_return : Text → Text
    without_return [] = []
    without_return (d ∷ part) = if nat_beq d 13 then part else d ∷ part

unfoldable pub split_lines : Text → List Text
unfolding split_lines_from
split_lines s = split_lines_from [] s

-- `/^\[(Showing|Use offset=|Output truncated)/`
unfoldable pub is_notice : Text → Bool
unfolding starts_with
is_notice line =
    starts_with (lit "[Showing") line
    || starts_with (lit "[Use offset=") line
    || starts_with (lit "[Output truncated") line

unfoldable pub split_non_empty_lines : Text → List Text → List Text
unfolding split_lines is_notice
split_non_empty_lines text empty_markers =
    let trimmed = trim text in
    if is_empty trimmed || includes empty_markers trimmed
    then []
    else keep (λ line. not (is_notice line)) (keep truthy (map trim (split_lines trimmed)))

-- The groups of `/^(.*?)([:\-])(\d+)([:\-])\s?(.*)$/`.
pub record GrepMatch : Type 0 where
  pub path : Text
  pub line : ℕ
  pub text : Text
  pub is_context : Bool

abbrev pub is_separator : ℕ → Bool
is_separator c = nat_beq c 58 || nat_beq c 45

-- `\s?(.*)$`: the space is taken where the rest then matches.
last_group : Text → Option Text
last_group [] = some []
last_group (c ∷ s) =
    if is_space c && not (any is_terminator s)
    then some s
    else if any is_terminator (c ∷ s)
    then none
    else some (c ∷ s)

-- `(\d+)([:\-])\s?(.*)$` after the first separator, with the digits read so far.
line_and_text : Text → ℕ → Option ℕ → Text → Option GrepMatch
unfolding last_group
line_and_text path first line [] = none
line_and_text path first line (c ∷ s) =
    let more = line_and_text path first (some (get_or line 0 * 10 + (c - 48))) s in
    if is_digit c then more else elim line [
      | none ↦ none
      | some n ↦ if not (is_separator c) then none else elim (last_group s) [
        | none ↦ none
        | some t ↦ some (record {
          path = path;
          line = n;
          text = t;
          is_context = nat_beq first 45 || nat_beq c 45;
        })
      ]
    ]

-- The first separator at which the rest matches; the path before it has no line terminator.
match_from : Text → Text → Option GrepMatch
unfolding line_and_text
match_from path [] = none
match_from path (c ∷ s) =
    let later = match_from (c ∷ path) s in
    let here = if is_separator c then line_and_text (reverse path) c none s else none in
    or_else here (if is_terminator c then none else later)

unfoldable pub match_grep_line : Text → Option GrepMatch
unfolding match_from
match_grep_line line = match_from [] line

unfoldable pub matches_of : List Text → List GrepMatch
unfolding match_grep_line
matches_of [] = []
matches_of (l ∷ ls) =
    let rest = matches_of ls in elim (match_grep_line l) [ none ↦ rest | some m ↦ m ∷ rest ]

unfoldable pub parse_grep_matches : Text → List GrepMatch
unfolding matches_of split_lines
parse_grep_matches text =
    let trimmed = trim text in
    if is_empty trimmed || trimmed == lit "No matches found"
    then []
    else matches_of (split_lines trimmed)
