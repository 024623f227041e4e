-- ===== src/Rpc/Stderr.antt =====
-- What src/rpc-protocol.ts reads from the stderr of a Python process that ended early.
use pi_ptc_advanced.Common.{
  leb, nat_beq, if◌then◌else◌, drop, keep, Text, lit, trim, is_empty, truthy, Bool, true, false,
  not, ◌&&◌, ◌||◌, Option, none, some, List, [], ◌∷◌, map,
}
use mathlib.Core.List.{reverse}
use pi_ptc_advanced.Adapters.Lines.{split_lines}
use pi_ptc_advanced.Common.Patterns.{is_word, starts_with, search_from, contains, contains_word}

-- `[\w.]*Error(?::|\b)`
unfoldable pub is_error_tail : Text → Bool
unfolding starts_with
is_error_tail [] = false
is_error_tail (c ∷ s) =
    (starts_with (lit "Error") (c ∷ s) && ends_name (drop 4 s))
    || ((is_word c || nat_beq c 46) && is_error_tail s)
  where
    ends_name : Text → Bool
    ends_name [] = true
    ends_name (c ∷ s) = nat_beq c 58 || not (is_word c)

-- `\b[A-Za-z_][\w.]*Error(?::|\b)`
unfoldable pub is_python_error_line : Text → Bool
unfolding search_from is_error_tail
is_python_error_line line = search_from is_here false line
  where
    is_here : Bool → Text → Bool
    is_here before [] = false
    is_here before (c ∷ s) =
        not before && is_word c && not (leb 48 c && leb c 57) && is_error_tail s

unfoldable pub looks_like_python_pre_terminal_failure : Text → Bool
unfolding contains contains_word
looks_like_python_pre_terminal_failure stderr =
    if is_empty stderr
    then false
    else contains (lit "Traceback (most recent call last):") stderr
      || contains_word
          (lit "SyntaxError"
            ∷ lit "IndentationError"
            ∷ lit "TabError"
            ∷ lit "ImportError"
            ∷ lit "ModuleNotFoundError"
            ∷ [])
          stderr

-- The first line that names an error, and without one the first line.
summary_of : List Text → List Text → Option Text
unfolding is_python_error_line
summary_of [] [] = none
summary_of [] (l ∷ ls) = some l
summary_of (l ∷ rest) all = if is_python_error_line l then some l else summary_of rest all

-- Lines are searched from the last.
unfoldable pub extract_python_failure_summary : Text → Option Text
unfolding summary_of split_lines
extract_python_failure_summary stderr =
    let lines = reverse (keep truthy (map trim (split_lines stderr))) in summary_of lines lines
