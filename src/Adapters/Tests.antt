-- ===== src/Adapters/Tests.antt =====
-- Runs of the text parsers on small inputs.
use pi_ptc_advanced.Common.Patterns.{starts_with}
use pi_ptc_advanced.Common.{lit, trim, ◌≡◌, refl, [], ◌∷◌}
use pi_ptc_advanced.Adapters.Lines.{
  split_lines, match_grep_line, split_non_empty_lines, is_notice, parse_grep_matches,
}

session : Unit {0}
unfolding split_lines match_grep_line split_non_empty_lines is_notice parse_grep_matches starts_with
    trim lit
session = tt

split_lines_run : split_lines (lit "a\nbb\n") ≡ lit "a" ∷ lit "bb" ∷ [] ∷ []
unfolding session
split_lines_run = refl
