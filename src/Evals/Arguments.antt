-- ===== src/Evals/Arguments.antt =====
-- src/benchmark-runner.ts: parseCliArgs.
-- A field is `none` where the code leaves it `undefined`.
pub mod Accepted
use pi_ptc_advanced.Common.{
  if◌then◌else◌, keep, Result, ok, err, ◌>>=◌, Text, lit, ◌==◌, trim, truthy, split, Option, none,
  some, List, [], ◌∷◌, ◌++◌, map,
}

pub record ParsedCliArgs : Type 0 where
  pub provider : Option Text
  pub model : Option Text
  pub evals_path : Option Text
  pub baseline_path : Option Text
  pub results_path : Option Text
  pub case_ids : Option (List Text)
  pub timestamp : Option Text

abbrev pub default_args : ParsedCliArgs
default_args = record {
  provider = some (lit "local");
  model = some (lit "deterministic");
  evals_path = none;
  baseline_path = none;
  results_path = none;
  case_ids = none;
  timestamp = none;
}

-- `next.split(",").map((value) => value.trim()).filter(Boolean)`
unfoldable pub parse_case_ids : Text → List Text
unfolding split
parse_case_ids next = keep truthy (map trim (split 44 next))

-- `none` is an argument without a next one: the field is set to `undefined`, and `split` throws.
unfoldable pub set_case_ids : Option Text → ParsedCliArgs → Result ParsedCliArgs
unfolding parse_case_ids
set_case_ids none parsed = err (lit "Cannot read properties of undefined (reading 'split')")
set_case_ids (some next) parsed = ok (record parsed { case_ids = some (parse_case_ids next) })

-- One round of the loop.
unfoldable pub parse_arg : Text → Option Text → ParsedCliArgs → Result ParsedCliArgs
unfolding set_case_ids
parse_arg arg next parsed =
    if arg == lit "--provider"
    then ok (record parsed { provider = next })
    else if arg == lit "--model"
    then ok (record parsed { model = next })
    else if arg == lit "--evals-path"
    then ok (record parsed { evals_path = next })
    else if arg == lit "--baseline"
    then ok (record parsed { baseline_path = next })
    else if arg == lit "--results-path"
    then ok (record parsed { results_path = next })
    else if arg == lit "--cases"
    then set_case_ids next parsed
    else if arg == lit "--timestamp"
    then ok (record parsed { timestamp = next })
    else err (lit "Unknown argument: " ++ arg)

unfoldable pub parse_from : List Text → ParsedCliArgs → Result ParsedCliArgs
unfolding parse_arg
parse_from [] parsed = ok parsed
parse_from (arg ∷ []) parsed = parse_arg arg none parsed
parse_from (arg ∷ next ∷ rest) parsed =
    parse_arg arg (some next) parsed >>= (λ later. parse_from rest later)

unfoldable pub parse_cli_args : List Text → Result ParsedCliArgs
unfolding parse_from
parse_cli_args argv = parse_from argv default_args
