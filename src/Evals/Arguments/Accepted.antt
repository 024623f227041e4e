-- ===== src/Evals/Arguments/Accepted.antt =====
-- src/benchmark-runner.ts: which command lines parseCliArgs takes.
use pi_ptc_advanced.Common.{
  if◌then◌else◌, any, Result, ok, err, ◌>>=◌, Text, lit, ◌==◌, eq_iff, ◌≡◌, refl, Bool, true, false,
  ◌&&◌, ◌||◌, Option, none, some, List, [], ◌∷◌, arith,
}
use pi_ptc_advanced.Evals.Arguments.{
  ParsedCliArgs, default_args, set_case_ids, parse_arg, parse_from, parse_cli_args,
}

-- The options, but for `--cases`, which needs its value.
abbrev pub plain_options : List Text
plain_options =
    lit "--provider"
    ∷ lit "--model"
    ∷ lit "--evals-path"
    ∷ lit "--baseline"
    ∷ lit "--results-path"
    ∷ lit "--timestamp"
    ∷ []

abbrev pub is_option : Text → Option Text → Bool
is_option arg none = any (λ name. arg == name) plain_options
is_option arg (some next) = arg == lit "--cases" || any (λ name. arg == name) plain_options

-- Options with their values; the last value may be missing.
abbrev pub are_options : List Text → Bool
are_options [] = true
are_options (arg ∷ []) = is_option arg none
are_options (arg ∷ next ∷ rest) = is_option arg (some next) && are_options rest

abbrev pub is_accepted : Result ParsedCliArgs → Bool
is_accepted (ok parsed) = true
is_accepted (err message) = false

timestamp_differs : (arg : Text) → arg == lit "--cases" ≡ true → arg == lit "--timestamp" ≡ false
unfolding ◌==◌ lit
timestamp_differs arg e = rw ((eq_iff arg (lit "--cases")).0 e) refl

chain-accepted :
    (p m e b r c t : Bool) (x1 x2 x3 x4 x5 x7 : ParsedCliArgs) (x6 : Result ParsedCliArgs)
    (why : Text)
    → (c ≡ true → t ≡ false)
    → is_accepted (
        if p
        then ok x1
        else if m
        then ok x2
        else if e
        then ok x3
        else if b
        then ok x4
        else if r
        then ok x5
        else if c
        then x6
        else if t
        then ok x7
        else err why)
      ≡ ((c && is_accepted x6) || (p || (m || (e || (b || (r || (t || false)))))))
chain-accepted p m e b r c t x1 x2 x3 x4 x5 x7 x6 why apart = ground (arith, apart)

arg-accepted :
    (arg : Text) (next : Option Text) (parsed : ParsedCliArgs)
    → is_accepted (parse_arg arg next parsed) ≡ is_option arg next
unfolding parse_arg set_case_ids
arg-accepted arg none parsed =
    let chain : is_accepted (parse_arg arg none parsed) ≡ _ =
      chain-accepted (arg == lit "--provider") (arg == lit "--model") (arg == lit "--evals-path")
        (arg == lit "--baseline") (arg == lit "--results-path") (arg == lit "--cases")
        (arg == lit "--timestamp") _ _ _ _ _ _ (set_case_ids none parsed) _
        (timestamp_differs arg) in
    ground (arith, chain)
arg-accepted arg (some next) parsed =
    let chain : is_accepted (parse_arg arg (some next) parsed) ≡ _ =
      chain-accepted (arg == lit "--provider") (arg == lit "--model") (arg == lit "--evals-path")
        (arg == lit "--baseline") (arg == lit "--results-path") (arg == lit "--cases")
        (arg == lit "--timestamp") _ _ _ _ _ _ (set_case_ids (some next) parsed) _
        (timestamp_differs arg) in
    ground (arith, chain)

from-accepted :
    (argv : List Text) (parsed : ParsedCliArgs)
    → is_accepted (parse_from argv parsed) ≡ are_options argv
unfolding parse_from
from-accepted [] parsed = refl
from-accepted (arg ∷ []) parsed = arg-accepted arg none parsed
from-accepted (arg ∷ next ∷ rest) parsed =
    by_arg (parse_arg arg (some next) parsed) (arg-accepted arg (some next) parsed)
      (from-accepted rest)
  where
    by_arg :
        (r : Result ParsedCliArgs)
        → is_accepted r ≡ is_option arg (some next)
        → ((later : ParsedCliArgs) → is_accepted (parse_from rest later) ≡ are_options rest)
        → is_accepted (r >>= (λ later. parse_from rest later))
          ≡ (is_option arg (some next) && are_options rest)
    by_arg (ok later) e others = rw (← e) (others later)
    by_arg (err why) e others = rw (← e) refl

-- A command line is taken exactly where it is made of options with their values; an option at its end,
-- but for `--cases`, is taken without one.
pub parse_cli_args-accepted :
    (argv : List Text) → is_accepted (parse_cli_args argv) ≡ are_options argv
unfolding parse_cli_args
parse_cli_args-accepted argv = from-accepted argv default_args
