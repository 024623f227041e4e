-- ===== src/Utils/Prompts.antt =====
-- src/utils.ts: which prompts are routed to code_execution, which ask for a change, and what user code
-- is refused. `lower` is `toLowerCase`.
pub mod Routing
use pi_ptc_advanced.Common.{
  ltb, leb, if◌then◌else◌, is_some, length, drop, Result, ok, err, Text, lit, trim, trim_start,
  is_empty, Bool, true, false, not, ◌&&◌, ◌||◌, Option, none, some, List, [], ◌∷◌,
}
use pi_ptc_advanced.Common.Patterns.{
  is_digit, is_word, is_boundary, begins_with_word, starts_with, search_from, contains,
  contains_word, is_terminator,
}

abbrev pub mutation_words : List Text
mutation_words =
    lit "edit"
    ∷ lit "write"
    ∷ lit "modify"
    ∷ lit "change"
    ∷ lit "update"
    ∷ lit "fix"
    ∷ lit "create"
    ∷ lit "delete"
    ∷ lit "rename"
    ∷ lit "refactor"
    ∷ lit "patch"
    ∷ lit "implement"
    ∷ lit "add"
    ∷ lit "remove"
    ∷ []

-- `\b(?:use|call|run|invoke) (?:the )?code_execution\b`
request_phrases : List Text
request_phrases =
    lit "use code_execution"
    ∷ lit "call code_execution"
    ∷ lit "run code_execution"
    ∷ lit "invoke code_execution"
    ∷ lit "use the code_execution"
    ∷ lit "call the code_execution"
    ∷ lit "run the code_execution"
    ∷ lit "invoke the code_execution"
    ∷ []

fanout_phrases : List Text
fanout_phrases =
    lit "glob"
    ∷ lit "codebase"
    ∷ lit "repo"
    ∷ lit "repository"
    ∷ lit "all files"
    ∷ lit "every file"
    ∷ lit "entire codebase"
    ∷ lit "entire repo"
    ∷ lit "across repo"
    ∷ lit "across codebase"
    ∷ lit "across the repo"
    ∷ lit "across the codebase"
    ∷ lit "many files"
    ∷ lit "multiple files"
    ∷ lit "for each"
    ∷ lit "for every"
    ∷ lit "each file"
    ∷ []

processing_words : List Text
processing_words =
    lit "count"
    ∷ lit "group"
    ∷ lit "aggregate"
    ∷ lit "rank"
    ∷ lit "sort"
    ∷ lit "summarise"
    ∷ lit "summarize"
    ∷ lit "compare"
    ∷ lit "statistics"
    ∷ lit "histogram"
    ∷ lit "frequency"
    ∷ lit "frequencies"
    ∷ lit "distribution"
    ∷ lit "dedup"
    ∷ lit "filter"
    ∷ lit "tabulate"
    ∷ []

context_phrases : List Text
context_phrases =
    lit "compact json"
    ∷ lit "json only"
    ∷ lit "summary only"
    ∷ lit "summaries only"
    ∷ lit "keep intermediate"
    ∷ lit "keep intermediates"
    ∷ lit "stay out of chat"
    ∷ lit "out of chat"
    ∷ lit "without flooding"
    ∷ lit "don't flood"
    ∷ []

skip_digits : Text → Text
skip_digits [] = []
skip_digits (c ∷ s) = let rest = skip_digits s in if is_digit c then rest else c ∷ s

-- `\d+\b`: the text after the digits, which end where no word goes on.
after_number : Text → Option Text
unfolding skip_digits
after_number [] = none
after_number (c ∷ s) =
    if is_digit c && not (begins_with_word (skip_digits s)) then some (skip_digits s) else none

-- `.*\bfiles?\b` within one line, after a word's character or not.
files_follow : Bool → Text → Bool
unfolding starts_with
files_follow before [] = false
files_follow before (c ∷ s) =
    let here =
      is_boundary before (c ∷ s)
      && (starts_with (lit "file") (c ∷ s) && is_boundary true (drop 4 (c ∷ s))
          || starts_with (lit "files") (c ∷ s) && is_boundary true (drop 5 (c ∷ s))) in
    let later = files_follow (is_word c) s in here || (not (is_terminator c) && later)

-- `\bfirst \d+\b.*\bfiles?\b`
first_files : Text → Bool
unfolding search_from starts_with after_number files_follow
first_files s =
    search_from
      (λ before rest.
        is_boundary before rest
        && starts_with (lit "first ") rest
        && elim (after_number (drop 6 rest)) [ none ↦ false | some t ↦ files_follow true t ])
      false s

-- `\*\.[a-z0-9]+\b`
skip_small : Text → Text
skip_small [] = []
skip_small (c ∷ s) =
    let rest = skip_small s in if is_digit c || (leb 97 c && leb c 122) then rest else c ∷ s

star_extension : Text → Bool
unfolding search_from starts_with skip_small
star_extension s =
    search_from
      (λ before rest.
        starts_with (lit "*.") rest
        && ltb (length (skip_small (drop 2 rest))) (length (drop 2 rest))
        && not (begins_with_word (skip_small (drop 2 rest))))
      false s

-- `\btop \d+\b`
top_number : Text → Bool
unfolding search_from starts_with after_number
top_number s =
    search_from
      (λ before rest.
        is_boundary before rest
        && starts_with (lit "top ") rest
        && is_some (after_number (drop 4 rest)))
      false s

unfoldable pub has_fanout : Text → Bool
unfolding fanout_phrases first_files star_extension contains contains_word
has_fanout s =
    contains (lit "**/") s || star_extension s || contains_word fanout_phrases s || first_files s

unfoldable pub has_processing : Text → Bool
unfolding processing_words top_number contains_word
has_processing s = contains_word processing_words s || top_number s

unfoldable pub has_context_pressure : Text → Bool
unfolding context_phrases contains_word
has_context_pressure s = contains_word context_phrases s

unfoldable pub requests_code_execution : Text → Bool
unfolding request_phrases contains_word
requests_code_execution s = contains_word request_phrases s

-- `/\b<name>\s*\(/`
unfoldable pub calls : Text → Text → Bool
unfolding search_from starts_with
calls name code =
    search_from
      (λ before rest.
        is_boundary before rest
        && starts_with name rest
        && starts_with (lit "(") (trim_start (drop (length name) rest)))
      false code

unfoldable pub validate_user_code : Text → Result (Unit {0})
unfolding calls
validate_user_code user_code =
    if calls (lit "asyncio.run") user_code
    then err (
        lit
          "Top-level await is already available inside code_execution. Remove asyncio.run(...) and await your coroutines directly.")
    else if calls (lit "_rpc_call") user_code
    then err (
        lit
          "Use the generated helper functions such as read(), glob(), find(), grep(), ls(), or ptc.read_many() instead of calling _rpc_call(...) directly.")
    else ok tt

module _ (lower : Text → Text) where
  unfoldable pub is_mutation_prompt : Text → Bool
  unfolding contains_word
  is_mutation_prompt prompt = contains_word mutation_words (lower (trim prompt))

  unfoldable pub should_auto_route_prompt_to_code_execution : Text → Bool
  unfolding is_mutation_prompt has_fanout has_processing has_context_pressure
      requests_code_execution
  should_auto_route_prompt_to_code_execution prompt =
      let normalized = lower (trim prompt) in
      if is_empty normalized
      then false
      else if requests_code_execution normalized
      then true
      else if is_mutation_prompt normalized
      then false
      else (has_fanout normalized && (has_processing normalized || has_context_pressure normalized))
        || (has_processing normalized && has_context_pressure normalized)
