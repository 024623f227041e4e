-- ===== src/Evals/Case.antt =====
-- src/eval-cases.ts: validateEvalCase and parseEvalCase. The errors are texts in the order in which
-- the code pushes them.
pub mod Checks
pub mod Laws
use pi_ptc_advanced.Common.{
  Result, ok, err, Text, lit, trim, truthy, join, includes, show_ℕ, ℕ, suc, Bool, true, false, ◌&&◌,
  ◌||◌, List, [], ◌∷◌, ◌++◌,
}
use pi_ptc_advanced.Json.{
  Value, Fields, undefined, number, string, array, object, nil, cons, elements, prop, is_undefined,
}

-- `Number.isInteger` and `n > 0` of the engine's numbers.
pub record Numbers (N : Type 0) : Type 0 where
  pub is_integer : N → Bool
  pub above_zero : N → Bool

abbrev pub expected_first_paths : List Text
expected_first_paths = lit "code_execution" ∷ lit "direct" ∷ []

abbrev pub acceptance_types : List Text
acceptance_types = lit "exact" ∷ lit "structural" ∷ lit "behavioral" ∷ []

-- `if (!test) errors.push(message)`
abbrev pub unless : Bool → Text → List Text
unless true message = []
unless false message = message ∷ []

module _ {N : Type 0} where
  abbrev pub is_non_empty_string : Value N → Bool
  is_non_empty_string (string s) = truthy (trim s)
  is_non_empty_string v = false

  -- `isExpectedFirstPath` and `isAcceptanceType`, by their words.
  abbrev pub is_one_of : List Text → Value N → Bool
  is_one_of words (string s) = includes words s
  is_one_of words v = false

  -- The round of `forEach` at an index, and those after it.
  unfoldable pub element_errors : Text → ℕ → List (Value N) → List Text
  unfolding show_ℕ
  element_errors path index [] = []
  element_errors path index (v ∷ vs) =
      unless (is_non_empty_string v)
        (path ++ (lit "[" ++ (show_ℕ index ++ lit "] must be a non-empty string")))
      ++ element_errors path (suc index) vs

  -- The tests of an array of strings; `rest` are the errors of what follows where the array is none or
  -- is empty, and `more` those of what follows otherwise.
  unfoldable pub array_errors : Text → List Text → List Text → Value N → List Text
  unfolding element_errors elements
  array_errors path rest more (array nil) =
      (path ++ lit " must be a non-empty array of strings") ∷ rest
  array_errors path rest more (array (cons v items)) =
      element_errors path 0 (v ∷ elements items) ++ more
  array_errors path rest more v = (path ++ lit " must be a non-empty array of strings") ∷ rest

module _ {N : Type 0} (numbers : Numbers N) where
  abbrev pub is_positive_integer : Value N → Bool
  is_positive_integer (number n) = numbers.is_integer n && numbers.above_zero n
  is_positive_integer v = false

  unfoldable pub contract_errors : Value N → List Text
  unfolding prop
  contract_errors (object fs) =
      unless (is_non_empty_string (prop fs (lit "format")))
        (lit "recipe_target.output_contract.format must be a non-empty string")
      ++ (unless (is_non_empty_string (prop fs (lit "style")))
            (lit "recipe_target.output_contract.style must be a non-empty string")
          ++ (unless (is_non_empty_string (prop fs (lit "focus")))
                (lit "recipe_target.output_contract.focus must be a non-empty string")
              ++ (unless (is_positive_integer (prop fs (lit "max_items")))
                    (lit "recipe_target.output_contract.max_items must be a positive integer")
                  ++ unless
                      (is_undefined (prop fs (lit "max_chars"))
                        || is_positive_integer (prop fs (lit "max_chars")))
                      (lit
                        "recipe_target.output_contract.max_chars must be a positive integer when provided"))))
  contract_errors v = lit "recipe_target.output_contract must be an object" ∷ []

  -- What is tested of a recipe target after its repos.
  unfoldable pub target_rest_errors : Fields N → List Text
  unfolding prop contract_errors
  target_rest_errors fs =
      unless (is_non_empty_string (prop fs (lit "workflow")))
        (lit "recipe_target.workflow must be a non-empty string")
      ++ (unless (is_non_empty_string (prop fs (lit "summary")))
            (lit "recipe_target.summary must be a non-empty string")
          ++ contract_errors (prop fs (lit "output_contract")))

  unfoldable pub target_errors : Value N → List Text
  unfolding prop array_errors target_rest_errors
  target_errors undefined = []
  target_errors (object fs) =
      array_errors (lit "recipe_target.repos") (target_rest_errors fs) (target_rest_errors fs)
        (prop fs (lit "repos"))
  target_errors v = lit "recipe_target must be an object" ∷ []

  -- From the acceptance on; the case's recipe target comes second.
  unfoldable pub acceptance_errors : Value N → Value N → List Text
  unfolding prop array_errors target_errors
  acceptance_errors (object fs) target =
      unless (is_one_of acceptance_types (prop fs (lit "type")))
        (lit "acceptance.type must be \"exact\", \"structural\", or \"behavioral\"")
      ++ array_errors (lit "acceptance.rules") [] (target_errors target) (prop fs (lit "rules"))
  acceptance_errors v target = lit "acceptance must be an object" ∷ []

  unfoldable pub validate_eval_case : Value N → List Text
  unfolding prop acceptance_errors
  validate_eval_case (object fs) =
      unless (is_non_empty_string (prop fs (lit "id"))) (lit "id must be a non-empty string")
      ++ (unless (is_non_empty_string (prop fs (lit "prompt")))
            (lit "prompt must be a non-empty string")
          ++ (unless (is_one_of expected_first_paths (prop fs (lit "expected_first_path")))
                (lit "expected_first_path must be \"code_execution\" or \"direct\"")
              ++ acceptance_errors (prop fs (lit "acceptance")) (prop fs (lit "recipe_target"))))
  validate_eval_case v = lit "case must be an object" ∷ []

  unfoldable pub parse_eval_case : Value N → Text → Result (Value N)
  unfolding validate_eval_case join
  parse_eval_case value source = elim (validate_eval_case value) [
    | [] ↦ ok value
    | e ∷ es ↦ err (source ++ (lit " validation failed: " ++ join (lit "; ") (e ∷ es)))
  ]
