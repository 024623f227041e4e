-- ===== src/Evals/Case/Laws.antt =====
-- src/eval-cases.ts: a value without errors is an `EvalCase`, and an `EvalCase` has no errors.
use pi_ptc_advanced.Common.{lit, ◌≡◌, refl, sym, ap, ◌↔◌, ◌⊎◌, inl, inr, true, ◌&&◌, ◌||◌, []}
use mathlib.Core.Path.{subst}
use pi_ptc_advanced.Json.{
  Value, Fields, undefined, null, boolean, number, string, array, object, prop, is_undefined,
}
use pi_ptc_advanced.Evals.Case.{
  Numbers, expected_first_paths, acceptance_types, is_one_of, is_positive_integer, contract_errors,
  target_rest_errors, target_errors, acceptance_errors, validate_eval_case,
}
use pi_ptc_advanced.Evals.Case.Checks.{
  IsText, IsOneOf, AreTexts, IsObject, fields, unless_iff, unless_then, unless_last, string_iff,
  word_iff, array_iff, object_iff,
}

module _ {N : Type 0} (numbers : Numbers N) where
  abbrev pub IsPositive : Value N → Type 0
  IsPositive v = (n : N) × (v ≡ number n) × ((numbers.is_integer n && numbers.above_zero n) ≡ true)

  -- `EvalCaseRecipeOutputContract`
  abbrev pub ContractFields : Fields N → Type 0
  ContractFields fs =
      IsText (prop fs (lit "format"))
      × (IsText (prop fs (lit "style"))
          × (IsText (prop fs (lit "focus"))
              × (IsPositive (prop fs (lit "max_items"))
                  × ((prop fs (lit "max_chars") ≡ undefined)
                      ⊎ IsPositive (prop fs (lit "max_chars"))))))

  -- `EvalCaseRecipeTarget`
  abbrev pub TargetFields : Fields N → Type 0
  TargetFields fs =
      AreTexts (prop fs (lit "repos"))
      × (IsText (prop fs (lit "workflow"))
          × (IsText (prop fs (lit "summary"))
              × IsObject ContractFields (prop fs (lit "output_contract"))))

  -- `EvalCaseAcceptance`, beside the recipe target.
  abbrev pub AcceptanceFields : Fields N → Type 0
  AcceptanceFields fs =
      IsOneOf acceptance_types (prop fs (lit "type")) × AreTexts (prop fs (lit "rules"))

  abbrev pub IsTarget : Value N → Type 0
  IsTarget v = (v ≡ undefined) ⊎ IsObject TargetFields v

  -- `EvalCase`
  abbrev pub IsEvalCase : Value N → Type 0
  IsEvalCase v =
      IsObject
        (λ fs.
          IsText (prop fs (lit "id"))
          × (IsText (prop fs (lit "prompt"))
              × (IsOneOf expected_first_paths (prop fs (lit "expected_first_path"))
                  × (IsObject AcceptanceFields (prop fs (lit "acceptance"))
                      × IsTarget (prop fs (lit "recipe_target"))))))
        v

  number_iff : (v : Value N) → (is_positive_integer numbers v ≡ true) ↔ IsPositive v
  number_iff (number n) =
      (λ e. (n, refl, e), λ t. let (other, e, p) = t in let same : n ≡ other = cc e in rw same p)
  number_iff undefined = (λ e. cc, λ t. let (s, e, p) = t in cc e)
  number_iff null = (λ e. cc, λ t. let (s, e, p) = t in cc e)
  number_iff (boolean b) = (λ e. cc, λ t. let (s, e, p) = t in cc e)
  number_iff (string s) = (λ e. cc, λ t. let (s, e, p) = t in cc e)
  number_iff (array items) = (λ e. cc, λ t. let (s, e, p) = t in cc e)
  number_iff (object fs) = (λ e. cc, λ t. let (s, e, p) = t in cc e)

  optional_iff :
      (v : Value N)
      → ((is_undefined v || is_positive_integer numbers v) ≡ true)
        ↔ ((v ≡ undefined) ⊎ IsPositive v)
  optional_iff undefined = (λ e. inl refl, λ t. refl)
  optional_iff null = (
    λ e. inr ((number_iff null).0 e),
    λ t. elim t [ inl e ↦ cc e | inr t ↦ (number_iff null).1 t ],
  )
  optional_iff (boolean b) = (
    λ e. inr ((number_iff (boolean b)).0 e),
    λ t. elim t [ inl e ↦ cc e | inr t ↦ (number_iff (boolean b)).1 t ],
  )
  optional_iff (number n) = (
    λ e. inr ((number_iff (number n)).0 e),
    λ t. elim t [ inl e ↦ cc e | inr t ↦ (number_iff (number n)).1 t ],
  )
  optional_iff (string s) = (
    λ e. inr ((number_iff (string s)).0 e),
    λ t. elim t [ inl e ↦ cc e | inr t ↦ (number_iff (string s)).1 t ],
  )
  optional_iff (array items) = (
    λ e. inr ((number_iff (array items)).0 e),
    λ t. elim t [ inl e ↦ cc e | inr t ↦ (number_iff (array items)).1 t ],
  )
  optional_iff (object fs) = (
    λ e. inr ((number_iff (object fs)).0 e),
    λ t. elim t [ inl e ↦ cc e | inr t ↦ (number_iff (object fs)).1 t ],
  )

  contract_iff : (v : Value N) → (contract_errors numbers v ≡ []) ↔ IsObject ContractFields v
  unfolding contract_errors
  contract_iff (object fs) = object_iff fs (
      unless_then _ (string_iff (prop fs (lit "format"))) (
        unless_then _ (string_iff (prop fs (lit "style"))) (
          unless_then _ (string_iff (prop fs (lit "focus"))) (
            unless_then _ (number_iff (prop fs (lit "max_items")))
              (unless_last _ (optional_iff (prop fs (lit "max_chars"))))))))
  contract_iff undefined = (λ e. cc, λ t. let (s, e, p) = t in cc e)
  contract_iff null = (λ e. cc, λ t. let (s, e, p) = t in cc e)
  contract_iff (boolean b) = (λ e. cc, λ t. let (s, e, p) = t in cc e)
  contract_iff (number n) = (λ e. cc, λ t. let (s, e, p) = t in cc e)
  contract_iff (string s) = (λ e. cc, λ t. let (s, e, p) = t in cc e)
  contract_iff (array items) = (λ e. cc, λ t. let (s, e, p) = t in cc e)

  target_rest_iff :
      (fs : Fields N)
      → (target_rest_errors numbers fs ≡ []) ↔ (
          IsText (prop fs (lit "workflow"))
          × (IsText (prop fs (lit "summary"))
              × IsObject ContractFields (prop fs (lit "output_contract"))))
  unfolding target_rest_errors
  target_rest_iff fs = unless_then _ (string_iff (prop fs (lit "workflow"))) (
      unless_then _ (string_iff (prop fs (lit "summary")))
        (contract_iff (prop fs (lit "output_contract"))))

  recipe_iff : (v : Value N) → (target_errors numbers v ≡ []) ↔ IsTarget v
  unfolding target_errors target_rest_errors
  recipe_iff undefined = (λ e. inl refl, λ t. refl)
  recipe_iff (object fs) =
      let rest = target_rest_iff fs in
      let repos =
        array_iff (lit "recipe_target.repos") (target_rest_errors numbers fs)
          (target_rest_errors numbers fs) (prop fs (lit "repos")) in
      let body : _ ↔ TargetFields fs =
        (λ e. let (texts, r) = repos.0 e in (texts, rest.0 r), λ h. repos.1 (h.0, rest.1 h.1)) in
      let whole = object_iff fs body in
      (λ e. inr (whole.0 e), λ t. elim t [ inl e ↦ cc e | inr t ↦ whole.1 t ])
  recipe_iff null = (λ e. cc, λ t. elim t [ inl e ↦ cc e | inr (fs, e, b) ↦ cc e ])
  recipe_iff (boolean b) = (λ e. cc, λ t. elim t [ inl e ↦ cc e | inr (fs, e, b) ↦ cc e ])
  recipe_iff (number n) = (λ e. cc, λ t. elim t [ inl e ↦ cc e | inr (fs, e, b) ↦ cc e ])
  recipe_iff (string s) = (λ e. cc, λ t. elim t [ inl e ↦ cc e | inr (fs, e, b) ↦ cc e ])
  recipe_iff (array items) = (λ e. cc, λ t. elim t [ inl e ↦ cc e | inr (fs, e, b) ↦ cc e ])

  acceptance_iff :
      (v target : Value N)
      → (acceptance_errors numbers v target ≡ []) ↔ (IsObject AcceptanceFields v × IsTarget target)
  unfolding acceptance_errors fields
  acceptance_iff (object fs) target =
      let more = recipe_iff target in
      let rules =
        array_iff (lit "acceptance.rules") [] (target_errors numbers target)
          (prop fs (lit "rules")) in
      let tests = unless_iff (is_one_of acceptance_types (prop fs (lit "type"))) _ _ in
      let type = word_iff acceptance_types (prop fs (lit "type")) in
      (
        λ e.
            let (t, r) = tests.0 e in
            let (texts, m) = rules.0 r in ((fs, refl, (type.0 t, texts)), more.0 m),
        λ h.
            let ((other, e, b), t) = h in
            let (named, texts) = subst AcceptanceFields (sym (ap fields e)) b in
            tests.1 (type.1 named, rules.1 (texts, more.1 t)),
      )
  acceptance_iff undefined target = (λ e. cc, λ t. let ((fs, e, b), r) = t in cc e)
  acceptance_iff null target = (λ e. cc, λ t. let ((fs, e, b), r) = t in cc e)
  acceptance_iff (boolean b) target = (λ e. cc, λ t. let ((fs, e, b), r) = t in cc e)
  acceptance_iff (number n) target = (λ e. cc, λ t. let ((fs, e, b), r) = t in cc e)
  acceptance_iff (string s) target = (λ e. cc, λ t. let ((fs, e, b), r) = t in cc e)
  acceptance_iff (array items) target = (λ e. cc, λ t. let ((fs, e, b), r) = t in cc e)

  -- The validation finds no error in a value exactly where the value has the fields that `EvalCase`
  -- declares, with the texts not blank, the lists not empty and the bounds positive.
  pub validate_eval_case_iff : (v : Value N) → (validate_eval_case numbers v ≡ []) ↔ IsEvalCase v
  unfolding validate_eval_case
  validate_eval_case_iff (object fs) = object_iff fs (
      unless_then _ (string_iff (prop fs (lit "id"))) (
        unless_then _ (string_iff (prop fs (lit "prompt"))) (
          unless_then _ (word_iff expected_first_paths (prop fs (lit "expected_first_path")))
            (acceptance_iff (prop fs (lit "acceptance")) (prop fs (lit "recipe_target"))))))
  validate_eval_case_iff undefined = (λ e. cc, λ t. let (s, e, p) = t in cc e)
  validate_eval_case_iff null = (λ e. cc, λ t. let (s, e, p) = t in cc e)
  validate_eval_case_iff (boolean b) = (λ e. cc, λ t. let (s, e, p) = t in cc e)
  validate_eval_case_iff (number n) = (λ e. cc, λ t. let (s, e, p) = t in cc e)
  validate_eval_case_iff (string s) = (λ e. cc, λ t. let (s, e, p) = t in cc e)
  validate_eval_case_iff (array items) = (λ e. cc, λ t. let (s, e, p) = t in cc e)
