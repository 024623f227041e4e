-- ===== src/Evals/Case/Checks.antt =====
-- src/eval-cases.ts: the tests of strings, words, arrays and objects.
use pi_ptc_advanced.Common.{
  All, Text, trim, truthy, includes_of_mem, mem_of_includes, ℕ, suc, ◌≡◌, refl, sym, ap, ◌↔◌, Bool,
  true, false, List, [], ◌∷◌, ◌++◌, Memᴰ,
}
use mathlib.Core.Path.{subst}
use pi_ptc_advanced.Json.{
  Value, Items, Fields, undefined, null, boolean, number, string, array, object, nil, cons, end,
  elements,
}
use pi_ptc_advanced.Evals.Case.{
  unless, is_non_empty_string, is_one_of, element_errors, array_errors,
}

module _ {N : Type 0} where
  -- A string that is not only whitespace.
  abbrev pub IsText : Value N → Type 0
  IsText v = (s : Text) × (v ≡ string s) × (truthy (trim s) ≡ true)

  abbrev pub IsOneOf : List Text → Value N → Type 0
  IsOneOf words v = (s : Text) × (v ≡ string s) × Memᴰ s words

  contents : Value N → List (Value N)
  unfolding elements
  contents (array items) = elements items
  contents v = []

  -- A non-empty array of such strings.
  abbrev pub AreTexts : Value N → Type 0
  AreTexts v =
      (first : Value N) × (items : Items N) × (v ≡ array (cons first items))
      × All IsText (first ∷ elements items)

pub unless_iff :
    (b : Bool) (message : Text) (rest : List Text)
    → ((unless b message ++ rest) ≡ []) ↔ ((b ≡ true) × (rest ≡ []))
unless_iff true message rest = (λ e. (refl, e), λ e. e.1)
unless_iff false message rest = (λ e. cc, λ e. cc (e.0))

pub unless_nil_iff : (b : Bool) (message : Text) → (unless b message ≡ []) ↔ (b ≡ true)
unless_nil_iff true message = (λ e. refl, λ e. refl)
unless_nil_iff false message = (λ e. cc, λ e. cc e)

pub append-nil_iff : (xs ys : List Text) → ((xs ++ ys) ≡ []) ↔ ((xs ≡ []) × (ys ≡ []))
append-nil_iff [] ys = (λ e. (refl, e), λ e. e.1)
append-nil_iff (x ∷ xs) ys = (λ e. cc, λ e. cc (e.0))

-- A test that is met and no error after it.
pub unless_then :
    {P R : Type 0} {b : Bool} (message : Text) {rest : List Text}
    → ((b ≡ true) ↔ P)
    → ((rest ≡ []) ↔ R)
    → ((unless b message ++ rest) ≡ []) ↔ (P × R)
unless_then {b = b} message {rest} test more =
    let first = unless_iff b message rest in
    (λ e. let (t, r) = first.0 e in (test.0 t, more.0 r), λ h. first.1 (test.1 h.0, more.1 h.1))

pub unless_last :
    {P : Type 0} {b : Bool} (message : Text) → ((b ≡ true) ↔ P) → (unless b message ≡ []) ↔ P
unless_last {b = b} message test =
    let last = unless_nil_iff b message in (λ e. test.0 (last.0 e), λ h. last.1 (test.1 h))

module _ {N : Type 0} where
  pub string_iff : (v : Value N) → (is_non_empty_string v ≡ true) ↔ IsText v
  string_iff (string s) =
      (λ e. (s, refl, e), λ t. let (other, e, p) = t in let same : s ≡ other = cc e in rw same p)
  string_iff undefined = (λ e. cc, λ t. let (s, e, p) = t in cc e)
  string_iff null = (λ e. cc, λ t. let (s, e, p) = t in cc e)
  string_iff (boolean b) = (λ e. cc, λ t. let (s, e, p) = t in cc e)
  string_iff (number n) = (λ e. cc, λ t. let (s, e, p) = t in cc e)
  string_iff (array items) = (λ e. cc, λ t. let (s, e, p) = t in cc e)
  string_iff (object fs) = (λ e. cc, λ t. let (s, e, p) = t in cc e)

  pub word_iff : (words : List Text) (v : Value N) → (is_one_of words v ≡ true) ↔ IsOneOf words v
  word_iff words (string s) = (
    λ e. (s, refl, mem_of_includes words s e),
    λ t. let (other, e, m) = t in let same : s ≡ other = cc e in includes_of_mem words (rw same m),
  )
  word_iff words undefined = (λ e. cc, λ t. let (s, e, p) = t in cc e)
  word_iff words null = (λ e. cc, λ t. let (s, e, p) = t in cc e)
  word_iff words (boolean b) = (λ e. cc, λ t. let (s, e, p) = t in cc e)
  word_iff words (number n) = (λ e. cc, λ t. let (s, e, p) = t in cc e)
  word_iff words (array items) = (λ e. cc, λ t. let (s, e, p) = t in cc e)
  word_iff words (object fs) = (λ e. cc, λ t. let (s, e, p) = t in cc e)

  pub elements_iff :
      (path : Text) (index : ℕ) (vs : List (Value N))
      → (element_errors path index vs ≡ []) ↔ All IsText vs
  unfolding element_errors
  elements_iff path index [] = (λ e. tt, λ h. refl)
  elements_iff path index (v ∷ vs) =
      let first = unless_iff (is_non_empty_string v) _ (element_errors path (suc index) vs) in
      let rest = elements_iff path (suc index) vs in
      (
        λ e. let (t, r) = first.0 e in ((string_iff v).0 t, rest.0 r),
        λ h. first.1 ((string_iff v).1 h.0, rest.1 h.1),
      )

  pub array_iff :
      (path : Text) (rest more : List Text) (v : Value N)
      → (array_errors path rest more v ≡ []) ↔ (AreTexts v × (more ≡ []))
  unfolding array_errors elements contents
  array_iff path rest more (array (cons v items)) =
      let both = append-nil_iff (element_errors path 0 (v ∷ elements items)) more in
      let texts = elements_iff path 0 (v ∷ elements items) in
      (
        λ e. let (t, r) = both.0 e in ((v, items, refl, texts.0 t), r),
        λ h.
            let ((first, others, e, t), r) = h in
            both.1 (texts.1 (subst (All IsText) (sym (ap contents e)) t), r),
      )
  array_iff path rest more (array nil) = (λ e. cc, λ h. let ((first, others, e, t), r) = h in cc e)
  array_iff path rest more undefined = (λ e. cc, λ h. let ((first, others, e, t), r) = h in cc e)
  array_iff path rest more null = (λ e. cc, λ h. let ((first, others, e, t), r) = h in cc e)
  array_iff path rest more (boolean b) = (λ e. cc, λ h. let ((first, others, e, t), r) = h in cc e)
  array_iff path rest more (number n) = (λ e. cc, λ h. let ((first, others, e, t), r) = h in cc e)
  array_iff path rest more (string s) = (λ e. cc, λ h. let ((first, others, e, t), r) = h in cc e)
  array_iff path rest more (object fs) = (λ e. cc, λ h. let ((first, others, e, t), r) = h in cc e)

  -- An object whose fields have a property.
  abbrev pub IsObject : (Fields N → Type 0) → Value N → Type 0
  IsObject Body v = (fs : Fields N) × (v ≡ object fs) × Body fs

  unfoldable pub fields : Value N → Fields N
  fields (object fs) = fs
  fields v = end

  pub object_iff :
      {Body : Fields N → Type 0} (fs : Fields N) {errors : List Text}
      → ((errors ≡ []) ↔ Body fs)
      → (errors ≡ []) ↔ IsObject Body (object fs)
  unfolding fields
  object_iff {Body} fs body = (
    λ e. (fs, refl, body.0 e),
    λ h. let (other, e, b) = h in body.1 (subst Body (sym (ap fields e)) b),
  )
