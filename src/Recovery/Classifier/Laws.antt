-- ===== src/Recovery/Classifier/Laws.antt =====
-- What stands behind a classified failure: src/recovery-classifier.ts.
use pi_ptc_advanced.Common.{
  Bool-cases, any, Text, ◌≡◌, refl, inl, inr, Bool, true, false, Option, some, List, [], ◌∷◌, Memᴰ,
  arith,
}
use pi_ptc_advanced.Recovery.{RecoveryFailureClass, missing_await, async_wrapper_iterated}
use pi_ptc_advanced.Recovery.Classifier.{
  calls_helper, awaits_helper, iterates_helper, get_evidence_lines, is_direct_unawaited,
  is_iterated_unawaited, classify_code_execution_failure,
}

any-mem {ℓ} :
    {A : Type ℓ} (p : A → Bool) (xs : List A) → any p xs ≡ true → (a : A) × Memᴰ a xs × (p a ≡ true)
any-mem p [] e = absurd (ground arith)
any-mem p (x ∷ xs) e = elim (Bool-cases (p x)) [
  | inl here ↦ (x, Memᴰ.head refl, here)
  | inr not_here ↦ let (a, m, passes) = any-mem p xs (ground arith) in (a, Memᴰ.tail m, passes)
]

-- The line that is to blame: a helper is called and not awaited, and what is done with the result.
abbrev pub IsBlamed : RecoveryFailureClass → Text → Type 0
IsBlamed missing_await line =
    (calls_helper line ≡ true) × (awaits_helper line ≡ false) × (iterates_helper line ≡ false)
IsBlamed async_wrapper_iterated line = (awaits_helper line ≡ false) × (iterates_helper line ≡ true)

direct_lem : (line : Text) → is_direct_unawaited line ≡ true → IsBlamed missing_await line
unfolding is_direct_unawaited
direct_lem line e = ground arith

iterated_lem :
    (line : Text) → is_iterated_unawaited line ≡ true → IsBlamed async_wrapper_iterated line
unfolding is_iterated_unawaited
iterated_lem line e = ground arith

-- A failure is classified only on evidence: a line of the traceback or of the code, without its
-- comment, in which no known helper is awaited, and which calls one directly for a missing await, and
-- collects, loops over, indexes or unpacks its result for an iterated wrapper.
pub classify-IsBlamed :
    (message : Text) (traceback code : Option Text) (failure : RecoveryFailureClass)
    → classify_code_execution_failure message traceback code ≡ some failure
    → (line : Text) × Memᴰ line (get_evidence_lines traceback code) × IsBlamed failure line
unfolding classify_code_execution_failure
classify-IsBlamed message traceback code missing_await e =
    let evidence = get_evidence_lines traceback code in
    let (line, m, passes) = any-mem is_direct_unawaited evidence (ground arith) in
    (line, m, direct_lem line passes)
classify-IsBlamed message traceback code async_wrapper_iterated e =
    let evidence = get_evidence_lines traceback code in
    let (line, m, passes) = any-mem is_iterated_unawaited evidence (ground arith) in
    (line, m, iterated_lem line passes)
