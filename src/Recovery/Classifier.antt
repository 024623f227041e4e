-- ===== src/Recovery/Classifier.antt =====
-- src/recovery-classifier.ts: which failures of user code are ascribed to a helper called without
-- `await`, and the prompt that says so.
pub mod Laws
use pi_ptc_advanced.Common.{
  ltb, nat_beq, if◌then◌else◌, length, drop, any, keep, Text, lit, trim, trim_start, truthy, join,
  split, Bool, true, false, not, ◌&&◌, ◌||◌, Option, none, some, List, [], ◌∷◌, ◌++◌, map,
}
use pi_ptc_advanced.Common.Patterns.{
  is_boundary, is_terminator, starts_with, search_from, contains, contains_word, ascii_lower,
}
use pi_ptc_advanced.Recovery.{RecoveryFailureClass, missing_await, async_wrapper_iterated}

abbrev pub known_async_helpers : List Text
known_async_helpers =
    lit "read"
    ∷ lit "glob"
    ∷ lit "find"
    ∷ lit "grep"
    ∷ lit "ls"
    ∷ lit "ptc.read_many"
    ∷ lit "ptc.read_tree"
    ∷ lit "ptc.find_files"
    ∷ lit "ptc.find_files_abs"
    ∷ lit "ptc.read_text"
    ∷ []

-- `\s*\(`
opens : Text → Bool
unfolding starts_with
opens s = starts_with (lit "(") (trim_start s)

-- `(?:helper)\s*\(`
helper_opens : Text → Bool
unfolding opens
helper_opens s =
    any (λ name. starts_with name s && opens (drop (length name) s)) known_async_helpers

-- `\b(?:helper)\s*\(` at a place, and anywhere in the rest of a line.
helper_call_at : Bool → Text → Bool
unfolding helper_opens
helper_call_at before s = is_boundary before s && helper_opens s

helper_call_in : Bool → Text → Bool
unfolding helper_call_at search_from
helper_call_in before s = search_from helper_call_at before s

unfoldable pub calls_helper : Text → Bool
unfolding helper_call_in
calls_helper line = helper_call_in false line

-- `\bawait\s+(?:helper)\s*\(`
unfoldable pub awaits_helper : Text → Bool
unfolding helper_opens search_from
awaits_helper line =
    search_from
      (λ before s.
        is_boundary before s
        && starts_with (lit "await") s
        && ltb (length (trim_start (drop 5 s))) (length (drop 5 s))
        && helper_opens (trim_start (drop 5 s)))
      false line

-- `\b(?:sorted|list|tuple|set)\s*\([^\n]*\b(?:helper)\s*\(`
collects_helper : Text → Bool
unfolding opens helper_call_in search_from
collects_helper line =
    search_from
      (λ before s.
        is_boundary before s
        && any
            (λ name.
              starts_with name s
              && opens (drop (length name) s)
              && helper_call_in false (drop 1 (trim_start (drop (length name) s))))
            (lit "sorted" ∷ lit "list" ∷ lit "tuple" ∷ lit "set" ∷ []))
      false line

-- `\b<word>\b` with a test of what follows it, after a word's character.
after_word : Text → (Text → Bool) → Bool → Text → Bool
after_word word then_test before s =
    is_boundary before s
    && starts_with word s
    && is_boundary true (drop (length word) s)
    && then_test (drop (length word) s)

-- `\bfor\b[^\n]*\bin\b[^\n]*\b(?:helper)\s*\(`
loops_over_helper : Text → Bool
unfolding after_word helper_call_in search_from
loops_over_helper line =
    search_from
      (after_word (lit "for") (search_from (after_word (lit "in") (helper_call_in true)) true))
      false line

-- `[^\n]*\)\s*\[`
is_indexed : Text → Bool
unfolding search_from starts_with
is_indexed s =
    search_from
      (λ before rest.
        starts_with (lit ")") rest && starts_with (lit "[") (trim_start (drop 1 rest)))
      false s

-- `\b(?:helper)\s*\([^\n]*\)\s*\[`
indexes_helper : Text → Bool
unfolding opens is_indexed search_from
indexes_helper line =
    search_from
      (λ before s.
        is_boundary before s
        && any
            (λ name.
              starts_with name s
              && opens (drop (length name) s)
              && is_indexed (drop 1 (trim_start (drop (length name) s))))
            known_async_helpers)
      false line

-- The comma of `^[^#\n=]+,\s*[^#\n=]+=`: one has a character on each side before the first `=`.
has_inner_comma : Text → Bool
has_inner_comma [] = false
has_inner_comma (c ∷ []) = false
has_inner_comma (c ∷ d ∷ []) = false
has_inner_comma (c ∷ d ∷ e ∷ s) = nat_beq d 44 || has_inner_comma (d ∷ e ∷ s)

-- The text before the first `=` and the text after it, where no `#` comes first.
before_equals : Text → Option (Text × Text)
before_equals [] = none
before_equals (c ∷ s) =
    let rest = before_equals s in
    if nat_beq c 61
    then some ([], s)
    else if nat_beq c 35
    then none
    else elim rest [ none ↦ none | some (t, u) ↦ some (c ∷ t, u) ]

without_star : Text → Text
without_star [] = []
without_star (c ∷ s) = if nat_beq c 42 then trim_start s else c ∷ s

-- `^[^#\n=]+,\s*[^#\n=]+=\s*(?:\*\s*)?(?:helper)\s*\(`
unpacks_helper : Text → Bool
unfolding has_inner_comma before_equals without_star helper_opens
unpacks_helper line = elim (before_equals line) [
  | none ↦ false
  | some (targets, value) ↦
      has_inner_comma targets && helper_opens (without_star (trim_start value))
]

unfoldable pub iterates_helper : Text → Bool
unfolding collects_helper loops_over_helper indexes_helper unpacks_helper
iterates_helper line =
    collects_helper line || loops_over_helper line || indexes_helper line || unpacks_helper line

-- `/\bcoroutine\b|was never awaited|\bawait\b/i`
is_missing_await_diagnostic : Text → Bool
unfolding contains contains_word ascii_lower
is_missing_await_diagnostic s =
    contains_word (lit "coroutine" ∷ lit "await" ∷ []) (ascii_lower s)
    || contains (lit "was never awaited") (ascii_lower s)

is_iterated_coroutine_diagnostic : Text → Bool
unfolding contains ascii_lower
is_iterated_coroutine_diagnostic s =
    contains (lit "'coroutine' object is not iterable") (ascii_lower s)
    || contains (lit "'coroutine' object is not subscriptable") (ascii_lower s)
    || contains (lit "cannot unpack non-iterable coroutine object") (ascii_lower s)

-- `line.replace(/#.*$/, "")`
without_comment : Text → Text
without_comment [] = []
without_comment (c ∷ s) =
    let rest = without_comment s in
    if nat_beq c 35 && not (any is_terminator s) then [] else c ∷ rest

unfoldable pub strip_comment : Text → Text
unfolding without_comment
strip_comment line = trim (without_comment line)

given : List (Option Text) → List Text
given [] = []
given (none ∷ values) = given values
given (some s ∷ values) = let rest = given values in if truthy (trim s) then s ∷ rest else rest

all_lines : List Text → List Text
all_lines [] = []
all_lines (s ∷ texts) = split 10 s ++ all_lines texts

unfoldable pub get_evidence_lines : Option Text → Option Text → List Text
unfolding given all_lines strip_comment
get_evidence_lines traceback code =
    keep truthy (map strip_comment (all_lines (given (traceback ∷ code ∷ []))))

unfoldable pub is_direct_unawaited : Text → Bool
unfolding calls_helper awaits_helper iterates_helper
is_direct_unawaited line =
    if not (calls_helper line) || awaits_helper line then false else not (iterates_helper line)

unfoldable pub is_iterated_unawaited : Text → Bool
unfolding awaits_helper iterates_helper
is_iterated_unawaited line = not (awaits_helper line) && iterates_helper line

unfoldable pub classify_code_execution_failure :
    Text → Option Text → Option Text → Option RecoveryFailureClass
unfolding get_evidence_lines is_missing_await_diagnostic is_iterated_coroutine_diagnostic given
    is_direct_unawaited is_iterated_unawaited
classify_code_execution_failure message traceback code =
    let evidence = get_evidence_lines traceback code in
    let diagnostics = join (lit "\n") (given (some message ∷ traceback ∷ [])) in
    if is_missing_await_diagnostic diagnostics && any is_direct_unawaited evidence
    then some missing_await
    else if is_iterated_coroutine_diagnostic diagnostics && any is_iterated_unawaited evidence
    then some async_wrapper_iterated
    else none

unfoldable pub build_code_execution_recovery_prompt : RecoveryFailureClass → Text
build_code_execution_recovery_prompt missing_await =
    lit
      "PTC recovery: You called an async helper without await. Helpers like read, glob, find, grep, and ls are async wrappers. Await each helper call before using its result."
build_code_execution_recovery_prompt async_wrapper_iterated =
    lit
      "PTC recovery: You used an async helper result before awaiting it. Helpers like read, glob, find, grep, and ls are async wrappers. Await the helper call before iterating, sorting, slicing, indexing, or unpacking the result."
