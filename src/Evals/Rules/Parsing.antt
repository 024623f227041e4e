-- ===== src/Evals/Rules/Parsing.antt =====
-- src/benchmark-runner.ts: parseRuleExpectation reads what `key=value` writes.
use mathlib.Core.Path.{ap₂}
use pi_ptc_advanced.Common.{
  nat_beq, length, take, drop, every, Text, trim, truthy, ℕ, suc, ◌+◌, ◌≡◌, refl, ap, ◌∙◌, Bool,
  true, not, some, List, [], ◌∷◌, ◌++◌, arith,
}
use pi_ptc_advanced.Evals.Rules.{
  RuleExpectation, index_from, expectation, expectation_at, parse_rule_expectation,
}

-- `${key}=${value}`
abbrev pub show_expectation : RuleExpectation → Text
show_expectation e = e.key ++ 61 ∷ e.value

-- A text without the equals sign.
abbrev pub has_no_equals : Text → Bool
has_no_equals key = every (λ c. not (nat_beq 61 c)) key

index-append :
    (place : ℕ) (key value : Text)
    → has_no_equals key ≡ true
    → index_from place 61 (key ++ 61 ∷ value) ≡ some (place + length key)
index-append place [] value free = ap some (omega arith)
index-append place (c ∷ key) value free =
    let later = index-append (suc place) key value in ground (arith, later)

take-append {ℓ} : {A : Type ℓ} (xs ys : List A) → take (length xs) (xs ++ ys) ≡ xs
take-append [] ys = refl
take-append (x ∷ xs) ys = ap (x ∷◌) (take-append xs ys)

drop-append {ℓ} :
    {A : Type ℓ} (xs : List A) (y : A) (ys : List A) → drop (suc (length xs)) (xs ++ y ∷ ys) ≡ ys
drop-append [] y ys = refl
drop-append (x ∷ xs) y ys = drop-append xs y ys

given-expectation :
    (key value : Text)
    → truthy key ≡ true
    → truthy value ≡ true
    → expectation key value ≡ some (record { key = key; value = value })
unfolding expectation
given-expectation (c ∷ key) (d ∷ value) k v = refl
given-expectation [] value k v = cc
given-expectation (c ∷ key) [] k v = cc

-- A rule that is written from a key and a value, neither empty, both without whitespace around
-- them and the key without an equals sign, is read as that key and value, also where the value has
-- equals signs.
pub parse_rule-show :
    (e : RuleExpectation)
    → has_no_equals e.key ≡ true
    → trim e.key ≡ e.key
    → trim e.value ≡ e.value
    → truthy e.key ≡ true
    → truthy e.value ≡ true
    → parse_rule_expectation (show_expectation e) ≡ some e
unfolding parse_rule_expectation expectation_at
parse_rule-show e free key_trimmed value_trimmed key_given value_given =
    let rule = show_expectation e in
    let place : index_from 0 61 rule ≡ some (length e.key) =
      index-append 0 e.key e.value free ∙ ap some (omega arith) in
    let key = ap trim (take-append e.key (61 ∷ e.value)) ∙ key_trimmed in
    let value = ap trim (drop-append e.key 61 e.value) ∙ value_trimmed in
    ap (expectation_at rule) place
    ∙ ap₂ expectation key value
    ∙ given-expectation e.key e.value key_given value_given
