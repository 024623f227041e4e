-- ===== src/Utils.antt =====
-- `truncateOutput` of src/utils.ts: the output limit of a run.
mod Samples
pub mod Environment
pub mod Prompts
use Prim.Native.Nat.{max}
use pi_ptc_advanced.Common.{
  leb, nat_beq, if◌then◌else◌, length, take, length-take, Text, lit, show_ℕ, ℕ, zero, suc, ◌-◌, ◌≤◌,
  ◌≡◌, ◌++◌, arith,
}

abbrev pub default_max_output_size : ℕ
default_max_output_size = 100000

-- `output.length` and the number of characters shown, in words.
build_notice : ℕ → ℕ → Text
build_notice all shown =
    lit "\n\n[Output truncated - showing first "
    ++ (show_ℕ shown ++ (lit " characters of " ++ (show_ℕ all ++ lit "]")))

-- What is returned after the loop, cut again where the notice has grown.
with_notice : ℕ → Text → ℕ → Text → Text
with_notice limit output budget notice =
    let bounded = take budget output ++ notice in
    if leb (length bounded) limit then bounded else take limit bounded

-- The loop, with the attempts that are left. A budget that is not positive is 0 here.
fit_notice : ℕ → Text → ℕ → ℕ → Text → Text
unfolding build_notice with_notice
fit_notice limit output zero budget notice = with_notice limit output budget notice
fit_notice limit output (suc attempts) budget notice =
    let notice' = build_notice (length output) budget in
    let next = limit - length notice' in
    let rest = fit_notice limit output attempts next notice' in
    if nat_beq next budget
    then with_notice limit output budget notice'
    else if nat_beq next 0
    then take limit output
    else rest

unfoldable pub truncate_output : Text → ℕ → Text
unfolding fit_notice build_notice
truncate_output output max_output_chars =
    let limit = max 1 max_output_chars in
    let notice = build_notice (length output) limit in
    let budget = limit - length notice in
    if leb (length output) limit
    then output
    else if nat_beq budget 0
    then take limit output
    else fit_notice limit output 4 budget notice

take-length-le : (n : ℕ) (s : Text) → length (take n s) ≤ n
take-length-le n s = ground (arith, length-take n s)

with_notice-le :
    (limit : ℕ) (output : Text) (budget : ℕ) (notice : Text)
    → length (with_notice limit output budget notice) ≤ limit
unfolding with_notice
with_notice-le limit output budget notice =
    ground (arith, take-length-le limit (take budget output ++ notice))

fit_notice-le :
    (limit : ℕ) (output : Text) (attempts budget : ℕ) (notice : Text)
    → length (fit_notice limit output attempts budget notice) ≤ limit
unfolding fit_notice
fit_notice-le limit output zero budget notice = with_notice-le limit output budget notice
fit_notice-le limit output (suc attempts) budget notice =
    let notice' = build_notice (length output) budget in
    ground (
      arith,
      with_notice-le limit output budget notice',
      take-length-le limit output,
      fit_notice-le limit output attempts (limit - length notice') notice',
    )

-- For every text and limit, what is returned has no more characters than the limit, which counts as
-- at least 1 and includes the notice; a text within the limit comes back unchanged.
pub truncate_output-le :
    (output : Text) (max_output_chars : ℕ)
    → (length (truncate_output output max_output_chars) ≤ max 1 max_output_chars)
      × (length output ≤ max 1 max_output_chars → truncate_output output max_output_chars ≡ output)
unfolding truncate_output
truncate_output-le output max_output_chars =
    let limit = max 1 max_output_chars in
    let notice = build_notice (length output) limit in
    ground (
      arith,
      take-length-le limit output,
      fit_notice-le limit output 4 (limit - length notice) notice,
    )
