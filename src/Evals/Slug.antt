-- ===== src/Evals/Slug.antt =====
-- src/benchmark-runner.ts: getProviderModelSlug and the paths that are made from it. `lower` is
-- `toLowerCase`, and `join_path` is `path.join`.
use pi_ptc_advanced.Common.{
  leb, nat_beq, if◌then◌else◌, Text, lit, trim, is_empty, ℕ, Bool, true, false, ◌&&◌, ◌||◌, List,
  [], ◌∷◌, ◌++◌,
}
pub mod Characters

-- `[a-z0-9._-]`
abbrev pub is_slug_character : ℕ → Bool
is_slug_character c =
    (leb 97 c && leb c 122)
    || (leb 48 c && leb c 57)
    || nat_beq c 46
    || nat_beq c 95
    || nat_beq c 45

-- `.replace(/[^a-z0-9._-]+/g, "-")`, given whether the character before is one that is replaced.
unfoldable pub replace_runs : Bool → Text → Text
replace_runs in_run [] = []
replace_runs in_run (c ∷ s) =
    let after_kept = replace_runs false s in
    let after_replaced = replace_runs true s in
    if is_slug_character c
    then c ∷ after_kept
    else if in_run
    then after_replaced
    else 45 ∷ after_replaced

unfoldable pub strip_dashes : Text → Text
strip_dashes [] = []
strip_dashes (c ∷ s) = let rest = strip_dashes s in if nat_beq c 45 then rest else c ∷ s

-- `.replace(/-+$/, "")`
unfoldable pub strip_last_dashes : Text → Text
strip_last_dashes [] = []
strip_last_dashes (c ∷ s) =
    let rest = strip_last_dashes s in if nat_beq c 45 && is_empty rest then [] else c ∷ rest

-- `normalize` of `getProviderModelSlug`.
unfoldable pub normalize : (Text → Text) → Text → Text
unfolding replace_runs strip_dashes strip_last_dashes
normalize lower value =
    let slug = strip_last_dashes (strip_dashes (replace_runs false (lower (trim value)))) in
    if is_empty slug then lit "unknown" else slug

unfoldable pub get_provider_model_slug : (Text → Text) → Text → Text → Text
unfolding normalize
get_provider_model_slug lower provider model =
    normalize lower provider ++ (lit "__" ++ normalize lower model)

unfoldable pub get_default_benchmark_result_path :
    (Text → Text) → (List Text → Text) → Text → Text → Text → Text → Text
unfolding get_provider_model_slug
get_default_benchmark_result_path lower join_path evals_path provider model timestamp = join_path (
    evals_path
    ∷ lit "results"
    ∷ get_provider_model_slug lower provider model
    ∷ (timestamp ++ lit ".json")
    ∷ [])

unfoldable pub get_default_benchmark_baseline_path :
    (Text → Text) → (List Text → Text) → Text → Text → Text → Text
unfolding get_provider_model_slug
get_default_benchmark_baseline_path lower join_path evals_path provider model = join_path (
    evals_path
    ∷ lit "baselines"
    ∷ (get_provider_model_slug lower provider model ++ lit ".json")
    ∷ [])
