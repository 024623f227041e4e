-- ===== src/Evals/Slug/Characters.antt =====
-- src/benchmark-runner.ts: a slug is one name of a file, of its five kinds of characters.
use pi_ptc_advanced.Common.{
  nat_beq, if◌then◌else◌, if-both, length, length-append, All, All-append, Text, lit, trim,
  is_empty, truthy, ◌≤◌, ◌≡◌, refl, Bool, true, false, ◌&&◌, [], ◌∷◌, ◌++◌, arith,
}
use pi_ptc_advanced.Evals.Slug.{
  is_slug_character, replace_runs, strip_dashes, strip_last_dashes, normalize,
  get_provider_model_slug,
}

abbrev pub IsSlug : Text → Type 0
IsSlug s = All (λ c. is_slug_character c ≡ true) s

replace-IsSlug : (in_run : Bool) (s : Text) → IsSlug (replace_runs in_run s)
unfolding replace_runs
replace-IsSlug in_run [] = tt
replace-IsSlug in_run (c ∷ s) =
    let kept = replace-IsSlug false s in
    let replaced = replace-IsSlug true s in by_kind (is_slug_character c) refl kept replaced
  where
    by_kind :
        (b : Bool)
        → is_slug_character c ≡ b
        → IsSlug (replace_runs false s)
        → IsSlug (replace_runs true s)
        → IsSlug (
            if b
            then c ∷ replace_runs false s
            else if in_run
            then replace_runs true s
            else 45 ∷ replace_runs true s)
    by_kind true e kept replaced = (e, kept)
    by_kind false e kept replaced = if-both IsSlug in_run replaced (refl, replaced)

strip-IsSlug : (s : Text) → IsSlug s → IsSlug (strip_dashes s)
unfolding strip_dashes
strip-IsSlug [] h = tt
strip-IsSlug (c ∷ s) (p, h) = if-both IsSlug (nat_beq c 45) (strip-IsSlug s h) (p, h)

strip_last-IsSlug : (s : Text) → IsSlug s → IsSlug (strip_last_dashes s)
unfolding strip_last_dashes
strip_last-IsSlug [] h = tt
strip_last-IsSlug (c ∷ s) (p, h) =
    let rest = strip_last-IsSlug s h in
    if-both IsSlug (nat_beq c 45 && is_empty (strip_last_dashes s)) tt (p, rest)

normalize-IsSlug : (lower : Text → Text) (value : Text) → IsSlug (normalize lower value)
unfolding normalize lit
normalize-IsSlug lower value =
    let replaced = replace_runs false (lower (trim value)) in
    let stripped = strip-IsSlug replaced (replace-IsSlug false (lower (trim value))) in
    if-both IsSlug (is_empty (strip_last_dashes (strip_dashes replaced)))
      (refl, (refl, (refl, (refl, (refl, (refl, (refl, tt)))))))
      (strip_last-IsSlug (strip_dashes replaced) stripped)

normalize-truthy : (lower : Text → Text) (value : Text) → truthy (normalize lower value) ≡ true
unfolding normalize lit
normalize-truthy lower value = by_slug _
  where
    by_slug : (slug : Text) → truthy (if is_empty slug then lit "unknown" else slug) ≡ true
    by_slug [] = refl
    by_slug (c ∷ s) = refl

length-slug : (a b : Text) → truthy a ≡ true → truthy b ≡ true → 4 ≤ length (a ++ 95 ∷ 95 ∷ b)
length-slug [] b p q = cc
length-slug (c ∷ a) [] p q = cc
length-slug (c ∷ a) (d ∷ b) p q = omega (arith, length-append a (95 ∷ 95 ∷ d ∷ b))

-- Whatever the provider and the model are, the slug has only lower-case letters, digits, dots,
-- underscores and dashes, and at least four characters.
pub get_provider_model_slug-IsSlug :
    (lower : Text → Text) (provider model : Text)
    → IsSlug (get_provider_model_slug lower provider model)
      × (4 ≤ length (get_provider_model_slug lower provider model))
unfolding get_provider_model_slug lit
get_provider_model_slug-IsSlug lower provider model = (
  All-append (λ c. is_slug_character c ≡ true) (normalize lower provider)
      (95 ∷ 95 ∷ normalize lower model) (normalize-IsSlug lower provider)
      (refl, (refl, normalize-IsSlug lower model)),
  length-slug (normalize lower provider) (normalize lower model) (normalize-truthy lower provider)
      (normalize-truthy lower model),
)
