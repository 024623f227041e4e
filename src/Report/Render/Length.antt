-- ===== src/Report/Render/Length.antt =====
-- How many lines a report takes, from the parts of `renderPtcReportLines`.
use Prim.Native.Nat.{min}
use pi_ptc_advanced.Common.{
  ltb, if◌then◌else◌, length, take, length-append, length-take, Text, lit, ℕ, ◌+◌, ◌*◌, ◌≤◌, ◌≡◌,
  refl, Bool, true, false, not, ◌&&◌, List, [], ◌∷◌, ◌++◌, map, arith,
}
use pi_ptc_advanced.Json.{Engine}
use pi_ptc_advanced.Report.{PtcReport, PtcReportTable, PtcReportSample}
use pi_ptc_advanced.Report.Render.{
  elision, under, limit, slice_to, warning_lines, table_lines, all_table_lines, sample_lines,
  format_row, labelled, format_json_value, format_scalar, render_ptc_report_lines,
}

length-map {ℓ κ} :
    {A : Type ℓ} {B : Type κ} (f : A → B) (xs : List A) → length (map f xs) ≡ length xs
length-map f [] = refl
length-map f (x ∷ xs) = omega (arith, length-map f xs)

length-elision :
    (expanded : Bool) (all shown : ℕ) (word : Text)
    → length (elision expanded all shown word) ≡ (if not expanded && ltb shown all then 1 else 0)
unfolding elision
length-elision expanded all shown word = ground arith

-- A title stands over the lines that there are.
length-under :
    (title : Text) (ls : List Text)
    → length (under title ls) ≡ length ls + (if ltb 0 (length ls) then 1 else 0)
length-under title [] = refl
length-under title (l ∷ ls) = ground arith

-- The lines of one list of a report, cut after `n` entries.
entry_lines : Bool → ℕ → ℕ → ℕ
entry_lines true n all = all
entry_lines false n all = min n all + (if ltb n all then 1 else 0)

entry_lines-le :
    (n all : ℕ)
    → (entry_lines false n all ≤ n + 1) × (entry_lines false n all ≤ entry_lines true n all)
unfolding entry_lines
entry_lines-le n all = ground arith

length-entries {ℓ} :
    {A : Type ℓ} (f : A → Text) (xs : List A) (expanded : Bool) (n : ℕ) (word : Text)
    → length (
        map f (slice_to (limit expanded n) xs)
        ++ elision expanded (length xs) (length (slice_to (limit expanded n) xs)) word)
      ≡ entry_lines expanded n (length xs)
unfolding entry_lines
length-entries f xs true n word = omega (
  arith,
  length-append (map f xs) (elision true (length xs) (length xs) word),
  length-map f xs,
  length-elision true (length xs) (length xs) word,
)
length-entries f xs false n word = ground (
  arith,
  length-append (map f (take n xs)) (elision false (length xs) (length (take n xs)) word),
  length-map f (take n xs),
  length-elision false (length xs) (length (take n xs)) word,
  length-take n xs,
)

length-warning_lines :
    (warnings : List Text) (expanded : Bool)
    → length (warning_lines warnings expanded)
      ≡ (let n = entry_lines expanded 1 (length warnings) in n + (if ltb 0 n then 1 else 0))
unfolding warning_lines
length-warning_lines warnings expanded =
    let counted = length-entries (λ w. lit "- " ++ w) warnings expanded 1 (lit "warning") in
    rw (length-under _ _, counted) refl

module _ {N : Type 0} (js : Engine N) where
  length-table_lines :
      (t : PtcReportTable N) (expanded : Bool)
      → length (table_lines js t expanded) ≡ 1 + entry_lines expanded 2 (length t.rows)
  unfolding table_lines
  length-table_lines t expanded = omega (
    arith,
    length-entries (λ row. lit "- " ++ format_row js row t.columns) t.rows expanded 2 (lit "row"),
  )

  length-sample_lines :
      (samples : List (PtcReportSample N)) (expanded : Bool)
      → length (sample_lines js samples expanded)
        ≡ (let n = entry_lines expanded 1 (length samples) in n + (if ltb 0 n then 1 else 0))
  unfolding sample_lines
  length-sample_lines samples expanded =
      let counted =
        length-entries (λ s. lit "- " ++ (labelled s.label ++ format_json_value js s.value)) samples
          expanded 1 (lit "sample") in
      rw (length-under _ _, counted) refl

  -- The lines of all tables: at most four each when collapsed, and no more than when expanded.
  length-all_table_lines :
      (ts : List (PtcReportTable N))
      → (length (all_table_lines js ts false) ≤ 4 * length ts)
        × (length (all_table_lines js ts false) ≤ length (all_table_lines js ts true))
  unfolding all_table_lines
  length-all_table_lines [] = ground arith
  length-all_table_lines (t ∷ ts) =
      let few = entry_lines-le 2 (length t.rows) in
      let (rest, rest_le) = length-all_table_lines ts in
      omega (
        arith,
        few.0,
        few.1,
        rest,
        rest_le,
        length-table_lines t false,
        length-table_lines t true,
        length-append (table_lines js t false) (all_table_lines js ts false),
        length-append (table_lines js t true) (all_table_lines js ts true),
      )

  length-render :
      (r : PtcReport N) (expanded : Bool)
      → length (render_ptc_report_lines js r expanded)
        ≡ 1
          + (length r.metrics + (if ltb 0 (length r.metrics) then 1 else 0))
          + length (all_table_lines js r.tables expanded)
          + length (sample_lines js r.samples expanded)
          + length (warning_lines r.warnings expanded)
  unfolding render_ptc_report_lines
  length-render r expanded =
      let metrics = map (λ e. lit "- " ++ (e.0 ++ (lit ": " ++ format_scalar js e.1))) r.metrics in
      let below = sample_lines js r.samples expanded ++ warning_lines r.warnings expanded in
      ground (
        arith,
        length-append (under (lit "Metrics") metrics)
            (all_table_lines js r.tables expanded ++ below),
        length-append (all_table_lines js r.tables expanded) below,
        length-append (sample_lines js r.samples expanded) (warning_lines r.warnings expanded),
        length-under (lit "Metrics") metrics,
        length-map (λ e. lit "- " ++ (e.0 ++ (lit ": " ++ format_scalar js e.1))) r.metrics,
      )

  -- The collapsed view of a report has at most eight lines beside one for each metric and four for
  -- each table, whatever number of rows, samples and warnings there are; and it never has more
  -- lines than the expanded view.
  pub render_ptc_report_lines-collapsed :
      (r : PtcReport N)
      → (length (render_ptc_report_lines js r false) ≤ 8 + length r.metrics + 4 * length r.tables)
        × (length (render_ptc_report_lines js r false) ≤ length (render_ptc_report_lines js r true))
  render_ptc_report_lines-collapsed r =
      let tables = length-all_table_lines r.tables in
      let samples = entry_lines-le 1 (length r.samples) in
      let warnings = entry_lines-le 1 (length r.warnings) in
      ground (
        arith,
        tables.0,
        tables.1,
        samples.0,
        samples.1,
        warnings.0,
        warnings.1,
        length-render r false,
        length-render r true,
        length-sample_lines r.samples false,
        length-sample_lines r.samples true,
        length-warning_lines r.warnings false,
        length-warning_lines r.warnings true,
      )
