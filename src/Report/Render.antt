-- ===== src/Report/Render.antt =====
-- `renderPtcReportLines` of src/report.ts and its formatting helpers.
pub mod Length
use Prim.Native.Nat.{min, max}
use pi_ptc_advanced.Common.Map
use pi_ptc_advanced.Common.{
  ltb, leb, nat_beq, nat_beq_iff, if◌then◌else◌, Bool-cases, Option-cases, or_else, is_some,
  is_true, length, get_elem?, take, drop, every, any, keep, length-append, length-take,
  length-keep-le, mem-keep, keep-mem, All, All-append, All-mem, All-keep, mem-map, Result, ok, err,
  settle, ◌>>=◌, ◌>>◌, Text, lit, ◌==◌, eq_refl, eq_iff, is_space, trim, is_empty, truthy, join,
  split, includes, add, to_set, includes_of_mem, mem_of_includes, includes-add_self,
  includes-to_set, show_ℕ, ℕ, zero, suc, ◌+◌, ◌-◌, ◌*◌, ◌/◌, ◌%◌, ◌≤◌, ◌<◌, String, ◌≡◌, refl, sym,
  ap, ◌∙◌, ◌≢◌, ◌↔◌, ◌⊎◌, inl, inr, Bool, true, false, not, ◌&&◌, ◌||◌, Option, none, some, get_or,
  List, [], ◌∷◌, ◌++◌, map, Memᴰ, arith,
}
use pi_ptc_advanced.Json.{
  Value, Items, Fields, Engine, undefined, null, boolean, number, string, array, object, nil, cons,
  end, field, elements, entries, to_items, to_fields, prop, own, is_record, is_string, is_undefined,
  is_number, Inherited, returns_a_value, returns_undefined, throws,
}
use pi_ptc_advanced.Report.{
  Scalar, text, num, bool, none_given, PtcReport, PtcReportTable, PtcReportSample,
}

-- `xs.slice(0, limit)`, where no limit is `Number.POSITIVE_INFINITY`.
abbrev pub slice_to {ℓ} : {A : Type ℓ} → Option ℕ → List A → List A
slice_to none xs = xs
slice_to (some n) xs = take n xs

plural : ℕ → Text
plural n = if nat_beq n 1 then lit "" else lit "s"

-- The line that says how many of a kind a collapsed view leaves out.
unfoldable pub elision : Bool → ℕ → ℕ → Text → List Text
unfolding plural
elision expanded all shown word =
    if not expanded && ltb shown all
    then (lit "- … " ++ (show_ℕ (all - shown) ++ (lit " more " ++ (word ++ plural (all - shown)))))
      ∷ []
    else []

-- `lines.push(title)` and the lines below it, where there are any.
abbrev pub under : Text → List Text → List Text
under title [] = []
under title (l ∷ ls) = title ∷ l ∷ ls

abbrev pub limit : Bool → ℕ → Option ℕ
limit expanded n = if expanded then none else some n

abbrev pub titled : Option Text → Text
titled none = lit "Table"
titled (some t) = if truthy t then lit "Table: " ++ t else lit "Table"

abbrev pub labelled : Option Text → Text
labelled none = lit ""
labelled (some t) = if truthy t then t ++ lit ": " else lit ""

unfoldable pub warning_lines : List Text → Bool → List Text
unfolding elision
warning_lines warnings expanded =
    let shown = slice_to (limit expanded 1) warnings in
    under (lit "Warnings") (
      map (λ w. lit "- " ++ w) shown
      ++ elision expanded (length warnings) (length shown) (lit "warning"))

module _ {N : Type 0} (js : Engine N) where
  unfoldable pub format_scalar : Scalar N → Text
  format_scalar (text s) = s
  format_scalar (num n) = js.number_to_string n
  format_scalar (bool true) = lit "true"
  format_scalar (bool false) = lit "false"
  format_scalar none_given = lit "null"

  unfoldable pub scalar_of : Value N → Option (Scalar N)
  scalar_of null = some none_given
  scalar_of (string s) = some (text s)
  scalar_of (boolean b) = some (bool b)
  scalar_of (number n) = if js.is_finite n then some (num n) else none
  scalar_of v = none

  unfoldable pub format_json_value : Value N → Text
  unfolding scalar_of format_scalar
  format_json_value v = elim (scalar_of v) [ some s ↦ format_scalar s | none ↦ js.json_text v ]

  -- `formatScalar(row[column] ?? null)`; a column may name a member of `Object.prototype`.
  unfoldable pub format_cell : Map.Map (Scalar N) → Text → Text
  unfolding format_scalar
  format_cell row column = elim (Map.get row column) [
    | some s ↦ format_scalar s
    | none ↦ get_or (js.inherited_text column) (format_scalar none_given)
  ]

  unfoldable pub format_row : Map.Map (Scalar N) → List Text → Text
  unfolding format_cell
  format_row row columns =
      let visible = if ltb 0 (length columns) then columns else Map.keys row in
      join (lit ", ") (map (λ c. c ++ (lit "=" ++ format_cell row c)) visible)

  unfoldable pub table_lines : PtcReportTable N → Bool → List Text
  unfolding format_row elision
  table_lines table expanded =
      let rows = slice_to (limit expanded 2) table.rows in
      titled table.title
      ∷ (map (λ row. lit "- " ++ format_row row table.columns) rows
          ++ elision expanded (length table.rows) (length rows) (lit "row"))

  unfoldable pub all_table_lines : List (PtcReportTable N) → Bool → List Text
  unfolding table_lines
  all_table_lines [] expanded = []
  all_table_lines (t ∷ ts) expanded = table_lines t expanded ++ all_table_lines ts expanded

  unfoldable pub sample_lines : List (PtcReportSample N) → Bool → List Text
  unfolding format_json_value elision
  sample_lines samples expanded =
      let shown = slice_to (limit expanded 1) samples in
      under (lit "Samples") (
        map (λ s. lit "- " ++ (labelled s.label ++ format_json_value s.value)) shown
        ++ elision expanded (length samples) (length shown) (lit "sample"))

  unfoldable pub render_ptc_report_lines : PtcReport N → Bool → List Text
  unfolding format_scalar all_table_lines sample_lines warning_lines
  render_ptc_report_lines report expanded =
      report.title
      ∷ (under (lit "Metrics")
            (map (λ e. lit "- " ++ (e.0 ++ (lit ": " ++ format_scalar e.1))) report.metrics)
          ++ (all_table_lines report.tables expanded
              ++ (sample_lines report.samples expanded ++ warning_lines report.warnings expanded)))
