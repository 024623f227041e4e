-- ===== src/Report/Samples.antt =====
-- A report on screen.
use pi_ptc_advanced.Common.Map
use pi_ptc_advanced.Common.{
  length, lit, ◌==◌, join, show_ℕ, ℕ, ◌≤◌, ◌≡◌, refl, true, false, some, [], ◌∷◌,
}
use pi_ptc_advanced.Json.Sample.{sample_engine}
use pi_ptc_advanced.Report.{text, num, PtcReport}
use pi_ptc_advanced.Report.Render.{
  render_ptc_report_lines, elision, warning_lines, format_scalar, format_json_value, format_cell,
  format_row, table_lines, all_table_lines, sample_lines,
}
use pi_ptc_advanced.Report.Render.Length.{render_ptc_report_lines-collapsed}

session : Unit {0}
unfolding lit ◌==◌ join Map.get Map.keys show_ℕ render_ptc_report_lines elision warning_lines
    format_scalar format_json_value format_cell format_row table_lines all_table_lines sample_lines
session = tt

abbrev sample_report : PtcReport ℕ
sample_report = record {
  title = lit "Files";
  metrics = (lit "count", num 3) ∷ [];
  tables =
      record {
        title = some (lit "Names");
        columns = [];
        rows =
            ((lit "name", text (lit "a")) ∷ [])
            ∷ ((lit "name", text (lit "b")) ∷ [])
            ∷ ((lit "name", text (lit "c")) ∷ [])
            ∷ [];
      }
      ∷ [];
  samples = [];
  warnings = lit "slow" ∷ lit "old" ∷ lit "large" ∷ [];
}

collapsed_run :
    render_ptc_report_lines sample_engine sample_report false
    ≡ lit "Files"
      ∷ lit "Metrics"
      ∷ lit "- count: 3"
      ∷ lit "Table: Names"
      ∷ lit "- name=a"
      ∷ lit "- name=b"
      ∷ lit "- … 1 more row"
      ∷ lit "Warnings"
      ∷ lit "- slow"
      ∷ lit "- … 2 more warnings"
      ∷ []
unfolding session
collapsed_run = refl

render_ptc_report_lines-collapsed_example :
    (length (render_ptc_report_lines sample_engine sample_report false) ≤ 13)
    × (length (render_ptc_report_lines sample_engine sample_report false)
        ≤ length (render_ptc_report_lines sample_engine sample_report true))
render_ptc_report_lines-collapsed_example =
    render_ptc_report_lines-collapsed sample_engine sample_report
