-- ===== src/Report.antt =====
-- The report contract of src/report.ts: what `isPtcReport` accepts of a value.
pub mod Render
mod Samples
use pi_ptc_advanced.Common.Map
use pi_ptc_advanced.Common.{
  Text, ◌==◌, lit, trim, truthy, every, Bool, true, false, ◌&&◌, ◌||◌, List, map, Option, none,
  some,
}
use pi_ptc_advanced.Json.{
  Value, Items, Fields, Engine, undefined, null, boolean, number, string, array, object, nil, cons,
  end, field, elements, entries, prop, is_string, is_undefined,
}

pub data Scalar (N : Type 0) : Type 0 where
  text : Text → Scalar N
  num : N → Scalar N
  bool : Bool → Scalar N
  none_given : Scalar N

pub record PtcReportTable (N : Type 0) : Type 0 where
  pub title : Option Text
  pub columns : List Text
  pub rows : List (Map.Map (Scalar N))

pub record PtcReportSample (N : Type 0) : Type 0 where
  pub label : Option Text
  pub value : Value N

pub record PtcReport (N : Type 0) : Type 0 where
  pub title : Text
  pub metrics : Map.Map (Scalar N)
  pub tables : List (PtcReportTable N)
  pub samples : List (PtcReportSample N)
  pub warnings : List Text

module _ {N : Type 0} where
  unfoldable pub is_optional_string : Value N → Bool
  is_optional_string v = is_undefined v || is_string v

  unfoldable pub every_element : (Value N → Bool) → Value N → Bool
  every_element p (array items) = every p (elements items)
  every_element p v = false

  unfoldable pub is_text : Text → Value N → Bool
  is_text s (string t) = t == s
  is_text s v = false

  unfoldable pub has_words : Value N → Bool
  has_words (string s) = truthy (trim s)
  has_words v = false

module _ {N : Type 0} (js : Engine N) where
  unfoldable pub is_scalar : Value N → Bool
  is_scalar null = true
  is_scalar (string s) = true
  is_scalar (boolean b) = true
  is_scalar (number n) = js.is_finite n
  is_scalar v = false

  unfoldable mutual
    pub is_json_value : Value N → Bool
    is_json_value (array items) = are_json_values items
    is_json_value (object fs) = have_json_values fs
    is_json_value undefined = false
    is_json_value null = true
    is_json_value (string s) = true
    is_json_value (boolean b) = true
    is_json_value (number n) = js.is_finite n

    pub are_json_values : Items N → Bool
    are_json_values nil = true
    are_json_values (cons v items) = is_json_value v && are_json_values items

    pub have_json_values : Fields N → Bool
    have_json_values end = true
    have_json_values (field k v fs) = is_json_value v && have_json_values fs

  unfoldable pub is_metric_map : Value N → Bool
  unfolding is_scalar
  is_metric_map (object fs) = every (λ e. is_scalar e.1) (entries fs)
  is_metric_map v = false

  unfoldable pub is_report_table : Value N → Bool
  unfolding is_metric_map is_optional_string every_element
  is_report_table (object fs) =
      is_optional_string (prop fs (lit "title"))
      && every_element is_string (prop fs (lit "columns"))
      && every_element is_metric_map (prop fs (lit "rows"))
  is_report_table v = false

  unfoldable pub is_report_sample : Value N → Bool
  unfolding is_json_value is_optional_string
  is_report_sample (object fs) =
      is_optional_string (prop fs (lit "label")) && is_json_value (prop fs (lit "value"))
  is_report_sample v = false

  unfoldable pub is_version_one : Value N → Bool
  is_version_one (number n) = js.is_one n
  is_version_one v = false

  unfoldable pub is_ptc_report : Value N → Bool
  unfolding is_text is_version_one has_words is_metric_map every_element
  is_ptc_report (object fs) =
      is_text (lit "ptc_report") (prop fs (lit "kind"))
      && is_version_one (prop fs (lit "version"))
      && has_words (prop fs (lit "title"))
      && is_metric_map (prop fs (lit "metrics"))
      && every_element is_report_table (prop fs (lit "tables"))
      && every_element is_report_sample (prop fs (lit "samples"))
      && every_element is_string (prop fs (lit "warnings"))
  is_ptc_report v = false
