-- ===== src/Json/Sample.antt =====
-- An engine for runs: its numbers are ℕ and it reads a few frames.
use pi_ptc_advanced.Common.{
  nat_beq, if◌then◌else◌, Result, ok, err, Text, lit, ◌==◌, show_ℕ, ℕ, true, none, some,
}
use pi_ptc_advanced.Json.{Value, Fields, Engine, string, object, end, field, returns_a_value}

abbrev pub stdout_line : Text
stdout_line = lit "{\"type\":\"stdout\",\"text\":\"hi\"}"

abbrev pub stdout_fields : Fields ℕ
stdout_fields =
    field (lit "type") (string (lit "stdout")) (field (lit "text") (string (lit "hi")) end)

abbrev pub call_line : Text
call_line = lit "{\"type\":\"tool_call\",\"id\":\"1\",\"tool\":\"read\",\"params\":{}}"

abbrev pub call_fields : Fields ℕ
call_fields = field (lit "type") (string (lit "tool_call")) (
    field (lit "id") (string (lit "1"))
      (field (lit "tool") (string (lit "read")) (field (lit "params") (object end) end)))

abbrev pub complete_line : Text
complete_line = lit "{\"type\":\"complete\",\"output\":\"done\"}"

abbrev pub complete_fields : Fields ℕ
complete_fields =
    field (lit "type") (string (lit "complete")) (field (lit "output") (string (lit "done")) end)

abbrev pub sample_json : Text → Result (Value ℕ)
sample_json t =
    if t == stdout_line
    then ok (object stdout_fields)
    else if t == call_line
    then ok (object call_fields)
    else if t == complete_line
    then ok (object complete_fields)
    else err (lit "Unexpected token")

abbrev pub sample_engine : Engine ℕ
sample_engine = record {
  is_finite = λ n. true;
  is_one = λ n. nat_beq n 1;
  of_ℕ = λ n. n;
  number_to_string = show_ℕ;
  parse_json = sample_json;
  stringify = λ v. ok (lit "{}");
  json_text = λ v. lit "{}";
  value_to_string = λ v. lit "[object Object]";
  object_prototype = λ t. if t == lit "toString" then some (λ fs. returns_a_value) else none;
  inherited_text = λ t. none;
  stack_of = λ t. none;
}
