-- ===== src/Rpc/Frames/Laws.antt =====
-- Which lines src/rpc-protocol.ts accepts as messages, and which it lets pass unread.
use pi_ptc_advanced.Common.{
  Bool-cases, is_some, Result, ok, err, settle, Text, lit, eq_iff, ◌≡◌, refl, sym, ap, ◌∙◌, inl,
  inr, true, false, not, ◌&&◌, ◌||◌, Option, none, some, List, [], ◌∷◌, arith,
}
use pi_ptc_advanced.Json.{
  Value, Fields, Engine, undefined, number, string, object, as_string, as_number, as_record, prop,
  is_string, is_undefined, Inherited, returns_a_value, returns_undefined, throws,
}
use pi_ptc_advanced.Report.{is_ptc_report}
use pi_ptc_advanced.Execution.{
  RpcErrorPayload, RpcMessage, tool_call, tool_result, execution_progress, stdout, complete, error,
  update,
}
use pi_ptc_advanced.Rpc.Frames.{
  Validated, Parsed, line_of, unreadable, parsed, message, parse_message, refused, protocol, other,
  valid, invalid, is_rpc_error_payload, expect, error_payload_of, payload_from,
  validate_tool_call_message, validate_tool_result_message, validate_execution_progress_message,
  validate_stdout_message, validate_complete_message, validate_error_message,
  validate_update_message, validate_by_type, validate_rpc_message, verdict_of, called_on, inherited,
}

module _ {N : Type 0} where
  abbrev pub type_of : RpcMessage N → Text
  type_of (tool_call id tool params) = lit "tool_call"
  type_of (tool_result id v failure) = lit "tool_result"
  type_of (execution_progress l t) = lit "execution_progress"
  type_of (stdout text) = lit "stdout"
  type_of (complete output report) = lit "complete"
  type_of (error text traceback) = lit "error"
  type_of (update text) = lit "update"

  -- The value that a field holds: a text, or nothing.
  abbrev pub text_or_undefined : Option Text → Value N
  text_or_undefined none = undefined
  text_or_undefined (some s) = string s

  -- The fields of an error payload.
  abbrev pub IsPayloadOf : Option RpcErrorPayload → Value N → Type 0
  IsPayloadOf none v = v ≡ undefined
  IsPayloadOf (some p) v =
      (fs : Fields N) × (v ≡ object fs)
      × (prop fs (lit "type") ≡ string p.type)
      × (prop fs (lit "message") ≡ string p.message)
      × (prop fs (lit "stack") ≡ text_or_undefined p.stack)

  as_string_eq : (v : Value N) {s : Text} → as_string v ≡ some s → v ≡ string s
  as_string_eq (string s) e = cc
  as_string_eq v e = cc

  as_number_eq : (v : Value N) {n : N} → as_number v ≡ some n → v ≡ number n
  as_number_eq (number n) e = cc
  as_number_eq v e = cc

  as_record_eq : (v : Value N) {fs : Fields N} → as_record v ≡ some fs → v ≡ object fs
  as_record_eq (object fs) e = cc
  as_record_eq v e = cc

  expect-valid {ℓ} :
      {A : Type ℓ} (o : Option A) (why : Text) (use_it : A → Validated N) {p : Parsed N}
      → expect o why use_it ≡ valid p
      → (a : A) × (o ≡ some a) × (use_it a ≡ valid p)
  unfolding expect
  expect-valid none why use_it h = cc
  expect-valid (some a) why use_it h = (a, refl, h)

  undefined_eq : (v : Value N) → is_undefined v ≡ true → v ≡ undefined
  undefined_eq undefined e = refl
  undefined_eq v e = cc

  -- A field that is a text or absent.
  optional_eq :
      (v : Value N) → (is_undefined v || is_string v) ≡ true → v ≡ text_or_undefined (as_string v)
  optional_eq undefined e = refl
  optional_eq (string s) e = refl
  optional_eq v e = cc

  payload_from-IsPayloadOf :
      (fs : Fields N) (type text : Option Text)
      → as_string (prop fs (lit "type")) ≡ type
      → as_string (prop fs (lit "message")) ≡ text
      → (is_some type && is_some text) ≡ true
      → (is_undefined (prop fs (lit "stack")) || is_string (prop fs (lit "stack"))) ≡ true
      → IsPayloadOf (payload_from fs type text) (object fs)
  payload_from-IsPayloadOf fs (some type) (some text) t m both s =
      (fs, refl, as_string_eq _ t, as_string_eq _ m, optional_eq _ s)
  payload_from-IsPayloadOf fs none text t m both s = cc
  payload_from-IsPayloadOf fs (some type) none t m both s = cc

  is_string_eq : (v : Value N) → is_string v ≡ is_some (as_string v)
  is_string_eq (string s) = refl
  is_string_eq v = refl

  payload_eq :
      (v : Value N)
      → (not (is_undefined v) && not (is_rpc_error_payload v)) ≡ false
      → IsPayloadOf (error_payload_of v) v
  unfolding is_rpc_error_payload error_payload_of
  payload_eq undefined e = refl
  payload_eq (object fs) e =
      payload_from-IsPayloadOf fs _ _ refl refl
        (ground
          (arith, is_string_eq (prop fs (lit "type")), is_string_eq (prop fs (lit "message"))))
        (ground arith)
  payload_eq v e = cc

abbrev pub message_types : List Text
message_types =
    lit "tool_call"
    ∷ lit "tool_result"
    ∷ lit "execution_progress"
    ∷ lit "stdout"
    ∷ lit "complete"
    ∷ lit "error"
    ∷ lit "update"
    ∷ []

module _ {N : Type 0} (js : Engine N) where
  -- What the fields of a message's frame hold.
  abbrev pub HoldsFields : RpcMessage N → Fields N → Type 0
  HoldsFields (tool_call id tool params) fs =
      (prop fs (lit "id") ≡ string id)
      × (prop fs (lit "tool") ≡ string tool)
      × (prop fs (lit "params") ≡ object params)
  HoldsFields (tool_result id v failure) fs =
      (prop fs (lit "id") ≡ string id)
      × (prop fs (lit "value") ≡ v)
      × IsPayloadOf failure (prop fs (lit "error"))
  HoldsFields (execution_progress l t) fs =
      (prop fs (lit "line") ≡ number l) × (prop fs (lit "total_lines") ≡ number t)
  HoldsFields (stdout text) fs = prop fs (lit "text") ≡ string text
  HoldsFields (complete output none) fs =
      (prop fs (lit "output") ≡ string output) × (prop fs (lit "report") ≡ undefined)
  HoldsFields (complete output (some report)) fs =
      (prop fs (lit "output") ≡ string output)
      × (prop fs (lit "report") ≡ report)
      × (is_undefined report ≡ false)
      × (is_ptc_report js report ≡ true)
  HoldsFields (error text traceback) fs =
      (prop fs (lit "message") ≡ string text)
      × (prop fs (lit "traceback") ≡ text_or_undefined traceback)
  HoldsFields (update text) fs = prop fs (lit "message") ≡ string text

  -- A line is a message just where its JSON is an object with the message's type and fields.
  pub IsFrameOf : RpcMessage N → Fields N → Type 0
  IsFrameOf m fs = (prop fs (lit "type") ≡ string (type_of m)) × HoldsFields m fs

  tool_call_sound :
      (fs : Fields N) (m : RpcMessage N)
      → validate_tool_call_message fs ≡ valid (message m)
      → (type_of m ≡ lit "tool_call") × HoldsFields m fs
  unfolding validate_tool_call_message
  tool_call_sound fs m h =
      let (id, has_id, h1) = expect-valid _ _ _ h in
      let (tool, has_tool, h2) = expect-valid _ _ _ h1 in
      let (params, has_params, h3) = expect-valid _ _ _ h2 in
      let same : tool_call id tool params ≡ m = cc in
      rw (← same)
        (refl, (as_string_eq _ has_id, as_string_eq _ has_tool, as_record_eq _ has_params))

  tool_result_sound :
      (fs : Fields N) (m : RpcMessage N)
      → validate_tool_result_message fs ≡ valid (message m)
      → (type_of m ≡ lit "tool_result") × HoldsFields m fs
  unfolding validate_tool_result_message invalid
  tool_result_sound fs m h =
      let (id, has_id, h1) = expect-valid _ _ _ h in
      let fine : (not (is_undefined (prop fs (lit "error")))
            && not (is_rpc_error_payload (prop fs (lit "error"))))
          ≡ false =
        ground arith in
      let same : tool_result id (prop fs (lit "value")) (error_payload_of (prop fs (lit "error")))
          ≡ m =
        ground arith in
      rw (← same) (refl, (as_string_eq _ has_id, refl, payload_eq _ fine))

  progress_sound :
      (fs : Fields N) (m : RpcMessage N)
      → validate_execution_progress_message fs ≡ valid (message m)
      → (type_of m ≡ lit "execution_progress") × HoldsFields m fs
  unfolding validate_execution_progress_message
  progress_sound fs m h =
      let (l, has_line, h1) = expect-valid _ _ _ h in
      let (t, has_total, h2) = expect-valid _ _ _ h1 in
      let same : execution_progress l t ≡ m = cc in
      rw (← same) (refl, (as_number_eq _ has_line, as_number_eq _ has_total))

  stdout_sound :
      (fs : Fields N) (m : RpcMessage N)
      → validate_stdout_message fs ≡ valid (message m)
      → (type_of m ≡ lit "stdout") × HoldsFields m fs
  unfolding validate_stdout_message
  stdout_sound fs m h =
      let (text, has_text, h1) = expect-valid _ _ _ h in
      let same : stdout text ≡ m = cc in rw (← same) (refl, as_string_eq _ has_text)

  update_sound :
      (fs : Fields N) (m : RpcMessage N)
      → validate_update_message fs ≡ valid (message m)
      → (type_of m ≡ lit "update") × HoldsFields m fs
  unfolding validate_update_message
  update_sound fs m h =
      let (text, has_text, h1) = expect-valid _ _ _ h in
      let same : update text ≡ m = cc in rw (← same) (refl, as_string_eq _ has_text)

  error_sound :
      (fs : Fields N) (m : RpcMessage N)
      → validate_error_message fs ≡ valid (message m)
      → (type_of m ≡ lit "error") × HoldsFields m fs
  unfolding validate_error_message invalid
  error_sound fs m h =
      let (text, has_text, h1) = expect-valid _ _ _ h in
      let given : (is_undefined (prop fs (lit "traceback"))
            || is_string (prop fs (lit "traceback")))
          ≡ true =
        ground arith in
      let same : error text (as_string (prop fs (lit "traceback"))) ≡ m = ground arith in
      rw (← same) (refl, (as_string_eq _ has_text, optional_eq _ given))

  complete_sound :
      (fs : Fields N) (m : RpcMessage N)
      → validate_complete_message js fs ≡ valid (message m)
      → (type_of m ≡ lit "complete") × HoldsFields m fs
  unfolding validate_complete_message invalid
  complete_sound fs m h =
      let (output, has_output, h1) = expect-valid _ _ _ h in
      elim (Bool-cases (is_undefined (prop fs (lit "report")))) [
        | inl absent ↦
            let same : complete output none ≡ m = ground arith in
            rw (← same) (refl, (as_string_eq _ has_output, undefined_eq _ absent))
        | inr present ↦
            let accepted : is_ptc_report js (prop fs (lit "report")) ≡ true = ground arith in
            let same : complete output (some (prop fs (lit "report"))) ≡ m = ground arith in
            rw (← same) (refl, (as_string_eq _ has_output, refl, present, accepted))
      ]

  verdict-refuses :
      (type : Text) (i : Option Inherited) {m : RpcMessage N}
      → verdict_of type i ≡ valid (message m)
      → ⊥
  unfolding verdict_of invalid
  verdict-refuses type none h = cc
  verdict-refuses type (some returns_a_value) h = cc
  verdict-refuses type (some returns_undefined) h = cc
  verdict-refuses type (some (throws why)) h = cc

  -- The verdict of a type other than the seven message types.
  inherited-refuses :
      (type : Text) (fs : Fields N) {m : RpcMessage N}
      → inherited js type fs ≡ valid (message m)
      → ⊥
  unfolding inherited
  inherited-refuses type fs h = verdict-refuses type (called_on fs (js.object_prototype type)) h

  by_type-IsFrameOf :
      (type : Text) (fs : Fields N) (m : RpcMessage N)
      → validate_by_type js type fs ≡ valid (message m)
      → (type_of m ≡ type) × HoldsFields m fs
  unfolding validate_by_type
  by_type-IsFrameOf type fs m h = ground (
    arith,
    eq_iff type (lit "tool_call"),
    eq_iff type (lit "tool_result"),
    eq_iff type (lit "execution_progress"),
    eq_iff type (lit "stdout"),
    eq_iff type (lit "complete"),
    eq_iff type (lit "error"),
    eq_iff type (lit "update"),
    tool_call_sound fs m,
    tool_result_sound fs m,
    progress_sound fs m,
    stdout_sound fs m,
    complete_sound fs m,
    error_sound fs m,
    update_sound fs m,
    inherited-refuses type fs {m = m},
  )

  -- Every line that is taken for a message is the JSON of an object whose `type` is the message's
  -- own and whose fields hold, with their types, what the message carries.
  pub parse_message-IsFrameOf :
      (text : Text) (m : RpcMessage N)
      → parse_message js text ≡ parsed (message m)
      → (fs : Fields N) × (js.parse_json text ≡ ok (object fs)) × IsFrameOf m fs
  unfolding parse_message line_of unreadable validate_rpc_message IsFrameOf
  parse_message-IsFrameOf text m h = by_json (js.parse_json text) refl h
    where
      by_verdict : (v : Validated N) → line_of text v ≡ parsed (message m) → v ≡ valid (message m)
      by_verdict (valid p) h = cc
      by_verdict (refused (protocol why)) h = cc
      by_verdict (refused (other why)) h = cc

      by_json :
          (r : Result (Value N))
          → js.parse_json text ≡ r
          → settle (λ v. line_of text (validate_rpc_message js v)) (unreadable text) r
            ≡ parsed (message m)
          → (fs : Fields N) × (js.parse_json text ≡ ok (object fs)) × IsFrameOf m fs
      by_json (err why) e h = cc
      by_json (ok v) e h =
          let (fs, is_object, h1) = expect-valid _ _ _ (by_verdict _ h) in
          let (type, has_type, h2) = expect-valid _ _ _ h1 in
          let (same, holds) = by_type-IsFrameOf type fs m h2 in
          (
            fs,
            e ∙ ap ok (as_record_eq v is_object),
            (as_string_eq _ has_type ∙ ap string (sym same), holds),
          )
