-- ===== src/Rpc/Frames.antt =====
-- The frames of src/rpc-protocol.ts: `validateRpcMessage` and `parseMessage`.
pub mod Laws
use pi_ptc_advanced.Common.{
  if◌then◌else◌, settle, Text, lit, ◌==◌, Bool, false, not, ◌&&◌, ◌||◌, Option, none, some, ◌++◌,
}
use pi_ptc_advanced.Json.{
  Value, Fields, Engine, object, as_string, as_number, as_record, prop, is_string, is_undefined,
  Inherited, returns_a_value, returns_undefined, throws,
}
use pi_ptc_advanced.Report.{is_ptc_report}
use pi_ptc_advanced.Execution.{
  RpcErrorPayload, RpcMessage, tool_call, tool_result, execution_progress, stdout, complete, error,
  update, ExecutionError, protocol_error,
}

-- What a line of Python's stdout is: a message, a value of no message's type that a member of
-- `Object.prototype` returned, or nothing because the code threw.
pub data Parsed (N : Type 0) : Type 0 where
  message : RpcMessage N → Parsed N
  not_a_message : Parsed N
  undefined_message : Parsed N

-- A throw of the validators: a `PtcProtocolError`, or another error of the engine.
pub data Refusal : Type 0 where
  protocol other : Text → Refusal

pub data Validated (N : Type 0) : Type 0 where
  valid : Parsed N → Validated N
  refused : Refusal → Validated N

-- The message of a line, or the error that `parseMessage` throws.
pub data Line (N : Type 0) : Type 0 where
  parsed : Parsed N → Line N
  rejected : ExecutionError N → Line N

module _ {N : Type 0} where
  unfoldable pub invalid : Text → Validated N
  invalid why = refused (protocol why)

  -- A part of a frame that has to be there, else the frame is invalid.
  unfoldable pub expect {ℓ} : {A : Type ℓ} → Option A → Text → (A → Validated N) → Validated N
  expect none why use_it = refused (protocol why)
  expect (some a) why use_it = use_it a

  unfoldable pub is_rpc_error_payload : Value N → Bool
  is_rpc_error_payload (object fs) =
      is_string (prop fs (lit "type"))
      && is_string (prop fs (lit "message"))
      && (is_undefined (prop fs (lit "stack")) || is_string (prop fs (lit "stack")))
  is_rpc_error_payload v = false

  unfoldable pub validate_tool_call_message : Fields N → Validated N
  validate_tool_call_message fs =
      let why = lit "Invalid tool_call frame: expected string id/tool and object params." in
      expect (as_string (prop fs (lit "id"))) why λ id.
        expect (as_string (prop fs (lit "tool"))) why λ tool.
          expect (as_record (prop fs (lit "params"))) why
            λ params. valid (message (tool_call id tool params))

  -- The payload that `isRpcErrorPayload` accepts.
  abbrev pub payload_from : Fields N → Option Text → Option Text → Option RpcErrorPayload
  payload_from fs (some type) (some text) =
      some (record { type = type; message = text; stack = as_string (prop fs (lit "stack")) })
  payload_from fs type text = none

  unfoldable pub error_payload_of : Value N → Option RpcErrorPayload
  error_payload_of (object fs) =
      payload_from fs (as_string (prop fs (lit "type"))) (as_string (prop fs (lit "message")))
  error_payload_of v = none

  unfoldable pub validate_tool_result_message : Fields N → Validated N
  unfolding invalid is_rpc_error_payload error_payload_of
  validate_tool_result_message fs =
      expect (as_string (prop fs (lit "id"))) (lit "Invalid tool_result frame: expected string id.")
        λ id.
          let failure = prop fs (lit "error") in
          if not (is_undefined failure) && not (is_rpc_error_payload failure)
          then invalid (lit "Invalid tool_result frame: error must match RpcErrorPayload.")
          else valid (message (tool_result id (prop fs (lit "value")) (error_payload_of failure)))

  unfoldable pub validate_execution_progress_message : Fields N → Validated N
  validate_execution_progress_message fs =
      let why = lit "Invalid execution_progress frame: expected numeric line and total_lines." in
      expect (as_number (prop fs (lit "line"))) why λ line.
        expect (as_number (prop fs (lit "total_lines"))) why
          λ total_lines. valid (message (execution_progress line total_lines))

  unfoldable pub validate_stdout_message : Fields N → Validated N
  validate_stdout_message fs =
      expect (as_string (prop fs (lit "text"))) (lit "Invalid stdout frame: expected string text.")
        λ text. valid (message (stdout text))

  unfoldable pub validate_error_message : Fields N → Validated N
  unfolding invalid
  validate_error_message fs =
      let why = lit "Invalid error frame: expected string message and optional traceback." in
      let traceback = prop fs (lit "traceback") in
      expect (as_string (prop fs (lit "message"))) why λ text.
        if is_undefined traceback || is_string traceback
        then valid (message (error text (as_string traceback)))
        else invalid why

  unfoldable pub validate_update_message : Fields N → Validated N
  validate_update_message fs =
      expect (as_string (prop fs (lit "message")))
        (lit "Invalid update frame: expected string message.") λ text. valid (message (update text))

  -- What a member that is there does when it is called on the frame.
  abbrev pub called_on : Fields N → Option (Fields N → Inherited) → Option Inherited
  called_on fs none = none
  called_on fs (some member) = some (member fs)

  unfoldable pub verdict_of : Text → Option Inherited → Validated N
  unfolding invalid
  verdict_of type none = invalid (lit "Unknown RPC frame type: " ++ type)
  verdict_of type (some returns_a_value) = valid not_a_message
  verdict_of type (some returns_undefined) = valid undefined_message
  verdict_of type (some (throws why)) = refused (other why)

  unfoldable pub unreadable : Text → Text → Line N
  unreadable line why = rejected (
      protocol_error
        (lit "Invalid RPC message from Python stdout: " ++ (why ++ (lit ". Line: " ++ line))))

  unfoldable pub line_of : Text → Validated N → Line N
  unfolding unreadable
  line_of line (valid p) = parsed p
  line_of line (refused (protocol why)) = rejected (protocol_error (why ++ (lit " Line: " ++ line)))
  line_of line (refused (other why)) = unreadable line why

module _ {N : Type 0} (js : Engine N) where
  unfoldable pub validate_complete_message : Fields N → Validated N
  unfolding invalid
  validate_complete_message fs =
      expect (as_string (prop fs (lit "output")))
        (lit "Invalid complete frame: expected string output.")
        λ output.
          let report = prop fs (lit "report") in
          if not (is_undefined report)
          then if not (is_ptc_report js report)
            then invalid (lit "Invalid complete frame: report must match the PTC report contract.")
            else valid (message (complete output (some report)))
          else valid (message (complete output none))

  -- `type in RPC_MESSAGE_VALIDATORS` also holds of the names of `Object.prototype`, whose member is
  -- then called on the frame.
  unfoldable pub inherited : Text → Fields N → Validated N
  unfolding verdict_of
  inherited type fs = verdict_of type (called_on fs (js.object_prototype type))

  unfoldable pub validate_by_type : Text → Fields N → Validated N
  unfolding validate_tool_call_message validate_tool_result_message
      validate_execution_progress_message validate_stdout_message validate_complete_message
      validate_error_message validate_update_message inherited
  validate_by_type type fs =
      if type == lit "tool_call"
      then validate_tool_call_message fs
      else if type == lit "tool_result"
      then validate_tool_result_message fs
      else if type == lit "execution_progress"
      then validate_execution_progress_message fs
      else if type == lit "stdout"
      then validate_stdout_message fs
      else if type == lit "complete"
      then validate_complete_message fs
      else if type == lit "error"
      then validate_error_message fs
      else if type == lit "update"
      then validate_update_message fs
      else inherited type fs

  unfoldable pub validate_rpc_message : Value N → Validated N
  unfolding validate_by_type invalid
  validate_rpc_message v =
      let why = lit "RPC frame must be an object with a string type field." in
      expect (as_record v) why
        λ fs. expect (as_string (prop fs (lit "type"))) why λ type. validate_by_type type fs

  unfoldable pub parse_message : Text → Line N
  unfolding validate_rpc_message line_of unreadable
  parse_message line =
      settle (λ v. line_of line (validate_rpc_message v)) (unreadable line) (js.parse_json line)
