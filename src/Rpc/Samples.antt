-- ===== src/Rpc/Samples.antt =====
-- Sessions on concrete events.
use pi_ptc_advanced.Common.{
  is_some, ok, lit, ◌==◌, includes, ℕ, ◌≡◌, refl, true, some, List, [], ◌∷◌, none,
}
use pi_ptc_advanced.Json.{Fields, undefined, object, prop}
use pi_ptc_advanced.Json.Sample.{sample_engine, stdout_line, call_line, complete_line}
use pi_ptc_advanced.Adapters.{ToolExecutionResult}
use pi_ptc_advanced.Execution.{stdout}
use pi_ptc_advanced.Rpc.Frames.{
  message, parsed, parse_message, line_of, unreadable, validate_rpc_message, validate_by_type,
  validate_stdout_message, validate_tool_call_message, validate_complete_message, inherited,
  verdict_of, expect, invalid,
}
use pi_ptc_advanced.Rpc.Frames.Laws.{IsFrameOf, parse_message-IsFrameOf}
use pi_ptc_advanced.Rpc.Session.{Session, Callback, value_thrown, start}
use pi_ptc_advanced.Rpc.Session.Events.{Event, line, line_close, microtask, tool_returned, run}
use pi_ptc_advanced.Rpc.Session.Events.Settling.{IsSettledOnce, settles_once, close_settles}
use pi_ptc_advanced.Rpc.Session.Events.Counts.{IsAccounted}
use pi_ptc_advanced.Rpc.Session.Events.Reports.{session-IsAccounted}

session : Unit {0}
unfolding lit ◌==◌ prop includes parse_message line_of unreadable validate_rpc_message
    validate_by_type validate_stdout_message validate_tool_call_message validate_complete_message
    inherited verdict_of expect invalid
session = tt

stdout_run : parse_message sample_engine stdout_line ≡ parsed (message (stdout (lit "hi")))
unfolding session
stdout_run = refl

abbrev started : Session ℕ
started = start (lit "print(1)") true (some (λ calls. none)) (some 1000) 0

abbrev read_result : ToolExecutionResult ℕ
read_result = record { content = undefined; details = undefined }

abbrev sample_events : List (Event ℕ)
sample_events = line call_line ∷ tool_returned 0 read_result ∷ line complete_line ∷ []

settles_once_example :
    IsSettledOnce (run sample_engine started sample_events)
    × ((run sample_engine started sample_events).completed ≡ true
        → (run sample_engine (run sample_engine started sample_events) (line_close ∷ [])).outcome
          ≡ (run sample_engine started sample_events).outcome)
    × (is_some (run sample_engine started sample_events).awaited ≡ true
        → (run sample_engine (run sample_engine started sample_events) (line_close ∷ [])).awaited
          ≡ (run sample_engine started sample_events).awaited)
settles_once_example =
    settles_once sample_engine (lit "print(1)") true (some (λ calls. none)) (some 1000) 0
      sample_events (line_close ∷ [])

close_settles_example :
    (run sample_engine started (line_close ∷ microtask ∷ line call_line ∷ [])).completed ≡ true
close_settles_example = close_settles sample_engine started (line call_line ∷ [])

-- A callback that throws at its second call, so that the second nested call is abandoned.
abbrev second_throws : Callback ℕ
second_throws (first ∷ second ∷ []) = some (value_thrown (lit "closed"))
second_throws calls = none

abbrev two_calls : List (Event ℕ)
two_calls = line call_line ∷ line call_line ∷ tool_returned 0 read_result ∷ microtask ∷ []

session-IsAccounted_example :
    IsAccounted
      (run sample_engine (start (lit "print(1)") true (some second_throws) (some 1000) 0) two_calls)
session-IsAccounted_example =
    session-IsAccounted sample_engine (lit "print(1)") true (some second_throws) (some 1000) 0
      two_calls (λ v. (lit "{}", refl))

parse_message-IsFrameOf_example :
    (fs : Fields ℕ) × (sample_engine.parse_json stdout_line ≡ ok (object fs))
    × IsFrameOf sample_engine (stdout (lit "hi")) fs
parse_message-IsFrameOf_example =
    parse_message-IsFrameOf sample_engine stdout_line (stdout (lit "hi")) stdout_run
