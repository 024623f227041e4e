-- ===== src/Rpc/Session/Events/Calls.antt =====
-- The counters of a session at a nested call: `handleToolCall` up to its `try`.
use pi_ptc_advanced.Common.{
  length, length-append, All, All-append, Text, suc, ◌+◌, ◌≡◌, refl, true, is_some, Option, none,
  some, [], ◌∷◌, ◌++◌, arith,
}
use pi_ptc_advanced.Json.{Fields}
use pi_ptc_advanced.Execution.{ExecutionDetails}
use pi_ptc_advanced.Rpc.Session.{Session, Callback, Thrown, PendingCall, build_execution_details}
use pi_ptc_advanced.Rpc.Session.Events.{told, notify, call_tool, handle_tool_call}
use pi_ptc_advanced.Rpc.Session.Events.Counts.{
  IsCounted, OutcomeIsCounted, TaskIsCounted, throws_at, IsAccounted, reject_update-IsAccounted,
}

module _ {N : Type 0} where
  -- The state while a counted call waits for its callback: all but the one call is accounted for.
  record IsCalling (s : Session N) : Type 0 where
    named : s.nested_tool_calls ≡ length s.nested_tool_names
    one_more :
        suc (s.nested_result_count + s.nested_errors + length s.pending + length s.abandoned)
        ≡ s.nested_tool_calls
    updates_counted : All (λ u. IsCounted u.1) s.updates
    outcome_counted : OutcomeIsCounted s.outcome
    tasks_counted : All TaskIsCounted s.tasks
    abandoned_thrown : All (λ calls. throws_at s.on_update calls ≡ true) s.abandoned

  told-IsCalling :
      (s : Session N) (call : Text × ExecutionDetails N) (f : Option (Callback N))
      → IsCalling s
      → IsCounted call.1
      → IsCalling (told s call f).0
  unfolding told
  told-IsCalling s call none a c = a
  told-IsCalling s call (some on_update) a c = record {
    named = a.named;
    one_more = a.one_more;
    updates_counted =
        All-append (λ u. IsCounted u.1) s.updates (call ∷ []) a.updates_counted (c, tt);
    outcome_counted = a.outcome_counted;
    tasks_counted = a.tasks_counted;
    abandoned_thrown = a.abandoned_thrown;
  }

  -- What a callback throws, it throws after the calls that it has been told.
  told-throws :
      (s : Session N) (call : Text × ExecutionDetails N) (f : Option (Callback N))
      → s.on_update ≡ f
      → is_some (told s call f).1 ≡ true
      → throws_at (told s call f).0.on_update (told s call f).0.updates ≡ true
  unfolding told
  told-throws s call none e threw = cc
  told-throws s call (some on_update) e threw = rw e threw

  call_tool-IsAccounted :
      (call : PendingCall N) (r : Session N × Option Thrown)
      → IsCalling r.0
      → (is_some r.1 ≡ true → throws_at r.0.on_update r.0.updates ≡ true)
      → IsAccounted (call_tool call r)
  unfolding call_tool
  call_tool-IsAccounted call (s, none) a threw = record {
    balance = ground (arith, a.named, a.one_more, length-append s.pending (call ∷ []));
    updates_counted = a.updates_counted;
    outcome_counted = a.outcome_counted;
    tasks_counted = a.tasks_counted;
    abandoned_thrown = a.abandoned_thrown;
  }
  call_tool-IsAccounted call (s, some t) a threw =
      reject_update-IsAccounted (record s { abandoned = s.abandoned ++ s.updates ∷ [] }, some t)
        (record {
          balance = ground (arith, a.named, a.one_more, length-append s.abandoned (s.updates ∷ []));
          updates_counted = a.updates_counted;
          outcome_counted = a.outcome_counted;
          tasks_counted = a.tasks_counted;
          abandoned_thrown =
              All-append (λ calls. throws_at s.on_update calls ≡ true) s.abandoned (s.updates ∷ [])
                a.abandoned_thrown (threw refl, tt);
        })

  pub handle_tool_call-IsAccounted :
      (s : Session N) (id tool : Text) (params : Fields N)
      → IsAccounted s
      → IsAccounted (handle_tool_call s id tool params)
  unfolding handle_tool_call notify build_execution_details
  handle_tool_call-IsAccounted s id tool params a =
      let called : Session N = record s {
        nested_tool_calls = s.nested_tool_calls + 1;
        nested_tool_names = s.nested_tool_names ++ tool ∷ [];
      } in
      let longer = length-append s.nested_tool_names (tool ∷ []) in
      let calling : IsCalling called = record {
        named = ground (arith, a.balance, longer);
        one_more = ground (arith, a.balance);
        updates_counted = a.updates_counted;
        outcome_counted = a.outcome_counted;
        tasks_counted = a.tasks_counted;
        abandoned_thrown = a.abandoned_thrown;
      } in
      let counted : IsCounted (build_execution_details called) =
        ground (arith, a.balance, longer) in
      call_tool-IsAccounted _ (told called (_, build_execution_details called) s.on_update)
        (told-IsCalling called (_, build_execution_details called) s.on_update calling counted)
        (told-throws called (_, build_execution_details called) s.on_update refl)
