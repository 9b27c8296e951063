-- ===== src/Tracing/Tests.antt =====
-- Runs of the recorder of tracing/recorder.py.
use agentforgev.Common.{ℕ, ◌≡◌, refl, none, some, List, [], ◌∷◌}
use agentforgev.Common.Sort.{sort_by}
use agentforgev.Tracing.{Step, list_runs, get_trace, record_entry}
use agentforgev.Tracing.Ordinals.{
  Call, record_all, recorded_steps, numbered, no_runs, get_trace-record_all,
}

abbrev reason : Step ℕ
reason = record { step_type = "reason"; tool_name = none; outcome = none; detail = 0 }

abbrev tool_call : Step ℕ
tool_call = record {
  step_type = "tool_call";
  tool_name = some "search";
  outcome = some "success";
  detail = 1;
}

-- Two runs of the organization 1 in turn, and one of the organization 2 with the same identifier.
abbrev calls : List (Call ℕ)
calls =
    record { org_id = 1; run_id = "a"; now = 5; step = reason }
    ∷ record { org_id = 1; run_id = "b"; now = 6; step = reason }
    ∷ record { org_id = 2; run_id = "a"; now = 7; step = tool_call }
    ∷ record { org_id = 1; run_id = "a"; now = 8; step = tool_call }
    ∷ []

get_trace-record_all_example :
    get_trace 1 "a" (record_all calls no_runs)
    ≡ record { run_id = "a"; entries = numbered "a" 0 (recorded_steps (1, "a") calls) }
get_trace-record_all_example = get_trace-record_all 1 "a" calls

two_steps : recorded_steps (1, "a") calls ≡ reason ∷ tool_call ∷ []
two_steps = refl

newest_first :
    list_runs 1 50 9 (record_all calls no_runs)
    ≡ record { run_id = "b"; created_at = 6; step_count = 1; tool_call_count = 0 }
      ∷ record { run_id = "a"; created_at = 5; step_count = 2; tool_call_count = 1 }
      ∷ []
unfolding list_runs record_entry sort_by
newest_first = refl
