-- ===== src/Agent/Tests.antt =====
-- Concrete runs of the agent loop (agent/): one search tool whose world counts its invocations.
use agentforgev.Common.{
  ℕ, ◌+◌, ◌≤◌, ◌≡◌, ◌↔◌, ◌⊎◌, refl, String, true, Option, none, some, [], ◌∷◌, text_keys, arith,
}
use agentforgev.Common.Dict.{Dict, lookup}
use agentforgev.Common.Int.{pos}
use agentforgev.Common.Value.{Value, number, int, string, field, end}
use agentforgev.Graph.{Graph, Run, walk, finished}
use agentforgev.Graph.Rule.{Ends}
use agentforgev.Agent.State.{
  Observation, ToolResult, text, tool_result, tool_decision, resolve_iteration_limit,
}
use agentforgev.Agent.Schema.{TypeName, Schema, validate_arguments, properties_of}
use agentforgev.Agent.Conforms.{Conforms, validate_arguments_iff}
use agentforgev.Agent.Registry.{Tool, returned, list_specs}
use agentforgev.Agent.Nodes.{Machine, Strategy, Node, dispatch}
use agentforgev.Agent.Orchestrator.{Request, run}
use agentforgev.Agent.Bounds.{IsDone}
use agentforgev.Agent.Runs.{IsCalm, run_bounded, run_total}
use agentforgev.Agent.Dispatch.{Refused, Invoked, dispatch_cases}
use agentforgev.Agent.Fallback.{fallback, is_offered, rag_call}
use agentforgev.Agent.Fallback.Run.{IsAnswered, fallback-run}

abbrev query_schema : Schema
query_schema = record {
  is_object = true;
  properties = some (
      (
        "query",
        record {
          expected = some TypeName.string_type;
          min_length = 1;
          minimum = none;
          maximum = none;
        },
      )
      ∷ []);
  required = "query" ∷ [];
  closed = true;
}

abbrev found : ToolResult
found = record { tool_name = "rag_search"; success = true; content = "Paris"; payload = end }

abbrev search_tool : Tool ℕ
search_tool = record {
  name = "rag_search";
  description = "search";
  input_schema = query_schema;
  available = true;
  invoke = λ args w. (returned found, w + 1);
}

abbrev tools : Dict String (Tool ℕ)
tools = ("rag_search", search_tool) ∷ []

-- A strategy that never gives a final answer.
abbrev restless : Strategy ℕ
restless s specs w = (some (tool_decision (rag_call "rag_search" s.user_request)), w)

abbrev request : Request
request = record {
  user_request = "capital of France";
  conversation_context = [];
  conversation_id = none;
  new_run_id = 1;
  new_conversation_id = 2;
}

abbrev invoke : Graph Node (Machine ℕ) → ℕ → Machine ℕ → Run (Machine ℕ)
invoke g k m = walk g k g.entry m

abbrev limit_of : ℕ → Option Value
limit_of n = some (number (int (pos n)))

tools-found : (name : String) (tool : Tool ℕ) → lookup name tools ≡ some tool → tool ≡ search_tool
tools-found name tool e = ground arith

restless-IsCalm : IsCalm restless tools
restless-IsCalm = record {
  decides = λ s specs w e. cc;
  answers = λ name tool args w found_tool e. cc (rw (tools-found name tool found_tool) at e);
}

run_bounded_example :
    Ends
      (λ m. IsDone (resolve_iteration_limit (limit_of 2)).0 m.state)
      (λ m. Unit)
      (run invoke restless tools (limit_of 2) request 0)
run_bounded_example = run_bounded invoke (λ g k m. refl) restless tools (limit_of 2) request 0

run_total_example :
    (m : Machine ℕ) × (run invoke restless tools (limit_of 2) request 0 ≡ finished m)
    × IsDone (resolve_iteration_limit (limit_of 2)).0 m.state
run_total_example =
    run_total invoke (λ g k m. refl) restless tools restless-IsCalm (limit_of 2) request 0

validate_arguments_iff_example :
    (validate_arguments (field "query" (string "x") end) query_schema ≡ none)
    ↔ Conforms
        (field "query" (string "x") end)
        query_schema.required
        query_schema.closed
        (properties_of query_schema.properties)
validate_arguments_iff_example =
    validate_arguments_iff (field "query" (string "x") end) query_schema refl

dispatch_cases_example :
    Refused tools
      (rag_call "rag_search" "x")
      0
      (dispatch tools (some (rag_call "rag_search" "x")) 0)
    ⊎ Invoked tools
        (rag_call "rag_search" "x")
        0
        (dispatch tools (some (rag_call "rag_search" "x")) 0)
dispatch_cases_example = dispatch_cases tools (rag_call "rag_search" "x") 0

abbrev seen : Observation
seen = record {
  kind = tool_result;
  tool_name = some "rag_search";
  content = text "Paris";
  payload = end;
}

search-offered : is_offered "rag_search" (list_specs tools) ≡ true
unfolding list_specs
search-offered = refl

search-dispatched :
    dispatch tools (some (rag_call "rag_search" "capital of France")) 0 ≡ (some seen, 1)
unfolding dispatch validate_arguments
search-dispatched = refl

limit-two : 2 ≤ (resolve_iteration_limit none).0
unfolding resolve_iteration_limit
limit-two = omega arith

fallback-run_example :
    (m : Machine ℕ) × (run invoke (fallback "rag_search") tools none request 0 ≡ finished m)
    × IsAnswered "capital of France" seen m.state
fallback-run_example =
    fallback-run "rag_search" invoke (λ g k m. refl) tools none request 0 1 seen search-offered
      search-dispatched limit-two
