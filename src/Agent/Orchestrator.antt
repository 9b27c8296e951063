-- ===== src/Agent/Orchestrator.antt =====
-- `Agent_Orchestrator.run` of agent/orchestrator.py. The identifiers that `uuid4` makes are given.
-- LangGraph's `invoke` is the parameter of the section.
use agentforgev.Common.{ℕ, ◌+◌, ◌*◌, String, Option, none, some, List, []}
use agentforgev.Common.Dict.{Dict}
use agentforgev.Common.Value.{Value}
use agentforgev.Graph.{Graph, Run, finished, failed, recursion_error}
use agentforgev.Agent.State.{Message, AgentState, text, resolve_iteration_limit}
use agentforgev.Agent.Registry.{Tool}
use agentforgev.Agent.Nodes.{Machine, Strategy, Node, build_agent_graph, or_final, or_content}

pub record Request : Type 0 where
  pub user_request : String
  pub conversation_context : List Message
  pub conversation_id : Option ℕ
  -- what `uuid4` returns
  pub new_run_id : ℕ
  pub new_conversation_id : ℕ

abbrev pub id_or : Option ℕ → ℕ → ℕ
id_or none fresh = fresh
id_or (some i) fresh = i

-- The initial `AgentState`, under the configured limit.
unfoldable pub initial_state : Option Value → Request → AgentState
unfolding resolve_iteration_limit
initial_state configured r =
    let (limit, flagged) = resolve_iteration_limit configured in
    record {
      run_id = r.new_run_id;
      conversation_id = id_or r.conversation_id r.new_conversation_id;
      user_request = r.user_request;
      conversation_context = r.conversation_context;
      observations = [];
      iteration_count = 0;
      iteration_limit = limit;
      pending_tool_call = none;
      pending_observation = none;
      answer = none;
      termination_reason = none;
      invalid_limit_flagged = flagged;
    }

abbrev pub nodes_per_cycle : ℕ
nodes_per_cycle = 3

abbrev pub recursion_buffer : ℕ
recursion_buffer = 10

abbrev pub recursion_limit_for : ℕ → ℕ
recursion_limit_for limit = nodes_per_cycle * limit + recursion_buffer

-- The defensive guard after the graph.
unfoldable pub guard_state : AgentState → AgentState
guard_state s = elim s.termination_reason [
  | some r ↦ s
  | none ↦ record s {
    termination_reason = or_final none;
    answer = or_content s.answer (text s.user_request);
  }
]

abbrev pub guarded : {W : Type 0} → Run (Machine W) → Run (Machine W)
guarded (finished m) = finished (record m { state = guard_state m.state })
guarded (failed m) = failed m
guarded recursion_error = recursion_error

module _ {W : Type 0} (invoke : Graph Node (Machine W) → ℕ → Machine W → Run (Machine W)) where
  unfoldable pub run :
      Strategy W → Dict String (Tool W) → Option Value → Request → W → Run (Machine W)
  unfolding initial_state build_agent_graph guard_state
  run select tools configured r w =
      let s = initial_state configured r in
      guarded (
        invoke (build_agent_graph select tools) (recursion_limit_for s.iteration_limit)
          (record { state = s; trace = []; world = w }))
