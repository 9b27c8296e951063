-- ===== src/MultiAgent/Orchestrator.antt =====
-- `Multi_Agent_Orchestrator.run` of multiagent/orchestrator.py. LangGraph's `invoke` is a parameter.
use agentforgev.Common.{ℕ, ◌+◌, ◌*◌, String, false, Option, none, some, List, [], length}
use agentforgev.Common.Value.{Value}
use agentforgev.Graph.{Graph, Run, finished, failed, recursion_error}
use agentforgev.MultiAgent.State.{
  Blackboard, FinalOutput, aborted, resolve_max_rounds, resolve_max_revisions,
}
use agentforgev.MultiAgent.Graph.{Role, Machine, Node, graph_of, final_output_from_draft}

-- The configured bounds, as they reach the constructor.
pub record Settings : Type 0 where
  pub max_rounds : Option Value
  pub max_revisions : Option Value

-- `initialize_state`; the identifiers are given or made by `uuid4` before.
unfoldable pub initialize_state : Settings → String → ℕ → ℕ → Blackboard
initialize_state c task run_id conversation_id =
    let (rounds, bad_rounds) = resolve_max_rounds c.max_rounds in
    let (revisions, bad_revisions) = resolve_max_revisions c.max_revisions in
    record {
      run_id = run_id;
      conversation_id = conversation_id;
      task = task;
      plan = none;
      research_findings = none;
      draft = none;
      critic_feedback = none;
      round_count = 0;
      revision_count = 0;
      max_rounds = rounds;
      max_revisions = revisions;
      invalid_rounds_flagged = bad_rounds;
      invalid_revisions_flagged = bad_revisions;
      termination_reason = none;
      final_output = none;
      approval_policy = "auto";
      awaiting_approval = false;
      pending_checkpoint = none;
      last_decision = none;
    }

abbrev pub nodes_per_round : ℕ
nodes_per_round = 2

abbrev pub recursion_buffer : ℕ
recursion_buffer = 25

abbrev pub recursion_limit_for : ℕ → ℕ → ℕ
recursion_limit_for max_rounds phases = nodes_per_round * max_rounds + phases + recursion_buffer

abbrev pub or_output : Option FinalOutput → FinalOutput → Option FinalOutput
or_output none o = some o
or_output (some x) o = some x

-- The defensive guard after the graph.
unfoldable pub guard_state : Blackboard → Blackboard
guard_state s = elim s.termination_reason [
  | some r ↦ s
  | none ↦ record s {
    termination_reason = some aborted;
    final_output = or_output s.final_output (final_output_from_draft s);
  }
]

abbrev pub guarded : {W : Type 0} → Run (Machine W) → Run (Machine W)
guarded (finished m) = finished (record m { state = guard_state m.state })
guarded (failed m) = failed m
guarded recursion_error = recursion_error

module _ {W : Type 0} (invoke : Graph Node (Machine W) → ℕ → Machine W → Run (Machine W)) where
  -- `run`, over the roles that the constructor resolved.
  unfoldable pub run : List (Role W) → Settings → String → ℕ → ℕ → W → Run (Machine W)
  unfolding initialize_state guard_state
  run roles c task run_id conversation_id w =
      let s = initialize_state c task run_id conversation_id in
      guarded (
        invoke (graph_of roles) (recursion_limit_for s.max_rounds (length roles))
          (record { state = s; trace = []; world = w }))
