-- ===== src/Agent/Runs.antt =====
-- What `Agent_Orchestrator.run` (agent/orchestrator.py) guarantees of every run.
use agentforgev.Common.{
  ℕ, ◌+◌, ◌*◌, ◌≤◌, ◌≡◌, ◌≢◌, refl, String, Option, none, some, List, text_keys, arith,
}
use agentforgev.Common.Dict.{Dict, lookup}
use agentforgev.Common.Value.{Value, Fields}
use agentforgev.Graph.{Run, Graph, walk, finished, failed, recursion_error, raised}
use agentforgev.Graph.Rule.{Ends, finished_run}
use agentforgev.Agent.State.{
  Reason, AgentState, ToolCall, Decision, Observation, resolve_iteration_limit,
}
use agentforgev.Agent.Schema.{validate_arguments}
use agentforgev.Agent.Registry.{
  Tool, ToolSpec, ToolOutcome, returned, tool_error, crashed, list_specs,
}
use agentforgev.Agent.Nodes.{
  Machine, Strategy, Node, reason_node, act_node, observe_node, finalize_node, finalize_limit_node,
  exec_node, dispatch, invoke_checked, invoke_validated, observe_outcome, after_select,
  after_dispatch,
}
use agentforgev.Agent.Orchestrator.{Request, run, guarded, guard_state}
use agentforgev.Agent.Bounds.{IsDone, walk-IsDone}

-- The limit applied to a run lies between 1 and 100, whatever was configured, and it is the
-- configured value exactly when nothing is flagged and something was configured.
pub resolve_iteration_limit_range :
    (v : Option Value) → (1 ≤ (resolve_iteration_limit v).0) × ((resolve_iteration_limit v).0 ≤ 100)
unfolding resolve_iteration_limit
resolve_iteration_limit_range v = ground arith

guard_state-IsDone : (l : ℕ) (s : AgentState) → IsDone l s → IsDone l (guard_state s)
unfolding guard_state
guard_state-IsDone l s h = ground arith

module _ {W : Type 0} where
  abbrev Done : ℕ → Machine W → Type 0
  Done l m = IsDone l m.state

  guarded-Ends :
      (l : ℕ) (R : Machine W → Type 0) (o : Run (Machine W))
      → Ends (Done l) R o
      → Ends (Done l) R (guarded o)
  guarded-Ends l R (finished m) h = guard_state-IsDone l m.state h
  guarded-Ends l R (failed m) h = h
  guarded-Ends l R recursion_error h = h

  module _ (invoke : Graph Node (Machine W) → ℕ → Machine W → Run (Machine W))
      (documented : (g : Graph Node (Machine W)) (k : ℕ) (m : Machine W)
        → invoke g k m ≡ walk g k g.entry m)
      (select : Strategy W) (tools : Dict String (Tool W)) where
    run-Ends :
        (R : Machine W → Type 0)
        → ((n : Node) (m m' : Machine W) → exec_node select tools n m ≡ raised m' → R m')
        → (configured : Option Value) (r : Request) (w : W)
        → Ends
            (Done (resolve_iteration_limit configured).0)
            R
            (run invoke select tools configured r w)
    unfolding run
    run-Ends R fails configured r w =
        let l = (resolve_iteration_limit configured).0 in
        let range = resolve_iteration_limit_range configured in
        guarded-Ends l R _ (
          rw documented (
            walk-IsDone select tools l R fails (3 * l + 10) _
              (record { limited = refl; below = range.0; counted = refl; open_ended = refl }) refl
              (omega arith)))

    -- Whatever the strategy and the tools do, a run never meets the recursion limit, and one that
    -- finishes has made at most the resolved limit of cycles, has one observation for each cycle, and
    -- has exactly one termination reason and an answer; the reason is the iteration limit only if
    -- the number of cycles is the limit.
    pub run_bounded :
        (configured : Option Value) (r : Request) (w : W)
        → Ends
            (λ m. IsDone (resolve_iteration_limit configured).0 m.state)
            (λ m. Unit)
            (run invoke select tools configured r w)
    run_bounded = run-Ends (λ m. Unit) (λ n m m' e. tt)

-- The strategy always decides, and every tool returns or raises `ToolError`.
pub record IsCalm {W : Type 0} (select : Strategy W) (tools : Dict String (Tool W)) : Type 0 where
  pub decides : (s : AgentState) (specs : List ToolSpec) (w : W) → (select s specs w).0 ≢ none
  pub answers :
      (name : String) (tool : Tool W) (args : Fields) (w : W)
      → lookup name tools ≡ some tool
      → (tool.invoke args w).0 ≢ crashed

module _ {W : Type 0} (select : Strategy W) (tools : Dict String (Tool W))
    (calm : IsCalm select tools) where
  observe_outcome-ne-none :
      (c : ToolCall) (r : ToolOutcome) → r ≢ crashed → observe_outcome c r ≢ none
  observe_outcome-ne-none c (returned x) h = cc
  observe_outcome-ne-none c (tool_error e) h = cc
  observe_outcome-ne-none c crashed h = λ _. h refl

  invoke_validated-ne-none :
      (c : ToolCall) (tool : Tool W) (v : Option Reason) (w : W)
      → (tool.invoke c.arguments w).0 ≢ crashed
      → (invoke_validated c tool v w).0 ≢ none
  invoke_validated-ne-none c tool (some e) w h = cc
  invoke_validated-ne-none c tool none w h =
      observe_outcome-ne-none c (tool.invoke c.arguments w).0 h

  invoke_checked-ne-none :
      (c : ToolCall) (o : Option (Tool W)) (w : W)
      → lookup c.tool_name tools ≡ o
      → (invoke_checked c o w).0 ≢ none
  invoke_checked-ne-none c none w e = cc
  invoke_checked-ne-none c (some tool) w e =
      invoke_validated-ne-none c tool (validate_arguments c.arguments tool.input_schema) w
        (calm.answers c.tool_name tool c.arguments w e)

  dispatch-ne-none : (o : Option ToolCall) (w : W) → (dispatch tools o w).0 ≢ none
  unfolding dispatch
  dispatch-ne-none none w = cc
  dispatch-ne-none (some c) w = invoke_checked-ne-none c _ w refl

  after_select-ne-raised :
      (d : Option Decision) (w : W) (m m' : Machine W) → d ≢ none → after_select d w m ≢ raised m'
  after_select-ne-raised none w m m' h e = h refl
  after_select-ne-raised (some d) w m m' h e = cc

  after_dispatch-ne-raised :
      (o : Option Observation) (w : W) (m m' : Machine W)
      → o ≢ none
      → after_dispatch o w m ≢ raised m'
  after_dispatch-ne-raised none w m m' h e = h refl
  after_dispatch-ne-raised (some o) w m m' h e = cc

  exec_node-ne-raised : (n : Node) (m m' : Machine W) → exec_node select tools n m ≡ raised m' → ⊥
  unfolding exec_node
  exec_node-ne-raised reason_node m m' e =
      let (d, w) = select m.state (list_specs tools) m.world in
      after_select-ne-raised d w m m' (calm.decides m.state (list_specs tools) m.world) e
  exec_node-ne-raised act_node m m' e =
      let (o, w) = dispatch tools m.state.pending_tool_call m.world in
      after_dispatch-ne-raised o w m m' (dispatch-ne-none m.state.pending_tool_call m.world) e
  exec_node-ne-raised observe_node m m' e = cc
  exec_node-ne-raised finalize_node m m' e = cc
  exec_node-ne-raised finalize_limit_node m m' e = cc

-- If the strategy always decides and no tool raises anything but `ToolError`, every run finishes,
-- whatever the limit that is configured: the recursion limit given to the graph is large enough.
-- The run then has a termination reason and an answer within the resolved limit.
pub run_total :
    {W : Type 0} (invoke : Graph Node (Machine W) → ℕ → Machine W → Run (Machine W))
    (documented : (g : Graph Node (Machine W)) (k : ℕ) (m : Machine W)
      → invoke g k m ≡ walk g k g.entry m)
    (select : Strategy W) (tools : Dict String (Tool W))
    → IsCalm select tools
    → (configured : Option Value) (r : Request) (w : W)
    → (m : Machine W) × (run invoke select tools configured r w ≡ finished m)
      × IsDone (resolve_iteration_limit configured).0 m.state
run_total invoke documented select tools calm configured r w = finished_run _ _ (
    run-Ends invoke documented select tools (λ m. ⊥) (exec_node-ne-raised select tools calm)
      configured r w)
