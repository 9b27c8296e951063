-- ===== src/Agent/Bounds.antt =====
-- Every run of the agent loop stays within its iteration limit and ends with a reason and an answer.
use agentforgev.Common.{
  ℕ, ◌+◌, ◌-◌, ◌*◌, ◌≤◌, ◌<◌, ◌≡◌, refl, String, Option, none, some, length, length-append, [], ◌∷◌,
  arith,
}
use agentforgev.Common.Dict.{Dict}
use agentforgev.Graph.{Outcome, ok, raised, walk}
use agentforgev.Graph.Rule.{Ends, Steps, walk-Ends}
use agentforgev.Agent.State.{
  AgentState, Observation, TerminationReason, final_answer, iteration_limit_reached, Content,
  Decision,
}
use agentforgev.Agent.Registry.{Tool, list_specs}
use agentforgev.Agent.Nodes.{
  Machine, Strategy, Node, reason_node, act_node, observe_node, finalize_node, finalize_limit_node,
  build_agent_graph, observe, finalize, finalize_limit, most_recent_answer, or_content, exec_node,
  dispatch, after_select, after_dispatch,
}

-- Between nodes, under the limit `l`.
pub record IsRunning (l : ℕ) (s : AgentState) : Type 0 where
  pub limited : s.iteration_limit ≡ l
  pub below : s.iteration_count < l
  pub counted : length s.observations ≡ s.iteration_count
  pub open_ended : s.termination_reason ≡ none

-- What a finished run guarantees.
pub record IsDone (l : ℕ) (s : AgentState) : Type 0 where
  pub bounded : s.iteration_count ≤ l
  pub counted : length s.observations ≡ s.iteration_count
  pub reasoned :
      (r : TerminationReason) × (s.termination_reason ≡ some r)
      × (r ≡ iteration_limit_reached → s.iteration_count ≡ l)
  pub answered : (c : Content) × (s.answer ≡ some c)

-- The invariant of each node.
abbrev At : ℕ → Node → AgentState → Type 0
At l reason_node s = IsRunning l s × (s.pending_observation ≡ none)
At l act_node s = IsRunning l s × (s.pending_observation ≡ none)
At l observe_node s = IsRunning l s × ((o : Observation) × (s.pending_observation ≡ some o))
At l finalize_node s =
    (s.iteration_count ≤ l)
    × (length s.observations ≡ s.iteration_count)
    × (s.termination_reason ≡ some final_answer)
At l finalize_limit_node s = (s.iteration_count ≡ l) × (length s.observations ≡ s.iteration_count)

abbrev left : ℕ → Node → AgentState → ℕ
left l reason_node s = 3 * (l - s.iteration_count) + 1
left l act_node s = 3 * (l - s.iteration_count)
left l observe_node s = 3 * (l - s.iteration_count) - 1
left l finalize_node s = 0
left l finalize_limit_node s = 0

or_content-some : (o : Option Content) (c : Content) → (x : Content) × (or_content o c ≡ some x)
or_content-some none c = (c, refl)
or_content-some (some x) c = (x, refl)

module _ {W : Type 0} (select : Strategy W) (tools : Dict String (Tool W)) (l : ℕ)
    (R : Machine W → Type 0) where
  abbrev Good : Node → Machine W → Type 0
  Good n m = At l n m.state

  abbrev measure : Node → Machine W → ℕ
  measure n m = left l n m.state

  abbrev Q : Machine W → Type 0
  Q m = IsDone l m.state

  abbrev Goes : Node → Machine W → Outcome (Machine W) → Type 0
  Goes n m = Steps Good measure Q R (build_agent_graph select tools) (measure n m) n

  observe-Goes : (m : Machine W) → Good observe_node m → Goes observe_node m (observe m)
  unfolding build_agent_graph observe
  observe-Goes m h = ground (arith, length-append m.state.observations ((h.1).0 ∷ []))

  reason-Goes :
      (m : Machine W) (d : Option Decision) (w : W)
      → Good reason_node m
      → ((m' : Machine W) → after_select d w m ≡ raised m' → R m')
      → Goes reason_node m (after_select d w m)
  unfolding build_agent_graph
  reason-Goes m none w h fails = fails _ refl
  reason-Goes m (some d) w h fails = ground arith

  act-Goes :
      (m : Machine W) (o : Option Observation) (w : W)
      → Good act_node m
      → ((m' : Machine W) → after_dispatch o w m ≡ raised m' → R m')
      → Goes act_node m (after_dispatch o w m)
  unfolding build_agent_graph
  act-Goes m none w h fails = fails _ refl
  act-Goes m (some o) w h fails = ground arith

  finalize-Goes :
      (m : Machine W)
      → Good finalize_node m
      → Goes finalize_node m (ok (record m { state = finalize m.state }))
  unfolding build_agent_graph finalize
  finalize-Goes m h = record {
    bounded = h.0;
    counted = h.1;
    reasoned = (final_answer, rw (h.2), λ e. cc);
    answered = or_content-some m.state.answer (most_recent_answer m.state);
  }

  limit-Goes :
      (m : Machine W)
      → Good finalize_limit_node m
      → Goes finalize_limit_node m (ok (record m { state = finalize_limit m.state }))
  unfolding build_agent_graph finalize_limit
  limit-Goes m h = ground arith

  module _
      (fails : (n : Node) (m m' : Machine W) → exec_node select tools n m ≡ raised m' → R m') where
    node-Goes : (n : Node) (m : Machine W) → Good n m → Goes n m (exec_node select tools n m)
    unfolding exec_node
    node-Goes reason_node m h =
        let (d, w) = select m.state (list_specs tools) m.world in
        reason-Goes m d w h (fails reason_node m)
    node-Goes act_node m h =
        let (o, w) = dispatch tools m.state.pending_tool_call m.world in
        act-Goes m o w h (fails act_node m)
    node-Goes observe_node m h = observe-Goes m h
    node-Goes finalize_node m h = finalize-Goes m h
    node-Goes finalize_limit_node m h = limit-Goes m h

    pub walk-IsDone :
        (k : ℕ) (m : Machine W)
        → IsRunning l m.state
        → m.state.pending_observation ≡ none
        → 3 * l + 1 < k
        → Ends Q R (walk (build_agent_graph select tools) k reason_node m)
    unfolding build_agent_graph
    walk-IsDone k m h p fuel =
        walk-Ends Good measure Q R (build_agent_graph select tools) node-Goes k reason_node m (h, p)
          (ground arith)
