-- ===== src/MultiAgent/Graph.antt =====
-- multiagent/graph.py: the role nodes, the routing behind the reviewer, and the terminal nodes.
-- A role is a seam of the program: whatever state it keeps is `W`, handed to it and returned.
-- The nodes of the roles are named by their place in the pipeline; LangGraph refuses a pipeline that
-- names a role twice, so place and name agree.
use agentforgev.Common.{
  ℕ, zero, suc, ◌+◌, ◌-◌, String, Bool, false, Option, none, some, List, [], ◌∷◌, ◌++◌, ◌&&◌, leb,
  ltb, ◌==◌, number_keys, text_keys, length, if◌then◌else◌,
}
use agentforgev.Common.Dict.{Dict, lookup, insert}
use agentforgev.Graph.{Graph, Outcome, ok, raised}
use agentforgev.MultiAgent.State.{
  CriticFeedback, FinalOutput, completed, max_rounds_reached, max_revisions_reached, Blackboard,
}

-- `Agent_Role_Interface`; `act` returns the updated blackboard, or `none` when it raises.
pub record Role (W : Type 0) : Type 0 where
  pub role_id : String
  pub act : Blackboard → W → Option Blackboard × W

pub record Machine (W : Type 0) : Type 0 where
  pub state : Blackboard
  -- the role steps recorded so far
  pub trace : List String
  pub world : W

abbrev pub requires_revision : Option CriticFeedback → Bool
requires_revision none = false
requires_revision (some f) = f.revision_required

-- `_is_revision_entry`
abbrev pub is_revision_entry : Blackboard → Bool
is_revision_entry s = requires_revision s.critic_feedback

pub data Route : Type 0 where
  route_approve route_rounds route_revs route_revise : Route

unfoldable pub next_after_review : Blackboard → Route
next_after_review s =
    if requires_revision s.critic_feedback
    then if leb s.max_rounds s.round_count
      then route_rounds
      else if leb s.max_revisions s.revision_count
      then route_revs
      else route_revise
    else route_approve

abbrev pub add_if : Bool → ℕ → ℕ
add_if b n = if b then n + 1 else n

module _ {W : Type 0} where
  abbrev pub counted :
      Role W → Bool → Bool → Option Blackboard → W → Machine W → Outcome (Machine W)
  counted role is_reviewer revision none w m = raised (record m { world = w })
  counted role is_reviewer revision (some s) w m = ok (record {
    state = record s {
      round_count = add_if is_reviewer s.round_count;
      revision_count = add_if revision s.revision_count;
    };
    trace = m.trace ++ role.role_id ∷ [];
    world = w;
  })

  -- Whether this is a revision is read before the role acts.
  unfoldable pub run_role_step : Role W → Bool → Bool → Machine W → Outcome (Machine W)
  run_role_step role is_reviewer is_reviser m =
      let (s, w) = role.act m.state m.world in
      counted role is_reviewer (is_reviser && is_revision_entry m.state) s w m

  -- `Agent_Role_Registry.register`; `none` is `DuplicateRoleIdError`.
  unfoldable pub register_role : Role W → Dict String (Role W) → Option (Dict String (Role W))
  register_role role roles = elim (lookup role.role_id roles) [
    | none ↦ some (insert role.role_id role roles)
    | some old ↦ none
  ]

unfoldable pub final_output_from_draft : Blackboard → FinalOutput
final_output_from_draft s = elim s.draft [
  | none ↦ record { content = ""; citations = [] }
  | some d ↦ record { content = d.content; citations = d.citations }
]

unfoldable pub finalize_done : Blackboard → Blackboard
finalize_done s = record s {
  termination_reason = some completed;
  final_output = some (final_output_from_draft s);
  awaiting_approval = false;
}

unfoldable pub finalize_rounds : Blackboard → Blackboard
finalize_rounds s = record s {
  termination_reason = some max_rounds_reached;
  final_output = some (final_output_from_draft s);
}

unfoldable pub finalize_revs : Blackboard → Blackboard
finalize_revs s = record s {
  termination_reason = some max_revisions_reached;
  final_output = some (final_output_from_draft s);
}

pub data Node : Type 0 where
  phase : ℕ → Node
  finalize_done_node finalize_rounds_node finalize_revs_node : Node

-- The node that a route leads to, the reviser standing at `n - 2` of `n` phases.
abbrev pub route_to_node : ℕ → Route → Node
route_to_node n route_approve = finalize_done_node
route_to_node n route_rounds = finalize_rounds_node
route_to_node n route_revs = finalize_revs_node
route_to_node n route_revise = phase (n - 2)

module _ {W : Type 0} where
  abbrev pub role_at : List (Role W) → ℕ → Option (Role W)
  role_at [] i = none
  role_at (r ∷ rs) zero = some r
  role_at (r ∷ rs) (suc i) = role_at rs i

  abbrev pub run_phase : Option (Role W) → Bool → Bool → Machine W → Outcome (Machine W)
  run_phase none is_reviewer is_reviser m = raised m
  run_phase (some role) is_reviewer is_reviser m = run_role_step role is_reviewer is_reviser m

  unfoldable pub exec_node : List (Role W) → Node → Machine W → Outcome (Machine W)
  unfolding finalize_done finalize_rounds finalize_revs
  exec_node roles (phase i) m =
      run_phase (role_at roles i) (i + 1 == length roles) (i + 2 == length roles) m
  exec_node roles finalize_done_node m = ok (record m { state = finalize_done m.state })
  exec_node roles finalize_rounds_node m = ok (record m { state = finalize_rounds m.state })
  exec_node roles finalize_revs_node m = ok (record m { state = finalize_revs m.state })

  unfoldable pub next_node : List (Role W) → Node → Machine W → Option Node
  next_node roles (phase i) m =
      if i + 1 == length roles
      then some (route_to_node (length roles) (next_after_review m.state))
      else some (phase (i + 1))
  next_node roles finalize_done_node m = none
  next_node roles finalize_rounds_node m = none
  next_node roles finalize_revs_node m = none

  -- The roles of a pipeline; `none` for one that is not registered.
  unfoldable pub resolve_pipeline : Dict String (Role W) → List String → Option (List (Role W))
  resolve_pipeline roles [] = some []
  resolve_pipeline roles (id ∷ ids) = elim (lookup id roles) [
    | none ↦ none
    | some r ↦ elim (resolve_pipeline roles ids) [ none ↦ none | some rs ↦ some (r ∷ rs) ]
  ]

  abbrev pub graph_of : List (Role W) → Graph Node (Machine W)
  graph_of roles = record { entry = phase 0; exec = exec_node roles; next = next_node roles }

  -- `none` is `ValueError`: fewer than two phases, or a role that is not registered.
  unfoldable pub build_multi_agent_graph :
      Dict String (Role W) → List String → Option (Graph Node (Machine W))
  unfolding resolve_pipeline
  build_multi_agent_graph roles pipeline =
      if ltb (length pipeline) 2
      then none
      else elim (resolve_pipeline roles pipeline) [ none ↦ none | some rs ↦ some (graph_of rs) ]
