-- ===== src/Agent/Nodes.antt =====
-- The nodes and edges of agent/graph.py. Where a node returns a dict of updates, the model returns the
-- state with the updates merged in. A recorded step goes to the end of `trace`.
use agentforgev.Common.{
  ℕ, ◌+◌, String, Bool, true, Option, none, some, List, [], ◌∷◌, ◌++◌, leb, ◌==◌, not, text_keys,
  if◌then◌else◌,
}
use mathlib.Core.List.{reverse}
use agentforgev.Common.Dict.{Dict}
use agentforgev.Common.Value.{end}
use agentforgev.Graph.{Outcome, Graph, ok, raised}
use agentforgev.Agent.State.{
  Reason, Content, text, no_call_staged, not_registered, invalid, TerminationReason, final_answer,
  iteration_limit_reached, ObservationKind, tool_result, tool_not_found, validation_error,
  tool_execution_error, Observation, ToolCall, Decision, AgentState,
}
use agentforgev.Agent.Schema.{validate_arguments}
use agentforgev.Agent.Registry.{
  Tool, ToolSpec, ToolOutcome, returned, tool_error, crashed, resolve, list_specs,
}

pub data StepType : Type 0 where
  reason_step tool_call_step observe_step : StepType

pub record TraceStep : Type 0 where
  pub step_type : StepType
  pub tool_name : Option String
  pub outcome : Option ObservationKind
  -- the "iteration_count" of the step's detail
  pub count : Option ℕ

-- A run in progress: the graph's state, the steps recorded so far, and the seams' own state.
pub record Machine (W : Type 0) : Type 0 where
  pub state : AgentState
  pub trace : List TraceStep
  pub world : W

-- `Selection_Strategy.select`; `none` when it raises.
abbrev pub Strategy : Type 0 → Type 0
Strategy W = AgentState → List ToolSpec → W → Option Decision × W

abbrev pub is_non_empty : Content → Bool
is_non_empty (text s) = not (s == "")
is_non_empty _ = true

abbrev pub first_non_empty : List Observation → Content → Content
first_non_empty [] fallback = fallback
first_non_empty (o ∷ os) fallback =
    if is_non_empty o.content then o.content else first_non_empty os fallback

-- The most recent non-empty observation, or else the request.
abbrev pub latest_content : AgentState → Content
latest_content s = first_non_empty (reverse s.observations) (text s.user_request)

abbrev pub answer_or : Option Content → Content → Content
answer_or none fallback = fallback
answer_or (some a) fallback = if is_non_empty a then a else fallback

unfoldable pub most_recent_answer : AgentState → Content
most_recent_answer s = answer_or s.answer (latest_content s)

abbrev pub refused : ObservationKind → Option String → Content → Observation
refused kind name content = record {
  kind = kind;
  tool_name = name;
  content = content;
  payload = end;
}

-- `none` when the tool raises anything but `ToolError`, which no handler catches.
abbrev pub observe_outcome : ToolCall → ToolOutcome → Option Observation
observe_outcome call (returned r) = some (record {
  kind = tool_result;
  tool_name = some call.tool_name;
  content = text r.content;
  payload = r.payload;
})
observe_outcome call (tool_error e) =
    some (refused tool_execution_error (some call.tool_name) (text e))
observe_outcome call crashed = none

abbrev pub decide : Decision → AgentState → AgentState
decide d s =
    if d.is_final
    then record s {
      answer = d.answer;
      termination_reason = some final_answer;
      pending_tool_call = none;
    }
    else record s { pending_tool_call = d.tool_call }

abbrev pub call_name : Option ToolCall → Option String
call_name none = none
call_name (some c) = some c.tool_name

abbrev pub committed : Option Observation → List Observation → List Observation
committed none os = os
committed (some o) os = os ++ o ∷ []

module _ {W : Type 0} where
  abbrev pub record_step : Machine W → TraceStep → Machine W
  record_step m t = record m { trace = m.trace ++ t ∷ [] }

  abbrev pub invoke_validated : ToolCall → Tool W → Option Reason → W → Option Observation × W
  invoke_validated call tool (some e) w =
      (some (refused validation_error (some call.tool_name) (invalid e)), w)
  invoke_validated call tool none w =
      let (r, w') = tool.invoke call.arguments w in (observe_outcome call r, w')

  abbrev pub invoke_checked : ToolCall → Option (Tool W) → W → Option Observation × W
  invoke_checked call none w =
      (some (refused tool_not_found (some call.tool_name) (not_registered call.tool_name)), w)
  invoke_checked call (some tool) w =
      invoke_validated call tool (validate_arguments call.arguments tool.input_schema) w

  -- `_dispatch`
  unfoldable pub dispatch : Dict String (Tool W) → Option ToolCall → W → Option Observation × W
  unfolding resolve
  dispatch tools none w = (some (refused validation_error none no_call_staged), w)
  dispatch tools (some call) w = invoke_checked call (resolve call.tool_name tools) w

  abbrev pub after_select : Option Decision → W → Machine W → Outcome (Machine W)
  after_select none w m = raised (record m { world = w })
  after_select (some d) w m = ok (
      record_step (record m { state = decide d m.state; world = w })
        (record { step_type = reason_step; tool_name = none; outcome = none; count = none }))

  unfoldable pub reason : Strategy W → Dict String (Tool W) → Machine W → Outcome (Machine W)
  reason select tools m =
      let (d, w) = select m.state (list_specs tools) m.world in after_select d w m

  abbrev pub after_dispatch : Option Observation → W → Machine W → Outcome (Machine W)
  after_dispatch none w m = raised (record m { world = w })
  after_dispatch (some o) w m = ok (
      record_step (record m { state = record m.state { pending_observation = some o }; world = w })
        (record {
          step_type = tool_call_step;
          tool_name = call_name m.state.pending_tool_call;
          outcome = some o.kind;
          count = none;
        }))

  unfoldable pub act : Dict String (Tool W) → Machine W → Outcome (Machine W)
  act tools m =
      let (o, w) = dispatch tools m.state.pending_tool_call m.world in after_dispatch o w m

  unfoldable pub observe : Machine W → Outcome (Machine W)
  observe m =
      let n = m.state.iteration_count + 1 in
      ok (
        record_step
          (record m {
            state = record m.state {
              observations = committed m.state.pending_observation m.state.observations;
              iteration_count = n;
              pending_observation = none;
              pending_tool_call = none;
            };
          })
          (record { step_type = observe_step; tool_name = none; outcome = none; count = some n }))

abbrev pub or_final : Option TerminationReason → Option TerminationReason
or_final none = some final_answer
or_final (some r) = some r

abbrev pub or_content : Option Content → Content → Option Content
or_content none c = some c
or_content (some a) c = some a

unfoldable pub finalize : AgentState → AgentState
unfolding most_recent_answer
finalize s = record s {
  termination_reason = or_final s.termination_reason;
  answer = or_content s.answer (most_recent_answer s);
}

unfoldable pub finalize_limit : AgentState → AgentState
unfolding most_recent_answer
finalize_limit s = record s {
  termination_reason = some iteration_limit_reached;
  answer = some (most_recent_answer s);
}

pub data Node : Type 0 where
  reason_node act_node observe_node finalize_node finalize_limit_node : Node

unfoldable pub route_after_reason : AgentState → Node
route_after_reason s = elim s.termination_reason [ none ↦ act_node | some r ↦ finalize_node ]

unfoldable pub route_after_observe : AgentState → Node
route_after_observe s =
    if leb s.iteration_limit s.iteration_count then finalize_limit_node else reason_node

module _ {W : Type 0} (select : Strategy W) (tools : Dict String (Tool W)) where
  unfoldable pub exec_node : Node → Machine W → Outcome (Machine W)
  unfolding reason act observe finalize finalize_limit
  exec_node reason_node m = reason select tools m
  exec_node act_node m = act tools m
  exec_node observe_node m = observe m
  exec_node finalize_node m = ok (record m { state = finalize m.state })
  exec_node finalize_limit_node m = ok (record m { state = finalize_limit m.state })

  unfoldable pub next_node : Node → Machine W → Option Node
  unfolding route_after_reason route_after_observe
  next_node reason_node m = some (route_after_reason m.state)
  next_node act_node m = some observe_node
  next_node observe_node m = some (route_after_observe m.state)
  next_node finalize_node m = none
  next_node finalize_limit_node m = none

  unfoldable pub build_agent_graph : Graph Node (Machine W)
  unfolding exec_node next_node
  build_agent_graph = record { entry = reason_node; exec = exec_node; next = next_node }
