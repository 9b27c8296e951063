-- ===== src/Agent/Fallback.antt =====
-- `Deterministic_Fallback_Strategy` of agent/selection.py: the keyless selection, a function of the
-- run's state and of the tools on offer.
pub mod Run
use agentforgev.Common.{
  ℕ, String, Bool, true, false, Option, none, some, List, [], ◌∷◌, ◌||◌, ◌&&◌, not, ◌==◌, text_keys,
  if◌then◌else◌,
}
use mathlib.Core.List.{reverse}
use agentforgev.Common.Value.{string, field, end}
use agentforgev.Agent.State.{
  Content, text, ObservationKind, tool_result, Observation, ToolCall, Decision, AgentState,
  final_decision, tool_decision,
}
use agentforgev.Agent.Registry.{ToolSpec}
use agentforgev.Agent.Nodes.{Strategy, is_non_empty}

-- `any(spec.name == name for spec in specs)`
abbrev pub is_offered : String → List ToolSpec → Bool
is_offered name [] = false
is_offered name (s ∷ ss) = s.name == name || is_offered name ss

abbrev pub names : Option String → String → Bool
names none name = false
names (some n) name = n == name

-- `any(obs.tool_name == name for obs in observations)`
abbrev pub is_observed : String → List Observation → Bool
is_observed name [] = false
is_observed name (o ∷ os) = names o.tool_name name || is_observed name os

abbrev pub is_tool_result : ObservationKind → Bool
is_tool_result tool_result = true
is_tool_result _ = false

abbrev pub first_result : List Observation → Content → Content
first_result [] fallback = fallback
first_result (o ∷ os) fallback =
    if is_tool_result o.kind && is_non_empty o.content then o.content else first_result os fallback

-- `_compose_answer`
unfoldable pub compose_answer : List Observation → String → Content
compose_answer os request = first_result (reverse os) (text request)

abbrev pub rag_call : String → String → ToolCall
rag_call name request = record { tool_name = name; arguments = field "query" (string request) end }

unfoldable pub fallback_decision : String → AgentState → List ToolSpec → Decision
unfolding compose_answer
fallback_decision name s specs =
    if is_offered name specs && not (is_observed name s.observations)
    then tool_decision (rag_call name s.user_request)
    else final_decision (compose_answer s.observations s.user_request)

abbrev pub fallback : {W : Type 0} → String → Strategy W
fallback name s specs w = (some (fallback_decision name s specs), w)
