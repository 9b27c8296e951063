-- ===== src/Agent/State.antt =====
-- agent/state.py, tools/base.py and the decisions of agent/selection.py: the data of a run.
-- A text that the code builds from a template is kept as the template's name and its arguments.
use agentforgev.Common.{
  ℕ, String, Bool, true, false, Option, none, some, List, ◌&&◌, leb, if◌then◌else◌,
}
use agentforgev.Common.Int.{pos}
use agentforgev.Common.Value.{Value, Fields, number, int}

-- The reasons of `validate_arguments`, each about one key.
pub data Reason : Type 0 where
  missing_required unexpected must_be_string too_short must_be_integer : String → Reason
  must_be_number must_be_boolean must_be_array must_be_object : String → Reason
  below_minimum above_maximum : String → Reason

-- The answers and observation contents of a run. A template is never empty.
pub data Content : Type 0 where
  text : String → Content
  no_call_staged : Content
  not_registered : String → Content
  invalid : Reason → Content

pub data TerminationReason : Type 0 where
  final_answer iteration_limit_reached : TerminationReason

pub data ObservationKind : Type 0 where
  tool_result tool_not_found validation_error tool_execution_error : ObservationKind

pub record Observation : Type 0 where
  pub kind : ObservationKind
  pub tool_name : Option String
  pub content : Content
  pub payload : Fields

pub record ToolCall : Type 0 where
  pub tool_name : String
  pub arguments : Fields

pub record ToolResult : Type 0 where
  pub tool_name : String
  pub success : Bool
  pub content : String
  pub payload : Fields

-- `Decision`: a final answer or one tool call.
pub record Decision : Type 0 where
  pub is_final : Bool
  pub answer : Option Content
  pub tool_call : Option ToolCall

abbrev pub final_decision : Content → Decision
final_decision a = record { is_final = true; answer = some a; tool_call = none }

abbrev pub tool_decision : ToolCall → Decision
tool_decision c = record { is_final = false; answer = none; tool_call = some c }

pub record Message : Type 0 where
  pub role : String
  pub content : String

pub record AgentState : Type 0 where
  pub run_id : ℕ
  pub conversation_id : ℕ
  pub user_request : String
  pub conversation_context : List Message
  pub observations : List Observation
  pub iteration_count : ℕ
  pub iteration_limit : ℕ
  pub pending_tool_call : Option ToolCall
  pub pending_observation : Option Observation
  pub answer : Option Content
  pub termination_reason : Option TerminationReason
  pub invalid_limit_flagged : Bool

abbrev pub default_iteration_limit : ℕ
default_iteration_limit = 10

abbrev pub min_iteration_limit : ℕ
min_iteration_limit = 1

abbrev pub max_iteration_limit : ℕ
max_iteration_limit = 100

-- The limit and whether the configured value was rejected. `Value` keeps `bool` apart from `int`.
unfoldable pub resolve_iteration_limit : Option Value → ℕ × Bool
resolve_iteration_limit none = (default_iteration_limit, false)
resolve_iteration_limit (some (number (int (pos n)))) =
    if leb min_iteration_limit n && leb n max_iteration_limit
    then (n, false)
    else (default_iteration_limit, true)
resolve_iteration_limit (some v) = (default_iteration_limit, true)
