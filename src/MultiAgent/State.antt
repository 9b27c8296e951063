-- ===== src/MultiAgent/State.antt =====
-- multiagent/models.py and multiagent/state.py: the blackboard that the roles share, and the resolution
-- of the configured bounds.
use agentforgev.Common.{
  ℕ, String, Bool, true, false, Option, none, some, List, ◌&&◌, leb, if◌then◌else◌,
}
use agentforgev.Common.Int.{pos}
use agentforgev.Common.Value.{Value, number, int}

pub record Citation : Type 0 where
  pub document_id : String
  pub chunk_id : String

pub record ResearchFinding : Type 0 where
  pub content : String
  pub citations : List Citation

pub record Draft : Type 0 where
  pub content : String
  pub citations : List Citation

pub record CriticFeedback : Type 0 where
  pub revision_required : Bool
  pub comments : String

pub data DecisionType : Type 0 where
  approve reject edit : DecisionType

pub record ApprovalDecision : Type 0 where
  pub type : DecisionType
  pub feedback : Option String
  pub edited_content : Option String

pub record FinalOutput : Type 0 where
  pub content : String
  pub citations : List Citation

pub data TerminationReason : Type 0 where
  completed max_rounds_reached max_revisions_reached rejected aborted : TerminationReason

-- The named approval checkpoints, and any other name.
pub data Checkpoint : Type 0 where
  after_plan before_finalize : Checkpoint
  other_checkpoint : String → Checkpoint

pub record Blackboard : Type 0 where
  pub run_id : ℕ
  pub conversation_id : ℕ
  pub task : String
  pub plan : Option (List String)
  pub research_findings : Option (List ResearchFinding)
  pub draft : Option Draft
  pub critic_feedback : Option CriticFeedback
  pub round_count : ℕ
  pub revision_count : ℕ
  pub max_rounds : ℕ
  pub max_revisions : ℕ
  pub invalid_rounds_flagged : Bool
  pub invalid_revisions_flagged : Bool
  pub termination_reason : Option TerminationReason
  pub final_output : Option FinalOutput
  pub approval_policy : String
  pub awaiting_approval : Bool
  pub pending_checkpoint : Option Checkpoint
  pub last_decision : Option ApprovalDecision

-- `Value` keeps `bool` apart from `int`; a negative number is below every bound in use.
unfoldable pub resolve_bound : Option Value → ℕ → ℕ → ℕ → ℕ × Bool
resolve_bound none default low high = (default, false)
resolve_bound (some (number (int (pos n)))) default low high =
    if leb low n && leb n high then (n, false) else (default, true)
resolve_bound (some v) default low high = (default, true)

abbrev pub default_max_rounds : ℕ
default_max_rounds = 6

abbrev pub default_max_revisions : ℕ
default_max_revisions = 3

unfoldable pub resolve_max_rounds : Option Value → ℕ × Bool
unfolding resolve_bound
resolve_max_rounds v = resolve_bound v default_max_rounds 1 50

unfoldable pub resolve_max_revisions : Option Value → ℕ × Bool
unfolding resolve_bound
resolve_max_revisions v = resolve_bound v default_max_revisions 1 20
