-- ===== src/MultiAgent/Approval.antt =====
-- multiagent/approval.py: the policies, the checkpoint store, and the gate that pauses and resumes a
-- run. A stored or loaded blackboard is a value, as the deep copies of the code make it. A policy is a
-- seam; `events` are the events handed to the streaming service, which the code sends best-effort.
pub mod Resume
use agentforgev.Common.{
  ℕ, String, Bool, true, false, Option, none, some, List, [], ◌∷◌, ◌++◌, leb, ◌==◌, number_keys,
  text_keys, if◌then◌else◌,
}
use agentforgev.Common.Dict.{Dict, lookup, insert, erase}
use agentforgev.MultiAgent.State.{
  Draft, Citation, CriticFeedback, DecisionType, approve, reject, edit, ApprovalDecision,
  Checkpoint, after_plan, before_finalize, other_checkpoint, TerminationReason, rejected,
  Blackboard,
}

pub data ApprovalOutcome : Type 0 where
  continue_run pause_run : ApprovalOutcome

abbrev pub Policy : Type 0
Policy = Checkpoint → Blackboard → ApprovalOutcome

unfoldable pub auto_approve_policy : Policy
auto_approve_policy checkpoint s = continue_run

unfoldable pub human_in_the_loop_policy : Policy
human_in_the_loop_policy checkpoint s = pause_run

abbrev pub is_human : Option String → Bool
is_human none = false
is_human (some c) = c == "human"

unfoldable pub build_approval_policy : Option String → Policy
unfolding human_in_the_loop_policy auto_approve_policy
build_approval_policy configured checkpoint s =
    if is_human configured
    then human_in_the_loop_policy checkpoint s
    else auto_approve_policy checkpoint s

pub data ApprovalStep : Type 0 where
  approval_pause : ℕ → Checkpoint → ApprovalStep
  approval_rejected : ℕ → DecisionType → ApprovalStep
  approval_decision : ℕ → DecisionType → Checkpoint → ApprovalStep
  approval_resume : ℕ → Checkpoint → ApprovalStep

abbrev pub CheckpointStore : Type 0
CheckpointStore = Dict ℕ (Checkpoint × Blackboard)

-- The gate with what it writes to.
pub record Gate : Type 0 where
  pub store : CheckpointStore
  pub trace : List ApprovalStep
  pub events : List (ℕ × Checkpoint)

unfoldable pub save : ℕ → Checkpoint → Blackboard → CheckpointStore → CheckpointStore
save run_id c s store = insert run_id (c, s) store

unfoldable pub load : ℕ → CheckpointStore → Option (Checkpoint × Blackboard)
load run_id store = lookup run_id store

unfoldable pub clear : ℕ → CheckpointStore → CheckpointStore
clear run_id store = erase run_id store

abbrev pub paused : Checkpoint → Blackboard → Blackboard
paused c s = record s { awaiting_approval = true; pending_checkpoint = some c }

abbrev pub at_outcome : ApprovalOutcome → Checkpoint → Blackboard → Gate → Blackboard × Gate
at_outcome continue_run c s g = (s, g)
at_outcome pause_run c s g = (
  paused c s,
  record {
    store = save s.run_id c (paused c s) g.store;
    trace = g.trace ++ approval_pause s.run_id c ∷ [];
    events = g.events ++ (s.run_id, c) ∷ [];
  },
)

unfoldable pub at_checkpoint : Policy → Blackboard → Checkpoint → Gate → Blackboard × Gate
at_checkpoint policy s c g = at_outcome (policy c s) c s g

abbrev pub text_or_empty : Option String → String
text_or_empty none = ""
text_or_empty (some t) = t

abbrev pub citations_of : Option Draft → List Citation
citations_of none = []
citations_of (some d) = d.citations

abbrev pub edited : Checkpoint → String → Blackboard → Blackboard
edited after_plan t s = record s { plan = some (t ∷ []) }
edited before_finalize t s = record s {
  draft = some (record { content = t; citations = citations_of s.draft });
}
edited (other_checkpoint name) t s = s

-- What the decision does to the snapshot.
abbrev pub applied : DecisionType → ApprovalDecision → Checkpoint → Blackboard → Blackboard
applied approve d c s = s
applied reject d c s = record s {
  critic_feedback = some (record { revision_required = true; comments = text_or_empty d.feedback });
  termination_reason =
      if leb s.max_revisions s.revision_count then some rejected else s.termination_reason;
}
applied edit d c s = edited c (text_or_empty d.edited_content) s

abbrev pub resumed : ApprovalDecision → Checkpoint → Blackboard → Blackboard
resumed d c s = record (applied d.type d c s) {
  awaiting_approval = false;
  pending_checkpoint = none;
  last_decision = some d;
}

abbrev pub submit_loaded :
    Option (Checkpoint × Blackboard) → ℕ → ApprovalDecision → Gate → Option Blackboard × Gate
submit_loaded none run_id d g =
    (none, record g { trace = g.trace ++ approval_rejected run_id d.type ∷ [] })
submit_loaded (some (c, s)) run_id d g = (
  some (resumed d c s),
  record g {
    store = clear run_id g.store;
    trace = g.trace ++ approval_decision run_id d.type c ∷ approval_resume run_id c ∷ [];
  },
)

-- The resumed blackboard; `none` is `RunNotAwaitingApprovalError`.
unfoldable pub submit : ℕ → ApprovalDecision → Gate → Option Blackboard × Gate
unfolding load
submit run_id d g = submit_loaded (load run_id g.store) run_id d g

abbrev pub is_present : Option (Checkpoint × Blackboard) → Bool
is_present none = false
is_present (some _) = true

unfoldable pub is_awaiting_approval : ℕ → Gate → Bool
unfolding load
is_awaiting_approval run_id g = is_present (load run_id g.store)
