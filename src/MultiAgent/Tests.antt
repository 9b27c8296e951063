-- ===== src/MultiAgent/Tests.antt =====
-- Concrete runs of the collaboration and of the gate (multiagent/): a writer that counts its drafts, and
-- a critic that always asks for a revision.
use agentforgev.Common.{
  ℕ, ◌+◌, ◌≡◌, refl, true, false, none, some, List, [], ◌∷◌, arith, number_keys,
}
use agentforgev.Graph.{Graph, Run, walk, finished}
use agentforgev.Graph.Rule.{Ends}
use agentforgev.MultiAgent.State.{
  Blackboard, ApprovalDecision, approve, reject, after_plan, before_finalize,
}
use agentforgev.MultiAgent.Graph.{Role, Machine, Node}
use agentforgev.MultiAgent.Orchestrator.{Settings, run}
use agentforgev.MultiAgent.Bounds.{RolesLeave}
use agentforgev.MultiAgent.Runs.{Done, NeverRaises, collaboration_bounded, collaboration_total}
use agentforgev.MultiAgent.Approval.{
  Gate, at_checkpoint, submit, load, paused, resumed, is_awaiting_approval,
  human_in_the_loop_policy, pause_run,
}
use agentforgev.MultiAgent.Approval.Resume.{submit-at_checkpoint}

abbrev writer : Role ℕ
writer = record {
  role_id = "writer";
  act = λ s w.
      (some (record s { draft = some (record { content = "draft"; citations = [] }) }), w + 1);
}

abbrev critic : Role ℕ
critic = record {
  role_id = "critic";
  act = λ s w. (
    some (record s {
      critic_feedback = some (record { revision_required = true; comments = "no" });
    }),
    w,
  );
}

abbrev roles : List (Role ℕ)
roles = writer ∷ critic ∷ []

roles-RolesLeave : RolesLeave roles
roles-RolesLeave = (
  λ s w. record { rounds = refl; revisions = refl; max_rounds = refl; max_revisions = refl },
  (λ s w. record { rounds = refl; revisions = refl; max_rounds = refl; max_revisions = refl }, tt),
)

roles-NeverRaises : NeverRaises roles
roles-NeverRaises = (λ s w e. cc, (λ s w e. cc, tt))

abbrev invoke : Graph Node (Machine ℕ) → ℕ → Machine ℕ → Run (Machine ℕ)
invoke g k m = walk g k g.entry m

abbrev settings : Settings
settings = record { max_rounds = none; max_revisions = none }

collaboration_bounded_example :
    Ends (Done settings) (λ m. Unit) (run invoke roles settings "task" 1 2 0)
collaboration_bounded_example =
    collaboration_bounded invoke (λ g k m. refl) roles (omega arith) roles-RolesLeave settings
      "task" 1 2 0

collaboration_total_example :
    (m : Machine ℕ) × (run invoke roles settings "task" 1 2 0 ≡ finished m) × Done settings m
collaboration_total_example =
    collaboration_total invoke (λ g k m. refl) roles (omega arith) roles-RolesLeave
      roles-NeverRaises settings "task" 1 2 0

abbrev board : Blackboard
board = record {
  run_id = 7;
  conversation_id = 8;
  task = "task";
  plan = some ("step" ∷ []);
  research_findings = none;
  draft = none;
  critic_feedback = none;
  round_count = 0;
  revision_count = 0;
  max_rounds = 6;
  max_revisions = 3;
  invalid_rounds_flagged = false;
  invalid_revisions_flagged = false;
  termination_reason = none;
  final_output = none;
  approval_policy = "auto";
  awaiting_approval = false;
  pending_checkpoint = none;
  last_decision = none;
}

abbrev gate : Gate
gate = record { store = []; trace = []; events = [] }

abbrev approval : ApprovalDecision
approval = record { type = approve; feedback = none; edited_content = none }

abbrev rejection : ApprovalDecision
rejection = record { type = reject; feedback = some "weak"; edited_content = none }

human-pauses : human_in_the_loop_policy after_plan board ≡ pause_run
unfolding human_in_the_loop_policy
human-pauses = refl

submit-at_checkpoint_example :
    let g' = (at_checkpoint human_in_the_loop_policy board after_plan gate).1 in
    let g'' = (submit 7 approval g').1 in
    ((submit 7 approval g').0 ≡ some (resumed approval after_plan (paused after_plan board)))
    × (is_awaiting_approval 7 g' ≡ true)
    × (is_awaiting_approval 7 g'' ≡ false)
    × ((submit 7 rejection g'').0 ≡ none)
    × ((submit 7 rejection g'').1.store ≡ g''.store)
submit-at_checkpoint_example =
    submit-at_checkpoint human_in_the_loop_policy board after_plan approval rejection gate tt
      human-pauses

abbrev held : Gate
held = record { store = (7, (before_finalize, board)) ∷ []; trace = []; events = [] }

held-loaded : load 7 held.store ≡ some (before_finalize, board)
unfolding load
held-loaded = refl
