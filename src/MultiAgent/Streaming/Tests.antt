-- ===== src/MultiAgent/Streaming/Tests.antt =====
-- Streams of multiagent/streaming.py over three roles that count how often they act; the critic approves
-- the second draft.
use agentforgev.Common.{
  ℕ, ◌+◌, ◌≡◌, refl, Option, none, some, List, [], ◌∷◌, arith, number_keys, ltb, length,
}
use agentforgev.Graph.{Graph, Run, walk}
use agentforgev.MultiAgent.State.{resolve_max_rounds, resolve_max_revisions}
use agentforgev.MultiAgent.Graph.{Role, Machine, Node, run_role_step, next_after_review}
use agentforgev.MultiAgent.Orchestrator.{Settings, run}
use agentforgev.MultiAgent.Bounds.{RolesLeave}
use agentforgev.MultiAgent.Approval.{Gate, human_in_the_loop_policy}
use agentforgev.MultiAgent.Streaming.{Stream, run_stream, act_role, maybe_pause}
use agentforgev.MultiAgent.Streaming.Terminal.{AreClosed}
use agentforgev.MultiAgent.Streaming.Ends.{stream_ends}
use agentforgev.MultiAgent.Streaming.Refines.{AgreesRun, stream_agrees}

abbrev planner : Role ℕ
planner = record {
  role_id = "planner";
  act = λ s w. (some (record s { plan = some ("step" ∷ []) }), w + 1);
}

abbrev writer : Role ℕ
writer = record {
  role_id = "writer";
  act = λ s w.
      (some (record s { draft = some (record { content = "draft"; citations = [] }) }), w + 1);
}

abbrev critic : Role ℕ
critic = record {
  role_id = "critic";
  act = λ s w. (
    some (record s {
      critic_feedback = some (record { revision_required = ltb w 4; comments = "" });
    }),
    w + 1,
  );
}

abbrev roles : List (Role ℕ)
roles = planner ∷ writer ∷ critic ∷ []

roles-RolesLeave : RolesLeave roles
roles-RolesLeave = (
  λ s w. record { rounds = refl; revisions = refl; max_rounds = refl; max_revisions = refl },
  (
    λ s w. record { rounds = refl; revisions = refl; max_rounds = refl; max_revisions = refl },
    (
      λ s w. record { rounds = refl; revisions = refl; max_rounds = refl; max_revisions = refl },
      tt,
    ),
  ),
)

abbrev settings : Settings
settings = record { max_rounds = none; max_revisions = none }

abbrev gate : Gate
gate = record { store = []; trace = []; events = [] }

abbrev invoke : Graph Node (Machine ℕ) → ℕ → Machine ℕ → Run (Machine ℕ)
invoke g k m = walk g k g.entry m

abbrev count_events : Option (Stream ℕ) → ℕ
count_events none = 0
count_events (some t) = length t.events

-- One draft, one revision: ten events and the completion.
streams : count_events (run_stream roles none settings "task" 1 2 gate 0) ≡ 11
unfolding run_stream act_role run_role_step maybe_pause resolve_max_rounds next_after_review
    resolve_max_revisions
streams = refl

stream_ends_example :
    (t : Stream ℕ) × (run_stream roles (some human_in_the_loop_policy) settings "task" 1 2 gate 0
      ≡ some t)
    × AreClosed t.events
stream_ends_example =
    stream_ends roles (omega arith) roles-RolesLeave (some human_in_the_loop_policy) settings "task"
      1 2 gate 0

stream_agrees_example :
    AgreesRun
      (run_stream roles none settings "task" 1 2 gate 0)
      (run invoke roles settings "task" 1 2 0)
stream_agrees_example =
    stream_agrees invoke (λ g k m. refl) roles (omega arith) roles-RolesLeave settings "task" 1 2
      gate 0
