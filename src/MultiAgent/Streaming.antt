-- ===== src/MultiAgent/Streaming.antt =====
-- `Multi_Agent_Streaming_Service.run_stream` of multiagent/streaming.py, and the helpers of the orchestrator
-- that it steps a run with. A generator is the list of what it yields; the message of an exception is
-- not kept. The loop of the reviser and the reviewer is on fuel.
pub mod Terminal
pub mod Ends
pub mod Agrees
pub mod Refines
mod Tests
use agentforgev.Common.{
  ℕ, zero, suc, ◌+◌, ◌-◌, String, Bool, true, false, Option, none, some, List, [], ◌∷◌, ◌++◌, ◌==◌,
  number_keys, text_keys, length, if◌then◌else◌,
}
use agentforgev.Graph.{Outcome, ok, raised}
use agentforgev.MultiAgent.State.{
  Citation, ResearchFinding, Draft, CriticFeedback, Checkpoint, after_plan, before_finalize,
  TerminationReason, completed, max_rounds_reached, max_revisions_reached, FinalOutput, Blackboard,
}
use agentforgev.MultiAgent.Graph.{
  Role, Machine, Route, route_approve, route_rounds, route_revs, route_revise, next_after_review,
  final_output_from_draft, role_at, run_phase,
}
use agentforgev.MultiAgent.Approval.{Policy, Gate, at_checkpoint}
use agentforgev.MultiAgent.Orchestrator.{Settings, initialize_state}

-- `MultiAgentStreamEventType`, each with the data of its events.
pub data Payload : Type 0 where
  agent_started : String → Payload
  plan_event : String → List String → Payload
  research : String → List ResearchFinding → Payload
  draft_event : String → String → List Citation → Payload
  critic_event : String → Bool → String → Payload
  approval_required : ℕ → Checkpoint → Payload
  completion : ℕ → Option TerminationReason → String → List Citation → Payload
  error : Payload

pub record StreamEvent : Type 0 where
  pub payload : Payload
  pub sequence : ℕ

-- A stream in progress: the run, the gate, the events so far, and the next sequence number.
pub record Stream (W : Type 0) : Type 0 where
  pub machine : Machine W
  pub gate : Gate
  pub events : List StreamEvent
  pub sequence : ℕ

-- How a part of the generator ends: it goes on, it returns, an exception leaves it, or the fuel is out.
pub data Flow (W : Type 0) : Type 0 where
  going : Stream W → Flow W
  returned : Stream W → Flow W
  threw : Stream W → Flow W
  out_of_fuel : Flow W

abbrev pub steps_of : Option (List String) → List String
steps_of none = []
steps_of (some steps) = steps

abbrev pub findings_of : Option (List ResearchFinding) → List ResearchFinding
findings_of none = []
findings_of (some fs) = fs

abbrev pub draft_payload : String → Option Draft → Payload
draft_payload role_id none = draft_event role_id "" []
draft_payload role_id (some d) = draft_event role_id d.content d.citations

abbrev pub critic_payload : String → Option CriticFeedback → Payload
critic_payload role_id none = critic_event role_id false ""
critic_payload role_id (some f) = critic_event role_id f.revision_required f.comments

-- `_typed_event_for`
unfoldable pub typed_event_for : String → Blackboard → Payload
typed_event_for role_id s =
    if role_id == "planner"
    then plan_event role_id (steps_of s.plan)
    else if role_id == "researcher"
    then research role_id (findings_of s.research_findings)
    else if role_id == "writer"
    then draft_payload role_id s.draft
    else if role_id == "critic"
    then critic_payload role_id s.critic_feedback
    else agent_started role_id

abbrev pub completion_of : ℕ → Option TerminationReason → Option FinalOutput → Payload
completion_of run_id r none = completion run_id r "" []
completion_of run_id r (some f) = completion run_id r f.content f.citations

-- `_completion_data`
unfoldable pub completion_data : Blackboard → Payload
completion_data s = completion_of s.run_id s.termination_reason s.final_output

abbrev pub or_checkpoint : Option Checkpoint → Checkpoint → Checkpoint
or_checkpoint none c = c
or_checkpoint (some d) c = d

abbrev pub concluded : TerminationReason → Blackboard → Blackboard
concluded r b = record b {
  termination_reason = some r;
  final_output = some (final_output_from_draft b);
}

module _ {W : Type 0} where
  abbrev pub then_do : Flow W → (Stream W → Flow W) → Flow W
  then_do (going s) f = f s
  then_do (returned s) f = returned s
  then_do (threw s) f = threw s
  then_do out_of_fuel f = out_of_fuel

  -- `yield _emit(...)`
  abbrev pub emit : Payload → Stream W → Stream W
  emit p s = record s {
    events = s.events ++ record { payload = p; sequence = s.sequence } ∷ [];
    sequence = s.sequence + 1;
  }

  abbrev pub set_state : Blackboard → Stream W → Stream W
  set_state b s = record s { machine = record s.machine { state = b } }

  abbrev pub acted : Outcome (Machine W) → Stream W → Flow W
  acted (ok m) s = going (record s { machine = m })
  acted (raised m) s = threw (record s { machine = m })

  -- `act_role`, of the role at a place of the pipeline.
  unfoldable pub act_role : List (Role W) → ℕ → Stream W → Flow W
  act_role roles i s =
      acted (run_phase (role_at roles i) (i + 1 == length roles) (i + 2 == length roles) s.machine)
        s

  abbrev pub id_of : Option (Role W) → String
  id_of none = ""
  id_of (some r) = r.role_id

  abbrev pub id_at : List (Role W) → ℕ → String
  id_at roles i = id_of (role_at roles i)

  abbrev pub if_paused : Bool → Checkpoint → Stream W → Flow W
  if_paused false c s = going s
  if_paused true c s = returned (
      emit
        (approval_required s.machine.state.run_id
          (or_checkpoint s.machine.state.pending_checkpoint c))
        s)

  -- `_maybe_pause`, and the return behind it.
  unfoldable pub maybe_pause : Option Policy → Checkpoint → Stream W → Flow W
  maybe_pause none c s = going s
  maybe_pause (some policy) c s =
      let (b, g) = at_checkpoint policy s.machine.state c s.gate in
      if_paused b.awaiting_approval c (record (set_state b s) { gate = g })

  -- A role that starts, acts, and reports.
  abbrev pub report : List (Role W) → ℕ → Stream W → Flow W
  report roles i s = going (emit (typed_event_for (id_at roles i) s.machine.state) s)

  abbrev pub run_reported : List (Role W) → ℕ → Stream W → Flow W
  run_reported roles i s =
      then_do (act_role roles i (emit (agent_started (id_at roles i)) s)) (report roles i)

  abbrev pub plan_reported : List (Role W) → Stream W → Flow W
  plan_reported roles s =
      going (emit (plan_event (id_at roles 0) (steps_of s.machine.state.plan)) s)

  -- The middle phases, `n` of them from the place `i` on.
  abbrev pub run_middle : List (Role W) → ℕ → ℕ → Stream W → Flow W
  run_middle roles zero i s = going s
  run_middle roles (suc n) i s = then_do (run_reported roles i s) (run_middle roles n (i + 1))

  abbrev pub complete : TerminationReason → Stream W → Flow W
  complete r s =
      let b = concluded r s.machine.state in returned (emit (completion_data b) (set_state b s))

  abbrev pub after_route : Route → Option Policy → (Stream W → Flow W) → Stream W → Flow W
  after_route route_approve policy again s =
      then_do (maybe_pause policy before_finalize s) (complete completed)
  after_route route_rounds policy again s = complete max_rounds_reached s
  after_route route_revs policy again s = complete max_revisions_reached s
  after_route route_revise policy again s = again s

  abbrev pub route_from : Option Policy → (Stream W → Flow W) → Stream W → Flow W
  route_from policy again s = after_route (next_after_review s.machine.state) policy again s

  -- The loop of the reviser and the reviewer.
  abbrev pub review_loop : ℕ → List (Role W) → Option Policy → Stream W → Flow W
  review_loop zero roles policy s = out_of_fuel
  review_loop (suc fuel) roles policy s =
      then_do
        (then_do (run_reported roles (length roles - 2) s) (run_reported roles (length roles - 1)))
        (route_from policy (review_loop fuel roles policy))

  -- The body of the `try`.
  abbrev pub stream_body : ℕ → List (Role W) → Option Policy → Stream W → Flow W
  stream_body fuel roles policy s = then_do (act_role roles 0 s) (λ s1.
      then_do (plan_reported roles s1) (λ s2.
        then_do (maybe_pause policy after_plan s2) (λ s3.
          then_do (run_middle roles (length roles - 3) 1 s3) (review_loop fuel roles policy))))

  -- The `except`, and the end of the stream; `none` when the fuel is out.
  abbrev pub closed : Flow W → Option (Stream W)
  closed (going s) = some s
  closed (returned s) = some s
  closed (threw s) = some (emit error s)
  closed out_of_fuel = none

  -- `run_stream`; the fuel is the resolved bound on the rounds.
  unfoldable pub run_stream :
      List (Role W) → Option Policy → Settings → String → ℕ → ℕ → Gate → W → Option (Stream W)
  unfolding initialize_state
  run_stream roles policy c task run_id conversation_id gate w =
      let b = initialize_state c task run_id conversation_id in
      let start : Stream W = record {
        machine = record { state = b; trace = []; world = w };
        gate = gate;
        events = [];
        sequence = 0;
      } in
      closed (stream_body b.max_rounds roles policy (emit (agent_started (id_at roles 0)) start))
