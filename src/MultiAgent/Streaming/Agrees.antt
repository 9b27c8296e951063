-- ===== src/MultiAgent/Streaming/Agrees.antt =====
-- The stream of multiagent/streaming.py against the graph of multiagent/graph.py.
use agentforgev.Common.{
  ℕ, suc, ◌+◌, ◌-◌, ◌≤◌, ◌<◌, ◌≡◌, ◌≢◌, refl, true, false, none, some, List, [], ◌∷◌, ◌++◌, arith,
  ◌==◌, number_keys, length,
}
use agentforgev.Graph.{Outcome, ok, raised, Run, finished, failed, walk}
use agentforgev.Graph.Rule.{walk_next, walk_raise}
use agentforgev.MultiAgent.State.{FinalOutput, Blackboard}
use agentforgev.MultiAgent.Graph.{
  Role, Machine, Node, phase, next_after_review, route_to_node, role_at, run_phase, exec_node,
  next_node, graph_of,
}
use agentforgev.MultiAgent.Bounds.{RolesLeave}
use agentforgev.MultiAgent.Streaming.{
  Payload, StreamEvent, completion, agent_started, Stream, Flow, going, returned, threw,
  out_of_fuel, then_do, emit, acted, act_role, id_at, report, run_reported,
}
use agentforgev.MultiAgent.Streaming.Ends.{Counts, act_role-Counts}

-- One run, but for the flag that it waits for an approval.
pub record Same {W : Type 0} (a b : Machine W) : Type 0 where
  pub same_state : a.state ≡ record b.state { awaiting_approval = a.state.awaiting_approval }
  pub same_trace : a.trace ≡ b.trace
  pub same_world : a.world ≡ b.world
  pub has_ended : b.state.termination_reason ≢ none

module _ {W : Type 0} where
  -- The last event of a stream.
  abbrev pub EndsWith : Payload → Stream W → Type 0
  EndsWith p s =
      (before : List StreamEvent) × (n : ℕ) × (s.events
        ≡ before ++ record { payload = p; sequence = n } ∷ [])

  -- The last event reports the run, the reason, and the final output of a blackboard.
  abbrev pub Reports : Blackboard → Stream W → Type 0
  Reports b s =
      (f : FinalOutput) × (b.final_output ≡ some f)
      × EndsWith (completion b.run_id b.termination_reason f.content f.citations) s

  -- A stream ends with what the graph ends with and reports it, and fails where it fails.
  abbrev pub Agrees : Flow W → Run (Machine W) → Type 0
  Agrees (returned s) (finished m) = Same s.machine m × Reports m.state s
  Agrees (threw s) (failed m) = s.machine ≡ m
  Agrees _ _ = ⊥

  pub then_do_assoc :
      (x : Flow W) (g f : Stream W → Flow W)
      → then_do (then_do x g) f ≡ then_do x (λ t. then_do (g t) f)
  then_do_assoc (going s) g f = refl
  then_do_assoc (returned s) g f = refl
  then_do_assoc (threw s) g f = refl
  then_do_assoc out_of_fuel g f = refl

  module _ (roles : List (Role W)) (two : 2 ≤ length roles) (leave : RolesLeave roles) where
    acted-Agrees :
        (k i : ℕ) (s : Stream W) (f : Stream W → Flow W) (target : Machine W → Node) (a b : ℕ)
        (o : Outcome (Machine W))
        → exec_node roles (phase i) s.machine ≡ o
        → Counts a b (acted o s)
        → ((m : Machine W) → next_node roles (phase i) m ≡ some (target m))
        → ((m : Machine W)
            → m.state.max_rounds ≡ a
            → m.state.round_count ≡ b
            → Agrees (f (record s { machine = m })) (walk (graph_of roles) k (target m) m))
        → Agrees (then_do (acted o s) f) (walk (graph_of roles) (suc k) (phase i) s.machine)
    acted-Agrees k i s f target a b (ok m) e c q h =
        rw (walk_next (graph_of roles) k (phase i) (target m) s.machine m e (q m)) (h m c.0 c.1)
    acted-Agrees k i s f target a b (raised m) e c q h =
        rw (walk_raise (graph_of roles) k (phase i) s.machine m e) refl

    pub act_role-Agrees :
        (k i : ℕ) (s : Stream W) (f : Stream W → Flow W) (target : Machine W → Node) (a b : ℕ)
        → Counts a b (act_role roles i s)
        → ((m : Machine W) → next_node roles (phase i) m ≡ some (target m))
        → ((m : Machine W)
            → m.state.max_rounds ≡ a
            → m.state.round_count ≡ b
            → Agrees (f (record s { machine = m })) (walk (graph_of roles) k (target m) m))
        → Agrees
            (then_do (act_role roles i s) f)
            (walk (graph_of roles) (suc k) (phase i) s.machine)
    unfolding act_role exec_node
    act_role-Agrees k i s f target a b c q h =
        acted-Agrees k i s f target a b
          (run_phase (role_at roles i) (i + 1 == length roles) (i + 2 == length roles) s.machine)
          refl c q h

    -- A phase before the reviewer.
    pub run_reported-Agrees :
        (k i : ℕ) (s : Stream W) (f : Stream W → Flow W)
        → i + 1 < length roles
        → ((t : Stream W)
            → t.machine.state.max_rounds ≡ s.machine.state.max_rounds
            → t.machine.state.round_count ≡ s.machine.state.round_count
            → Agrees (f t) (walk (graph_of roles) k (phase (i + 1)) t.machine))
        → Agrees
            (then_do (run_reported roles i s) f)
            (walk (graph_of roles) (suc k) (phase i) s.machine)
    unfolding next_node
    run_reported-Agrees k i s f l h =
        let before : (i + 1 == length roles) ≡ false = ground arith in
        let started = emit (agent_started (id_at roles i)) s in
        rw (then_do_assoc (act_role roles i started) (report roles i) f) (
          act_role-Agrees k i started _ (λ m. phase (i + 1)) s.machine.state.max_rounds
            s.machine.state.round_count (rw before at (act_role-Counts roles two leave i started))
            (λ m. rw before refl) (λ m a b. h _ a b))

    -- The reviewer, and where it leads.
    pub run_reviewer-Agrees :
        (k : ℕ) (s : Stream W) (f : Stream W → Flow W)
        → ((t : Stream W)
            → t.machine.state.max_rounds ≡ s.machine.state.max_rounds
            → t.machine.state.round_count ≡ s.machine.state.round_count + 1
            → Agrees (f t) (
                walk
                  (graph_of roles)
                  k
                  (route_to_node (length roles) (next_after_review t.machine.state))
                  t.machine))
        → Agrees
            (then_do (run_reported roles (length roles - 1) s) f)
            (walk (graph_of roles) (suc k) (phase (length roles - 1)) s.machine)
    unfolding next_node
    run_reviewer-Agrees k s f h =
        let i = length roles - 1 in
        let last : (i + 1 == length roles) ≡ true = ground arith in
        let started = emit (agent_started (id_at roles i)) s in
        rw (then_do_assoc (act_role roles i started) (report roles i) f) (
          act_role-Agrees k i started _
            (λ m. route_to_node (length roles) (next_after_review m.state))
            s.machine.state.max_rounds (s.machine.state.round_count + 1)
            (rw last at (act_role-Counts roles two leave i started)) (λ m. rw last refl)
            (λ m a b. h _ a b))
