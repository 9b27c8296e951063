-- ===== src/MultiAgent/Streaming/Ends.antt =====
-- The loop of multiagent/streaming.py comes to an end within the bound on the rounds.
use agentforgev.Common.{
  ℕ, zero, suc, ◌+◌, ◌-◌, ◌≤◌, ◌<◌, ◌≡◌, refl, ap, String, Bool, true, false, Option, none, some,
  List, [], arith, ◌==◌, number_keys, text_keys, length,
}
use agentforgev.MultiAgent.State.{Checkpoint, after_plan, before_finalize, completed, Blackboard}
use agentforgev.MultiAgent.Graph.{
  Role, Route, route_approve, route_rounds, route_revs, route_revise, next_after_review, role_at,
  run_phase, run_role_step, counted, add_if,
}
use agentforgev.MultiAgent.Bounds.{RolesLeave, ActLeaves, role_at-ActLeaves}
use agentforgev.MultiAgent.Approval.{
  Policy, Gate, at_checkpoint, at_outcome, ApprovalOutcome, continue_run, pause_run,
}
use agentforgev.MultiAgent.Orchestrator.{Settings, initialize_state}
use agentforgev.MultiAgent.Runs.{resolve_bounds_range}
use agentforgev.MultiAgent.Streaming.{
  agent_started, error, Stream, Flow, going, returned, threw, out_of_fuel, then_do, emit, set_state,
  acted, act_role, id_at, if_paused, maybe_pause, report, run_reported, run_middle, complete,
  after_route, route_from, review_loop, stream_body, closed, run_stream,
}
use agentforgev.MultiAgent.Streaming.Terminal.{
  AreClosed, Flows, stream_body-Flows, emit-AreClosed, emit-IsOpen,
}

module _ {W : Type 0} where
  -- The bound on the rounds and the rounds so far, where the stream goes on.
  abbrev pub Counts : ℕ → ℕ → Flow W → Type 0
  Counts a b (going s) = (s.machine.state.max_rounds ≡ a) × (s.machine.state.round_count ≡ b)
  Counts a b (returned s) = Unit
  Counts a b (threw s) = Unit
  Counts a b out_of_fuel = ⊥

  abbrev IsSettled : Flow W → Type 0
  IsSettled (going s) = ⊥
  IsSettled (returned s) = Unit
  IsSettled (threw s) = Unit
  IsSettled out_of_fuel = ⊥

  then_do-IsSettled :
      (a b : ℕ) (x : Flow W) (f : Stream W → Flow W)
      → Counts a b x
      → ((s : Stream W)
          → s.machine.state.max_rounds ≡ a
          → s.machine.state.round_count ≡ b
          → IsSettled (f s))
      → IsSettled (then_do x f)
  then_do-IsSettled a b (going s) f h k = k s h.0 h.1
  then_do-IsSettled a b (returned s) f h k = tt
  then_do-IsSettled a b (threw s) f h k = tt
  then_do-IsSettled a b out_of_fuel f h k = h

  then_do-Counts :
      (a b c : ℕ) (x : Flow W) (f : Stream W → Flow W)
      → Counts a b x
      → ((s : Stream W)
          → s.machine.state.max_rounds ≡ a
          → s.machine.state.round_count ≡ b
          → Counts a c (f s))
      → Counts a c (then_do x f)
  then_do-Counts a b c (going s) f h k = k s h.0 h.1
  then_do-Counts a b c (returned s) f h k = tt
  then_do-Counts a b c (threw s) f h k = tt
  then_do-Counts a b c out_of_fuel f h k = h

  module _ (roles : List (Role W)) (two : 2 ≤ length roles) (leave : RolesLeave roles) where
    counted-Counts :
        (role : Role W) (reviewer revision : Bool) (o : Option Blackboard) (w : W) (s : Stream W)
        → ActLeaves s.machine.state o
        → Counts s.machine.state.max_rounds
            (add_if reviewer s.machine.state.round_count)
            (acted (counted role reviewer revision o w s.machine) s)
    counted-Counts role reviewer revision none w s h = tt
    counted-Counts role reviewer revision (some b) w s h =
        (h.max_rounds, ap (add_if reviewer) h.rounds)

    phase-Counts :
        (i : ℕ) (o : Option (Role W)) (reviewer reviser : Bool) (s : Stream W)
        → role_at roles i ≡ o
        → Counts s.machine.state.max_rounds
            (add_if reviewer s.machine.state.round_count)
            (acted (run_phase o reviewer reviser s.machine) s)
    unfolding run_role_step
    phase-Counts i none reviewer reviser s e = tt
    phase-Counts i (some role) reviewer reviser s e =
        counted-Counts role reviewer _ (role.act s.machine.state s.machine.world).0 _ s
          (role_at-ActLeaves roles i role leave e s.machine.state s.machine.world)

    pub act_role-Counts :
        (i : ℕ) (s : Stream W)
        → Counts s.machine.state.max_rounds
            (add_if (i + 1 == length roles) s.machine.state.round_count)
            (act_role roles i s)
    unfolding act_role
    act_role-Counts i s = phase-Counts i (role_at roles i) _ _ s refl

    pub run_reported-Counts :
        (i : ℕ) (s : Stream W)
        → Counts s.machine.state.max_rounds
            (add_if (i + 1 == length roles) s.machine.state.round_count)
            (run_reported roles i s)
    run_reported-Counts i s =
        let started = emit (agent_started (id_at roles i)) s in
        then_do-Counts _ _ _ (act_role roles i started) (report roles i) (act_role-Counts i started)
          (λ t a b. (a, b))

    if_paused-Counts :
        (b : Bool) (c : Checkpoint) (s : Stream W)
        → Counts s.machine.state.max_rounds s.machine.state.round_count (if_paused b c s)
    if_paused-Counts false c s = (refl, refl)
    if_paused-Counts true c s = tt

    outcome-Counts :
        (o : ApprovalOutcome) (c : Checkpoint) (s : Stream W)
        → let (b, g) = at_outcome o c s.machine.state s.gate in
          Counts s.machine.state.max_rounds s.machine.state.round_count
            (if_paused b.awaiting_approval c (record (set_state b s) { gate = g }))
    outcome-Counts continue_run c s = if_paused-Counts _ c _
    outcome-Counts pause_run c s = tt

    maybe_pause-Counts :
        (o : Option Policy) (c : Checkpoint) (s : Stream W)
        → Counts s.machine.state.max_rounds s.machine.state.round_count (maybe_pause o c s)
    unfolding maybe_pause at_checkpoint
    maybe_pause-Counts none c s = (refl, refl)
    maybe_pause-Counts (some policy) c s = outcome-Counts (policy c s.machine.state) c s

    -- The middle phases hold no reviewer.
    run_middle-Counts :
        (n i : ℕ) (s : Stream W)
        → i + n < length roles
        → Counts s.machine.state.max_rounds s.machine.state.round_count (run_middle roles n i s)
    run_middle-Counts zero i s h = (refl, refl)
    run_middle-Counts (suc n) i s h =
        let middle : (i + 1 == length roles) ≡ false = ground arith in
        then_do-Counts _ s.machine.state.round_count _ (run_reported roles i s)
          (run_middle roles n (i + 1)) (rw middle at (run_reported-Counts i s))
          (λ t a b. rw (← a) (rw (← b) (run_middle-Counts n (i + 1) t (omega arith))))

    after_route-IsSettled :
        (route : Route) (policy : Option Policy) (again : Stream W → Flow W) (s : Stream W)
        → (route ≡ route_revise → IsSettled (again s))
        → IsSettled (after_route route policy again s)
    after_route-IsSettled route_approve policy again s h =
        then_do-IsSettled _ _ (maybe_pause policy before_finalize s) (complete completed)
          (maybe_pause-Counts policy before_finalize s) (λ t a b. tt)
    after_route-IsSettled route_rounds policy again s h = tt
    after_route-IsSettled route_revs policy again s h = tt
    after_route-IsSettled route_revise policy again s h = h refl

    pub revise_below :
        (b : Blackboard) → next_after_review b ≡ route_revise → b.round_count < b.max_rounds
    unfolding next_after_review
    revise_below b e = ground arith

    review_round-Counts :
        (s : Stream W)
        → Counts s.machine.state.max_rounds (s.machine.state.round_count + 1) (
            then_do
              (run_reported roles (length roles - 2) s)
              (run_reported roles (length roles - 1)))
    review_round-Counts s =
        let reviser : (length roles - 2 + 1 == length roles) ≡ false = ground arith in
        let reviewer : (length roles - 1 + 1 == length roles) ≡ true = ground arith in
        then_do-Counts _ s.machine.state.round_count _ (run_reported roles (length roles - 2) s)
          (run_reported roles (length roles - 1))
          (rw reviser at (run_reported-Counts (length roles - 2) s))
          (λ t a b. rw (← a) (rw (← b) (rw reviewer at (run_reported-Counts (length roles - 1) t))))

    review_loop-IsSettled :
        (fuel : ℕ) (policy : Option Policy) (s : Stream W)
        → s.machine.state.round_count < s.machine.state.max_rounds
        → s.machine.state.max_rounds ≤ s.machine.state.round_count + fuel
        → IsSettled (review_loop fuel roles policy s)
    review_loop-IsSettled zero policy s h k = omega arith
    review_loop-IsSettled (suc fuel) policy s h k =
        then_do-IsSettled _ _ _ (route_from policy (review_loop fuel roles policy))
          (review_round-Counts s)
          (λ t a b.
            after_route-IsSettled (next_after_review t.machine.state) policy
              (review_loop fuel roles policy) t
              (λ e.
                review_loop-IsSettled fuel policy t (revise_below t.machine.state e)
                  (omega (arith, a, b))))

    stream_body-IsSettled :
        (policy : Option Policy) (s : Stream W)
        → s.machine.state.round_count ≡ 0
        → 0 < s.machine.state.max_rounds
        → IsSettled (stream_body s.machine.state.max_rounds roles policy s)
    stream_body-IsSettled policy s zero_rounds some_rounds =
        let planner : (0 + 1 == length roles) ≡ false = ground arith in
        let fuel = s.machine.state.max_rounds in
        then_do-IsSettled fuel s.machine.state.round_count (act_role roles 0 s) _
          (rw planner at (act_role-Counts 0 s))
          (λ s1 a1 b1.
            then_do-IsSettled fuel s.machine.state.round_count (maybe_pause policy after_plan _) _
              (rw (← a1) (rw (← b1) (maybe_pause-Counts policy after_plan _)))
              (λ s3 a3 b3.
                then_do-IsSettled fuel s.machine.state.round_count
                  (run_middle roles (length roles - 3) 1 s3) (review_loop fuel roles policy)
                  (rw (← a3) (rw (← b3) (run_middle-Counts (length roles - 3) 1 s3 (omega arith))))
                  (λ s4 a4 b4.
                    review_loop-IsSettled fuel policy s4 (omega (arith, a4, b4))
                      (omega (arith, a4, b4)))))

  closed-AreClosed :
      (x : Flow W)
      → IsSettled x
      → Flows x
      → (t : Stream W) × (closed x ≡ some t) × AreClosed t.events
  closed-AreClosed (going s) h k = absurd h
  closed-AreClosed (returned s) h k = (s, refl, k)
  closed-AreClosed (threw s) h k = (emit error s, refl, emit-AreClosed error s k refl)
  closed-AreClosed out_of_fuel h k = absurd h

-- A stream always ends, if no role touches a counter or a bound, whatever the roles raise and the policy
-- decides: its events are numbered from 0 without a gap, and exactly one of them, the last one, is a
-- completion, an error, or the request for an approval.
pub stream_ends :
    {W : Type 0} (roles : List (Role W))
    → 2 ≤ length roles
    → RolesLeave roles
    → (policy : Option Policy) (c : Settings) (task : String) (run_id conversation_id : ℕ)
      (gate : Gate) (w : W)
    → (t : Stream W) × (run_stream roles policy c task run_id conversation_id gate w ≡ some t)
      × AreClosed t.events
unfolding run_stream initialize_state
stream_ends roles two leave policy c task run_id conversation_id gate w =
    let start : Stream _ = record {
      machine = record {
        state = initialize_state c task run_id conversation_id;
        trace = [];
        world = w;
      };
      gate = gate;
      events = [];
      sequence = 0;
    } in
    let first = emit (agent_started (id_at roles 0)) start in
    closed-AreClosed (stream_body first.machine.state.max_rounds roles policy first)
      (stream_body-IsSettled roles two leave policy first refl
        (resolve_bounds_range c.max_rounds).0)
      (stream_body-Flows first.machine.state.max_rounds roles policy first
        (emit-IsOpen (agent_started (id_at roles 0)) start (tt, refl) refl))
