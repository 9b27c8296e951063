-- ===== src/MultiAgent/Streaming/Refines.antt =====
-- A whole stream of multiagent/streaming.py without a gate against `Multi_Agent_Orchestrator.run`.
use agentforgev.Common.{
  ℕ, zero, suc, ◌+◌, ◌-◌, ◌*◌, ◌≤◌, ◌<◌, ◌≡◌, ◌≢◌, ◌∙◌, refl, String, false, Option, none, some,
  List, [], arith, ◌==◌, number_keys, length,
}
use agentforgev.Graph.{Graph, Run, finished, failed, recursion_error, walk}
use agentforgev.Graph.Rule.{walk_end}
use agentforgev.MultiAgent.State.{Blackboard}
use agentforgev.MultiAgent.Graph.{
  Role, Machine, Node, phase, finalize_done_node, finalize_rounds_node, finalize_revs_node, Route,
  route_approve, route_rounds, route_revs, route_revise, next_after_review, route_to_node,
  exec_node, next_node, graph_of, finalize_done, finalize_rounds, finalize_revs,
}
use agentforgev.MultiAgent.Bounds.{RolesLeave}
use agentforgev.MultiAgent.Approval.{Gate}
use agentforgev.MultiAgent.Orchestrator.{
  Settings, run, initialize_state, guard_state, guarded, recursion_limit_for,
}
use agentforgev.MultiAgent.Runs.{resolve_bounds_range}
use agentforgev.MultiAgent.Streaming.{
  completion_data, error, agent_started, Stream, Flow, going, returned, threw, out_of_fuel, then_do,
  emit, id_at, maybe_pause, run_reported, run_middle, after_route, route_from, review_loop,
  stream_body, closed, run_stream,
}
use agentforgev.MultiAgent.Streaming.Ends.{act_role-Counts, revise_below}
use agentforgev.MultiAgent.Streaming.Agrees.{
  EndsWith, Reports, Same, Agrees, act_role-Agrees, run_reported-Agrees, run_reviewer-Agrees,
  then_do_assoc,
}

module _ {W : Type 0} (roles : List (Role W)) (three : 3 ≤ length roles)
    (leave : RolesLeave roles) where
  abbrev g : Graph Node (Machine W)
  g = graph_of roles

  two : 2 ≤ length roles
  two = omega arith

  run_middle-Agrees :
      (j n i : ℕ) (s : Stream W) (f : Stream W → Flow W)
      → i + n < length roles
      → ((t : Stream W)
          → t.machine.state.max_rounds ≡ s.machine.state.max_rounds
          → t.machine.state.round_count ≡ s.machine.state.round_count
          → Agrees (f t) (walk g j (phase (i + n)) t.machine))
      → Agrees (then_do (run_middle roles n i s) f) (walk g (n + j) (phase i) s.machine)
  run_middle-Agrees j zero i s f l h =
      let e : i + 0 ≡ i = omega arith in
      let e' : 0 + j ≡ j = omega arith in rw e' (rw e at (h s refl refl))
  run_middle-Agrees j (suc n) i s f l h =
      let e : suc n + j ≡ suc (n + j) = omega arith in
      let e' : i + suc n ≡ (i + 1) + n = omega arith in
      rw e (
        rw (then_do_assoc (run_reported roles i s) (run_middle roles n (i + 1)) f) (
          run_reported-Agrees roles two leave (n + j) i s _ (omega arith) (λ t a b.
            run_middle-Agrees j n (i + 1) t f (omega arith)
              (λ u c d. rw e' at (h u (c ∙ a) (d ∙ b))))))

  after_route-Agrees :
      (j : ℕ) (r : Route) (again : Stream W → Flow W) (t : Stream W)
      → (r ≡ route_revise → Agrees (again t) (walk g (suc j) (phase (length roles - 2)) t.machine))
      → Agrees
          (after_route r none again t)
          (walk g (suc j) (route_to_node (length roles) r) t.machine)
  unfolding maybe_pause completion_data exec_node next_node finalize_done finalize_rounds
      finalize_revs
  after_route-Agrees j route_approve again t h =
      rw (walk_end g j finalize_done_node t.machine _ refl refl) (
        record { same_state = refl; same_trace = refl; same_world = refl; has_ended = λ q. cc },
        (_, refl, (t.events, t.sequence, refl)),
      )
  after_route-Agrees j route_rounds again t h =
      rw (walk_end g j finalize_rounds_node t.machine _ refl refl) (
        record { same_state = refl; same_trace = refl; same_world = refl; has_ended = λ q. cc },
        (_, refl, (t.events, t.sequence, refl)),
      )
  after_route-Agrees j route_revs again t h =
      rw (walk_end g j finalize_revs_node t.machine _ refl refl) (
        record { same_state = refl; same_trace = refl; same_world = refl; has_ended = λ q. cc },
        (_, refl, (t.events, t.sequence, refl)),
      )
  after_route-Agrees j route_revise again t h = h refl

  review_loop-Agrees :
      (j fuel : ℕ) (s : Stream W)
      → s.machine.state.round_count < s.machine.state.max_rounds
      → s.machine.state.max_rounds ≤ s.machine.state.round_count + fuel
      → Agrees
          (review_loop fuel roles none s)
          (walk g (suc (j + 2 * fuel)) (phase (length roles - 2)) s.machine)
  review_loop-Agrees j zero s h k = absurd (omega arith)
  review_loop-Agrees j (suc fuel) s h k =
      let steps : suc (j + 2 * suc fuel) ≡ suc (suc (suc (j + 2 * fuel))) = omega arith in
      let reviewer : length roles - 2 + 1 ≡ length roles - 1 = omega arith in
      rw steps (
        rw
          (then_do_assoc (run_reported roles (length roles - 2) s)
            (run_reported roles (length roles - 1)) (route_from none (review_loop fuel roles none)))
          (run_reported-Agrees roles two leave (suc (suc (j + 2 * fuel))) (length roles - 2) s _
            (omega arith)
            (λ t a b. rw reviewer (
              run_reviewer-Agrees roles two leave (suc (j + 2 * fuel)) t
                (route_from none (review_loop fuel roles none))
                (λ u c d.
                  after_route-Agrees (j + 2 * fuel) (next_after_review u.machine.state)
                    (review_loop fuel roles none) u
                    (λ e.
                      review_loop-Agrees j fuel u (revise_below roles two leave u.machine.state e)
                        (omega (arith, a, b, c, d))))))))

  stream_body-Agrees :
      (j : ℕ) (s : Stream W)
      → s.machine.state.round_count ≡ 0
      → 0 < s.machine.state.max_rounds
      → Agrees (stream_body s.machine.state.max_rounds roles none s) (
          walk g
            (suc ((length roles - 3) + suc (j + 2 * s.machine.state.max_rounds)))
            (phase 0)
            s.machine)
  unfolding maybe_pause next_node
  stream_body-Agrees j s no_round some_round =
      let planner : (0 + 1 == length roles) ≡ false = ground arith in
      let reviser : 1 + (length roles - 3) ≡ length roles - 2 = omega arith in
      act_role-Agrees roles two leave _ 0 s _ (λ m. phase 1) s.machine.state.max_rounds
        s.machine.state.round_count (rw planner at (act_role-Counts roles two leave 0 s))
        (λ m. rw planner refl)
        (λ m a b.
          run_middle-Agrees (suc (j + 2 * s.machine.state.max_rounds)) (length roles - 3) 1 _
            (review_loop s.machine.state.max_rounds roles none) (omega arith)
            (λ t c d. rw reviser (
              review_loop-Agrees j s.machine.state.max_rounds t (omega (arith, a, b, c, d))
                (omega (arith, a, b, c, d)))))

-- What the stream ended with is what the run ended with, and its last event reports it; a run that fails is a
-- stream whose last event is an error.
abbrev pub AgreesRun : {W : Type 0} → Option (Stream W) → Run (Machine W) → Type 0
AgreesRun (some t) (finished m) = Same t.machine m × Reports m.state t
AgreesRun (some t) (failed m) = (t.machine ≡ m) × EndsWith error t
AgreesRun _ _ = ⊥

guard_state_ended : (b : Blackboard) → b.termination_reason ≢ none → guard_state b ≡ b
unfolding guard_state
guard_state_ended b h = ground arith

guarded_ended :
    {W : Type 0} (x : Flow W) (r : Run (Machine W)) → Agrees x r → AgreesRun (closed x) (guarded r)
guarded_ended (going s) r h = absurd h
guarded_ended (returned s) (finished m) h = rw (guard_state_ended m.state h.0.has_ended) h
guarded_ended (returned s) (failed m) h = absurd h
guarded_ended (returned s) recursion_error h = absurd h
guarded_ended (threw s) (finished m) h = absurd h
guarded_ended (threw s) (failed m) h = (h, (s.events, s.sequence, refl))
guarded_ended (threw s) recursion_error h = absurd h
guarded_ended out_of_fuel r h = absurd h

-- Without a gate, and with three roles or more, a streamed run is the run of the graph: it ends with the
-- same blackboard but for the flag that it waits for an approval, the same steps recorded, and the
-- roles in the same state, and its last event is a completion with the reason, the content and the citations that
-- the run of the graph ends with. It fails exactly where that run fails, and then its last event is an error.
pub stream_agrees :
    {W : Type 0} (invoke : Graph Node (Machine W) → ℕ → Machine W → Run (Machine W))
    (documented : (g : Graph Node (Machine W)) (k : ℕ) (m : Machine W)
      → invoke g k m ≡ walk g k g.entry m)
    (roles : List (Role W))
    → 3 ≤ length roles
    → RolesLeave roles
    → (c : Settings) (task : String) (run_id conversation_id : ℕ) (gate : Gate) (w : W)
    → AgreesRun
        (run_stream roles none c task run_id conversation_id gate w)
        (run invoke roles c task run_id conversation_id w)
unfolding run_stream run initialize_state
stream_agrees invoke documented roles three leave c task run_id conversation_id gate w =
    let start : Stream _ = record {
      machine = record {
        state = initialize_state c task run_id conversation_id;
        trace = [];
        world = w;
      };
      gate = gate;
      events = [];
      sequence = 0;
    } in
    let first = emit (agent_started (id_at roles 0)) start in
    let n = length roles in
    let rounds = first.machine.state.max_rounds in
    let limit : recursion_limit_for rounds n ≡ suc ((n - 3) + suc (26 + 2 * rounds)) =
      omega arith in
    guarded_ended (stream_body rounds roles none first) _ (
      rw documented (
        rw limit (
          stream_body-Agrees roles three leave 26 first refl
            (resolve_bounds_range c.max_rounds).0)))
