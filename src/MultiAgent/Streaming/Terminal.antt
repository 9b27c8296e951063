-- ===== src/MultiAgent/Streaming/Terminal.antt =====
-- How the stream of multiagent/streaming.py ends, and the numbers of its events.
use agentforgev.Common.{
  ℕ, zero, suc, ◌+◌, ◌-◌, ◌≡◌, refl, String, Bool, true, false, Option, none, some, List, [], ◌∷◌,
  ◌++◌, arith, ◌==◌, number_keys, text_keys, length, length-append,
}
use agentforgev.Graph.{Outcome, ok, raised}
use agentforgev.MultiAgent.State.{
  Checkpoint, after_plan, before_finalize, TerminationReason, completed, Blackboard,
}
use agentforgev.MultiAgent.Graph.{
  Role, Machine, Route, route_approve, route_rounds, route_revs, route_revise, next_after_review,
  role_at, run_phase,
}
use agentforgev.MultiAgent.Approval.{Policy, at_checkpoint}
use agentforgev.MultiAgent.Streaming.{
  Payload, agent_started, plan_event, research, draft_event, critic_event, approval_required,
  completion, error, StreamEvent, Stream, Flow, going, returned, threw, out_of_fuel,
  typed_event_for, completion_data, concluded, then_do, emit, set_state, acted, act_role, id_at,
  if_paused, maybe_pause, report, run_reported, plan_reported, run_middle, complete, after_route,
  route_from, review_loop, stream_body,
}

-- The events behind which the stream ends: the two terminal ones, and the request for an approval.
abbrev pub is_last : Payload → Bool
is_last (agent_started r) = false
is_last (plan_event r s) = false
is_last (research r f) = false
is_last (draft_event r c s) = false
is_last (critic_event r b c) = false
is_last (approval_required r c) = true
is_last (completion i r c s) = true
is_last error = true

-- Events that are numbered from `n` on, none of them the last.
abbrev pub AreOpen : ℕ → List StreamEvent → Type 0
AreOpen n [] = Unit
AreOpen n (e ∷ es) = (e.sequence ≡ n) × (is_last e.payload ≡ false) × AreOpen (n + 1) es

-- Events that are numbered from 0 on, the last of them and only it being one that ends the stream.
abbrev pub AreClosed : List StreamEvent → Type 0
AreClosed es =
    (before : List StreamEvent) × (e : StreamEvent) × (es ≡ before ++ e ∷ [])
    × AreOpen 0 before
    × (e.sequence ≡ length before)
    × (is_last e.payload ≡ true)

append-AreOpen :
    (n : ℕ) (es : List StreamEvent) (p : Payload)
    → AreOpen n es
    → is_last p ≡ false
    → AreOpen n (es ++ record { payload = p; sequence = n + length es } ∷ [])
append-AreOpen n [] p h q = (omega arith, q, tt)
append-AreOpen n (e ∷ es) p h q =
    let same : (n + 1) + length es ≡ n + suc (length es) = omega arith in
    (h.0, h.1, rw (← same) (append-AreOpen (n + 1) es p h.2 q))

typed_event_for-is_last : (r : String) (b : Blackboard) → is_last (typed_event_for r b) ≡ false
unfolding typed_event_for
typed_event_for-is_last r b = ground arith

completion_data-is_last : (b : Blackboard) → is_last (completion_data b) ≡ true
unfolding completion_data
completion_data-is_last b = ground arith

module _ {W : Type 0} where
  -- Nothing of the stream has ended it yet.
  abbrev pub IsOpen : Stream W → Type 0
  IsOpen s = AreOpen 0 s.events × (s.sequence ≡ length s.events)

  abbrev pub Flows : Flow W → Type 0
  Flows (going s) = IsOpen s
  Flows (returned s) = AreClosed s.events
  Flows (threw s) = IsOpen s
  Flows out_of_fuel = Unit

  pub emit-IsOpen : (p : Payload) (s : Stream W) → IsOpen s → is_last p ≡ false → IsOpen (emit p s)
  emit-IsOpen p s h q =
      let same : s.sequence ≡ 0 + length s.events = omega (arith, h.1) in
      (
        rw same (append-AreOpen 0 s.events p h.0 q),
        omega (
          arith,
          h.1,
          length-append s.events (record { payload = p; sequence = s.sequence } ∷ []),
        ),
      )

  pub emit-AreClosed :
      (p : Payload) (s : Stream W) → IsOpen s → is_last p ≡ true → AreClosed (emit p s).events
  emit-AreClosed p s h q = (s.events, _, refl, h.0, h.1, q)

  then_do-Flows :
      (x : Flow W) (f : Stream W → Flow W)
      → Flows x
      → ((s : Stream W) → IsOpen s → Flows (f s))
      → Flows (then_do x f)
  then_do-Flows (going s) f h k = k s h
  then_do-Flows (returned s) f h k = h
  then_do-Flows (threw s) f h k = h
  then_do-Flows out_of_fuel f h k = tt

  acted-Flows : (o : Outcome (Machine W)) (s : Stream W) → IsOpen s → Flows (acted o s)
  acted-Flows (ok m) s h = h
  acted-Flows (raised m) s h = h

  act_role-Flows :
      (roles : List (Role W)) (i : ℕ) (s : Stream W) → IsOpen s → Flows (act_role roles i s)
  unfolding act_role
  act_role-Flows roles i s h =
      acted-Flows
        (run_phase (role_at roles i) (i + 1 == length roles) (i + 2 == length roles) s.machine) s h

  if_paused-Flows : (b : Bool) (c : Checkpoint) (s : Stream W) → IsOpen s → Flows (if_paused b c s)
  if_paused-Flows false c s h = h
  if_paused-Flows true c s h = emit-AreClosed _ s h refl

  maybe_pause-Flows :
      (o : Option Policy) (c : Checkpoint) (s : Stream W) → IsOpen s → Flows (maybe_pause o c s)
  unfolding maybe_pause
  maybe_pause-Flows none c s h = h
  maybe_pause-Flows (some policy) c s h =
      let (b, g) = at_checkpoint policy s.machine.state c s.gate in
      if_paused-Flows b.awaiting_approval c (record (set_state b s) { gate = g }) h

  run_reported-Flows :
      (roles : List (Role W)) (i : ℕ) (s : Stream W) → IsOpen s → Flows (run_reported roles i s)
  run_reported-Flows roles i s h =
      then_do-Flows (act_role roles i (emit (agent_started (id_at roles i)) s)) (report roles i)
        (act_role-Flows roles i _ (emit-IsOpen _ s h refl))
        (λ t k. emit-IsOpen _ t k (typed_event_for-is_last (id_at roles i) t.machine.state))

  run_middle-Flows :
      (roles : List (Role W)) (n i : ℕ) (s : Stream W) → IsOpen s → Flows (run_middle roles n i s)
  run_middle-Flows roles zero i s h = h
  run_middle-Flows roles (suc n) i s h =
      then_do-Flows (run_reported roles i s) (run_middle roles n (i + 1))
        (run_reported-Flows roles i s h) (run_middle-Flows roles n (i + 1))

  complete-Flows : (r : TerminationReason) (s : Stream W) → IsOpen s → Flows (complete r s)
  complete-Flows r s h =
      emit-AreClosed _ (set_state (concluded r s.machine.state) s) h (completion_data-is_last _)

  after_route-Flows :
      (route : Route) (policy : Option Policy) (again : Stream W → Flow W)
      → ((s : Stream W) → IsOpen s → Flows (again s))
      → (s : Stream W) → IsOpen s
      → Flows (after_route route policy again s)
  after_route-Flows route_approve policy again k s h =
      then_do-Flows (maybe_pause policy before_finalize s) (complete completed)
        (maybe_pause-Flows policy before_finalize s h) (complete-Flows completed)
  after_route-Flows route_rounds policy again k s h = complete-Flows _ s h
  after_route-Flows route_revs policy again k s h = complete-Flows _ s h
  after_route-Flows route_revise policy again k s h = k s h

  review_loop-Flows :
      (fuel : ℕ) (roles : List (Role W)) (policy : Option Policy) (s : Stream W)
      → IsOpen s
      → Flows (review_loop fuel roles policy s)
  review_loop-Flows zero roles policy s h = tt
  review_loop-Flows (suc fuel) roles policy s h =
      then_do-Flows _ (route_from policy (review_loop fuel roles policy))
        (then_do-Flows (run_reported roles (length roles - 2) s)
          (run_reported roles (length roles - 1)) (run_reported-Flows roles (length roles - 2) s h)
          (run_reported-Flows roles (length roles - 1)))
        (λ t k.
          after_route-Flows (next_after_review t.machine.state) policy
            (review_loop fuel roles policy) (review_loop-Flows fuel roles policy) t k)

  pub stream_body-Flows :
      (fuel : ℕ) (roles : List (Role W)) (policy : Option Policy) (s : Stream W)
      → IsOpen s
      → Flows (stream_body fuel roles policy s)
  stream_body-Flows fuel roles policy s h =
      then_do-Flows (act_role roles 0 s) _ (act_role-Flows roles 0 s h) (λ s1 h1.
        then_do-Flows (plan_reported roles s1) _ (emit-IsOpen _ s1 h1 refl) (λ s2 h2.
          then_do-Flows (maybe_pause policy after_plan s2) _
            (maybe_pause-Flows policy after_plan s2 h2)
            (λ s3 h3.
              then_do-Flows (run_middle roles (length roles - 3) 1 s3)
                (review_loop fuel roles policy) (run_middle-Flows roles (length roles - 3) 1 s3 h3)
                (review_loop-Flows fuel roles policy))))
