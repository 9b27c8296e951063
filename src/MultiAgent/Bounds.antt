-- ===== src/MultiAgent/Bounds.antt =====
-- The invariant of the collaboration graph of multiagent/graph.py, node by node.
use agentforgev.Common.{
  ℕ, zero, suc, ◌+◌, ◌-◌, ◌*◌, ◌≤◌, ◌<◌, ◌≡◌, ◌⊎◌, refl, Bool, true, false, Option, none, some,
  List, [], ◌∷◌, length, arith, inl, inr, Option-cases, ◌==◌, number_keys, ◌&&◌,
}
use agentforgev.Graph.{Outcome, ok, raised, walk}
use agentforgev.Graph.Rule.{Ends, Steps, walk-Ends}
use agentforgev.MultiAgent.State.{
  Blackboard, Draft, FinalOutput, completed, max_rounds_reached, max_revisions_reached,
}
use agentforgev.MultiAgent.Graph.{
  Role, Machine, Node, phase, finalize_done_node, finalize_rounds_node, finalize_revs_node,
  requires_revision, next_after_review, run_role_step, run_phase, role_at, exec_node, next_node,
  finalize_done, finalize_rounds, finalize_revs, final_output_from_draft, graph_of, counted,
  is_revision_entry,
}

-- A role does its own work and leaves the bounds, the counters and the ending to the graph.
pub record Leaves (s t : Blackboard) : Type 0 where
  pub rounds : t.round_count ≡ s.round_count
  pub revisions : t.revision_count ≡ s.revision_count
  pub max_rounds : t.max_rounds ≡ s.max_rounds
  pub max_revisions : t.max_revisions ≡ s.max_revisions

abbrev pub ActLeaves : Blackboard → Option Blackboard → Type 0
ActLeaves s none = Unit
ActLeaves s (some t) = Leaves s t

abbrev pub RolesLeave : {W : Type 0} → List (Role W) → Type 0
RolesLeave [] = Unit
RolesLeave {W} (r ∷ rs) = ((s : Blackboard) (w : W) → ActLeaves s (r.act s w).0) × RolesLeave rs

-- The output is the last draft with its citations, and is empty where there is no draft.
abbrev pub IsEmitted : Option Draft → Option FinalOutput → Type 0
IsEmitted none o = o ≡ some (record { content = ""; citations = [] })
IsEmitted (some d) o = o ≡ some (record { content = d.content; citations = d.citations })

final_output_from_draft-IsEmitted :
    (s : Blackboard) → IsEmitted s.draft (some (final_output_from_draft s))
unfolding final_output_from_draft
final_output_from_draft-IsEmitted s = elim (Option-cases s.draft) [
  | inl e ↦ rw e refl
  | inr (d, e) ↦ rw e refl
]

-- What a finished run guarantees, under the bounds `rounds` and `revisions`.
pub record IsDone (rounds revisions : ℕ) (s : Blackboard) : Type 0 where
  pub rounds_bounded : s.round_count ≤ rounds
  pub revisions_bounded : s.revision_count ≤ revisions
  pub emitted : IsEmitted s.draft s.final_output
  pub ended :
      ((s.termination_reason ≡ some completed) × (requires_revision s.critic_feedback ≡ false))
      ⊎ ((s.termination_reason ≡ some max_rounds_reached)
          × (requires_revision s.critic_feedback ≡ true)
          × (s.round_count ≡ rounds))
      ⊎ ((s.termination_reason ≡ some max_revisions_reached)
          × (requires_revision s.critic_feedback ≡ true)
          × (s.round_count < rounds)
          × (s.revision_count ≡ revisions))

abbrev pub InPipeline : ℕ → Node → Type 0
InPipeline phases (phase i) = i < phases
InPipeline phases _ = Unit

module _ (phases rounds revisions : ℕ) where
  pub record IsRunning (s : Blackboard) : Type 0 where
    pub max_rounds : s.max_rounds ≡ rounds
    pub max_revisions : s.max_revisions ≡ revisions
    pub revisions_bounded : s.revision_count ≤ revisions

  abbrev At : Node → Blackboard → Type 0
  At (phase i) s =
      IsRunning s
      × (i < phases)
      × (s.round_count < rounds)
      × (i + 1 < phases → s.revision_count < revisions)
  At finalize_done_node s =
      IsRunning s × (s.round_count ≤ rounds) × (requires_revision s.critic_feedback ≡ false)
  At finalize_rounds_node s =
      IsRunning s × (s.round_count ≡ rounds) × (requires_revision s.critic_feedback ≡ true)
  At finalize_revs_node s =
      IsRunning s
      × (s.round_count < rounds)
      × (requires_revision s.critic_feedback ≡ true)
      × (s.revision_count ≡ revisions)

  abbrev left : Node → Blackboard → ℕ
  left (phase i) s = (phases - suc i) + 2 * (rounds - s.round_count) - 1
  left finalize_done_node s = 0
  left finalize_rounds_node s = 0
  left finalize_revs_node s = 0

pub role_at-ActLeaves :
    {W : Type 0} (roles : List (Role W)) (i : ℕ) (r : Role W)
    → RolesLeave roles
    → role_at roles i ≡ some r
    → (s : Blackboard) (w : W) → ActLeaves s (r.act s w).0
role_at-ActLeaves [] i r h e s w = cc
role_at-ActLeaves (x ∷ xs) zero r h e s w = let q : x ≡ r = cc in rw (← q) (h.0 s w)
role_at-ActLeaves (x ∷ xs) (suc i) r h e s w = role_at-ActLeaves xs i r h.1 e s w

module _ {W : Type 0} (roles : List (Role W)) (rounds revisions : ℕ) (two : 2 ≤ length roles)
    (some_revision : 1 ≤ revisions) (some_round : 1 ≤ rounds) (leave : RolesLeave roles)
    (R : Machine W → Type 0) where
  abbrev Good : Node → Machine W → Type 0
  Good n m = At (length roles) rounds revisions n m.state

  abbrev measure : Node → Machine W → ℕ
  measure n m = left (length roles) rounds revisions n m.state

  abbrev Goes : Node → Machine W → Outcome (Machine W) → Type 0
  Goes n m =
      Steps Good measure (λ x. IsDone rounds revisions x.state) R (graph_of roles) (measure n m) n

  counted-Goes :
      (i : ℕ) (role : Role W) (m : Machine W) (o : Option Blackboard) (w : W)
      → Good (phase i) m
      → ActLeaves m.state o
      → (is_reviewer is_reviser entry : Bool) → is_reviewer ≡ (i + 1 == length roles)
      → is_reviser ≡ (i + 2 == length roles)
      → ((m' : Machine W) → counted role is_reviewer (is_reviser && entry) o w m ≡ raised m' → R m')
      → Goes (phase i) m (counted role is_reviewer (is_reviser && entry) o w m)
  unfolding next_node next_after_review
  counted-Goes i role m none w h l a b e ea eb fails = fails _ refl
  counted-Goes i role m (some s) w h l a b e ea eb fails = ground arith

  done-Goes :
      (m : Machine W)
      → Good finalize_done_node m
      → Goes finalize_done_node m (ok (record m { state = finalize_done m.state }))
  unfolding next_node finalize_done
  done-Goes m h = ground (arith, final_output_from_draft-IsEmitted m.state)

  rounds-Goes :
      (m : Machine W)
      → Good finalize_rounds_node m
      → Goes finalize_rounds_node m (ok (record m { state = finalize_rounds m.state }))
  unfolding next_node finalize_rounds
  rounds-Goes m h = ground (arith, final_output_from_draft-IsEmitted m.state)

  revs-Goes :
      (m : Machine W)
      → Good finalize_revs_node m
      → Goes finalize_revs_node m (ok (record m { state = finalize_revs m.state }))
  unfolding next_node finalize_revs
  revs-Goes m h = ground (arith, final_output_from_draft-IsEmitted m.state)

  phase-Goes :
      (i : ℕ) (o : Option (Role W)) (m : Machine W)
      → role_at roles i ≡ o
      → Good (phase i) m
      → ((m' : Machine W)
          → run_phase o (i + 1 == length roles) (i + 2 == length roles) m ≡ raised m'
          → R m')
      → Goes (phase i) m (run_phase o (i + 1 == length roles) (i + 2 == length roles) m)
  unfolding run_role_step
  phase-Goes i none m e h fails = fails _ refl
  phase-Goes i (some role) m e h fails =
      let (s, w) = role.act m.state m.world in
      counted-Goes i role m s w h (role_at-ActLeaves roles i role leave e m.state m.world)
        (i + 1 == length roles) (i + 2 == length roles) (is_revision_entry m.state) refl refl fails

  module _
      (fails : (n : Node) (m m' : Machine W)
        → InPipeline (length roles) n
        → exec_node roles n m ≡ raised m'
        → R m') where
    node-Goes : (n : Node) (m : Machine W) → Good n m → Goes n m (exec_node roles n m)
    unfolding exec_node
    node-Goes (phase i) m h =
        phase-Goes i (role_at roles i) m refl h (λ m'. fails (phase i) m m' h.1)
    node-Goes finalize_done_node m h = done-Goes m h
    node-Goes finalize_rounds_node m h = rounds-Goes m h
    node-Goes finalize_revs_node m h = revs-Goes m h

    pub walk-IsDone :
        (k : ℕ) (m : Machine W)
        → IsRunning (length roles) rounds revisions m.state
        → m.state.round_count ≡ 0
        → m.state.revision_count ≡ 0
        → 2 * rounds + length roles < k
        → Ends (λ x. IsDone rounds revisions x.state) R (walk (graph_of roles) k (phase 0) m)
    walk-IsDone k m h none_yet no_revision fuel =
        walk-Ends Good measure (λ x. IsDone rounds revisions x.state) R (graph_of roles) node-Goes k
          (phase 0) m (h, omega arith, omega arith, λ _. omega arith) (omega arith)
