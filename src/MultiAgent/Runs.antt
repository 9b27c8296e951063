-- ===== src/MultiAgent/Runs.antt =====
-- Runs of `Multi_Agent_Orchestrator.run` (multiagent/orchestrator.py) over the roles of a pipeline.
use agentforgev.Common.{
  ℕ, zero, suc, ◌+◌, ◌≤◌, ◌<◌, ◌≡◌, ◌≢◌, refl, ap, String, Bool, Option, none, some, List, [], ◌∷◌,
  length, arith, ◌==◌, number_keys,
}
use agentforgev.Common.Value.{Value}
use agentforgev.Graph.{Graph, Run, raised, finished, failed, recursion_error, walk}
use agentforgev.Graph.Rule.{Ends, finished_run}
use agentforgev.MultiAgent.State.{Blackboard, resolve_max_rounds, resolve_max_revisions}
use agentforgev.MultiAgent.Graph.{
  Role, Machine, Node, phase, finalize_done_node, finalize_rounds_node, finalize_revs_node,
  exec_node, run_role_step, counted, role_at, run_phase,
}
use agentforgev.MultiAgent.Orchestrator.{Settings, run, guard_state, guarded}
use agentforgev.MultiAgent.Bounds.{RolesLeave, InPipeline, IsDone, walk-IsDone}

-- Whatever is configured, the rounds of a run are bounded by 1 to 50 and its revisions by 1 to 20.
pub resolve_bounds_range :
    (v : Option Value)
    → (1 ≤ (resolve_max_rounds v).0)
      × ((resolve_max_rounds v).0 ≤ 50)
      × (1 ≤ (resolve_max_revisions v).0)
      × ((resolve_max_revisions v).0 ≤ 20)
unfolding resolve_max_rounds resolve_max_revisions
resolve_bounds_range v = ground arith

abbrev pub max_rounds_of : Settings → ℕ
max_rounds_of c = (resolve_max_rounds c.max_rounds).0

abbrev pub max_revisions_of : Settings → ℕ
max_revisions_of c = (resolve_max_revisions c.max_revisions).0

guard_state-IsDone : (a b : ℕ) (s : Blackboard) → IsDone a b s → IsDone a b (guard_state s)
unfolding guard_state
guard_state-IsDone a b s h = ground arith

module _ {W : Type 0} where
  abbrev pub Done : Settings → Machine W → Type 0
  Done c m = IsDone (max_rounds_of c) (max_revisions_of c) m.state

  guarded-Ends :
      (c : Settings) (R : Machine W → Type 0) (o : Run (Machine W))
      → Ends (Done c) R o
      → Ends (Done c) R (guarded o)
  guarded-Ends c R (finished m) h = guard_state-IsDone _ _ m.state h
  guarded-Ends c R (failed m) h = h
  guarded-Ends c R recursion_error h = h

  module _ (invoke : Graph Node (Machine W) → ℕ → Machine W → Run (Machine W))
      (documented : (g : Graph Node (Machine W)) (k : ℕ) (m : Machine W)
        → invoke g k m ≡ walk g k g.entry m)
      (roles : List (Role W)) (two : 2 ≤ length roles) (leave : RolesLeave roles) where
    run-Ends :
        (R : Machine W → Type 0)
        → ((n : Node) (m m' : Machine W)
            → InPipeline (length roles) n
            → exec_node roles n m ≡ raised m'
            → R m')
        → (c : Settings) (task : String) (run_id conversation_id : ℕ) (w : W)
        → Ends (Done c) R (run invoke roles c task run_id conversation_id w)
    unfolding run
    run-Ends R fails c task run_id conversation_id w =
        let a = resolve_bounds_range c.max_rounds in
        let b = resolve_bounds_range c.max_revisions in
        guarded-Ends c R _ (
          rw documented (
            walk-IsDone roles (max_rounds_of c) (max_revisions_of c) two (b.2) (a.0) leave R fails _
              _
              (record { max_rounds = refl; max_revisions = refl; revisions_bounded = omega arith })
              refl refl (omega arith)))

    -- If no role touches a counter or a bound, a run never meets the recursion limit, and one that
    -- finishes has kept both bounds, emits its last draft with the draft's citations, and ends for exactly one
    -- of three reasons: completed, when the reviewer asked for no revision; the round bound, when it asked
    -- for one and the rounds are used up; or the revision bound, when it asked for one, rounds were left,
    -- and the revisions are used up.
    pub collaboration_bounded :
        (c : Settings) (task : String) (run_id conversation_id : ℕ) (w : W)
        → Ends (Done c) (λ m. Unit) (run invoke roles c task run_id conversation_id w)
    collaboration_bounded = run-Ends (λ m. Unit) (λ n m m' i e. tt)

-- No role raises.
abbrev pub NeverRaises : {W : Type 0} → List (Role W) → Type 0
NeverRaises [] = Unit
NeverRaises {W} (r ∷ rs) = ((s : Blackboard) (w : W) → (r.act s w).0 ≢ none) × NeverRaises rs

role_at-total :
    {W : Type 0} (roles : List (Role W)) (i : ℕ)
    → NeverRaises roles
    → i < length roles
    → (r : Role W) × (role_at roles i ≡ some r) × ((s : Blackboard) (w : W) → (r.act s w).0 ≢ none)
role_at-total [] i n h = elim h [ ]
role_at-total (r ∷ rs) zero n h = (r, refl, n.0)
role_at-total (r ∷ rs) (suc i) n h = role_at-total rs i n.1 (omega arith)

module _ {W : Type 0} where
  counted-ne-raised :
      (role : Role W) (a b : Bool) (o : Option Blackboard) (w : W) (m m' : Machine W)
      → o ≢ none
      → counted role a b o w m ≢ raised m'
  counted-ne-raised role a b none w m m' h e = h refl
  counted-ne-raised role a b (some s) w m m' h e = cc

  exec_node-ne-raised :
      (roles : List (Role W))
      → NeverRaises roles
      → (n : Node) (m m' : Machine W) → InPipeline (length roles) n
      → exec_node roles n m ≡ raised m'
      → ⊥
  unfolding exec_node run_role_step
  exec_node-ne-raised roles never (phase i) m m' h e =
      let (role, found, acts) = role_at-total roles i never h in
      counted-ne-raised role _ _ (role.act m.state m.world).0 (role.act m.state m.world).1 m m'
        (acts m.state m.world)
        (rw (ap (λ o. run_phase o (i + 1 == length roles) (i + 2 == length roles) m) found) at e)
  exec_node-ne-raised roles never finalize_done_node m m' h e = cc
  exec_node-ne-raised roles never finalize_rounds_node m m' h e = cc
  exec_node-ne-raised roles never finalize_revs_node m m' h e = cc

-- If moreover no role raises, every run finishes, however many revisions the reviewer asks for: the
-- recursion limit given to the graph is large enough for any bounds and any pipeline.
pub collaboration_total :
    {W : Type 0} (invoke : Graph Node (Machine W) → ℕ → Machine W → Run (Machine W))
    (documented : (g : Graph Node (Machine W)) (k : ℕ) (m : Machine W)
      → invoke g k m ≡ walk g k g.entry m)
    (roles : List (Role W))
    → 2 ≤ length roles
    → RolesLeave roles
    → NeverRaises roles
    → (c : Settings) (task : String) (run_id conversation_id : ℕ) (w : W)
    → (m : Machine W) × (run invoke roles c task run_id conversation_id w ≡ finished m) × Done c m
collaboration_total invoke documented roles two leave never c task run_id conversation_id w =
    finished_run _ _ (
      run-Ends invoke documented roles two leave (λ m. ⊥) (exec_node-ne-raised roles never) c task
        run_id conversation_id w)
