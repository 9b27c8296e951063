-- ===== src/MultiAgent/Approval/Resume.antt =====
-- Pausing and resuming through the gate of multiagent/approval.py.
use agentforgev.Common.{
  ℕ, ◌≤◌, ◌≡◌, ◌≢◌, ◌<◌, ◌⊎◌, refl, true, false, none, some, List, ◌∷◌, [], arith, number_keys,
}
use agentforgev.Common.Dict.{
  insert, lookup-insert_self, lookup-insert_ne, lookup-erase_self, lookup-erase_ne, IsDistinct,
  insert-IsDistinct, erase-IsDistinct,
}
use agentforgev.MultiAgent.State.{
  ApprovalDecision, approve, reject, Checkpoint, Blackboard, rejected,
}
use agentforgev.MultiAgent.Graph.{route_revise, next_after_review}
use agentforgev.MultiAgent.Approval.{
  Policy, Gate, ApprovalOutcome, pause_run, continue_run, at_outcome, at_checkpoint, submit,
  resumed, paused, save, load, clear, is_awaiting_approval,
}

-- Every run has at most one checkpoint.
abbrev pub IsValid : Gate → Type 0
IsValid g = IsDistinct g.store

at_outcome-IsValid :
    (o : ApprovalOutcome) (c : Checkpoint) (s : Blackboard) (g : Gate)
    → IsValid g
    → IsValid (at_outcome o c s g).1
unfolding save
at_outcome-IsValid continue_run c s g h = h
at_outcome-IsValid pause_run c s g h = insert-IsDistinct s.run_id (c, paused c s) g.store h

submit-IsValid :
    (run_id : ℕ) (d : ApprovalDecision) (g : Gate) → IsValid g → IsValid (submit run_id d g).1
unfolding submit clear
submit-IsValid run_id d g h = ground (arith, erase-IsDistinct run_id g.store h)

-- A run that pauses and is then decided resumes from the very blackboard that paused, with the decision
-- applied to it, whatever other runs wait at the gate; the checkpoint is gone, so a second decision on
-- the run is refused and changes nothing in the store.
pub submit-at_checkpoint :
    (policy : Policy) (s : Blackboard) (c : Checkpoint) (d e : ApprovalDecision) (g : Gate)
    → IsValid g
    → policy c s ≡ pause_run
    → let g' = (at_checkpoint policy s c g).1 in
      let g'' = (submit s.run_id d g').1 in
      ((submit s.run_id d g').0 ≡ some (resumed d c (paused c s)))
      × (is_awaiting_approval s.run_id g' ≡ true)
      × (is_awaiting_approval s.run_id g'' ≡ false)
      × ((submit s.run_id e g'').0 ≡ none)
      × ((submit s.run_id e g'').1.store ≡ g''.store)
unfolding at_checkpoint submit is_awaiting_approval save clear
submit-at_checkpoint policy s c d e g h p = rw p (
    rw (lookup-insert_self s.run_id (c, paused c s) g.store) (
      rw
        (lookup-erase_self s.run_id (insert s.run_id (c, paused c s) g.store)
          (insert-IsDistinct s.run_id (c, paused c s) g.store h))
        (refl, refl, refl, refl, refl)))

-- An approved run goes on exactly where it stood: nothing on its blackboard has changed but the last
-- decision.
pub approve-at_checkpoint :
    (policy : Policy) (s : Blackboard) (c : Checkpoint) (d : ApprovalDecision) (g : Gate)
    → policy c s ≡ pause_run
    → d.type ≡ approve
    → s.awaiting_approval ≡ false
    → s.pending_checkpoint ≡ none
    → (submit s.run_id d (at_checkpoint policy s c g).1).0
      ≡ some (record s { last_decision = some d })
unfolding at_checkpoint submit save
approve-at_checkpoint policy s c d g p a awake idle =
    rw p (rw (lookup-insert_self s.run_id (c, paused c s) g.store) (ground arith))

-- A rejected run is either terminated as rejected, exactly when its revisions are used up, or goes back
-- for a revision if rounds are left.
pub submit_reject :
    (s : Blackboard) (c : Checkpoint) (d : ApprovalDecision) (g : Gate)
    → load s.run_id g.store ≡ some (c, s)
    → d.type ≡ reject
    → s.termination_reason ≡ none
    → (s' : Blackboard) × ((submit s.run_id d g).0 ≡ some s')
      × (((s.max_revisions ≤ s.revision_count) × (s'.termination_reason ≡ some rejected))
          ⊎ ((s.revision_count < s.max_revisions)
              × (s'.termination_reason ≡ none)
              × (s.round_count < s.max_rounds → next_after_review s' ≡ route_revise)))
unfolding submit next_after_review
submit_reject s c d g loaded r running = (resumed d c s, ground arith, ground arith)

-- Whatever the gate does for one run, what it holds for every other run stays as it was.
pub gate_others :
    (policy : Policy) (s : Blackboard) (c : Checkpoint) (d : ApprovalDecision) (g : Gate)
    (other : ℕ)
    → s.run_id ≢ other
    → (load other (at_checkpoint policy s c g).1.store ≡ load other g.store)
      × (load other (submit s.run_id d g).1.store ≡ load other g.store)
unfolding at_checkpoint submit load save clear
gate_others policy s c d g other ne = ground (
  arith,
  lookup-insert_ne s.run_id other (c, paused c s) g.store ne,
  lookup-erase_ne s.run_id other g.store ne,
)

-- Calls of the gate, one after the other.
pub data Call : Type 0 where
  pause_call : Policy → Blackboard → Checkpoint → Call
  submit_call : ℕ → ApprovalDecision → Call

abbrev pub call_gate : Call → Gate → Gate
call_gate (pause_call policy s c) g = (at_checkpoint policy s c g).1
call_gate (submit_call run_id d) g = (submit run_id d g).1

abbrev pub call_all : List Call → Gate → Gate
call_all [] g = g
call_all (x ∷ xs) g = call_all xs (call_gate x g)

call_gate-IsValid : (x : Call) (g : Gate) → IsValid g → IsValid (call_gate x g)
unfolding at_checkpoint
call_gate-IsValid (pause_call policy s c) g h = at_outcome-IsValid (policy c s) c s g h
call_gate-IsValid (submit_call run_id d) g h = submit-IsValid run_id d g h

-- After any calls of the gate no run has more than one checkpoint.
pub call_all-IsValid : (xs : List Call) (g : Gate) → IsValid g → IsValid (call_all xs g)
call_all-IsValid [] g h = h
call_all-IsValid (x ∷ xs) g h = call_all-IsValid xs (call_gate x g) (call_gate-IsValid x g h)
