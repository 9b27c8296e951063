-- ===== src/Graph/Rule.antt =====
-- The rule for runs of a graph: an invariant for each node, a measure that falls along every edge, a
-- postcondition where an edge leads to END, and one where a node raises.
use agentforgev.Common.{ℕ, zero, suc, ◌≤◌, ◌<◌, ◌≡◌, refl, Option, none, some, arith}
use agentforgev.Graph.{Outcome, Run, Graph, ok, raised, finished, failed, recursion_error, walk}

-- How a run ended. That it did end within the recursion limit is part of it.
abbrev pub Ends : {S : Type 0} → (S → Type 0) → (S → Type 0) → Run S → Type 0
Ends Q R (finished s) = Q s
Ends Q R (failed s) = R s
Ends Q R recursion_error = ⊥

-- A run in which nothing raises has finished.
pub finished_run :
    {S : Type 0} (Q : S → Type 0) (o : Run S) → Ends Q (λ s. ⊥) o → (s : S) × (o ≡ finished s) × Q s
finished_run Q (finished s) h = (s, refl, h)
finished_run Q (failed s) h = absurd h
finished_run Q recursion_error h = absurd h

module _ {N S : Type 0} (P : N → S → Type 0) (measure : N → S → ℕ) (Q R : S → Type 0) where
  -- What holds behind a node: at END the postcondition, else the invariant, closer to the end.
  abbrev pub Leads : ℕ → S → Option N → Type 0
  Leads d s none = Q s
  Leads d s (some n) = P n s × (measure n s < d)

  abbrev pub Steps : Graph N S → ℕ → N → Outcome S → Type 0
  Steps g d n (raised s) = R s
  Steps g d n (ok s) = Leads d s (g.next n s)

  module _ (g : Graph N S)
      (keep : (n : N) (s : S) → P n s → Steps g (measure n s) n (g.exec n s)) where
    Leads-Ends :
        (k d : ℕ) (s : S) (o : Option N)
        → ((n : N) → P n s → measure n s < k → Ends Q R (walk g k n s))
        → d ≤ k
        → Leads d s o
        → Ends Q R (elim o [ none ↦ finished s | some n ↦ walk g k n s ])
    Leads-Ends k d s none ih h q = q
    Leads-Ends k d s (some n) ih h (p, less) = ih n p (omega arith)

    Steps-Ends :
        (k d : ℕ) (n : N) (o : Outcome S)
        → ((m : N) (s : S) → P m s → measure m s < k → Ends Q R (walk g k m s))
        → d ≤ k
        → Steps g d n o
        → Ends Q R (elim o [
          | raised s ↦ failed s
          | ok s ↦ elim (g.next n s) [ none ↦ finished s | some m ↦ walk g k m s ]
        ])
    Steps-Ends k d n (raised s) ih h r = r
    Steps-Ends k d n (ok s) ih h r = Leads-Ends k d s (g.next n s) (λ m. ih m s) h r

    pub walk-Ends : (k : ℕ) (n : N) (s : S) → P n s → measure n s < k → Ends Q R (walk g k n s)
    unfolding walk
    walk-Ends zero n s p m = absurd (omega arith)
    walk-Ends (suc k) n s p m =
        Steps-Ends k (measure n s) n (g.exec n s) (walk-Ends k) (omega arith) (keep n s p)

-- One node of a walk.
module _ {N S : Type 0} (g : Graph N S) where
  pub walk_next :
      (k : ℕ) (n n' : N) (s s' : S)
      → g.exec n s ≡ ok s'
      → g.next n s' ≡ some n'
      → walk g (suc k) n s ≡ walk g k n' s'
  unfolding walk
  walk_next k n n' s s' e q = rw (e, walk) (rw (q, walk))

  pub walk_raise :
      (k : ℕ) (n : N) (s s' : S) → g.exec n s ≡ raised s' → walk g (suc k) n s ≡ failed s'
  unfolding walk
  walk_raise k n s s' e = rw (e, walk) refl

  pub walk_end :
      (k : ℕ) (n : N) (s s' : S)
      → g.exec n s ≡ ok s'
      → g.next n s' ≡ none
      → walk g (suc k) n s ≡ finished s'
  unfolding walk
  walk_end k n s s' e q = rw (e, walk) (rw (q, walk))
