-- ===== src/Graph.antt =====
-- The graphs of agent/graph.py and multiagent/graph.py, as data: nodes over a state, and the edge
-- that leaves each of them. LangGraph, which runs them, is not part of the program.
-- A run that LangGraph makes is a parameter wherever one is needed; `walk` says what it documents:
-- the nodes are executed one after the other along the edges, a node's updates are merged into the
-- state, a node that raises ends the run, and the recursion limit is the number of nodes at most.
pub mod Rule
use agentforgev.Common.{ℕ, zero, suc, Option, none, some}

-- What a node does: it returns the state with its updates merged in, or it raises.
-- What it wrote to the outside before it raised stays written.
pub data Outcome (S : Type 0) : Type 0 where
  ok : S → Outcome S
  raised : S → Outcome S

-- What `graph.invoke` does.
pub data Run (S : Type 0) : Type 0 where
  finished : S → Run S
  failed : S → Run S
  recursion_error : Run S

-- The compiled graph; `next n s` is `none` for an edge to END.
pub record Graph (N S : Type 0) : Type 0 where
  pub entry : N
  pub exec : N → S → Outcome S
  pub next : N → S → Option N

module _ {N S : Type 0} (g : Graph N S) where
  unfoldable pub walk : ℕ → N → S → Run S
  walk zero n s = recursion_error
  walk (suc k) n s = elim (g.exec n s) [
    | raised s' ↦ failed s'
    | ok s' ↦ elim (g.next n s') [ none ↦ finished s' | some m ↦ walk k m s' ]
  ]
