-- ===== src/Memory.antt =====
-- memory/short_term.py: the working context of a run, held to a budget by evicting the oldest entries.
-- `size_fn`, which measures an entry, is a parameter of the constructor.
pub mod Eviction
mod Tests
use agentforgev.Common.{
  ℕ, zero, suc, ◌+◌, ◌/◌, ◌^◌, String, Bool, true, false, Option, none, some, List, [], ◌∷◌, ◌++◌,
  ltb, leb, if◌then◌else◌,
}
use agentforgev.Common.Int.{ℤ, pos, negsuc}
use agentforgev.Common.Value.{Value, number, int, float}

pub record ShortTermMemory : Type 0 where
  pub initialized : Bool
  pub budget : ℕ
  pub user_request : String
  pub entries : List String

-- How a method ends.
pub data Ending : Type 0 where
  fine budget_required not_initialized budget_unsatisfiable : Ending

abbrev pub new_memory : ShortTermMemory
new_memory = record { initialized = false; budget = 0; user_request = ""; entries = [] }

-- `_validate_budget`; `int` cuts a float down to a whole number.
unfoldable pub validate_budget : Option Value → Option ℕ
validate_budget (some (number (int (pos (suc n))))) = some (suc n)
validate_budget (some (number (float (pos (suc u))))) = some (suc u / 2 ^ 1074)
validate_budget _ = none

abbrev pub seeded : Option ℕ → String → ShortTermMemory → Ending × ShortTermMemory
seeded none request m = (budget_required, m)
seeded (some b) request m =
    (fine, record { initialized = true; budget = b; user_request = request; entries = [] })

unfoldable pub init_short_term : String → Option Value → ShortTermMemory → Ending × ShortTermMemory
unfolding validate_budget
init_short_term request size_budget m = seeded (validate_budget size_budget) request m

module _ (size_fn : String → ℕ) where
  abbrev pub sum_sizes : List String → ℕ
  sum_sizes [] = 0
  sum_sizes (e ∷ es) = size_fn e + sum_sizes es

  -- `_total_size`
  abbrev pub total_size : String → List String → ℕ
  total_size request es = size_fn request + sum_sizes es

  -- The loop of `_enforce_budget`.
  abbrev pub evict : ℕ → String → List String → List String
  evict budget request [] = []
  evict budget request (e ∷ es) =
      let rest = evict budget request es in
      if ltb budget (total_size request (e ∷ es)) then rest else e ∷ es

  abbrev pub ending_of : ℕ → String → List String → Ending
  ending_of budget request [] = if ltb budget (size_fn request) then budget_unsatisfiable else fine
  ending_of budget request (e ∷ es) = fine

  -- `_enforce_budget`
  unfoldable pub enforce_budget : ShortTermMemory → Ending × ShortTermMemory
  enforce_budget m =
      let kept = evict m.budget m.user_request m.entries in
      (ending_of m.budget m.user_request kept, record m { entries = kept })

  unfoldable pub add_short_term : String → ShortTermMemory → Ending × ShortTermMemory
  unfolding enforce_budget
  add_short_term entry m =
      if m.initialized
      then enforce_budget (record m { entries = m.entries ++ entry ∷ [] })
      else (not_initialized, m)

-- `none` when it raises.
unfoldable pub short_term_entries : ShortTermMemory → Option (List String)
short_term_entries m = if m.initialized then some (m.user_request ∷ m.entries) else none
