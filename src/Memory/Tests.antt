-- ===== src/Memory/Tests.antt =====
-- Concrete memories for memory/short_term.py, where every entry has the size 2.
use agentforgev.Common.{ℕ, ◌≡◌, refl, String, true, some, [], ◌∷◌}
use agentforgev.Memory.{ShortTermMemory, add_short_term, short_term_entries}
use agentforgev.Memory.Eviction.{IsEvicted, IsFitting, add_short_term_evicts}

abbrev two : String → ℕ
two s = 2

abbrev memory : ShortTermMemory
memory = record { initialized = true; budget = 5; user_request = "q"; entries = "a" ∷ [] }

adds : (add_short_term two "b" memory).1.entries ≡ "b" ∷ []
unfolding add_short_term
adds = refl

add_short_term_evicts_example :
    let (ending, m') = add_short_term two "b" memory in
    (k : ℕ) × IsEvicted two 5 "q" k ("a" ∷ "b" ∷ []) m'.entries
    × IsFitting two 5 "q" m'.entries ending
    × (short_term_entries m' ≡ some ("q" ∷ m'.entries))
add_short_term_evicts_example = add_short_term_evicts two "b" memory refl
