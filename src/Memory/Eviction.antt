-- ===== src/Memory/Eviction.antt =====
-- What memory/short_term.py evicts, and what it keeps.
use agentforgev.Common.{
  ℕ, zero, suc, ◌≤◌, ◌<◌, ◌≡◌, ◌⊎◌, inl, inr, refl, String, true, some, List, [], ◌∷◌, ◌++◌, arith,
  ltb, drop, Bool-cases,
}
use agentforgev.Memory.{
  ShortTermMemory, Ending, fine, budget_unsatisfiable, total_size, evict, ending_of, add_short_term,
  short_term_entries,
}

module _ (size_fn : String → ℕ) (budget : ℕ) (request : String) where
  -- The `k` oldest entries are evicted, and no fewer would have been enough.
  abbrev pub IsEvicted : ℕ → List String → List String → Type 0
  IsEvicted k es kept =
      (kept ≡ drop k es) × ((j : ℕ) → j < k → budget < total_size size_fn request (drop j es))

  -- What is kept fits, or only the request is left and does not fit.
  abbrev pub IsFitting : List String → Ending → Type 0
  IsFitting kept e =
      ((total_size size_fn request kept ≤ budget) × (e ≡ fine))
      ⊎ ((kept ≡ []) × (budget < size_fn request) × (e ≡ budget_unsatisfiable))

  later_too :
      (e : String) (es : List String) (k : ℕ)
      → budget < total_size size_fn request (e ∷ es)
      → ((j : ℕ) → j < k → budget < total_size size_fn request (drop j es))
      → (j : ℕ) → j < suc k
      → budget < total_size size_fn request (drop j (e ∷ es))
  later_too e es k big h zero l = big
  later_too e es k big h (suc j) l = h j (omega arith)

  pub evict-IsEvicted :
      (es : List String)
      → (k : ℕ) × IsEvicted k es (evict size_fn budget request es)
        × IsFitting
            (evict size_fn budget request es)
            (ending_of size_fn budget request (evict size_fn budget request es))
  evict-IsEvicted [] = (0, (refl, (λ j l. absurd (omega arith))), ground arith)
  evict-IsEvicted (e ∷ es) = elim (Bool-cases (ltb budget (total_size size_fn request (e ∷ es)))) [
    | inl big ↦
        (let (k, (q, h), fits) = evict-IsEvicted es in
          rw big (suc k, (q, later_too e es k (ground arith) h), fits))
    | inr small ↦ rw small (0, (refl, (λ j l. absurd (omega arith))), inl (ground arith, refl))
  ]

module _ (size_fn : String → ℕ) (entry : String) (m : ShortTermMemory)
    (ready : m.initialized ≡ true) where
  -- Adding an entry evicts the oldest entries, and no more of them than needed, until what is kept fits
  -- into the budget with the request; if the request alone does not fit, everything else is evicted
  -- and the error is raised. The request is always kept.
  pub add_short_term_evicts :
      let (ending, m') = add_short_term size_fn entry m in
      (k : ℕ) × IsEvicted size_fn m.budget m.user_request k (m.entries ++ entry ∷ []) m'.entries
      × IsFitting size_fn m.budget m.user_request m'.entries ending
      × (short_term_entries m' ≡ some (m.user_request ∷ m'.entries))
  unfolding add_short_term short_term_entries
  add_short_term_evicts =
      let (k, evicted, fits) =
        evict-IsEvicted size_fn m.budget m.user_request (m.entries ++ entry ∷ []) in
      simp ready (k, evicted, fits, refl)
