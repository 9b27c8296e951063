-- ===== src/Guardrails/Cases.antt =====
-- When the pipeline of observability/guardrails/base.py blocks, and what has run by then.
use agentforgev.Common.{
  ◌≡◌, ◌⊎◌, ◌∙◌, inl, inr, refl, sym, ap, String, Option, none, some, List, [], ◌∷◌, ◌++◌,
  append_nil, append_assoc,
}
use agentforgev.Guardrails.{
  Decision, allow, flag, block, GuardrailResult, Guardrail, flagged, blocked, after_check,
  evaluate_from, evaluate, Applied, guardrail_blocked, reported, done_with, apply_result,
  apply_input_guardrail,
}

module _ {W : Type 0} (content : String) where
  -- The guardrails run one after the other from `w` to `w'` without a block, and raise `flags`.
  pub data Passes : List (Guardrail W) → W → List String → W → Type 0 where
    passes_nil : (w : W) → Passes [] w [] w
    passes_allow :
        (g : Guardrail W) (gs : List (Guardrail W)) (w w' : W) (flags : List String)
        → (g content w).0.decision ≡ allow
        → Passes gs (g content w).1 flags w'
        → Passes (g ∷ gs) w flags w'
    passes_flag :
        (g : Guardrail W) (gs : List (Guardrail W)) (w w' : W) (flags : List String)
        → (g content w).0.decision ≡ flag
        → Passes gs (g content w).1 flags w'
        → Passes (g ∷ gs) w ((g content w).0.flags ++ flags) w'

  -- The first guardrail that blocks stands behind some that pass; nothing behind it has run.
  abbrev pub BlocksFirst : List (Guardrail W) → W → GuardrailResult × W → Type 0
  BlocksFirst gs w r =
      (before : List (Guardrail W)) × (g : Guardrail W) × (after : List (Guardrail W))
      × (flags : List String) × (w' : W) × (gs ≡ before ++ g ∷ after)
      × Passes before w flags w'
      × ((g content w').0.decision ≡ block)
      × (r ≡ (blocked (g content w').0.reason, (g content w').1))

  -- No guardrail blocks; the flags of all of them, after those that were there, decide.
  abbrev pub AllPass : List (Guardrail W) → List String → W → GuardrailResult × W → Type 0
  AllPass gs old w r =
      (flags : List String) × (w' : W) × Passes gs w flags w' × (r ≡ (flagged (old ++ flags), w'))

  decide_cases :
      (g : Guardrail W) (gs : List (Guardrail W)) (old : List String) (w : W) (d : Decision)
      → (g content w).0.decision ≡ d
      → ((flags : List String) (u : W)
          → BlocksFirst gs u (evaluate_from gs content flags u)
            ⊎ AllPass gs flags u (evaluate_from gs content flags u))
      → let r = after_check d (g content w).0 (g content w).1 old (evaluate_from gs content) in
        BlocksFirst (g ∷ gs) w r ⊎ AllPass (g ∷ gs) old w r
  decide_cases g gs old w block e ih = inl ([], g, gs, [], w, refl, passes_nil w, e, refl)
  decide_cases g gs old w allow e ih = elim (ih old (g content w).1) [
    | inl (before, h, after, flags, w', split, pass, b, r) ↦ inl (
      g ∷ before,
      h,
      after,
      flags,
      w',
      ap (λ t. g ∷ t) split,
      passes_allow g before w w' flags e pass,
      b,
      r,
    )
    | inr (flags, w', pass, r) ↦ inr (flags, w', passes_allow g gs w w' flags e pass, r)
  ]
  decide_cases g gs old w flag e ih = elim (ih (old ++ (g content w).0.flags) (g content w).1) [
    | inl (before, h, after, flags, w', split, pass, b, r) ↦ inl (
      g ∷ before,
      h,
      after,
      (g content w).0.flags ++ flags,
      w',
      ap (λ t. g ∷ t) split,
      passes_flag g before w w' flags e pass,
      b,
      r,
    )
    | inr (flags, w', pass, r) ↦ inr (
      (g content w).0.flags ++ flags,
      w',
      passes_flag g gs w w' flags e pass,
      r ∙ ap (λ fs. (flagged fs, w')) (append_assoc old (g content w).0.flags flags),
    )
  ]

  evaluate_from_cases :
      (gs : List (Guardrail W)) (flags : List String) (w : W)
      → BlocksFirst gs w (evaluate_from gs content flags w)
        ⊎ AllPass gs flags w (evaluate_from gs content flags w)
  evaluate_from_cases [] flags w =
      inr ([], w, passes_nil w, ap (λ fs. (flagged fs, w)) (sym (append_nil flags)))
  evaluate_from_cases (g ∷ gs) flags w =
      decide_cases g gs flags w (g content w).0.decision refl (evaluate_from_cases gs)

  -- The pipeline either stops at the first guardrail that blocks, with its reason and without running
  -- those behind it, or runs them all, and then it flags with the flags of all of them in their order,
  -- or allows when there are none.
  pub evaluate_cases :
      (gs : List (Guardrail W)) (w : W)
      → BlocksFirst gs w (evaluate gs content w) ⊎ AllPass gs [] w (evaluate gs content w)
  unfolding evaluate
  evaluate_cases gs w = evaluate_from_cases gs [] w

module _ {W : Type 0} where
  -- Without a hook nothing more happens in `w`; with one, it is called with the reason.
  abbrev pub IsReported : Option (Option String → W → W) → Option String → W → W → Type 0
  IsReported on_block reason w w' =
      ((on_block ≡ none) × (w' ≡ w))
      ⊎ ((hook : Option String → W → W) × (on_block ≡ some hook) × (w' ≡ hook reason w))

  reported-IsReported :
      (on_block : Option (Option String → W → W)) (reason : Option String) (w : W)
      → IsReported on_block reason w (reported on_block reason w)
  reported-IsReported none reason w = inl (refl, refl)
  reported-IsReported (some hook) reason w = inr (hook, refl, refl)

module _ {W T : Type 0} (content : String) (downstream : W → T × W)
    (on_block : Option (Option String → W → W)) where
  -- Refused for the reason of the first guardrail that blocks, without doing the work.
  abbrev pub Refuses : List (Guardrail W) → W → Applied T × W → Type 0
  Refuses gs w a =
      (r : GuardrailResult × W) × (w' : W) × BlocksFirst content gs w r
      × IsReported on_block r.0.reason r.1 w'
      × (a ≡ (guardrail_blocked r.0.reason, w'))

  -- The work was done behind all the guardrails.
  abbrev pub Proceeds : List (Guardrail W) → W → Applied T × W → Type 0
  Proceeds gs w a =
      (r : GuardrailResult × W) × AllPass content gs [] w r × (a ≡ done_with (downstream r.1))

  flagged_done :
      (fs : List String) (w' : W)
      → apply_result (flagged fs).decision (flagged fs) w' downstream on_block
        ≡ done_with (downstream w')
  flagged_done [] w' = refl
  flagged_done (f ∷ fs) w' = refl

  -- A request is refused exactly when a guardrail blocks it: then the work is not done, and the hook sees
  -- the reason. Otherwise the work is done once, after every guardrail has run, flags or not.
  pub apply_input_guardrail_cases :
      (gs : List (Guardrail W)) (w : W)
      → let a = apply_input_guardrail gs content downstream on_block w in
        Refuses gs w a ⊎ Proceeds gs w a
  unfolding apply_input_guardrail
  apply_input_guardrail_cases gs w =
      let (r, w') = evaluate gs content w in
      elim (evaluate_cases content gs w) [
        | inl (before, g, after, flags, u, split, pass, b, e) ↦ inl (
          (r, w'),
          reported on_block r.reason w',
          (before, g, after, flags, u, split, pass, b, e),
          reported-IsReported on_block r.reason w',
          (let run = λ (x : GuardrailResult × W).
                apply_result x.0.decision x.0 x.1 downstream on_block in
              let reason = (g content u).0.reason in
              ap run e
              ∙ sym (
                  ap
                    (λ (x : GuardrailResult × W).
                      (guardrail_blocked x.0.reason, reported on_block x.0.reason x.1))
                    e)),
        )
        | inr (flags, u, pass, e) ↦ inr (
          (r, w'),
          (flags, u, pass, e),
          (let run = λ (x : GuardrailResult × W).
                apply_result x.0.decision x.0 x.1 downstream on_block in
              ap run e
              ∙ flagged_done flags u
              ∙ sym (ap (λ (x : GuardrailResult × W). done_with (downstream x.1)) e)),
        )
      ]
