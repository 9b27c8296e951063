-- ===== src/Guardrails.antt =====
-- observability/guardrails/base.py: guardrails in order, and the refusal of a request. A guardrail, the
-- hook on a block and the work behind the guardrails may keep a state `W`.
pub mod Cases
mod Tests
use agentforgev.Common.{String, Bool, true, false, Option, none, some, List, [], ◌∷◌, ◌++◌}

pub data Decision : Type 0 where
  allow flag block : Decision

pub record GuardrailResult : Type 0 where
  pub decision : Decision
  pub flags : List String
  pub reason : Option String

-- `Guardrail.check`
abbrev pub Guardrail : Type 0 → Type 0
Guardrail W = String → W → GuardrailResult × W

abbrev pub flagged : List String → GuardrailResult
flagged [] = record { decision = allow; flags = []; reason = none }
flagged (f ∷ fs) = record { decision = flag; flags = f ∷ fs; reason = none }

abbrev pub blocked : Option String → GuardrailResult
blocked reason = record { decision = block; flags = []; reason = reason }

module _ {W : Type 0} where
  -- The loop of `evaluate`, with the flags so far. What the rest would do is a function of the state, so
  -- behind a block it is not run.
  abbrev pub after_check :
      Decision
      → GuardrailResult
      → W
      → List String
      → (List String → W → GuardrailResult × W)
      → GuardrailResult × W
  after_check block r w flags rest = (blocked r.reason, w)
  after_check flag r w flags rest = rest (flags ++ r.flags) w
  after_check allow r w flags rest = rest flags w

  abbrev pub evaluate_from : List (Guardrail W) → String → List String → W → GuardrailResult × W
  evaluate_from [] content flags w = (flagged flags, w)
  evaluate_from (g ∷ gs) content flags w =
      let (r, w') = g content w in after_check r.decision r w' flags (evaluate_from gs content)

  -- `Guardrail_Pipeline.evaluate`
  unfoldable pub evaluate : List (Guardrail W) → String → W → GuardrailResult × W
  evaluate gs content w = evaluate_from gs content [] w

-- What `apply_input_guardrail` comes to: the result of the work, or the error with its reason.
pub data Applied (T : Type 0) : Type 0 where
  done : T → Applied T
  guardrail_blocked : Option String → Applied T

abbrev pub reported : {W : Type 0} → Option (Option String → W → W) → Option String → W → W
reported none reason w = w
reported (some hook) reason w = hook reason w

module _ {W T : Type 0} where
  abbrev pub done_with : T × W → Applied T × W
  done_with (t, w) = (done t, w)

  abbrev pub apply_result :
      Decision → GuardrailResult → W → (W → T × W) → Option (Option String → W → W) → Applied T × W
  apply_result block r w downstream on_block =
      (guardrail_blocked r.reason, reported on_block r.reason w)
  apply_result flag r w downstream on_block = done_with (downstream w)
  apply_result allow r w downstream on_block = done_with (downstream w)

  -- A hook that raises is one that leaves the state it had reached.
  unfoldable pub apply_input_guardrail :
      List (Guardrail W) → String → (W → T × W) → Option (Option String → W → W) → W → Applied T × W
  unfolding evaluate
  apply_input_guardrail gs content downstream on_block w =
      let (r, w') = evaluate gs content w in apply_result r.decision r w' downstream on_block
