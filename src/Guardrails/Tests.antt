-- ===== src/Guardrails/Tests.antt =====
-- A concrete pipeline for observability/guardrails/base.py: the first guardrail flags, the second blocks,
-- and the state counts what has run.
use agentforgev.Common.{ℕ, ◌+◌, ◌≡◌, ◌⊎◌, refl, String, none, some, List, [], ◌∷◌}
use agentforgev.Guardrails.{Guardrail, flag, block, apply_input_guardrail, guardrail_blocked}
use agentforgev.Guardrails.Cases.{Refuses, Proceeds, apply_input_guardrail_cases}

abbrev flagging : Guardrail ℕ
flagging content w = (record { decision = flag; flags = "long" ∷ []; reason = none }, w + 1)

abbrev blocking : Guardrail ℕ
blocking content w = (record { decision = block; flags = []; reason = some "secret" }, w + 1)

abbrev pipeline : List (Guardrail ℕ)
pipeline = flagging ∷ blocking ∷ flagging ∷ []

abbrev work : ℕ → String × ℕ
work w = ("answer", w + 100)

refuses : apply_input_guardrail pipeline "text" work none 0 ≡ (guardrail_blocked (some "secret"), 2)
unfolding apply_input_guardrail
refuses = refl

apply_input_guardrail_cases_example :
    Refuses "text" work none pipeline 0 (apply_input_guardrail pipeline "text" work none 0)
    ⊎ Proceeds "text" work none pipeline 0 (apply_input_guardrail pipeline "text" work none 0)
apply_input_guardrail_cases_example = apply_input_guardrail_cases "text" work none pipeline 0
