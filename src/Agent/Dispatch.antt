-- ===== src/Agent/Dispatch.antt =====
-- `_dispatch` of agent/graph.py: when a tool is invoked, and with what.
use agentforgev.Common.{◌≡◌, ◌≢◌, ◌⊎◌, inl, inr, refl, String, Option, none, some, text_keys}
use agentforgev.Common.Dict.{Dict}
use agentforgev.Agent.State.{Reason, tool_not_found, validation_error, Observation, ToolCall}
use agentforgev.Agent.Schema.{validate_arguments}
use agentforgev.Agent.Registry.{Tool, resolve}
use agentforgev.Agent.Nodes.{dispatch, invoke_checked, invoke_validated, observe_outcome}

module _ {W : Type 0} (tools : Dict String (Tool W)) (c : ToolCall) (w : W) where
  -- The call was refused: nothing outside was touched, and the observation says why.
  abbrev pub Refused : Option Observation × W → Type 0
  Refused r =
      (o : Observation) × (r.0 ≡ some o)
      × (r.1 ≡ w)
      × (o.tool_name ≡ some c.tool_name)
      × (((o.kind ≡ tool_not_found) × (resolve c.tool_name tools ≡ none))
          ⊎ ((o.kind ≡ validation_error)
              × ((tool : Tool W) × (resolve c.tool_name tools ≡ some tool)
                  × (validate_arguments c.arguments tool.input_schema ≢ none))))

  -- The registered tool ran once, on arguments that its schema admits.
  abbrev pub Invoked : Option Observation × W → Type 0
  Invoked r =
      (tool : Tool W) × (resolve c.tool_name tools ≡ some tool)
      × (validate_arguments c.arguments tool.input_schema ≡ none)
      × (r.0 ≡ observe_outcome c (tool.invoke c.arguments w).0)
      × (r.1 ≡ (tool.invoke c.arguments w).1)

  validated_cases :
      (tool : Tool W) (v : Option Reason)
      → resolve c.tool_name tools ≡ some tool
      → validate_arguments c.arguments tool.input_schema ≡ v
      → Refused (invoke_validated c tool v w) ⊎ Invoked (invoke_validated c tool v w)
  validated_cases tool (some e) found v =
      inl (_, refl, refl, refl, inr (refl, (tool, found, λ q. cc)))
  validated_cases tool none found v = inr (tool, found, v, refl, refl)

  checked_cases :
      (o : Option (Tool W))
      → resolve c.tool_name tools ≡ o
      → Refused (invoke_checked c o w) ⊎ Invoked (invoke_checked c o w)
  checked_cases none e = inl (_, refl, refl, refl, inl (refl, e))
  checked_cases (some tool) e = validated_cases tool _ e refl

  -- A tool call either runs the tool registered under its name, once and on arguments that pass
  -- `validate_arguments`, or leaves everything outside untouched and is observed as not found (no tool
  -- has the name) or as a validation error (the arguments do not pass).
  pub dispatch_cases : Refused (dispatch tools (some c) w) ⊎ Invoked (dispatch tools (some c) w)
  unfolding dispatch
  dispatch_cases = checked_cases (resolve c.tool_name tools) refl
