-- ===== src/Agent/Registry.antt =====
-- tools/base.py and tools/registry.py: tools, and the registry that holds them by name.
-- A tool is one of the program's seams: whatever state it keeps is `W`, handed to it and returned.
use agentforgev.Common.{String, Bool, Option, none, some, List, filter, map, text_keys}
use agentforgev.Common.Dict.{Dict, lookup, insert, values}
use agentforgev.Common.Value.{Fields}
use agentforgev.Agent.State.{ToolResult}
use agentforgev.Agent.Schema.{Schema}

-- `invoke` returns, raises `ToolError`, or raises anything else.
pub data ToolOutcome : Type 0 where
  returned : ToolResult → ToolOutcome
  tool_error : String → ToolOutcome
  crashed : ToolOutcome

pub record Tool (W : Type 0) : Type 0 where
  pub name : String
  pub description : String
  pub input_schema : Schema
  pub available : Bool
  pub invoke : Fields → W → ToolOutcome × W

pub record ToolSpec : Type 0 where
  pub name : String
  pub description : String
  pub input_schema : Schema

module _ {W : Type 0} where
  -- `none` is `DuplicateToolNameError`.
  unfoldable pub register : Tool W → Dict String (Tool W) → Option (Dict String (Tool W))
  register tool tools = elim (lookup tool.name tools) [
    | none ↦ some (insert tool.name tool tools)
    | some old ↦ none
  ]

  unfoldable pub resolve : String → Dict String (Tool W) → Option (Tool W)
  resolve name tools = lookup name tools

  abbrev pub spec_of : Tool W → ToolSpec
  spec_of tool = record {
    name = tool.name;
    description = tool.description;
    input_schema = tool.input_schema;
  }

  unfoldable pub list_specs : Dict String (Tool W) → List ToolSpec
  list_specs tools = map spec_of (filter (λ t. t.available) (values tools))
