-- ===== src/Agent/Schema.antt =====
-- `validate_arguments`, `_validate_value` and `_check_bounds` of agent/graph.py: tool arguments
-- against a tool's input schema. A schema is read as the record of what the code looks up in it, an
-- absent entry as the default of the `get`; a result is `none` or the reason of the refusal.
use agentforgev.Common.{
  ℕ, String, Bool, true, false, Option, none, some, List, [], ◌∷◌, ◌||◌, ltb, text_keys,
  if◌then◌else◌,
}
use agentforgev.Common.Dict.{Dict, lookup}
use agentforgev.Common.Value.{
  Value, Num, Fields, boolean, number, string, array, object, int, end, field, get_field, num_lt,
}
use agentforgev.Agent.State.{
  Reason, missing_required, unexpected, must_be_string, too_short, must_be_integer, must_be_number,
  must_be_boolean, must_be_array, must_be_object, below_minimum, above_maximum,
}
use Prim.Native.String.{count}

-- The value of a "type" entry; `other_type` is any text that the code does not test for.
pub data TypeName : Type 0 where
  string_type integer_type number_type boolean_type array_type object_type other_type : TypeName

pub record SubSchema : Type 0 where
  pub expected : Option TypeName
  pub min_length : ℕ
  pub minimum : Option Num
  pub maximum : Option Num

pub record Schema : Type 0 where
  pub is_object : Bool
  -- `none` when the schema has no "properties"
  pub properties : Option (Dict String SubSchema)
  pub required : List String
  -- whether "additionalProperties" is `False`
  pub closed : Bool

abbrev pub check_minimum : Num → Option Num → String → Option Reason
check_minimum v none key = none
check_minimum v (some m) key = if num_lt v m then some (below_minimum key) else none

abbrev pub check_maximum : Num → Option Num → String → Option Reason
check_maximum v none key = none
check_maximum v (some m) key = if num_lt m v then some (above_maximum key) else none

-- The first refusal.
abbrev pub or_else : Option Reason → Option Reason → Option Reason
or_else none r = r
or_else (some e) r = some e

unfoldable pub check_bounds : Num → SubSchema → String → Option Reason
check_bounds v s key = or_else (check_minimum v s.minimum key) (check_maximum v s.maximum key)

unfoldable pub validate_typed : Option TypeName → Value → SubSchema → String → Option Reason
unfolding check_bounds
validate_typed none v s key = none
validate_typed (some TypeName.string_type) (string t) s key =
    if ltb (count t) s.min_length then some (too_short key) else none
validate_typed (some TypeName.string_type) v s key = some (must_be_string key)
validate_typed (some TypeName.integer_type) (number (int i)) s key = check_bounds (int i) s key
validate_typed (some TypeName.integer_type) v s key = some (must_be_integer key)
validate_typed (some TypeName.number_type) (number n) s key = check_bounds n s key
validate_typed (some TypeName.number_type) v s key = some (must_be_number key)
validate_typed (some TypeName.boolean_type) (boolean b) s key = none
validate_typed (some TypeName.boolean_type) v s key = some (must_be_boolean key)
validate_typed (some TypeName.array_type) (array xs) s key = none
validate_typed (some TypeName.array_type) v s key = some (must_be_array key)
validate_typed (some TypeName.object_type) (object fs) s key = none
validate_typed (some TypeName.object_type) v s key = some (must_be_object key)
validate_typed (some TypeName.other_type) v s key = none

abbrev pub validate_value : Value → SubSchema → String → Option Reason
validate_value v s key = validate_typed s.expected v s key

-- `for key in schema.get("required", [])`
unfoldable pub check_required : List String → Fields → Option Reason
check_required [] args = none
check_required (k ∷ ks) args = elim (get_field k args) [
  | none ↦ some (missing_required k)
  | some v ↦ check_required ks args
]

-- `for key in arguments: if key not in properties`
unfoldable pub check_unexpected : Fields → Dict String SubSchema → Option Reason
check_unexpected end props = none
check_unexpected (field k v fs) props = elim (lookup k props) [
  | none ↦ some (unexpected k)
  | some s ↦ check_unexpected fs props
]

abbrev pub check_property : Option SubSchema → Value → String → Option Reason
check_property none v key = none
check_property (some s) v key = validate_value v s key

-- `for key, value in arguments.items()`
unfoldable pub check_values : Fields → Dict String SubSchema → Option Reason
check_values end props = none
check_values (field k v fs) props =
    or_else (check_property (lookup k props) v k) (check_values fs props)

abbrev pub has_properties : Option (Dict String SubSchema) → Bool
has_properties none = false
has_properties (some _) = true

abbrev pub properties_of : Option (Dict String SubSchema) → Dict String SubSchema
properties_of none = []
properties_of (some p) = p

-- The arguments of a `Tool_Call` are a dict, so the first test of the code always passes.
unfoldable pub validate_arguments : Fields → Schema → Option Reason
unfolding check_required check_unexpected check_values validate_typed
validate_arguments args schema =
    let props = properties_of schema.properties in
    if schema.is_object || has_properties schema.properties
    then or_else (check_required schema.required args) (
        or_else (if schema.closed then check_unexpected args props else none)
          (check_values args props))
    else none
