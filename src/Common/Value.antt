-- ===== src/Common/Value.antt =====
-- The values of a JSON document, as the program holds them: tool arguments, tool payloads and
-- configured settings. A finite `float` is a whole multiple of 2^-1074 and is kept as that multiple,
-- so an `int` and a `float` compare exactly, as they do in Python. NaN and the infinities are left out.
use Prim.Native.Nat.{ℕ, ◌^◌}
use Prim.Native.String.{String}
use mathlib.Core.Bool.{Bool}
use mathlib.Core.Option.{Option, none, some}
use agentforgev.Common.Tests.{◌==◌, text_keys, if◌then◌else◌}
use agentforgev.Common.Int.{ℤ, scale, ltb_ℤ}

-- The numbers of the language: `int` and finite `float`.
pub data Num : Type 0 where
  int : ℤ → Num
  float : ℤ → Num

-- How many units of a `float` make 1.
float_units : ℕ
float_units = 2 ^ 1074

-- A number, in units of 2^-1074.
unfoldable pub in_units : Num → ℤ
unfolding float_units
in_units (int i) = scale float_units i
in_units (float u) = u

-- Python's `a < b`.
unfoldable pub num_lt : Num → Num → Bool
unfolding in_units
num_lt a b = ltb_ℤ (in_units a) (in_units b)

mutual
  pub data Value : Type 0 where
    null : Value
    boolean : Bool → Value
    number : Num → Value
    string : String → Value
    array : Items → Value
    object : Fields → Value

  pub data Items : Type 0 where
    nil : Items
    cons : Value → Items → Items

  pub data Fields : Type 0 where
    end : Fields
    field : String → Value → Fields → Fields

-- d.get(key)
abbrev pub get_field : String → Fields → Option Value
get_field k end = none
get_field k (field j v d) = if j == k then some v else get_field k d
