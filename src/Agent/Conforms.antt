-- ===== src/Agent/Conforms.antt =====
-- What it means that arguments conform to an input schema, stated without the code of
-- `validate_arguments` (agent/graph.py), and the comparison of the two.
use agentforgev.Common.{
  ◌≤◌, ◌≡◌, ◌↔◌, refl, String, Bool, true, false, Option, none, some, List, [], ◌∷◌, ◌||◌, All,
  text_keys, arith, if◌then◌else◌, Option-cases, inl, inr,
}
use Prim.Native.String.{count}
use agentforgev.Common.Dict.{Dict, lookup}
use agentforgev.Common.Int.{ℤ, ◌≤ℤ◌}
use agentforgev.Common.Value.{
  Value, Num, Fields, boolean, number, string, array, object, int, end, field, get_field, in_units,
  num_lt, Items,
}
use agentforgev.Agent.State.{Reason}
use agentforgev.Agent.Schema.{
  TypeName, SubSchema, Schema, check_bounds, validate_typed, check_required, check_unexpected,
  check_values, check_property, or_else, has_properties, properties_of, validate_arguments,
}

abbrev pub AtLeast : Option Num → Num → Type 0
AtLeast none n = Unit
AtLeast (some m) n = in_units m ≤ℤ in_units n

abbrev pub AtMost : Option Num → Num → Type 0
AtMost none n = Unit
AtMost (some m) n = in_units n ≤ℤ in_units m

abbrev pub InBounds : SubSchema → Num → Type 0
InBounds s n = AtLeast s.minimum n × AtMost s.maximum n

abbrev pub Fits : Option TypeName → SubSchema → Value → Type 0
Fits (some TypeName.string_type) s v = (t : String) × (v ≡ string t) × (s.min_length ≤ count t)
Fits (some TypeName.integer_type) s v = (i : ℤ) × (v ≡ number (int i)) × InBounds s (int i)
Fits (some TypeName.number_type) s v = (n : Num) × (v ≡ number n) × InBounds s n
Fits (some TypeName.boolean_type) s v = (b : Bool) × (v ≡ boolean b)
Fits (some TypeName.array_type) s v = (xs : Items) × (v ≡ array xs)
Fits (some TypeName.object_type) s v = (fs : Fields) × (v ≡ object fs)
Fits _ s v = Unit

-- A property with no schema of its own may hold anything.
abbrev pub FitsProperty : Option SubSchema → Value → Type 0
FitsProperty none v = Unit
FitsProperty (some s) v = Fits s.expected s v

-- Every key and value of the arguments.
abbrev pub AllFields : (String → Value → Type 0) → Fields → Type 0
AllFields P end = Unit
AllFields P (field k v fs) = P k v × AllFields P fs

abbrev pub HasKey : Fields → String → Type 0
HasKey args k = (v : Value) × (get_field k args ≡ some v)

abbrev pub IsKnown : Dict String SubSchema → String → Value → Type 0
IsKnown props k v = (s : SubSchema) × (lookup k props ≡ some s)

abbrev pub ClosedOver : Bool → Dict String SubSchema → Fields → Type 0
ClosedOver true props args = AllFields (IsKnown props) args
ClosedOver false props args = Unit

pub record Conforms (args : Fields) (required : List String) (closed : Bool)
    (props : Dict String SubSchema) : Type 0 where
  pub present : All (HasKey args) required
  pub known : ClosedOver closed props args
  pub typed : AllFields (λ k v. FitsProperty (lookup k props) v) args

bounds_iff : (n : Num) (s : SubSchema) (key : String) → (check_bounds n s key ≡ none) ↔ InBounds s n
unfolding check_bounds num_lt
bounds_iff n s key = ground arith

number-InBounds : (s : SubSchema) (n m : Num) → number n ≡ number m → InBounds s m → InBounds s n
number-InBounds s n m p h = let e : n ≡ m = cc in rw e h

int-InBounds :
    (s : SubSchema) (i j : ℤ)
    → number (int i) ≡ number (int j)
    → InBounds s (int j)
    → InBounds s (int i)
int-InBounds s i j = number-InBounds s (int i) (int j)

typed_iff :
    (o : Option TypeName) (v : Value) (s : SubSchema) (key : String)
    → (validate_typed o v s key ≡ none) ↔ Fits o s v
unfolding validate_typed
typed_iff none v s key = (λ e. tt, λ h. refl)
typed_iff (some TypeName.string_type) (string t) s key =
    (λ e. (t, refl, ground arith), λ h. ground arith)
typed_iff (some TypeName.string_type) v s key = (λ e. cc, λ h. cc (h.1))
typed_iff (some TypeName.integer_type) (number (int i)) s key =
    let b = bounds_iff (int i) s key in
    (λ e. (i, refl, b.0 e), λ h. b.1 (int-InBounds s i h.0 h.1 h.2))
typed_iff (some TypeName.integer_type) v s key = (λ e. cc, λ h. cc (h.1))
typed_iff (some TypeName.number_type) (number n) s key =
    let b = bounds_iff n s key in
    (λ e. (n, refl, b.0 e), λ h. b.1 (number-InBounds s n h.0 h.1 h.2))
typed_iff (some TypeName.number_type) v s key = (λ e. cc, λ h. cc (h.1))
typed_iff (some TypeName.boolean_type) (boolean b) s key = (λ e. (b, refl), λ h. refl)
typed_iff (some TypeName.boolean_type) v s key = (λ e. cc, λ h. cc (h.1))
typed_iff (some TypeName.array_type) (array xs) s key = (λ e. (xs, refl), λ h. refl)
typed_iff (some TypeName.array_type) v s key = (λ e. cc, λ h. cc (h.1))
typed_iff (some TypeName.object_type) (object fs) s key = (λ e. (fs, refl), λ h. refl)
typed_iff (some TypeName.object_type) v s key = (λ e. cc, λ h. cc (h.1))
typed_iff (some TypeName.other_type) v s key = (λ e. tt, λ h. refl)

or_else_iff : (a b : Option Reason) → (or_else a b ≡ none) ↔ ((a ≡ none) × (b ≡ none))
or_else_iff none b = (λ e. (refl, e), λ h. h.1)
or_else_iff (some r) b = (λ e. cc, λ h. cc (h.0))

required_iff :
    (ks : List String) (args : Fields) → (check_required ks args ≡ none) ↔ All (HasKey args) ks
unfolding check_required
required_iff [] args = (λ e. tt, λ h. refl)
required_iff (k ∷ ks) args = elim (Option-cases (get_field k args)) [
  | inl e ↦ rw (e, check_required) (λ q. cc, λ h. cc (h.0.1))
  | inr (v, e) ↦
      let ih = required_iff ks args in
      rw (e, check_required) (λ q. ((v, refl), ih.0 q), λ h. ih.1 h.1)
]

unexpected_iff :
    (args : Fields) (props : Dict String SubSchema)
    → (check_unexpected args props ≡ none) ↔ AllFields (IsKnown props) args
unfolding check_unexpected
unexpected_iff end props = (λ e. tt, λ h. refl)
unexpected_iff (field k v fs) props = elim (Option-cases (lookup k props)) [
  | inl e ↦ rw (e, check_unexpected) (λ q. cc, λ h. cc (h.0.1))
  | inr (s, e) ↦
      let ih = unexpected_iff fs props in
      rw (e, check_unexpected) (λ q. ((s, refl), ih.0 q), λ h. ih.1 h.1)
]

property_iff :
    (o : Option SubSchema) (v : Value) (key : String)
    → (check_property o v key ≡ none) ↔ FitsProperty o v
property_iff none v key = (λ e. tt, λ h. refl)
property_iff (some s) v key = typed_iff s.expected v s key

values_iff :
    (args : Fields) (props : Dict String SubSchema)
    → (check_values args props ≡ none) ↔ AllFields (λ k v. FitsProperty (lookup k props) v) args
unfolding check_values
values_iff end props = (λ e. tt, λ h. refl)
values_iff (field k v fs) props =
    let ih = values_iff fs props in
    let here = property_iff (lookup k props) v k in
    let both = or_else_iff (check_property (lookup k props) v k) (check_values fs props) in
    (λ q. let (a, b) = both.0 q in (here.0 a, ih.0 b), λ h. both.1 (here.1 h.0, ih.1 h.1))

closed_iff :
    (c : Bool) (args : Fields) (props : Dict String SubSchema)
    → ((if c then check_unexpected args props else none) ≡ none) ↔ ClosedOver c props args
closed_iff true args props = unexpected_iff args props
closed_iff false args props = (λ e. tt, λ h. refl)

-- For an object schema, `validate_arguments` finds nothing exactly when the arguments conform: every
-- required key is there, no key is unknown if the schema is closed, and each argument with a schema
-- has the type, the length and the bounds that it asks for.
pub validate_arguments_iff :
    (args : Fields) (schema : Schema)
    → (schema.is_object || has_properties schema.properties) ≡ true
    → (validate_arguments args schema ≡ none)
      ↔ Conforms args schema.required schema.closed (properties_of schema.properties)
unfolding validate_arguments
validate_arguments_iff args schema object_schema =
    let props = properties_of schema.properties in
    let r = required_iff schema.required args in
    let c = closed_iff schema.closed args props in
    let v = values_iff args props in
    let outer = or_else_iff (check_required schema.required args) _ in
    let inner =
      or_else_iff (if schema.closed then check_unexpected args props else none)
        (check_values args props) in
    rw object_schema (
      λ q.
          let (a, bc) = outer.0 q in
          let (b, t) = inner.0 bc in record { present = r.0 a; known = c.0 b; typed = v.0 t },
      λ h. outer.1 (r.1 h.present, inner.1 (c.1 h.known, v.1 h.typed)),
    )
