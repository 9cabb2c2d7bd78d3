-- ===== src/Plan.antt =====
-- plan.go: a binding plan, and the presence markers of its bindings.
pub mod Compile
pub mod Typed
pub mod Bound
pub mod Presence
use bindly.Prelude.{
  String, Bool, true, false, Option, none, some, List, [], ◌∷◌, str_eq, if◌then◌else◌,
}
use bindly.Prelude.Comparable.{string_comparable}
use bindly.Map
use bindly.Map.{Map}
use bindly.Reflect.{Visibility, GoType, Basic, Value, same_type}
use bindly.Errors.{Error, Result, ok, err, ◌>>=◌, ◌>>◌, refuse_if}
use bindly.Field.{Access, get, set_value}
use bindly.Spec.{BindingSpec}
use bindly.Groups.{GroupPlan}

-- `fields` has an entry for each binding's path and marker.
pub record Plan : Type 0 where
  pub groups : List GroupPlan
  pub target : GoType
  pub bindings : List BindingSpec
  pub fields : Map String Access

-- A target's static type.
abbrev pub target_type : Plan → GoType
target_type plan = GoType.pointer plan.target

abbrev pub is_target : Plan → Value → Bool
is_target plan (Value.pointer t v) = same_type t plan.target
is_target plan v = false

-- The loop of `presenceMarker`.
unfoldable pub marker_of : List BindingSpec → String → Result String
marker_of [] path = err (Error.message "presence binding %s is not defined" (path ∷ []))
marker_of (b ∷ rest) path = if str_eq b.path path then ok b.marker_field else marker_of rest path

-- (*Plan).presenceMarker; a nil plan is none.
unfoldable pub presence_marker : Option Plan → Value → String → Result String
presence_marker none target path = err (Error.message "binding plan is required" [])
presence_marker (some plan) target path =
    if is_target plan target
    then marker_of plan.bindings path
    else err (Error.message "presence target must be *%s" [])

-- reflect.Value.Bool, which panics on a value of another kind.
unfoldable pub as_bool : Value → Result Bool
as_bool (Value.bool t b) = ok b
as_bool v = err (Error.message "reflect: call of reflect.Value.Bool on %s Value" [])

-- `plan.fields[path].Value(target)`; a plan has a field for each binding and marker.
abbrev pub field_value : Plan → String → Value → Option Value
field_value plan path target = elim (Map.get plan.fields path) [
  | none ↦ some target
  | some a ↦ get a.index (target_type plan) target
]

-- (*Plan).ExplicitPresence: `present` and `hasMarker`.
unfoldable pub explicit_presence : Option Plan → Value → String → Result (Bool × Bool)
explicit_presence none target path = err (Error.message "binding plan is required" [])
explicit_presence (some plan) target path = do
  marker ← presence_marker (some plan) target path
  if str_eq marker "" then ok (false, false) else elim (field_value plan marker target) [
    | none ↦ ok (false, true)
    | some v ↦ do b ← as_bool v; ok (b, true)
  ]

-- (*Plan).Presence
unfoldable pub presence : Option Plan → Value → String → Result Bool
presence none target path = err (Error.message "binding plan is required" [])
presence (some plan) target path = do
  marker ← presence_marker (some plan) target path
  if str_eq marker ""
      then ok true
      else elim (field_value plan marker target) [ none ↦ ok false | some v ↦ as_bool v ]

abbrev pub bool_value : Bool → Value
bool_value b = Value.bool (GoType.basic Basic.bool "bool") b

module _ (assignable : GoType → GoType → Bool) where
  -- (*Plan).SetPresence: the target after it, and its error.
  unfoldable pub set_presence : Option Plan → Value → String → Bool → Value × Option Error
  set_presence none target path present =
      (target, some (Error.message "binding plan is required" []))
  set_presence (some plan) target path present = elim (presence_marker (some plan) target path) [
    | err e ↦ (target, some e)
    | ok marker ↦ if str_eq marker "" then (target, none) else elim (Map.get plan.fields marker) [
      | none ↦ (target, some (Error.message "field cannot be set" []))
      | some a ↦
          set_value assignable a.index (target_type plan) false Visibility.exported
            (bool_value present) target
    ]
  ]
