-- ===== src/Field.antt =====
-- internal/field/field.go: reading and writing a field through its compiled index path.
-- A reflect.Value is a value with its static type, since a value of interface type does not show
-- it. A pointer owns what it leads to, so no two pointers lead to one value. Writing returns the target even where it fails, with the parents allocated by then.
pub mod Lens
use bindly.Prelude.{
  ℕ, zero, suc, Bool, true, false, not, ◌&&◌, ◌||◌, Option, none, some, List, [], ◌∷◌,
  if◌then◌else◌,
}
use bindly.Reflect.{GoType, Basic, Fields, Visibility, Value, Values, type_of, base_type}
use bindly.Errors.{Error}
use bindly.Prelude.Int.{ℤ}

pub record Access : Type 0 where
  pub index : List ℕ
  pub type : GoType

-- A field's visibility and type, by its index.
unfoldable pub field_at : Fields → ℕ → Option (Visibility × GoType)
field_at Fields.end i = none
field_at (Fields.field name visibility marker t fs) zero = some (visibility, t)
field_at (Fields.field name visibility marker t fs) (suc i) = field_at fs i

unfoldable pub value_at : Values → ℕ → Option Value
value_at Values.end i = none
value_at (Values.cons v vs) zero = some v
value_at (Values.cons v vs) (suc i) = value_at vs i

unfoldable pub replace_at : Values → ℕ → Value → Values
replace_at Values.end i w = Values.end
replace_at (Values.cons v vs) zero w = Values.cons w vs
replace_at (Values.cons v vs) (suc i) w = Values.cons v (replace_at vs i w)

abbrev copies : ℕ → Value → Values
copies zero v = Values.end
copies (suc n) v = Values.cons v (copies n v)

abbrev zero_basic : Basic → GoType → Value
zero_basic Basic.bool t = Value.bool t false
zero_basic Basic.string t = Value.text t ""
zero_basic Basic.interface t = Value.invalid
zero_basic Basic.func t = Value.nil t
zero_basic Basic.chan t = Value.nil t
zero_basic _ t = Value.number t (ℤ.pos 0)

-- reflect.Zero and reflect.New
unfoldable mutual
  pub zero_value : GoType → Value
  zero_value (GoType.basic b n) = zero_basic b (GoType.basic b n)
  zero_value (GoType.pointer t) = Value.nil (GoType.pointer t)
  zero_value (GoType.slice n t) = Value.nil (GoType.slice n t)
  zero_value (GoType.array n t) = Value.items (GoType.array n t) (copies n (zero_value t))
  zero_value (GoType.mapping k t) = Value.nil (GoType.mapping k t)
  zero_value (GoType.struct n fs) = Value.structure (GoType.struct n fs) (zero_fields fs)

  pub zero_fields : Fields → Values
  zero_fields Fields.end = Values.end
  zero_fields (Fields.field name visibility marker t fs) =
      Values.cons (zero_value t) (zero_fields fs)

-- The struct behind a value's pointers, if no pointer is nil.
unfoldable pub behind : GoType → Value → Option (Fields × Values)
behind (GoType.pointer t) (Value.pointer u w) = behind t w
behind (GoType.struct n fs) (Value.structure u vs) = some (fs, vs)
behind _ _ = none

-- Access.Value
unfoldable pub get : List ℕ → GoType → Value → Option Value
get [] t v = some v
get (i ∷ path) t v = elim (behind t v) [
  | none ↦ none
  | some (fs, vs) ↦ elim (field_at fs i) [
    | none ↦ none
    | some (visibility, u) ↦ elim (value_at vs i) [ none ↦ none | some w ↦ get path u w ]
  ]
]

-- reflect's read-only flags of a value, as the visibility that they come from: a value reached by
-- way of an unexported field stays read only, unless that field is embedded and is left again.
abbrev pub enter : Visibility → Visibility → Visibility
enter Visibility.unexported own = Visibility.unexported
enter _ own = own

abbrev pub is_read_only : Visibility → Bool
is_read_only Visibility.exported = false
is_read_only _ = true

-- A struct behind pointers, changed by `change`, which is told whether it is addressable. Nil
-- pointers on the way are allocated, if they can be set: addressable and not read only.
unfoldable pub change_behind :
    GoType
    → Bool
    → Visibility
    → Value
    → (Fields → Bool → Values → Values × Option Error)
    → Value × Option Error
change_behind (GoType.pointer t) addressable read_only (Value.pointer u w) change =
    let r = change_behind t true read_only w change in (Value.pointer u r.0, r.1)
change_behind (GoType.pointer t) addressable read_only (Value.nil u) change =
    let r = change_behind t true read_only (zero_value t) change in
    if addressable && not (is_read_only read_only)
    then (Value.pointer t r.0, r.1)
    else (Value.nil u, some (Error.message "field parent cannot be set" []))
change_behind (GoType.struct n fs) addressable read_only (Value.structure u vs) change =
    let r = change fs addressable vs in (Value.structure u r.0, r.1)
change_behind t addressable read_only v change =
    (v, some (Error.message "field parent is not a struct" []))

-- The type at the end of an index path: reflect.Type.FieldByIndex, through pointers.
unfoldable pub type_at : List ℕ → GoType → Option GoType
type_at [] t = some t
type_at (i ∷ path) t = elim (base_type t) [
  | GoType.struct n fs ↦ elim (field_at fs i) [
    | none ↦ none
    | some (visibility, u) ↦ type_at path u
  ]
  | other ↦ none
]

-- A struct's field, changed by `change`, which is told the field's type and the two flags.
module _ (i : ℕ) (read_only : Visibility)
    (change : GoType → Bool → Visibility → Value → Value × Option Error) where
  unfoldable pub change_found :
      Bool → Values → Option (Visibility × GoType) → Option Value → Values × Option Error
  change_found addressable vs (some (visibility, u)) (some w) =
      let r = change u addressable (enter read_only visibility) w in (replace_at vs i r.0, r.1)
  change_found addressable vs _ _ =
      (vs, some (Error.message "reflect: Field index out of range" []))

  abbrev pub change_at : Fields → Bool → Values → Values × Option Error
  change_at fs addressable vs = change_found addressable vs (field_at fs i) (value_at vs i)

-- What is stored for a value: the zero value for nil.
abbrev pub stored : GoType → Value → Value
stored t Value.invalid = zero_value t
stored t v = v

module _ (assignable : GoType → GoType → Bool) where
  abbrev pub fits : GoType → Value → Bool
  fits t v = elim (type_of v) [ none ↦ true | some u ↦ assignable u t ]

  -- Access.Set at a value of the static type, with reflect's two flags of it.
  unfoldable pub set_value :
      List ℕ → GoType → Bool → Visibility → Value → Value → Value × Option Error
  set_value [] t addressable read_only new v =
      if addressable && not (is_read_only read_only)
      then (if fits t new
          then (stored t new, none)
          else (v, some (Error.message "cannot assign %v to %v" [])))
      else (v, some (Error.message "field cannot be set" []))
  set_value (i ∷ path) t addressable read_only new v =
      change_behind t addressable read_only v
        (change_at i read_only (λ u inner hidden w. set_value path u inner hidden new w))
