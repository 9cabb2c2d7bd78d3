-- ===== src/Reflect.antt =====
-- The part of package reflect that the code relies on: kinds, types, and dynamically typed values.
-- A pointer owns its pointee here: two pointers to one object are two copies of it.
pub mod Equality
use bindly.Prelude.{
  ℕ, suc, String, Bool, true, false, Option, none, some, List, [], ◌∷◌, ◌&&◌, not, str_eq, nat_eq,
}
use bindly.Prelude.Int.{ℤ}

-- `int` and `uint` stand for their families of widths; a type's name tells the widths apart.
pub data Kind : Type 0 where
  invalid bool int uint float string interface func chan pointer slice array mapping struct : Kind

-- The kinds of a type with no parts.
pub data Basic : Type 0 where
  bool int uint float string interface func chan : Basic

-- A field that is exported, embedded and not exported, or neither.
pub data Visibility : Type 0 where
  exported : Visibility
  embedded : Visibility
  unexported : Visibility

mutual
  pub data GoType : Type 0 where
    basic : Basic → String → GoType
    pointer : GoType → GoType
    slice : String → GoType → GoType
    array : ℕ → GoType → GoType
    mapping : GoType → GoType → GoType
    struct : String → Fields → GoType

  -- A field's name, its visibility, its tags `setMarker` and `json`, and its type.
  pub data Fields : Type 0 where
    end : Fields
    field : String → Visibility → Bool → GoType → Fields → Fields

mutual
  pub data Value : Type 0 where
    -- the nil interface, and the zero reflect.Value
    invalid : Value
    -- a nil pointer, slice, map, func or chan of the type
    nil : GoType → Value
    bool : GoType → Bool → Value
    number : GoType → ℤ → Value
    text : GoType → String → Value
    -- a value that the code only passes on, by its identity
    opaque : GoType → ℕ → Value
    pointer : GoType → Value → Value
    items : GoType → Values → Value
    entries : GoType → Members → Value
    structure : GoType → Values → Value
    -- locator.ValueWithMetadata: the value and its metadata
    envelope : Value → Value → Value

  pub data Values : Type 0 where
    end : Values
    cons : Value → Values → Values

  pub data Members : Type 0 where
    no_members : Members
    member : String → Value → Members → Members

abbrev pub envelope_type : GoType
envelope_type = GoType.struct "locator.ValueWithMetadata" Fields.end

abbrev pub raw_message : GoType
raw_message = GoType.slice "json.RawMessage" (GoType.basic Basic.uint "uint8")

abbrev pub bytes : GoType
bytes = GoType.slice "" (GoType.basic Basic.uint "uint8")

abbrev pub text_type : GoType
text_type = GoType.basic Basic.string "string"

abbrev basic_kind : Basic → Kind
basic_kind Basic.bool = Kind.bool
basic_kind Basic.int = Kind.int
basic_kind Basic.uint = Kind.uint
basic_kind Basic.float = Kind.float
basic_kind Basic.string = Kind.string
basic_kind Basic.interface = Kind.interface
basic_kind Basic.func = Kind.func
basic_kind Basic.chan = Kind.chan

unfoldable pub kind_of : GoType → Kind
kind_of (GoType.basic b name) = basic_kind b
kind_of (GoType.pointer t) = Kind.pointer
kind_of (GoType.slice name t) = Kind.slice
kind_of (GoType.array n t) = Kind.array
kind_of (GoType.mapping k t) = Kind.mapping
kind_of (GoType.struct name fs) = Kind.struct

unfoldable pub type_of : Value → Option GoType
type_of Value.invalid = none
type_of (Value.nil t) = some t
type_of (Value.bool t b) = some t
type_of (Value.number t n) = some t
type_of (Value.text t s) = some t
type_of (Value.opaque t n) = some t
type_of (Value.pointer t v) = some (GoType.pointer t)
type_of (Value.items t vs) = some t
type_of (Value.entries t ms) = some t
type_of (Value.structure t vs) = some t
type_of (Value.envelope v m) = some envelope_type

abbrev same_basic : Basic → Basic → Bool
same_basic Basic.bool Basic.bool = true
same_basic Basic.int Basic.int = true
same_basic Basic.uint Basic.uint = true
same_basic Basic.float Basic.float = true
same_basic Basic.string Basic.string = true
same_basic Basic.interface Basic.interface = true
same_basic Basic.func Basic.func = true
same_basic Basic.chan Basic.chan = true
same_basic _ _ = false

abbrev same_bool : Bool → Bool → Bool
same_bool true b = b
same_bool false b = not b

abbrev same_visibility : Visibility → Visibility → Bool
same_visibility Visibility.exported Visibility.exported = true
same_visibility Visibility.embedded Visibility.embedded = true
same_visibility Visibility.unexported Visibility.unexported = true
same_visibility _ _ = false

-- reflect.Type's `==`.
unfoldable mutual
  pub same_type : GoType → GoType → Bool
  same_type (GoType.basic b n) (GoType.basic c m) = same_basic b c && str_eq n m
  same_type (GoType.pointer t) (GoType.pointer u) = same_type t u
  same_type (GoType.slice n t) (GoType.slice m u) = str_eq n m && same_type t u
  same_type (GoType.array n t) (GoType.array m u) = nat_eq n m && same_type t u
  same_type (GoType.mapping k t) (GoType.mapping l u) = same_type k l && same_type t u
  same_type (GoType.struct n fs) (GoType.struct m gs) = str_eq n m && same_fields fs gs
  same_type _ _ = false

  pub same_fields : Fields → Fields → Bool
  same_fields Fields.end Fields.end = true
  same_fields (Fields.field n e k t fs) (Fields.field m d l u gs) =
      str_eq n m && (same_visibility e d && (same_bool k l && (same_type t u && same_fields fs gs)))
  same_fields _ _ = false

-- The type behind every pointer.
unfoldable pub base_type : GoType → GoType
base_type (GoType.pointer t) = base_type t
base_type t = t

unfoldable pub count_items : Values → ℕ
count_items Values.end = 0
count_items (Values.cons v vs) = suc (count_items vs)
