-- ===== src/Spec.antt =====
-- spec.go: BindingSpec, and the checks of a binding's body null policy.
-- Fields that no modelled operation reads (Scope, With, URI, ResourceRef, DataType, Extension) are
-- left out, but for `scope`, which decides whether a resolved value is borrowed.
pub mod Policy
use bindly.Prelude.{
  ℕ, String, Bool, true, false, not, Option, none, some, List, [], ◌∷◌, ◌&&◌, ◌||◌, is_some, str_eq,
  if◌then◌else◌,
}
use bindly.Prelude.Int.{ℤ}
use bindly.Reflect.{GoType, Value, Kind, kind_of, same_type, raw_message}
use bindly.Errors.{Error}
use bindly.Locator.{Location, Behaviour}

-- ResolutionGroupMode. Any other text is an unknown mode.
pub data Mode : Type 0 where
  concurrent dependencies : Mode
  unknown : String → Mode

-- ResolutionGroupSpec
pub record GroupSpec : Type 0 where
  pub name : String
  pub mode : Mode
  pub after : List String
  pub depends_on : List String

-- A transformer reads the scope as a scoped source does.
abbrev pub Transformer : Type 0
Transformer = ℕ → Value → Behaviour

pub record BindingSpec : Type 0 where
  pub group : Option GroupSpec
  pub body_null_policy : String
  pub marker_field : String
  pub path : String
  pub name : String
  pub location : Location
  pub source_type : Option GoType
  pub required : Option Bool
  pub cacheable : Option Bool
  pub min_allowed : Option ℤ
  pub max_allowed : Option ℤ
  pub expected : Option ℤ
  pub when_path : String
  pub scope : String
  pub cardinality : String
  pub priority : ℤ
  pub is_async : Bool
  pub default_value : Option Value
  pub error_code : ℤ
  pub error_message : String
  pub transformer : Option Transformer

-- `binding.Required != nil && *binding.Required`
abbrev pub is_set : Option Bool → Bool
is_set none = false
is_set (some b) = b

abbrev pub is_raw_message : Option GoType → Bool
is_raw_message none = false
is_raw_message (some t) = same_type t raw_message

-- BindingSpec.rawBodyNullPolicy
unfoldable pub raw_null_policy : BindingSpec → Bool
raw_null_policy b =
    str_eq b.body_null_policy "empty-record"
    && (is_raw_message b.source_type && is_some b.transformer)

-- `target.Kind() == Pointer && target.Elem().Kind() == Struct`
abbrev pub is_record_pointer : Option GoType → Bool
is_record_pointer (some (GoType.pointer (GoType.struct name fs))) = true
is_record_pointer _ = false

-- BindingSpec.ValidateBodyNullPolicy: the error, if any.
unfoldable pub validate_null_policy : BindingSpec → Option GoType → Option Error
unfolding raw_null_policy
validate_null_policy b target =
    if str_eq b.body_null_policy ""
    then none
    else if not (str_eq b.body_null_policy "empty-record")
    then some (Error.message "unsupported bodyNullPolicy %q" (b.body_null_policy ∷ []))
    else if not (str_eq b.location.kind "body") || not (str_eq b.location.in_path "")
    then some (Error.message "bodyNullPolicy requires the whole body location" [])
    else if not (is_record_pointer target)
    then some (Error.message "bodyNullPolicy requires a direct pointer-to-struct target" [])
    else if (is_some b.source_type || is_some b.transformer) && not (raw_null_policy b)
    then some
        (Error.message "bodyNullPolicy does not support source-type adaptations or transformers" [])
    else none
