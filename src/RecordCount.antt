-- ===== src/RecordCount.antt =====
-- record_count.go: limits on the number of records that a binding supplies.
pub mod Bounds
use bindly.Prelude.{
  ℕ, String, Bool, true, false, not, Option, none, some, List, [], ◌∷◌, ◌&&◌, ◌||◌, is_some, nat_eq,
  if◌then◌else◌,
}
use bindly.Prelude.Int.{ℤ, ltb_ℤ, is_negative, pos_part, neg_part}
use bindly.Prelude.Text.{equal_fold}
use bindly.Reflect.{
  GoType, Fields, Value, Values, Kind, kind_of, base_type, same_type, raw_message, count_items,
}
use bindly.Errors.{Error, BindingSite, input_error, is_external}
use bindly.Spec.{BindingSpec, is_set}

abbrev is_collection : GoType → Bool
is_collection (GoType.slice name t) = true
is_collection (GoType.array n t) = true
is_collection (GoType.struct name fs) = true
is_collection _ = false

-- BindingSpec.countsSourceRecords
unfoldable pub counts_source_records : BindingSpec → Bool
unfolding base_type
counts_source_records b = elim b.source_type [
  | none ↦ false
  | some t ↦
      let base = base_type t in if same_type base raw_message then false else is_collection base
]

abbrev exceeds : Option ℤ → Option ℤ → Bool
exceeds (some a) (some b) = ltb_ℤ b a
exceeds _ _ = false

abbrev negative_limit : Option ℤ → Bool
negative_limit none = false
negative_limit (some n) = is_negative n

abbrev source_or : BindingSpec → GoType → GoType
source_or b target =
    if counts_source_records b then elim b.source_type [ some t ↦ t | none ↦ target ] else target

-- BindingSpec.compileRecordCount: the error, if any. The limits are copied, which the model's
-- values need not be.
unfoldable pub compile_record_count : BindingSpec → GoType → Option Error
unfolding counts_source_records base_type
compile_record_count b target =
    if not (is_some b.min_allowed || (is_some b.max_allowed || is_some b.expected))
    then none
    else if not (is_collection (base_type (source_or b target)))
        && not (equal_fold b.cardinality "One")
    then some
        (Error.message "record count constraints require a collection or a singleton record" [])
    else if negative_limit b.min_allowed
        || (negative_limit b.max_allowed || negative_limit b.expected)
    then some (Error.message "record count constraints must be nonnegative" [])
    else if exceeds b.min_allowed b.max_allowed
    then some (Error.message "minimum record count exceeds maximum" [])
    else if exceeds b.min_allowed b.expected || exceeds b.expected b.max_allowed
    then some (Error.message "expected record count is outside allowed range" [])
    else none

-- The records in a value: none where it is of a kind that is not counted.
unfoldable pub record_total : Bool → Value → Option ℕ
unfolding count_items
record_total one (Value.pointer t v) = record_total one v
record_total one (Value.items t vs) = some (count_items vs)
record_total one (Value.structure t vs) = some 1
record_total one (Value.envelope v m) = some 1
record_total one Value.invalid = some 0
record_total one (Value.nil (GoType.pointer t)) = some 0
record_total one (Value.nil (GoType.slice name t)) = some 0
record_total one _ = if one then some 1 else none

abbrev below : ℕ → Option ℤ → Bool
below n none = false
below n (some limit) = ltb_ℤ (ℤ.pos n) limit

abbrev above : ℕ → Option ℤ → Bool
above n none = false
above n (some limit) = ltb_ℤ limit (ℤ.pos n)

-- The four cases of the final switch.
pub data CountFault : Type 0 where
  too_few unexpected too_many required_empty : CountFault

unfoldable pub check_count : BindingSpec → ℕ → Option CountFault
check_count b n =
    if below n b.min_allowed
    then some too_few
    else if below n b.expected || above n b.expected
    then some unexpected
    else if above n b.max_allowed
    then some too_many
    else if nat_eq n 0 && is_set b.required
    then some required_empty
    else none

-- BindingSpec.validateRecordCount: the error, if any.
unfoldable pub validate_record_count : BindingSpec → Value → Option CountFault
unfolding record_total check_count
validate_record_count b value = elim (record_total (equal_fold b.cardinality "One") value) [
  | none ↦ none
  | some n ↦ check_count b n
]

unfoldable pub count_message : BindingSpec → CountFault → Error
count_message b too_few = Error.message "expected at least %d records, but had %d" []
count_message b unexpected = Error.message "expected %d records, but had %d" []
count_message b too_many = Error.message "expected no more than %d records, but had %d" []
count_message b required_empty =
    Error.message "parameter %s value is required but no data was found" (b.name ∷ [])
