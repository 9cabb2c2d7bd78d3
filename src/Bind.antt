-- ===== src/Bind.antt =====
-- scope.go: how (*invocation).bind turns the resolution of one binding into a value to assign.
-- Replay, which stands in for the resolution in some invocations, is left out. The conversions,
-- the transformer and the clone of a default are other components' work, passed as parameters.
pub mod Sequence
pub mod Required
pub mod Counted
pub mod Run
use bindly.Prelude.{
  ℕ, String, Bool, true, false, not, ◌&&◌, ◌||◌, Option, none, some, List, [], is_some, str_eq,
  if◌then◌else◌,
}
use bindly.Reflect.{GoType, Value, raw_message, same_type, base_type, type_of}
use bindly.Errors.{
  Error, BindingSite, Result, ok, err, ◌>>=◌, ◌>>◌, input_error, required_absence, set_owner,
  is_external,
}
use bindly.Spec.{BindingSpec, is_set, is_raw_message, raw_null_policy}
use bindly.RecordCount.{counts_source_records, validate_record_count, count_message, CountFault}
use bindly.Resolve.{Resolution, Outcome}

-- nilValue
unfoldable pub nil_value : Value → Bool
nil_value Value.invalid = true
nil_value (Value.nil t) = true
nil_value v = false

-- The BindingError literals of `bind`, at an address.
unfoldable pub site_of : BindingSpec → ℕ → BindingSite
site_of spec address = record {
  address = address;
  path = spec.path;
  name = spec.name;
  kind = spec.location.kind;
  in_path = spec.location.in_path;
  code = spec.error_code;
  message = spec.error_message;
}

abbrev pub failure : BindingSpec → ℕ → Error → Error
failure spec address e = Error.binding (site_of spec address) e

abbrev pub map_error {ℓ} : {A : Type ℓ} → (Error → Error) → Result A → Result A
map_error f (ok a) = ok a
map_error f (err e) = err (f e)

abbrev pub is_list_type : Option GoType → Bool
is_list_type (some (GoType.slice name t)) = true
is_list_type (some (GoType.array n t)) = true
is_list_type _ = false

abbrev pub base : Option GoType → Option GoType
base none = none
base (some t) = some (base_type t)

-- `result`, `preparedValue` and `sourceType`.
pub record Candidate : Type 0 where
  pub resolution : Resolution
  pub prepared : Bool
  pub source : Option GoType

abbrev pub with_value : Candidate → Value → Candidate
with_value c v = record c { resolution = record { value = v; found = true; metadata = none } }

-- The source type of a binding that names none.
unfoldable pub default_source : BindingSpec → GoType → Option GoType
default_source spec target = elim spec.source_type [
  | some t ↦ some t
  | none ↦ if is_some spec.transformer then none else some target
]

-- A supplied value, or what the resolution returned.
unfoldable pub take_source : BindingSpec → GoType → Option Value → Outcome → Result Candidate
take_source spec target (some v) outcome = ok (record {
  resolution = record { value = v; found = true; metadata = none };
  prepared = true;
  source = some target;
})
take_source spec target none outcome = elim outcome.error [
  | some e ↦ err e
  | none ↦ ok (record {
    resolution = outcome.resolution;
    prepared = false;
    source = default_source spec target;
  })
]

module _ (convert_value : Value → Option GoType → Result Value)
    (assignable : GoType → GoType → Bool) (clone_value : Value → Result Value)
    (empty_record : GoType → Result Value) (zero_value : GoType → Value)
    (transform : BindingSpec → Value → Result Value) (printed : Error → String) where
  abbrev keeps_metadata : Value → GoType → Bool
  keeps_metadata v target = elim (type_of v) [ none ↦ false | some t ↦ assignable t target ]

  -- (*resolution).convert to a type
  unfoldable pub convert : Resolution → GoType → Result Resolution
  convert r target = do
    v ← convert_value r.value (some target)
    ok (record r {
      value = v;
      metadata = if keeps_metadata r.value target then r.metadata else none;
    })

  -- A null body under the empty-record policy.
  unfoldable pub replace_null : BindingSpec → GoType → Candidate → Result Candidate
  replace_null spec target c =
      if not c.prepared
        && (raw_null_policy spec && (c.resolution.found && nil_value c.resolution.value))
      then (do
        v ← empty_record target
        ok (record c {
          resolution = record { value = v; found = c.resolution.found; metadata = none };
          prepared = true;
          source = some target;
        }))
      else ok c

  -- The default value of a binding whose source is absent.
  unfoldable pub apply_default : BindingSpec → Candidate → Result Candidate
  apply_default spec c =
      if not c.prepared && not c.resolution.found
      then elim spec.default_value [
        | none ↦ ok c
        | some d ↦ do copy ← clone_value d; v ← convert_value copy c.source; ok (with_value c v)
      ]
      else ok c

  -- BindingSpec.recordCountError
  unfoldable pub record_count_error : BindingSpec → ℕ → Error → Error
  record_count_error spec address cause =
      Error.binding
        (record (site_of spec address) {
          message =
              if str_eq spec.error_message "" && is_external spec.location.kind
              then printed cause
              else spec.error_message;
        })
        (input_error spec.location.kind cause)

  -- `validateRecordCount` of a value, the fault wrapped.
  unfoldable pub refuse_count : BindingSpec → (Error → Error) → Value → Result (Unit {0})
  refuse_count spec wrap v = elim (validate_record_count spec v) [
    | none ↦ ok tt
    | some fault ↦ err (wrap (count_message spec fault))
  ]

  -- The block under `s.strictMissing`, with `sourcePresent`.
  unfoldable pub check_strict :
      Bool → BindingSpec → GoType → ℕ → Bool → Candidate → Result (Unit {0})
  check_strict strict spec target address present c =
      let collection = base (if is_raw_message c.source then some target else c.source) in
      if strict
        && ((not c.resolution.found || nil_value c.resolution.value) && is_set spec.required)
      then (if present && (str_eq spec.location.kind "body" && is_list_type collection)
          then refuse_count spec (record_count_error spec address) c.resolution.value
          else err (
              failure spec address
                (set_owner address (required_absence spec.location.kind spec.location.in_path).1)))
      else ok tt

  abbrev pub convert_source : Candidate → Result Resolution
  convert_source c = elim c.source [ none ↦ ok c.resolution | some t ↦ convert c.resolution t ]

  -- The transformer, after the count of what it reads.
  unfoldable pub apply_transformer : BindingSpec → ℕ → Bool → Resolution → Result Resolution
  apply_transformer spec address prepared r =
      if not prepared && is_some spec.transformer
      then (do
        u ←
            (if counts_source_records spec
              then refuse_count spec (record_count_error spec address) r.value
              else ok tt)
        v ← map_error (failure spec address) (transform spec r.value)
        ok (record r { value = v; metadata = none }))
      else ok r

  -- A nil result is the zero value of the target.
  unfoldable pub fill_zero : GoType → Resolution → Resolution
  fill_zero target r = elim r.value [
    | Value.invalid ↦ record r { value = zero_value target; metadata = none }
    | other ↦ r
  ]

  -- The converted value, filled in and counted.
  unfoldable pub finish : BindingSpec → GoType → ℕ → Bool → Resolution → Result Resolution
  finish spec target address prepared final = do
    u ←
        (if prepared || (not (is_some spec.transformer) || not (counts_source_records spec))
          then refuse_count spec (record_count_error spec address) (fill_zero target final).value
          else ok tt)
    ok (fill_zero target final)

  -- From a found value to the one assigned.
  unfoldable pub complete : BindingSpec → GoType → ℕ → Candidate → Result Resolution
  complete spec target address c = do
    read ←
        map_error (λ e. failure spec address (input_error spec.location.kind e)) (convert_source c)
    changed ← apply_transformer spec address c.prepared read
    final ←
        map_error
          (λ e.
            failure spec address
              (if is_some spec.transformer then e else input_error spec.location.kind e))
          (convert changed target)
    finish spec target address c.prepared final

  -- One binding: its value, none where the binding is passed over, or the failure.
  unfoldable pub bind_value :
      Bool → BindingSpec → GoType → ℕ → Option Value → Outcome → Result (Option Resolution)
  bind_value strict spec target address supplied outcome = do
    read ←
        map_error (failure spec address)
          (take_source spec target supplied outcome >>= replace_null spec target)
    c ← map_error (failure spec address) (apply_default spec read)
    u ← check_strict strict spec target address read.resolution.found c
    if c.resolution.found
        then (do r ← complete spec target address c; ok (some r))
        else (do w ← refuse_count spec (failure spec address) Value.invalid; ok none)
