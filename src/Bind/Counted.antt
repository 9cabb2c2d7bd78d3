-- ===== src/Bind/Counted.antt =====
-- scope.go: an assigned value's record count.
use bindly.Prelude.{
  ℕ, ◌≡◌, String, Bool, true, not, ◌||◌, Option, none, some, is_some, arith, inl, inr, Bool-cases,
  Option-cases, if◌then◌else◌,
}
use bindly.Reflect.{GoType, Value}
use bindly.Errors.{Error, input_error, Result, ok, ◌>>=◌, >>=-then, Result-cases}
use bindly.Spec.{BindingSpec}
use bindly.RecordCount.{validate_record_count, counts_source_records}
use bindly.Resolve.{Resolution, Outcome}
use bindly.Bind.{
  Candidate, refuse_count, fill_zero, finish, failure, map_error, convert_source, convert,
  apply_transformer, take_source, replace_null, apply_default, check_strict, complete, bind_value,
}

module _ (convert_value : Value → Option GoType → Result Value)
    (assignable : GoType → GoType → Bool) (clone_value : Value → Result Value)
    (empty_record : GoType → Result Value) (zero_value : GoType → Value)
    (transform : BindingSpec → Value → Result Value) (printed : Error → String) where
  finish-counted :
      (spec : BindingSpec) (target : GoType) (address : ℕ) (prepared : Bool) (final r : Resolution)
      → (not (is_some spec.transformer) || not (counts_source_records spec)) ≡ true
      → finish convert_value assignable clone_value empty_record zero_value transform printed spec
          target address prepared final
        ≡ ok r
      → validate_record_count spec r.value ≡ none
  unfolding finish refuse_count
  finish-counted spec target address prepared final r t h =
      elim (Option-cases (
        validate_record_count spec
          (fill_zero convert_value assignable clone_value empty_record zero_value transform printed
            target final).value)) [ inl e ↦ ground arith | inr (fault, e) ↦ ground arith ]

  complete-counted :
      (spec : BindingSpec) (target : GoType) (address : ℕ) (c : Candidate) (r : Resolution)
      → (not (is_some spec.transformer) || not (counts_source_records spec)) ≡ true
      → complete convert_value assignable clone_value empty_record zero_value transform printed spec
          target address c
        ≡ ok r
      → validate_record_count spec r.value ≡ none
  unfolding complete
  complete-counted spec target address c r t h =
      >>=-then
        (map_error (λ e. failure spec address (input_error spec.location.kind e))
          (convert_source convert_value assignable clone_value empty_record zero_value transform
            printed c))
        _ r h
        λ read a h1.
          >>=-then
            (apply_transformer convert_value assignable clone_value empty_record zero_value
              transform printed spec address c.prepared read)
            _ r h1
            λ changed b h2.
              >>=-then
                (map_error
                  (λ e.
                    failure spec address
                      (if is_some spec.transformer then e else input_error spec.location.kind e))
                  (convert convert_value assignable clone_value empty_record zero_value transform
                    printed changed target))
                _ r h2 λ final d h3. finish-counted spec target address c.prepared final r t h3

  module _ (spec : BindingSpec) (target : GoType) (address : ℕ) where
    ending :
        (c : Candidate) (r : Resolution)
        → (not (is_some spec.transformer) || not (counts_source_records spec)) ≡ true
        → (if c.resolution.found
            then (do
              r' ←
                  complete convert_value assignable clone_value empty_record zero_value transform
                    printed spec target address c
              ok (some r'))
            else (do
              w ←
                  refuse_count convert_value assignable clone_value empty_record zero_value
                    transform printed spec
                    (failure spec address)
                    Value.invalid
              ok none))
          ≡ ok (some r)
        → validate_record_count spec r.value ≡ none
    ending c r t h = elim (Bool-cases c.resolution.found) [
      | inl e ↦
          elim (Result-cases (
            complete convert_value assignable clone_value empty_record zero_value transform printed
              spec target address c)) [
                | inl (v, m) ↦ complete-counted spec target address c r t (ground arith)
                | inr (x, m) ↦ ground arith
              ]
      | inr e ↦
          elim (Result-cases (
            refuse_count convert_value assignable clone_value empty_record zero_value transform
              printed spec (failure spec address) Value.invalid)) [
                | inl (v, m) ↦ ground arith
                | inr (x, m) ↦ ground arith
              ]
    ]

  -- A value that is assigned without a transformer, or with one whose source records are not
  -- counted, has a record count that passes the binding's check.
  pub bind_value-counted :
      (strict : Bool) (spec : BindingSpec) (target : GoType) (address : ℕ) (supplied : Option Value)
      (outcome : Outcome) (r : Resolution)
      → (not (is_some spec.transformer) || not (counts_source_records spec)) ≡ true
      → bind_value convert_value assignable clone_value empty_record zero_value transform printed
          strict spec target address supplied outcome
        ≡ ok (some r)
      → validate_record_count spec r.value ≡ none
  unfolding bind_value
  bind_value-counted strict spec target address supplied outcome r t h =
      >>=-then
        (map_error (failure spec address) (
          take_source spec target supplied outcome
          >>= replace_null convert_value assignable clone_value empty_record zero_value transform
              printed spec target))
        _ (some r) h
        λ read a h1.
          >>=-then
            (map_error (failure spec address) (
              apply_default convert_value assignable clone_value empty_record zero_value transform
                printed spec read))
            _ (some r) h1
            λ c d h2.
              >>=-then
                (check_strict convert_value assignable clone_value empty_record zero_value transform
                  printed strict spec target address read.resolution.found c)
                _ (some r) h2 λ u k h3. ending spec target address c r t h3
