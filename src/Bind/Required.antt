-- ===== src/Bind/Required.antt =====
-- scope.go: strict binding and required bindings.
use bindly.Prelude.{
  ℕ, suc, ◌⊎◌, str_eq, refl, ◌≡◌, ◌≢◌, String, Bool, true, false, Option, none, some, arith, inl,
  inr, Bool-cases, if◌then◌else◌,
}
use bindly.Reflect.{GoType, Value}
use bindly.Prelude.Int.{ℤ, is_zero}
use bindly.Errors.{
  Error, BindingSite, Result, ok, err, ◌>>=◌, >>=-then, Result-cases, is_external, show_error,
  status_code, parameter_required,
}
use bindly.Errors.Status.{own_absence, show_error-own_absence, status_code-own_absence}
use bindly.Spec.{BindingSpec, is_set, raw_null_policy}
use bindly.Resolve.{Outcome, Resolution}
use bindly.Bind.{
  Candidate, nil_value, site_of, failure, map_error, take_source, replace_null, apply_default,
  check_strict, refuse_count, complete, bind_value,
}

module _ (convert_value : Value → Option GoType → Result Value)
    (assignable : GoType → GoType → Bool) (clone_value : Value → Result Value)
    (empty_record : GoType → Result Value) (zero_value : GoType → Value)
    (transform : BindingSpec → Value → Result Value) (printed : Error → String) where
  -- A source that is absent without a default, or null outside a body and without a null policy.
  abbrev pub IsAbsent : BindingSpec → Resolution → Type 0
  IsAbsent spec r =
      ((r.found ≡ false) × (spec.default_value ≡ none))
      ⊎ ((r.found ≡ true)
          × (nil_value r.value ≡ true)
          × (str_eq spec.location.kind "body" ≡ false)
          × (spec.body_null_policy ≡ ""))

  raw_null_policy-plain :
      (spec : BindingSpec) → spec.body_null_policy ≡ "" → raw_null_policy spec ≡ false
  unfolding raw_null_policy
  raw_null_policy-plain spec plain = rw plain refl

  absent-own_absence :
      (spec : BindingSpec) (target : GoType) (address : ℕ) (outcome : Outcome)
      → is_set spec.required ≡ true
      → outcome.error ≡ none
      → IsAbsent spec outcome.resolution
      → bind_value convert_value assignable clone_value empty_record zero_value transform printed
          true spec target address none outcome
        ≡ err (failure spec address (own_absence (site_of spec address)))
  unfolding bind_value take_source replace_null apply_default check_strict site_of
  absent-own_absence spec target address outcome q e (inl (f, d)) = ground arith
  absent-own_absence spec target address outcome q e (inr (f, null, other, strict)) =
      ground (arith, raw_null_policy-plain spec strict)

  -- Under strict binding, a required binding of an external kind that is not supplied, and whose
  -- source is absent without a default value, or null outside a body and without a null policy, fails. Without an authored
  -- message the failure names the parameter, by its name or else by its path, and without an
  -- authored code its status is 400.
  pub bind_value-absent :
      (spec : BindingSpec) (target : GoType) (address : ℕ) (outcome : Outcome)
      → is_set spec.required ≡ true
      → outcome.error ≡ none
      → IsAbsent spec outcome.resolution
      → is_external spec.location.kind ≡ true
      → str_eq spec.error_message "" ≡ true
      → is_zero spec.error_code ≡ true
      → (site : BindingSite) × (cause : Error) × (bind_value convert_value assignable clone_value
            empty_record zero_value transform printed true spec target address none outcome
          ≡ err (Error.binding site cause))
        × (show_error site cause
            ≡ parameter_required (if str_eq spec.name "" then spec.path else spec.name))
        × (status_code site cause ≡ ℤ.pos 400)
  unfolding site_of
  bind_value-absent spec target address outcome required fine absent external plain uncoded = (
    site_of spec address,
    own_absence (site_of spec address),
    absent-own_absence spec target address outcome required fine absent,
    (show_error-own_absence (site_of spec address) (suc address) plain external
        (λ e. omega (arith, e))).0,
    status_code-own_absence (site_of spec address) external uncoded,
  )

  map_error-ok :
      {A : Type 0} (f : Error → Error) (r : Result A) (a : A) → map_error f r ≡ ok a → r ≡ ok a
  map_error-ok f (ok b) a h = h
  map_error-ok f (err e) a h = cc

  required_absent :
      (spec : BindingSpec) (target : GoType) (address : ℕ) (present : Bool) (c : Candidate)
      → is_set spec.required ≡ true
      → c.resolution.found ≡ false
      → present ≡ false
      → check_strict convert_value assignable clone_value empty_record zero_value transform printed
          true spec target address present c
        ≢ ok tt
  unfolding check_strict
  required_absent spec target address present c q f p h = ground arith

  default-found :
      (spec : BindingSpec) (c c' : Candidate)
      → apply_default convert_value assignable clone_value empty_record zero_value transform printed
          spec c
        ≡ ok c'
      → c'.resolution.found ≡ false
      → c.resolution.found ≡ false
  unfolding apply_default
  default-found spec c c' h f = elim (Bool-cases c.resolution.found) [
    | inr e ↦ e
    | inl e ↦ ground arith
  ]

  ending :
      (spec : BindingSpec) (target : GoType) (address : ℕ) (c : Candidate)
      → c.resolution.found ≡ true
      → (if c.resolution.found
          then (do
            r' ←
                complete convert_value assignable clone_value empty_record zero_value transform
                  printed spec target address c
            ok (some r'))
          else (do
            w ←
                refuse_count convert_value assignable clone_value empty_record zero_value transform
                  printed spec
                  (failure spec address)
                  Value.invalid
            ok none))
        ≢ ok none
  ending spec target address c e h =
      elim (Result-cases (
        complete convert_value assignable clone_value empty_record zero_value transform printed spec
          target address c)) [ inl (v, m) ↦ ground arith | inr (x, m) ↦ ground arith ]

  -- Under strict binding a required binding is never passed over: it is assigned or it fails.
  pub bind_value-required :
      (spec : BindingSpec) (target : GoType) (address : ℕ) (supplied : Option Value)
      (outcome : Outcome)
      → is_set spec.required ≡ true
      → bind_value convert_value assignable clone_value empty_record zero_value transform printed
          true spec target address supplied outcome
        ≢ ok none
  unfolding bind_value
  bind_value-required spec target address supplied outcome q h =
      >>=-then
        (map_error (failure spec address) (
          take_source spec target supplied outcome
          >>= replace_null convert_value assignable clone_value empty_record zero_value transform
              printed spec target))
        _ none h
        λ read a h1.
          >>=-then
            (map_error (failure spec address) (
              apply_default convert_value assignable clone_value empty_record zero_value transform
                printed spec read))
            _ none h1
            λ c d h2.
              >>=-then
                (check_strict convert_value assignable clone_value empty_record zero_value transform
                  printed true spec target address read.resolution.found c)
                _ none h2
                λ u k h3. elim (Bool-cases c.resolution.found) [
                  | inl e ↦ ending spec target address c e h3
                  | inr e ↦
                      required_absent spec target address read.resolution.found c q e
                        (default-found spec read c (map_error-ok (failure spec address) _ c d) e)
                        (ground arith)
                ]
