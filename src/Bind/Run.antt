-- ===== src/Bind/Run.antt =====
-- scope.go: the loop of (*invocation).bind over the bindings of a plan without groups, from the
-- resolution of each to its assignment, and binding_metadata.go's observer.
-- A run is none when the fuel of a nested resolution runs out. It stops at the first error and
-- keeps what was assigned before. Replay is left out.
pub mod Assigned
pub mod Refined
pub mod Holds
pub mod Present
use bindly.Prelude.{
  ℕ, String, Bool, true, false, ◌++◌, Option, none, some, List, [], ◌∷◌, if◌then◌else◌, str_eq,
  is_some, not, ◌&&◌,
}
use bindly.Prelude.Int.{ℤ}
use bindly.Prelude.Comparable.{string_comparable}
use mathlib.Core.Option.{map as map_option}
use bindly.Map
use bindly.Map.{Map}
use bindly.Reflect.{Visibility, GoType, Basic, Value, same_type}
use bindly.Errors.{Error, BindingSite, Result, ok, err, ◌>>=◌, ◌>>◌}
use bindly.Locator.{Location}
use bindly.Spec.{BindingSpec, raw_null_policy}
use bindly.RecordCount.{counts_source_records}
use bindly.Field.{Access, get, set_value, zero_value}
use bindly.Plan.{Plan}
use bindly.Resolve.{Settings, State, Outcome, Resolution, unresolved, Injector, resolve, run}
use bindly.Bind.{
  bind_value, default_source, take_source, replace_null, apply_default, check_strict,
  convert_source, refuse_count, record_count_error, site_of, failure,
}
use bindly.Bind.Sequence.{effective_priority, sort_bindings, is_excluded, is_enabled}

-- BindingEvent, with what its target holds.
pub record Event : Type 0 where
  pub target : Value
  pub path : String
  pub location : Location
  pub value : Value
  pub metadata : Option Value

-- The fields of an invocation that `bind` only reads, and the other code that it calls. The
-- source state may be the target itself, so what is read of it depends on the target; an
-- observer may tell an event by the earlier ones. `address` is that of a failure to come.
pub record Invocation : Type 0 where
  pub settings : Value → Settings
  pub read_source : Value → String → Result Value
  pub strict_missing : Bool
  pub delayed_kinds : List String
  pub allowed_kinds : List String
  pub resolved : Map String Value
  pub observer : Option (List Event → Event → Option Error)
  pub convert_value : Value → Option GoType → Result Value
  pub assignable : GoType → GoType → Bool
  pub clone_value : Value → Result Value
  pub empty_record : GoType → Result Value
  pub printed : Error → String
  pub address : ℕ

-- What a run changes: what the target points to, the scope's state, and the events observed.
pub record Progress : Type 0 where
  pub target : Value
  pub scope : State
  pub events : List Event

abbrev pub Ran : Type 0
Ran = Option (Option Error × Progress)

module _ (s : Invocation) (plan : Plan) where
  abbrev pub event_of : BindingSpec → Value → Resolution → Progress → Event
  event_of spec v r p = record {
    target = p.target;
    path = spec.path;
    location = spec.location;
    value = v;
    metadata = r.metadata;
  }

  -- (*invocation).observed, with the value read back from the target.
  unfoldable pub observe : BindingSpec → Access → Resolution → Progress → Option Error × Progress
  observe spec access r p = elim s.observer [
    | none ↦ (none, p)
    | some notify ↦ elim (get access.index (GoType.pointer plan.target) p.target) [
      | none ↦ (
        some (
            Error.binding (record (site_of spec s.address) { code = ℤ.pos 0; message = "" })
              (Error.message "assigned field is not accessible" [])),
        p,
      )
      | some v ↦ (
        map_option (failure spec s.address) (notify p.events (event_of spec v r p)),
        record p { events = p.events ++ (event_of spec v r p ∷ []) },
      )
    ]
  ]

  -- `plan.fields[path].Set(targetValue, value)`
  unfoldable pub write : Access → Value → Value → Value × Option Error
  write access v target =
      set_value s.assignable access.index (GoType.pointer plan.target) false Visibility.exported v
        target

  abbrev pub true_value : Value
  true_value = Value.bool (GoType.basic Basic.bool "bool") true

  -- The presence marker of an assigned binding.
  unfoldable pub mark : BindingSpec → Value → Value × Option Error
  mark spec target =
      if str_eq spec.marker_field ""
      then (target, none)
      else elim (Map.get plan.fields spec.marker_field) [
        | none ↦ (target, some (Error.message "field cannot be set" []))
        | some access ↦ write access true_value target
      ]

  -- What follows the write of the marker, and that of the field.
  unfoldable pub after_mark :
      BindingSpec → Access → Resolution → Progress → Value × Option Error → Option Error × Progress
  after_mark spec access r p (v, some e) = (some e, record p { target = v })
  after_mark spec access r p (v, none) = observe spec access r (record p { target = v })

  unfoldable pub after_write :
      BindingSpec → Access → Resolution → Progress → Value × Option Error → Option Error × Progress
  after_write spec access r p (v, some e) = (some e, record p { target = v })
  after_write spec access r p (v, none) = after_mark spec access r p (mark spec v)

  -- The field, then its marker, then the observer.
  unfoldable pub assign : BindingSpec → Access → Resolution → Progress → Option Error × Progress
  assign spec access r p = after_write spec access r p (write access r.value p.target)

module _ (fuel : ℕ) (s : Invocation) where
  abbrev asked : Value → Option Location → State → Option (Outcome × State)
  asked target inner st = resolve fuel (s.settings target) inner none none "" st

  -- A transformer reads the scope; the value that it returns or its error, and the state after.
  unfoldable pub run_transformer :
      Value → State → BindingSpec → Value → Option (Result Value × State)
  run_transformer target st spec v = elim spec.transformer [
    | none ↦ some (ok v, st)
    | some transformer ↦ elim (run (asked target) (transformer st.now v) st) [
      | none ↦ none
      | some (l, st') ↦ some (elim l.error [ none ↦ ok l.value | some e ↦ err e ], st')
    ]
  ]

  -- `Transform` at a moment; it fails where the fuel runs out, which `finish_value` tells apart.
  abbrev pub transform : Value → State → BindingSpec → Value → Result Value
  transform target st spec v = elim (run_transformer target st spec v) [
    | none ↦ err (Error.message "out of fuel" [])
    | some (r, st') ↦ r
  ]

  module _ (target : Value) (st : State) (spec : BindingSpec) (type : GoType) where
    -- The count of what the transformer reads.
    abbrev pub count_source : Value → Result (Unit {0})
    count_source v =
        if counts_source_records spec
        then refuse_count s.convert_value s.assignable s.clone_value s.empty_record zero_value
            (transform target st) s.printed spec
            (record_count_error s.convert_value s.assignable s.clone_value s.empty_record zero_value
              (transform target st) s.printed spec s.address)
            v
        else ok tt

    -- The value that the transformer is called with, if it is called.
    unfoldable pub transformed : Option Value → Outcome → Result (Option Value)
    transformed supplied outcome = do
      read ←
          take_source spec type supplied outcome
          >>= replace_null s.convert_value s.assignable s.clone_value s.empty_record zero_value
              (transform target st) s.printed spec type
      c ←
          apply_default s.convert_value s.assignable s.clone_value s.empty_record zero_value
            (transform target st) s.printed spec read
      u ←
          check_strict s.convert_value s.assignable s.clone_value s.empty_record zero_value
            (transform target st) s.printed s.strict_missing spec type s.address
            read.resolution.found c
      r ←
          convert_source s.convert_value s.assignable s.clone_value s.empty_record zero_value
            (transform target st) s.printed c
      w ← count_source r.value
      ok (
          if c.resolution.found && (not c.prepared && is_some spec.transformer)
          then some r.value
          else none)

    -- The scope's state after the transformer.
    unfoldable pub after_transformer : Option Value → Outcome → Option State
    unfolding transformed run_transformer
    after_transformer supplied outcome = elim (transformed supplied outcome) [
      | err e ↦ some st
      | ok none ↦ some st
      | ok (some v) ↦ elim (run_transformer target st spec v) [
        | none ↦ none
        | some (r, st') ↦ some st'
      ]
    ]

    -- The value to assign.
    abbrev pub value_of : Option Value → Outcome → Result (Option Resolution)
    value_of supplied outcome =
        bind_value s.convert_value s.assignable s.clone_value s.empty_record zero_value
          (transform target st) s.printed s.strict_missing spec type s.address supplied outcome

  -- A value of `s.resolved` stands in for the resolution of its binding.
  unfoldable pub resolve_binding : Value → State → BindingSpec → GoType → Option (Outcome × State)
  resolve_binding target st spec type = elim (Map.get s.resolved spec.path) [
    | some v ↦ some (record { resolution = unresolved; error = none }, st)
    | none ↦
        resolve fuel (s.settings target) (some spec.location) (default_source spec type)
          spec.cacheable (if raw_null_policy spec then "" else spec.body_null_policy) st
  ]

  module _ (plan : Plan) where
    -- From a binding that is taken to its assignment.
    unfoldable pub bind_taken : BindingSpec → Access → Progress → Ran
    bind_taken spec access p = elim (resolve_binding p.target p.scope spec access.type) [
      | none ↦ none
      | some (outcome, st) ↦
          elim (after_transformer p.target st spec access.type (Map.get s.resolved spec.path)
            outcome) [
              | none ↦ none
              | some st' ↦
                  elim (value_of p.target st spec access.type (Map.get s.resolved spec.path)
                    outcome) [
                      | err e ↦ some (some e, record p { scope = st' })
                      | ok none ↦ some (none, record p { scope = st' })
                      | ok (some r) ↦ some (assign s plan spec access r (record p { scope = st' }))
                    ]
            ]
    ]

    -- One round of the loop. A plan has a field for each of its bindings.
    unfoldable pub bind_one : BindingSpec → Progress → Ran
    bind_one spec p =
        if is_excluded s.delayed_kinds s.allowed_kinds spec
        then some (none, p)
        else elim (is_enabled (s.read_source p.target) (is_some (s.settings p.target).source)
            spec) [
              | err e ↦ some (some e, p)
              | ok false ↦ some (none, p)
              | ok true ↦ elim (Map.get plan.fields spec.path) [
                | none ↦ some (some (Error.message "field cannot be set" []), p)
                | some access ↦ bind_taken spec access p
              ]
            ]

    unfoldable pub bind_all : List BindingSpec → Progress → Ran
    bind_all [] p = some (none, p)
    bind_all (spec ∷ rest) p = elim (bind_one spec p) [
      | none ↦ none
      | some (some e, p') ↦ some (some e, p')
      | some (none, p') ↦ bind_all rest p'
    ]

    -- (*invocation).bind of a plan without groups, for a target of the plan's type.
    unfoldable pub bind : Progress → Ran
    bind p =
        bind_all (sort_bindings (effective_priority (s.settings p.target).injectors) plan.bindings)
          p
