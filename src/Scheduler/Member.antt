-- ===== src/Scheduler/Member.antt =====
-- resolution_dependencies.go: the work of a member of a dependency group, from its admission by the
-- controller to its publication (executeDependencyMember).
-- The member binds a scratch copy of the target as it was at the snapshot, and publishes to the
-- target as it is at the end, when its peers may have published. Values are trees, so a detached
-- pointer is the same value. Panics are left out.
pub mod Published
use bindly.Prelude.{
  ℕ, String, Bool, true, false, Option, none, some, List, [], ◌∷◌, ◌++◌, str_eq, if◌then◌else◌,
}
use bindly.Prelude.Comparable.{string_comparable}
use mathlib.Core.Option.{map as map_option}
use bindly.Map
use bindly.Reflect.{GoType, Value}
use bindly.Errors.{Error, BindingSite, copy_binding_error, first_of_two}
use bindly.Spec.{BindingSpec}
use bindly.Field.{Access, get}
use bindly.Plan.{Plan}
use bindly.Resolve.{State}
use bindly.Bind.{failure, site_of}
use bindly.Bind.Run.{Invocation, Progress, Event, bind, write, mark}
use bindly.Scheduler.{ResolutionOutcome}

-- What the controller's Enter answers: an error, no context, a context without the scheduler of
-- the invocation, or one to run the member in.
pub data Entered : Type 0 where
  refused : Error → Entered
  no_context : Entered
  detached : Entered
  entered : Entered

-- Whether the member is denied.
unfoldable pub entry_error : Entered → Option Error
entry_error (refused e) = some e
entry_error no_context =
    some (Error.message "resolution group controller returned no member context" [])
entry_error detached =
    some
      (Error.message "resolution group controller must retain the invocation scheduler context" [])
entry_error entered = none

-- errors.As(workerErr, &bindingErr)
unfoldable pub as_binding : Error → Option (BindingSite × Error)
as_binding (Error.message s ws) = none
as_binding (Error.wrapped s e) = as_binding e
as_binding (Error.input c e) = as_binding e
as_binding (Error.binding s e) = some (s, e)
as_binding (Error.absence o e) = as_binding e
as_binding (Error.coded c s) = none
as_binding (Error.prerequisite p q e) = as_binding e
as_binding (Error.join e f) = first_of_two (as_binding e) (as_binding f)

-- The failure of an attempted member: a copy of its own, or a new one around the error.
unfoldable pub failure_at : ℕ → BindingSpec → Error → BindingSite × Error
unfolding as_binding
failure_at fresh member e = elim (as_binding e) [
  | none ↦ (site_of member fresh, e)
  | some (site, cause) ↦
      if str_eq site.path member.path
      then (copy_binding_error fresh site, cause)
      else (site_of member fresh, e)
]

-- The outcome of an attempted member, once its error is known.
abbrev pub concluded : ℕ → BindingSpec → Option Value → Bool → Option Error → ResolutionOutcome
concluded fresh member found terminal cause = record {
  attempted = true;
  cause = cause;
  terminal = terminal;
  path = member.path;
  failure = map_option (failure_at fresh member) cause;
  value = found;
}

abbrev pub denied : BindingSpec → Error → ResolutionOutcome
denied member e = record {
  attempted = false;
  cause = some e;
  terminal = false;
  path = member.path;
  failure = none;
  value = none;
}

-- The worker: fresh state, sources as of the snapshot, no groups, and an observer that records.
-- Supplied values are for the target of the invocation, which the scratch copy is not.
unfoldable pub isolated : Invocation → Value → Invocation
isolated s snapshot = record s {
  settings = λ scratch. record (s.settings snapshot) { group_source = none; observing = true };
  read_source = λ scratch name. s.read_source snapshot name;
  resolved = Map.new;
  observer = some (λ earlier event. none);
}

abbrev pub scratch_of : Value → ℕ → Progress
scratch_of snapshot now = record {
  target = snapshot;
  scope = record { active = []; cache = record { entries = [] }; persistent = none; now = now };
  events = [];
}

-- The plan of the worker: the member alone, without a marker.
unfoldable pub member_plan : Plan → BindingSpec → Plan
member_plan plan member = record plan {
  groups = [];
  bindings = record member { group = none; marker_field = "" } ∷ [];
}

-- The worker's last event for the member.
unfoldable pub last_event : String → List Event → Option Event
last_event path [] = none
last_event path (event ∷ rest) =
    first_of_two (last_event path rest) (if str_eq event.path path then some event else none)

module _ (s : Invocation) (plan : Plan) (member : BindingSpec) where
  -- `s.observed`, with the value of the outcome; whether its error is terminal comes with it.
  unfoldable pub announce : Value → Option Value → Progress → (Option Error × Bool) × Progress
  announce v metadata p = elim s.observer [
    | none ↦ ((none, false), p)
    | some notify ↦
        let event : Event = record {
          target = p.target;
          path = member.path;
          location = member.location;
          value = v;
          metadata = metadata;
        } in
        let later : Progress = record p { events = p.events ++ (event ∷ []) } in
        elim (notify p.events event) [
          | none ↦ ((none, false), later)
          | some e ↦ ((some (failure member s.address e), true), later)
        ]
  ]

  abbrev pub after_marker :
      Value → Option Value → Progress → Value × Option Error → (Option Error × Bool) × Progress
  after_marker v metadata p (x, some e) = ((some e, false), record p { target = x })
  after_marker v metadata p (x, none) = announce v metadata (record p { target = x })

  abbrev pub after_field :
      Value → Option Value → Progress → Value × Option Error → (Option Error × Bool) × Progress
  after_field v metadata p (w, some e) = ((some e, false), record p { target = w })
  after_field v metadata p (w, none) = after_marker v metadata p (mark s plan member w)

  -- The field, then its marker, then the observer, on the target as it is now.
  unfoldable pub publish :
      Access → Value → Option Value → Progress → (Option Error × Bool) × Progress
  publish access v metadata p = after_field v metadata p (write s plan access v p.target)

  abbrev pub published : ℕ → Value → (Option Error × Bool) × Progress → ResolutionOutcome × Progress
  published fresh v ((cause, terminal), p) = (concluded fresh member (some v) terminal cause, p)

  -- From the event of a worker without an error.
  unfoldable pub settle : ℕ → Option Event → Value → Progress → ResolutionOutcome × Progress
  unfolding publish
  settle fresh none scratch p = (concluded fresh member none false none, p)
  settle fresh (some event) scratch p =
      let inaccessible : ResolutionOutcome × Progress = (
        concluded fresh member (some event.value) false
            (some (Error.message "assigned group field is not accessible" [])),
        p,
      ) in
      elim (Map.get plan.fields member.path) [
        | none ↦ inaccessible
        | some access ↦ elim (get access.index (GoType.pointer plan.target) scratch) [
          | none ↦ inaccessible
          | some v ↦ published fresh v (publish access v event.metadata p)
        ]
      ]

  abbrev pub event_value : Option Event → Option Value
  event_value event = map_option (λ (e : Event). e.value) event

  -- executeDependencyMember; none when the fuel of a resolution runs out. `p` is the invocation's
  -- progress at the publication, `now` the moment of the snapshot, and `fresh` the address of a
  -- new failure.
  unfoldable pub execute_member :
      ℕ → ℕ → Entered → Value → ℕ → Progress → Option (ResolutionOutcome × Progress)
  unfolding settle
  execute_member fuel fresh answer snapshot now p = elim (entry_error answer) [
    | some e ↦ some (denied member e, p)
    | none ↦
        elim (bind fuel (isolated s snapshot) (member_plan plan member) (scratch_of snapshot now)) [
          | none ↦ none
          | some (some e, q) ↦ some (
            concluded fresh member (event_value (last_event member.path q.events)) false (some e),
            p,
          )
          | some (none, q) ↦ some (settle fresh (last_event member.path q.events) q.target p)
        ]
  ]
