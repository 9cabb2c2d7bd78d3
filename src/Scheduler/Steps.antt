-- ===== src/Scheduler/Steps.antt =====
-- resolution_dependencies.go and resolution_scheduler.go: the events of a dependency group.
use bindly.Prelude.{
  ℕ, zero, suc, ◌-◌, Bool, true, false, Option, none, some, List, [], ◌∷◌, is_some, ltb, length,
  get_elem?, set, if◌then◌else◌,
}
use bindly.Errors.{Error}
use bindly.Spec.{BindingSpec}
use bindly.Scheduler.{
  ResolutionOutcome, Status, pending, running, returned, completed, scanning, selecting, draining,
  State, observe_outcome, scan, after_scan, count_completed,
}

pub data Event : Type 0 where
  -- the loop looks at every member
  look : Event
  -- `case slots <- struct{}{}`
  admit : Event
  -- `case result := <-done`, also while joining: the member's index
  receive : ℕ → Event
  -- `case <-ctx.Done()`
  done : Event
  -- all started work has joined
  joined : Event
  -- a worker observes its outcome, releases its lease and sends its result
  finish : ℕ → ResolutionOutcome → Event
  -- SuspendResolutionGroup: the permit is released, and reacquired
  suspend : ℕ → Event
  resume : ℕ → Event
  -- the caller's context is canceled
  cancel : Error → Event
  -- another group, or a phase, takes or gives back a permit
  acquire_other : Event
  release_other : Event

unfoldable pub is_running : Status → Bool
is_running (running held) = true
is_running (returned r) = true
is_running _ = false

unfoldable pub any_running : List Status → Bool
any_running [] = false
any_running (s ∷ ss) = if is_running s then true else any_running ss

unfoldable pub receive_member : ℕ → State → Option State
receive_member i st = elim (get_elem? st.status i) [
  | some (returned r) ↦ some (record st {
    status = set st.status i (completed r);
    phase = elim st.phase [ draining ↦ draining | other ↦ scanning ];
  })
  | some other ↦ none
  | none ↦ none
]

abbrev free_permit : State → ℕ
free_permit st = st.slots - 1

module _ (limit : ℕ) (members : List BindingSpec)
    (observe : List ResolutionOutcome → ResolutionOutcome → Option Error) where
  -- Admission holds a permit before the worker starts; a cancellation in between gives it back.
  unfoldable pub admit_member : State → Option State
  admit_member st = elim st.phase [
    | selecting (some i) ↦
        if ltb st.slots limit
        then some (
            if is_some st.cancelled then record st { phase = scanning } else record st {
              phase = scanning;
              status = set st.status i (running true);
              slots = suc st.slots;
            })
        else none
    | other ↦ none
  ]

  -- (*resolutionLease).release gives a permit back only if it is held.
  unfoldable pub finish_member : ℕ → ResolutionOutcome → State → Option State
  finish_member i o st = elim (get_elem? st.status i) [
    | some (running held) ↦
        let (r, st') = observe_outcome members observe st o in
        some (record st' {
          status = set st'.status i (returned r);
          slots = if held then free_permit st' else st'.slots;
        })
    | some other ↦ none
    | none ↦ none
  ]

  unfoldable pub suspend_member : ℕ → State → Option State
  suspend_member i st = elim (get_elem? st.status i) [
    | some (running true) ↦
        some (record st { status = set st.status i (running false); slots = free_permit st })
    | some other ↦ none
    | none ↦ none
  ]

  unfoldable pub resume_member : ℕ → State → Option State
  resume_member i st = elim (get_elem? st.status i) [
    | some (running false) ↦
        if ltb st.slots limit
        then some (record st { status = set st.status i (running true); slots = suc st.slots })
        else none
    | some other ↦ none
    | none ↦ none
  ]

  unfoldable pub look_members : State → Option State
  look_members st = elim st.phase [
    | scanning ↦
        let (found, st') = scan members observe 0 (length members) none st in
        some (after_scan members observe (count_completed members observe st.status) found st')
    | other ↦ none
  ]

  -- The state after an event, if it can happen.
  unfoldable pub step : Event → State → Option State
  step look st = look_members st
  step admit st = admit_member st
  step (receive i) st = elim st.phase [
    | selecting found ↦ receive_member i st
    | draining ↦ receive_member i st
    | other ↦ none
  ]
  step done st = elim st.phase [
    | selecting found ↦ if is_some st.cancelled then some (record st { phase = draining }) else none
    | other ↦ none
  ]
  step joined st = elim st.phase [
    | draining ↦ if any_running st.status then none else some (record st { phase = scanning })
    | other ↦ none
  ]
  step (finish i o) st = finish_member i o st
  step (suspend i) st = suspend_member i st
  step (resume i) st = resume_member i st
  step (cancel e) st =
      some (record st { cancelled = if is_some st.cancelled then st.cancelled else some e })
  step acquire_other st =
      if ltb st.slots limit
      then some (record st { slots = suc st.slots; others = suc st.others })
      else none
  step release_other st = elim st.others [
    | zero ↦ none
    | suc n ↦ some (record st { slots = free_permit st; others = n })
  ]

  unfoldable pub run_events : List Event → State → Option State
  unfolding step
  run_events [] st = some st
  run_events (e ∷ es) st = elim (step e st) [ none ↦ none | some st' ↦ run_events es st' ]

unfoldable pub pending_all : List BindingSpec → List Status
pending_all [] = []
pending_all (m ∷ ms) = pending ∷ pending_all ms

-- The group's state before its loop, with what other groups hold.
unfoldable pub start : List BindingSpec → ℕ → State
unfolding pending_all
start members others = record {
  phase = scanning;
  status = pending_all members;
  cancelled = none;
  observed = [];
  slots = others;
  others = others;
}
