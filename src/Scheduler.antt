-- ===== src/Scheduler.antt =====
-- resolution_dependencies.go and resolution_scheduler.go: a dependency group as a machine.
-- One event is one step of the group's loop, of a member's worker, or of somebody outside;
-- a list of events is an interleaving. A scan of the members is one event.
pub mod Steps
pub mod Readiness
pub mod Permits
pub mod Report
pub mod Member
pub mod Progress
use bindly.Prelude.{
  ℕ, zero, suc, ◌+◌, ◌-◌, String, Bool, true, false, not, ◌&&◌, ◌||◌, Option, none, some, List, [],
  ◌∷◌, ◌++◌, is_some, ltb, nat_eq, length, get_elem?, set, if◌then◌else◌,
}
use bindly.Prelude.Comparable.{string_comparable}
use bindly.Map
use bindly.Map.{Map}
use bindly.Reflect.{Value}
use bindly.Errors.{Error, BindingSite, join_optional}
use bindly.Spec.{BindingSpec}

-- resolution_group_controller.go
pub record ResolutionOutcome : Type 0 where
  pub attempted : Bool
  pub cause : Option Error
  pub terminal : Bool
  pub path : String
  pub failure : Option (BindingSite × Error)
  pub value : Option Value

-- dependencyResult: an outcome and what observing it returned.
pub record DependencyResult : Type 0 where
  pub outcome : ResolutionOutcome
  pub observe_err : Option Error

-- `status` and `results`: a running worker may hold its permit; a returned result waits in `done`.
pub data Status : Type 0 where
  pending : Status
  running : Bool → Status
  returned : DependencyResult → Status
  completed : DependencyResult → Status

-- Where the group's loop stands.
pub data Phase : Type 0 where
  scanning : Phase
  -- at the `select`, with the ready member, if one was found
  selecting : Option ℕ → Phase
  -- joining started work after a cancellation
  draining : Phase
  finished : Phase

pub record State : Type 0 where
  pub phase : Phase
  pub status : List Status
  -- context.Cause of the group's context
  pub cancelled : Option Error
  -- the outcomes given to the controller so far
  pub observed : List ResolutionOutcome
  -- permits in use: `len(scheduler.slots)`
  pub slots : ℕ
  -- how many of them other groups hold
  pub others : ℕ

-- What a look at a member's prerequisites says.
pub data Verdict : Type 0 where
  ready : Verdict
  wait : Verdict
  skip : Error → Verdict

-- `byPath`
unfoldable pub index_members : ℕ → Map String ℕ → List BindingSpec → Map String ℕ
index_members i by_path [] = by_path
index_members i by_path (m ∷ ms) = index_members (suc i) (Map.put by_path m.path i) ms

-- A path that is missing has index 0, as in Go.
unfoldable pub member_index : List BindingSpec → String → ℕ
unfolding index_members
member_index members path = elim (Map.get (index_members 0 Map.new members) path) [
  | some i ↦ i
  | none ↦ 0
]

unfoldable pub prerequisites : List BindingSpec → ℕ → List String
prerequisites members i = elim (get_elem? members i) [
  | none ↦ []
  | some m ↦ elim m.group [ some g ↦ g.depends_on | none ↦ [] ]
]

abbrev path_of : List BindingSpec → ℕ → String
path_of members i = elim (get_elem? members i) [ some m ↦ m.path | none ↦ "" ]

unfoldable pub failure_of : DependencyResult → Option Error
failure_of r = join_optional r.outcome.cause r.observe_err

-- The loop over a member's prerequisites, with `waiting`.
unfoldable pub examine : List BindingSpec → List Status → String → Bool → List String → Verdict
unfolding failure_of
examine members status path waiting [] = if waiting then wait else ready
examine members status path waiting (name ∷ names) =
    let unfinished = examine members status path true names in
    let finished = examine members status path waiting names in
    elim (get_elem? status (member_index members name)) [
      | some (completed r) ↦ elim (failure_of r) [
        | some cause ↦ skip (Error.prerequisite path name cause)
        | none ↦ finished
      ]
      | some other ↦ unfinished
      | none ↦ unfinished
    ]

-- A canceled group skips the member whatever its prerequisites say.
unfoldable pub judge : Option Error → Verdict → Verdict
judge (some cause) v = skip cause
judge none v = v

abbrev pub first_cause : Option Error → Option Error
first_cause none = some (Error.message "context canceled" [])
first_cause (some e) = some e

abbrev skipped : String → Error → ResolutionOutcome
skipped path cause = record {
  attempted = false;
  cause = some cause;
  terminal = false;
  path = path;
  failure = none;
  value = none;
}

-- The controller's Observe, given what it observed before; a panic in it is an error.
module _ (members : List BindingSpec)
    (observe : List ResolutionOutcome → ResolutionOutcome → Option Error) where
  -- The closure `observe`: the result, and the state after a possible cancellation.
  unfoldable pub observe_outcome : State → ResolutionOutcome → DependencyResult × State
  observe_outcome st o =
      let e = observe st.observed o in
      (
        record { outcome = o; observe_err = e },
        record st {
          observed = st.observed ++ o ∷ [];
          cancelled = if is_some e || o.terminal then first_cause st.cancelled else st.cancelled;
        },
      )

  -- One member in the scan.
  unfoldable pub scan_member : ℕ → Option ℕ → State → Option ℕ × State
  scan_member i found st = elim (get_elem? st.status i) [
    | some pending ↦
        elim (judge st.cancelled
          (examine members st.status (path_of members i) false (prerequisites members i))) [
            | skip cause ↦
                let (r, st') = observe_outcome st (skipped (path_of members i) cause) in
                (found, record st' { status = set st'.status i (completed r) })
            | wait ↦ (found, st)
            | ready ↦ (if is_some found then found else some i, st)
          ]
    | some other ↦ (found, st)
    | none ↦ (found, st)
  ]

  -- The `for` over the members from index i, `count` of them.
  unfoldable pub scan : ℕ → ℕ → Option ℕ → State → Option ℕ × State
  scan i zero found st = (found, st)
  scan i (suc count) found st =
      scan (suc i) count (scan_member i found st).0 (scan_member i found st).1

  abbrev pub is_completed : Status → Bool
  is_completed (completed r) = true
  is_completed _ = false

  unfoldable pub count_completed : List Status → ℕ
  count_completed [] = 0
  count_completed (s ∷ ss) = let n = count_completed ss in if is_completed s then suc n else n

  -- Where the loop goes after a scan: out, round again, or to the `select`.
  unfoldable pub after_scan : ℕ → Option ℕ → State → State
  unfolding count_completed
  after_scan before found st =
      if nat_eq (count_completed st.status) (length members)
      then record st { phase = finished }
      else if not (nat_eq (count_completed st.status) before) && not (is_some found)
      then record st { phase = scanning }
      else record st { phase = selecting found }
