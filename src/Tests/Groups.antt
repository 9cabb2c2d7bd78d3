-- ===== src/Tests/Groups.antt =====
-- Examples of resolution groups: a plan with two members, and an interleaving of their binding.
use bindly.Prelude.{
  ◌↔◌, All, ℕ, ◌≡◌, refl, String, true, false, Option, none, some, List, [], ◌∷◌, arith, zero, suc,
  ◌<◌, ◌≢◌,
}
use mathlib.Core.List.{Memᴰ}
use bindly.Prelude.Comparable.{string_comparable}
use mathlib.Core.Path.{subst, sym}
use bindly.Map
use bindly.Map.{Map}
use bindly.Reflect.{Value, text_type}
use bindly.Errors.{Error, ok}
use bindly.Spec.{BindingSpec, GroupSpec, dependencies}
use bindly.Groups.{
  GroupPlan, Index, index_bindings, canonical, group_of, check_barriers, check_prerequisites,
  same_names, check_group, join_group, form_groups, shares_prefix, overlaps_any, has_overlap,
  check_groups, any_grouped, compile_groups,
}
use bindly.Groups.Visit.{visit, visit_members}
use bindly.Groups.Compiled.{IsSound, compile_groups-IsSound}
use bindly.Resolve.{contains, remove}
use bindly.Scheduler.{
  ResolutionOutcome, DependencyResult, State, scanning, selecting, completed, running,
  observe_outcome, scan, scan_member, after_scan, count_completed, examine, failure_of, judge,
  prerequisites, member_index, index_members,
}
use bindly.Scheduler.Progress.{IsRanked, look_members-progress}
use bindly.Scheduler.Steps.{
  Event, any_running, is_running, look, admit, receive, finish, suspend, start, pending_all, step,
  look_members, admit_member, receive_member, finish_member, suspend_member, run_events,
}
use bindly.Scheduler.Readiness.{IsSettled}
use bindly.Scheduler.Readiness.Run.{run_events-IsSettled}
use bindly.Scheduler.Permits.{IsBalanced, run_events-IsBalanced}
use bindly.Scheduler.Report.{report}
use bindly.Scheduler.Report.Silence.{IsQuiet, IsEmpty, report_iff}
use bindly.Tests.{plain_binding}

abbrev group_with : List String → GroupSpec
group_with needed = record { name = "g"; mode = dependencies; after = []; depends_on = needed }

abbrev first_member : BindingSpec
first_member = record (plain_binding "A" "component") { group = some (group_with []) }

abbrev second_member : BindingSpec
second_member = record (plain_binding "B" "component") { group = some (group_with ("A" ∷ [])) }

abbrev members : List BindingSpec
members = first_member ∷ second_member ∷ []

abbrev fields : Map String (List ℕ)
fields = record { entries = ("A", 0 ∷ []) ∷ ("B", 1 ∷ []) ∷ [] }

abbrev index : Index
index = record {
  by_path = record { entries = ("B", second_member) ∷ ("A", first_member) ∷ [] };
  aliases = record { entries = ("B", "B") ∷ ("A", "A") ∷ [] };
}

abbrev plan : GroupPlan
plan = record { name = "g"; mode = dependencies; after = []; members = members }

compiles : compile_groups fields members ≡ some (ok (members, plan ∷ []))
unfolding compile_groups any_grouped index_bindings canonical group_of check_barriers
    check_prerequisites same_names check_group join_group form_groups shares_prefix overlaps_any
    has_overlap check_groups visit visit_members contains remove Map.new Map.put Map.get Map.exists
    Map.lookup Map.without Map.len
compiles = refl

compile_groups-IsSound_example : IsSound index fields plan
unfolding index_bindings Map.new Map.put Map.get Map.exists Map.lookup Map.without
compile_groups-IsSound_example =
    compile_groups-IsSound fields members members (plan ∷ []) index plan compiles refl
      (Memᴰ.head refl)

abbrev done_with : String → ResolutionOutcome
done_with path = record {
  attempted = true;
  cause = none;
  terminal = false;
  path = path;
  failure = none;
  value = some (Value.text text_type path);
}

abbrev content : List ResolutionOutcome → ResolutionOutcome → Option Error
content seen o = none

-- One permit: the second member starts after the first has finished, and is suspended.
abbrev events : List Event
events = look ∷ admit ∷ look ∷ finish 0 (done_with "A") ∷ receive 0 ∷ look ∷ admit ∷ suspend 1 ∷ []

abbrev reached : State
reached = record {
  phase = scanning;
  status = completed (record { outcome = done_with "A"; observe_err = none }) ∷ running false ∷ [];
  cancelled = none;
  observed = done_with "A" ∷ [];
  slots = 0;
  others = 0;
}

reaches : run_events 1 members content events (start members 0) ≡ some reached
unfolding run_events step start pending_all look_members admit_member receive_member finish_member
    suspend_member observe_outcome scan scan_member after_scan count_completed examine failure_of
    judge prerequisites member_index index_members Map.new Map.put Map.get Map.lookup Map.without
reaches = refl

run_events-IsSettled_example : IsSettled members reached.status
run_events-IsSettled_example = run_events-IsSettled 1 members content 0 events reached reaches

run_events-IsBalanced_example : IsBalanced 1 reached
run_events-IsBalanced_example =
    run_events-IsBalanced 1 members content 0 events reached (omega arith) reaches

abbrev no_cancellation : Option Error
no_cancellation = none

abbrev two_results : List DependencyResult
two_results =
    record { outcome = done_with "A"; observe_err = none }
    ∷ record {
      outcome = record (done_with "B") {
        attempted = false;
        cause = some (Error.prerequisite "B" "A" (Error.message "failed" []));
      };
      observe_err = none;
    }
    ∷ []

report_iff_example :
    IsEmpty (report 3 none two_results) ↔ (no_cancellation ≡ none) × All IsQuiet two_results
report_iff_example = report_iff 3 none two_results

members-IsRanked : IsRanked members (λ i. i)
unfolding prerequisites member_index index_members Map.new Map.put Map.get Map.lookup Map.without
members-IsRanked zero name m = elim m [ ]
members-IsRanked (suc zero) name m = elim m [
  | Memᴰ.head e ↦
      subst (λ k. (member_index members k < 1) × (member_index members k < 2)) (sym e)
        (omega arith, omega arith)
  | Memᴰ.tail k ↦ elim k [ ]
]
members-IsRanked (suc (suc i)) name m = elim m [ ]

abbrev looked : State
looked = record (start members 0) { phase = selecting (some 0) }

look_members-progress_example : looked.phase ≢ selecting none
unfolding start pending_all any_running is_running look_members scan scan_member after_scan
    count_completed examine judge prerequisites member_index index_members Map.new Map.put Map.get
    Map.lookup Map.without
look_members-progress_example =
    look_members-progress members content 1 (λ i. i) (start members 0) looked members-IsRanked refl
      refl refl
