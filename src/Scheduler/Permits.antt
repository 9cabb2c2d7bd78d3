-- ===== src/Scheduler/Permits.antt =====
-- resolution_scheduler.go: the count of the permits in use.
use bindly.Prelude.{
  ℕ, zero, suc, ◌+◌, ◌≤◌, ◌≡◌, ◌∙◌, refl, true, false, Option, none, some, List, [], ◌∷◌, length,
  get_elem?, set, arith, inl, inr, Option-cases,
}
use mathlib.Core.Path.{subst}
use bindly.Errors.{Error}
use bindly.Spec.{BindingSpec}
use bindly.Scheduler.{
  ResolutionOutcome, Status, pending, running, returned, completed, Phase, scanning, selecting,
  draining, finished, State, observe_outcome, scan_member, scan, after_scan, examine, judge,
  path_of, prerequisites, Verdict, ready, wait, skip, skipped,
}
use bindly.Scheduler.Steps.{
  Event, look, admit, receive, done, joined, finish, suspend, resume, cancel, acquire_other,
  release_other, step, run_events, start, pending_all, receive_member, admit_member, finish_member,
  suspend_member, resume_member, look_members,
}
use bindly.Scheduler.Readiness.{IsReady}
use bindly.Scheduler.Readiness.Run.{IsGood, phase_found, step-IsGood, start-IsGood}

-- How many permits a member's worker holds.
abbrev pub permits_of : Status → ℕ
permits_of (running true) = 1
permits_of _ = 0

unfoldable pub held : List Status → ℕ
held [] = 0
held (s ∷ ss) = permits_of s + held ss

held-set :
    (status : List Status) (i : ℕ) (s v : Status)
    → get_elem? status i ≡ some s
    → held (set status i v) + permits_of s ≡ held status + permits_of v
unfolding held
held-set [] i s v g = cc
held-set (x ∷ xs) zero s v g = ground arith
held-set (x ∷ xs) (suc i) s v g = ground (arith, held-set xs i s v g)

held-none : (ms : List BindingSpec) → held (pending_all ms) ≡ 0
unfolding held pending_all
held-none [] = refl
held-none (m ∷ ms) = omega (arith, held-none ms)

-- The permits add up, and there are at most `limit`.
abbrev pub IsBalanced : ℕ → State → Type 0
IsBalanced limit st = (st.slots ≡ st.others + held st.status) × (st.slots ≤ limit)

module _ (members : List BindingSpec)
    (observe : List ResolutionOutcome → ResolutionOutcome → Option Error) where
  -- A scan takes and gives back no permit.
  abbrev Same : State → State → Type 0
  Same st st' =
      (held st'.status ≡ held st.status) × (st'.slots ≡ st.slots) × (st'.others ≡ st.others)

  pending-Same :
      (i : ℕ) (found : Option ℕ) (st : State) (v : Verdict)
      → get_elem? st.status i ≡ some pending
      → judge st.cancelled
          (examine members st.status (path_of members i) false (prerequisites members i))
        ≡ v
      → Same st (scan_member members observe i found st).1
  unfolding scan_member observe_outcome
  pending-Same i found st (skip cause) g e =
      let r = (observe_outcome members observe st (skipped (path_of members i) cause)).0 in
      (ground (arith, held-set st.status i pending (completed r) g), ground arith, ground arith)
  pending-Same i found st wait g e = (ground arith, ground arith, ground arith)
  pending-Same i found st ready g e = (ground arith, ground arith, ground arith)

  status-Same :
      (i : ℕ) (found : Option ℕ) (st : State) (s : Status)
      → get_elem? st.status i ≡ some s
      → Same st (scan_member members observe i found st).1
  unfolding scan_member
  status-Same i found st pending g = pending-Same i found st _ g refl
  status-Same i found st (running b) g = (ground arith, ground arith, ground arith)
  status-Same i found st (returned r) g = (ground arith, ground arith, ground arith)
  status-Same i found st (completed r) g = (ground arith, ground arith, ground arith)

  scan_member-Same :
      (i : ℕ) (found : Option ℕ) (st : State) → Same st (scan_member members observe i found st).1
  unfolding scan_member
  scan_member-Same i found st = elim (Option-cases (get_elem? st.status i)) [
    | inl n ↦ (ground arith, ground arith, ground arith)
    | inr (s, e) ↦ status-Same i found st s e
  ]

  scan-Same :
      (count i : ℕ) (found : Option ℕ) (st : State)
      → Same st (scan members observe i count found st).1
  unfolding scan
  scan-Same zero i found st = (refl, refl, refl)
  scan-Same (suc count) i found st =
      let r = scan_member members observe i found st in
      let (a, b, c) = scan_member-Same i found st in
      let (a', b', c') = scan-Same count (suc i) r.0 r.1 in (a' ∙ a, b' ∙ b, c' ∙ c)

module _ (limit : ℕ) (members : List BindingSpec)
    (observe : List ResolutionOutcome → ResolutionOutcome → Option Error) where
  look-IsBalanced :
      (ph : Phase) (st st' : State)
      → st.phase ≡ ph
      → look_members limit members observe st ≡ some st'
      → IsBalanced limit st
      → IsBalanced limit st'
  unfolding look_members after_scan
  look-IsBalanced scanning st st' e h (sum, bound) =
      let (a, b, c) = scan-Same members observe (length members) 0 none st in
      let sum' : st'.slots ≡ st'.others + held st'.status = ground (arith, a, b, c) in
      (sum', ground (arith, b))
  look-IsBalanced (selecting f) st st' e h balanced = ground arith
  look-IsBalanced draining st st' e h balanced = ground arith
  look-IsBalanced finished st st' e h balanced = ground arith

  admit-IsBalanced :
      (ph : Phase) (st st' : State)
      → st.phase ≡ ph
      → admit_member limit members observe st ≡ some st'
      → IsReady members st.status (phase_found ph)
      → IsBalanced limit st
      → IsBalanced limit st'
  unfolding admit_member
  admit-IsBalanced (selecting (some i)) st st' e h (p, t) (sum, bound) =
      (ground (arith, held-set st.status i pending (running true) p), ground arith)
  admit-IsBalanced (selecting none) st st' e h r balanced = ground arith
  admit-IsBalanced scanning st st' e h r balanced = ground arith
  admit-IsBalanced draining st st' e h r balanced = ground arith
  admit-IsBalanced finished st st' e h r balanced = ground arith

  receive_status-IsBalanced :
      (i : ℕ) (st st' : State) (s : Status)
      → get_elem? st.status i ≡ some s
      → receive_member i st ≡ some st'
      → IsBalanced limit st
      → IsBalanced limit st'
  unfolding receive_member
  receive_status-IsBalanced i st st' pending g h balanced = ground arith
  receive_status-IsBalanced i st st' (running true) g h balanced = ground arith
  receive_status-IsBalanced i st st' (running false) g h balanced = ground arith
  receive_status-IsBalanced i st st' (returned r) g h (sum, bound) = (
    ground (arith, held-set st.status i (returned r) (completed r) g),
    ground (arith, held-set st.status i (returned r) (completed r) g),
  )
  receive_status-IsBalanced i st st' (completed r) g h balanced = ground arith

  receive-IsBalanced :
      (i : ℕ) (st st' : State)
      → receive_member i st ≡ some st'
      → IsBalanced limit st
      → IsBalanced limit st'
  unfolding receive_member
  receive-IsBalanced i st st' h balanced = elim (Option-cases (get_elem? st.status i)) [
    | inl n ↦ ground arith
    | inr (s, e) ↦ receive_status-IsBalanced i st st' s e h balanced
  ]

  finish_status-IsBalanced :
      (i : ℕ) (o : ResolutionOutcome) (st st' : State) (s : Status)
      → get_elem? st.status i ≡ some s
      → finish_member limit members observe i o st ≡ some st'
      → IsBalanced limit st
      → IsBalanced limit st'
  unfolding finish_member observe_outcome
  finish_status-IsBalanced i o st st' pending g h balanced = ground arith
  finish_status-IsBalanced i o st st' (running true) g h (sum, bound) = (
    ground (
      arith,
      held-set st.status i (running true) (returned (observe_outcome members observe st o).0) g,
    ),
    ground (
      arith,
      held-set st.status i (running true) (returned (observe_outcome members observe st o).0) g,
    ),
  )
  finish_status-IsBalanced i o st st' (running false) g h (sum, bound) = (
    ground (
      arith,
      held-set st.status i (running false) (returned (observe_outcome members observe st o).0) g,
    ),
    ground (
      arith,
      held-set st.status i (running false) (returned (observe_outcome members observe st o).0) g,
    ),
  )
  finish_status-IsBalanced i o st st' (returned r) g h balanced = ground arith
  finish_status-IsBalanced i o st st' (completed r) g h balanced = ground arith

  finish-IsBalanced :
      (i : ℕ) (o : ResolutionOutcome) (st st' : State)
      → finish_member limit members observe i o st ≡ some st'
      → IsBalanced limit st
      → IsBalanced limit st'
  unfolding finish_member
  finish-IsBalanced i o st st' h balanced = elim (Option-cases (get_elem? st.status i)) [
    | inl n ↦ ground arith
    | inr (s, e) ↦ finish_status-IsBalanced i o st st' s e h balanced
  ]

  suspend_status-IsBalanced :
      (i : ℕ) (st st' : State) (s : Status)
      → get_elem? st.status i ≡ some s
      → suspend_member limit members observe i st ≡ some st'
      → IsBalanced limit st
      → IsBalanced limit st'
  unfolding suspend_member
  suspend_status-IsBalanced i st st' pending g h balanced = ground arith
  suspend_status-IsBalanced i st st' (running true) g h (sum, bound) = (
    ground (arith, held-set st.status i (running true) (running false) g),
    ground (arith, held-set st.status i (running true) (running false) g),
  )
  suspend_status-IsBalanced i st st' (running false) g h balanced = ground arith
  suspend_status-IsBalanced i st st' (returned r) g h balanced = ground arith
  suspend_status-IsBalanced i st st' (completed r) g h balanced = ground arith

  suspend-IsBalanced :
      (i : ℕ) (st st' : State)
      → suspend_member limit members observe i st ≡ some st'
      → IsBalanced limit st
      → IsBalanced limit st'
  unfolding suspend_member
  suspend-IsBalanced i st st' h balanced = elim (Option-cases (get_elem? st.status i)) [
    | inl n ↦ ground arith
    | inr (s, e) ↦ suspend_status-IsBalanced i st st' s e h balanced
  ]

  resume_status-IsBalanced :
      (i : ℕ) (st st' : State) (s : Status)
      → get_elem? st.status i ≡ some s
      → resume_member limit members observe i st ≡ some st'
      → IsBalanced limit st
      → IsBalanced limit st'
  unfolding resume_member
  resume_status-IsBalanced i st st' pending g h balanced = ground arith
  resume_status-IsBalanced i st st' (running true) g h balanced = ground arith
  resume_status-IsBalanced i st st' (running false) g h (sum, bound) = (
    ground (arith, held-set st.status i (running false) (running true) g),
    ground (arith, held-set st.status i (running false) (running true) g),
  )
  resume_status-IsBalanced i st st' (returned r) g h balanced = ground arith
  resume_status-IsBalanced i st st' (completed r) g h balanced = ground arith

  resume-IsBalanced :
      (i : ℕ) (st st' : State)
      → resume_member limit members observe i st ≡ some st'
      → IsBalanced limit st
      → IsBalanced limit st'
  unfolding resume_member
  resume-IsBalanced i st st' h balanced = elim (Option-cases (get_elem? st.status i)) [
    | inl n ↦ ground arith
    | inr (s, e) ↦ resume_status-IsBalanced i st st' s e h balanced
  ]

  step-IsBalanced :
      (event : Event) (st st' : State)
      → step limit members observe event st ≡ some st'
      → IsGood members st
      → IsBalanced limit st
      → IsBalanced limit st'
  unfolding step
  step-IsBalanced look st st' h good balanced = look-IsBalanced st.phase st st' refl h balanced
  step-IsBalanced admit st st' h good balanced =
      admit-IsBalanced st.phase st st' refl h good.1 balanced
  step-IsBalanced (receive i) st st' h good balanced =
      receive-IsBalanced i st st' (ground arith) balanced
  step-IsBalanced done st st' h good (sum, bound) = (ground arith, ground arith)
  step-IsBalanced joined st st' h good (sum, bound) = (ground arith, ground arith)
  step-IsBalanced (finish i o) st st' h good balanced = finish-IsBalanced i o st st' h balanced
  step-IsBalanced (suspend i) st st' h good balanced = suspend-IsBalanced i st st' h balanced
  step-IsBalanced (resume i) st st' h good balanced = resume-IsBalanced i st st' h balanced
  step-IsBalanced (cancel e) st st' h good (sum, bound) = (ground arith, ground arith)
  step-IsBalanced acquire_other st st' h good (sum, bound) = (ground arith, ground arith)
  step-IsBalanced release_other st st' h good (sum, bound) = (ground arith, ground arith)

  run_events-IsBalanced_from :
      (events : List Event) (st st' : State)
      → run_events limit members observe events st ≡ some st'
      → IsGood members st
      → IsBalanced limit st
      → IsBalanced limit st'
  unfolding run_events
  run_events-IsBalanced_from [] st st' h good balanced =
      let same : st ≡ st' = cc in subst (IsBalanced limit) same balanced
  run_events-IsBalanced_from (e ∷ events) st st' h good balanced =
      elim (Option-cases (step limit members observe e st)) [
        | inl n ↦ ground arith
        | inr (next, f) ↦
            run_events-IsBalanced_from events next st' (ground arith)
              (step-IsGood limit members observe e st next f good)
              (step-IsBalanced e st next f good balanced)
      ]

  -- Along any interleaving of events of a group, from its start with at most `limit` permits held
  -- by other groups, the permits in use are those of the other groups and of the running members
  -- that are not suspended, and they never exceed `limit`.
  pub run_events-IsBalanced :
      (others : ℕ) (events : List Event) (st : State)
      → others ≤ limit
      → run_events limit members observe events (start members others) ≡ some st
      → IsBalanced limit st
  unfolding start
  run_events-IsBalanced others events st bound h =
      run_events-IsBalanced_from events (start members others) st h
        (start-IsGood limit members observe others) (omega (arith, held-none members), bound)
