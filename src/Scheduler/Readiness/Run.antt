-- ===== src/Scheduler/Readiness/Run.antt =====
-- resolution_dependencies.go: the prerequisites of members along interleavings of events.
use bindly.Prelude.{
  ℕ, zero, suc, ◌≡◌, ◌≢◌, sym, refl, Bool, true, false, Option, none, some, List, [], ◌∷◌, is_some,
  length, if◌then◌else◌, get_elem?, set, arith, inl, inr, ◌⊎◌, Bool-cases, Option-cases,
}
use mathlib.Core.Path.{subst}
use bindly.Errors.{Error}
use bindly.Spec.{BindingSpec}
use bindly.Scheduler.{
  ResolutionOutcome, Status, pending, running, returned, completed, Phase, scanning, selecting,
  draining, finished, State, observe_outcome, scan, after_scan, count_completed,
}
use bindly.Scheduler.Steps.{
  Event, look, admit, receive, done, joined, finish, suspend, resume, cancel, acquire_other,
  release_other, step, run_events, start, pending_all, receive_member, admit_member, finish_member,
  suspend_member, resume_member, look_members,
}
use bindly.Scheduler.Readiness.{
  IsSettled, IsReady, IsSettled-set, IsReady-set, is_success, is_started,
}
use bindly.Scheduler.Readiness.Scan.{Prepared, scan-Prepared}

abbrev pub phase_found : Phase → Option ℕ
phase_found (selecting found) = found
phase_found _ = none

abbrev pub IsGood : List BindingSpec → State → Type 0
IsGood members st = Prepared members (phase_found st.phase, st)

-- Members that are not pending are not the one found ready.
found-ne :
    (members : List BindingSpec) (status : List Status) (i : ℕ) (s : Status) (found : Option ℕ)
    → get_elem? status i ≡ some s
    → s ≢ pending
    → IsReady members status found
    → found ≢ some i
found-ne members status i s none g n r e = cc
found-ne members status i s (some k) g n (p, t) e = n (ground arith)

pending_all-unstarted :
    (ms : List BindingSpec) (i : ℕ) → is_started (get_elem? (pending_all ms) i) ≢ true
unfolding pending_all
pending_all-unstarted [] i t = cc
pending_all-unstarted (m ∷ ms) zero t = cc
pending_all-unstarted (m ∷ ms) (suc i) t = pending_all-unstarted ms i t

module _ (members : List BindingSpec) where
  -- A started member's status changes.
  IsGood-started :
      (status : List Status) (i : ℕ) (s v : Status) (found : Option ℕ)
      → get_elem? status i ≡ some s
      → s ≢ pending
      → is_success (some s) ≡ false
      → is_started (some s) ≡ true
      → IsSettled members status
      → IsReady members status found
      → IsSettled members (set status i v) × IsReady members (set status i v) found
  IsGood-started status i s v found g n f started sound r = (
    IsSettled-set members status i s v g f (λ t. sound i (ground (arith, g, started))) sound,
    IsReady-set members status i s v found g f (found-ne members status i s found g n r) r,
  )

  moved :
      (st' : State) (status : List Status) (found : Option ℕ)
      → st'.status ≡ status
      → (phase_found st'.phase ≡ found) ⊎ (phase_found st'.phase ≡ none)
      → IsSettled members status
      → IsReady members status found
      → IsGood members st'
  moved st' status found e p sound r = (
    subst (IsSettled members) (sym e) sound,
    elim p [
      | inl q ↦
          subst (λ x. IsReady members x (phase_found st'.phase)) (sym e)
            (subst (IsReady members status) (sym q) r)
      | inr q ↦ subst (IsReady members st'.status) (sym q) tt
    ],
  )

  -- The same, in a state whose loop waits for the same member or for none.
  write-IsGood :
      (i : ℕ) (s v : Status) (st st' : State)
      → get_elem? st.status i ≡ some s
      → s ≢ pending
      → is_success (some s) ≡ false
      → is_started (some s) ≡ true
      → st'.status ≡ set st.status i v
      → (phase_found st'.phase ≡ phase_found st.phase) ⊎ (phase_found st'.phase ≡ none)
      → IsGood members st
      → IsGood members st'
  write-IsGood i s v st st' g n f started e p (sound, r) =
      let (sound', r') =
        IsGood-started st.status i s v (phase_found st.phase) g n f started sound r in
      moved st' (set st.status i v) (phase_found st.phase) e p sound' r'

  next-IsGood :
      (over again : Bool) (found : Option ℕ) (st : State)
      → Prepared members (found, st)
      → IsGood members (
          if over
          then record st { phase = finished }
          else if again
          then record st { phase = scanning }
          else record st { phase = selecting found })
  next-IsGood true again found st (sound, r) = (sound, tt)
  next-IsGood false true found st (sound, r) = (sound, tt)
  next-IsGood false false found st (sound, r) = (sound, r)

module _ (limit : ℕ) (members : List BindingSpec)
    (observe : List ResolutionOutcome → ResolutionOutcome → Option Error) where
  after_scan-IsGood :
      (before : ℕ) (found : Option ℕ) (st : State)
      → Prepared members (found, st)
      → IsGood members (after_scan members observe before found st)
  unfolding after_scan
  after_scan-IsGood before found st p = next-IsGood members _ _ found st p

  look-IsGood :
      (ph : Phase) (st st' : State)
      → st.phase ≡ ph
      → look_members limit members observe st ≡ some st'
      → IsGood members st
      → IsGood members st'
  unfolding look_members
  look-IsGood scanning st st' e h (sound, r) =
      let same : after_scan members observe (count_completed members observe st.status)
            (scan members observe 0 (length members) none st).0
            (scan members observe 0 (length members) none st).1
          ≡ st' =
        ground arith in
      subst (IsGood members) same (
        after_scan-IsGood _ _ _
          (scan-Prepared members observe (length members) 0 none st tt (sound, tt)))
  look-IsGood (selecting f) st st' e h good = ground arith
  look-IsGood draining st st' e h good = ground arith
  look-IsGood finished st st' e h good = ground arith

  admit-IsGood :
      (ph : Phase) (st st' : State)
      → st.phase ≡ ph
      → admit_member limit members observe st ≡ some st'
      → IsGood members st
      → IsGood members st'
  unfolding admit_member
  admit-IsGood (selecting (some i)) st st' e h (sound, r) =
      let (p, t) = subst (λ x. IsReady members st.status (phase_found x)) e r in
      elim (Bool-cases (is_some st.cancelled)) [
        | inl c ↦
            let same : record st { phase = scanning } ≡ st' = ground arith in
            subst (IsGood members) same (sound, tt)
        | inr c ↦
            let same : record st {
              phase = scanning;
              status = set st.status i (running true);
              slots = suc st.slots;
            }
                ≡ st' =
              ground arith in
            subst (IsGood members) same
              (IsSettled-set members st.status i pending (running true) p refl (λ u. t) sound, tt)
      ]
  admit-IsGood (selecting none) st st' e h good = ground arith
  admit-IsGood scanning st st' e h good = ground arith
  admit-IsGood draining st st' e h good = ground arith
  admit-IsGood finished st st' e h good = ground arith

  receive-IsGood :
      (i : ℕ) (st st' : State)
      → receive_member i st ≡ some st'
      → IsGood members st
      → IsGood members st'
  unfolding receive_member
  receive-IsGood i st st' h good = elim (Option-cases (get_elem? st.status i)) [
    | inl n ↦ ground arith
    | inr (s, e) ↦ receive_status s e
  ]
    where
      receive_status : (s : Status) → get_elem? st.status i ≡ some s → IsGood members st'
      receive_status (returned r) e =
          write-IsGood members i (returned r) (completed r) st st' e (λ x. cc) refl refl
            (ground arith) (inr (ground arith)) good
      receive_status pending e = ground arith
      receive_status (running b) e = ground arith
      receive_status (completed r) e = ground arith

  finish-IsGood :
      (i : ℕ) (o : ResolutionOutcome) (st st' : State)
      → finish_member limit members observe i o st ≡ some st'
      → IsGood members st
      → IsGood members st'
  unfolding finish_member observe_outcome
  finish-IsGood i o st st' h good = elim (Option-cases (get_elem? st.status i)) [
    | inl n ↦ ground arith
    | inr (s, e) ↦ finish_status s e
  ]
    where
      finish_status : (s : Status) → get_elem? st.status i ≡ some s → IsGood members st'
      finish_status (running b) e =
          write-IsGood members i (running b) (returned (observe_outcome members observe st o).0) st
            st' e (λ x. cc) refl refl (ground arith) (inl (ground arith)) good
      finish_status pending e = ground arith
      finish_status (returned b) e = ground arith
      finish_status (completed r) e = ground arith

  suspend-IsGood :
      (i : ℕ) (st st' : State)
      → suspend_member limit members observe i st ≡ some st'
      → IsGood members st
      → IsGood members st'
  unfolding suspend_member
  suspend-IsGood i st st' h good = elim (Option-cases (get_elem? st.status i)) [
    | inl n ↦ ground arith
    | inr (s, e) ↦ suspend_status s e
  ]
    where
      suspend_status : (s : Status) → get_elem? st.status i ≡ some s → IsGood members st'
      suspend_status (running true) e =
          write-IsGood members i (running true) (running false) st st' e (λ x. cc) refl refl
            (ground arith) (inl (ground arith)) good
      suspend_status pending e = ground arith
      suspend_status (running false) e = ground arith
      suspend_status (returned b) e = ground arith
      suspend_status (completed r) e = ground arith

  resume-IsGood :
      (i : ℕ) (st st' : State)
      → resume_member limit members observe i st ≡ some st'
      → IsGood members st
      → IsGood members st'
  unfolding resume_member
  resume-IsGood i st st' h good = elim (Option-cases (get_elem? st.status i)) [
    | inl n ↦ ground arith
    | inr (s, e) ↦ resume_status s e
  ]
    where
      resume_status : (s : Status) → get_elem? st.status i ≡ some s → IsGood members st'
      resume_status (running false) e =
          write-IsGood members i (running false) (running true) st st' e (λ x. cc) refl refl
            (ground arith) (inl (ground arith)) good
      resume_status pending e = ground arith
      resume_status (running true) e = ground arith
      resume_status (returned b) e = ground arith
      resume_status (completed r) e = ground arith

  same-IsGood :
      (st st' : State)
      → st'.status ≡ st.status
      → (phase_found st'.phase ≡ phase_found st.phase) ⊎ (phase_found st'.phase ≡ none)
      → IsGood members st
      → IsGood members st'
  same-IsGood st st' e p (sound, r) = moved members st' st.status (phase_found st.phase) e p sound r

  pub step-IsGood :
      (event : Event) (st st' : State)
      → step limit members observe event st ≡ some st'
      → IsGood members st
      → IsGood members st'
  unfolding step
  step-IsGood look st st' h good = look-IsGood st.phase st st' refl h good
  step-IsGood admit st st' h good = admit-IsGood st.phase st st' refl h good
  step-IsGood (receive i) st st' h good = receive-IsGood i st st' (ground arith) good
  step-IsGood done st st' h good = same-IsGood st st' (ground arith) (inr (ground arith)) good
  step-IsGood joined st st' h good = same-IsGood st st' (ground arith) (inr (ground arith)) good
  step-IsGood (finish i o) st st' h good = finish-IsGood i o st st' h good
  step-IsGood (suspend i) st st' h good = suspend-IsGood i st st' h good
  step-IsGood (resume i) st st' h good = resume-IsGood i st st' h good
  step-IsGood (cancel e) st st' h good = same-IsGood st st' (ground arith) (inl (ground arith)) good
  step-IsGood acquire_other st st' h good =
      same-IsGood st st' (ground arith) (inl (ground arith)) good
  step-IsGood release_other st st' h good =
      same-IsGood st st' (ground arith) (inl (ground arith)) good

  pub run_events-IsGood :
      (events : List Event) (st st' : State)
      → run_events limit members observe events st ≡ some st'
      → IsGood members st
      → IsGood members st'
  unfolding run_events
  run_events-IsGood [] st st' h good = let same : st ≡ st' = cc in subst (IsGood members) same good
  run_events-IsGood (e ∷ events) st st' h good =
      elim (Option-cases (step limit members observe e st)) [
        | inl n ↦ ground arith
        | inr (next, f) ↦
            run_events-IsGood events next st' (ground arith) (step-IsGood e st next f good)
      ]

  pub start-IsGood : (others : ℕ) → IsGood members (start members others)
  unfolding start
  start-IsGood others = ((λ i t. absurd (pending_all-unstarted members i t)), tt)

  -- Along any interleaving of events of a group, from its start, every member that is running,
  -- has returned or has attempted its binding has only prerequisites that succeeded.
  pub run_events-IsSettled :
      (others : ℕ) (events : List Event) (st : State)
      → run_events limit members observe events (start members others) ≡ some st
      → IsSettled members st.status
  run_events-IsSettled others events st h =
      (run_events-IsGood events (start members others) st h (start-IsGood others)).0
