-- ===== src/Scheduler/Progress.antt =====
-- resolution_dependencies.go: what a scan does when no member is running.
use bindly.Prelude.{
  ℕ, zero, suc, ◌+◌, ◌≤◌, ◌<◌, ◌≡◌, ◌≢◌, ◌∙◌, sym, ap, refl, ◌⊎◌, inl, inr, true, false, String,
  Option, none, some, List, [], ◌∷◌, is_some, nat_eq, nat_eq_iff, length, get_elem?, set, arith,
  Bool-cases, Option-cases, if◌then◌else◌, get_elem?-set_ne,
}
use mathlib.Core.List.{Memᴰ}
use mathlib.Core.Path.{subst}
use bindly.Errors.{Error}
use bindly.Spec.{BindingSpec}
use bindly.Scheduler.{
  ResolutionOutcome, DependencyResult, Status, pending, running, returned, completed, Phase,
  selecting, scanning, draining, finished, Verdict, ready, wait, skip, State, member_index,
  prerequisites, examine, failure_of, judge, observe_outcome, scan_member, scan, after_scan,
  count_completed, path_of, skipped,
}
use bindly.Scheduler.Steps.{any_running, is_running, look_members}
use bindly.Scheduler.Readiness.{get_elem?-length}

-- The prerequisites of every member come before it in some numbering, and are members.
abbrev pub IsRanked : List BindingSpec → (ℕ → ℕ) → Type 0
IsRanked members rank =
    (i : ℕ) (name : String)
    → Memᴰ name (prerequisites members i)
    → (rank (member_index members name) < rank i) × (member_index members name < length members)

abbrev Done : List Status → ℕ → Type 0
Done status i = (r : DependencyResult) × (get_elem? status i ≡ some (completed r))

-- A pending member and those that have completed.
abbrev Unblocked : List BindingSpec → List Status → ℕ → Type 0
Unblocked members status i =
    (get_elem? status i ≡ some pending)
    × ((name : String)
        → Memᴰ name (prerequisites members i)
        → Done status (member_index members name))

still :
    (status : List Status) (i : ℕ)
    → any_running status ≡ false
    → i < length status
    → (get_elem? status i ≡ some pending) ⊎ Done status i
unfolding any_running is_running
still [] i h b = absurd (omega arith)
still (pending ∷ ss) zero h b = inl refl
still (completed r ∷ ss) zero h b = inr (r, refl)
still (running held ∷ ss) zero h b = cc
still (returned r ∷ ss) zero h b = cc
still (s ∷ ss) (suc i) h b = elim (Bool-cases (is_running s)) [
  | inl t ↦ ground arith
  | inr f ↦ still ss i (ground arith) (omega arith)
]

module _ (members : List BindingSpec) (rank : ℕ → ℕ) (ranked : IsRanked members rank)
    (status : List Status) (same : length status ≡ length members)
    (idle : any_running status ≡ false) where
  -- Among some prerequisites, one that is pending, if not all have completed.
  blocked :
      (names : List String)
      → ((name : String) → Memᴰ name names → member_index members name < length members)
      → ((name : String) → Memᴰ name names → Done status (member_index members name))
        ⊎ ((name : String) × Memᴰ name names
            × (get_elem? status (member_index members name) ≡ some pending))
  blocked [] within = inl (λ name m. elim m [ ])
  blocked (name ∷ names) within =
      elim (still status (member_index members name) idle
        (omega (arith, within name (Memᴰ.head refl), same))) [
          | inl waiting ↦ inr (name, Memᴰ.head refl, waiting)
          | inr done ↦ elim (blocked names (λ n m. within n (Memᴰ.tail m))) [
            | inr (n, m, waiting) ↦ inr (n, Memᴰ.tail m, waiting)
            | inl all ↦ inl (λ n m. elim m [
              | Memᴰ.head e ↦ subst (λ k. Done status (member_index members k)) (sym e) done
              | Memᴰ.tail k ↦ all n k
            ])
          ]
        ]

  -- Below a pending member there is one whose prerequisites have all completed.
  unblocked :
      (bound i : ℕ)
      → rank i < bound
      → get_elem? status i ≡ some pending
      → (j : ℕ) × Unblocked members status j
  unblocked zero i b p = absurd (omega arith)
  unblocked (suc bound) i b p = elim (blocked (prerequisites members i) (λ n m. (ranked i n m).1)) [
    | inl all ↦ (i, (p, all))
    | inr (name, m, waiting) ↦
        unblocked bound (member_index members name) (omega (arith, (ranked i name m).0, b)) waiting
  ]

examine-wait :
    (members : List BindingSpec) (status : List Status) (path : String) (names : List String)
    → ((name : String) → Memᴰ name names → Done status (member_index members name))
    → examine members status path false names ≢ wait
unfolding examine
examine-wait members status path [] done h = cc
examine-wait members status path (name ∷ names) done h =
    let (r, there) = done name (Memᴰ.head refl) in
    let rest = examine-wait members status path names (λ n m. done n (Memᴰ.tail m)) in
    elim (Option-cases (failure_of r)) [
      | inl succeeded ↦ rest (ground arith)
      | inr (e, failed) ↦ ground arith
    ]

-- A write over a pending member keeps another one unblocked.
Unblocked-set :
    (members : List BindingSpec) (status : List Status) (i j : ℕ) (r : DependencyResult)
    → get_elem? status i ≡ some pending
    → i ≢ j
    → Unblocked members status j
    → Unblocked members (set status i (completed r)) j
Unblocked-set members status i j r here differ (p, done) = (
  get_elem?-set_ne status (completed r) differ ∙ p,
  λ name m.
      let (d, there) = done name m in
      (
        d,
        get_elem?-set_ne status (completed r) (λ e. ground (arith, ap (get_elem? status) e))
            ∙ there,
      ),
)

module _ (members : List BindingSpec)
    (observe : List ResolutionOutcome → ResolutionOutcome → Option Error) where
  -- What the scan does at one member.
  abbrev Looked : ℕ → Option ℕ → State → Option ℕ × State → Type 0
  Looked i found st r =
      ((r ≡ (found, st)) × (Unblocked members st.status i → true ≡ false))
      ⊎ ((r ≡ ((if is_some found then found else some i), st))
          ⊎ ((d : DependencyResult) × (get_elem? st.status i ≡ some pending)
              × (r.0 ≡ found)
              × (r.1.status ≡ set st.status i (completed d))))

  pending-Looked :
      (i : ℕ) (found : Option ℕ) (st : State) (v : Verdict)
      → get_elem? st.status i ≡ some pending
      → judge st.cancelled
          (examine members st.status (path_of members i) false (prerequisites members i))
        ≡ v
      → Looked i found st (scan_member members observe i found st)
  unfolding scan_member observe_outcome judge
  pending-Looked i found st (skip cause) p h = inr (
      inr (
        (observe_outcome members observe st (skipped (path_of members i) cause)).0,
        p,
        ground arith,
        ground arith,
      ))
  pending-Looked i found st ready p h = inr (inl (ground arith))
  pending-Looked i found st wait p h = inl (
    ground arith,
    λ free. absurd (
        examine-wait members st.status (path_of members i) (prerequisites members i) free.1
          (waits st.cancelled refl)),
  )
    where
      waits :
          (c : Option Error)
          → st.cancelled ≡ c
          → examine members st.status (path_of members i) false (prerequisites members i) ≡ wait
      waits none e = ground arith
      waits (some cause) e = ground arith

  scan_member-Looked :
      (i : ℕ) (found : Option ℕ) (st : State)
      → Looked i found st (scan_member members observe i found st)
  unfolding scan_member
  scan_member-Looked i found st = at_status (get_elem? st.status i) refl
    where
      at_status :
          (o : Option Status)
          → get_elem? st.status i ≡ o
          → Looked i found st (scan_member members observe i found st)
      at_status none e = inl (ground arith, λ free. ground (arith, free.0))
      at_status (some pending) e = pending-Looked i found st _ e refl
      at_status (some (running held)) e = inl (ground arith, λ free. ground (arith, free.0))
      at_status (some (returned r)) e = inl (ground arith, λ free. ground (arith, free.0))
      at_status (some (completed r)) e = inl (ground arith, λ free. ground (arith, free.0))

  abbrev count : List Status → ℕ
  count status = count_completed members observe status

  count-set :
      (status : List Status) (i : ℕ) (r : DependencyResult)
      → get_elem? status i ≡ some pending
      → count (set status i (completed r)) ≡ suc (count status)
  unfolding count_completed
  count-set [] i r h = cc
  count-set (s ∷ ss) zero r h = ground arith
  count-set (s ∷ ss) (suc i) r h = ground (arith, count-set ss i r h)

  -- A ready member stays found, and no completion is undone.
  abbrev Later : Option ℕ × State → Option ℕ × State → Type 0
  Later (found, st) (found', st') =
      (is_some found ≡ true → is_some found' ≡ true) × (count st.status ≤ count st'.status)

  scan_member-Later :
      (i : ℕ) (found : Option ℕ) (st : State)
      → Later (found, st) (scan_member members observe i found st)
  scan_member-Later i found st = elim (scan_member-Looked i found st) [
    | inl (same, blocked) ↦ (λ h. ground arith, ground arith)
    | inr (inl same) ↦ (λ h. ground arith, ground arith)
    | inr (inr (d, p, kept, written)) ↦
        (λ h. ground arith, ground (arith, count-set st.status i d p))
  ]

  scan-Later :
      (n i : ℕ) (found : Option ℕ) (st : State)
      → Later (found, st) (scan members observe i n found st)
  unfolding scan
  scan-Later zero i found st = (λ h. h, omega arith)
  scan-Later (suc n) i found st =
      let r = scan_member members observe i found st in
      let (f, c) = scan_member-Later i found st in
      let (f', c') = scan-Later n (suc i) r.0 r.1 in (λ h. f' (f h), omega (arith, c, c'))

  -- A member is found, or one more has completed.
  abbrev Moved : State → Option ℕ × State → Type 0
  Moved st (found, st') = (is_some found ≡ true) ⊎ (count st.status < count st'.status)

  -- What a member's scan leaves unblocked.
  still_free :
      (i j : ℕ) (found : Option ℕ) (st : State)
      → i ≢ j
      → Unblocked members st.status j
      → Unblocked members (scan_member members observe i found st).1.status j
  still_free i j found st differ free = elim (scan_member-Looked i found st) [
    | inl (kept, blocked) ↦
        subst (λ k. Unblocked members k j) (sym (ap (λ x. x.1.status) kept)) free
    | inr (inl chosen) ↦ subst (λ k. Unblocked members k j) (sym (ap (λ x. x.1.status) chosen)) free
    | inr (inr (d, p, kept, written)) ↦
        subst (λ k. Unblocked members k j) (sym written)
          (Unblocked-set members st.status i j d p differ free)
  ]

  Moved-later :
      (i : ℕ) (found : Option ℕ) (st : State) (last : Option ℕ × State)
      → Moved (scan_member members observe i found st).1 last
      → Moved st last
  Moved-later i found st last (inl some_found) = inl some_found
  Moved-later i found st last (inr more) =
      inr (omega (arith, (scan_member-Later i found st).1, more))

  scan-Moved :
      (n i j : ℕ) (found : Option ℕ) (st : State)
      → i ≤ j
      → j < i + n
      → Unblocked members st.status j
      → Moved st (scan members observe i n found st)
  unfolding scan
  scan-Moved zero i j found st low high free = absurd (omega arith)
  scan-Moved (suc n) i j found st low high free =
      let r = scan_member members observe i found st in
      let (f, c) = scan-Later n (suc i) r.0 r.1 in
      elim (Bool-cases (nat_eq i j)) [
        | inl here ↦ elim (scan_member-Looked i found st) [
          | inl (kept, blocked) ↦ absurd (
              ground (
                arith,
                blocked (subst (Unblocked members st.status) (sym ((nat_eq_iff i j).0 here)) free),
              ))
          | inr (inl chosen) ↦ inl (f (ground (arith, ap (λ x. is_some x.0) chosen)))
          | inr (inr (d, p, kept, written)) ↦
              inr (omega (arith, c, count-set st.status i d p, ap count written))
        ]
        | inr past ↦ Moved-later i found st (scan members observe (suc i) n r.0 r.1) (
            scan-Moved n (suc i) j r.0 r.1 (ground (arith, nat_eq_iff i j)) (omega arith)
              (still_free i j found st (λ e. ground (arith, nat_eq_iff i j)) free))
      ]

  pending_or_all :
      (status : List Status)
      → any_running status ≡ false
      → ((i : ℕ) × (get_elem? status i ≡ some pending)) ⊎ (count status ≡ length status)
  unfolding count_completed any_running is_running
  pending_or_all [] idle = inr refl
  pending_or_all (pending ∷ ss) idle = inl (0, refl)
  pending_or_all (completed r ∷ ss) idle = elim (pending_or_all ss (ground arith)) [
    | inl (i, p) ↦ inl (suc i, p)
    | inr all ↦ inr (ground arith)
  ]
  pending_or_all (running held ∷ ss) idle = cc
  pending_or_all (returned r ∷ ss) idle = cc

  -- When the loop goes to its `select` without a member to start.
  after_scan-stuck :
      (before : ℕ) (found : Option ℕ) (st : State)
      → (after_scan members observe before found st).phase ≡ selecting none
      → (found ≡ none) × (count st.status ≡ before) × (count st.status ≢ length members)
  unfolding after_scan
  after_scan-stuck before found st h =
      elim (Bool-cases (nat_eq (count st.status) (length members))) [
        | inl all ↦ absurd (ground arith)
        | inr unfinished ↦ elim (Bool-cases (nat_eq (count st.status) before)) [
          | inl same ↦ (
            ground arith,
            (nat_eq_iff (count st.status) before).0 same,
            λ e. ground (arith, nat_eq_iff (count st.status) (length members)),
          )
          | inr more ↦ elim (Bool-cases (is_some found)) [
            | inl some_found ↦ absurd (ground arith)
            | inr none_found ↦ absurd (ground arith)
          ]
        ]
      ]

  scan-progress :
      (rank : ℕ → ℕ) (st : State)
      → IsRanked members rank
      → length st.status ≡ length members
      → any_running st.status ≡ false
      → (after_scan members observe
          (count st.status)
          (scan members observe 0 (length members) none st).0
          (scan members observe 0 (length members) none st).1).phase
        ≢ selecting none
  scan-progress rank st ranked same idle h =
      let (missing, unchanged, unfinished) = after_scan-stuck (count st.status) _ _ h in
      elim (pending_or_all st.status idle) [
        | inr all ↦ unfinished (unchanged ∙ all ∙ same)
        | inl (i, p) ↦
            let (j, free) =
              unblocked members rank ranked st.status same idle (suc (rank i)) i (omega arith) p in
            elim (scan-Moved (length members) 0 j none st (omega arith)
              (omega (arith, get_elem?-length st.status j pending free.0, same)) free) [
                | inl found ↦ ground arith
                | inr more ↦ omega (arith, more, unchanged)
              ]
      ]

  -- If nothing runs and the prerequisites of the members can be numbered, a look at an unfinished
  -- group never leaves its loop waiting for a result: it ends the group, looks again after further
  -- completions, or has found a member to start.
  pub look_members-progress :
      (limit : ℕ) (rank : ℕ → ℕ) (st st' : State)
      → IsRanked members rank
      → length st.status ≡ length members
      → any_running st.status ≡ false
      → look_members limit members observe st ≡ some st'
      → st'.phase ≢ selecting none
  unfolding look_members
  look_members-progress limit rank st st' ranked same idle h stuck =
      ground (arith, at_phase st.phase refl)
    where
      at_phase : (ph : Phase) → st.phase ≡ ph → true ≡ false
      at_phase scanning e = absurd (scan-progress rank st ranked same idle (ground arith))
      at_phase (selecting found) e = ground arith
      at_phase draining e = ground arith
      at_phase finished e = ground arith
