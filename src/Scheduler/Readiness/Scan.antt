-- ===== src/Scheduler/Readiness/Scan.antt =====
-- resolution_dependencies.go: the prerequisites of members across a scan.
use bindly.Prelude.{
  ℕ, zero, suc, ◌<◌, ◌≡◌, ◌≢◌, ◌∙◌, sym, ap, refl, true, false, Option, none, some, List, is_some,
  if◌then◌else◌, ◌⊎◌, get_elem?, set, arith, inl, inr, Option-cases,
}
use mathlib.Core.Path.{subst}
use bindly.Errors.{Error}
use bindly.Spec.{BindingSpec}
use bindly.Scheduler.{
  ResolutionOutcome, DependencyResult, Status, pending, running, returned, completed, Verdict,
  ready, wait, skip, State, prerequisites, examine, judge, observe_outcome, scan_member, scan,
  path_of, skipped,
}
use bindly.Scheduler.Readiness.{
  settled, IsSettled, IsReady, IsSettled-set, IsReady-set, examine-settled,
}

abbrev Below : Option ℕ → ℕ → Type 0
Below none i = Unit
Below (some k) i = k < i

Below-suc : (found : Option ℕ) (i : ℕ) → Below found i → Below found (suc i)
Below-suc none i b = tt
Below-suc (some k) i b = omega arith

Below-ne : (found : Option ℕ) (i : ℕ) → Below found i → found ≢ some i
Below-ne none i b e = cc
Below-ne (some k) i b e = ground arith

judge-ready : (cancelled : Option Error) (v : Verdict) → judge cancelled v ≡ ready → v ≡ ready
unfolding judge
judge-ready none v e = e
judge-ready (some cause) v e = cc

pub pending_or_not : (s : Status) → (s ≡ pending) ⊎ (s ≢ pending)
pending_or_not pending = inl refl
pending_or_not (running held) = inr (λ e. cc)
pending_or_not (returned r) = inr (λ e. cc)
pending_or_not (completed r) = inr (λ e. cc)

abbrev pub Prepared : List BindingSpec → Option ℕ × State → Type 0
Prepared members (found, st) = IsSettled members st.status × IsReady members st.status found

module _ (members : List BindingSpec)
    (observe : List ResolutionOutcome → ResolutionOutcome → Option Error) where
  Prepared-skip :
      (i : ℕ) (found : Option ℕ) (st : State) (o : ResolutionOutcome) (r : DependencyResult)
      → get_elem? st.status i ≡ some pending
      → r.outcome.attempted ≡ false
      → Below found i
      → Prepared members (found, st)
      → Prepared members (found, record st { status = set st.status i (completed r) })
  Prepared-skip i found st o r g a b (sound, rd) = (
    IsSettled-set members st.status i pending (completed r) g refl (λ t. ground arith) sound,
    IsReady-set members st.status i pending (completed r) found g refl (Below-ne found i b) rd,
  )

  choose-Kept :
      (i : ℕ) (found : Option ℕ) (st : State)
      → get_elem? st.status i ≡ some pending
      → settled members st.status (prerequisites members i) ≡ true
      → Prepared members (found, st) × Below found (suc i)
      → Prepared members (if is_some found then found else some i, st)
        × Below (if is_some found then found else some i) (suc i)
  choose-Kept i none st g t ((sound, r), b) = ((sound, (g, t)), omega arith)
  choose-Kept i (some k) st g t kept = kept

  module _ (i : ℕ) (found : Option ℕ) (st : State) (b : Below found i)
      (p : Prepared members (found, st)) where
    abbrev Kept : Option ℕ × State → Type 0
    Kept r = Prepared members r × Below r.0 (suc i)

    abbrev verdict : Verdict
    verdict =
        judge st.cancelled
          (examine members st.status (path_of members i) false (prerequisites members i))

    same-Kept : Kept (found, st)
    same-Kept = (p, Below-suc found i b)

    pending-Kept :
        (v : Verdict)
        → get_elem? st.status i ≡ some pending
        → verdict ≡ v
        → Kept (scan_member members observe i found st)
    unfolding scan_member observe_outcome
    pending-Kept (skip cause) g e =
        let o = skipped (path_of members i) cause in
        let (r, st') = observe_outcome members observe st o in
        let same : scan_member members observe i found st
            ≡ (found, record st' { status = set st'.status i (completed r) }) =
          ground arith in
        subst Kept (sym same) (Prepared-skip i found st o r g refl b p, Below-suc found i b)
    pending-Kept wait g e =
        let same : scan_member members observe i found st ≡ (found, st) = ground arith in
        subst Kept (sym same) same-Kept
    pending-Kept ready g e =
        let same : scan_member members observe i found st
            ≡ (if is_some found then found else some i, st) =
          ground arith in
        let unblocked : examine members st.status (path_of members i) false
              (prerequisites members i)
            ≡ ready =
          judge-ready st.cancelled _ e in
        subst Kept (sym same) (
          choose-Kept i found st g
            (examine-settled members st.status (path_of members i) (prerequisites members i)
              unblocked)
            same-Kept)

    other_same :
        (s : Status)
        → get_elem? st.status i ≡ some s
        → s ≢ pending
        → scan_member members observe i found st ≡ (found, st)
    unfolding scan_member
    other_same pending e n = absurd (n refl)
    other_same (running held) e n = ground arith
    other_same (returned r) e n = ground arith
    other_same (completed r) e n = ground arith

    pub scan_member-Kept : Kept (scan_member members observe i found st)
    unfolding scan_member
    scan_member-Kept = elim (Option-cases (get_elem? st.status i)) [
      | inl n ↦
          let same : scan_member members observe i found st ≡ (found, st) = ground arith in
          subst Kept (sym same) same-Kept
      | inr (s, e) ↦ elim (pending_or_not s) [
        | inl h ↦ pending-Kept verdict (e ∙ ap some h) refl
        | inr h ↦ subst Kept (sym (other_same s e h)) same-Kept
      ]
    ]

  pub scan-Prepared :
      (count i : ℕ) (found : Option ℕ) (st : State)
      → Below found i
      → Prepared members (found, st)
      → Prepared members (scan members observe i count found st)
  unfolding scan
  scan-Prepared zero i found st b p = p
  scan-Prepared (suc count) i found st b p =
      let (p', b') = scan_member-Kept i found st b p in
      scan-Prepared count (suc i) (scan_member members observe i found st).0
        (scan_member members observe i found st).1 b' p'
