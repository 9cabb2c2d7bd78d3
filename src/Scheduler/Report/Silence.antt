-- ===== src/Scheduler/Report/Silence.antt =====
-- resolution_dependencies.go: the report of a dependency group and its members.
use bindly.Prelude.{
  ℕ, String, ◌≡◌, ◌↔◌, ◌⊎◌, true, Bool-cases, inl, inr, refl, Option, none, some, List, [], ◌∷◌,
  ◌++◌, All, arith, Option-cases,
}
use bindly.Prelude.Int.{ℤ}
use bindly.Errors.{Error, BindingSite}
use bindly.Scheduler.{DependencyResult}
use bindly.Scheduler.Report.{Report, is_prerequisite, of_option, own_cause, collect, report}

-- A failed prerequisite is in the tree of an error.
pub data IsSkip : Error → Type 0 where
  here : (path needed : String) (e : Error) → IsSkip (Error.prerequisite path needed e)
  in_wrapped : (s : String) (e : Error) → IsSkip e → IsSkip (Error.wrapped s e)
  in_input : (c : ℤ) (e : Error) → IsSkip e → IsSkip (Error.input c e)
  in_binding : (s : BindingSite) (e : Error) → IsSkip e → IsSkip (Error.binding s e)
  in_absence : (o : Option ℕ) (e : Error) → IsSkip e → IsSkip (Error.absence o e)
  in_left : (e f : Error) → IsSkip e → IsSkip (Error.join e f)
  in_right : (e f : Error) → IsSkip f → IsSkip (Error.join e f)

-- Nothing to report: no failure, no observer's error, and no cause but a failed prerequisite.
abbrev pub IsQuiet : DependencyResult → Type 0
IsQuiet r =
    (r.outcome.failure ≡ none)
    × (r.observe_err ≡ none)
    × ((r.outcome.cause ≡ none) ⊎ ((e : Error) × (r.outcome.cause ≡ some e) × IsSkip e))

is_prerequisite-IsSkip : (e : Error) → is_prerequisite e ≡ true → IsSkip e
unfolding is_prerequisite
is_prerequisite-IsSkip (Error.message s ws) h = cc
is_prerequisite-IsSkip (Error.wrapped s e) h = in_wrapped s e (is_prerequisite-IsSkip e h)
is_prerequisite-IsSkip (Error.input c e) h = in_input c e (is_prerequisite-IsSkip e h)
is_prerequisite-IsSkip (Error.binding s e) h = in_binding s e (is_prerequisite-IsSkip e h)
is_prerequisite-IsSkip (Error.absence o e) h = in_absence o e (is_prerequisite-IsSkip e h)
is_prerequisite-IsSkip (Error.coded c s) h = cc
is_prerequisite-IsSkip (Error.prerequisite p q e) h = here p q e
is_prerequisite-IsSkip (Error.join e f) h = elim (Bool-cases (is_prerequisite e)) [
  | inl left ↦ in_left e f (is_prerequisite-IsSkip e left)
  | inr other ↦ in_right e f (is_prerequisite-IsSkip f (ground arith))
]

IsSkip-is_prerequisite : (e : Error) → IsSkip e → is_prerequisite e ≡ true
unfolding is_prerequisite
IsSkip-is_prerequisite _ (here p q e) = refl
IsSkip-is_prerequisite _ (in_wrapped s e h) = IsSkip-is_prerequisite e h
IsSkip-is_prerequisite _ (in_input c e h) = IsSkip-is_prerequisite e h
IsSkip-is_prerequisite _ (in_binding s e h) = IsSkip-is_prerequisite e h
IsSkip-is_prerequisite _ (in_absence o e h) = IsSkip-is_prerequisite e h
IsSkip-is_prerequisite _ (in_left e f h) = ground (arith, IsSkip-is_prerequisite e h)
IsSkip-is_prerequisite _ (in_right e f h) = ground (arith, IsSkip-is_prerequisite f h)

-- A cause that is not reported.
own_cause-nil :
    (cause : Option Error)
    → own_cause cause ≡ []
    → (cause ≡ none) ⊎ ((e : Error) × (cause ≡ some e) × IsSkip e)
own_cause-nil none h = inl refl
own_cause-nil (some e) h = elim (Bool-cases (is_prerequisite e)) [
  | inl skipped ↦ inr (e, refl, is_prerequisite-IsSkip e skipped)
  | inr own ↦ ground arith
]

nil-own_cause :
    (cause : Option Error)
    → (cause ≡ none) ⊎ ((e : Error) × (cause ≡ some e) × IsSkip e)
    → own_cause cause ≡ []
nil-own_cause cause (inl silent) = ground arith
nil-own_cause cause (inr (e, given, skip)) = ground (arith, IsSkip-is_prerequisite e skip)

abbrev pub IsEmpty : Report → Type 0
IsEmpty report = (report.failures ≡ []) × (report.terminal ≡ [])

append-nil : (xs ys : List Error) → xs ++ ys ≡ [] → (xs ≡ []) × (ys ≡ [])
append-nil [] ys h = (refl, h)
append-nil (x ∷ xs) ys h = cc

of_option-nil : (o : Option Error) → of_option o ≡ [] → o ≡ none
of_option-nil none h = refl
of_option-nil (some e) h = cc

collect_iff :
    (fresh : ℕ) (results : List DependencyResult)
    → IsEmpty (collect fresh results) ↔ All IsQuiet results
unfolding collect
collect_iff fresh [] = ((λ e. tt), λ q. (refl, refl))
collect_iff fresh (r ∷ rest) = (
  (λ e. elim (Option-cases r.outcome.failure) [
    | inr (f, h) ↦ ground arith
    | inl h ↦
        let (c, more) = append-nil (own_cause r.outcome.cause) _ (ground (arith, h, e.1)) in
        let (o, last) = append-nil (of_option r.observe_err) (collect fresh rest).terminal more in
        (
          (h, of_option-nil r.observe_err o, own_cause-nil r.outcome.cause c),
          (collect_iff fresh rest).0 (ground (arith, h, e.0), last),
        )
  ]),
  λ q.
      let (a, b) = (collect_iff fresh rest).1 q.1 in
      let (f, o, c) = q.0 in
      (ground (arith, f, a), ground (arith, f, o, nil-own_cause r.outcome.cause c, b)),
)

-- The report of a dependency group is empty exactly when the group was not canceled and every
-- member is quiet: no failure, no observer's error, and no cause, unless the tree of that error
-- has a failed prerequisite in it.
pub report_iff :
    (fresh : ℕ) (canceled : Option Error) (results : List DependencyResult)
    → IsEmpty (report fresh canceled results) ↔ (canceled ≡ none) × All IsQuiet results
unfolding report
report_iff fresh canceled results = (
  (λ e.
      let (all, last) = append-nil (collect fresh results).terminal (of_option canceled) e.1 in
      (of_option-nil canceled last, (collect_iff fresh results).0 (e.0, all))),
  λ q.
      let (failures, terminal) = (collect_iff fresh results).1 q.1 in
      (failures, ground (arith, q.0, terminal)),
)
