-- ===== src/Scheduler/Report.antt =====
-- resolution_dependencies.go: the errors that a dependency group reports when its loop has ended.
pub mod Silence
use bindly.Prelude.{
  ℕ, Bool, true, false, not, ◌||◌, Option, none, some, List, [], ◌∷◌, ◌++◌, if◌then◌else◌,
}
use bindly.Errors.{Error, BindingSite, copy_binding_error}
use bindly.Scheduler.{DependencyResult}

-- errors.As for *ResolutionPrerequisiteError.
unfoldable pub is_prerequisite : Error → Bool
is_prerequisite (Error.message s ws) = false
is_prerequisite (Error.wrapped s e) = is_prerequisite e
is_prerequisite (Error.input c e) = is_prerequisite e
is_prerequisite (Error.binding s e) = is_prerequisite e
is_prerequisite (Error.absence o e) = is_prerequisite e
is_prerequisite (Error.coded c s) = false
is_prerequisite (Error.prerequisite p q e) = true
is_prerequisite (Error.join e f) = is_prerequisite e || is_prerequisite f

-- The member's own failures, copied, and the other errors, in declaration order.
pub record Report : Type 0 where
  pub failures : List (BindingSite × Error)
  pub terminal : List Error

abbrev pub of_option {ℓ} : {A : Type ℓ} → Option A → List A
of_option none = []
of_option (some a) = a ∷ []

-- The cause of a member without a failure of its own, unless it was only skipped.
abbrev pub own_cause : Option Error → List Error
own_cause none = []
own_cause (some e) = if is_prerequisite e then [] else e ∷ []

-- The loop over `results`; `fresh` is the address of the copies.
unfoldable pub collect : ℕ → List DependencyResult → Report
collect fresh [] = record { failures = []; terminal = [] }
collect fresh (r ∷ rest) =
    let later = collect fresh rest in
    elim r.outcome.failure [
      | some (site, cause) ↦ record {
        failures = (copy_binding_error fresh site, cause) ∷ later.failures;
        terminal = of_option r.observe_err ++ later.terminal;
      }
      | none ↦ record {
        failures = later.failures;
        terminal = own_cause r.outcome.cause ++ (of_option r.observe_err ++ later.terminal);
      }
    ]

-- What the group reports in the end: the loop, and the cause of its cancellation, if it was canceled.
unfoldable pub report : ℕ → Option Error → List DependencyResult → Report
unfolding collect
report fresh canceled results =
    let collected = collect fresh results in
    record collected { terminal = collected.terminal ++ of_option canceled }
