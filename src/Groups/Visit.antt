-- ===== src/Groups/Visit.antt =====
-- resolution_group.go: the closure `visit`, a depth-first search for prerequisite cycles.
use bindly.Prelude.{ℕ, zero, suc, String, Option, none, some, List, [], ◌∷◌, if◌then◌else◌}
use bindly.Errors.{Error, Result, ok, err}
use bindly.Resolve.{contains, remove}

pub record Visited : Type 0 where
  pub visiting : List String
  pub visited : List String

abbrev pub Search : Type 0
Search = Option (Result Visited)

-- `visit` and its loop over the prerequisites, which calls it back at less fuel.
module _ (canonical : String → Result String) (depends_on : String → List String) where
  abbrev pub visit_all : (String → Visited → Search) → List String → Visited → Search
  visit_all visit [] st = some (ok st)
  visit_all visit (name ∷ names) st = elim (canonical name) [
    | err e ↦ some (err e)
    | ok path ↦ elim (visit path st) [
      | none ↦ none
      | some (err e) ↦ some (err e)
      | some (ok st') ↦ visit_all visit names st'
    ]
  ]

  abbrev pub leave : String → Search → Search
  leave path none = none
  leave path (some (err e)) = some (err e)
  leave path (some (ok st)) =
      some (ok (record { visiting = remove st.visiting path; visited = path ∷ st.visited }))

  unfoldable pub visit : ℕ → String → Visited → Search
  visit zero path st = none
  visit (suc fuel) path st =
      let enter = λ (p : String) (st' : Visited). visit fuel p st' in
      if contains st.visiting path
      then some (err (Error.message "resolution group %s prerequisite cycle at %s" (path ∷ [])))
      else if contains st.visited path
      then some (ok st)
      else leave path
          (visit_all enter (depends_on path) (record st { visiting = path ∷ st.visiting }))

  -- The loop over a group's members, whose paths are canonical.
  unfoldable pub visit_members : ℕ → List String → Visited → Search
  unfolding visit
  visit_members fuel [] st = some (ok st)
  visit_members fuel (path ∷ paths) st = elim (visit fuel path st) [
    | none ↦ none
    | some (err e) ↦ some (err e)
    | some (ok st') ↦ visit_members fuel paths st'
  ]
