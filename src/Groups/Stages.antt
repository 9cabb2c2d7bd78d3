-- ===== src/Groups/Stages.antt =====
-- resolution_group.go: the order of the work of bindWithGroups, which binds what was supplied, then
-- each group behind the bindings that it comes after, and then what remains.
-- The result is the list of those stages: the code performs them in order, up to an error.
pub mod Ordered
use bindly.Prelude.{
  String, Bool, true, false, not, ◌&&◌, ◌||◌, Option, none, some, List, [], ◌∷◌, ◌++◌, str_eq,
  is_some, map, if◌then◌else◌,
}
use bindly.Prelude.Comparable.{string_comparable}
use bindly.Map
use bindly.Map.{Map}
use bindly.Reflect.{Value}
use bindly.Errors.{Error, Result, ok, err, ◌>>=◌, ◌>>◌, refuse_if}
use bindly.Spec.{BindingSpec}
use bindly.Plan.{Plan}
use bindly.Resolve.{contains}
use bindly.Groups.{GroupPlan, is_dependencies}
use bindly.Replay.{find_binding}

-- What it reads of the invocation and the context.
pub record Conditions : Type 0 where
  pub has_controller : Bool
  pub replaying : Bool
  pub has_persistent : Bool
  pub capture_sources : Bool
  pub allowed_kinds : List String
  pub delayed_kinds : List String
  pub resolved : Option (Map String Value)
  -- `s.resolvedTarget == target`
  pub is_resolved_target : Bool
  -- whether the context holds the permit of a dependency group
  pub is_leased : Bool

-- A bind of some of the plan's bindings, or the work of a group.
pub data Stage : Type 0 where
  subset : List BindingSpec → Stage
  group : GroupPlan → Stage

abbrev is_listed : List String → Bool
is_listed [] = false
is_listed (k ∷ ks) = true

abbrev any_group : (GroupPlan → Bool) → List GroupPlan → Bool
any_group test [] = false
any_group test (g ∷ gs) = test g || any_group test gs

-- The checks before the first stage.
unfoldable pub check_conditions : Conditions → List GroupPlan → Result (Unit {0})
check_conditions c groups =
    refuse_if (not c.has_controller)
      (Error.message "resolution groups require an invocation controller" [])
    >> refuse_if
        (c.replaying
          || (c.has_persistent
              || (c.capture_sources || (is_listed c.allowed_kinds || is_listed c.delayed_kinds))))
        (Error.message "resolution groups do not support replay, explicit caches or partial binding"
          [])
    >> refuse_if
        (is_some c.resolved && any_group (λ (g : GroupPlan). not (is_dependencies g.mode)) groups)
        (Error.message "resolved input requires dependency-mode resolution groups" [])
    >> refuse_if (c.is_leased && any_group (λ (g : GroupPlan). is_dependencies g.mode) groups) (
        Error.message
          "nested dependency groups require SuspendResolutionGroup around the dependency wait" [])

abbrev pub paths_of : List BindingSpec → List String
paths_of specs = map (λ (b : BindingSpec). b.path) specs

-- The bindings with supplied values.
unfoldable pub seeded : Map String Value → List BindingSpec → List BindingSpec
seeded resolved [] = []
seeded resolved (b ∷ rest) =
    let others = seeded resolved rest in if Map.exists resolved b.path then b ∷ others else others

-- The bindings that a group comes after and that are not completed.
unfoldable pub barriers : List BindingSpec → List String → List String → List BindingSpec
barriers bindings completed [] = []
barriers bindings completed (path ∷ rest) =
    let others = barriers bindings completed rest in
    if contains completed path
    then others
    else elim (find_binding bindings path) [ none ↦ others | some b ↦ b ∷ others ]

unfoldable pub remaining : List String → List BindingSpec → List BindingSpec
remaining completed [] = []
remaining completed (b ∷ rest) =
    let others = remaining completed rest in
    if contains completed b.path then others else b ∷ others

-- The loop over the groups, and the last bind.
unfoldable pub group_stages : List BindingSpec → List String → List GroupPlan → List Stage
unfolding barriers remaining
group_stages bindings completed [] = subset (remaining completed bindings) ∷ []
group_stages bindings completed (g ∷ rest) =
    let waited = barriers bindings completed g.after in
    let later = group_stages bindings (paths_of g.members ++ (paths_of waited ++ completed)) rest in
    subset waited ∷ group g ∷ later

abbrev pub has_entries : Map String Value → Bool
has_entries m = is_listed (map (λ e. e.0) m.entries)

-- The bindings of the first bind, if there is one.
abbrev pub first_specs : Conditions → List BindingSpec → Option (List BindingSpec)
first_specs c bindings = elim c.resolved [
  | none ↦ none
  | some m ↦ if c.is_resolved_target && has_entries m then some (seeded m bindings) else none
]

-- (*invocation).bindWithGroups
unfoldable pub bind_stages : Conditions → Plan → Result (List Stage)
unfolding check_conditions group_stages
bind_stages c plan = do
  u ← check_conditions c plan.groups
  ok (elim (first_specs c plan.bindings) [
    | none ↦ group_stages plan.bindings [] plan.groups
    | some specs ↦ subset specs ∷ group_stages plan.bindings (paths_of specs ++ []) plan.groups
  ])
