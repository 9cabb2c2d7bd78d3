-- ===== src/ResolvedInput.antt =====
-- resolved_input.go: already transformed values that are supplied to one bind.
-- Plans are compared by identity, so an option carries its plan's address. The selection and the
-- clone of a value are other code. A borrowed pointer and a copy of it are one value here.
pub mod Disjoint
pub mod Selected
use bindly.Prelude.{
  ℕ, String, Bool, true, false, not, ◌&&◌, ◌||◌, Option, none, some, List, [], ◌∷◌, str_eq, nat_eq,
  is_some, if◌then◌else◌,
}
use bindly.Prelude.Comparable.{string_comparable}
use bindly.Prelude.Text.{equal_fold}
use bindly.Map
use bindly.Map.{Map}
use bindly.Reflect.{GoType, Value}
use bindly.Errors.{Error, Result, ok, err, ◌>>=◌, ◌>>◌, refuse_if}
use bindly.Field.{Access, get}
use bindly.Spec.{BindingSpec, Mode, dependencies}
use bindly.Resolve.{contains}
use bindly.Groups.{GroupPlan, is_dependencies}
use bindly.Plan.{Plan, target_type, is_target}

-- resolvedInput
pub record Seed : Type 0 where
  pub plan : Option Plan
  pub address : ℕ
  pub input : Value
  pub paths : List String

-- The bind options that are read.
pub record Options : Type 0 where
  pub resolved_error : Option Error
  pub resolved_input : Option Seed
  pub plan_address : Option ℕ
  pub replaying : Bool

-- WithResolvedInput, applied to the options so far.
unfoldable pub with_resolved_input : Option Plan → ℕ → Value → List String → Options → Options
with_resolved_input plan address input paths options = elim options.resolved_input [
  | some earlier ↦ record options {
    resolved_error = some (Error.message "resolved input option may only be supplied once" []);
  }
  | none ↦ record options {
    resolved_input = some (record { plan = plan; address = address; input = input; paths = paths });
  }
]

-- overlappingFieldIndexes
unfoldable pub overlapping : List ℕ → List ℕ → Bool
overlapping [] right = true
overlapping (l ∷ left) [] = true
overlapping (l ∷ left) (r ∷ right) =
    let rest = overlapping left right in if nat_eq l r then rest else false

abbrev pub index_of : Plan → String → List ℕ
index_of plan path = elim (Map.get plan.fields path) [ some a ↦ a.index | none ↦ [] ]

-- `writes`: the indexes that the assignment of a path writes.
unfoldable pub marker_writes : Plan → String → List BindingSpec → List (List ℕ)
marker_writes plan path [] = []
marker_writes plan path (b ∷ rest) =
    let others = marker_writes plan path rest in
    if str_eq b.path path && not (str_eq b.marker_field "")
    then index_of plan b.marker_field ∷ []
    else others

unfoldable pub writes_of : Plan → String → Access → List (List ℕ)
writes_of plan path selected = selected.index ∷ marker_writes plan path plan.bindings

unfoldable pub overlaps_some : List (List ℕ) → List ℕ → Bool
overlaps_some [] protected = false
overlaps_some (w ∷ writes) protected = overlapping w protected || overlaps_some writes protected

-- Whether a write overlaps a member's field or marker.
unfoldable pub hits_member : Plan → List (List ℕ) → BindingSpec → Bool
unfolding overlaps_some
hits_member plan writes member =
    (not (str_eq member.path "") && overlaps_some writes (index_of plan member.path))
    || (not (str_eq member.marker_field "")
        && overlaps_some writes (index_of plan member.marker_field))

unfoldable pub check_members : Plan → String → List (List ℕ) → List BindingSpec → Result (Unit {0})
check_members plan path writes [] = ok tt
check_members plan path writes (m ∷ rest) =
    let others = check_members plan path writes rest in
    if hits_member plan writes m
    then err (
        Error.message "resolved input binding %s overlaps resolution group binding %s"
          (path ∷ m.path ∷ []))
    else others

unfoldable pub check_groups : Plan → String → List (List ℕ) → List GroupPlan → Result (Unit {0})
unfolding check_members
check_groups plan path writes [] = ok tt
check_groups plan path writes (g ∷ rest) = do
  u ← check_members plan path writes g.members
  check_groups plan path writes rest

unfoldable pub check_paths : Plan → List String → Result (Unit {0})
unfolding check_groups writes_of
check_paths plan [] = ok tt
check_paths plan (path ∷ rest) = elim (Map.get plan.fields path) [
  | none ↦ check_paths plan rest
  | some selected ↦ do
    u ← check_groups plan path (writes_of plan path selected) plan.groups
    check_paths plan rest
]

unfoldable pub all_dependencies : List GroupPlan → Bool
all_dependencies [] = true
all_dependencies (g ∷ rest) = is_dependencies g.mode && all_dependencies rest

abbrev pub has_groups : Plan → Bool
has_groups plan = elim plan.groups [ [] ↦ false | g ∷ rest ↦ true ]

-- validateResolvedGroupPaths
unfoldable pub validate_group_paths : Plan → List String → Result (Unit {0})
unfolding check_paths all_dependencies
validate_group_paths plan paths =
    if not (has_groups plan)
    then ok tt
    else if not (all_dependencies plan.groups)
    then err (Error.message "resolved input requires dependency-mode resolution groups" [])
    else check_paths plan paths

-- `declared`
unfoldable pub declared : List BindingSpec → String → Option BindingSpec
declared [] path = none
declared (b ∷ rest) path = elim (declared rest path) [
  | some later ↦ some later
  | none ↦ if str_eq b.path path then some b else none
]

abbrev is_pointer : Value → Bool
is_pointer (Value.pointer t v) = true
is_pointer (Value.nil (GoType.pointer t)) = true
is_pointer v = false

-- Whether a value is borrowed by identity.
unfoldable pub is_borrowed : BindingSpec → Value → Bool
is_borrowed b field =
    equal_fold b.location.kind "component"
    && (str_eq b.scope "" && ((elim b.cacheable [ none ↦ true | some c ↦ c ]) && is_pointer field))

abbrev field_of : Plan → String → Value → Option Value
field_of plan path input = elim (Map.get plan.fields path) [
  | none ↦ some input
  | some a ↦ get a.index (target_type plan) input
]

abbrev inaccessible : String → Error
inaccessible path = Error.message "resolved input binding %s is inaccessible" (path ∷ [])

-- The loop over the selected paths: the borrowed values and the paths that are cloned.
unfoldable pub select_paths :
    Plan → Value → List String → List String → Result (Map String Value × List String)
unfolding declared is_borrowed
select_paths plan input seen [] = ok (Map.new, [])
select_paths plan input seen (path ∷ rest) = elim (declared plan.bindings path) [
  | none ↦ err (Error.message "resolved input binding %s is not defined" (path ∷ []))
  | some b ↦
      if contains seen path
      then err (Error.message "duplicate resolved input binding %s" (path ∷ []))
      else elim (field_of plan path input) [
        | none ↦ err (inaccessible path)
        | some field ↦ do
          others ← select_paths plan input (path ∷ seen) rest
          ok (
              if is_borrowed b field
              then (Map.put others.0 path field, others.1)
              else (others.0, path ∷ others.1))
      ]
]

-- The loop over the selected paths after the clone.
unfoldable pub collect_values :
    Plan → Map String Value → Value → List String → Result (Map String Value)
collect_values plan borrowed cloned [] = ok Map.new
collect_values plan borrowed cloned (path ∷ rest) = elim (Map.get borrowed path) [
  | some held ↦ do others ← collect_values plan borrowed cloned rest; ok (Map.put others path held)
  | none ↦ elim (field_of plan path cloned) [
    | none ↦ err (inaccessible path)
    | some v ↦ do others ← collect_values plan borrowed cloned rest; ok (Map.put others path v)
  ]
]

module _ (select : GoType → List String → Option Error)
    (clone : Value → List String → Result Value) where
  -- The clone of the selected paths and what it gives for each path.
  unfoldable pub clone_selected :
      Plan → Value → List String → Map String Value × List String → Result (Map String Value)
  clone_selected plan input paths (borrowed, detached) = elim (select plan.target detached) [
    | some e ↦ err e
    | none ↦ elim (clone input detached) [
      | err e ↦ err (Error.wrapped "clone resolved input: %w" e)
      | ok cloned ↦ collect_values plan borrowed cloned paths
    ]
  ]

  -- prepareResolvedInput from the check of the target on.
  unfoldable pub prepare_seed : Plan → Seed → Value → Result (Map String Value)
  prepare_seed plan seed target = do
    u ←
        refuse_if (not (is_target plan target && is_target plan seed.input))
          (Error.message "resolved input and target must be non-nil %s" [])
    v ← validate_group_paths plan seed.paths
    selected ← select_paths plan seed.input [] seed.paths
    clone_selected plan seed.input seed.paths selected

  abbrev same_address : Option ℕ → ℕ → Bool
  same_address none b = false
  same_address (some a) b = nat_eq a b

  -- prepareResolvedInput
  unfoldable pub prepare : Options → Value → Result (Option (Map String Value))
  prepare options target = elim options.resolved_error [
    | some e ↦ err e
    | none ↦ elim options.resolved_input [
      | none ↦ ok none
      | some seed ↦ elim seed.plan [
        | none ↦
            err (Error.message "resolved input requires the identical canonical binding plan" [])
        | some plan ↦
            if not (same_address options.plan_address seed.address)
            then err
                (Error.message "resolved input requires the identical canonical binding plan" [])
            else if options.replaying
            then err (Error.message "resolved input cannot be combined with replay" [])
            else (do values ← prepare_seed plan seed target; ok (some values))
      ]
    ]
  ]
