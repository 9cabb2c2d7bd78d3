-- ===== src/Groups.antt =====
-- resolution_group.go: the compilation of resolution groups into a plan.
-- A plan's `fields` are the index paths of its fields; a missing one is empty, as in Go.
pub mod Visit
pub mod Cycles
pub mod Compiled
pub mod Regrouped
pub mod Stages
use bindly.Prelude.{
  ℕ, zero, suc, String, Bool, true, false, not, Option, none, some, List, [], ◌∷◌, ◌++◌, ◌&&◌, ◌||◌,
  is_some, str_eq, nat_eq, length, if◌then◌else◌,
}
use bindly.Prelude.Comparable.{string_comparable}
use bindly.Map
use bindly.Map.{Map}
use bindly.Errors.{Error, Result, ok, err, ◌>>=◌, ◌>>◌, refuse_if}
use bindly.Locator.{Location}
use bindly.Spec.{BindingSpec, GroupSpec, Mode, concurrent, dependencies, unknown}
use bindly.Resolve.{contains}
use bindly.Groups.Visit.{visit_members, Visited}

-- ResolutionGroupPlan
pub record GroupPlan : Type 0 where
  pub name : String
  pub mode : Mode
  pub after : List String
  pub members : List BindingSpec

-- What the first loop builds: bindings by path, and paths by name.
pub record Index : Type 0 where
  pub by_path : Map String BindingSpec
  pub aliases : Map String String

abbrev clashes : Option String → String → Bool
clashes none path = false
clashes (some previous) path = not (str_eq previous path)

unfoldable pub index_bindings : Index → List BindingSpec → Result Index
index_bindings ix [] = ok ix
index_bindings ix (spec ∷ rest) =
    let by_path = Map.put ix.by_path spec.path spec in
    let named =
      index_bindings
        (record { by_path = by_path; aliases = Map.put ix.aliases spec.name spec.path }) rest in
    let unnamed = index_bindings (record { by_path = by_path; aliases = ix.aliases }) rest in
    if not (str_eq spec.name "") && clashes (Map.get ix.aliases spec.name) spec.path
    then err (Error.message "ambiguous binding alias %s" (spec.name ∷ []))
    else if str_eq spec.name ""
    then unnamed
    else named

-- The closure `canonical`.
unfoldable pub canonical : Index → String → Result String
canonical ix name = if Map.exists ix.by_path name then ok name else elim (Map.get ix.aliases name) [
  | some path ↦ ok path
  | none ↦ err (Error.message "resolution group binding %s is not defined" (name ∷ []))
]

unfoldable pub group_of : Index → String → Option GroupSpec
group_of ix path = elim (Map.get ix.by_path path) [ some spec ↦ spec.group | none ↦ none ]

abbrev in_group : String → Option GroupSpec → Bool
in_group name none = false
in_group name (some g) = str_eq g.name name

-- The loop over `group.After`: the canonical paths.
unfoldable pub check_barriers : Index → String → List String → List String → Result (List String)
check_barriers ix path seen [] = ok []
check_barriers ix path seen (name ∷ rest) = do
  barrier ← canonical ix name
  refuse_if (str_eq barrier path || (contains seen barrier || is_some (group_of ix barrier)))
      (Error.message "binding %s has invalid resolution barrier %s" (path ∷ name ∷ []))
  others ← check_barriers ix path (barrier ∷ seen) rest
  ok (barrier ∷ others)

-- The loop over `group.DependsOn`.
unfoldable pub check_prerequisites :
    Index → String → String → List String → List String → Result (List String)
check_prerequisites ix path group seen [] = ok []
check_prerequisites ix path group seen (name ∷ rest) = do
  peer ← canonical ix name
  refuse_if (str_eq peer path || (contains seen peer || not (in_group group (group_of ix peer))))
      (Error.message "binding %s has invalid group prerequisite %s" (path ∷ name ∷ []))
  others ← check_prerequisites ix path group (peer ∷ seen) rest
  ok (peer ∷ others)

abbrev is_unknown : Mode → Bool
is_unknown (unknown s) = true
is_unknown _ = false

abbrev is_concurrent : Mode → Bool
is_concurrent concurrent = true
is_concurrent _ = false

abbrev pub is_dependencies : Mode → Bool
is_dependencies dependencies = true
is_dependencies _ = false

abbrev same_mode : Mode → Mode → Bool
same_mode concurrent concurrent = true
same_mode dependencies dependencies = true
same_mode (unknown a) (unknown b) = str_eq a b
same_mode _ _ = false

abbrev is_empty {ℓ} : {A : Type ℓ} → List A → Bool
is_empty [] = true
is_empty (x ∷ xs) = false

unfoldable pub same_names : List String → List String → Bool
same_names [] [] = true
same_names (a ∷ xs) (b ∷ ys) = str_eq a b && same_names xs ys
same_names _ _ = false

-- The checks of one grouped binding; the group with canonical barriers and prerequisites.
unfoldable pub check_group : Index → BindingSpec → GroupSpec → Result GroupSpec
check_group ix spec g = do
  refuse_if (is_unknown g.mode)
      (Error.message "binding %s has unknown resolution group mode %q" (spec.path ∷ []))
  refuse_if (str_eq g.name "" || (is_concurrent g.mode && is_empty g.after))
      (Error.message "binding %s requires a named resolution group and barriers" (spec.path ∷ []))
  refuse_if
      (not (str_eq spec.when_path "")
        || (spec.is_async
            || (is_some spec.cacheable || (is_some spec.source_type || is_some spec.transformer))))
      (Error.message "binding %s has incompatible resolution group mode" (spec.path ∷ []))
  refuse_if (not (str_eq spec.location.kind "path") && not (str_eq spec.location.kind "component"))
      (Error.message "binding %s resolution group requires a path or native component"
        (spec.path ∷ []))
  barriers ← check_barriers ix spec.path [] g.after
  peers ← check_prerequisites ix spec.path g.name [] g.depends_on
  ok (record g { after = barriers; depends_on = peers })

-- `descriptor := &p.groups[index]` and its checks: the groups with the member added.
unfoldable pub join_group : List GroupPlan → BindingSpec → GroupSpec → Result (List GroupPlan)
join_group [] spec g =
    ok (record { name = g.name; mode = g.mode; after = g.after; members = spec ∷ [] } ∷ [])
join_group (d ∷ ds) spec g =
    if str_eq d.name g.name
    then (do
      refuse_if (not (same_mode d.mode g.mode))
          (Error.message "resolution group %s has inconsistent modes" (d.name ∷ []))
      refuse_if (not (same_names d.after g.after))
          (Error.message "resolution group %s has inconsistent barriers" (d.name ∷ []))
      ok (record d { members = d.members ++ spec ∷ [] } ∷ ds))
    else (do others ← join_group ds spec g; ok (d ∷ others))

-- The loop over the bindings: the canonical bindings and the groups.
unfoldable pub form_groups :
    Index → List GroupPlan → List BindingSpec → Result (List BindingSpec × List GroupPlan)
form_groups ix groups [] = ok ([], groups)
form_groups ix groups (spec ∷ rest) = elim spec.group [
  | none ↦ do (bindings, formed) ← form_groups ix groups rest; ok (spec ∷ bindings, formed)
  | some g ↦ do
    g' ← check_group ix spec g
    groups' ← join_group groups (record spec { group = some g' }) g'
    (bindings, formed) ← form_groups ix groups' rest
    ok (record spec { group = some g' } ∷ bindings, formed)
]

-- `reflect.DeepEqual(a[:length], b[:length])` at the shorter length.
unfoldable pub shares_prefix : List ℕ → List ℕ → Bool
shares_prefix [] b = true
shares_prefix (x ∷ a) [] = true
shares_prefix (x ∷ a) (y ∷ b) = nat_eq x y && shares_prefix a b

abbrev index_of : Map String (List ℕ) → String → List ℕ
index_of fields path = elim (Map.get fields path) [ some ixs ↦ ixs | none ↦ [] ]

unfoldable pub overlaps_any : Map String (List ℕ) → BindingSpec → List BindingSpec → Bool
overlaps_any fields left [] = false
overlaps_any fields left (right ∷ rest) =
    shares_prefix (index_of fields left.path) (index_of fields right.path)
    || overlaps_any fields left rest

-- The nested loops over a dependency group's members.
unfoldable pub has_overlap : Map String (List ℕ) → List BindingSpec → Bool
has_overlap fields [] = false
has_overlap fields (left ∷ rest) = overlaps_any fields left rest || has_overlap fields rest

abbrev pub depends_on_of : Index → String → List String
depends_on_of ix path = elim (group_of ix path) [ some g ↦ g.depends_on | none ↦ [] ]

abbrev pub member_paths : List BindingSpec → List String
member_paths [] = []
member_paths (m ∷ ms) = m.path ∷ member_paths ms

-- Deep enough for the depth-first search, whose path holds no binding twice.
abbrev pub visit_fuel : Index → ℕ
visit_fuel ix = suc (Map.len ix.by_path)

-- The last loop: overlaps and prerequisite cycles.
unfoldable pub check_groups :
    Index → Map String (List ℕ) → List GroupPlan → Option (Result (Unit {0}))
check_groups ix fields [] = some (ok tt)
check_groups ix fields (g ∷ rest) =
    let others = check_groups ix fields rest in
    if is_dependencies g.mode && has_overlap fields g.members
    then some
        (err (Error.message "resolution group %s has overlapping members %s and %s" (g.name ∷ [])))
    else elim (visit_members (canonical ix) (depends_on_of ix) (visit_fuel ix)
        (member_paths g.members) (record { visiting = []; visited = [] })) [
          | none ↦ none
          | some (err e) ↦ some (err e)
          | some (ok st) ↦ others
        ]

unfoldable pub any_grouped : List BindingSpec → Bool
any_grouped [] = false
any_grouped (spec ∷ rest) = is_some spec.group || any_grouped rest

-- (*Plan).compileResolutionGroups: the plan's bindings and groups; none if the search's fuel ran out.
unfoldable pub compile_groups :
    Map String (List ℕ) → List BindingSpec → Option (Result (List BindingSpec × List GroupPlan))
unfolding any_grouped
compile_groups fields bindings =
    if not (any_grouped bindings)
    then some (ok (bindings, []))
    else elim (index_bindings (record { by_path = Map.new; aliases = Map.new }) bindings) [
      | err e ↦ some (err e)
      | ok ix ↦ elim (form_groups ix [] bindings) [
        | err e ↦ some (err e)
        | ok (formed, groups) ↦ elim (check_groups ix fields groups) [
          | none ↦ none
          | some (err e) ↦ some (err e)
          | some (ok u) ↦ some (ok (formed, groups))
        ]
      ]
    ]
