-- ===== src/Groups/Compiled.antt =====
-- resolution_group.go: plans whose groups compile.
use bindly.Prelude.{
  ℕ, ◌≡◌, ◌∙◌, sym, ap, String, true, false, ◌&&◌, some, List, [], ◌∷◌, arith, Bool-cases,
  Option-cases, inl, inr,
}
use mathlib.Core.List.{Memᴰ}
use mathlib.Core.Path.{subst}
use bindly.Prelude.Comparable.{string_comparable}
use bindly.Map
use bindly.Map.{Map}
use bindly.Errors.{ok, Result-cases}
use bindly.Spec.{BindingSpec}
use bindly.Groups.{
  GroupPlan, Index, index_bindings, canonical, depends_on_of, member_paths, visit_fuel,
  is_dependencies, has_overlap, check_groups, form_groups, any_grouped, compile_groups,
}
use bindly.Groups.Visit.{visit_members}
use bindly.Groups.Cycles.{Requires, visit_members-acyclic}

-- A group's members do not require themselves, and in dependency mode their fields are apart.
abbrev pub IsSound : Index → Map String (List ℕ) → GroupPlan → Type 0
IsSound ix fields g =
    ((path : String)
      → Memᴰ path (member_paths g.members)
      → ¬ Requires (canonical ix) (depends_on_of ix) path path)
    × (is_dependencies g.mode ≡ true → has_overlap fields g.members ≡ false)

check_groups-IsSound :
    (ix : Index) (fields : Map String (List ℕ)) (groups : List GroupPlan) (g : GroupPlan)
    → check_groups ix fields groups ≡ some (ok tt)
    → Memᴰ g groups
    → IsSound ix fields g
unfolding check_groups
check_groups-IsSound ix fields [] g h m = elim m [ ]
check_groups-IsSound ix fields (d ∷ rest) g h m =
    elim (Bool-cases (is_dependencies d.mode && has_overlap fields d.members)) [
      | inl b ↦ ground arith
      | inr b ↦
          elim (Option-cases (
            visit_members (canonical ix) (depends_on_of ix) (visit_fuel ix) (member_paths d.members)
              (record { visiting = []; visited = [] }))) [
                | inl n ↦ ground arith
                | inr (r, f) ↦ elim (Result-cases r) [
                  | inr (x, e) ↦ ground arith
                  | inl (found, e) ↦
                      let others : check_groups ix fields rest ≡ some (ok tt) = ground arith in
                      let apart : is_dependencies d.mode ≡ true
                          → has_overlap fields d.members ≡ false =
                        λ t. ground arith in
                      elim m [
                        | Memᴰ.head same ↦ subst (IsSound ix fields) (sym same) (
                          (λ path k.
                              visit_members-acyclic (canonical ix) (depends_on_of ix)
                                (visit_fuel ix) (member_paths d.members) found path (f ∙ ap some e)
                                k),
                          apart,
                        )
                        | Memᴰ.tail k ↦ check_groups-IsSound ix fields rest g others k
                      ]
                ]
              ]
    ]

-- When the groups of a plan compile, no member of a group requires itself through any chain of
-- prerequisites, and the fields of a dependency group's members do not overlap.
pub compile_groups-IsSound :
    (fields : Map String (List ℕ)) (bindings formed : List BindingSpec) (groups : List GroupPlan)
    (ix : Index) (g : GroupPlan)
    → compile_groups fields bindings ≡ some (ok (formed, groups))
    → index_bindings (record { by_path = Map.new; aliases = Map.new }) bindings ≡ ok ix
    → Memᴰ g groups
    → IsSound ix fields g
unfolding compile_groups
compile_groups-IsSound fields bindings formed groups ix g h i m =
    elim (Bool-cases (any_grouped bindings)) [
      | inr b ↦
          let none_formed : [] ≡ groups = ground arith in
          elim (subst (Memᴰ g) (sym none_formed) m) [ ]
      | inl b ↦ elim (Result-cases (form_groups ix [] bindings)) [
        | inr (x, e) ↦ ground arith
        | inl ((formed', groups'), e) ↦ elim (Option-cases (check_groups ix fields groups')) [
          | inl n ↦ ground arith
          | inr (r, f) ↦ elim (Result-cases r) [
            | inr (x, k) ↦ ground arith
            | inl (u, k) ↦
                let same : groups' ≡ groups = ground arith in
                check_groups-IsSound ix fields groups g
                  (subst (λ gs. check_groups ix fields gs ≡ some (ok tt)) same (f ∙ ap some k)) m
          ]
        ]
      ]
    ]
