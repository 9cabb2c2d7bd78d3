-- ===== src/Groups/Regrouped.antt =====
-- resolution_group.go: what grouping changes of the bindings.
use bindly.Prelude.{
  ℕ, String, true, false, ◌≡◌, sym, ap, refl, inl, inr, Option, some, List, [], ◌∷◌, All, arith,
  Bool-cases, Option-cases,
}
use mathlib.Core.Path.{subst}
use bindly.Prelude.Comparable.{string_comparable}
use bindly.Map
use bindly.Map.{Map}
use bindly.Errors.{ok, Result-cases}
use bindly.Spec.{BindingSpec, GroupSpec}
use bindly.Resolve.{contains}
use bindly.Groups.{
  compile_groups, form_groups, check_groups, GroupPlan, Index, index_bindings, check_group,
  join_group, any_grouped,
}

-- No path occurs twice, or among those seen.
abbrev pub IsDistinct : List String → List BindingSpec → Type 0
IsDistinct seen [] = Unit
IsDistinct seen (b ∷ bs) = (contains seen b.path ≡ false) × IsDistinct (b.path ∷ seen) bs

-- Bindings that differ in their groups only.
abbrev pub Regrouped : List BindingSpec → List BindingSpec → Type 0
Regrouped [] [] = Unit
Regrouped (b ∷ bs) (c ∷ cs) =
    ((g : Option GroupSpec) × (c ≡ record b { group = g })) × Regrouped bs cs
Regrouped _ _ = true ≡ false

Regrouped-refl : (bs : List BindingSpec) → Regrouped bs bs
Regrouped-refl [] = tt
Regrouped-refl (b ∷ bs) = ((b.group, refl), Regrouped-refl bs)

form_groups-Regrouped :
    (ix : Index) (groups formed : List GroupPlan) (bs bs' : List BindingSpec)
    → form_groups ix groups bs ≡ ok (bs', formed)
    → Regrouped bs bs'
unfolding form_groups
form_groups-Regrouped ix groups formed [] bs' h =
    subst (Regrouped []) {x = []} {y = bs'} (ground arith) tt
form_groups-Regrouped ix groups formed (b ∷ bs) bs' h = elim (Option-cases b.group) [
  | inl alone ↦ elim (Result-cases (form_groups ix groups bs)) [
    | inr (e, failed) ↦ absurd (ground arith)
    | inl ((others, formed'), more) ↦
        subst (Regrouped (b ∷ bs)) {x = b ∷ others} {y = bs'} (ground arith)
          ((b.group, refl), form_groups-Regrouped ix groups formed' bs others more)
  ]
  | inr (g, grouped) ↦ elim (Result-cases (check_group ix b g)) [
    | inr (e, failed) ↦ absurd (ground arith)
    | inl (g', checked) ↦
        elim (Result-cases (join_group groups (record b { group = some g' }) g')) [
          | inr (e, failed) ↦ absurd (ground arith)
          | inl (groups', joined) ↦ elim (Result-cases (form_groups ix groups' bs)) [
            | inr (e, failed) ↦ absurd (ground arith)
            | inl ((others, formed'), more) ↦
                subst (Regrouped (b ∷ bs)) {x = record b { group = some g' } ∷ others} {y = bs'}
                  (ground arith)
                  ((some g', refl), form_groups-Regrouped ix groups' formed' bs others more)
          ]
        ]
  ]
]

pub compile_groups-Regrouped :
    (indexes : Map String (List ℕ)) (bs formed : List BindingSpec) (groups : List GroupPlan)
    → compile_groups indexes bs ≡ some (ok (formed, groups))
    → Regrouped bs formed
unfolding compile_groups
compile_groups-Regrouped indexes bs formed groups h = elim (Bool-cases (any_grouped bs)) [
  | inr none_grouped ↦ subst (Regrouped bs) {x = bs} {y = formed} (ground arith) (Regrouped-refl bs)
  | inl some_grouped ↦
      elim (Result-cases (index_bindings (record { by_path = Map.new; aliases = Map.new }) bs)) [
        | inr (e, failed) ↦ absurd (ground arith)
        | inl (ix, indexed) ↦ elim (Result-cases (form_groups ix [] bs)) [
          | inr (e, failed) ↦ absurd (ground arith)
          | inl ((bs', groups'), grouped) ↦ elim (Option-cases (check_groups ix indexes groups')) [
            | inl out ↦ absurd (ground arith)
            | inr (checks, checked) ↦ elim (Result-cases checks) [
              | inr (e, failed) ↦ absurd (ground arith)
              | inl (u, passed) ↦ form_groups-Regrouped ix [] groups' bs formed (ground arith)
            ]
          ]
        ]
      ]
]

pub Regrouped-All :
    (P : BindingSpec → Type 0) (bs bs' : List BindingSpec)
    → ((b : BindingSpec) (g : Option GroupSpec) → P b → P (record b { group = g }))
    → Regrouped bs bs'
    → All P bs
    → All P bs'
Regrouped-All P [] [] keeps same all = tt
Regrouped-All P (b ∷ bs) (c ∷ cs) keeps ((g, same), rest) (here, all) =
    (subst P (sym same) (keeps b g here), Regrouped-All P bs cs keeps rest all)
Regrouped-All P [] (c ∷ cs) keeps same all = cc
Regrouped-All P (b ∷ bs) [] keeps same all = cc

pub Regrouped-IsDistinct :
    (seen : List String) (bs bs' : List BindingSpec)
    → Regrouped bs bs'
    → IsDistinct seen bs
    → IsDistinct seen bs'
Regrouped-IsDistinct seen [] [] same distinct = tt
Regrouped-IsDistinct seen (b ∷ bs) (c ∷ cs) ((g, same), rest) (fresh, distinct) = (
  ground arith,
  subst (λ k. IsDistinct (k ∷ seen) cs) (ap (λ (k : BindingSpec). k.path) (sym same))
      (Regrouped-IsDistinct (b.path ∷ seen) bs cs rest distinct),
)
Regrouped-IsDistinct seen [] (c ∷ cs) same distinct = cc
Regrouped-IsDistinct seen (b ∷ bs) [] same distinct = cc
