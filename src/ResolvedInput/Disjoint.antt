-- ===== src/ResolvedInput/Disjoint.antt =====
-- resolved_input.go: what is accepted, beside the members of resolution groups.
use bindly.Prelude.{
  ℕ, String, Bool, true, false, ◌&&◌, ◌≡◌, sym, ◌⊎◌, inl, inr, Option, some, List, [], ◌∷◌, str_eq,
  nat_eq, nat_eq_iff, arith, Bool-cases, Option-cases,
}
use mathlib.Core.List.{Memᴰ}
use mathlib.Core.Path.{subst}
use bindly.Prelude.Comparable.{string_comparable}
use bindly.Map
use bindly.Map.{Map}
use bindly.Reflect.{Visibility, GoType, Value}
use bindly.Errors.{Error, Result, ok, Result-cases}
use bindly.Field.{Access, get, set_value}
use bindly.Field.Lens.{get-set_ne}
use bindly.Spec.{BindingSpec}
use bindly.Groups.{GroupPlan, shares_prefix}
use bindly.Plan.{Plan, target_type, is_target}
use bindly.ResolvedInput.{
  Seed, overlapping, index_of, writes_of, overlaps_some, hits_member, check_members, check_groups,
  check_paths, validate_group_paths, all_dependencies, has_groups, prepare_seed,
}

overlapping-shares_prefix :
    (left right : List ℕ) → overlapping left right ≡ false → shares_prefix right left ≡ false
unfolding overlapping shares_prefix
overlapping-shares_prefix [] right h = cc
overlapping-shares_prefix (l ∷ left) [] h = cc
overlapping-shares_prefix (l ∷ left) (r ∷ right) h = elim (Bool-cases (nat_eq l r)) [
  | inl same ↦ ground (arith, overlapping-shares_prefix left right)
  | inr differ ↦ ground (arith, nat_eq_iff l r, nat_eq_iff r l)
]

check_members-hits :
    (plan : Plan) (path : String) (writes : List (List ℕ)) (members : List BindingSpec)
    (m : BindingSpec)
    → check_members plan path writes members ≡ ok tt
    → Memᴰ m members
    → hits_member plan writes m ≡ false
unfolding check_members
check_members-hits plan path writes [] m h k = elim k [ ]
check_members-hits plan path writes (n ∷ rest) m h k =
    elim (Bool-cases (hits_member plan writes n)) [
      | inl hit ↦ absurd (ground arith)
      | inr clear ↦ elim k [
        | Memᴰ.head e ↦ subst (λ x. hits_member plan writes x ≡ false) (sym e) clear
        | Memᴰ.tail later ↦ check_members-hits plan path writes rest m (ground arith) later
      ]
    ]

check_groups-hits :
    (plan : Plan) (path : String) (writes : List (List ℕ)) (groups : List GroupPlan) (g : GroupPlan)
    (m : BindingSpec)
    → check_groups plan path writes groups ≡ ok tt
    → Memᴰ g groups
    → Memᴰ m g.members
    → hits_member plan writes m ≡ false
unfolding check_groups
check_groups-hits plan path writes [] g m h k inside = elim k [ ]
check_groups-hits plan path writes (d ∷ rest) g m h k inside =
    elim (Result-cases (check_members plan path writes d.members)) [
      | inr (e, failed) ↦ absurd (ground arith)
      | inl (u, passed) ↦ elim k [
        | Memᴰ.head e ↦
            check_members-hits plan path writes d.members m passed
              (subst (λ (x : GroupPlan). Memᴰ m x.members) e inside)
        | Memᴰ.tail later ↦ check_groups-hits plan path writes rest g m (ground arith) later inside
      ]
    ]

check_paths-hits :
    (plan : Plan) (paths : List String) (path : String) (a : Access) (g : GroupPlan)
    (m : BindingSpec)
    → check_paths plan paths ≡ ok tt
    → Memᴰ path paths
    → Map.get plan.fields path ≡ some a
    → Memᴰ g plan.groups
    → Memᴰ m g.members
    → hits_member plan (writes_of plan path a) m ≡ false
unfolding check_paths
check_paths-hits plan [] path a g m h k found grouped inside = elim k [ ]
check_paths-hits plan (p ∷ rest) path a g m h k found grouped inside =
    elim (Option-cases (Map.get plan.fields p)) [
      | inl missing ↦ elim k [
        | Memᴰ.head e ↦ absurd (ground arith)
        | Memᴰ.tail later ↦
            check_paths-hits plan rest path a g m (ground arith) later found grouped inside
      ]
      | inr (b, there) ↦
          elim (Result-cases (check_groups plan p (writes_of plan p b) plan.groups)) [
            | inr (e, failed) ↦ absurd (ground arith)
            | inl (u, passed) ↦ elim k [
              | Memᴰ.head e ↦
                  let same : b ≡ a = ground arith in
                  subst (λ x. hits_member plan (writes_of plan path x) m ≡ false) same
                    (subst (λ x. hits_member plan (writes_of plan x b) m ≡ false) (sym e)
                      (check_groups-hits plan p (writes_of plan p b) plan.groups g m passed grouped
                        inside))
              | Memᴰ.tail later ↦
                  check_paths-hits plan rest path a g m (ground arith) later found grouped inside
            ]
          ]
    ]

-- A group member's field or marker, unless it is empty, is apart from the selected field.
hits_member-apart :
    (plan : Plan) (path protected : String) (a : Access) (m : BindingSpec)
    → hits_member plan (writes_of plan path a) m ≡ false
    → (protected ≡ m.path) ⊎ (protected ≡ m.marker_field)
    → str_eq protected "" ≡ false
    → overlapping a.index (index_of plan protected) ≡ false
unfolding hits_member overlaps_some writes_of
hits_member-apart plan path protected a m h (inl same) filled =
    subst (λ k. overlapping a.index (index_of plan k) ≡ false) (sym same)
      (elim (Bool-cases (str_eq m.path "")) [
        | inl empty ↦ absurd (ground arith)
        | inr some_path ↦ ground arith
      ])
hits_member-apart plan path protected a m h (inr same) filled =
    subst (λ k. overlapping a.index (index_of plan k) ≡ false) (sym same)
      (elim (Bool-cases (str_eq m.marker_field "")) [
        | inl empty ↦ absurd (ground arith)
        | inr some_path ↦ ground arith
      ])

module _ (select : GoType → List String → Option Error)
    (clone : Value → List String → Result Value) where
  prepare_seed-check :
      (plan : Plan) (seed : Seed) (target : Value) (values : Map String Value)
      → prepare_seed select clone plan seed target ≡ ok values
      → has_groups plan ≡ true
      → check_paths plan seed.paths ≡ ok tt
  unfolding prepare_seed validate_group_paths
  prepare_seed-check plan seed target values h grouped =
      elim (Bool-cases (is_target plan target && is_target plan seed.input)) [
        | inr other ↦ absurd (ground arith)
        | inl fits ↦ elim (Bool-cases (all_dependencies plan.groups)) [
          | inr legacy ↦ absurd (ground arith)
          | inl dependency ↦ elim (Result-cases (check_paths plan seed.paths)) [
            | inr (e, failed) ↦ absurd (ground arith)
            | inl (u, passed) ↦ passed
          ]
        ]
      ]

  -- When supplied values are accepted for a plan with groups, no write to the field or the presence
  -- marker of a group's member, successful or not, changes what is read in the field of a selected
  -- path.
  pub prepare_seed-apart :
      (assignable : GoType → GoType → Bool) (plan : Plan) (seed : Seed) (target : Value)
      (values : Map String Value) (path protected : String) (a m : Access) (g : GroupPlan)
      (member : BindingSpec) (new v found : Value)
      → prepare_seed select clone plan seed target ≡ ok values
      → has_groups plan ≡ true
      → Memᴰ path seed.paths
      → Map.get plan.fields path ≡ some a
      → Memᴰ g plan.groups
      → Memᴰ member g.members
      → (protected ≡ member.path) ⊎ (protected ≡ member.marker_field)
      → str_eq protected "" ≡ false
      → Map.get plan.fields protected ≡ some m
      → get a.index (target_type plan) v ≡ some found
      → get a.index
          (target_type plan)
          (set_value assignable m.index (target_type plan) false Visibility.exported new v).0
        ≡ some found
  prepare_seed-apart assignable plan seed target values path protected a m g member new v found h
        grouped k there gm mm which filled declared held =
      let clear =
        check_paths-hits plan seed.paths path a g member
          (prepare_seed-check plan seed target values h grouped) k there gm mm in
      let apart = hits_member-apart plan path protected a member clear which filled in
      get-set_ne assignable m.index a.index (target_type plan) false Visibility.exported new v found
        (overlapping-shares_prefix a.index m.index (ground arith)) held
