-- ===== src/Groups/Stages/Ordered.antt =====
-- resolution_group.go: bindWithGroups binds what a group comes after before it, and every binding.
use bindly.Prelude.{
  String, true, false, ◌||◌, ◌≡◌, refl, sym, ap, ◌∙◌, ◌⊎◌, inl, inr, List, [], ◌∷◌, ◌++◌, All,
  eq_iff, is_some, arith, Bool-cases, Option-cases,
}
use mathlib.Core.Path.{subst}
use bindly.Errors.{ok, Result-cases}
use bindly.Spec.{BindingSpec}
use bindly.Plan.{Plan}
use bindly.Resolve.{contains}
use bindly.Groups.{GroupPlan}
use bindly.Replay.{find_binding}
use bindly.Replay.Keyed.{find_binding-path}
use bindly.Groups.Stages.{
  Conditions, Stage, subset, group, check_conditions, paths_of, barriers, remaining, group_stages,
  first_specs, bind_stages,
}

-- The paths that a stage completes.
abbrev pub stage_paths : Stage → List String
stage_paths (subset specs) = paths_of specs
stage_paths (group g) = paths_of g.members

-- What a group comes after is completed, and the bindings of other stages are not.
abbrev pub IsReady : List String → Stage → Type 0
IsReady completed (subset specs) =
    All (λ (b : BindingSpec). contains completed b.path ≡ false) specs
IsReady completed (group g) = All (λ path. contains completed path ≡ true) g.after

-- Each stage is ready once those before it have been performed.
abbrev pub IsOrdered : List String → List Stage → Type 0
IsOrdered completed [] = Unit
IsOrdered completed (stage ∷ rest) =
    IsReady completed stage × IsOrdered (stage_paths stage ++ completed) rest

-- Some stage completes a path.
abbrev pub Completes : List Stage → String → Type 0
Completes [] path = true ≡ false
Completes (stage ∷ rest) path = (contains (stage_paths stage) path ≡ true) ⊎ Completes rest path

-- Every path that a group comes after is that of a binding.
abbrev pub IsKnown : List BindingSpec → List GroupPlan → Type 0
IsKnown bindings [] = Unit
IsKnown bindings (g ∷ gs) =
    All (λ path. is_some (find_binding bindings path) ≡ true) g.after × IsKnown bindings gs

contains-append :
    (xs ys : List String) (k : String) → contains (xs ++ ys) k ≡ (contains xs k || contains ys k)
unfolding contains
contains-append [] ys k = refl
contains-append (x ∷ xs) ys k = ground (arith, contains-append xs ys k)

All-widen :
    (x : String) (l paths : List String)
    → All (λ path. contains l path ≡ true) paths
    → All (λ path. contains (x ∷ l) path ≡ true) paths
unfolding contains
All-widen x l [] all = tt
All-widen x l (p ∷ ps) (here, rest) = (ground arith, All-widen x l ps rest)

barriers-IsReady :
    (bindings : List BindingSpec) (completed after : List String)
    → All (λ path. is_some (find_binding bindings path) ≡ true) after
    → All
        (λ path. contains (paths_of (barriers bindings completed after) ++ completed) path ≡ true)
        after
unfolding barriers contains
barriers-IsReady bindings completed [] known = tt
barriers-IsReady bindings completed (p ∷ ps) (here, rest) =
    let others = barriers-IsReady bindings completed ps rest in
    elim (Bool-cases (contains completed p)) [
      | inl earlier ↦ (
        ground (arith, contains-append (paths_of (barriers bindings completed ps)) completed p),
        subst (λ bs. All (λ path. contains (paths_of bs ++ completed) path ≡ true) ps)
            {x = barriers bindings completed ps} {y = barriers bindings completed (p ∷ ps)}
            (ground arith) others,
      )
      | inr fresh ↦ elim (Option-cases (find_binding bindings p)) [
        | inl missing ↦ absurd (ground arith)
        | inr (b, found) ↦
            subst (λ bs. All (λ path. contains (paths_of bs ++ completed) path ≡ true) (p ∷ ps))
              {x = b ∷ barriers bindings completed ps} {y = barriers bindings completed (p ∷ ps)}
              (ground arith)
              (
                ground (arith, find_binding-path bindings p b found, eq_iff b.path p),
                All-widen b.path (paths_of (barriers bindings completed ps) ++ completed) ps others,
              )
      ]
    ]

none_completed :
    (specs : List BindingSpec) → All (λ (b : BindingSpec). contains [] b.path ≡ false) specs
unfolding contains
none_completed [] = tt
none_completed (b ∷ bs) = (refl, none_completed bs)

barriers-Fresh :
    (bindings : List BindingSpec) (completed after : List String)
    → All
        (λ (b : BindingSpec). contains completed b.path ≡ false)
        (barriers bindings completed after)
unfolding barriers
barriers-Fresh bindings completed [] = tt
barriers-Fresh bindings completed (p ∷ ps) =
    let others = barriers-Fresh bindings completed ps in
    elim (Bool-cases (contains completed p)) [
      | inl earlier ↦
          subst (All (λ (b : BindingSpec). contains completed b.path ≡ false))
            {x = barriers bindings completed ps} {y = barriers bindings completed (p ∷ ps)}
            (ground arith) others
      | inr fresh ↦ elim (Option-cases (find_binding bindings p)) [
        | inl missing ↦
            subst (All (λ (b : BindingSpec). contains completed b.path ≡ false))
              {x = barriers bindings completed ps} {y = barriers bindings completed (p ∷ ps)}
              (ground arith) others
        | inr (b, found) ↦
            subst (All (λ (b : BindingSpec). contains completed b.path ≡ false))
              {x = b ∷ barriers bindings completed ps} {y = barriers bindings completed (p ∷ ps)}
              (ground arith)
              (ap (contains completed) (find_binding-path bindings p b found) ∙ fresh, others)
      ]
    ]

remaining-Fresh :
    (completed : List String) (bindings : List BindingSpec)
    → All (λ (b : BindingSpec). contains completed b.path ≡ false) (remaining completed bindings)
unfolding remaining
remaining-Fresh completed [] = tt
remaining-Fresh completed (b ∷ rest) = elim (Bool-cases (contains completed b.path)) [
  | inl earlier ↦
      subst (All (λ (b : BindingSpec). contains completed b.path ≡ false))
        {x = remaining completed rest} {y = remaining completed (b ∷ rest)} (ground arith)
        (remaining-Fresh completed rest)
  | inr fresh ↦
      subst (All (λ (b : BindingSpec). contains completed b.path ≡ false))
        {x = b ∷ remaining completed rest} {y = remaining completed (b ∷ rest)} (ground arith)
        (fresh, remaining-Fresh completed rest)
]

group_stages-IsOrdered :
    (bindings : List BindingSpec) (completed : List String) (groups : List GroupPlan)
    → IsKnown bindings groups
    → IsOrdered completed (group_stages bindings completed groups)
unfolding group_stages
group_stages-IsOrdered bindings completed [] known = (remaining-Fresh completed bindings, tt)
group_stages-IsOrdered bindings completed (g ∷ rest) (here, others) =
    let waited = barriers bindings completed g.after in
    (
      barriers-Fresh bindings completed g.after,
      (
        barriers-IsReady bindings completed g.after here,
        group_stages-IsOrdered bindings (paths_of g.members ++ (paths_of waited ++ completed)) rest
            others,
      ),
    )

remaining-Completes :
    (completed : List String) (bindings : List BindingSpec) (path : String)
    → contains (paths_of bindings) path ≡ true
    → contains completed path ≡ false
    → contains (paths_of (remaining completed bindings)) path ≡ true
unfolding remaining contains
remaining-Completes completed [] path here fresh = here
remaining-Completes completed (b ∷ rest) path here fresh =
    elim (Bool-cases (contains (paths_of rest) path)) [
      | inl later ↦ ground (arith, remaining-Completes completed rest path later fresh)
      | inr first ↦ ground (
        arith,
        eq_iff b.path path,
        ap (contains completed) ((eq_iff b.path path).0 (ground arith)),
      )
    ]

group_stages-Completes :
    (bindings : List BindingSpec) (completed : List String) (groups : List GroupPlan)
    (path : String)
    → contains (paths_of bindings) path ≡ true
    → (contains completed path ≡ true) ⊎ Completes (group_stages bindings completed groups) path
unfolding group_stages
group_stages-Completes bindings completed [] path here =
    elim (Bool-cases (contains completed path)) [
      | inl earlier ↦ inl earlier
      | inr fresh ↦ inr (inl (remaining-Completes completed bindings path here fresh))
    ]
group_stages-Completes bindings completed (g ∷ rest) path here =
    let waited = barriers bindings completed g.after in
    elim (group_stages-Completes bindings (paths_of g.members ++ (paths_of waited ++ completed))
      rest path here) [
        | inr later ↦ inr (inr (inr later))
        | inl done ↦ elim (Bool-cases (contains (paths_of g.members) path)) [
          | inl member ↦ inr (inr (inl member))
          | inr other ↦ elim (Bool-cases (contains (paths_of waited) path)) [
            | inl barrier ↦ inr (inl barrier)
            | inr neither ↦ inl (
                ground (
                  arith,
                  contains-append (paths_of g.members) (paths_of waited ++ completed) path,
                  contains-append (paths_of waited) completed path,
                ))
          ]
        ]
      ]

module _ (c : Conditions) (plan : Plan) (stages : List Stage)
    (staged : bind_stages c plan ≡ ok stages) where
  stages-cases :
      (stages ≡ group_stages plan.bindings [] plan.groups)
      ⊎ ((specs : List BindingSpec) × (stages
            ≡ subset specs ∷ group_stages plan.bindings (paths_of specs ++ []) plan.groups))
  unfolding bind_stages
  stages-cases = elim (Result-cases (check_conditions c plan.groups)) [
    | inr (e, failed) ↦ absurd (ground arith)
    | inl (u, passed) ↦ elim (Option-cases (first_specs c plan.bindings)) [
      | inl unseeded ↦ inl (ground arith)
      | inr (specs, supplied) ↦ inr (specs, ground arith)
    ]
  ]

  -- When the invocation passes the checks of `bindWithGroups`, every group is worked on behind the
  -- bindings that it comes after: each of their paths is completed by an earlier stage. The other
  -- stages bind nothing that an earlier stage has completed. The paths that a group comes after are
  -- to be those of bindings of the plan.
  pub bind_stages-IsOrdered : IsKnown plan.bindings plan.groups → IsOrdered [] stages
  bind_stages-IsOrdered known = elim stages-cases [
    | inl plain ↦
        subst (IsOrdered []) (sym plain) (group_stages-IsOrdered plan.bindings [] plan.groups known)
    | inr (specs, supplied) ↦ subst (IsOrdered []) (sym supplied) (
      none_completed specs,
      group_stages-IsOrdered plan.bindings (paths_of specs ++ []) plan.groups known,
    )
  ]

  -- When the invocation passes the checks, some stage of `bindWithGroups` completes the path of
  -- each binding of the plan.
  pub bind_stages-Completes :
      (path : String) → contains (paths_of plan.bindings) path ≡ true → Completes stages path
  unfolding contains
  bind_stages-Completes path here = elim stages-cases [
    | inl plain ↦
        subst (λ l. Completes l path) (sym plain)
          (elim (group_stages-Completes plan.bindings [] plan.groups path here) [
            | inl impossible ↦ absurd (ground arith)
            | inr completed ↦ completed
          ])
    | inr (specs, supplied) ↦
        subst (λ l. Completes l path) (sym supplied)
          (elim (group_stages-Completes plan.bindings (paths_of specs ++ []) plan.groups path
            here) [
              | inl first ↦ inl (ground (arith, contains-append (paths_of specs) [] path))
              | inr later ↦ inr later
            ])
  ]
