-- ===== src/Plan/Bound.antt =====
-- plan.go: the bindings of a compiled plan have their fields and markers in it.
use bindly.Prelude.{
  String, true, false, ◌≡◌, ◌∙◌, sym, ap, refl, ◌⊎◌, inl, inr, some, List, [], ◌∷◌, All, str_eq,
  eq_iff, arith, Bool-cases, Option-cases, is_some,
}
use mathlib.Core.Path.{subst}
use bindly.Prelude.Comparable.{string_comparable}
use bindly.Map
use bindly.Map.{Map}
use bindly.Map.Laws.{get-put, get-new}
use bindly.Reflect.{GoType, base_type}
use bindly.Errors.{ok, Result-cases}
use bindly.Field.{Access, type_at}
use bindly.Spec.{BindingSpec, validate_null_policy}
use bindly.RecordCount.{compile_record_count}
use bindly.Resolve.{contains}
use bindly.Groups.{compile_groups}
use bindly.Groups.Regrouped.{
  IsDistinct, compile_groups-Regrouped, Regrouped-All, Regrouped-IsDistinct,
}
use bindly.Plan.{Plan}
use bindly.Plan.Compile.{
  StructField, Surroundings, is_struct, is_bool, resolve_plan_field, add_marker, marker_field_of,
  transformer_of, default_of, refuse_fault, compile_binding, compile_bindings, index_map,
  compile_plan,
}
use bindly.Plan.Typed.{LeadsToFields, resolve_plan_field-type}

abbrev access_of : StructField → Access
access_of f = record { index = f.index; type = f.type }

-- An entry is what its path resolves to.
abbrev AllResolved : Surroundings → GoType → Map String Access → Type 0
AllResolved r target fields =
    (path : String) (a : Access)
    → Map.get fields path ≡ some a
    → (f : StructField) × (resolve_plan_field r target path ≡ ok f) × (a ≡ access_of f)

abbrev Known : Map String Access → String → Type 0
Known fields k = is_some (Map.get fields k) ≡ true

abbrev Grows : Map String Access → Map String Access → Type 0
Grows fields fields' = (k : String) → Known fields k → Known fields' k

-- A binding's field and marker, a Boolean one, have entries.
abbrev HasEntries : Surroundings → GoType → Map String Access → BindingSpec → Type 0
HasEntries r target fields b =
    Known fields b.path
    × ((str_eq b.marker_field "" ≡ true)
        ⊎ (Known fields b.marker_field
            × ((f : StructField) × (resolve_plan_field r target b.marker_field ≡ ok f)
                × (is_bool f.type ≡ true))))
    × (str_eq b.location.kind "" ≡ false)

HasEntries-Grows :
    (r : Surroundings) (target : GoType) (fields fields' : Map String Access) (b : BindingSpec)
    → Grows fields fields'
    → HasEntries r target fields b
    → HasEntries r target fields' b
HasEntries-Grows r target fields fields' b grows (k, inl m, e) = (grows b.path k, inl m, e)
HasEntries-Grows r target fields fields' b grows (k, inr (m, f), e) =
    (grows b.path k, inr (grows b.marker_field m, f), e)

module _ (r : Surroundings) (target : GoType) where
  put-AllResolved :
      (fields : Map String Access) (path : String) (f : StructField)
      → AllResolved r target fields
      → resolve_plan_field r target path ≡ ok f
      → AllResolved r target (Map.put fields path (access_of f))
  put-AllResolved fields path f all resolved k a h = elim (Bool-cases (str_eq path k)) [
    | inl same ↦
        (f, ground (arith, eq_iff path k), ground (arith, get-put fields path k (access_of f)))
    | inr differ ↦ all k a (ground (arith, get-put fields path k (access_of f)))
  ]

  put-Grows :
      (fields : Map String Access) (path : String) (a : Access)
      → Grows fields (Map.put fields path a)
  put-Grows fields path a k known = ground (arith, get-put fields path k a)

  put-Known :
      (fields : Map String Access) (path : String) (a : Access) → Known (Map.put fields path a) path
  put-Known fields path a = ground (arith, get-put fields path path a, eq_iff path path)

  -- What compiling one binding, or all, does to the fields.
  abbrev Extends : Map String Access → Map String Access → Type 0
  Extends fields fields' =
      (AllResolved r target fields → AllResolved r target fields') × Grows fields fields'

  add_marker-Extends :
      (marker : String) (fields fields' : Map String Access)
      → add_marker r target marker fields ≡ ok fields'
      → Extends fields fields'
        × ((str_eq marker "" ≡ true)
            ⊎ (Known fields' marker
                × ((f : StructField) × (resolve_plan_field r target marker ≡ ok f)
                    × (is_bool f.type ≡ true))))
  unfolding add_marker
  add_marker-Extends marker fields fields' h = elim (Bool-cases (str_eq marker "")) [
    | inl empty ↦ (
      subst (Extends fields) {x = fields} {y = fields'} (ground arith)
          (λ all. all, λ k known. known),
      inl empty,
    )
    | inr named ↦ elim (Result-cases (resolve_plan_field r target marker)) [
      | inr (e, failed) ↦ absurd (ground arith)
      | inl (f, resolved) ↦ elim (Bool-cases (is_bool f.type)) [
        | inr other ↦ absurd (ground arith)
        | inl bool ↦
            let same : Map.put fields marker (access_of f) ≡ fields' = ground arith in
            (
              subst (Extends fields) same (
                λ all. put-AllResolved fields marker f all resolved,
                put-Grows fields marker (access_of f),
              ),
              inr (
                subst (λ m. Known m marker) same (put-Known fields marker (access_of f)),
                (f, resolved, bool),
              ),
            )
      ]
    ]
  ]

  -- The field and then the marker of one binding.
  fields-Extends :
      (fields marked : Map String Access) (b : BindingSpec) (f : StructField)
      → resolve_plan_field r target b.path ≡ ok f
      → add_marker r target b.marker_field (Map.put fields b.path (access_of f)) ≡ ok marked
      → str_eq b.location.kind "" ≡ false
      → Extends fields marked × HasEntries r target marked b
  fields-Extends fields marked b f resolved added kind =
      let (extends, marker) =
        add_marker-Extends b.marker_field (Map.put fields b.path (access_of f)) marked added in
      (
        (
          λ all. extends.0 (put-AllResolved fields b.path f all resolved),
          λ k known. extends.1 k (put-Grows fields b.path (access_of f) k known),
        ),
        (extends.1 b.path (put-Known fields b.path (access_of f)), marker, kind),
      )

  compile_binding-Extends :
      (fields fields' : Map String Access) (spec b : BindingSpec)
      → compile_binding r target fields spec ≡ ok (b, fields')
      → Extends fields fields' × HasEntries r target fields' b × (b.path ≡ spec.path)
  unfolding compile_binding
  compile_binding-Extends fields fields' spec b h =
      elim (Result-cases (resolve_plan_field r target spec.path)) [
        | inr (e, failed) ↦ absurd (ground arith)
        | inl (f, resolved) ↦
            elim (Result-cases (refuse_fault r (compile_record_count spec f.type))) [
              | inr (e, failed) ↦ absurd (ground arith)
              | inl (u, counted) ↦
                  elim (Result-cases (
                    add_marker r target (marker_field_of r target spec)
                      (Map.put fields spec.path (access_of f)))) [
                        | inr (e, failed) ↦ absurd (ground arith)
                        | inl (marked, added) ↦ elim (Bool-cases (str_eq spec.location.kind "")) [
                          | inl empty ↦ absurd (ground arith)
                          | inr kind ↦ elim (Result-cases (transformer_of r spec f)) [
                            | inr (e, failed) ↦ absurd (ground arith)
                            | inl (t, made) ↦ elim (Result-cases (default_of r spec)) [
                              | inr (e, failed) ↦ absurd (ground arith)
                              | inl (d, copied) ↦
                                  let compiled = record spec {
                                    marker_field = marker_field_of r target spec;
                                    transformer = t;
                                    default_value = d;
                                  } in
                                  elim (Result-cases (
                                    refuse_fault r (validate_null_policy compiled (some f.type)))) [
                                      | inr (e, failed) ↦ absurd (ground arith)
                                      | inl (w, valid) ↦
                                          subst
                                            (λ (k : BindingSpec × Map String Access).
                                              Extends fields k.1
                                              × HasEntries r target k.1 k.0
                                              × (k.0.path ≡ spec.path))
                                            {x = (compiled, marked)} {y = (b, fields')}
                                            (ground arith)
                                            (let (extends, entries) =
                                                fields-Extends fields marked compiled f resolved
                                                  added kind in
                                              (extends, entries, refl))
                                    ]
                            ]
                          ]
                        ]
                      ]
            ]
      ]

  compile_bindings-Extends :
      (seen : List String) (fields fields' : Map String Access) (specs bs : List BindingSpec)
      → compile_bindings r target seen fields specs ≡ ok (bs, fields')
      → Extends fields fields' × All (HasEntries r target fields') bs × IsDistinct seen bs
  unfolding compile_bindings
  compile_bindings-Extends seen fields fields' [] bs h =
      subst
        (λ (k : List BindingSpec × Map String Access).
          Extends fields k.1 × All (HasEntries r target k.1) k.0 × IsDistinct seen k.0)
        {x = ([], fields)} {y = (bs, fields')} (ground arith)
        ((λ all. all, λ k known. known), tt, tt)
  compile_bindings-Extends seen fields fields' (spec ∷ rest) bs h =
      elim (Bool-cases (contains seen spec.path)) [
        | inl again ↦ absurd (ground arith)
        | inr fresh ↦ elim (Result-cases (compile_binding r target fields spec)) [
          | inr (e, failed) ↦ absurd (ground arith)
          | inl ((b, middle), one) ↦
              elim (Result-cases (compile_bindings r target (spec.path ∷ seen) middle rest)) [
                | inr (e, failed) ↦ absurd (ground arith)
                | inl ((others, last), more) ↦
                    let (first, entries, path) = compile_binding-Extends fields middle spec b one in
                    let (then, later, distinct) =
                      compile_bindings-Extends (spec.path ∷ seen) middle last rest others more in
                    subst
                      (λ (k : List BindingSpec × Map String Access).
                        Extends fields k.1
                        × All (HasEntries r target k.1) k.0
                        × IsDistinct seen k.0)
                      {x = (b ∷ others, last)} {y = (bs, fields')} (ground arith)
                      (
                        (λ all. then.0 (first.0 all), λ k known. then.1 k (first.1 k known)),
                        (HasEntries-Grows r target middle last b then.1 entries, later),
                        (
                          subst (λ k. contains seen k ≡ false) (sym path) fresh,
                          subst (λ k. IsDistinct (k ∷ seen) others) (sym path) distinct,
                        ),
                      )
              ]
        ]
      ]

-- A binding's field and Boolean marker are in the plan, and it names its source.
abbrev pub IsBound : Plan → BindingSpec → Type 0
IsBound plan b =
    ((a : Access) × (Map.get plan.fields b.path ≡ some a))
    × ((str_eq b.marker_field "" ≡ true)
        ⊎ ((m : Access) × (Map.get plan.fields b.marker_field ≡ some m) × (is_bool m.type ≡ true)))
    × (str_eq b.location.kind "" ≡ false)

HasEntries-IsBound :
    (r : Surroundings) (plan : Plan) (b : BindingSpec)
    → AllResolved r plan.target plan.fields
    → HasEntries r plan.target plan.fields b
    → IsBound plan b
HasEntries-IsBound r plan b all (known, marker, kind) = (entry b.path known, marked marker, kind)
  where
    entry : (k : String) → Known plan.fields k → (a : Access) × (Map.get plan.fields k ≡ some a)
    entry k known = elim (Option-cases (Map.get plan.fields k)) [
      | inl missing ↦ absurd (ground arith)
      | inr found ↦ found
    ]

    marked :
        (str_eq b.marker_field "" ≡ true)
          ⊎ (Known plan.fields b.marker_field
              × ((f : StructField) × (resolve_plan_field r plan.target b.marker_field ≡ ok f)
                  × (is_bool f.type ≡ true)))
        → (str_eq b.marker_field "" ≡ true)
          ⊎ ((m : Access) × (Map.get plan.fields b.marker_field ≡ some m) × (is_bool m.type ≡ true))
    marked (inl empty) = inl empty
    marked (inr (known, (f, resolved, bool))) =
        let (m, found) = entry b.marker_field known in
        let (g, again, same) = all b.marker_field m found in
        let kind : m.type ≡ f.type = ap (λ (x : Access). x.type) same ∙ ground arith in
        inr (m, found, subst (λ t. is_bool t ≡ true) (sym kind) bool)

abbrev HasAll : Surroundings → Plan → Type 0
HasAll r plan =
    AllResolved r plan.target plan.fields
    × All (HasEntries r plan.target plan.fields) plan.bindings
    × IsDistinct [] plan.bindings

All-map :
    {P Q : BindingSpec → Type 0}
    → ((b : BindingSpec) → P b → Q b)
    → (bs : List BindingSpec) → All P bs
    → All Q bs
All-map f [] all = tt
All-map f (b ∷ bs) (here, rest) = (f b here, All-map f bs rest)

module _ (r : Surroundings) (target : GoType) (specs : List BindingSpec) (plan : Plan)
    (compiled : compile_plan r target specs ≡ some (ok plan)) where
  compile_plan-entries : HasAll r plan
  unfolding compile_plan
  compile_plan-entries = elim (Bool-cases (is_struct (base_type target))) [
    | inr scalar ↦ absurd (ground arith)
    | inl struct ↦ elim (Result-cases (compile_bindings r (base_type target) [] Map.new specs)) [
      | inr (e, failed) ↦ absurd (ground arith)
      | inl ((bindings, fields), bound) ↦
          elim (Option-cases (compile_groups (index_map r fields) bindings)) [
            | inl out ↦ absurd (ground arith)
            | inr (checked, grouped) ↦ elim (Result-cases checked) [
              | inr (e, failed) ↦ absurd (ground arith)
              | inl ((formed, groups), done) ↦
                  let regrouped =
                    compile_groups-Regrouped (index_map r fields) bindings formed groups
                      (grouped ∙ ap some done) in
                  let (extends, entries, distinct) =
                    compile_bindings-Extends r (base_type target) [] Map.new fields specs bindings
                      bound in
                  subst (HasAll r)
                    {x = record {
                      groups = groups;
                      target = base_type target;
                      bindings = formed;
                      fields = fields;
                    }}
                    {y = plan} (ground arith)
                    (
                      extends.0 (λ path a h. ground (arith, get-new {V = Access} path)),
                      Regrouped-All (HasEntries r (base_type target) fields) bindings formed
                          (λ b g h. h) regrouped entries,
                      Regrouped-IsDistinct [] bindings formed regrouped distinct,
                    )
            ]
          ]
    ]
  ]

  -- In a compiled plan each binding has its field, and its presence marker, which is Boolean, if it
  -- has one; it names the kind of its source, and no two bindings have the same path.
  pub compile_plan-IsBound : All (IsBound plan) plan.bindings × IsDistinct [] plan.bindings
  compile_plan-IsBound =
      let (all, entries, distinct) = compile_plan-entries in
      (All-map (λ b h. HasEntries-IsBound r plan b all h) plan.bindings entries, distinct)

  -- In a compiled plan each field's index leads to a field of the field's type, if those of the
  -- fields that reflect finds by name do.
  pub compile_plan-type_at :
      LeadsToFields r
      → (path : String) (a : Access) → Map.get plan.fields path ≡ some a
      → type_at a.index plan.target ≡ some a.type
  compile_plan-type_at leads path a h =
      let (all, _, _) = compile_plan-entries in
      let (f, resolved, same) = all path a h in
      subst (λ (k : Access). type_at k.index plan.target ≡ some k.type) (sym same)
        (resolve_plan_field-type r leads plan.target path f resolved)
