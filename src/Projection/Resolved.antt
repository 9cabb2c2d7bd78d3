-- ===== src/Projection/Resolved.antt =====
-- projection.go: the fields of a projection's names.
use bindly.Prelude.{
  String, Bool, true, false, ◌||◌, ◌≡◌, ◌∙◌, refl, inl, inr, some, List, [], ◌∷◌, str_eq, eq_iff,
  arith, Bool-cases, if◌then◌else◌,
}
use mathlib.Core.Path.{subst}
use bindly.Prelude.Comparable.{string_comparable}
use bindly.Map
use bindly.Map.{Map}
use bindly.Map.Laws.{get-put, get-new}
use bindly.Errors.{ok, Result-cases}
use bindly.Spec.{BindingSpec}
use bindly.Resolve.{contains}
use bindly.Plan.{Plan}
use bindly.Plan.Compile.{StructField, Surroundings, resolve_plan_field}
use bindly.Projection.{
  ProjectionField, Projection, differs, is_path, normal, put_name, add_name, add_names, add_fields,
  add_bindings, add_projected, transport_names, add_transport, projection,
}

module _ (r : Surroundings) (to_lower : String → String) where
  -- Every name leads to a path that resolves to the field kept for it.
  abbrev pub IsResolved : Projection → Type 0
  IsResolved p =
      (name path : String)
      → Map.get p.paths name ≡ some path
      → (f : StructField) × (resolve_plan_field r p.target path ≡ ok f)
        × (Map.get p.fields path ≡ some (record { index = f.index; type = f.type }))

  -- The same target, and names that still lead where they led.
  abbrev Keeps : Projection → Projection → Type 0
  Keeps p p' = (p'.target ≡ p.target) × (IsResolved p → IsResolved p')

  Keeps-trans : (p q s : Projection) → Keeps p q → Keeps q s → Keeps p s
  Keeps-trans p q s (t, k) (t', k') = (t' ∙ t, λ h. k' (k h))

  put_name-Keeps :
      (name path : String) (p p' : Projection)
      → put_name r to_lower name path p ≡ ok p'
      → Keeps p p'
  unfolding put_name
  put_name-Keeps name path p p' h = elim (Result-cases (resolve_plan_field r p.target path)) [
    | inr (e, failed) ↦ absurd (ground arith)
    | inl (f, resolved) ↦
        subst (Keeps p)
          {x = record p {
            paths = Map.put p.paths name path;
            fields = Map.put p.fields path (record { index = f.index; type = f.type });
          }}
          {y = p'} (ground arith)
          (
            refl,
            λ all n q k. elim (Bool-cases (str_eq path q)) [
              | inl same ↦ (
                f,
                ground (arith, eq_iff path q),
                ground (arith, get-put p.fields path q (record { index = f.index; type = f.type })),
              )
              | inr differ ↦
                  let (g, there, kept) = all n q (elim (Bool-cases (str_eq name n)) [
                    | inl this ↦ absurd (ground (arith, get-put p.paths name n path, eq_iff path q))
                    | inr other ↦ ground (arith, get-put p.paths name n path)
                  ]) in
                  (
                    g,
                    there,
                    ground (
                      arith,
                      get-put p.fields path q (record { index = f.index; type = f.type }),
                    ),
                  )
            ],
          )
  ]

  same-Keeps : (p p' : Projection) → p ≡ p' → Keeps p p'
  same-Keeps p p' e = subst (Keeps p) e (refl, λ h. h)

  add_name-Keeps :
      (structural : Map String String) (name path : String) (p p' : Projection)
      → add_name r to_lower structural name path p ≡ ok p'
      → Keeps p p'
  unfolding add_name
  add_name-Keeps structural name path p p' h =
      elim (Bool-cases (str_eq (normal r to_lower name) "")) [
        | inl empty ↦ same-Keeps p p' (ground arith)
        | inr filled ↦ elim (Bool-cases (differs (Map.get p.paths (normal r to_lower name)) path)) [
          | inr fresh ↦ put_name-Keeps (normal r to_lower name) path p p' (ground arith)
          | inl taken ↦
              elim (Bool-cases (
                is_path (Map.get structural (normal r to_lower name))
                  (Map.get p.paths (normal r to_lower name)))) [
                    | inl own ↦ same-Keeps p p' (ground arith)
                    | inr clash ↦ absurd (ground arith)
                  ]
        ]
      ]

  add_names-Keeps :
      (structural : Map String String) (path : String) (names : List String) (p p' : Projection)
      → add_names r to_lower structural path names p ≡ ok p'
      → Keeps p p'
  unfolding add_names
  add_names-Keeps structural path [] p p' h = same-Keeps p p' (ground arith)
  add_names-Keeps structural path (name ∷ rest) p p' h =
      elim (Result-cases (add_name r to_lower structural name path p)) [
        | inr (e, failed) ↦ absurd (ground arith)
        | inl (q, added) ↦
            Keeps-trans p q p' (add_name-Keeps structural name path p q added)
              (add_names-Keeps structural path rest q p' (ground arith))
      ]

  add_fields-Keeps :
      (structural structural' : Map String String) (fields : List (String × Bool))
      (p p' : Projection)
      → add_fields r to_lower structural fields p ≡ ok (p', structural')
      → Keeps p p'
  unfolding add_fields
  add_fields-Keeps structural structural' [] p p' h = same-Keeps p p' (ground arith)
  add_fields-Keeps structural structural' ((name, false) ∷ rest) p p' h =
      add_fields-Keeps structural structural' rest p p' h
  add_fields-Keeps structural structural' ((name, true) ∷ rest) p p' h =
      elim (Result-cases (add_name r to_lower structural name name p)) [
        | inr (e, failed) ↦ absurd (ground arith)
        | inl (q, added) ↦ Keeps-trans p q p' (add_name-Keeps structural name name p q added) (
            add_fields-Keeps (Map.put structural (to_lower name) name) structural' rest q p'
              (ground arith))
      ]

  -- A projection with the marker of a binding, if it has one.
  abbrev marked : BindingSpec → Projection → Projection
  marked b p =
      if str_eq b.marker_field ""
      then p
      else record p { markers = Map.put p.markers b.path b.marker_field }

  marked-Keeps : (b : BindingSpec) (p : Projection) → Keeps p (marked b p)
  marked-Keeps b p = by_marker (str_eq b.marker_field "")
    where
      by_marker :
          (none_named : Bool)
          → Keeps p (
              if none_named
              then p
              else record p { markers = Map.put p.markers b.path b.marker_field })
      by_marker true = (refl, λ h. h)
      by_marker false = (refl, λ h. h)

  add_bindings-Keeps :
      (structural : Map String String) (bs : List BindingSpec) (p p' : Projection)
      → add_bindings r to_lower structural bs p ≡ ok p'
      → Keeps p p'
  unfolding add_bindings
  add_bindings-Keeps structural [] p p' h = same-Keeps p p' (ground arith)
  add_bindings-Keeps structural (b ∷ rest) p p' h =
      elim (Result-cases
        (add_names r to_lower structural b.path (b.path ∷ b.name ∷ []) (marked b p))) [
          | inr (e, failed) ↦ absurd (ground arith)
          | inl (q, added) ↦ Keeps-trans p (marked b p) p' (marked-Keeps b p) (
              Keeps-trans (marked b p) q p'
                (add_names-Keeps structural b.path (b.path ∷ b.name ∷ []) (marked b p) q added)
                (add_bindings-Keeps structural rest q p' (ground arith)))
        ]

  add_projected-Keeps :
      (structural : Map String String) (fields : List ProjectionField) (p p' : Projection)
      → add_projected r to_lower structural fields p ≡ ok p'
      → Keeps p p'
  unfolding add_projected
  add_projected-Keeps structural [] p p' h = same-Keeps p p' (ground arith)
  add_projected-Keeps structural (f ∷ rest) p p' h =
      elim (Result-cases (resolve_plan_field r p.target f.path)) [
        | inr (e, failed) ↦ absurd (ground arith)
        | inl (there, resolved) ↦
            elim (Result-cases (add_names r to_lower structural f.path (f.path ∷ f.names) p)) [
              | inr (e, failed) ↦ absurd (ground arith)
              | inl (q, added) ↦
                  Keeps-trans p q p'
                    (add_names-Keeps structural f.path (f.path ∷ f.names) p q added)
                    (add_projected-Keeps structural rest q p' (ground arith))
            ]
      ]

  add_transport-Keeps :
      (structural : Map String String) (ambiguous : List String) (names : List (String × String))
      (p p' : Projection)
      → add_transport r to_lower structural ambiguous names p ≡ ok p'
      → Keeps p p'
  unfolding add_transport
  add_transport-Keeps structural ambiguous [] p p' h = same-Keeps p p' (ground arith)
  add_transport-Keeps structural ambiguous ((name, path) ∷ rest) p p' h =
      elim (Bool-cases (Map.exists p.paths name || contains ambiguous name)) [
        | inl known ↦ add_transport-Keeps structural ambiguous rest p p' (ground arith)
        | inr fresh ↦ elim (Result-cases (add_name r to_lower structural name path p)) [
          | inr (e, failed) ↦ absurd (ground arith)
          | inl (q, added) ↦
              Keeps-trans p q p' (add_name-Keeps structural name path p q added)
                (add_transport-Keeps structural ambiguous rest q p' (ground arith))
        ]
      ]

  -- Every name of a plan's projection, structural, authored or inferred from a source, leads to a
  -- path of the target that resolves, and the projection keeps the field it resolves to.
  pub projection-IsResolved :
      (plan : Plan) (own : List (String × Bool)) (fields : List ProjectionField) (p : Projection)
      → projection r to_lower (some plan) (ok own) fields ≡ ok p
      → (name path : String) → Map.get p.paths name ≡ some path
      → (f : StructField) × (resolve_plan_field r p.target path ≡ ok f)
        × (Map.get p.fields path ≡ some (record { index = f.index; type = f.type }))
  unfolding projection
  projection-IsResolved plan own fields p h =
      let empty : Projection = record {
        target = plan.target;
        paths = Map.new;
        markers = Map.new;
        fields = Map.new;
      } in
      elim (Result-cases (add_fields r to_lower Map.new own empty)) [
        | inr (e, failed) ↦ absurd (ground arith)
        | inl ((named, structural), first) ↦
            elim (Result-cases (add_bindings r to_lower structural plan.bindings named)) [
              | inr (e, failed) ↦ absurd (ground arith)
              | inl (bound, second) ↦
                  elim (Result-cases (add_projected r to_lower structural fields bound)) [
                    | inr (e, failed) ↦ absurd (ground arith)
                    | inl (projected, third) ↦
                        (add_transport-Keeps structural
                            (transport_names r to_lower Map.new [] plan.bindings).1
                            (transport_names r to_lower Map.new [] plan.bindings).0.entries
                            projected p (ground arith)).1
                          ((add_projected-Keeps structural fields bound projected third).1 (
                            (add_bindings-Keeps structural plan.bindings named bound second).1 (
                              (add_fields-Keeps Map.new structural own empty named first).1
                                (λ name path k.
                                  absurd (ground (arith, get-new {V = String} name))))))
                  ]
            ]
      ]
