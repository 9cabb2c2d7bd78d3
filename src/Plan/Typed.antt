-- ===== src/Plan/Typed.antt =====
-- plan.go: the fields and bindings of a compiled plan.
use bindly.Prelude.{
  ℕ, String, ◌≡◌, ◌∙◌, refl, ◌++◌, inl, inr, none, some, List, [], ◌∷◌, arith, Bool-cases,
  Option-cases,
}
use bindly.Prelude.Comparable.{string_comparable}
use bindly.Reflect.{GoType, base_type}
use bindly.Errors.{ok, >>=-then}
use bindly.Field.{type_at, field_at}
use bindly.Plan.Compile.{
  StructField, Surroundings, is_struct, resolve_names, resolve_plan_field, split_dots,
}

type_at-append :
    (xs ys : List ℕ) (t u : GoType) → type_at xs t ≡ some u → type_at (xs ++ ys) t ≡ type_at ys u
unfolding type_at
type_at-append [] ys t u h = ground arith
type_at-append (i ∷ xs) ys t u h = by_base (base_type t) refl (λ v k. type_at-append xs ys v u k)
  where
    by_base :
        (b : GoType)
        → base_type t ≡ b
        → ((v : GoType) → type_at xs v ≡ some u → type_at (xs ++ ys) v ≡ type_at ys u)
        → type_at (i ∷ xs ++ ys) t ≡ type_at ys u
    by_base (GoType.struct n fs) e rest = elim (Option-cases (field_at fs i)) [
      | inl missing ↦ ground arith
      | inr ((visibility, v), found) ↦ ground (arith, rest v (ground arith))
    ]
    by_base other e rest = ground arith

-- A field that reflect finds by name is where its index leads, from the type or a pointer to it.
abbrev pub LeadsToFields : Surroundings → Type 0
LeadsToFields r =
    (t : GoType) (name : String) (f : StructField)
    → r.field_by_name (base_type t) name ≡ some f
    → type_at f.index t ≡ some f.type

module _ (r : Surroundings) (leads : LeadsToFields r) (target : GoType) where
  resolve_names-type :
      (path : String) (indexes : List ℕ) (leaf : StructField) (t : GoType) (names : List String)
      (f : StructField)
      → resolve_names r path indexes (some leaf) t names ≡ ok (some f)
      → type_at indexes target ≡ some t
      → leaf.type ≡ t
      → type_at f.index target ≡ some f.type
  unfolding resolve_names
  resolve_names-type path ixs leaf t [] f h typed same = ground arith
  resolve_names-type path ixs leaf t (name ∷ names) f h typed same =
      elim (Bool-cases (is_struct (base_type t))) [
        | inr scalar ↦ ground arith
        | inl struct ↦ elim (Option-cases (r.field_by_name (base_type t) name)) [
          | inl missing ↦ ground arith
          | inr (g, found) ↦ elim (Bool-cases g.exported) [
            | inr hidden ↦ ground arith
            | inl shown ↦
                resolve_names-type path (ixs ++ g.index) g g.type names f (ground arith)
                  (type_at-append ixs g.index target t typed ∙ leads t name g found) refl
          ]
        ]
      ]

  from_start :
      (path : String) (names : List String) (f : StructField)
      → resolve_names r path [] none target names ≡ ok (some f)
      → type_at f.index target ≡ some f.type
  unfolding resolve_names
  from_start path [] f h = ground arith
  from_start path (name ∷ names) f h = elim (Bool-cases (is_struct (base_type target))) [
    | inr scalar ↦ ground arith
    | inl struct ↦ elim (Option-cases (r.field_by_name (base_type target) name)) [
      | inl missing ↦ ground arith
      | inr (g, found) ↦ elim (Bool-cases g.exported) [
        | inr hidden ↦ ground arith
        | inl shown ↦
            resolve_names-type path g.index g g.type names f (ground arith)
              (leads target name g found) refl
      ]
    ]
  ]

  pub resolve_plan_field-type :
      (path : String) (f : StructField)
      → resolve_plan_field r target path ≡ ok f
      → type_at f.index target ≡ some f.type
  unfolding resolve_plan_field
  resolve_plan_field-type path f h =
      >>=-then (resolve_names r path [] none target (split_dots path)) _ f h λ leaf e k.
        elim (Option-cases leaf) [
          | inl missing ↦ ground arith
          | inr (g, found) ↦ from_start path (split_dots path) f (ground arith)
        ]
