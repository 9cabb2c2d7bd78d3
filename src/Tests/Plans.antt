-- ===== src/Tests/Plans.antt =====
-- Examples of plans: their compilation and presence markers.
use bindly.Prelude.{
  ℕ, zero, suc, ◌≡◌, refl, String, Bool, true, false, not, Option, none, some, [], ◌∷◌, All, str_eq,
  arith, Bool-cases, Option-cases, inl, inr, if◌then◌else◌,
}
use bindly.Prelude.Comparable.{string_comparable}
use bindly.Map
use bindly.Reflect.{Visibility, GoType, Fields, type_of, base_type, same_type, kind_of}
use bindly.Errors.{Error, ok, err}
use bindly.Spec.{raw_null_policy, validate_null_policy}
use bindly.RecordCount.{compile_record_count, counts_source_records}
use bindly.Field.{
  field_at, value_at, zero_value, zero_fields, behind, get, change_behind, change_found, type_at,
  set_value, is_read_only,
}
use bindly.Groups.{compile_groups, any_grouped}
use bindly.Groups.Regrouped.{IsDistinct}
use bindly.Resolve.{contains}
use bindly.Plan.{
  Plan, presence_marker, marker_of, presence, explicit_presence, set_presence, as_bool,
}
use bindly.Plan.Presence.{presence-explicit_presence, presence-set_presence}
use bindly.Plan.Compile.{
  StructField, Surroundings, resolve_names, resolve_plan_field, split_dots, marker_field_of,
  add_marker, transformer_of, default_of, compile_binding, compile_bindings, compile_plan, is_bool,
}
use bindly.Plan.Typed.{LeadsToFields}
use bindly.Plan.Bound.{IsBound, compile_plan-IsBound, compile_plan-type_at}
use bindly.Prelude.Text.{trim_space, is_space, equal_fold, lower_code, same_codes}
use bindly.Projection.{
  Projection, projection, add_fields, add_bindings, add_projected, add_names, add_name, put_name,
  transport_names, add_transport,
}
use bindly.Projection.Resolved.{projection-IsResolved}
use bindly.Tests.Bindings.{same, copy}
use bindly.Tests.Runs.{
  bool_type, input_type, unmarked_input, marked_input, id_field, marker_field, id_binding,
  input_plan,
}

presence-explicit_presence_example : presence (some input_plan) marked_input "Id" ≡ ok true
unfolding presence_marker marker_of explicit_presence as_bool Map.get Map.lookup get behind field_at
    value_at same_type
presence-explicit_presence_example =
    presence-explicit_presence input_plan marked_input "Id" true true refl

presence-set_presence_example :
    explicit_presence
      (some input_plan)
      (set_presence same (some input_plan) unmarked_input "Id" false).0
      "Id"
    ≡ ok (false, true)
unfolding presence_marker marker_of set_presence Map.get Map.lookup set_value change_behind
    change_found field_at value_at zero_value zero_fields type_of same_type
presence-set_presence_example =
    presence-set_presence same input_plan unmarked_input "Id" "Has.Id" false refl refl refl

-- Fields found by name among a struct's own.
abbrev named : Fields → String → Option (ℕ × (Visibility × (Bool × GoType)))
named Fields.end name = none
named (Fields.field n visibility marker t fs) name =
    let later = named fs name in
    if str_eq n name
    then some (zero, (visibility, (marker, t)))
    else elim later [ none ↦ none | some (i, found) ↦ some (suc i, found) ]

named-field_at :
    (fs : Fields) (name : String) (i : ℕ) (visibility : Visibility) (marker : Bool) (t : GoType)
    → named fs name ≡ some (i, (visibility, (marker, t)))
    → field_at fs i ≡ some (visibility, t)
unfolding field_at
named-field_at Fields.end name i visibility marker t h = cc
named-field_at (Fields.field n e m u fs) name i visibility marker t h =
    elim (Bool-cases (str_eq n name)) [
      | inl same ↦ ground arith
      | inr differ ↦ elim (Option-cases (named fs name)) [
        | inl missing ↦ ground arith
        | inr ((j, (e', (m', u'))), found) ↦ ground (arith, named-field_at fs name j e' m' u' found)
      ]
    ]

abbrev own_field : GoType → String → Option StructField
own_field (GoType.struct n fs) name = elim (named fs name) [
  | none ↦ none
  | some (i, (visibility, (marker, t))) ↦ some (record {
    name = name;
    index = i ∷ [];
    type = t;
    exported = not (is_read_only visibility);
    set_marker = marker;
    xform = none;
  })
]
own_field t name = none

abbrev pub plain_surroundings : Surroundings
plain_surroundings = record {
  visible_fields = λ t. [];
  field_by_name = own_field;
  create_transformer = λ raw t. err (Error.message "no transformer" []);
  clone_value = copy;
}

own_field-LeadsToFields : LeadsToFields plain_surroundings
unfolding type_at
own_field-LeadsToFields t name f h = by_base (base_type t) refl h
  where
    by_base :
        (b : GoType) → base_type t ≡ b → own_field b name ≡ some f → type_at f.index t ≡ some f.type
    by_base (GoType.struct n fs) e k = elim (Option-cases (named fs name)) [
      | inl missing ↦ ground arith
      | inr ((i, (visibility, (marker, u))), found) ↦
          ground (arith, named-field_at fs name i visibility marker u found)
    ]
    by_base other e k = ground arith

abbrev compiled_plan : Plan
compiled_plan = record input_plan {
  fields = record { entries = ("Has.Id", marker_field) ∷ ("Id", id_field) ∷ [] };
}

compiled :
    compile_plan plain_surroundings (GoType.pointer input_type) (id_binding ∷ [])
    ≡ some (ok compiled_plan)
unfolding compile_plan compile_bindings compile_binding resolve_plan_field resolve_names split_dots
    marker_field_of add_marker transformer_of default_of is_bool base_type kind_of
    compile_record_count counts_source_records validate_null_policy raw_null_policy compile_groups
    any_grouped Map.new Map.put Map.without contains
compiled = refl

compile_plan-IsBound_example :
    All (IsBound compiled_plan) (id_binding ∷ []) × IsDistinct [] (id_binding ∷ [])
compile_plan-IsBound_example =
    compile_plan-IsBound plain_surroundings (GoType.pointer input_type) (id_binding ∷ [])
      compiled_plan compiled

compile_plan-type_at_example : type_at (2 ∷ 0 ∷ []) input_type ≡ some bool_type
unfolding Map.get Map.lookup
compile_plan-type_at_example =
    compile_plan-type_at plain_surroundings (GoType.pointer input_type) (id_binding ∷ [])
      compiled_plan compiled own_field-LeadsToFields "Has.Id" marker_field refl

abbrev trimmed : String → String
trimmed s = s

abbrev id_names : Projection
id_names = record {
  target = input_type;
  paths = record { entries = ("Id", "Id") ∷ [] };
  markers = record { entries = ("Id", "Has.Id") ∷ [] };
  fields = record { entries = ("Id", id_field) ∷ [] };
}

projected :
    projection plain_surroundings trimmed (some compiled_plan) (ok (("Id", true) ∷ [])) []
    ≡ ok id_names
unfolding projection add_fields add_bindings add_projected add_names add_name put_name
    transport_names add_transport resolve_plan_field resolve_names split_dots base_type trim_space
    is_space equal_fold lower_code same_codes contains Map.exists Map.new Map.put Map.get Map.lookup
    Map.without
projected = refl

projection-IsResolved_example :
    (f : StructField) × (resolve_plan_field plain_surroundings input_type "Id" ≡ ok f)
    × (Map.get id_names.fields "Id" ≡ some (record { index = f.index; type = f.type }))
unfolding Map.get Map.lookup
projection-IsResolved_example =
    projection-IsResolved plain_surroundings trimmed compiled_plan (("Id", true) ∷ []) [] id_names
      projected "Id" "Id" refl
