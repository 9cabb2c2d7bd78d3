-- ===== src/Tests/Seeds.antt =====
-- Examples of supplied values.
use bindly.Prelude.{◌≡◌, refl, String, false, Option, none, some, List, [], ◌∷◌, is_some, inl}
use mathlib.Core.List.{Memᴰ}
use bindly.Prelude.Comparable.{string_comparable}
use bindly.Prelude.Text.{equal_fold, lower_code, same_codes}
use bindly.Map
use bindly.Map.{Map}
use bindly.Reflect.{Visibility, GoType, Value, text_type, same_type}
use bindly.Errors.{Error, Result, ok}
use bindly.Spec.{dependencies}
use bindly.Field.{Access, behind, field_at, value_at, get, set_value}
use bindly.Resolve.{contains}
use bindly.Groups.{GroupPlan}
use bindly.Plan.{Plan}
use bindly.ResolvedInput.{
  Seed, overlapping, marker_writes, writes_of, overlaps_some, hits_member, check_members,
  check_groups, check_paths, validate_group_paths, all_dependencies, declared, is_borrowed,
  select_paths, collect_values, clone_selected, prepare_seed,
}
use bindly.ResolvedInput.Disjoint.{prepare_seed-apart}
use bindly.ResolvedInput.Selected.{prepare_seed-paths}
use bindly.Tests.{plain_binding}
use bindly.Tests.Bindings.{same}
use bindly.Tests.Runs.{
  input_type, unmarked_input, marked_input, id_field, marker_field, id_binding, input_plan,
}

abbrev note_field : Access
note_field = record { index = 1 ∷ []; type = text_type }

abbrev note_group : GroupPlan
note_group = record {
  name = "g";
  mode = dependencies;
  after = [];
  members = plain_binding "Note" "component" ∷ [];
}

abbrev grouped_plan : Plan
grouped_plan = record input_plan {
  groups = note_group ∷ [];
  bindings = id_binding ∷ plain_binding "Note" "component" ∷ [];
  fields = record {
    entries = ("Id", id_field) ∷ ("Has.Id", marker_field) ∷ ("Note", note_field) ∷ [];
  };
}

abbrev id_seed : Seed
id_seed = record { plan = some grouped_plan; address = 3; input = marked_input; paths = "Id" ∷ [] }

abbrev select_all : GoType → List String → Option Error
select_all t paths = none

abbrev copy_all : Value → List String → Result Value
copy_all v paths = ok v

abbrev id_values : Map String Value
id_values = record { entries = ("Id", Value.text text_type "7") ∷ [] }

prepared : prepare_seed select_all copy_all grouped_plan id_seed unmarked_input ≡ ok id_values
unfolding prepare_seed validate_group_paths check_paths check_groups check_members hits_member
    overlaps_some overlapping writes_of marker_writes all_dependencies select_paths declared
    is_borrowed clone_selected collect_values contains same_type equal_fold lower_code same_codes
    Map.get Map.lookup Map.put Map.new Map.without get behind field_at value_at
prepared = refl

prepare_seed-apart_example :
    get
      (0 ∷ [])
      (GoType.pointer input_type)
      (set_value same
        (1 ∷ [])
        (GoType.pointer input_type)
        false
        Visibility.exported
        (Value.text text_type "new")
        marked_input).0
    ≡ some (Value.text text_type "7")
unfolding Map.get Map.lookup get behind field_at value_at
prepare_seed-apart_example =
    prepare_seed-apart select_all copy_all same grouped_plan id_seed unmarked_input id_values "Id"
      "Note" id_field note_field note_group (plain_binding "Note" "component")
      (Value.text text_type "new") marked_input (Value.text text_type "7") prepared refl
      (Memᴰ.head refl) refl (Memᴰ.head refl) (Memᴰ.head refl) (inl refl) refl refl refl

prepare_seed-paths_example : is_some (Map.get id_values "Note") ≡ contains ("Id" ∷ []) "Note"
prepare_seed-paths_example =
    prepare_seed-paths select_all copy_all grouped_plan id_seed unmarked_input id_values prepared
      "Note"
