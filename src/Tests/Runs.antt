-- ===== src/Tests/Runs.antt =====
-- Examples of field access and of whole binding runs.
use bindly.Prelude.{◌≡◌, refl, String, true, false, none, some, [], ◌∷◌, inl}
use bindly.Prelude.Text.{equal_fold}
use bindly.Prelude.Comparable.{string_comparable}
use bindly.Map
use bindly.Reflect.{Visibility, GoType, Basic, Fields, Value, Values, text_type, type_of, same_type}
use bindly.Errors.{ok}
use bindly.Locator.Registry
use bindly.Locator.Compose.{request, settles}
use bindly.Spec.{BindingSpec, raw_null_policy}
use bindly.RecordCount.{counts_source_records, validate_record_count, record_total, check_count}
use bindly.Field.{
  Access, field_at, value_at, replace_at, zero_value, zero_fields, behind, get, change_behind,
  change_found, type_at, set_value,
}
use bindly.Field.Lens.{get-set}
use bindly.Groups.{shares_prefix}
use bindly.Plan.{Plan, marker_of, explicit_presence}
use bindly.Resolve.Keys.{ResolutionKey}
use bindly.Resolve.{
  Resolution, resolve, walk, consult, store, unwrap, open_envelope, run, active_key, contains,
  remove, should_cache,
}
use bindly.Bind.{
  bind_value, take_source, default_source, replace_null, apply_default, check_strict, complete,
  convert, apply_transformer, finish, refuse_count, fill_zero, nil_value,
}
use bindly.Bind.Sequence.{
  kind_priority, effective_priority, insert, sort_bindings, is_excluded, is_enabled,
}
use bindly.Bind.Run.{
  Invocation, Progress, Event, bind, bind_all, bind_one, bind_taken, assign, after_write,
  after_mark, observe, write, mark, resolve_binding, after_transformer, transformed,
  run_transformer,
}
use bindly.Bind.Run.Assigned.{Assigns, apart_from, is_clear}
use bindly.Bind.Run.Refined.{bind-Assigns}
use bindly.Bind.Run.Holds.{bind-Held}
use bindly.Bind.Run.Present.{bind-explicit_presence}
use bindly.Tests.{location_of, settings_of, query_provider, fresh_state, plain_binding}
use bindly.Tests.Bindings.{keep, same, copy, no_record, text_of}

-- struct { Id, Note string; Has *struct { Id bool } }
abbrev pub bool_type : GoType
bool_type = GoType.basic Basic.bool "bool"

abbrev pub marks_type : GoType
marks_type =
    GoType.struct "Marks" (Fields.field "Id" Visibility.exported false bool_type Fields.end)

abbrev pub input_type : GoType
input_type = GoType.struct "Input" (
    Fields.field "Id" Visibility.exported false text_type (
      Fields.field "Note" Visibility.exported false text_type
        (Fields.field "Has" Visibility.exported true (GoType.pointer marks_type) Fields.end)))

abbrev pub input_of : String → String → Value → Value
input_of id note has = Value.pointer input_type (
    Value.structure input_type (
      Values.cons (Value.text text_type id)
        (Values.cons (Value.text text_type note) (Values.cons has Values.end))))

abbrev pub unmarked_input : Value
unmarked_input = input_of "" "kept" (Value.nil (GoType.pointer marks_type))

abbrev pub marks_of : Value
marks_of =
    Value.pointer marks_type
      (Value.structure marks_type (Values.cons (Value.bool bool_type true) Values.end))

abbrev pub marked_input : Value
marked_input = input_of "7" "kept" marks_of

abbrev pub id_field : Access
id_field = record { index = 0 ∷ []; type = text_type }

abbrev pub marker_field : Access
marker_field = record { index = 2 ∷ 0 ∷ []; type = bool_type }

abbrev pub id_binding : BindingSpec
id_binding = record (plain_binding "Id" "query") { required = some true; marker_field = "Has.Id" }

abbrev pub input_plan : Plan
input_plan = record {
  groups = [];
  target = input_type;
  bindings = id_binding ∷ [];
  fields = record { entries = ("Id", id_field) ∷ ("Has.Id", marker_field) ∷ [] };
}

abbrev pub strict_invocation : Invocation
strict_invocation = record {
  settings = λ target. settings_of query_provider;
  read_source = λ target name. ok (Value.bool bool_type true);
  strict_missing = true;
  delayed_kinds = [];
  allowed_kinds = [];
  resolved = record { entries = [] };
  observer = some (λ earlier event. none);
  convert_value = keep;
  assignable = same;
  clone_value = copy;
  empty_record = no_record;
  printed = text_of;
  address = 1;
}

abbrev pub before_run : Progress
before_run = record { target = unmarked_input; scope = fresh_state; events = [] }

get-set_example :
    (u : GoType) × (type_at (2 ∷ 0 ∷ []) (GoType.pointer input_type) ≡ some u)
    × (get
          (2 ∷ 0 ∷ [])
          (GoType.pointer input_type)
          (set_value same
            (2 ∷ 0 ∷ [])
            (GoType.pointer input_type)
            false
            Visibility.exported
            (Value.bool bool_type true)
            unmarked_input).0
        ≡ some (Value.bool bool_type true))
unfolding set_value change_behind change_found field_at value_at zero_value zero_fields type_of
get-set_example =
    get-set same (2 ∷ 0 ∷ []) (GoType.pointer input_type) false Visibility.exported
      (Value.bool bool_type true) unmarked_input refl

abbrev found_id : Resolution
found_id = record { value = Value.text text_type "7"; found = true; metadata = none }

abbrev id_key : ResolutionKey
id_key = record { owner = 1; location = location_of "query" "Id"; target = some text_type }

abbrev id_event : Event
id_event = record {
  target = marked_input;
  path = "Id";
  location = location_of "query" "Id";
  value = Value.text text_type "7";
  metadata = none;
}

abbrev pub after_run : Progress
after_run = record {
  target = marked_input;
  scope = record {
    active = [];
    cache = record { entries = (id_key, found_id) ∷ [] };
    persistent = none;
    now = 1;
  };
  events = id_event ∷ [];
}

pub ran : bind 3 strict_invocation input_plan before_run ≡ some (none, after_run)
unfolding bind bind_all bind_one bind_taken assign after_write after_mark observe write mark
    resolve_binding after_transformer transformed run_transformer kind_priority effective_priority
    insert sort_bindings is_excluded is_enabled bind_value take_source default_source replace_null
    apply_default check_strict complete convert apply_transformer finish refuse_count fill_zero
    nil_value resolve walk consult store unwrap open_envelope run active_key contains remove
    should_cache field_at value_at replace_at zero_value zero_fields behind get change_behind
    change_found set_value counts_source_records validate_record_count record_total check_count
    raw_null_policy Registry.lookup Map.get Map.lookup Map.put Map.without request settles type_of
    same_type equal_fold
ran = refl

bind-Assigns_example :
    Assigns 3 strict_invocation input_plan (id_binding ∷ []) unmarked_input marked_input true
unfolding insert sort_bindings
bind-Assigns_example = bind-Assigns 3 strict_invocation input_plan before_run after_run none ran

bind-Held_example :
    get (1 ∷ []) (GoType.pointer input_type) marked_input ≡ some (Value.text text_type "kept")
unfolding insert sort_bindings is_clear apart_from shares_prefix Map.get Map.lookup get behind
    field_at value_at
bind-Held_example =
    bind-Held 3 strict_invocation input_plan before_run after_run none (1 ∷ [])
      (Value.text text_type "kept") ran (refl, tt) refl

bind-explicit_presence_example :
    explicit_presence (some input_plan) marked_input "Id" ≡ ok (true, true)
unfolding insert sort_bindings apart_from shares_prefix Map.get Map.lookup is_excluded contains
    marker_of same_type
bind-explicit_presence_example =
    bind-explicit_presence 3 strict_invocation input_plan before_run after_run id_binding []
      id_field marker_field refl refl refl refl (inl (refl, refl)) refl refl refl tt refl refl ran
