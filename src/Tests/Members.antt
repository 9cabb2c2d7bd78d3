-- ===== src/Tests/Members.antt =====
-- Examples of a member of a dependency group, with a peer that publishes while it works.
use bindly.Prelude.{◌≡◌, refl, false, none, some, [], ◌∷◌}
use bindly.Prelude.Text.{equal_fold}
use bindly.Prelude.Comparable.{string_comparable}
use bindly.Map
use bindly.Reflect.{GoType, Value, text_type, type_of, same_type}
use bindly.Locator.Registry
use bindly.Locator.Compose.{request, settles}
use bindly.Spec.{raw_null_policy}
use bindly.RecordCount.{counts_source_records, validate_record_count, record_total, check_count}
use bindly.Field.{
  field_at, value_at, replace_at, zero_value, zero_fields, behind, get, change_behind, change_found,
  type_at, set_value,
}
use bindly.Groups.{shares_prefix}
use bindly.Resolve.{
  resolve, walk, consult, store, unwrap, open_envelope, run, active_key, contains, remove,
  should_cache,
}
use bindly.Bind.{
  bind_value, take_source, default_source, replace_null, apply_default, check_strict, complete,
  convert, apply_transformer, finish, refuse_count, fill_zero, nil_value,
}
use bindly.Bind.Sequence.{
  kind_priority, effective_priority, insert, sort_bindings, is_excluded, is_enabled,
}
use bindly.Bind.Run.{
  Progress, Event, bind, bind_all, bind_one, bind_taken, assign, after_write, after_mark, observe,
  write, mark, resolve_binding, after_transformer, transformed, run_transformer,
}
use bindly.Bind.Run.Assigned.{apart_from, is_clear}
use bindly.Tests.{fresh_state}
use bindly.Field.{stored}
use bindly.Scheduler.{ResolutionOutcome}
use bindly.Scheduler.Member.{
  entered, entry_error, isolated, member_plan, last_event, announce, publish, settle, concluded,
  execute_member,
}
use bindly.Scheduler.Member.Published.{Worked, execute_member-Held, execute_member-Stored}
use bindly.Tests.Runs.{
  input_type, input_of, unmarked_input, marks_of, marks_type, id_field, id_binding, input_plan,
  strict_invocation,
}

-- The target after a peer has set the note.
abbrev peer_published : Progress
peer_published = record {
  target = input_of "" "peer" (Value.nil (GoType.pointer marks_type));
  scope = fresh_state;
  events = [];
}

abbrev member_event : Event
member_event = record {
  target = input_of "7" "peer" marks_of;
  path = "Id";
  location = id_binding.location;
  value = Value.text text_type "7";
  metadata = none;
}

abbrev member_published : Progress
member_published = record peer_published {
  target = input_of "7" "peer" marks_of;
  events = member_event ∷ [];
}

abbrev id_outcome : ResolutionOutcome
id_outcome = concluded 5 id_binding (some (Value.text text_type "7")) false none

executed :
    execute_member strict_invocation input_plan id_binding 3 5 entered unmarked_input 0
      peer_published
    ≡ some (id_outcome, member_published)
unfolding bind bind_all bind_one bind_taken assign after_write after_mark observe write mark
    resolve_binding after_transformer transformed run_transformer kind_priority effective_priority
    insert sort_bindings is_excluded is_enabled bind_value take_source default_source replace_null
    apply_default check_strict complete convert apply_transformer finish refuse_count fill_zero
    nil_value resolve walk consult store unwrap open_envelope run active_key contains remove
    should_cache field_at value_at replace_at zero_value zero_fields behind get change_behind
    change_found set_value counts_source_records validate_record_count record_total check_count
    raw_null_policy Registry.lookup Map.new Map.get Map.lookup Map.put Map.without request settles
    type_of same_type equal_fold execute_member entry_error isolated member_plan last_event settle
    publish announce
executed = refl

execute_member-Held_example :
    get (1 ∷ []) (GoType.pointer input_type) member_published.target
    ≡ some (Value.text text_type "peer")
unfolding is_clear apart_from shares_prefix Map.get Map.lookup get behind field_at value_at
execute_member-Held_example =
    execute_member-Held strict_invocation input_plan id_binding (1 ∷ [])
      (Value.text text_type "peer") refl 3 5 entered unmarked_input 0 peer_published
      member_published id_outcome executed refl

execute_member-Stored_example :
    Worked strict_invocation input_plan id_binding 3 unmarked_input 0 id_field
      (Value.text text_type "7")
    × ((u : GoType) × (type_at id_field.index (GoType.pointer input_type) ≡ some u)
        × (get id_field.index (GoType.pointer input_type) member_published.target
            ≡ some (stored u (Value.text text_type "7"))))
unfolding apart_from shares_prefix Map.get Map.lookup
execute_member-Stored_example =
    execute_member-Stored strict_invocation input_plan id_binding id_field refl refl 3 5 entered
      unmarked_input 0 peer_published member_published id_outcome (Value.text text_type "7")
      executed refl refl
