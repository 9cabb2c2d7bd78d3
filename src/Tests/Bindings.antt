-- ===== src/Tests/Bindings.antt =====
-- Examples of bindings: their values, counts, policies and errors.
use bindly.Prelude.{
  select, List, ◌∷◌, [], ℕ, ◌≡◌, ◌≢◌, ◌↔◌, refl, String, Bool, true, Option, none, some, arith, inl,
}
use bindly.Prelude.Int.{ℤ}
use bindly.Prelude.Text.{equal_fold, lower_code, same_codes}
use bindly.Reflect.{GoType, Value, text_type, type_of}
use bindly.Errors.{
  Error, BindingSite, Result, ok, err, parameter_required, status_text, show_error,
  copy_binding_error, is_external, status_code,
}
use bindly.Errors.Status.{own_absence, show_error-own_absence}
use bindly.Spec.{BindingSpec, is_set, raw_null_policy}
use bindly.RecordCount.{
  record_total, check_count, compile_record_count, validate_record_count, counts_source_records,
}
use bindly.RecordCount.Bounds.{Within, check_count_iff, compile_record_count-Within}
use bindly.Resolve.{Outcome, Resolution, unresolved, Injector}
use bindly.Bind.{
  site_of, take_source, default_source, replace_null, apply_default, check_strict, complete,
  convert, apply_transformer, finish, refuse_count, fill_zero, nil_value, bind_value,
}
use bindly.Bind.Required.{bind_value-absent, bind_value-required}
use bindly.Bind.Counted.{bind_value-counted}
use bindly.Bind.Sequence.{effective_priority, sort_bindings}
use bindly.Bind.Sequence.Sorted.{InOrder, has_priority, sort_bindings-InOrder}
use bindly.Tests.{plain_binding, query_provider}

abbrev pub keep : Value → Option GoType → Result Value
keep v target = ok v

abbrev pub same : GoType → GoType → Bool
same a b = true

abbrev pub copy : Value → Result Value
copy v = ok v

abbrev pub no_record : GoType → Result Value
no_record t = err (Error.message "no record" [])

abbrev zero_text : GoType → Value
zero_text t = Value.text t ""

abbrev untransformed : BindingSpec → Value → Result Value
untransformed spec v = ok v

abbrev pub text_of : Error → String
text_of e = "error"

abbrev required_id : BindingSpec
required_id = record (plain_binding "id" "query") { required = some true; cardinality = "One" }

abbrev absent : Outcome
absent = record { resolution = unresolved; error = none }

bind_value-absent_example :
    (site : BindingSite) × (cause : Error) × (bind_value keep same copy no_record zero_text
        untransformed text_of true required_id text_type 4 none absent
      ≡ err (Error.binding site cause))
    × (show_error site cause ≡ parameter_required "id")
    × (status_code site cause ≡ ℤ.pos 400)
unfolding is_external
bind_value-absent_example =
    bind_value-absent keep same copy no_record zero_text untransformed text_of required_id text_type
      4 absent refl refl (inl (refl, refl)) refl refl refl

bind_value-required_example :
    bind_value keep same copy no_record zero_text untransformed text_of true required_id text_type 4
      none absent
    ≢ ok none
bind_value-required_example =
    bind_value-required keep same copy no_record zero_text untransformed text_of required_id
      text_type 4 none absent refl

abbrev found_id : Resolution
found_id = record { value = Value.text text_type "7"; found = true; metadata = none }

bind_value-counted_example : validate_record_count required_id found_id.value ≡ none
unfolding bind_value take_source default_source replace_null raw_null_policy apply_default
    check_strict complete convert apply_transformer finish refuse_count validate_record_count
    record_total check_count fill_zero nil_value equal_fold lower_code same_codes type_of
bind_value-counted_example =
    bind_value-counted keep same copy no_record zero_text untransformed text_of true required_id
      text_type 4 none (record { resolution = found_id; error = none }) found_id refl refl

abbrev two_to_three : BindingSpec
two_to_three = record (plain_binding "rows" "body") {
  min_allowed = some (ℤ.pos 2);
  max_allowed = some (ℤ.pos 3);
}

abbrev three : ℕ
three = 3

abbrev none_at_all : ℕ
none_at_all = 0

check_count_iff_example :
    (check_count two_to_three three ≡ none)
    ↔ (Within two_to_three three × (is_set two_to_three.required ≡ true → three ≢ none_at_all))
check_count_iff_example = check_count_iff two_to_three three

abbrev rows_type : GoType
rows_type = GoType.slice "" text_type

compile_record_count-Within_example : (n : ℕ) × Within two_to_three n
unfolding compile_record_count counts_source_records
compile_record_count-Within_example = compile_record_count-Within two_to_three rows_type refl

abbrev id_site : BindingSite
id_site = site_of required_id 4

abbrev four : ℕ
four = 4

abbrev five : ℕ
five = 5

five-four : five ≢ four
five-four e = omega (arith, e)

show_error-own_absence_example :
    (show_error id_site (own_absence id_site) ≡ parameter_required "id")
    × (show_error (copy_binding_error 5 id_site) (own_absence id_site) ≡ status_text (ℤ.pos 400))
unfolding site_of is_external
show_error-own_absence_example = show_error-own_absence id_site 5 refl refl five-four

abbrev authored : List BindingSpec
authored =
    record (plain_binding "late" "query") { priority = ℤ.pos 5 }
    ∷ record (plain_binding "early" "query") { priority = ℤ.pos 2 }
    ∷ plain_binding "unranked" "query"
    ∷ record (plain_binding "later" "query") { priority = ℤ.pos 5 }
    ∷ []

-- Queries of an own priority and of that of their kind, with a provider of priority 3.
abbrev with_queries : List Injector
with_queries =
    record {
      id = 1;
      locators =
          record { entries = ("query", record query_provider { priority = ℤ.pos 3 }) ∷ [] } ∷ [];
    }
    ∷ []

sort_bindings-InOrder_example :
    InOrder with_queries (sort_bindings (effective_priority with_queries) authored)
    × (select
          (has_priority (effective_priority with_queries) (ℤ.pos 5))
          (sort_bindings (effective_priority with_queries) authored)
        ≡ select (has_priority (effective_priority with_queries) (ℤ.pos 5)) authored)
sort_bindings-InOrder_example = sort_bindings-InOrder with_queries authored (ℤ.pos 5)
