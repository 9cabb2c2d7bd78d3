-- ===== src/Spec/Policy.antt =====
-- spec.go: which bindings may carry a body null policy.
use bindly.Prelude.{◌≡◌, ◌↔◌, ◌⊎◌, Option, none, true, false, arith, eq_iff, is_some, str_eq}
use bindly.Reflect.{GoType}
use bindly.Spec.{BindingSpec, validate_null_policy, is_record_pointer, is_raw_message}

-- A binding with a policy is valid exactly when the policy is empty-record, the binding takes the
-- whole body into a pointer to a struct, and it either has neither source type nor transformer or
-- decodes raw JSON by a transformer.
pub validate_null_policy_iff :
    (b : BindingSpec) (target : Option GoType)
    → str_eq b.body_null_policy "" ≡ false
    → (validate_null_policy b target ≡ none) ↔ (
        (b.body_null_policy ≡ "empty-record")
        × (b.location.kind ≡ "body")
        × (b.location.in_path ≡ "")
        × (is_record_pointer target ≡ true)
        × ((b.source_type ≡ none) × (b.transformer ≡ none)
            ⊎ (is_raw_message b.source_type ≡ true) × (is_some b.transformer ≡ true)))
unfolding validate_null_policy
validate_null_policy_iff b target h = (
  (λ e. ground (
    arith,
    eq_iff b.body_null_policy "empty-record",
    eq_iff b.location.kind "body",
    eq_iff b.location.in_path "",
  )),
  (λ e. ground (
    arith,
    eq_iff b.body_null_policy "empty-record",
    eq_iff b.location.kind "body",
    eq_iff b.location.in_path "",
  )),
)
