-- ===== src/Bind/Sequence.antt =====
-- scope.go: the order in which `bind` takes the bindings, and which of them it passes over.
pub mod Sorted
use bindly.Prelude.{
  str_eq, nat_eq, ℕ, ◌+◌, ◌≤◌, ◌≡◌, refl, String, Bool, true, false, not, ◌&&◌, ◌||◌, Option, none,
  some, List, [], ◌∷◌, if◌then◌else◌, arith, Bool-cases, inl, inr,
}
use bindly.Prelude.Int.{ℤ, ◌≤ℤ◌, ltb_ℤ, is_zero}
use Prim.Native.Char.{code}
use bindly.Reflect.{GoType, Basic, Value, same_type}
use bindly.Errors.{Error, Result, ok, err, ◌>>=◌}
use bindly.Locator.Registry
use bindly.Resolve.{Injector, contains}
use bindly.Spec.{BindingSpec}

-- (*invocation).priority: of the nearest provider of the kind.
unfoldable pub kind_priority : List Injector → String → ℤ
kind_priority [] kind = ℤ.pos 0
kind_priority (current ∷ parents) kind =
    let inherited = kind_priority parents kind in
    elim (Registry.lookup current.locators kind) [ some p ↦ p.priority | none ↦ inherited ]

-- A binding's own priority, or else its kind's.
unfoldable pub effective_priority : List Injector → BindingSpec → ℤ
effective_priority injectors b =
    if is_zero b.priority then kind_priority injectors b.location.kind else b.priority

-- sort.SliceStable by priority, as an insertion sort.
module _ (priority_of : BindingSpec → ℤ) where
  unfoldable pub insert : BindingSpec → List BindingSpec → List BindingSpec
  insert b [] = b ∷ []
  insert b (first ∷ rest) =
      let later = insert b rest in
      if ltb_ℤ (priority_of first) (priority_of b) then first ∷ later else b ∷ first ∷ rest

  unfoldable pub sort_bindings : List BindingSpec → List BindingSpec
  unfolding insert
  sort_bindings [] = []
  sort_bindings (b ∷ rest) = insert b (sort_bindings rest)

-- The kinds that a phase delays, and those that it is limited to, if any.
unfoldable pub is_excluded : List String → List String → BindingSpec → Bool
is_excluded delayed allowed b = contains delayed b.location.kind || excluded allowed
  where
    excluded : List String → Bool
    excluded [] = false
    excluded (k ∷ ks) = not (contains (k ∷ ks) b.location.kind)

-- strings.TrimPrefix(binding.When, "$")
abbrev trim_dollar : String → String
trim_dollar String.[] = String.[]
trim_dollar (String.◌∷◌ c s) = if nat_eq (code c) (b'$') then s else String.◌∷◌ c s

-- The condition of a binding: whether it is taken. `read_source` is the source state's Value.
unfoldable pub is_enabled : (String → Result Value) → Bool → BindingSpec → Result Bool
is_enabled read_source has_source b =
    if str_eq b.when_path ""
    then ok true
    else if not has_source
    then err (Error.message "binding %s condition requires source state" (b.path ∷ []))
    else (do
      condition ← read_source (trim_dollar b.when_path)
      elim condition [
        | Value.bool t enabled ↦
            if same_type t (GoType.basic Basic.bool "bool")
            then ok enabled
            else err (Error.message "binding %s condition must resolve to bool" (b.path ∷ []))
        | other ↦ err (Error.message "binding %s condition must resolve to bool" (b.path ∷ []))
      ])
