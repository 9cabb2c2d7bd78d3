-- ===== src/Bind/Run/Assigned.antt =====
-- scope.go: the loop of `bind` as a sequence of assignments.
use bindly.Prelude.{
  ℕ, String, Bool, true, false, not, ◌&&◌, ◌||◌, ◌≡◌, ◌⊎◌, inl, inr, Option, none, some, List, [],
  ◌∷◌, All, str_eq, arith, Bool-cases, Option-cases,
}
use bindly.Prelude.Comparable.{string_comparable}
use bindly.Map
use bindly.Reflect.{Visibility, GoType, Value}
use bindly.Errors.{Error, ok}
use bindly.Spec.{BindingSpec, is_set}
use bindly.Field.{Access, get}
use bindly.Field.Lens.{get-set_ne}
use bindly.Groups.{shares_prefix}
use bindly.Plan.{Plan}
use bindly.Bind.Sequence.{is_excluded}
use bindly.Resolve.{State, Outcome, Resolution}
use bindly.Bind.Run.{Invocation, write, mark, true_value, resolve_binding, value_of}

-- The bindings that may be passed over.
abbrev pub MayPass : Invocation → BindingSpec → Type 0
MayPass s spec =
    ((s.strict_missing && is_set spec.required) ≡ false)
    ⊎ ((is_excluded s.delayed_kinds s.allowed_kinds spec ≡ true)
        ⊎ (str_eq spec.when_path "" ≡ false))

-- A value that a binding may be assigned, with the target as given: its source was resolved in
-- some state of the scope, and what it returned has been defaulted, checked, transformed and
-- converted to that value.
abbrev pub IsValue : ℕ → Invocation → BindingSpec → Access → Value → Value → Type 0
IsValue fuel s b a v x =
    (before : State) × (after : State) × (outcome : Outcome) × (r : Resolution) × (resolve_binding
        fuel s v before b a.type
      ≡ some (outcome, after))
    × (value_of fuel s v after b a.type (Map.get s.resolved b.path) outcome ≡ ok (some r))
    × (r.value ≡ x)

-- What the loop may do to the target: bindings in order, each passed over or assigned with its
-- marker, until the end (`true`) or an error (`false`). `w` is what a step's write leaves.
pub data Assigns (fuel : ℕ) (s : Invocation) (plan : Plan)
    : List BindingSpec → Value → Value → Bool → Type 0 where
  done : (v : Value) → Assigns fuel s plan [] v v true
  stopped : (bs : List BindingSpec) (v : Value) → Assigns fuel s plan bs v v false
  passed :
      (b : BindingSpec) (bs : List BindingSpec) (v w : Value) (finished : Bool)
      → MayPass s b
      → Assigns fuel s plan bs v w finished
      → Assigns fuel s plan (b ∷ bs) v w finished
  assigned :
      (b : BindingSpec) (bs : List BindingSpec) (v w : Value) (finished : Bool) (a : Access)
      (x : Value)
      → Map.get plan.fields b.path ≡ some a
      → IsValue fuel s b a v x
      → (write s plan a x v).1 ≡ none
      → (mark s plan b (write s plan a x v).0).1 ≡ none
      → Assigns fuel s plan bs (mark s plan b (write s plan a x v).0).0 w finished
      → Assigns fuel s plan (b ∷ bs) v w finished
  unwritten :
      (b : BindingSpec) (bs : List BindingSpec) (v : Value) (a : Access) (x : Value)
      → Map.get plan.fields b.path ≡ some a
      → IsValue fuel s b a v x
      → Assigns fuel s plan (b ∷ bs) v (write s plan a x v).0 false
  unmarked :
      (b : BindingSpec) (bs : List BindingSpec) (v : Value) (a : Access) (x : Value)
      → Map.get plan.fields b.path ≡ some a
      → IsValue fuel s b a v x
      → Assigns fuel s plan (b ∷ bs) v (mark s plan b (write s plan a x v).0).0 false

-- The result of a run: whether it reached the end.
abbrev pub finished_of : Option Error → Bool
finished_of none = true
finished_of (some e) = false

-- Whether a field, or a binding's field and marker, is apart from an index path.
unfoldable pub apart_from : Plan → List ℕ → String → Bool
apart_from plan other path = elim (Map.get plan.fields path) [
  | none ↦ true
  | some a ↦ not (shares_prefix a.index other)
]

abbrev pub marker_apart : Plan → List ℕ → BindingSpec → Bool
marker_apart plan other b = str_eq b.marker_field "" || apart_from plan other b.marker_field

unfoldable pub is_clear : Plan → List ℕ → BindingSpec → Bool
unfolding apart_from
is_clear plan other b = apart_from plan other b.path && marker_apart plan other b

module _ (s : Invocation) (plan : Plan) (other : List ℕ) (found : Value) where
  -- The field is found in a target.
  abbrev pub Held : Value → Type 0
  Held v = get other (GoType.pointer plan.target) v ≡ some found

  pub write-Held :
      (b : BindingSpec) (a : Access) (x v : Value)
      → Map.get plan.fields b.path ≡ some a
      → is_clear plan other b ≡ true
      → Held v
      → Held (write s plan a x v).0
  unfolding write is_clear apart_from
  write-Held b a x v declared clear held =
      get-set_ne s.assignable a.index other (GoType.pointer plan.target) false Visibility.exported x
        v found (ground arith) held

  pub mark-Held :
      (b : BindingSpec) (v : Value)
      → marker_apart plan other b ≡ true
      → Held v
      → Held (mark s plan b v).0
  unfolding mark write apart_from
  mark-Held b v clear held = elim (Bool-cases (str_eq b.marker_field "")) [
    | inl markerless ↦ ground arith
    | inr marked ↦ elim (Option-cases (Map.get plan.fields b.marker_field)) [
      | inl missing ↦ ground arith
      | inr (a, declared) ↦ ground (
        arith,
        get-set_ne s.assignable a.index other (GoType.pointer plan.target) false Visibility.exported
            (true_value s plan) v found (ground arith) held,
      )
    ]
  ]

  is_clear-marker :
      (b : BindingSpec) → is_clear plan other b ≡ true → marker_apart plan other b ≡ true
  unfolding is_clear
  is_clear-marker b clear = ground arith

  pub Assigns-Held :
      (fuel : ℕ) (bs : List BindingSpec) (v w : Value) (finished : Bool)
      → Assigns fuel s plan bs v w finished
      → All (λ b. is_clear plan other b ≡ true) bs
      → Held v
      → Held w
  Assigns-Held fuel _ _ _ _ (done v) clear held = held
  Assigns-Held fuel _ _ _ _ (stopped bs v) clear held = held
  Assigns-Held fuel _ _ _ _ (passed b bs v w f may rest) clear held =
      Assigns-Held fuel bs v w f rest clear.1 held
  Assigns-Held fuel _ _ _ _ (assigned b bs v w f a x declared value ok₁ ok₂ rest) clear held =
      Assigns-Held fuel bs _ w f rest clear.1
        (mark-Held b _ (is_clear-marker b clear.0) (write-Held b a x v declared clear.0 held))
  Assigns-Held fuel _ _ _ _ (unwritten b bs v a x declared value) clear held =
      write-Held b a x v declared clear.0 held
  Assigns-Held fuel _ _ _ _ (unmarked b bs v a x declared value) clear held =
      mark-Held b _ (is_clear-marker b clear.0) (write-Held b a x v declared clear.0 held)
