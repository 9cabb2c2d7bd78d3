-- ===== src/Bind/Run/Holds.antt =====
-- scope.go: what a target holds after `bind`.
use bindly.Prelude.{
  ℕ, Bool, true, false, ◌≡◌, refl, ◌⊎◌, inl, inr, Option, none, some, List, [], ◌∷◌, All, str_eq,
  arith,
}
use mathlib.Core.Path.{subst}
use bindly.Prelude.Comparable.{string_comparable}
use bindly.Map
use bindly.Reflect.{Visibility, GoType, Value}
use bindly.Errors.{Error}
use bindly.Spec.{BindingSpec, is_set}
use bindly.Field.{Access, get, stored, type_at}
use bindly.Field.Lens.{get-set}
use bindly.Plan.{Plan}
use bindly.Bind.Sequence.{sort_bindings, effective_priority, is_excluded}
use bindly.Bind.Run.{Invocation, Progress, bind, write, mark, true_value}
use bindly.Bind.Run.Assigned.{
  MayPass, IsValue, Assigns, done, stopped, passed, assigned, unwritten, unmarked, is_clear,
  Assigns-Held,
}
use bindly.Bind.Run.Refined.{bind-Assigns}

-- The bindings in the order of a run.
abbrev pub in_order : Invocation → Plan → Value → List BindingSpec
in_order s plan v = sort_bindings (effective_priority (s.settings v).injectors) plan.bindings

-- `b` is one of the bindings, and those behind it are `after`.
abbrev pub Occurs : BindingSpec → List BindingSpec → List BindingSpec → Type 0
Occurs b after [] = true ≡ false
Occurs b after (c ∷ cs) = ((c ≡ b) × (cs ≡ after)) ⊎ Occurs b after cs

-- The field of a binding reads as what its type stores of a value that the binding may be assigned.
abbrev pub Stores : ℕ → Invocation → Plan → BindingSpec → Access → Value → Type 0
Stores fuel s plan b a w =
    (before : Value) × (x : Value) × IsValue fuel s b a before x
    × (u : GoType) × (type_at a.index (GoType.pointer plan.target) ≡ some u)
    × (get a.index (GoType.pointer plan.target) w ≡ some (stored u x))

-- The assignment of a binding, whose field is `a`, and what follows it.
abbrev Reached : ℕ → Invocation → Plan → Value → BindingSpec → List BindingSpec → Access → Type 0
Reached fuel s plan w b after a =
    (x : Value) × (v : Value) × IsValue fuel s b a v x
    × ((write s plan a x v).1 ≡ none)
    × ((mark s plan b (write s plan a x v).0).1 ≡ none)
    × Assigns fuel s plan after (mark s plan b (write s plan a x v).0).0 w true

module _ (fuel : ℕ) (s : Invocation) (plan : Plan) (b : BindingSpec) (after : List BindingSpec)
    (a : Access) (declared : Map.get plan.fields b.path ≡ some a) where
  Assigns-Reached :
      (bs : List BindingSpec) (v w : Value) (finished : Bool)
      → Assigns fuel s plan bs v w finished
      → finished ≡ true
      → Occurs b after bs
      → (MayPass s b → true ≡ false)
      → Reached fuel s plan w b after a
  Assigns-Reached _ _ _ _ (done v) end here must = cc
  Assigns-Reached _ _ _ _ (stopped bs v) end here must = cc
  Assigns-Reached _ _ _ _ (passed c bs v w f may rest) end (inl (same, _)) must =
      absurd (ground (arith, must (subst (MayPass s) same may)))
  Assigns-Reached _ _ _ _ (passed c bs v w f may rest) end (inr later) must =
      Assigns-Reached bs v w f rest end later must
  Assigns-Reached _ _ _ _ (assigned c bs v w f d x found value written marked rest) end
        (inl (same, behind)) must =
      subst (Reached fuel s plan w b after) {x = d} {y = a} (ground arith) (
        subst (λ k. Reached fuel s plan w k after d) same
          (subst (λ k. Reached fuel s plan w c k d) behind
            (x, v, value, written, marked, subst (Assigns fuel s plan bs _ w) end rest)))
  Assigns-Reached _ _ _ _ (assigned c bs v w f d x found value written marked rest) end (inr later)
        must =
      Assigns-Reached bs _ w f rest end later must
  Assigns-Reached _ _ _ _ (unwritten c bs v d x found value) end here must = cc
  Assigns-Reached _ _ _ _ (unmarked c bs v d x found value) end here must = cc

  Reached-marker :
      (w : Value) (m : Access)
      → Reached fuel s plan w b after a
      → str_eq b.marker_field "" ≡ false
      → Map.get plan.fields b.marker_field ≡ some m
      → All (λ c. is_clear plan m.index c ≡ true) after
      → get m.index (GoType.pointer plan.target) w ≡ some (true_value s plan)
  unfolding write mark
  Reached-marker w m (x, v, value, written, marked, rest) marker found clear =
      let (u, typed, read) =
        get-set s.assignable m.index (GoType.pointer plan.target) false Visibility.exported
          (true_value s plan) (write s plan a x v).0 (ground arith) in
      Assigns-Held s plan m.index (true_value s plan) fuel after _ w true rest clear (ground arith)

module _ (fuel : ℕ) (s : Invocation) (plan : Plan) (p p' : Progress) where
  -- In a target in which no two pointers lead to one value, as none do in the model, a bind keeps,
  -- whether it succeeds or fails, every value of the target that was read through an index path
  -- apart from the fields and the markers of all the plan's bindings.
  pub bind-Held :
      (e : Option Error) (other : List ℕ) (found : Value)
      → bind fuel s plan p ≡ some (e, p')
      → All (λ b. is_clear plan other b ≡ true) (in_order s plan p.target)
      → get other (GoType.pointer plan.target) p.target ≡ some found
      → get other (GoType.pointer plan.target) p'.target ≡ some found
  bind-Held e other found h clear held =
      Assigns-Held s plan other found fuel _ _ _ _ (bind-Assigns fuel s plan p p' e h) clear held

  module _ (b : BindingSpec) (after : List BindingSpec) (a : Access)
      (strict : s.strict_missing ≡ true) (required : is_set b.required ≡ true)
      (included : is_excluded s.delayed_kinds s.allowed_kinds b ≡ false)
      (unconditional : str_eq b.when_path "" ≡ true)
      (occurs : Occurs b after (in_order s plan p.target))
      (declared : Map.get plan.fields b.path ≡ some a) where
    required-Reached :
        bind fuel s plan p ≡ some (none, p') → Reached fuel s plan p'.target b after a
    required-Reached h =
        Assigns-Reached fuel s plan b after a declared _ p.target p'.target true
          (bind-Assigns fuel s plan p p' none h) refl occurs (λ may. must may)
      where
        must : MayPass s b → true ≡ false
        must (inl optional) = ground arith
        must (inr (inl excluded)) = ground arith
        must (inr (inr conditional)) = ground arith

    -- Its presence marker reads as true, when the bindings behind it write elsewhere.
    pub bind-marker :
        (m : Access)
        → bind fuel s plan p ≡ some (none, p')
        → str_eq b.marker_field "" ≡ false
        → Map.get plan.fields b.marker_field ≡ some m
        → All (λ c. is_clear plan m.index c ≡ true) after
        → get m.index (GoType.pointer plan.target) p'.target ≡ some (true_value s plan)
    bind-marker m h marker found clear =
        Reached-marker fuel s plan b after a declared p'.target m (required-Reached h) marker found
          clear
