-- ===== src/Bind/Run/Refined.antt =====
-- scope.go: the loop of `bind` against the relation of in-order assignments.
use bindly.Prelude.{
  ℕ, String, Bool, true, false, ◌≡◌, refl, sym, ap, ◌∙◌, inl, inr, Option, none, some, List, [],
  ◌∷◌, str_eq, is_some, arith, Bool-cases, Option-cases,
}
use mathlib.Core.Path.{subst}
use bindly.Prelude.Comparable.{string_comparable}
use bindly.Map
use bindly.Reflect.{GoType, Value}
use bindly.Errors.{Error, Result, ok, Result-cases}
use bindly.Spec.{BindingSpec, is_set}
use bindly.Field.{zero_value, Access, get}
use bindly.Plan.{Plan}
use bindly.Resolve.{State, Outcome, Resolution}
use bindly.Bind.Sequence.{is_excluded, is_enabled}
use bindly.Bind.Required.{bind_value-required}
use bindly.Bind.Run.{
  Invocation, Progress, bind_all, bind_one, bind_taken, assign, after_write, after_mark, observe,
  bind, write, mark, transform, resolve_binding, after_transformer, value_of,
}
use bindly.Bind.Sequence.{sort_bindings, effective_priority}
use bindly.Bind.Run.Assigned.{
  MayPass, IsValue, Assigns, done, stopped, passed, assigned, unwritten, unmarked, finished_of,
}

-- The rest of the loop after a success, or its end after an error.
abbrev Continues :
    ℕ
    → Invocation
    → Plan
    → BindingSpec
    → List BindingSpec
    → Progress
    → Option Error × Progress
    → Type 0
Continues fuel s plan b bs p m =
    ((w : Value) (finished : Bool)
      → m.0 ≡ none
      → Assigns fuel s plan bs m.1.target w finished
      → Assigns fuel s plan (b ∷ bs) p.target w finished)
    × ((e : Error) → m.0 ≡ some e → Assigns fuel s plan (b ∷ bs) p.target m.1.target false)

module _ (fuel : ℕ) (s : Invocation) (plan : Plan) (b : BindingSpec) (a : Access)
    (r : Resolution) where
  observe-target : (p : Progress) → (observe s plan b a r p).1.target ≡ p.target
  unfolding observe
  observe-target p = elim (Option-cases s.observer) [
    | inl nobody ↦ ground arith
    | inr (notify, watching) ↦
        elim (Option-cases (get a.index (GoType.pointer plan.target) p.target)) [
          | inl missing ↦ ground arith
          | inr (v, held) ↦ ground arith
        ]
  ]

  module _ (bs : List BindingSpec) (p : Progress) (declared : Map.get plan.fields b.path ≡ some a)
      (value : IsValue fuel s b a p.target r.value) where
    after_written :
        (v : Value) (m : Value × Option Error)
        → write s plan a r.value p.target ≡ (v, none)
        → mark s plan b v ≡ m
        → mark s plan b (write s plan a r.value p.target).0 ≡ m
    after_written v m written marked = ap (λ x. mark s plan b x.0) written ∙ marked

    reached :
        (v u : Value)
        → write s plan a r.value p.target ≡ (v, none)
        → mark s plan b v ≡ (u, none)
        → (w : Value) (finished : Bool) → Assigns fuel s plan bs u w finished
        → Assigns fuel s plan (b ∷ bs) p.target w finished
    reached v u written marked w f rest =
        assigned b bs p.target w f a r.value declared value (ap (λ x. x.1) written)
          (ap (λ x. x.1) (after_written v (u, none) written marked))
          (subst (λ x. Assigns fuel s plan bs x w f)
            (sym (ap (λ x. x.0) (after_written v (u, none) written marked))) rest)

    stopped_at : (u w : Value) → w ≡ u → Assigns fuel s plan bs u w false
    stopped_at u w e = subst (λ x. Assigns fuel s plan bs u x false) (sym e) (stopped bs u)

    after_mark-Continues :
        (v : Value) (m : Value × Option Error)
        → write s plan a r.value p.target ≡ (v, none)
        → mark s plan b v ≡ m
        → Continues fuel s plan b bs p (after_mark s plan b a r p m)
    unfolding after_mark
    after_mark-Continues v (u, some e) written marked = (
      λ w f h. cc,
      λ e' h.
          subst (λ x. Assigns fuel s plan (b ∷ bs) p.target x false)
            (ap (λ x. x.0) (after_written v (u, some e) written marked))
            (unmarked b bs p.target a r.value declared value),
    )
    after_mark-Continues v (u, none) written marked = (
      λ w f h rest. reached v u written marked w f (
          subst (λ x. Assigns fuel s plan bs x w f) (observe-target (record p { target = u }))
            rest),
      λ e h.
          reached v u written marked _ false
            (stopped_at u _ (observe-target (record p { target = u }))),
    )

    after_write-Continues :
        (m : Value × Option Error)
        → write s plan a r.value p.target ≡ m
        → Continues fuel s plan b bs p (after_write s plan b a r p m)
    unfolding after_write
    after_write-Continues (v, some e) written = (
      λ w f h. cc,
      λ e' h.
          subst (λ x. Assigns fuel s plan (b ∷ bs) p.target x false) (ap (λ x. x.0) written)
            (unwritten b bs p.target a r.value declared value),
    )
    after_write-Continues (v, none) written = after_mark-Continues v (mark s plan b v) written refl

    assign-Continues : Continues fuel s plan b bs p (assign s plan b a r p)
    unfolding assign
    assign-Continues = after_write-Continues (write s plan a r.value p.target) refl

module _ (fuel : ℕ) (s : Invocation) (plan : Plan) (b : BindingSpec) (bs : List BindingSpec)
    (p : Progress) where
  Continues-passed :
      (p' : Progress) → MayPass s b → p'.target ≡ p.target → Continues fuel s plan b bs p (none, p')
  Continues-passed p' may same = (
    λ w f h rest.
        passed b bs p.target w f may (subst (λ v. Assigns fuel s plan bs v w f) same rest),
    λ e h. cc,
  )

  as_result :
      (m' m : Option Error × Progress)
      → m' ≡ m
      → Continues fuel s plan b bs p m'
      → Continues fuel s plan b bs p m
  as_result m' m same h = subst (Continues fuel s plan b bs p) same h

  Continues-failed :
      (e : Error) (p' : Progress) → p'.target ≡ p.target → Continues fuel s plan b bs p (some e, p')
  Continues-failed e p' same = (
    λ w f h. cc,
    λ e' h.
        subst (λ v. Assigns fuel s plan (b ∷ bs) p.target v false) (sym same)
          (stopped (b ∷ bs) p.target),
  )

  -- A value is missing only where the binding may be passed over.
  value_of-MayPass :
      (target : Value) (st : State) (type : GoType) (supplied : Option Value) (outcome : Outcome)
      → value_of fuel s target st b type supplied outcome ≡ ok none
      → MayPass s b
  value_of-MayPass target st type supplied outcome h = elim (Bool-cases (s.strict_missing)) [
    | inl strict ↦ elim (Bool-cases (is_set b.required)) [
      | inl required ↦ absurd (
          bind_value-required s.convert_value s.assignable s.clone_value s.empty_record zero_value
            (transform fuel s target st) s.printed b type s.address supplied outcome required cc)
      | inr optional ↦ inl (ground arith)
    ]
    | inr lax ↦ inl (ground arith)
  ]

  bind_taken-Continues :
      (a : Access) (m : Option Error × Progress)
      → Map.get plan.fields b.path ≡ some a
      → bind_taken fuel s plan b a p ≡ some m
      → Continues fuel s plan b bs p m
  unfolding bind_taken
  bind_taken-Continues a m declared h =
      elim (Option-cases (resolve_binding fuel s p.target p.scope b a.type)) [
        | inl nothing ↦ absurd (ground arith)
        | inr ((outcome, st), resolved) ↦
            elim (Option-cases
              (after_transformer fuel s p.target st b a.type (Map.get s.resolved b.path) outcome)) [
                | inl nothing ↦ absurd (ground arith)
                | inr (st', after) ↦
                    elim (Result-cases
                      (value_of fuel s p.target st b a.type (Map.get s.resolved b.path) outcome)) [
                        | inr (e, failed) ↦
                            as_result ((some e, record p { scope = st' })) m (ground arith)
                              (Continues-failed e (record p { scope = st' }) refl)
                        | inl (none, nothing) ↦
                            as_result ((none, record p { scope = st' })) m (ground arith) (
                              Continues-passed (record p { scope = st' })
                                (value_of-MayPass p.target st a.type _ outcome nothing) refl)
                        | inl (some r, found) ↦
                            as_result (assign s plan b a r (record p { scope = st' })) m
                              (ground arith)
                              (assign-Continues fuel s plan b a r bs (record p { scope = st' })
                                declared (p.scope, st, outcome, r, resolved, found, refl))
                      ]
              ]
      ]

  is_enabled-condition :
      (read : String → Result Value) (has_source : Bool)
      → is_enabled read has_source b ≡ ok false
      → str_eq b.when_path "" ≡ false
  unfolding is_enabled
  is_enabled-condition read has_source h = elim (Bool-cases (str_eq b.when_path "")) [
    | inl unconditional ↦ ground arith
    | inr conditional ↦ conditional
  ]

  bind_one-Continues :
      (m : Option Error × Progress)
      → bind_one fuel s plan b p ≡ some m
      → Continues fuel s plan b bs p m
  unfolding bind_one
  bind_one-Continues m h = elim (Bool-cases (is_excluded s.delayed_kinds s.allowed_kinds b)) [
    | inl excluded ↦
        as_result (none, p) m (ground arith) (Continues-passed p (inr (inl excluded)) refl)
    | inr included ↦
        elim (Result-cases
          (is_enabled (s.read_source p.target) (is_some (s.settings p.target).source) b)) [
            | inr (e, failed) ↦ as_result (some e, p) m (ground arith) (Continues-failed e p refl)
            | inl (false, disabled) ↦
                as_result (none, p) m (ground arith)
                  (Continues-passed p (inr (inr (is_enabled-condition _ _ disabled))) refl)
            | inl (true, enabled) ↦ elim (Option-cases (Map.get plan.fields b.path)) [
              | inl missing ↦
                  as_result (some (Error.message "field cannot be set" []), p) m (ground arith)
                    (Continues-failed _ p refl)
              | inr (a, declared) ↦ bind_taken-Continues a m declared (ground arith)
            ]
          ]
  ]

module _ (fuel : ℕ) (s : Invocation) (plan : Plan) where
  bind_all-Assigns :
      (bs : List BindingSpec) (p p' : Progress) (e : Option Error)
      → bind_all fuel s plan bs p ≡ some (e, p')
      → Assigns fuel s plan bs p.target p'.target (finished_of e)
  unfolding bind_all
  bind_all-Assigns [] p p' e h =
      subst
        (λ (r : Option Error × Progress).
          Assigns fuel s plan [] p.target r.1.target (finished_of r.0))
        {x = (none, p)} {y = (e, p')} (ground arith) (done p.target)
  bind_all-Assigns (b ∷ bs) p p' e h = elim (Option-cases (bind_one fuel s plan b p)) [
    | inl nothing ↦ absurd (ground arith)
    | inr ((some failure, q), ran) ↦
        subst
          (λ (r : Option Error × Progress).
            Assigns fuel s plan (b ∷ bs) p.target r.1.target (finished_of r.0))
          {x = (some failure, q)} {y = (e, p')} (ground arith)
          ((bind_one-Continues fuel s plan b bs p (some failure, q) ran).1 failure refl)
    | inr ((none, q), ran) ↦
        (bind_one-Continues fuel s plan b bs p (none, q) ran).0 p'.target (finished_of e) refl
          (bind_all-Assigns bs q p' e (ground arith))
  ]

  -- The loop of `bind` over the bindings, with its conditions, resolutions, conversions,
  -- transformers and observer, implements the relation of in-order assignments: what it leaves in
  -- the target comes from assigning some of the bindings in their order, each the value that its
  -- own resolution and conversion gave for the target so far, with its presence marker, passing
  -- over none but those that may be, up to the end or an error.
  pub bind-Assigns :
      (p p' : Progress) (e : Option Error)
      → bind fuel s plan p ≡ some (e, p')
      → Assigns fuel s plan
          (sort_bindings (effective_priority (s.settings p.target).injectors) plan.bindings)
          p.target
          p'.target
          (finished_of e)
  unfolding bind
  bind-Assigns p p' e h = bind_all-Assigns _ p p' e h
