-- ===== src/Scheduler/Member/Published.antt =====
-- resolution_dependencies.go: what a member of a dependency group publishes.
use bindly.Prelude.{
  ℕ, true, false, ◌≡◌, refl, ◌⊎◌, inl, inr, Option, none, some, List, sym, arith, Option-cases,
}
use mathlib.Core.Path.{subst}
use bindly.Prelude.Comparable.{string_comparable}
use bindly.Map
use bindly.Reflect.{Visibility, GoType, Value}
use bindly.Errors.{Error}
use bindly.Spec.{BindingSpec}
use bindly.Field.{Access, get, stored, type_at}
use bindly.Field.Lens.{get-set}
use bindly.Plan.{Plan}
use bindly.Bind.Run.{Invocation, Progress, Event, bind, write, mark}
use bindly.Bind.Run.Assigned.{is_clear, marker_apart, write-Held, mark-Held}
use bindly.Scheduler.{ResolutionOutcome}
use bindly.Scheduler.Member.{
  Entered, entry_error, isolated, member_plan, scratch_of, last_event, announce, publish, settle,
  after_field, after_marker, published, execute_member,
}

module _ (s : Invocation) (plan : Plan) (member : BindingSpec) where
  announce-target :
      (v : Value) (metadata : Option Value) (p : Progress)
      → (announce s plan member v metadata p).1.target ≡ p.target
  unfolding announce
  announce-target v metadata p = ground arith

  after_marker-target :
      (v : Value) (metadata : Option Value) (p : Progress) (r : Value × Option Error)
      → (after_marker s plan member v metadata p r).1.target ≡ r.0
  after_marker-target v metadata p (x, some e) = refl
  after_marker-target v metadata p (x, none) = announce-target v metadata (record p { target = x })

  after_field-target :
      (v : Value) (metadata : Option Value) (p : Progress) (r : Value × Option Error)
      → ((after_field s plan member v metadata p r).1.target ≡ r.0)
        ⊎ ((after_field s plan member v metadata p r).1.target ≡ (mark s plan member r.0).0)
  after_field-target v metadata p (w, some e) = inl refl
  after_field-target v metadata p (w, none) =
      inr (after_marker-target v metadata p (mark s plan member w))

  after_field-ok :
      (v : Value) (metadata : Option Value) (p : Progress) (r : Value × Option Error)
      → (after_field s plan member v metadata p r).0.0 ≡ none
      → (r.1 ≡ none)
        × ((after_field s plan member v metadata p r).1.target ≡ (mark s plan member r.0).0)
  after_field-ok v metadata p (w, some e) h = absurd (ground arith)
  after_field-ok v metadata p (w, none) h =
      (refl, after_marker-target v metadata p (mark s plan member w))

  module _ (other : List ℕ) (found : Value) (clear : is_clear plan other member ≡ true) where
    abbrev Held : Value → Type 0
    Held v = get other (GoType.pointer plan.target) v ≡ some found

    publish-Held :
        (a : Access) (v : Value) (metadata : Option Value) (p : Progress)
        → Map.get plan.fields member.path ≡ some a
        → Held p.target
        → Held (publish s plan member a v metadata p).1.target
    unfolding publish is_clear
    publish-Held a v metadata p declared held =
        let kept = write-Held s plan other found member a v p.target declared clear held in
        elim (after_field-target v metadata p (write s plan a v p.target)) [
          | inl same ↦ subst Held (sym same) kept
          | inr same ↦ subst Held (sym same) (
              mark-Held s plan other found member (write s plan a v p.target).0 (ground arith) kept)
        ]

    settle-Held :
        (fresh : ℕ) (event : Option Event) (scratch : Value) (p : Progress)
        → Held p.target
        → Held (settle s plan member fresh event scratch p).1.target
    unfolding settle
    settle-Held fresh none scratch p held = held
    settle-Held fresh (some event) scratch p held =
        elim (Option-cases (Map.get plan.fields member.path)) [
          | inl missing ↦ ground arith
          | inr (a, declared) ↦
              elim (Option-cases (get a.index (GoType.pointer plan.target) scratch)) [
                | inl unread ↦ ground arith
                | inr (v, read) ↦ ground (arith, publish-Held a v event.metadata p declared held)
              ]
        ]

    -- Whatever becomes of a member of a dependency group, what it leaves in the target of the
    -- invocation keeps every value that was read there at its publication through an index path
    -- apart from the member's own field and marker: those that its peers published meanwhile too.
    pub execute_member-Held :
        (fuel fresh : ℕ) (answer : Entered) (snapshot : Value) (now : ℕ) (p p' : Progress)
        (o : ResolutionOutcome)
        → execute_member s plan member fuel fresh answer snapshot now p ≡ some (o, p')
        → get other (GoType.pointer plan.target) p.target ≡ some found
        → get other (GoType.pointer plan.target) p'.target ≡ some found
    unfolding execute_member
    execute_member-Held fuel fresh answer snapshot now p p' o h held =
        elim (Option-cases (entry_error answer)) [
          | inr (e, denial) ↦ ground arith
          | inl admitted ↦
              elim (Option-cases (
                bind fuel (isolated s snapshot) (member_plan plan member)
                  (scratch_of snapshot now))) [
                    | inl unfinished ↦ absurd (ground arith)
                    | inr ((some e, q), ran) ↦ ground arith
                    | inr ((none, q), ran) ↦
                        ground (
                          arith,
                          settle-Held fresh (last_event member.path q.events) q.target p held,
                        )
                  ]
        ]

  -- What the worker's own bind of the member left in its scratch copy.
  abbrev pub Worked : ℕ → Value → ℕ → Access → Value → Type 0
  Worked fuel snapshot now a v =
      (q : Progress) × (bind fuel (isolated s snapshot) (member_plan plan member)
          (scratch_of snapshot now)
        ≡ some (none, q))
      × (get a.index (GoType.pointer plan.target) q.target ≡ some v)

  module _ (a : Access) (declared : Map.get plan.fields member.path ≡ some a)
      (own : marker_apart plan a.index member ≡ true) where
    abbrev pub Stored : Value → Progress → Type 0
    Stored v p =
        (u : GoType) × (type_at a.index (GoType.pointer plan.target) ≡ some u)
        × (get a.index (GoType.pointer plan.target) p.target ≡ some (stored u v))

    publish-Stored :
        (v : Value) (metadata : Option Value) (p : Progress)
        → (publish s plan member a v metadata p).0.0 ≡ none
        → Stored v (publish s plan member a v metadata p).1
    unfolding publish write
    publish-Stored v metadata p h =
        let (written, same) = after_field-ok v metadata p (write s plan a v p.target) h in
        let (u, typed, read) =
          get-set s.assignable a.index (GoType.pointer plan.target) false Visibility.exported v
            p.target written in
        (
          u,
          typed,
          ground (
            arith,
            mark-Held s plan a.index (stored u v) member (write s plan a v p.target).0 own read,
          ),
        )

    settle-Stored :
        (fresh : ℕ) (event : Option Event) (scratch v : Value) (p : Progress)
        → (settle s plan member fresh event scratch p).0.cause ≡ none
        → (settle s plan member fresh event scratch p).0.value ≡ some v
        → (get a.index (GoType.pointer plan.target) scratch ≡ some v)
          × Stored v (settle s plan member fresh event scratch p).1
    unfolding settle
    settle-Stored fresh none scratch v p h given = absurd (ground arith)
    settle-Stored fresh (some event) scratch v p h given =
        elim (Option-cases (get a.index (GoType.pointer plan.target) scratch)) [
          | inl unread ↦ absurd (ground arith)
          | inr (w, read) ↦ (
            ground arith,
            subst (λ r. Stored v r.1)
                {x = (published s plan member fresh v (publish s plan member a v event.metadata p))}
                {y = settle s plan member fresh (some event) scratch p} (ground arith)
                (publish-Stored v event.metadata p (ground arith)),
          )
        ]

    -- A member of a dependency group that ends without an error and with a value: its own bind, of
    -- the scratch copy, ended without an error and left that value in its field; and the target of
    -- the invocation then holds the value as the field's type stores it, when the member's marker
    -- is apart from its field.
    pub execute_member-Stored :
        (fuel fresh : ℕ) (answer : Entered) (snapshot : Value) (now : ℕ) (p p' : Progress)
        (o : ResolutionOutcome) (v : Value)
        → execute_member s plan member fuel fresh answer snapshot now p ≡ some (o, p')
        → o.cause ≡ none
        → o.value ≡ some v
        → Worked fuel snapshot now a v × Stored v p'
    unfolding execute_member
    execute_member-Stored fuel fresh answer snapshot now p p' o v h quiet given =
        elim (Option-cases (entry_error answer)) [
          | inr (e, denial) ↦ absurd (ground arith)
          | inl admitted ↦
              elim (Option-cases (
                bind fuel (isolated s snapshot) (member_plan plan member)
                  (scratch_of snapshot now))) [
                    | inl unfinished ↦ absurd (ground arith)
                    | inr ((some e, q), ran) ↦ absurd (ground arith)
                    | inr ((none, q), ran) ↦
                        let (read, kept) =
                          settle-Stored fresh (last_event member.path q.events) q.target v p
                            (ground arith) (ground arith) in
                        (
                          (q, ran, read),
                          subst (λ r. Stored v r.1)
                              {x = settle s plan member fresh (last_event member.path q.events)
                                q.target p}
                              {y = (o, p')} (ground arith) kept,
                        )
                  ]
        ]
