-- ===== src/Bind/Run/Present.antt =====
-- scope.go and plan.go: the presence of what `bind` assigned.
use bindly.Prelude.{
  ℕ, Bool, true, false, ◌≡◌, none, some, List, All, str_eq, arith, Bool-cases, Option-cases, inl,
  inr,
}
use bindly.Prelude.Comparable.{string_comparable}
use bindly.Map
use bindly.Reflect.{Value}
use bindly.Errors.{ok}
use bindly.Spec.{BindingSpec, is_set}
use bindly.Field.{Access}
use bindly.Plan.{Plan, is_target, presence_marker, marker_of, explicit_presence}
use bindly.Plan.Presence.{explicit_presence-read, set_value-is_target}
use bindly.Bind.Sequence.{is_excluded}
use bindly.Bind.Run.{Invocation, Progress, bind, write, mark, true_value}
use bindly.Bind.Run.Assigned.{
  Assigns, done, stopped, passed, assigned, unwritten, unmarked, is_clear,
}
use bindly.Bind.Run.Refined.{bind-Assigns}
use bindly.Bind.Run.Holds.{in_order, Occurs, bind-marker}

module _ (s : Invocation) (plan : Plan) where
  write-is_target :
      (a : Access) (x v : Value)
      → is_target plan v ≡ true
      → is_target plan (write s plan a x v).0 ≡ true
  unfolding write
  write-is_target a x v h = set_value-is_target s.assignable plan a.index x v h

  mark-is_target :
      (b : BindingSpec) (v : Value)
      → is_target plan v ≡ true
      → is_target plan (mark s plan b v).0 ≡ true
  unfolding mark
  mark-is_target b v h = elim (Bool-cases (str_eq b.marker_field "")) [
    | inl empty ↦ ground arith
    | inr named ↦ elim (Option-cases (Map.get plan.fields b.marker_field)) [
      | inl missing ↦ ground arith
      | inr (a, found) ↦ ground (arith, write-is_target a (true_value s plan) v h)
    ]
  ]

  Assigns-is_target :
      (fuel : ℕ) (bs : List BindingSpec) (v w : Value) (finished : Bool)
      → Assigns fuel s plan bs v w finished
      → is_target plan v ≡ true
      → is_target plan w ≡ true
  Assigns-is_target fuel _ _ _ _ (done v) h = h
  Assigns-is_target fuel _ _ _ _ (stopped bs v) h = h
  Assigns-is_target fuel _ _ _ _ (passed b bs v w f may rest) h =
      Assigns-is_target fuel bs v w f rest h
  Assigns-is_target fuel _ _ _ _ (assigned b bs v w f a x declared value written marked rest) h =
      Assigns-is_target fuel bs _ w f rest (mark-is_target b _ (write-is_target a x v h))
  Assigns-is_target fuel _ _ _ _ (unwritten b bs v a x declared value) h = write-is_target a x v h
  Assigns-is_target fuel _ _ _ _ (unmarked b bs v a x declared value) h =
      mark-is_target b _ (write-is_target a x v h)

-- After a strict bind without an error, a required binding, of a kind that is not excluded and
-- without a condition, that has a presence marker is explicitly present, when the bindings behind
-- it write elsewhere.
pub bind-explicit_presence :
    (fuel : ℕ) (s : Invocation) (plan : Plan) (p p' : Progress) (b : BindingSpec)
    (after : List BindingSpec) (a m : Access)
    → s.strict_missing ≡ true
    → is_set b.required ≡ true
    → is_excluded s.delayed_kinds s.allowed_kinds b ≡ false
    → str_eq b.when_path "" ≡ true
    → Occurs b after (in_order s plan p.target)
    → Map.get plan.fields b.path ≡ some a
    → str_eq b.marker_field "" ≡ false
    → Map.get plan.fields b.marker_field ≡ some m
    → All (λ c. is_clear plan m.index c ≡ true) after
    → is_target plan p.target ≡ true
    → marker_of plan.bindings b.path ≡ ok b.marker_field
    → bind fuel s plan p ≡ some (none, p')
    → explicit_presence (some plan) p'.target b.path ≡ ok (true, true)
unfolding presence_marker
bind-explicit_presence fuel s plan p p' b after a m strict required included unconditional occurs
      declared named found clear fits defined h =
    let still =
      Assigns-is_target s plan fuel _ p.target p'.target true (bind-Assigns fuel s plan p p' none h)
        fits in
    explicit_presence-read plan p'.target b.path b.marker_field m true (ground arith) named found (
      bind-marker fuel s plan p p' b after a strict required included unconditional occurs declared
        m h named found clear)
