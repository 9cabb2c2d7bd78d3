-- ===== src/Bind/Sequence/Sorted.antt =====
-- scope.go: the sort of the bindings by priority.
use bindly.Prelude.{
  String, ◌≢◌, ◌⊎◌, ◌↔◌, true, none, some, Option-cases, ◌≡◌, refl, Bool, not, ◌&&◌, List, [], ◌∷◌,
  select, arith, Bool-cases, inl, inr,
}
use bindly.Prelude.Int.{ℤ, ◌≤ℤ◌, ltb_ℤ, is_zero}
use bindly.Spec.{BindingSpec}
use mathlib.Core.Path.{subst}
use bindly.Locator.{Provider}
use bindly.Locator.Registry
use bindly.Resolve.{Injector}
use bindly.Bind.Sequence.{insert, sort_bindings, kind_priority, effective_priority}

module _ (priority_of : BindingSpec → ℤ) where
  abbrev Below : ℤ → List BindingSpec → Type 0
  Below p [] = Unit
  Below p (b ∷ rest) = p ≤ℤ priority_of b

  abbrev pub IsSorted : List BindingSpec → Type 0
  IsSorted [] = Unit
  IsSorted (b ∷ rest) = Below (priority_of b) rest × IsSorted rest

  abbrev pub has_priority : ℤ → BindingSpec → Bool
  has_priority p b = not (ltb_ℤ p (priority_of b)) && not (ltb_ℤ (priority_of b) p)

  Below-insert :
      (p : ℤ) (b : BindingSpec) (rest : List BindingSpec)
      → p ≤ℤ priority_of b
      → Below p rest
      → Below p (insert priority_of b rest)
  unfolding insert
  Below-insert p b [] h k = h
  Below-insert p b (first ∷ rest) h k =
      elim (Bool-cases (ltb_ℤ (priority_of first) (priority_of b))) [
        | inl e ↦ rw e k
        | inr e ↦ rw e h
      ]

  insert-IsSorted :
      (b : BindingSpec) (rest : List BindingSpec)
      → IsSorted rest
      → IsSorted (insert priority_of b rest)
  unfolding insert
  insert-IsSorted b [] s = (tt, tt)
  insert-IsSorted b (first ∷ rest) (l, s) =
      elim (Bool-cases (ltb_ℤ (priority_of first) (priority_of b))) [
        | inl e ↦ rw e (
          Below-insert (priority_of first) b rest (ground (arith, e)) l,
          insert-IsSorted b rest s,
        )
        | inr e ↦ rw e (ground (arith, e), (l, s))
      ]

  select-insert :
      (p : ℤ) (b : BindingSpec) (rest : List BindingSpec)
      → select (has_priority p) (insert priority_of b rest) ≡ select (has_priority p) (b ∷ rest)
  unfolding insert
  select-insert p b [] = refl
  select-insert p b (first ∷ rest) = ground (arith, select-insert p b rest)

  sort_bindings-IsSorted :
      (bindings : List BindingSpec) (p : ℤ)
      → IsSorted (sort_bindings priority_of bindings)
        × (select (has_priority p) (sort_bindings priority_of bindings)
            ≡ select (has_priority p) bindings)
  unfolding sort_bindings
  sort_bindings-IsSorted [] p = (tt, refl)
  sort_bindings-IsSorted (b ∷ rest) p =
      let (s, e) = sort_bindings-IsSorted rest p in
      (
        insert-IsSorted b (sort_bindings priority_of rest) s,
        ground (arith, select-insert p b (sort_bindings priority_of rest), e),
      )

-- The priority of a kind: that of its provider in the nearest injector that has one, or zero.
pub data KindRanks (kind : String) : List Injector → ℤ → Type 0 where
  unprovided : KindRanks kind [] (ℤ.pos 0)
  nearest :
      (current : Injector) (parents : List Injector) (p : Provider)
      → Registry.lookup current.locators kind ≡ some p
      → KindRanks kind (current ∷ parents) p.priority
  inherited :
      (current : Injector) (parents : List Injector) (z : ℤ)
      → Registry.lookup current.locators kind ≡ none
      → KindRanks kind parents z
      → KindRanks kind (current ∷ parents) z

-- The priority of a binding: its own unless it is zero, or else that of its kind.
abbrev pub Ranks : List Injector → BindingSpec → ℤ → Type 0
Ranks injectors b z =
    ((b.priority ≢ ℤ.pos 0) × (z ≡ b.priority))
    ⊎ ((b.priority ≡ ℤ.pos 0) × KindRanks b.location.kind injectors z)

-- Each binding's priority is at most that of the next.
abbrev pub InOrder : List Injector → List BindingSpec → Type 0
InOrder injectors [] = Unit
InOrder injectors (b ∷ []) = Unit
InOrder injectors (b ∷ c ∷ rest) =
    ((x : ℤ) × (y : ℤ) × Ranks injectors b x × Ranks injectors c y × (x ≤ℤ y))
    × InOrder injectors (c ∷ rest)

kind_priority-KindRanks :
    (injectors : List Injector) (kind : String)
    → KindRanks kind injectors (kind_priority injectors kind)
unfolding kind_priority
kind_priority-KindRanks [] kind = unprovided
kind_priority-KindRanks (current ∷ parents) kind =
    elim (Option-cases (Registry.lookup current.locators kind)) [
      | inr (p, given) ↦
          subst (KindRanks kind (current ∷ parents)) {x = p.priority}
            {y = kind_priority (current ∷ parents) kind} (ground arith)
            (nearest current parents p given)
      | inl missing ↦
          subst (KindRanks kind (current ∷ parents)) {x = kind_priority parents kind}
            {y = kind_priority (current ∷ parents) kind} (ground arith)
            (inherited current parents (kind_priority parents kind) missing
              (kind_priority-KindRanks parents kind))
    ]

is_zero_iff : (z : ℤ) → (is_zero z ≡ true) ↔ (z ≡ ℤ.pos 0)
is_zero_iff (ℤ.pos n) = ground arith
is_zero_iff (ℤ.negsuc n) = ground arith

effective_priority-Ranks :
    (injectors : List Injector) (b : BindingSpec)
    → Ranks injectors b (effective_priority injectors b)
unfolding effective_priority
effective_priority-Ranks injectors b = elim (Bool-cases (is_zero b.priority)) [
  | inl unset ↦ inr (
    (is_zero_iff b.priority).0 unset,
    subst (KindRanks b.location.kind injectors) {x = kind_priority injectors b.location.kind}
        {y = effective_priority injectors b} (ground arith)
        (kind_priority-KindRanks injectors b.location.kind),
  )
  | inr own ↦ inl (λ e. ground (arith, (is_zero_iff b.priority).1 e), ground arith)
]

IsSorted-InOrder :
    (injectors : List Injector) (bindings : List BindingSpec)
    → IsSorted (effective_priority injectors) bindings
    → InOrder injectors bindings
IsSorted-InOrder injectors [] s = tt
IsSorted-InOrder injectors (b ∷ []) s = tt
IsSorted-InOrder injectors (b ∷ c ∷ rest) (below, s) = (
  (
    effective_priority injectors b,
    effective_priority injectors c,
    effective_priority-Ranks injectors b,
    effective_priority-Ranks injectors c,
    below,
  ),
  IsSorted-InOrder injectors (c ∷ rest) s,
)

-- The order in which `bind` takes its bindings ascends by priority, which is a binding's own, or
-- where that is zero its kind's: that of the provider in the nearest injector that has one, or
-- zero. The bindings of any one priority are the authored ones, in the authored order.
pub sort_bindings-InOrder :
    (injectors : List Injector) (bindings : List BindingSpec) (p : ℤ)
    → InOrder injectors (sort_bindings (effective_priority injectors) bindings)
      × (select
            (has_priority (effective_priority injectors) p)
            (sort_bindings (effective_priority injectors) bindings)
          ≡ select (has_priority (effective_priority injectors) p) bindings)
sort_bindings-InOrder injectors bindings p =
    let (sorted, kept) = sort_bindings-IsSorted (effective_priority injectors) bindings p in
    (
      IsSorted-InOrder injectors (sort_bindings (effective_priority injectors) bindings) sorted,
      kept,
    )
