-- ===== src/Scheduler/Readiness.antt =====
-- resolution_dependencies.go: the prerequisites of the members that start.
pub mod Scan
pub mod Run
use bindly.Prelude.{
  ℕ, zero, suc, ◌≡◌, ◌≢◌, ◌∙◌, sym, ap, refl, Bool, true, false, not, ◌&&◌, String, Option, none,
  some, List, [], ◌∷◌, is_some, nat_eq, nat_eq_iff, ◌⊎◌, ◌<◌, get_elem?, set, arith, inl, inr,
  Bool-cases, Option-cases, length, get_elem?-set_self, get_elem?-set_ne,
}
use mathlib.Core.Path.{subst}
use bindly.Spec.{BindingSpec}
use bindly.Scheduler.{
  Status, pending, running, returned, completed, Verdict, ready, wait, skip, member_index,
  prerequisites, examine, failure_of,
}

-- A completed member without an error.
abbrev pub is_success : Option Status → Bool
is_success (some (completed r)) = not (is_some (failure_of r))
is_success _ = false

-- Running, returned, or completed after an attempt.
abbrev pub is_started : Option Status → Bool
is_started (some (running held)) = true
is_started (some (returned r)) = true
is_started (some (completed r)) = r.outcome.attempted
is_started _ = false

unfoldable pub settled : List BindingSpec → List Status → List String → Bool
settled members status [] = true
settled members status (name ∷ names) =
    is_success (get_elem? status (member_index members name)) && settled members status names

-- The prerequisites of every started member have succeeded.
abbrev pub IsSettled : List BindingSpec → List Status → Type 0
IsSettled members status =
    (i : ℕ)
    → is_started (get_elem? status i) ≡ true
    → settled members status (prerequisites members i) ≡ true

examine-waiting :
    (members : List BindingSpec) (status : List Status) (path : String) (names : List String)
    → examine members status path true names ≢ ready
unfolding examine
examine-waiting members status path [] h = cc
examine-waiting members status path (name ∷ names) h =
    ground (arith, examine-waiting members status path names)

pub examine-settled :
    (members : List BindingSpec) (status : List Status) (path : String) (names : List String)
    → examine members status path false names ≡ ready
    → settled members status names ≡ true
unfolding examine settled
examine-settled members status path [] h = refl
examine-settled members status path (name ∷ names) h =
    ground
      (arith, examine-waiting members status path names, examine-settled members status path names)

pub get_elem?-length :
    (xs : List Status) (i : ℕ) (s : Status) → get_elem? xs i ≡ some s → i < length xs
get_elem?-length [] i s h = cc
get_elem?-length (x ∷ xs) zero s h = omega arith
get_elem?-length (x ∷ xs) (suc i) s h = omega (arith, get_elem?-length xs i s h)

-- A write over a member that has not succeeded keeps every success.
is_success-set :
    (status : List Status) (i k : ℕ) (s v : Status)
    → get_elem? status i ≡ some s
    → is_success (some s) ≡ false
    → is_success (get_elem? status k) ≡ true
    → is_success (get_elem? (set status i v) k) ≡ true
is_success-set [] i k s v g f t = cc
is_success-set (x ∷ xs) zero zero s v g f t = ground arith
is_success-set (x ∷ xs) zero (suc k) s v g f t = t
is_success-set (x ∷ xs) (suc i) zero s v g f t = t
is_success-set (x ∷ xs) (suc i) (suc k) s v g f t = is_success-set xs i k s v g f t

pub settled-set :
    (members : List BindingSpec) (status : List Status) (i : ℕ) (s v : Status) (names : List String)
    → get_elem? status i ≡ some s
    → is_success (some s) ≡ false
    → settled members status names ≡ true
    → settled members (set status i v) names ≡ true
unfolding settled
settled-set members status i s v [] g f t = refl
settled-set members status i s v (name ∷ names) g f t = ground (
  arith,
  is_success-set status i (member_index members name) s v g f,
  settled-set members status i s v names g f,
)

same_place : (i k : ℕ) → (i ≡ k) ⊎ (i ≢ k)
same_place i k = elim (Bool-cases (nat_eq i k)) [
  | inl e ↦ inl ((nat_eq_iff i k).0 e)
  | inr e ↦ inr (λ same. ground (arith, nat_eq_iff i k))
]

-- A write at i keeps the invariant if the member that it starts, if any, is settled.
pub IsSettled-set :
    (members : List BindingSpec) (status : List Status) (i : ℕ) (s v : Status)
    → get_elem? status i ≡ some s
    → is_success (some s) ≡ false
    → (is_started (some v) ≡ true → settled members status (prerequisites members i) ≡ true)
    → IsSettled members status
    → IsSettled members (set status i v)
IsSettled-set members status i s v g f start sound k t =
    settled-set members status i s v (prerequisites members k) g f (elim (same_place i k) [
      | inl e ↦
          subst (λ j. settled members status (prerequisites members j) ≡ true) e
            (start (ground (arith, get_elem?-set_self status i v (get_elem?-length status i s g))))
      | inr e ↦ sound k (ground (arith, get_elem?-set_ne status v e))
    ])

-- What a scan has found is a pending member whose prerequisites have succeeded.
abbrev pub IsReady : List BindingSpec → List Status → Option ℕ → Type 0
IsReady members status none = Unit
IsReady members status (some i) =
    (get_elem? status i ≡ some pending) × (settled members status (prerequisites members i) ≡ true)

-- Writing another place, which has not succeeded, keeps it ready.
pub IsReady-set :
    (members : List BindingSpec) (status : List Status) (i : ℕ) (s v : Status) (found : Option ℕ)
    → get_elem? status i ≡ some s
    → is_success (some s) ≡ false
    → (found ≢ some i)
    → IsReady members status found
    → IsReady members (set status i v) found
IsReady-set members status i s v none g f other r = tt
IsReady-set members status i s v (some k) g f other (p, t) = (
  get_elem?-set_ne status v (λ e. other (ap some (sym e))) ∙ p,
  settled-set members status i s v (prerequisites members k) g f t,
)
