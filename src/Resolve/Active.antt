-- ===== src/Resolve/Active.antt =====
-- scope.go: lemmas on sets of active keys.
use bindly.Prelude.{
  ℕ, ◌≤◌, ◌<◌, ◌≡◌, refl, String, true, false, not, List, [], ◌∷◌, select, length, eq_iff, arith,
}
use bindly.Resolve.{contains, remove}

remove_absent : (keys : List String) (k : String) → contains keys k ≡ false → remove keys k ≡ keys
unfolding contains remove
remove_absent [] k h = refl
remove_absent (a ∷ keys) k h = ground (arith, remove_absent keys k)

pub remove-cons :
    (keys : List String) (k : String) → contains keys k ≡ false → remove (k ∷ keys) k ≡ keys
unfolding remove
remove-cons keys k h = ground (arith, eq_iff k k, remove_absent keys k h)

-- How many of the keys are not active.
unfoldable pub free : List String → List String → ℕ
free keys active = length (select (λ k. not (contains active k)) keys)

free-le : (keys active : List String) (k : String) → free keys (k ∷ active) ≤ free keys active
unfolding free contains
free-le [] active k = omega arith
free-le (a ∷ keys) active k = ground (arith, free-le keys active k)

pub free-lt :
    (keys active : List String) (k : String)
    → contains keys k ≡ true
    → contains active k ≡ false
    → free keys (k ∷ active) < free keys active
unfolding free contains
free-lt [] active k h a = cc
free-lt (u ∷ keys) active k h a =
    ground (arith, free-le keys active k, free-lt keys active k, eq_iff u k, eq_iff k u)
