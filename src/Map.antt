-- ===== src/Map.antt =====
-- internal/map.go: the lock-guarded generic map, each method under its lock as one step.
-- A Go map is an association list; its order is not observable, so no law below depends on it.
pub mod Laws
use bindly.Prelude.{
  ℕ, Bool, true, false, Option, none, some, List, [], ◌∷◌, map, length, is_some, if◌then◌else◌,
}
use bindly.Prelude.Comparable.{Comparable, ◌==◌}

pub record Map {ℓ κ} (K : Type ℓ) (V : Type κ) : Type (ℓ ⊔ κ) where
  pub entries : List (K × V)

module _ {ℓ κ} {K : Type ℓ} {V : Type κ} ⦃c : Comparable K⦄ where
  unfoldable pub lookup : K → List (K × V) → Option V
  lookup wanted [] = none
  lookup wanted ((held, value) ∷ rest) =
      let later = lookup wanted rest in if held == wanted then some value else later

  unfoldable pub without : K → List (K × V) → List (K × V)
  without dropped [] = []
  without dropped (entry ∷ rest) =
      let kept = without dropped rest in if entry.0 == dropped then kept else entry ∷ kept

  unfoldable pub new : Map K V
  new = record { entries = [] }

  unfoldable pub get : Map K V → K → Option V
  unfolding lookup
  get m k = lookup k m.entries

  unfoldable pub put : Map K V → K → V → Map K V
  unfolding without
  put m k v = record { entries = (k, v) ∷ without k m.entries }

  unfoldable pub delete : Map K V → K → Map K V
  unfolding without
  delete m k = record { entries = without k m.entries }

  unfoldable pub exists : Map K V → K → Bool
  unfolding get
  exists m k = is_some (get m k)

  -- The stored value with `true`, or the new value, stored, with `false`.
  unfoldable pub load_or_store : Map K V → K → V → (V × Bool) × Map K V
  unfolding get put
  load_or_store m k v = elim (get m k) [
    | some actual ↦ ((actual, true), m)
    | none ↦ ((v, false), put m k v)
  ]

  unfoldable pub clear : Map K V → Map K V
  clear m = record { entries = [] }

  unfoldable pub len : Map K V → ℕ
  len m = length m.entries

  unfoldable pub keys : Map K V → List K
  keys m = map (λ e. e.0) m.entries

  -- `Clone` and `Map` copy every entry into a fresh map.
  copy_entries : List (K × V) → Map K V → Map K V
  unfolding put
  copy_entries [] m = m
  copy_entries ((k, v) ∷ rest) m = copy_entries rest (put m k v)

  unfoldable pub clone : Map K V → Map K V
  unfolding copy_entries new
  clone m = copy_entries m.entries new

-- `Range` visits entries until the callback, with its own state, answers false.
range_entries {ℓ κ μ} :
    {K : Type ℓ} {V : Type κ} {S : Type μ} → (K → V → S → Bool × S) → List (K × V) → S → S
range_entries f [] s = s
range_entries f ((k, v) ∷ rest) s =
    let (more, s') = f k v s in let after = range_entries f rest s' in if more then after else s'

unfoldable pub range {ℓ κ μ} :
    {K : Type ℓ} {V : Type κ} {S : Type μ} → Map K V → (K → V → S → Bool × S) → S → S
unfolding range_entries
range m f s = range_entries f m.entries s
