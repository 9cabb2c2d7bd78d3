-- ===== src/Locator/Compose/Priority.antt =====
-- locator/compose.go: the composed priority.
use bindly.Prelude.{List, [], ◌∷◌, arith, if◌then◌else◌, ap}
use mathlib.Core.List.{Memᴰ}
use bindly.Prelude.Int.{ℤ, ◌≤ℤ◌, ltb_ℤ}
use bindly.Locator.Compose.{Layer, highest_priority, layer_priority}

abbrev raised : ℤ → Layer → ℤ
raised p layer = if ltb_ℤ p (layer_priority layer) then layer_priority layer else p

highest_priority-ge : (layers : List Layer) (p : ℤ) → p ≤ℤ highest_priority p layers
unfolding highest_priority
highest_priority-ge [] p = omega arith
highest_priority-ge (layer ∷ rest) p = ground (arith, highest_priority-ge rest (raised p layer))

-- The composed priority is at least the default, and at least that of every layer.
pub highest_priority_bound :
    {layer : Layer} (layers : List Layer) (p : ℤ)
    → Memᴰ layer layers
    → (p ≤ℤ highest_priority p layers) × (layer_priority layer ≤ℤ highest_priority p layers)
unfolding highest_priority
highest_priority_bound [] p m = elim m [ ]
highest_priority_bound (first ∷ rest) p (Memᴰ.head e) =
    ground (arith, highest_priority-ge rest (raised p first), ap layer_priority e)
highest_priority_bound (first ∷ rest) p (Memᴰ.tail m) =
    ground (arith, highest_priority_bound rest (raised p first) m)
