-- ===== src/Prelude/Text.antt =====
-- The string functions of the standard library that the code calls, over a text's code points.
-- Case folding and trimming are those of ASCII; names in binding metadata are ASCII.
use Prim.Native.Nat.{ℕ, ◌+◌}
use Prim.Native.Char.{code}
use Prim.Native.String.{String}
use mathlib.Core.Bool.{Bool, true, false, ◌&&◌, ◌||◌}
use mathlib.Core.List.{List, [], ◌∷◌, map}
use mathlib.Core.Option.{Option, none, some}
use bindly.Prelude.Tests.{leb, nat_eq, if◌then◌else◌}

abbrev pub codes : String → List ℕ
codes String.[] = []
codes (String.◌∷◌ c s) = code c ∷ codes s

-- unicode.ToLower on ASCII.
unfoldable pub lower_code : ℕ → ℕ
lower_code c = if leb b'A' c && leb c b'Z' then c + 32 else c

unfoldable pub is_space : ℕ → Bool
is_space c = nat_eq c 32 || (leb 9 c && leb c 13)

unfoldable pub same_codes : List ℕ → List ℕ → Bool
same_codes [] [] = true
same_codes (a ∷ xs) (b ∷ ys) = nat_eq a b && same_codes xs ys
same_codes _ _ = false

-- strings.EqualFold.
unfoldable pub equal_fold : String → String → Bool
unfolding lower_code same_codes
equal_fold a b = same_codes (map lower_code (codes a)) (map lower_code (codes b))

abbrev trim_left : String → String
trim_left String.[] = String.[]
trim_left (String.◌∷◌ c s) =
    let rest = trim_left s in if is_space (code c) then rest else String.◌∷◌ c s

abbrev is_blank : String → Bool
is_blank String.[] = true
is_blank (String.◌∷◌ c s) = is_space (code c) && is_blank s

abbrev trim_right : String → String
trim_right String.[] = String.[]
trim_right (String.◌∷◌ c s) =
    let rest = trim_right s in
    if is_space (code c) && is_blank s then String.[] else String.◌∷◌ c rest

-- strings.TrimSpace
unfoldable pub trim_space : String → String
unfolding is_space
trim_space s = trim_right (trim_left s)

-- strings.ContainsAny
unfoldable pub contains_any : List ℕ → String → Bool
contains_any cs String.[] = false
contains_any cs (String.◌∷◌ c s) = has_code cs (code c) || contains_any cs s
  where
    has_code : List ℕ → ℕ → Bool
    has_code [] x = false
    has_code (a ∷ as') x = nat_eq a x || has_code as' x

-- strings.Cut at a character: what stands before and after its first occurrence.
unfoldable pub cut : ℕ → String → Option (String × String)
cut k String.[] = none
cut k (String.◌∷◌ c s) =
    let rest = cut k s in
    if nat_eq (code c) k
    then some (String.[], s)
    else elim rest [ none ↦ none | some (before, after) ↦ some (String.◌∷◌ c before, after) ]
