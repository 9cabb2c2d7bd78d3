-- ===== src/Resolve/Keys.antt =====
-- scope.go's resolutionKey and the parts of the persistent key, compared part by part as Go
-- compares structs.
use bindly.Prelude.{
  ℕ, String, ◌≡◌, ◌↔◌, Bool, true, false, Option, none, some, ◌&&◌, str_eq, nat_eq, nat_eq_iff,
  eq_iff, arith,
}
use bindly.Prelude.Comparable.{Comparable}
use bindly.Reflect.{GoType, same_type}
use bindly.Reflect.Equality.{same_type_iff}
use bindly.Locator.{Location}

pub record ResolutionKey : Type 0 where
  pub owner : ℕ
  pub location : Location
  pub target : Option GoType

pub record PersistentKey : Type 0 where
  pub owner : ℕ
  pub location : Location
  pub target : Option GoType
  pub identity : String

unfoldable pub same_target : Option GoType → Option GoType → Bool
same_target none none = true
same_target (some t) (some u) = same_type t u
same_target _ _ = false

same_target_iff : (t u : Option GoType) → (same_target t u ≡ true) ↔ (t ≡ u)
unfolding same_target
same_target_iff none none = ground arith
same_target_iff none (some u) = ground arith
same_target_iff (some t) none = ground arith
same_target_iff (some t) (some u) = ground (arith, same_type_iff t u)

unfoldable pub same_resolution_key : ResolutionKey → ResolutionKey → Bool
same_resolution_key a b =
    nat_eq a.owner b.owner
    && (str_eq a.location.kind b.location.kind
        && (str_eq a.location.in_path b.location.in_path && same_target a.target b.target))

unfoldable pub same_persistent_key : PersistentKey → PersistentKey → Bool
same_persistent_key a b =
    nat_eq a.owner b.owner
    && (str_eq a.location.kind b.location.kind
        && (str_eq a.location.in_path b.location.in_path
            && (same_target a.target b.target && str_eq a.identity b.identity)))

pub same_resolution_key_iff : (a b : ResolutionKey) → (same_resolution_key a b ≡ true) ↔ (a ≡ b)
unfolding same_resolution_key
same_resolution_key_iff a b = ground (
  arith,
  nat_eq_iff a.owner b.owner,
  eq_iff a.location.kind b.location.kind,
  eq_iff a.location.in_path b.location.in_path,
  same_target_iff a.target b.target,
)

pub same_persistent_key_iff : (a b : PersistentKey) → (same_persistent_key a b ≡ true) ↔ (a ≡ b)
unfolding same_persistent_key
same_persistent_key_iff a b = ground (
  arith,
  nat_eq_iff a.owner b.owner,
  eq_iff a.location.kind b.location.kind,
  eq_iff a.location.in_path b.location.in_path,
  same_target_iff a.target b.target,
  eq_iff a.identity b.identity,
)

instance abbrev pub resolution_key_comparable : Comparable ResolutionKey
resolution_key_comparable = record {
  same = same_resolution_key;
  same_iff = same_resolution_key_iff;
}

instance abbrev pub persistent_key_comparable : Comparable PersistentKey
persistent_key_comparable = record {
  same = same_persistent_key;
  same_iff = same_persistent_key_iff;
}
