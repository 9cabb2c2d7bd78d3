-- ===== src/Reflect/Equality.antt =====
-- Lemmas on the test for equal types.
use bindly.Prelude.{◌≡◌, refl, ◌↔◌, Bool, true, arith, eq_iff, nat_eq_iff, str_eq, nat_eq, ◌&&◌}
use bindly.Reflect.{
  GoType, Fields, Basic, same_type, same_fields, same_basic, same_bool, same_visibility, Visibility,
}

same_basic→eq : (a b : Basic) → same_basic a b ≡ true → a ≡ b
same_basic→eq a b h = ground arith

same_basic_refl : (a : Basic) → same_basic a a ≡ true
same_basic_refl a = ground arith

same_bool→eq : (a b : Bool) → same_bool a b ≡ true → a ≡ b
same_bool→eq a b h = ground arith

same_bool_refl : (a : Bool) → same_bool a a ≡ true
same_bool_refl a = ground arith

and_parts : (a b : Bool) → (a && b) ≡ true → (a ≡ true) × (b ≡ true)
and_parts a b h = ground arith

same_visibility→eq : (a b : Visibility) → same_visibility a b ≡ true → a ≡ b
same_visibility→eq Visibility.exported Visibility.exported h = refl
same_visibility→eq Visibility.embedded Visibility.embedded h = refl
same_visibility→eq Visibility.unexported Visibility.unexported h = refl
same_visibility→eq _ _ h = cc

same_visibility_refl : (a : Visibility) → same_visibility a a ≡ true
same_visibility_refl Visibility.exported = refl
same_visibility_refl Visibility.embedded = refl
same_visibility_refl Visibility.unexported = refl

mutual
  unfolding same_type

  same_type→eq : (t u : GoType) → same_type t u ≡ true → t ≡ u
  same_type→eq (GoType.basic b n) (GoType.basic c m) h =
      let (p, q) = and_parts (same_basic b c) (str_eq n m) h in
      cc (same_basic→eq b c p, (eq_iff n m).0 q)
  same_type→eq (GoType.pointer t) (GoType.pointer u) h = cc (same_type→eq t u h)
  same_type→eq (GoType.slice n t) (GoType.slice m u) h =
      let (p, q) = and_parts (str_eq n m) (same_type t u) h in
      cc ((eq_iff n m).0 p, same_type→eq t u q)
  same_type→eq (GoType.array n t) (GoType.array m u) h =
      let (p, q) = and_parts (nat_eq n m) (same_type t u) h in
      cc ((nat_eq_iff n m).0 p, same_type→eq t u q)
  same_type→eq (GoType.mapping k t) (GoType.mapping l u) h =
      let (p, q) = and_parts (same_type k l) (same_type t u) h in
      cc (same_type→eq k l p, same_type→eq t u q)
  same_type→eq (GoType.struct n fs) (GoType.struct m gs) h =
      let (p, q) = and_parts (str_eq n m) (same_fields fs gs) h in
      cc ((eq_iff n m).0 p, same_fields→eq fs gs q)
  same_type→eq _ _ h = cc

  same_fields→eq : (fs gs : Fields) → same_fields fs gs ≡ true → fs ≡ gs
  same_fields→eq Fields.end Fields.end h = refl
  same_fields→eq (Fields.field n e k t fs) (Fields.field m d l u gs) h =
      let (p, h1) =
        and_parts (str_eq n m)
          (same_visibility e d && (same_bool k l && (same_type t u && same_fields fs gs))) h in
      let (q, h2) =
        and_parts (same_visibility e d) (same_bool k l && (same_type t u && same_fields fs gs))
          h1 in
      let (r, h3) = and_parts (same_bool k l) (same_type t u && same_fields fs gs) h2 in
      let (x, y) = and_parts (same_type t u) (same_fields fs gs) h3 in
      cc (
        (eq_iff n m).0 p,
        same_visibility→eq e d q,
        same_bool→eq k l r,
        same_type→eq t u x,
        same_fields→eq fs gs y,
      )
  same_fields→eq _ _ h = cc

mutual
  unfolding same_type

  same_type_refl : (t : GoType) → same_type t t ≡ true
  same_type_refl (GoType.basic b n) = ground (arith, same_basic_refl b, eq_iff n n)
  same_type_refl (GoType.pointer t) = same_type_refl t
  same_type_refl (GoType.slice n t) = ground (arith, same_type_refl t, eq_iff n n)
  same_type_refl (GoType.array n t) = ground (arith, same_type_refl t, nat_eq_iff n n)
  same_type_refl (GoType.mapping k t) = ground (arith, same_type_refl t, same_type_refl k)
  same_type_refl (GoType.struct n fs) = ground (arith, same_fields_refl fs, eq_iff n n)

  same_fields_refl : (fs : Fields) → same_fields fs fs ≡ true
  same_fields_refl Fields.end = refl
  same_fields_refl (Fields.field n e k t fs) = ground (
    arith,
    same_type_refl t,
    same_fields_refl fs,
    eq_iff n n,
    same_visibility_refl e,
    same_bool_refl k,
  )

pub same_type_iff : (t u : GoType) → (same_type t u ≡ true) ↔ (t ≡ u)
same_type_iff t u = (same_type→eq t u, λ e. rw e (same_type_refl u))
