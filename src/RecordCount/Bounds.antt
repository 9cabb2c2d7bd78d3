-- ===== src/RecordCount/Bounds.antt =====
-- record_count.go: the limits of a plan and the counts that they admit.
use bindly.Prelude.{ℕ, ◌≡◌, ◌≢◌, refl, ◌↔◌, true, false, Option, none, some, arith}
use bindly.Prelude.Int.{ℤ, pos_part, ◌≤ℤ◌}
use bindly.Reflect.{GoType}
use bindly.Spec.{BindingSpec, is_set}
use bindly.RecordCount.{compile_record_count, check_count, negative_limit, exceeds}

abbrev AtLeast : ℕ → Option ℤ → Type 0
AtLeast n none = Unit
AtLeast n (some limit) = limit ≤ℤ ℤ.pos n

abbrev AtMost : ℕ → Option ℤ → Type 0
AtMost n none = Unit
AtMost n (some limit) = ℤ.pos n ≤ℤ limit

abbrev Exactly : ℕ → Option ℤ → Type 0
Exactly n none = Unit
Exactly n (some limit) = limit ≡ ℤ.pos n

-- The count lies within every configured limit.
pub record Within (b : BindingSpec) (n : ℕ) : Type 0 where
  pub enough : AtLeast n b.min_allowed
  pub returned : Exactly n b.expected
  pub bounded : AtMost n b.max_allowed

-- A count passes the check exactly when it lies within the limits and is not zero for a required
-- binding.
pub check_count_iff :
    (b : BindingSpec) (n : ℕ)
    → (check_count b n ≡ none) ↔ (Within b n × (is_set b.required ≡ true → n ≢ 0))
unfolding check_count
check_count_iff b n = (
  (λ e. (
    record { enough = enough e; returned = returned e; bounded = bounded e },
    λ r z. ground arith,
  )),
  (λ w. passes w.0.enough w.0.returned w.0.bounded w.1),
)
  where
    enough : check_count b n ≡ none → AtLeast n b.min_allowed
    enough e = ground arith

    returned : check_count b n ≡ none → Exactly n b.expected
    returned e = ground arith

    bounded : check_count b n ≡ none → AtMost n b.max_allowed
    bounded e = ground arith

    passes :
        AtLeast n b.min_allowed
        → Exactly n b.expected
        → AtMost n b.max_allowed
        → (is_set b.required ≡ true → n ≢ 0)
        → check_count b n ≡ none
    passes e r m z = ground arith

witness_count : Option ℤ → Option ℤ → Option ℤ → ℕ
witness_count low (some e) high = pos_part e
witness_count (some l) none high = pos_part l
witness_count none none high = 0

-- What the compiler has checked of the limits, configured or not.
record Consistent (low expected high : Option ℤ) : Type 0 where
  low_sign : negative_limit low ≡ false
  high_sign : negative_limit high ≡ false
  expected_sign : negative_limit expected ≡ false
  ordered : exceeds low high ≡ false
  expected_low : exceeds low expected ≡ false
  expected_high : exceeds expected high ≡ false

compile_record_count-Consistent :
    (b : BindingSpec) (target : GoType)
    → compile_record_count b target ≡ none
    → Consistent b.min_allowed b.expected b.max_allowed
unfolding compile_record_count
compile_record_count-Consistent b target h = record {
  low_sign = ground arith;
  high_sign = ground arith;
  expected_sign = ground arith;
  ordered = ground arith;
  expected_low = ground arith;
  expected_high = ground arith;
}

fits :
    (low expected high : Option ℤ)
    → Consistent low expected high
    → let n = witness_count low expected high in AtLeast n low × Exactly n expected × AtMost n high
unfolding witness_count
fits none none none c = (tt, tt, tt)
fits none none (some (ℤ.pos h)) c = (tt, tt, omega arith)
fits none none (some (ℤ.negsuc h)) c = absurd (ground (arith, c.high_sign))
fits (some (ℤ.pos l)) none high c = (omega arith, tt, below_high high c)
  where
    below_high : (o : Option ℤ) → Consistent (some (ℤ.pos l)) none o → AtMost l o
    below_high none d = tt
    below_high (some h) d = ground (arith, d.ordered)
fits (some (ℤ.negsuc l)) none high c = absurd (ground (arith, c.low_sign))
fits low (some (ℤ.negsuc e)) high c = absurd (ground (arith, c.expected_sign))
fits low (some (ℤ.pos e)) high c = (above_low low c, refl, below_high high c)
  where
    above_low : (o : Option ℤ) → Consistent o (some (ℤ.pos e)) high → AtLeast e o
    above_low none d = tt
    above_low (some l) d = ground (arith, d.expected_low)

    below_high : (o : Option ℤ) → Consistent low (some (ℤ.pos e)) o → AtMost e o
    below_high none d = tt
    below_high (some h) d = ground (arith, d.expected_high)

-- Limits that a plan accepts are consistent: some count lies within them.
pub compile_record_count-Within :
    (b : BindingSpec) (target : GoType)
    → compile_record_count b target ≡ none
    → (n : ℕ) × Within b n
compile_record_count-Within b target h =
    let (enough, returned, bounded) =
      fits b.min_allowed b.expected b.max_allowed (compile_record_count-Consistent b target h) in
    (
      witness_count b.min_allowed b.expected b.max_allowed,
      record { enough = enough; returned = returned; bounded = bounded },
    )
