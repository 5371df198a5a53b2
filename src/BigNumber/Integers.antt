-- ===== src/BigNumber/Integers.antt =====
-- The integers meet the laws of bignumber.js: the numbers at which witnesses stand.
use augur_node.Prelude.{
  ℕ, zero, suc, ◌*◌, ◌/◌, ◌≡◌, refl, ◌≢◌, Bool, true, false, ap, arith, if◌then◌else◌,
}
use native.Mathlib.Nat.{mul-div_cancel}
use augur_node.Prelude.Int.{
  ℤ, pos, negsuc, pos_part, neg_part, ◌+ℤ◌, ◌-ℤ◌, ◌*ℤ◌, div_ℤ, eq_ℤ, ltb_ℤ, int_laws, eq_of_parts,
  +ℤ_parts, *ℤ_parts, *ℤ_comm, eq_ℤ_iff,
}
use augur_node.BigNumber.Spec.{BigNumber}

pub plus_assoc : (a b c : ℤ) → a +ℤ b +ℤ c ≡ a +ℤ (b +ℤ c)
plus_assoc a b c = omega int_laws

pub plus_comm : (a b : ℤ) → a +ℤ b ≡ b +ℤ a
plus_comm a b = omega int_laws

abbrev pub negated : ℤ → ℤ
negated a = pos 0 -ℤ a

pub plus-zero_bn : (a : ℤ) → a +ℤ pos 0 ≡ a
plus-zero_bn a = omega int_laws

pub plus-negated : (a : ℤ) → a +ℤ negated a ≡ pos 0
plus-negated a = omega int_laws

pub minus_lem : (a b : ℤ) → a -ℤ b ≡ a +ℤ negated b
minus_lem a b = omega int_laws

pub times_assoc : (a b c : ℤ) → a *ℤ b *ℤ c ≡ a *ℤ (b *ℤ c)
times_assoc a b c = eq_of_parts _ _ (
    omega (
      arith,
      *ℤ_parts (a *ℤ b) c,
      *ℤ_parts a (b *ℤ c),
      ap (λ (t : ℕ). t * pos_part c) (*ℤ_parts a b),
      ap (λ (t : ℕ). t * neg_part c) (*ℤ_parts a b),
      ap (λ (t : ℕ). pos_part a * t) (*ℤ_parts b c),
      ap (λ (t : ℕ). neg_part a * t) (*ℤ_parts b c),
    ))

pub times-one_bn : (a : ℤ) → a *ℤ pos 1 ≡ a
times-one_bn a = omega (int_laws, *ℤ_parts a (pos 1))

pub times-plus : (a b c : ℤ) → a *ℤ (b +ℤ c) ≡ a *ℤ b +ℤ a *ℤ c
times-plus a b c = eq_of_parts _ _ (
    omega (
      arith,
      *ℤ_parts a (b +ℤ c),
      *ℤ_parts a b,
      *ℤ_parts a c,
      +ℤ_parts (a *ℤ b) (a *ℤ c),
      ap (λ (t : ℕ). pos_part a * t) (+ℤ_parts b c),
      ap (λ (t : ℕ). neg_part a * t) (+ℤ_parts b c),
    ))

-- A quotient of natural numbers undoes a product.
mul-div : (m n : ℕ) → m * suc n / suc n ≡ m
mul-div m n = mul-div_cancel m (omega arith)

pub divide-times : (a b : ℤ) → true ≡ true → b ≢ pos 0 → div_ℤ (a *ℤ b) b ≡ a
unfolding div_ℤ ◌*ℤ◌
divide-times (pos m) (pos zero) e h = absurd (h refl)
divide-times (pos m) (pos (suc n)) e h = ground (arith, mul-div m n)
divide-times (pos m) (negsuc n) e h = ground (arith, mul-div m n)
divide-times (negsuc m) (pos zero) e h = absurd (h refl)
divide-times (negsuc m) (pos (suc n)) e h = ground (arith, mul-div (suc m) n)
divide-times (negsuc m) (negsuc n) e h = ground (arith, mul-div (suc m) n)

pub lt_irrefl : (a : ℤ) → ltb_ℤ a a ≡ false
lt_irrefl a = ground arith

pub lt_trans : (a b c : ℤ) → ltb_ℤ a b ≡ true → ltb_ℤ b c ≡ true → ltb_ℤ a c ≡ true
lt_trans a b c h k = ground arith

pub lt_connex : (a b : ℤ) → ltb_ℤ a b ≡ false → ltb_ℤ b a ≡ false → a ≡ b
lt_connex a b h k = eq_of_parts a b (ground arith)

pub lt-plus : (a b c : ℤ) → ltb_ℤ a b ≡ true → ltb_ℤ (a +ℤ c) (b +ℤ c) ≡ true
lt-plus a b c h = ground (arith, +ℤ_parts a c, +ℤ_parts b c)

pub lt-times :
    (a b : ℤ) → ltb_ℤ (pos 0) a ≡ true → ltb_ℤ (pos 0) b ≡ true → ltb_ℤ (pos 0) (a *ℤ b) ≡ true
unfolding ◌*ℤ◌
lt-times (pos (suc m)) (pos (suc n)) h k = grind arith
lt-times (pos zero) b h k = ground arith
lt-times (pos (suc m)) (pos zero) h k = ground arith
lt-times (pos (suc m)) (negsuc n) h k = ground arith
lt-times (negsuc m) b h k = ground arith

abbrev pub abs : ℤ → ℤ
abs a = if ltb_ℤ a (pos 0) then negated a else a

abbrev pub is_negative : ℤ → Bool
is_negative a = ltb_ℤ a (pos 0)

pub is_negative_gt : (a : ℤ) → ltb_ℤ (pos 0) a ≡ true → is_negative a ≡ false
is_negative_gt a h = ground arith

abbrev pub integers : BigNumber
integers = record {
  Num = ℤ;
  zero_bn = pos 0;
  one_bn = pos 1;
  plus = ◌+ℤ◌;
  minus = ◌-ℤ◌;
  multiplied_by = ◌*ℤ◌;
  divided_by = div_ℤ;
  negated = negated;
  abs = abs;
  min = λ a b. if ltb_ℤ b a then b else a;
  max = λ a b. if ltb_ℤ a b then b else a;
  eq = eq_ℤ;
  lt = ltb_ℤ;
  is_negative = is_negative;
  fits = λ a. true;
  plus_assoc = plus_assoc;
  plus_comm = plus_comm;
  plus-zero_bn = plus-zero_bn;
  plus-negated = plus-negated;
  minus_lem = minus_lem;
  times_assoc = times_assoc;
  times_comm = *ℤ_comm;
  times-one_bn = times-one_bn;
  times-plus = times-plus;
  divide-times = divide-times;
  eq_iff = eq_ℤ_iff;
  lt_irrefl = lt_irrefl;
  lt_trans = lt_trans;
  lt_connex = lt_connex;
  lt-plus = lt-plus;
  lt-times = lt-times;
  abs_lem = λ a. refl;
  min_lem = λ a b. refl;
  max_lem = λ a b. refl;
  is_negative_lt = λ a h. h;
  is_negative_gt = is_negative_gt;
}
