-- ===== src/BigNumber/Spec.antt =====
-- The interface of bignumber.js: its operations and their documented laws.
use augur_node.Prelude.{◌≡◌, ◌≢◌, ◌↔◌, Bool, true, false, if◌then◌else◌, not}

pub record BigNumber : Type 1 where
  pub Num : Type 0
  pub zero_bn : Num
  pub one_bn : Num
  pub plus : Num → Num → Num
  pub minus : Num → Num → Num
  pub multiplied_by : Num → Num → Num
  pub divided_by : Num → Num → Num
  pub negated : Num → Num
  pub abs : Num → Num
  pub min : Num → Num → Num
  pub max : Num → Num → Num
  pub eq : Num → Num → Bool
  pub lt : Num → Num → Bool
  -- The field `s` is -1.
  pub is_negative : Num → Bool
  -- No more than DECIMAL_PLACES decimal places.
  pub fits : Num → Bool
  pub plus_assoc : (a b c : Num) → plus (plus a b) c ≡ plus a (plus b c)
  pub plus_comm : (a b : Num) → plus a b ≡ plus b a
  pub plus-zero_bn : (a : Num) → plus a zero_bn ≡ a
  pub plus-negated : (a : Num) → plus a (negated a) ≡ zero_bn
  pub minus_lem : (a b : Num) → minus a b ≡ plus a (negated b)
  pub times_assoc :
      (a b c : Num) → multiplied_by (multiplied_by a b) c ≡ multiplied_by a (multiplied_by b c)
  pub times_comm : (a b : Num) → multiplied_by a b ≡ multiplied_by b a
  pub times-one_bn : (a : Num) → multiplied_by a one_bn ≡ a
  pub times-plus :
      (a b c : Num) → multiplied_by a (plus b c) ≡ plus (multiplied_by a b) (multiplied_by a c)
  pub divide-times :
      (a b : Num) → fits a ≡ true → b ≢ zero_bn → divided_by (multiplied_by a b) b ≡ a
  pub eq_iff : (a b : Num) → (eq a b ≡ true) ↔ (a ≡ b)
  pub lt_irrefl : (a : Num) → lt a a ≡ false
  pub lt_trans : (a b c : Num) → lt a b ≡ true → lt b c ≡ true → lt a c ≡ true
  pub lt_connex : (a b : Num) → lt a b ≡ false → lt b a ≡ false → a ≡ b
  pub lt-plus : (a b c : Num) → lt a b ≡ true → lt (plus a c) (plus b c) ≡ true
  pub lt-times :
      (a b : Num)
      → lt zero_bn a ≡ true
      → lt zero_bn b ≡ true
      → lt zero_bn (multiplied_by a b) ≡ true
  pub abs_lem : (a : Num) → abs a ≡ (if lt a zero_bn then negated a else a)
  pub min_lem : (a b : Num) → min a b ≡ (if lt b a then b else a)
  pub max_lem : (a b : Num) → max a b ≡ (if lt a b then b else a)
  pub is_negative_lt : (a : Num) → lt a zero_bn ≡ true → is_negative a ≡ true
  pub is_negative_gt : (a : Num) → lt zero_bn a ≡ true → is_negative a ≡ false

module _ (bn : BigNumber) where
  open bn use {Num, zero_bn, eq, lt}

  -- `a.isZero()`
  abbrev pub is_zero : Num → Bool
  is_zero a = eq a zero_bn

  -- `a.gt(b)`, `a.lte(b)`, `a.gte(b)`
  abbrev pub gt : Num → Num → Bool
  gt a b = lt b a

  abbrev pub lte : Num → Num → Bool
  lte a b = not (lt b a)

  abbrev pub gte : Num → Num → Bool
  gte a b = not (lt a b)
