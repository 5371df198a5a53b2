-- ===== src/Quantity.antt =====
-- Quantities that carry their dimension (src/utils/dimension-quantity.ts): a magnitude and the class
-- that built it. Every operation of the source checks dimensions at run time and may throw.
pub mod Dimensions
pub mod RoundTrips
pub mod Percents
mod Tests
use augur_node.Prelude.{
  ◌≡◌, Bool, true, false, ◌&&◌, ◌||◌, not, Option, none, some, Result, ok, err, ◌>>=◌, ◌>>◌, guard,
  if◌then◌else◌,
}
use augur_node.Prelude.Int.{ℤ, pos, negsuc, ◌+ℤ◌, ◌-ℤ◌, eq_ℤ}
use augur_node.BigNumber.{BigNumber, is_zero, gt, lte, gte}

-- The exponents of the two units, `Dimension`.
pub record DimensionVector : Type 0 where
  pub tokens_exponent : ℤ
  pub shares_exponent : ℤ

-- The loop over `Dimensions`.
unfoldable pub is_equal : DimensionVector → DimensionVector → Bool
is_equal a b = eq_ℤ a.tokens_exponent b.tokens_exponent && eq_ℤ a.shares_exponent b.shares_exponent

-- The classes; an `UnverifiedQuantity` is built by a copy of its class that remembers the dimension.
pub data QuantityConstructor : Type 0 where
  scalar percent tokens shares price : QuantityConstructor
  unverified : DimensionVector → QuantityConstructor

abbrev pub scalar_unit_dimension : DimensionVector
scalar_unit_dimension = record { tokens_exponent = pos 0; shares_exponent = pos 0 }

abbrev pub tokens_unit_dimension : DimensionVector
tokens_unit_dimension = record { tokens_exponent = pos 1; shares_exponent = pos 0 }

abbrev pub shares_unit_dimension : DimensionVector
shares_unit_dimension = record { tokens_exponent = pos 0; shares_exponent = pos 1 }

abbrev pub price_unit_dimension : DimensionVector
price_unit_dimension = record { tokens_exponent = pos 1; shares_exponent = negsuc 0 }

-- The dimension that each class passes to `super`.
abbrev pub class_dimension : QuantityConstructor → DimensionVector
class_dimension scalar = scalar_unit_dimension
class_dimension percent = scalar_unit_dimension
class_dimension tokens = tokens_unit_dimension
class_dimension shares = shares_unit_dimension
class_dimension price = price_unit_dimension
class_dimension (unverified d) = d

-- A thrown error, by the place that throws it; `not_a_function` is the TypeError of calling `expect`
-- on a class that has no such method.
pub data QuantityError : Type 0 where
  plus_failed minus_failed lt_failed lte_failed gt_failed gte_failed : QuantityError
  min_failed max_failed divide_by_zero expect_failed expected_equal : QuantityError
  not_a_function : QuantityError

-- A `Quantity`: its `dimension` is the one that its class passes to the base constructor.
pub record Quantity (N : Type 0) : Type 0 where
  pub derived_constructor : QuantityConstructor
  pub magnitude : N

abbrev pub new_quantity : {N : Type 0} → QuantityConstructor → N → Quantity N
new_quantity c m = record { derived_constructor = c; magnitude = m }

abbrev pub dimension : {N : Type 0} → Quantity N → DimensionVector
dimension q = class_dimension q.derived_constructor

abbrev pub add_dimensions : DimensionVector → DimensionVector → DimensionVector
add_dimensions a b = record {
  tokens_exponent = a.tokens_exponent +ℤ b.tokens_exponent;
  shares_exponent = a.shares_exponent +ℤ b.shares_exponent;
}

abbrev pub subtract_dimensions : DimensionVector → DimensionVector → DimensionVector
subtract_dimensions a b = record {
  tokens_exponent = a.tokens_exponent -ℤ b.tokens_exponent;
  shares_exponent = a.shares_exponent -ℤ b.shares_exponent;
}

-- `this instanceof Percent`, `this instanceof Scalar`
abbrev pub is_percent : QuantityConstructor → Bool
is_percent percent = true
is_percent _ = false

abbrev pub is_scalar : QuantityConstructor → Bool
is_scalar scalar = true
is_scalar _ = false

-- The ladder of tests that `multipliedBy` and `dividedBy` share; `combined` is their last line.
abbrev pub result_class :
    QuantityConstructor → QuantityConstructor → DimensionVector → QuantityConstructor
result_class this other combined =
    if is_percent this && is_scalar other
    then this
    else (if is_percent other && is_scalar this
        then other
        else (if is_percent this || is_scalar this
            then other
            else (if is_percent other || is_scalar other then this else unverified combined)))

module _ (bn : BigNumber) where
  open bn use {Num}

  unfoldable pub multiplied_by : Quantity Num → Quantity Num → Quantity Num
  multiplied_by this other =
      new_quantity
        (result_class this.derived_constructor other.derived_constructor
          (add_dimensions (dimension this) (dimension other)))
        (bn.multiplied_by this.magnitude other.magnitude)

  unfoldable pub divided_by : Quantity Num → Quantity Num → Result QuantityError (Quantity Num)
  divided_by this other =
      if is_zero bn other.magnitude
      then err divide_by_zero
      else ok (
          new_quantity
            (result_class this.derived_constructor other.derived_constructor
              (subtract_dimensions (dimension this) (dimension other)))
            (bn.divided_by this.magnitude other.magnitude))

  unfoldable pub plus : Quantity Num → Quantity Num → Result QuantityError (Quantity Num)
  plus this other = do
    guard (is_equal (dimension this) (dimension other)) plus_failed
    ok (new_quantity this.derived_constructor (bn.plus this.magnitude other.magnitude))

  unfoldable pub minus : Quantity Num → Quantity Num → Result QuantityError (Quantity Num)
  minus this other = do
    guard (is_equal (dimension this) (dimension other)) minus_failed
    ok (new_quantity this.derived_constructor (bn.minus this.magnitude other.magnitude))

  unfoldable pub quantity_is_zero : Quantity Num → Bool
  quantity_is_zero this = is_zero bn this.magnitude

  unfoldable pub lt : Quantity Num → Quantity Num → Result QuantityError Bool
  lt this other = do
    guard (is_equal (dimension this) (dimension other)) lt_failed
    ok (bn.lt this.magnitude other.magnitude)

  unfoldable pub quantity_lte : Quantity Num → Quantity Num → Result QuantityError Bool
  quantity_lte this other = do
    guard (is_equal (dimension this) (dimension other)) lte_failed
    ok (lte bn this.magnitude other.magnitude)

  unfoldable pub quantity_gt : Quantity Num → Quantity Num → Result QuantityError Bool
  quantity_gt this other = do
    guard (is_equal (dimension this) (dimension other)) gt_failed
    ok (gt bn this.magnitude other.magnitude)

  unfoldable pub quantity_gte : Quantity Num → Quantity Num → Result QuantityError Bool
  quantity_gte this other = do
    guard (is_equal (dimension this) (dimension other)) gte_failed
    ok (gte bn this.magnitude other.magnitude)

  unfoldable pub abs : Quantity Num → Quantity Num
  abs this = new_quantity this.derived_constructor (bn.abs this.magnitude)

  unfoldable pub negated : Quantity Num → Quantity Num
  negated this = new_quantity this.derived_constructor (bn.negated this.magnitude)

  unfoldable pub min : Quantity Num → Quantity Num → Result QuantityError (Quantity Num)
  min this other = do
    guard (is_equal (dimension this) (dimension other)) min_failed
    ok (new_quantity this.derived_constructor (bn.min this.magnitude other.magnitude))

  unfoldable pub max : Quantity Num → Quantity Num → Result QuantityError (Quantity Num)
  max this other = do
    guard (is_equal (dimension this) (dimension other)) max_failed
    ok (new_quantity this.derived_constructor (bn.max this.magnitude other.magnitude))

-- `expect` is a method of `UnverifiedQuantity` alone. No class declares `isValidMagnitude`.
unfoldable pub expect :
    {N : Type 0} → QuantityConstructor → Quantity N → Result QuantityError (Quantity N)
expect vq q = elim q.derived_constructor [
  | unverified d ↦
      (if is_equal (class_dimension vq) d
        then ok (new_quantity vq q.magnitude)
        else err expect_failed)
  | _ ↦ err not_a_function
]

pub assert_equal_dimensions :
    {N : Type 0} → Quantity N → Quantity N → Result QuantityError (Unit {0})
assert_equal_dimensions a b = guard (is_equal (dimension a) (dimension b)) expected_equal

module _ (bn : BigNumber) where
  open bn use {Num}

  -- The two quantities of `safePercent` once neither is undefined or null.
  pub percent_of : Quantity Num → Quantity Num → Bool → Result QuantityError (Quantity Num)
  unfolding divided_by assert_equal_dimensions quantity_is_zero
  percent_of numerator denominator subtract_one =
      if quantity_is_zero bn denominator
      then (do assert_equal_dimensions numerator denominator; ok (new_quantity percent bn.zero_bn))
      else (do
        quotient ← divided_by bn numerator denominator
        value ← expect percent quotient
        if subtract_one then minus bn value (new_quantity percent bn.one_bn) else ok value)

  pub safe_percent :
      Option (Quantity Num) → Option (Quantity Num) → Bool → Result QuantityError (Quantity Num)
  unfolding percent_of
  safe_percent none denominator subtract_one = ok (new_quantity percent bn.zero_bn)
  safe_percent (some numerator) none subtract_one = ok (new_quantity percent bn.zero_bn)
  safe_percent (some numerator) (some denominator) subtract_one =
      percent_of numerator denominator subtract_one
