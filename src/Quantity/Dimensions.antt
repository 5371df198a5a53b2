-- ===== src/Quantity/Dimensions.antt =====
-- Products and quotients of quantities against dimensional analysis
-- (src/utils/dimension-quantity.ts, `multipliedBy` and `dividedBy`).
use augur_node.Prelude.{
  ◌≡◌, ◌↔◌, refl, sym, Bool, true, ◌||◌, ok, err, if◌then◌else◌, Bool-cases, inl, inr, subst,
  ok_injective,
}
use augur_node.Prelude.Int.{ℤ, pos, ◌+ℤ◌, ◌-ℤ◌, int_laws}
use augur_node.BigNumber.{BigNumber, is_zero}
use augur_node.Quantity.{
  QuantityConstructor, scalar, percent, tokens, shares, price, unverified, Quantity, divide_by_zero,
  dimension, DimensionVector, class_dimension, add_dimensions, subtract_dimensions, result_class,
  multiplied_by, divided_by, is_percent, is_scalar,
}

-- The classes `Scalar` and `Percent`, which have no unit.
abbrev pub is_unitless : QuantityConstructor → Bool
is_unitless c = is_percent c || is_scalar c

pub dimension_ext :
    (d e : DimensionVector)
    → d.tokens_exponent ≡ e.tokens_exponent
    → d.shares_exponent ≡ e.shares_exponent
    → d ≡ e
dimension_ext d e p q = λ i. record { tokens_exponent = p i; shares_exponent = q i }

zero-+ℤ : (a : ℤ) → pos 0 +ℤ a ≡ a
zero-+ℤ a = omega int_laws

+ℤ-zero : (a : ℤ) → a +ℤ pos 0 ≡ a
+ℤ-zero a = omega int_laws

-ℤ-zero : (a : ℤ) → a -ℤ pos 0 ≡ a
-ℤ-zero a = omega int_laws

+ℤ-ℤ : (a b : ℤ) → a +ℤ b -ℤ b ≡ a
+ℤ-ℤ a b = omega int_laws

-- A quantity without a unit adds nothing, on either side.
add_unitless_left : (d : DimensionVector) → add_dimensions (class_dimension scalar) d ≡ d
add_unitless_left d = dimension_ext _ _ (zero-+ℤ _) (zero-+ℤ _)

add_unitless_right : (d : DimensionVector) → add_dimensions d (class_dimension scalar) ≡ d
add_unitless_right d = dimension_ext _ _ (+ℤ-zero _) (+ℤ-zero _)

subtract_unitless : (d : DimensionVector) → subtract_dimensions d (class_dimension scalar) ≡ d
subtract_unitless d = dimension_ext _ _ (-ℤ-zero _) (-ℤ-zero _)

pub subtract-add : (d e : DimensionVector) → subtract_dimensions (add_dimensions d e) e ≡ d
subtract-add d e = dimension_ext _ _ (+ℤ-ℤ _ _) (+ℤ-ℤ _ _)

product_class :
    (c d : QuantityConstructor)
    → class_dimension (result_class c d (add_dimensions (class_dimension c) (class_dimension d)))
      ≡ add_dimensions (class_dimension c) (class_dimension d)
product_class scalar scalar = sym (add_unitless_left _)
product_class scalar d = sym (add_unitless_left _)
product_class percent scalar = sym (add_unitless_left _)
product_class percent d = sym (add_unitless_left _)
product_class tokens scalar = sym (add_unitless_right _)
product_class tokens percent = sym (add_unitless_right _)
product_class tokens d = refl
product_class shares scalar = sym (add_unitless_right _)
product_class shares percent = sym (add_unitless_right _)
product_class shares d = refl
product_class price scalar = sym (add_unitless_right _)
product_class price percent = sym (add_unitless_right _)
product_class price d = refl
product_class (unverified e) scalar = sym (add_unitless_right _)
product_class (unverified e) percent = sym (add_unitless_right _)
product_class (unverified e) d = refl

quotient_class :
    (c d : QuantityConstructor)
    → class_dimension
        (result_class c d (subtract_dimensions (class_dimension c) (class_dimension d)))
      ≡ (if is_unitless c
          then class_dimension d
          else subtract_dimensions (class_dimension c) (class_dimension d))
quotient_class scalar scalar = refl
quotient_class scalar d = refl
quotient_class percent scalar = refl
quotient_class percent d = refl
quotient_class tokens scalar = sym (subtract_unitless _)
quotient_class tokens percent = sym (subtract_unitless _)
quotient_class tokens d = refl
quotient_class shares scalar = sym (subtract_unitless _)
quotient_class shares percent = sym (subtract_unitless _)
quotient_class shares d = refl
quotient_class price scalar = sym (subtract_unitless _)
quotient_class price percent = sym (subtract_unitless _)
quotient_class price d = refl
quotient_class (unverified e) scalar = sym (subtract_unitless _)
quotient_class (unverified e) percent = sym (subtract_unitless _)
quotient_class (unverified e) d = refl

module _ (bn : BigNumber) where
  open bn use {Num}

  -- The dimension of a product is the sum of the dimensions of its factors, whatever their classes.
  pub dimension-multiplied_by :
      (a b : Quantity Num)
      → dimension (multiplied_by bn a b) ≡ add_dimensions (dimension a) (dimension b)
  unfolding multiplied_by
  dimension-multiplied_by a b = product_class a.derived_constructor b.derived_constructor

  -- A division throws exactly when the divisor is zero. Otherwise its quotient has the difference of
  -- the dimensions, save that a numerator without a unit (a Scalar or a Percent) makes a quotient
  -- with the dimension of the divisor.
  pub dimension-divided_by :
      (a b : Quantity Num)
      → ((divided_by bn a b ≡ err divide_by_zero) ↔ (is_zero bn b.magnitude ≡ true))
        × ((q : Quantity Num)
            → divided_by bn a b ≡ ok q
            → dimension q ≡ (
                if is_unitless a.derived_constructor
                then dimension b
                else subtract_dimensions (dimension a) (dimension b)))
  unfolding divided_by
  dimension-divided_by a b = elim (Bool-cases (is_zero bn b.magnitude)) [
    | inl z ↦ ((λ _. z, λ _. rw z), λ q e. cc (rw z at e))
    | inr z ↦ (
      (λ e. cc (rw z at e), λ e. cc),
      λ q e.
          subst
            (λ t. dimension t ≡ (
              if is_unitless a.derived_constructor
              then dimension b
              else subtract_dimensions (dimension a) (dimension b)))
            (ok_injective (rw z at e)) (quotient_class a.derived_constructor b.derived_constructor),
    )
  ]
