-- ===== src/Quantity/Percents.antt =====
-- `safePercent` against its description (src/utils/dimension-quantity.ts).
use augur_node.Prelude.{
  ◌≡◌, refl, sym, Bool, true, false, some, ok, err, if◌then◌else◌, Bool-cases, inl, inr, ap, none,
  ◌≢◌,
}
use augur_node.Prelude.Int.{ℤ, pos, ◌-ℤ◌, int_laws, pos_part, neg_part}
use augur_node.BigNumber.{BigNumber, is_zero}
use augur_node.Quantity.{
  QuantityConstructor, scalar, percent, tokens, shares, price, unverified, Quantity, QuantityError,
  DimensionVector, dimension, class_dimension, subtract_dimensions, expect_failed, expected_equal,
  not_a_function, is_equal, new_quantity, expect, safe_percent, percent_of, result_class, minus,
}
use augur_node.Quantity.Dimensions.{is_unitless, dimension_ext}
use augur_node.Quantity.RoundTrips.{is_equal_iff, is_equal_of_ne, expect_of_eq}

-- What a comment of the source promises of a percent: zero for a zero denominator, and otherwise the
-- quotient, less one if that is asked for.
abbrev pub percent_spec :
    (bn : BigNumber) → Quantity bn.Num → Quantity bn.Num → Bool → Quantity bn.Num
percent_spec bn n d subtract_one = new_quantity percent (
    if is_zero bn d.magnitude
    then bn.zero_bn
    else (let ratio = bn.divided_by n.magnitude d.magnitude in
        if subtract_one then bn.minus ratio bn.one_bn else ratio))

-ℤ_self : (a : ℤ) → a -ℤ a ≡ pos 0
-ℤ_self a = omega int_laws

eq_of_-ℤ : (a b : ℤ) → a -ℤ b ≡ pos 0 → a ≡ b
eq_of_-ℤ a b h = omega (int_laws, ap pos_part h, ap neg_part h)

subtract_of_eq : (d e : DimensionVector) → d ≡ e → subtract_dimensions d e ≡ class_dimension percent
subtract_of_eq d e h = rw h (dimension_ext _ _ (-ℤ_self _) (-ℤ_self _))

eq_of_subtract : (d e : DimensionVector) → subtract_dimensions d e ≡ class_dimension percent → d ≡ e
eq_of_subtract d e h =
    dimension_ext d e (eq_of_-ℤ _ _ (ap (λ (t : DimensionVector). t.tokens_exponent) h))
      (eq_of_-ℤ _ _ (ap (λ (t : DimensionVector). t.shares_exponent) h))

expect_of_ne :
    {N : Type 0} (d : DimensionVector) (m : N)
    → class_dimension percent ≢ d
    → (e : QuantityError) × (expect percent (new_quantity (unverified d) m) ≡ err e)
unfolding expect
expect_of_ne d m h = (expect_failed, rw (is_equal_of_ne _ _ h))

-- The quotient of two quantities of one dimension is a percent.
expect_quotient :
    {N : Type 0} (c d : QuantityConstructor) (m : N)
    → is_unitless c ≡ false
    → class_dimension c ≡ class_dimension d
    → expect percent (
        new_quantity
          (result_class c d (subtract_dimensions (class_dimension c) (class_dimension d)))
          m)
      ≡ ok (new_quantity percent m)
unfolding expect
expect_quotient scalar scalar m u h = cc
expect_quotient scalar d m u h = cc
expect_quotient percent scalar m u h = cc
expect_quotient percent d m u h = cc
expect_quotient tokens scalar m u h = cc (ap (λ (t : DimensionVector). t.tokens_exponent) h)
expect_quotient tokens percent m u h = cc (ap (λ (t : DimensionVector). t.tokens_exponent) h)
expect_quotient tokens d m u h = expect_of_eq percent _ m (sym (subtract_of_eq _ _ h))
expect_quotient shares scalar m u h = cc (ap (λ (t : DimensionVector). t.shares_exponent) h)
expect_quotient shares percent m u h = cc (ap (λ (t : DimensionVector). t.shares_exponent) h)
expect_quotient shares d m u h = expect_of_eq percent _ m (sym (subtract_of_eq _ _ h))
expect_quotient price scalar m u h = cc (ap (λ (t : DimensionVector). t.tokens_exponent) h)
expect_quotient price percent m u h = cc (ap (λ (t : DimensionVector). t.tokens_exponent) h)
expect_quotient price d m u h = expect_of_eq percent _ m (sym (subtract_of_eq _ _ h))
expect_quotient (unverified e) scalar m u h = expect_of_eq percent e m (sym h)
expect_quotient (unverified e) percent m u h = expect_of_eq percent e m (sym h)
expect_quotient (unverified e) d m u h = expect_of_eq percent _ m (sym (subtract_of_eq _ _ h))

-- That of two quantities of different dimensions is not.
expect_fails :
    {N : Type 0} (c d : QuantityConstructor) (m : N)
    → is_unitless c ≡ false
    → class_dimension c ≢ class_dimension d
    → (e : QuantityError) × (expect percent (
          new_quantity
            (result_class c d (subtract_dimensions (class_dimension c) (class_dimension d)))
            m)
        ≡ err e)
unfolding expect
expect_fails scalar scalar m u h = cc
expect_fails scalar d m u h = cc
expect_fails percent scalar m u h = cc
expect_fails percent d m u h = cc
expect_fails tokens scalar m u h = (not_a_function, refl)
expect_fails tokens percent m u h = (not_a_function, refl)
expect_fails tokens d m u h = expect_of_ne _ m (λ e. h (eq_of_subtract _ _ (sym e)))
expect_fails shares scalar m u h = (not_a_function, refl)
expect_fails shares percent m u h = (not_a_function, refl)
expect_fails shares d m u h = expect_of_ne _ m (λ e. h (eq_of_subtract _ _ (sym e)))
expect_fails price scalar m u h = (not_a_function, refl)
expect_fails price percent m u h = (not_a_function, refl)
expect_fails price d m u h = expect_of_ne _ m (λ e. h (eq_of_subtract _ _ (sym e)))
expect_fails (unverified e) scalar m u h = expect_of_ne e m (λ p. h (sym p))
expect_fails (unverified e) percent m u h = expect_of_ne e m (λ p. h (sym p))
expect_fails (unverified e) d m u h = expect_of_ne _ m (λ p. h (eq_of_subtract _ _ (sym p)))

module _ (bn : BigNumber) where
  open bn use {Num}

  minus_one :
      (m : Num) (s : Bool)
      → (if s
          then minus bn (new_quantity percent m) (new_quantity percent bn.one_bn)
          else ok (new_quantity percent m))
        ≡ ok (new_quantity percent (if s then bn.minus m bn.one_bn else m))
  unfolding minus is_equal
  minus_one m true = refl
  minus_one m false = refl

  percent_of_same :
      (n d : Quantity Num) (s : Bool)
      → is_unitless n.derived_constructor ≡ false
      → dimension n ≡ dimension d
      → percent_of bn n d s ≡ ok (percent_spec bn n d s)
  unfolding percent_of
  percent_of_same n d s u h = elim (Bool-cases (is_zero bn d.magnitude)) [
    | inl z ↦ rw z (rw ((is_equal_iff _ _).1 h))
    | inr z ↦ rw z (rw (expect_quotient _ _ _ u h) (minus_one _ s))
  ]

  percent_of_throws :
      (n d : Quantity Num) (s : Bool)
      → is_unitless n.derived_constructor ≡ false
      → dimension n ≢ dimension d
      → (e : QuantityError) × (percent_of bn n d s ≡ err e)
  unfolding percent_of
  percent_of_throws n d s u h = elim (Bool-cases (is_zero bn d.magnitude)) [
    | inl z ↦ (expected_equal, rw z (rw (is_equal_of_ne _ _ h)))
    | inr z ↦
        (let x = bn.divided_by n.magnitude d.magnitude in
          let failed = expect_fails n.derived_constructor d.derived_constructor x u h in
          (failed.0, rw z (rw failed.1)))
  ]

  -- For two quantities of which the numerator is not a Scalar or a Percent: if their dimensions are
  -- equal, `safePercent` returns zero for a zero denominator and else their quotient, less one if
  -- asked for; if they differ it throws, also where the denominator is zero and nothing is divided.
  -- With either one missing it returns zero.
  pub safe_percent_lem :
      (n d : Quantity Num) (s : Bool)
      → is_unitless n.derived_constructor ≡ false
      → (dimension n ≡ dimension d
          → safe_percent bn (some n) (some d) s ≡ ok (percent_spec bn n d s))
        × (dimension n ≢ dimension d
            → (e : QuantityError) × (safe_percent bn (some n) (some d) s ≡ err e))
        × (safe_percent bn none (some d) s ≡ ok (new_quantity percent bn.zero_bn))
        × (safe_percent bn (some n) none s ≡ ok (new_quantity percent bn.zero_bn))
  unfolding safe_percent
  safe_percent_lem n d s u = (percent_of_same n d s u, percent_of_throws n d s u, refl, refl)
