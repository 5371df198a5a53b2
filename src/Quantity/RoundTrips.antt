-- ===== src/Quantity/RoundTrips.antt =====
-- Operations of quantities that undo one another, and when they throw
-- (src/utils/dimension-quantity.ts).
use augur_node.Prelude.{
  ◌≡◌, ◌≢◌, ◌↔◌, refl, sym, ap, ◌∙◌, Bool, true, false, ◌&&◌, ok, err, ◌>>=◌, Bool-cases, inl, inr,
}
use augur_node.Prelude.Int.{eq_ℤ_iff}
use augur_node.BigNumber.{BigNumber, minus-plus, plus-minus, is_zero_of_ne}
use augur_node.Quantity.{
  QuantityConstructor, scalar, percent, tokens, shares, price, unverified, Quantity, dimension,
  DimensionVector, class_dimension, multiplied_by, divided_by, is_equal, plus, minus, plus_failed,
  new_quantity, expect,
}
use augur_node.Quantity.Dimensions.{is_unitless, dimension_ext, subtract-add}

and_true : (a b : Bool) → (a && b) ≡ true → (a ≡ true) × (b ≡ true)
and_true true true h = (refl, refl)
and_true true false h = cc
and_true false b h = cc

pub is_equal_iff : (d e : DimensionVector) → (is_equal d e ≡ true) ↔ (d ≡ e)
unfolding is_equal
is_equal_iff d e = (
  λ h.
      let both = and_true _ _ h in
      dimension_ext d e ((eq_ℤ_iff _ _).0 both.0) ((eq_ℤ_iff _ _).0 both.1),
  λ h.
      rw ((eq_ℤ_iff _ _).1 (ap (λ (t : DimensionVector). t.tokens_exponent) h))
        ((eq_ℤ_iff _ _).1 (ap (λ (t : DimensionVector). t.shares_exponent) h)),
)

pub is_equal_of_ne : (d e : DimensionVector) → d ≢ e → is_equal d e ≡ false
is_equal_of_ne d e h = elim (Bool-cases (is_equal d e)) [
  | inl same ↦ absurd (h ((is_equal_iff d e).0 same))
  | inr differ ↦ differ
]

-- A class that is one of the source's named units.
abbrev pub IsVerified : QuantityConstructor → Type 0
IsVerified (unverified d) = ⊥
IsVerified _ = Unit {0}

pub expect_of_eq :
    {N : Type 0} (vq : QuantityConstructor) (d : DimensionVector) (m : N)
    → class_dimension vq ≡ d
    → expect vq (new_quantity (unverified d) m) ≡ ok (new_quantity vq m)
unfolding expect
expect_of_eq vq d m h = rw ((is_equal_iff _ _).1 h)

module _ (bn : BigNumber) where
  open bn use {Num, zero_bn, fits}

  plus_same :
      (a b : Quantity Num) → dimension a ≡ dimension b → (plus bn a b >>= λ c. minus bn c b) ≡ ok a
  unfolding plus minus
  plus_same a b h = rw ((is_equal_iff _ _).1 h) (
      rw ((is_equal_iff _ _).1 h) (
        ap (λ t. ok (new_quantity a.derived_constructor t))
          (minus-plus bn a.magnitude b.magnitude)))

  minus_same :
      (a b : Quantity Num) → dimension a ≡ dimension b → (minus bn a b >>= λ c. plus bn c b) ≡ ok a
  unfolding plus minus
  minus_same a b h = rw ((is_equal_iff _ _).1 h) (
      rw ((is_equal_iff _ _).1 h) (
        ap (λ t. ok (new_quantity a.derived_constructor t))
          (plus-minus bn a.magnitude b.magnitude)))

  plus_throws : (a b : Quantity Num) → (plus bn a b ≡ err plus_failed) ↔ (dimension a ≢ dimension b)
  unfolding plus
  plus_throws a b =
      (λ e same. cc (rw ((is_equal_iff _ _).1 same) at e), λ differ. rw (is_equal_of_ne _ _ differ))

  -- `plus` throws exactly when the dimensions differ. When it does not, `minus` of the same summand
  -- returns the first quantity again, and so does `plus` after `minus`.
  pub minus-plus_quantity :
      (a b : Quantity Num)
      → ((plus bn a b ≡ err plus_failed) ↔ (dimension a ≢ dimension b))
        × (dimension a ≡ dimension b → (plus bn a b >>= λ c. minus bn c b) ≡ ok a)
        × (dimension a ≡ dimension b → (minus bn a b >>= λ c. plus bn c b) ≡ ok a)
  minus-plus_quantity a b = (plus_throws a b, plus_same a b, minus_same a b)

  round_trip :
      (c d : QuantityConstructor) (m n : Num)
      → is_unitless c ≡ false
      → is_unitless d ≡ false
      → IsVerified c
      → n ≢ zero_bn
      → fits m ≡ true
      → (divided_by bn (multiplied_by bn (new_quantity c m) (new_quantity d n)) (new_quantity d n)
          >>= expect c)
        ≡ ok (new_quantity c m)
  unfolding multiplied_by divided_by
  round_trip scalar scalar m n ua ub va nz fa = cc
  round_trip scalar d m n ua ub va nz fa = cc
  round_trip percent scalar m n ua ub va nz fa = cc
  round_trip percent d m n ua ub va nz fa = cc
  round_trip tokens scalar m n ua ub va nz fa = cc
  round_trip tokens percent m n ua ub va nz fa = cc
  round_trip tokens d m n ua ub va nz fa = rw (is_zero_of_ne bn n nz) (
      expect_of_eq tokens _ _ (sym (subtract-add _ _))
      ∙ ap (λ t. ok (new_quantity tokens t)) (bn.divide-times m n fa nz))
  round_trip shares scalar m n ua ub va nz fa = cc
  round_trip shares percent m n ua ub va nz fa = cc
  round_trip shares d m n ua ub va nz fa = rw (is_zero_of_ne bn n nz) (
      expect_of_eq shares _ _ (sym (subtract-add _ _))
      ∙ ap (λ t. ok (new_quantity shares t)) (bn.divide-times m n fa nz))
  round_trip price scalar m n ua ub va nz fa = cc
  round_trip price percent m n ua ub va nz fa = cc
  round_trip price d m n ua ub va nz fa = rw (is_zero_of_ne bn n nz) (
      expect_of_eq price _ _ (sym (subtract-add _ _))
      ∙ ap (λ t. ok (new_quantity price t)) (bn.divide-times m n fa nz))
  round_trip (unverified e) d m n ua ub va nz fa = absurd va

  -- A product of two quantities with units, divided by its second factor and expected to be of the
  -- class of the first, is the first factor: no check on the way throws. Needs a divisor other than
  -- zero and a first magnitude that a division can represent.
  pub expect-divided_by-multiplied_by :
      (a b : Quantity Num)
      → is_unitless a.derived_constructor ≡ false
      → is_unitless b.derived_constructor ≡ false
      → IsVerified a.derived_constructor
      → b.magnitude ≢ zero_bn
      → fits a.magnitude ≡ true
      → (divided_by bn (multiplied_by bn a b) b >>= expect a.derived_constructor) ≡ ok a
  expect-divided_by-multiplied_by a b ua ub va nz fa = round_trip _ _ _ _ ua ub va nz fa
