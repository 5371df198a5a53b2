-- ===== src/Quantity/Tests.antt =====
-- The theorems on quantities at concrete numbers, and the quotient of a Scalar by Tokens.
use augur_node.Prelude.{◌≡◌, ◌≢◌, ◌↔◌, refl, true, some, none, ok, err, ◌>>=◌, if◌then◌else◌}
use augur_node.Prelude.Int.{ℤ, pos, div_ℤ}
use augur_node.BigNumber.{integers, is_zero}
use augur_node.Quantity.{
  Quantity, QuantityError, new_quantity, scalar, percent, shares, price, tokens, dimension,
  add_dimensions, subtract_dimensions, multiplied_by, divided_by, plus, minus, expect, safe_percent,
  divide_by_zero, plus_failed,
}
use augur_node.Quantity.Dimensions.{is_unitless, dimension-multiplied_by, dimension-divided_by}
use augur_node.Quantity.RoundTrips.{minus-plus_quantity, expect-divided_by-multiplied_by}
use augur_node.Quantity.Percents.{percent_spec, safe_percent_lem}

abbrev three_tokens : Quantity ℤ
three_tokens = new_quantity tokens (pos 3)

abbrev four_shares : Quantity ℤ
four_shares = new_quantity shares (pos 4)

-- One divided by three tokens is called a number of tokens.
scalar_by_tokens :
    divided_by integers (new_quantity scalar (pos 6)) three_tokens
    ≡ ok (new_quantity tokens (pos 2))
unfolding divided_by div_ℤ
scalar_by_tokens = refl

dimension-multiplied_by_example :
    dimension (multiplied_by integers three_tokens four_shares)
    ≡ add_dimensions (dimension three_tokens) (dimension four_shares)
dimension-multiplied_by_example = dimension-multiplied_by integers three_tokens four_shares

dimension-divided_by_example :
    ((divided_by integers three_tokens four_shares ≡ err divide_by_zero)
      ↔ (is_zero integers four_shares.magnitude ≡ true))
    × ((q : Quantity ℤ)
        → divided_by integers three_tokens four_shares ≡ ok q
        → dimension q ≡ (
            if is_unitless three_tokens.derived_constructor
            then dimension four_shares
            else subtract_dimensions (dimension three_tokens) (dimension four_shares)))
dimension-divided_by_example = dimension-divided_by integers three_tokens four_shares

minus-plus_quantity_example :
    ((plus integers three_tokens three_tokens ≡ err plus_failed)
      ↔ (dimension three_tokens ≢ dimension three_tokens))
    × (dimension three_tokens ≡ dimension three_tokens
        → (plus integers three_tokens three_tokens >>= λ c. minus integers c three_tokens)
          ≡ ok three_tokens)
    × (dimension three_tokens ≡ dimension three_tokens
        → (minus integers three_tokens three_tokens >>= λ c. plus integers c three_tokens)
          ≡ ok three_tokens)
minus-plus_quantity_example = minus-plus_quantity integers three_tokens three_tokens

expect-divided_by-multiplied_by_example :
    (divided_by integers
        (multiplied_by integers (new_quantity price (pos 7)) four_shares)
        four_shares
      >>= expect price)
    ≡ ok (new_quantity price (pos 7))
expect-divided_by-multiplied_by_example =
    expect-divided_by-multiplied_by integers (new_quantity price (pos 7)) four_shares refl refl tt
      (λ e. cc) refl

safe_percent_lem_example :
    (dimension three_tokens ≡ dimension three_tokens
      → safe_percent integers (some three_tokens) (some three_tokens) true
        ≡ ok (percent_spec integers three_tokens three_tokens true))
    × (dimension three_tokens ≢ dimension three_tokens
        → (e : QuantityError) × (safe_percent integers (some three_tokens) (some three_tokens) true
            ≡ err e))
    × (safe_percent integers none (some three_tokens) true ≡ ok (new_quantity percent (pos 0)))
    × (safe_percent integers (some three_tokens) none true ≡ ok (new_quantity percent (pos 0)))
safe_percent_lem_example = safe_percent_lem integers three_tokens three_tokens true refl
