-- ===== src/FinancialMath/Tests.antt =====
-- The theorems on financial formulas at concrete numbers.
use augur_node.Prelude.{◌≡◌, refl, ok}
use augur_node.Prelude.Int.{ℤ, pos, negsuc, ◌+ℤ◌, ◌*ℤ◌}
use augur_node.BigNumber.{integers}
use augur_node.Quantity.{new_quantity, shares, price, tokens}
use augur_node.FinancialMath.{
  get_unrealized_cost, get_trade_realized_cost_delta, get_next_average_trade_price,
  get_next_net_position, get_trade_quantity_opened, get_trade_quantity_closed, get_trade_cost,
  get_trade_position_delta, buy, sell, get_display_range, get_share_price_for_position,
}
use augur_node.FinancialMath.Positions.{trade_quantities}
use augur_node.FinancialMath.CostBasis.{cost_basis_kept, trade_costs_of_both_sides}

-- Short by seven after selling twelve out of a long position of five.
trade_quantities_example :
    (o c n : ℤ) × (get_trade_quantity_opened integers
        (new_quantity shares (pos 5))
        (new_quantity shares (negsuc 11))
      ≡ ok (new_quantity shares o))
    × (get_trade_quantity_closed integers
          (new_quantity shares (pos 5))
          (new_quantity shares (negsuc 11))
        ≡ ok (new_quantity shares c))
    × (get_next_net_position integers
          (new_quantity shares (pos 5))
          (new_quantity shares (negsuc 11))
        ≡ ok (new_quantity shares n))
    × (o +ℤ c ≡ integers.abs (negsuc 11))
    × (integers.abs n +ℤ c ≡ integers.abs (pos 5) +ℤ o)
trade_quantities_example = trade_quantities integers (pos 5) (negsuc 11)

-- Ten shares at 3 and five more at 6, in a market from 2 to 20: fifteen shares at 4.
cost_basis_kept_example :
    (next next_price before after realized opened paid : ℤ) × (get_next_net_position integers
        (new_quantity shares (pos 10))
        (new_quantity shares (pos 5))
      ≡ ok (new_quantity shares next))
    × (get_next_average_trade_price integers
          (new_quantity shares (pos 10))
          (new_quantity price (pos 3))
          (new_quantity shares (pos 5))
          (new_quantity price (pos 6))
        ≡ ok (new_quantity price next_price))
    × (get_unrealized_cost integers
          (new_quantity price (pos 2))
          (new_quantity price (pos 20))
          (new_quantity shares (pos 10))
          (new_quantity price (pos 3))
        ≡ ok (new_quantity tokens before))
    × (get_unrealized_cost integers
          (new_quantity price (pos 2))
          (new_quantity price (pos 20))
          (new_quantity shares next)
          (new_quantity price next_price)
        ≡ ok (new_quantity tokens after))
    × (get_trade_realized_cost_delta integers
          (new_quantity price (pos 2))
          (new_quantity price (pos 20))
          (new_quantity shares (pos 10))
          (new_quantity shares (pos 5))
          (new_quantity price (pos 3))
        ≡ ok (new_quantity tokens realized))
    × (get_trade_quantity_opened integers
          (new_quantity shares (pos 10))
          (new_quantity shares (pos 5))
        ≡ ok (new_quantity shares opened))
    × (get_share_price_for_position integers
          (new_quantity price (pos 2))
          (new_quantity price (pos 20))
          (new_quantity shares (pos 5))
          (new_quantity price (pos 6))
        ≡ ok (new_quantity price paid))
    × (after +ℤ realized ≡ before +ℤ paid *ℤ opened)
unfolding ◌*ℤ◌ ◌+ℤ◌
cost_basis_kept_example =
    cost_basis_kept integers (pos 2) (pos 20) (pos 10) (pos 3) (pos 5) (pos 6) (pos 4)
      (λ nz s. (refl, refl))

trade_costs_of_both_sides_example :
    (bought sold range : ℤ) × (get_trade_cost integers
        (new_quantity price (pos 2))
        (new_quantity price (pos 20))
        (new_quantity price (pos 7))
        (get_trade_position_delta integers buy (new_quantity shares (pos 3)))
      ≡ ok (new_quantity tokens bought))
    × (get_trade_cost integers
          (new_quantity price (pos 2))
          (new_quantity price (pos 20))
          (new_quantity price (pos 7))
          (get_trade_position_delta integers sell (new_quantity shares (pos 3)))
        ≡ ok (new_quantity tokens sold))
    × (get_display_range integers (new_quantity price (pos 2)) (new_quantity price (pos 20))
        ≡ ok (new_quantity price range))
    × (bought +ℤ sold ≡ range *ℤ pos 3)
trade_costs_of_both_sides_example =
    trade_costs_of_both_sides integers (pos 2) (pos 20) (pos 7) (pos 3) refl
