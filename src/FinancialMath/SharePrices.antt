-- ===== src/FinancialMath/SharePrices.antt =====
-- The price of a share of a known side (src/utils/financial-math.ts).
use augur_node.Prelude.{◌≡◌, refl, ok}
use augur_node.BigNumber.{BigNumber}
use augur_node.Quantity.{Quantity, QuantityError, new_quantity, price}
use augur_node.Quantity as Q
use augur_node.FinancialMath.{
  get_share_price, get_trade_price_minus_min_price, long, short, of_trade_price,
}

module _ (bn : BigNumber) where
  open bn use {Num, minus}

  pub share_price_of_long :
      (lo hi p : Num)
      → get_share_price bn
          (new_quantity price lo)
          (new_quantity price hi)
          long
          (of_trade_price (new_quantity price p))
        ≡ ok (new_quantity price (minus p lo))
  unfolding get_share_price get_trade_price_minus_min_price Q.minus Q.is_equal
  share_price_of_long lo hi p = refl

  pub share_price_of_short :
      (lo hi p : Num)
      → get_share_price bn
          (new_quantity price lo)
          (new_quantity price hi)
          short
          (of_trade_price (new_quantity price p))
        ≡ ok (new_quantity price (minus hi p))
  unfolding get_share_price Q.minus Q.is_equal
  share_price_of_short lo hi p = refl
