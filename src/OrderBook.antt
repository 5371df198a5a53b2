-- ===== src/OrderBook.antt =====
-- The simulated order book (src/utils/simulated-order-book.ts): taking the best orders of one side.
-- The source changes the quantities of the orders that it takes in place; the book that is returned
-- is what its owner keeps.
pub mod Taking
mod Tests
use augur_node.Prelude.{
  Bool, true, false, not, List, [], ◌∷◌, if◌then◌else◌, Result, ok, err, ◌>>=◌,
}
use augur_node.BigNumber.{BigNumber}
use augur_node.Quantity.{
  Quantity, QuantityError, new_quantity, shares, tokens, percent, plus, minus, multiplied_by,
  divided_by, quantity_gt,
}
use augur_node.FinancialMath.{PositionType, long, short, get_share_price, of_trade_price}

pub record QuantityAtPrice (N : Type 0) : Type 0 where
  pub trade_price : Quantity N
  pub quantity : Quantity N

pub record BidsAndAsks (N : Type 0) : Type 0 where
  pub bids : List (QuantityAtPrice N)
  pub asks : List (QuantityAtPrice N)

pub record Taken (N : Type 0) : Type 0 where
  pub new_bids_or_asks : List (QuantityAtPrice N)
  pub proceeds : Quantity N

pub data TakeType : Type 0 where
  take_long take_short : TakeType

abbrev pub position_of : TakeType → PositionType
position_of take_long = long
position_of take_short = short

module _ (bn : BigNumber) where
  open bn use {Num, zero_bn}

  abbrev pub Q : Type 0
  Q = Quantity Num

  -- What is left of an order that is not used up; a dry run changes nothing.
  abbrev pub quantity_left : Bool → Q → Q → Result QuantityError Q
  quantity_left true quantity taken = ok quantity
  quantity_left false quantity taken = minus bn quantity taken

  -- The loop, from the orders, the shares and the proceeds that it has reached.
  unfoldable pub take_from :
      Q
      → Q
      → TakeType
      → Bool
      → List (QuantityAtPrice Num)
      → Q
      → Q
      → Result QuantityError (Taken Num)
  take_from min_price max_price take_type dry_run [] remaining proceeds = do
    more ← quantity_gt bn remaining (new_quantity shares zero_bn)
    ok (record { new_bids_or_asks = []; proceeds = proceeds })
  take_from min_price max_price take_type dry_run (best ∷ rest) remaining proceeds = do
    more ← quantity_gt bn remaining (new_quantity shares zero_bn)
    (if not more then ok (record { new_bids_or_asks = best ∷ rest; proceeds = proceeds }) else (do
      share_price ←
          get_share_price bn min_price max_price (position_of take_type)
            (of_trade_price best.trade_price)
      larger ← quantity_gt bn best.quantity remaining
      (if larger
          then (do
            next ← plus bn proceeds (multiplied_by bn remaining share_price)
            left ← quantity_left dry_run best.quantity remaining
            ok (record {
              new_bids_or_asks = record best { quantity = left } ∷ rest;
              proceeds = next;
            }))
          else (do
            next ← plus bn proceeds (multiplied_by bn best.quantity share_price)
            fewer ← minus bn remaining best.quantity
            take_from min_price max_price take_type dry_run rest fewer next))))

  pub take_best :
      Q → Q → List (QuantityAtPrice Num) → Q → TakeType → Bool → Result QuantityError (Taken Num)
  take_best min_price max_price bids_or_asks amount_to_take take_type dry_run =
      take_from min_price max_price take_type dry_run bids_or_asks amount_to_take
        (new_quantity tokens zero_bn)

  -- The closures of `makeOrderBook` on its two variables, with the book that they leave.
  abbrev pub set_bids : Bool → BidsAndAsks Num → Taken Num → BidsAndAsks Num
  set_bids true book taken = book
  set_bids false book taken = record book { bids = taken.new_bids_or_asks }

  abbrev pub set_asks : Bool → BidsAndAsks Num → Taken Num → BidsAndAsks Num
  set_asks true book taken = book
  set_asks false book taken = record book { asks = taken.new_bids_or_asks }

  pub close_long_fill_only :
      Q → Q → BidsAndAsks Num → Q → Bool → Result QuantityError (Q × BidsAndAsks Num)
  close_long_fill_only min_price max_price book quantity_to_sell dry_run = do
    taken ← take_best min_price max_price book.bids quantity_to_sell take_long dry_run
    ok (taken.proceeds, set_bids dry_run book taken)

  pub close_short_fill_only :
      Q → Q → BidsAndAsks Num → Q → Bool → Result QuantityError (Q × BidsAndAsks Num)
  close_short_fill_only min_price max_price book quantity_to_sell dry_run = do
    taken ← take_best min_price max_price book.asks quantity_to_sell take_short dry_run
    ok (taken.proceeds, set_asks dry_run book taken)

  pub close_long_fill_only_with_fee_adjustment :
      Q → Q → BidsAndAsks Num → Q → Q → Bool → Result QuantityError (Q × BidsAndAsks Num)
  close_long_fill_only_with_fee_adjustment min_price max_price book quantity_to_sell fee_rate
        dry_run =
      do
        closed ← close_long_fill_only min_price max_price book quantity_to_sell dry_run
        rate ← minus bn (new_quantity percent bn.one_bn) fee_rate
        adjusted ← divided_by bn (closed.0) rate
        ok (adjusted, closed.1)

  pub close_short_fill_only_with_fee_adjustment :
      Q → Q → BidsAndAsks Num → Q → Q → Bool → Result QuantityError (Q × BidsAndAsks Num)
  close_short_fill_only_with_fee_adjustment min_price max_price book quantity_to_sell fee_rate
        dry_run =
      do
        closed ← close_short_fill_only min_price max_price book quantity_to_sell dry_run
        rate ← plus bn (new_quantity percent bn.one_bn) fee_rate
        adjusted ← divided_by bn (closed.0) rate
        ok (adjusted, closed.1)
