-- ===== src/Trades.antt =====
-- Trades and what they change: volumes, open interest and complete sets
-- (src/blockchain/log-processors/order-filled, completesets.ts, category-aggregations.ts). A market's
-- share volume is zero where the market is new.
pub mod Claims
pub mod Proceeds
pub mod Fills
pub mod CompleteSets
pub mod Volumes
pub mod OpenInterest
pub mod Keeping
mod Tests
use augur_node.Prelude.{
  ℕ, ◌+◌, Bool, true, false, ◌&&◌, not, Option, none, some, List, [], ◌∷◌, ◌==◌, if◌then◌else◌, ok,
}
use augur_node.Prelude.Tables.{first_where, update_where, delete_where, insert_row, count_where}
use augur_node.BigNumber.{BigNumber}
use augur_node.Database.{
  Action, Db, World, MarketRow, MarketStateRow, OutcomeRow, TradeRow, CompleteSetsRow, CategoryRow,
  TokenRow, TokenSymbol, SupplyRow, OrderRow, OrderType, buy, sell, shares, cash, rep, crowdsourcer,
  participation_token, fee_token, finalized, pure, gets, or_throw, modify, emit, ◌>>=◌, ◌>>◌,
  log_event, order_filled, complete_sets_purchased, complete_sets_sold, EventName, market_not_found,
  outcome_not_found, category_not_found, supply_not_found, trade_not_found, token_not_found,
  order_not_found,
}
use augur_node.MarketStates.{is_market, same_state}
use augur_node.Blocks.{named_row, get_current_time, is_in_state}
use augur_node.Orders.{
  OrderNumbers, is_order, market_of, num_ticks_to_tick_size, fixed_point_to_decimal, update_order,
  await_liquidity_update,
}
use augur_node.Tokens.{update_profit_loss_remove_row}
use augur_node.ProfitLoss.{TradeData, update_profit_loss}
use augur_node.Reporting.Markets.{in_category, named_category, remove_outcome_value}

abbrev pub is_shares : TokenSymbol → Bool
is_shares shares = true
is_shares cash = false
is_shares rep = false
is_shares crowdsourcer = false
is_shares participation_token = false
is_shares fee_token = false

abbrev pub belongs_to : ℕ → TokenRow → Bool
belongs_to market_id t = elim t.market_id [ none ↦ false | some m ↦ m == market_id ]

-- The joins of `token_supply` with `tokens`.
abbrev pub is_share_of : ℕ → TokenRow → Bool
is_share_of market_id t = belongs_to market_id t && is_shares t.symbol

abbrev pub is_outcome_token : ℕ → ℕ → TokenRow → Bool
is_outcome_token market_id outcome t = belongs_to market_id t && t.outcome == outcome

abbrev pub joins : {N : Type 0} → (TokenRow → Bool) → List TokenRow → SupplyRow N → Bool
joins p tokens s = not (count_where (λ t. t.contract_address == s.token && p t) tokens == 0)

abbrev pub is_outcome : {N : Type 0} → ℕ → ℕ → OutcomeRow N → Bool
is_outcome market_id outcome r = r.market_id == market_id && r.outcome == outcome

abbrev pub is_trade : {N : Type 0} → ℕ → ℕ → ℕ → ℕ → TradeRow N → Bool
is_trade market_id outcome order_id block_number t =
    t.market_id == market_id
    && (t.outcome == outcome && (t.order_id == order_id && t.block_number == block_number))

module _ (bn : BigNumber) where
  open bn use {Num, plus, minus, multiplied_by, negated, min}

  unfoldable pub volume_for_trade : Num → Num → Num → Num → Num → Num → Num
  volume_for_trade market_min_price market_max_price num_creator_tokens num_creator_shares
        num_filler_tokens num_filler_shares =
      plus (plus num_creator_tokens num_filler_tokens) (
        multiplied_by (min num_creator_shares num_filler_shares)
          (minus market_max_price market_min_price))

  abbrev pub volume_in : MarketRow Num → TradeRow Num → Num
  volume_in m t =
      volume_for_trade m.min_price m.max_price t.num_creator_tokens t.num_creator_shares
        t.num_filler_tokens t.num_filler_shares

  -- `if (!isIncrease) x = x.negated()`
  abbrev pub signed : Bool → Num → Num
  signed is_increase x = if is_increase then x else negated x

  abbrev pub set_market_volume : Num → Num → MarketRow Num → MarketRow Num
  set_market_volume volume share_volume m = record m {
    volume = volume;
    share_volume = share_volume;
  }

  abbrev pub set_outcome_volume : Num → Num → OutcomeRow Num → OutcomeRow Num
  set_outcome_volume volume share_volume r = record r {
    volume = volume;
    share_volume = share_volume;
  }

  unfoldable pub increment_market_volume : ℕ → Num → TradeRow Num → Bool → Action Num (Unit {0})
  increment_market_volume market_id amount trade is_increase = do
    row ← gets (λ db. first_where (is_market market_id) db.markets)
    m ← or_throw row market_not_found
    modify (λ db. record db {
      markets =
          update_where (is_market market_id)
            (set_market_volume (plus m.volume (signed is_increase (volume_in m trade)))
              (plus amount m.share_volume))
            db.markets;
    })

  unfoldable pub increment_outcome_volume :
      ℕ → ℕ → Num → TradeRow Num → Bool → Action Num (Unit {0})
  increment_outcome_volume market_id outcome amount trade is_increase = do
    row ← gets (λ db. first_where (is_market market_id) db.markets)
    m ← or_throw row market_not_found
    outcome_row ← gets (λ db. first_where (is_outcome market_id outcome) db.outcomes)
    r ← or_throw outcome_row outcome_not_found
    modify (λ db. record db {
      outcomes =
          update_where (is_outcome market_id outcome)
            (set_outcome_volume (plus r.volume (signed is_increase (volume_in m trade)))
              (plus amount r.share_volume))
            db.outcomes;
    })

  unfoldable pub set_market_last_trade : ℕ → ℕ → Action Num (Unit {0})
  set_market_last_trade market_id block_number = modify (λ db. record db {
    markets =
        update_where (is_market market_id)
          (λ m. record m { last_trade_block_number = some block_number }) db.markets;
  })

  -- The new columns of a category for a change of open interest.
  abbrev pub change_category : Bool → Num → CategoryRow Num → CategoryRow Num → CategoryRow Num
  change_category is_finalized oi_delta row c = record c {
    open_interest = plus row.open_interest oi_delta;
    non_finalized_open_interest =
        (if is_finalized
          then c.non_finalized_open_interest
          else plus row.non_finalized_open_interest oi_delta);
  }

  unfoldable pub update_category_aggregations_on_market_open_interest_changed :
      Option ℕ → Num → Num → Bool → Action Num (Unit {0})
  update_category_aggregations_on_market_open_interest_changed category_name new_open_interest
        old_open_interest is_finalized =
      do
        found ← gets (λ db. named_category bn category_name db.categories)
        row ← or_throw found category_not_found
        modify (λ db. record db {
          categories =
              update_where (in_category row.category)
                (change_category is_finalized (minus new_open_interest old_open_interest) row)
                db.categories;
        })

  abbrev pub set_open_interest : Num → MarketRow Num → MarketRow Num
  set_open_interest n m = record m { open_interest = n }

  -- The market, its state and the supply of one of its share tokens are read before the update.
  unfoldable pub update_market_open_interest : OrderNumbers Num → ℕ → Action Num (Unit {0})
  update_market_open_interest on market_id = do
    market_row ← gets (λ db. first_where (is_market market_id) db.markets)
    m ← or_throw market_row market_not_found
    is_finalized ← gets (λ db. is_in_state finalized (named_row m.market_state_id db.market_states))
    supply_row ← gets (λ db. first_where (joins (is_share_of market_id) db.tokens) db.token_supply)
    s ← or_throw supply_row supply_not_found
    modify (λ db. record db {
      markets =
          update_where (is_market market_id)
            (set_open_interest
              (fixed_point_to_decimal bn on (multiplied_by s.supply m.num_ticks) on.wei_per_ether))
            db.markets;
    })
    update_category_aggregations_on_market_open_interest_changed m.category
        (fixed_point_to_decimal bn on (multiplied_by s.supply m.num_ticks) on.wei_per_ether)
        m.open_interest is_finalized

  abbrev pub set_shares_outstanding : Num → MarketRow Num → MarketRow Num
  set_shares_outstanding n m = record m { shares_outstanding = n }

  -- The two volumes, for the trade that was found.
  abbrev pub increment_volumes : ℕ → ℕ → Bool → TradeRow Num → Action Num (Unit {0})
  increment_volumes market_id outcome is_increase trade = do
    increment_market_volume market_id (signed is_increase trade.amount) trade is_increase
    increment_outcome_volume market_id outcome (signed is_increase trade.amount) trade is_increase

  unfoldable pub update_volumetrics :
      OrderNumbers Num → ℕ → ℕ → ℕ → ℕ → Num → Bool → Action Num (Unit {0})
  update_volumetrics on market_id outcome block_number order_id tick_size is_increase = do
    supply_row ←
        gets
          (λ db. first_where (joins (is_outcome_token market_id outcome) db.tokens) db.token_supply)
    s ← or_throw supply_row supply_not_found
    modify (λ db. record db {
      markets =
          update_where (is_market market_id)
            (set_shares_outstanding
              (on.convert_on_chain_amount_to_display_amount s.supply tick_size))
            db.markets;
    })
    found ← gets (λ db. first_where (is_trade market_id outcome order_id block_number) db.trades)
    trade ← or_throw found trade_not_found
    increment_volumes market_id outcome is_increase trade
    set_market_last_trade market_id block_number
    update_market_open_interest on market_id

  abbrev pub tick_size_of : OrderNumbers Num → MarketRow Num → Num
  tick_size_of on m = num_ticks_to_tick_size bn on m.num_ticks m.min_price m.max_price
