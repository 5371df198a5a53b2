-- ===== src/Trades/Claims.antt =====
-- What a claim of trading proceeds does to the profit and loss of its account
-- (`updateProfitLossClaimProceeds` of
-- src/blockchain/log-processors/profit-loss/update-profit-loss.ts).
pub mod Undone
use augur_node.Prelude.{ℕ, ◌+◌, Option, none, some, List, [], ◌∷◌, ◌==◌, if◌then◌else◌}
use augur_node.Prelude.Tables.{first_where, select_where}
use augur_node.BigNumber.{BigNumber, is_zero}
use augur_node.Database.{
  Db, Action, MarketRow, PayoutRow, pure, throw, gets, or_throw, ◌>>=◌, ◌>>◌, payout_not_found,
  dimension_error,
}
use augur_node.MarketStates.{is_market}
use augur_node.Orders.{OrderNumbers}
use augur_node.ProfitLoss.{is_row_of, latest_row, column_or_zero, update_profit_loss}
use augur_node.Trades.{tick_size_of}

module _ (bn : BigNumber) where
  open bn use {Num, zero_bn, plus, minus, negated, multiplied_by, lt}

  -- The join of `payouts` with `markets`: a market's first payout, with its row.
  abbrev pub payout_and_market : ℕ → Db Num → Option (PayoutRow Num × MarketRow Num)
  payout_and_market market_id db = elim (first_where (λ p. p.market_id == market_id) db.payouts) [
    | none ↦ none
    | some p ↦ elim (first_where (is_market market_id) db.markets) [
      | none ↦ none
      | some m ↦ some (p, m)
    ]
  ]

  -- `outcomeValues`: a column that is null pushes nothing.
  pub outcome_values_of : Num → Num → List (Option Num) → List Num
  outcome_values_of tick_size min_price [] = []
  outcome_values_of tick_size min_price (none ∷ payouts) =
      outcome_values_of tick_size min_price payouts
  outcome_values_of tick_size min_price (some payout ∷ payouts) =
      plus (multiplied_by payout tick_size) min_price
      ∷ outcome_values_of tick_size min_price payouts

  pub total_from : Num → List Num → Num
  total_from total [] = total
  total_from total (value ∷ values) = total_from (plus total value) values

  abbrev pub claim_price : Num → Num → Num → Num
  claim_price total_payout last_position value =
      if lt last_position zero_bn then minus total_payout value else value

  module _ (market_id account transaction_hash block_number log_index : ℕ) where
    -- The position is closed at the outcome's value. Where the outcome has none, the price is
    -- undefined or not a number, and `new Price` throws.
    abbrev pub close_position : ℕ → Num → Num → Option Num → Action Num (Unit {0})
    close_position outcome last_position total_payout none = throw dimension_error
    close_position outcome last_position total_payout (some value) =
        update_profit_loss bn market_id (negated last_position) account outcome
          (claim_price total_payout last_position value) transaction_hash block_number log_index
          none

    -- The body of the loop over outcomes.
    abbrev pub claim_outcome : Num → ℕ → Option Num → Action Num (Unit {0})
    claim_outcome total_payout outcome value = do
      last_position ← gets (λ db.
          column_or_zero bn (λ r. r.position)
            (latest_row bn (select_where (is_row_of bn account market_id outcome) db.profit_loss)))
      (if is_zero bn last_position
          then pure tt
          else close_position outcome last_position total_payout value)

    -- The loop runs over one outcome more than there are values.
    unfoldable pub claim_outcomes : Num → List Num → ℕ → Action Num (Unit {0})
    claim_outcomes total_payout [] outcome = claim_outcome total_payout outcome none
    claim_outcomes total_payout (value ∷ values) outcome = do
      claim_outcome total_payout outcome (some value)
      claim_outcomes total_payout values (outcome + 1)

    unfoldable pub update_profit_loss_claim_proceeds : OrderNumbers Num → Action Num (Unit {0})
    update_profit_loss_claim_proceeds on = do
      found ← gets (payout_and_market market_id)
      (payouts, m) ← or_throw found payout_not_found
      let values = outcome_values_of (tick_size_of bn on m) m.min_price payouts.payout
      claim_outcomes (total_from zero_bn values) values 0
