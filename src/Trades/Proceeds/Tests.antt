-- ===== src/Trades/Proceeds/Tests.antt =====
-- A claim of proceeds and its removal at concrete tables.
use augur_node.Prelude.{◌≡◌, refl, false, none, some, [], ◌∷◌, ◌==◌}
use augur_node.Prelude.Int.{ℤ, pos}
use augur_node.Prelude.Tables.{count_where}
use augur_node.BigNumber.{integers}
use augur_node.Database.{MarketRow, World, empty_db, PayoutRow, ProfitLossRow}
use augur_node.Reporting.Samples.{market_five, whole_numbers}
use augur_node.Trades.Proceeds.{
  TradingProceedsLog, is_claim, process_trading_proceeds_claimed_log,
  process_trading_proceeds_claimed_log_removal,
}
use augur_node.Trades.Proceeds.Undone.{claim_log_removed}

-- A price of a tick is 2.
abbrev market_of_ticks : MarketRow ℤ
market_of_ticks = record (market_five) { num_ticks = pos 10; max_price = pos 20 }

abbrev payout_won : PayoutRow ℤ
payout_won = record {
  payout_id = 1;
  market_id = 5;
  is_invalid = false;
  payout = some (pos 0) ∷ some (pos 10) ∷ none ∷ [];
  tentative_winning = 1;
  winning = some 1;
}

-- Account 80 holds three shares of outcome 1.
abbrev held : ProfitLossRow ℤ
held = record {
  account = 80;
  market_id = 5;
  outcome = 1;
  price = pos 0;
  position = pos 3;
  quantity_opened = pos 3;
  profit = pos 0;
  transaction_hash = 83;
  timestamp = 9;
  block_number = 100;
  log_index = 0;
  frozen_funds = pos 0;
  realized_cost = pos 0;
}

abbrev before_claim : World ℤ
before_claim = record {
  db = record (empty_db) {
    markets = market_of_ticks ∷ [];
    payouts = payout_won ∷ [];
    profit_loss = held ∷ [];
  };
  emitted = [];
  override_timestamps = [];
  block_head_timestamp = 10;
}

abbrev claim_log : TradingProceedsLog ℤ
claim_log = record {
  market = 5;
  share_token = 82;
  sender = 80;
  num_shares = pos 3;
  num_payout_tokens = pos 60;
  block_number = 120;
  transaction_hash = 90;
  transaction_index = 2;
  log_index = 4;
}

nothing_of_claim :
    (count_where (is_claim integers claim_log) before_claim.db.trading_proceeds ≡ 0)
    × (count_where (λ r. r.transaction_hash == 90) before_claim.db.profit_loss ≡ 0)
unfolding count_where
nothing_of_claim = (refl, refl)

claim_log_removed_example :
    (process_trading_proceeds_claimed_log_removal integers claim_log
      ((process_trading_proceeds_claimed_log integers whole_numbers claim_log before_claim).1)).1.db
    ≡ before_claim.db
claim_log_removed_example =
    claim_log_removed integers claim_log whole_numbers before_claim nothing_of_claim.0
      nothing_of_claim.1
