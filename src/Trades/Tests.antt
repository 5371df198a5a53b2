-- ===== src/Trades/Tests.antt =====
-- Trades at concrete tables.
use augur_node.Prelude.{◌≡◌, refl, true, false, none, some, [], ◌∷◌, ok}
use augur_node.Prelude.Int.{ℤ, pos, ◌-ℤ◌}
use augur_node.Prelude.Tables.{first_where, count_where}
use augur_node.BigNumber.{integers}
use augur_node.Database.{
  World, empty_db, OutcomeRow, TradeRow, TokenRow, SupplyRow, CategoryRow, shares, buy, ◌>>◌,
}
use augur_node.MarketStates.{is_market}
use augur_node.Orders.{fixed_point_to_decimal}
use augur_node.Reporting.Markets.{in_category}
use augur_node.Reporting.Samples.{market_five, whole_numbers}
use augur_node.Trades.{
  is_outcome, joins, is_share_of, increment_volumes, update_market_open_interest, set_open_interest,
}
use augur_node.Trades.Volumes.{increment_volumes-undone}
use augur_node.Trades.OpenInterest.{open_interest_of, update_market_open_interest_lem}

abbrev outcome_one : OutcomeRow ℤ
outcome_one = record {
  market_id = 5;
  outcome = 1;
  price = pos 3;
  volume = pos 20;
  share_volume = pos 30;
}

abbrev trade_nine : TradeRow ℤ
trade_nine = record {
  market_id = 5;
  outcome = 1;
  order_id = 9;
  creator = 80;
  order_type = buy;
  filler = 81;
  share_token = 82;
  block_number = 100;
  transaction_hash = 83;
  log_index = 0;
  trade_group_id = 84;
  num_creator_tokens = pos 4;
  num_creator_shares = pos 2;
  num_filler_tokens = pos 6;
  num_filler_shares = pos 1;
  price = pos 3;
  amount = pos 5;
  market_creator_fees = pos 0;
  reporter_fees = pos 0;
}

abbrev share_token : TokenRow
share_token = record {
  contract_address = 82;
  market_id = some 5;
  outcome = 1;
  fee_window = none;
  symbol = shares;
}

abbrev share_supply : SupplyRow ℤ
share_supply = record { token = 82; supply = pos 2 }

abbrev category : CategoryRow ℤ
category = record {
  category = 78;
  universe = 1;
  open_interest = pos 0;
  non_finalized_open_interest = pos 0;
}

abbrev traded : World ℤ
traded = record {
  db = record (empty_db) {
    markets = market_five ∷ [];
    outcomes = outcome_one ∷ [];
    tokens = share_token ∷ [];
    token_supply = share_supply ∷ [];
    categories = category ∷ [];
  };
  emitted = [];
  override_timestamps = [];
  block_head_timestamp = 10;
}

rows_found :
    (first_where (is_market 5) traded.db.markets ≡ some market_five)
    × (count_where (is_market 5) traded.db.markets ≡ 1)
    × (first_where (is_outcome 5 1) traded.db.outcomes ≡ some outcome_one)
    × (count_where (is_outcome 5 1) traded.db.outcomes ≡ 1)
    × (first_where (joins (is_share_of 5) traded.db.tokens) traded.db.token_supply
        ≡ some share_supply)
    × (first_where (in_category 78) traded.db.categories ≡ some category)
unfolding first_where count_where
rows_found = (refl, refl, refl, refl, refl, refl)

increment_volumes-undone_example :
    (increment_volumes integers 5 1 true trade_nine
        >> increment_volumes integers 5 1 false trade_nine)
      traded
    ≡ (ok tt, traded)
increment_volumes-undone_example =
    increment_volumes-undone integers 5 1 trade_nine traded market_five outcome_one rows_found.0
      rows_found.1 rows_found.2 rows_found.3

update_market_open_interest_lem_example :
    let result = update_market_open_interest integers whole_numbers 5 traded in
    (result.0 ≡ ok tt)
    × (first_where (is_market 5) result.1.db.markets
        ≡ some (
            set_open_interest integers
              (fixed_point_to_decimal integers whole_numbers
                (integers.multiplied_by (pos 2) (pos 10000))
                (pos 1))
              market_five))
    × ((c : CategoryRow ℤ) × (first_where (in_category 78) result.1.db.categories ≡ some c)
        × ((c.open_interest -ℤ open_interest_of integers 78 result.1.db.markets)
            ≡ (category.open_interest -ℤ open_interest_of integers 78 traded.db.markets)))
update_market_open_interest_lem_example =
    update_market_open_interest_lem integers whole_numbers 5 78 traded market_five share_supply
      category rows_found.0 rows_found.1 refl rows_found.4 rows_found.5
