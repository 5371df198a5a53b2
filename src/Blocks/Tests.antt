-- ===== src/Blocks/Tests.antt =====
-- The clock and the blocks at concrete states.
use augur_node.Prelude.{
  arith, none, ltb, ℕ, ◌≡◌, true, false, [], ◌∷◌, some, ◌==◌, ◌&&◌, if◌then◌else◌, ok, err,
}
use augur_node.Prelude.Int.{pos}
use augur_node.Prelude.Tables.{first_where, select_where}
use augur_node.Database.{pre_reporting, World, empty_db, ◌>>◌, timestamp_removal_failed}
use augur_node.Blocks.{
  has_state, advance_market_reaching_end_time, set_override_timestamp, remove_override_timestamp,
  get_current_time, head_of, has_number, insert_block_row,
}
use augur_node.Blocks.Clock.{has_prior, remove-set_override_timestamp}
use augur_node.MarketStates.History.{IsNumbered}
use augur_node.Blocks.EndTimes.{NamesGiven, advance_market_reaching_end_time_lem}
use augur_node.Blocks.Row.{block_row, insert_block_row_lem}

-- Block 100 is known under another hash, and the time was set to 40 before.
abbrev known : World ℕ
known = record {
  db = record (empty_db) { blocks = block_row 99 6 false 1485 ∷ block_row 100 7 false 1500 ∷ [] };
  emitted = [];
  override_timestamps = 40 ∷ [];
  block_head_timestamp = 1500;
}

remove-set_override_timestamp_example :
    let result = (set_override_timestamp 60 >> remove_override_timestamp 60) known in
    let returns = (60 == 60) && has_prior known.override_timestamps in
    (get_current_time (set_override_timestamp 60 known).1
      ≡ (if 60 == 0 then known.block_head_timestamp else 60))
    × (result.0 ≡ (if returns then ok tt else err timestamp_removal_failed))
    × (result.1.override_timestamps ≡ known.override_timestamps)
    × (result.1.db.override_timestamp
        ≡ (if returns then head_of known.override_timestamps else some 60))
remove-set_override_timestamp_example = remove-set_override_timestamp 60 60 known

insert_block_row_lem_example :
    let result = insert_block_row 100 8 true 1501 known in
    (result.0 ≡ ok tt)
    × (first_where (has_number 100) result.1.db.blocks ≡ (
        if 100 == 100
        then some (block_row 100 8 true 1501)
        else first_where (has_number 100) known.db.blocks))
insert_block_row_lem_example = insert_block_row_lem 100 8 true 1501 100 known

-- Market 5 ends at 900 and is in pre-reporting.
abbrev ending : World ℕ
ending = record {
  db = record (empty_db) {
    markets =
        record {
          market_id = 5;
          universe = 1;
          min_price = 0;
          max_price = 1;
          num_ticks = 10000;
          market_state_id = some 1;
          fee_window = 70;
          end_time = 900;
          initial_report_size = none;
          finalization_block_number = none;
          forking = 0;
          needs_migration = pos 0;
          needs_disavowal = pos 0;
          dispute_rounds = none;
          market_creator_mailbox = 80;
          market_creator_mailbox_owner = 81;
          market_creator_fees_balance = 0;
          category = none;
          open_interest = 0;
          volume = 0;
          share_volume = 0;
          shares_outstanding = 0;
          last_trade_block_number = none;
        }
        ∷ [];
    market_states =
        record {
          market_state_id = 1;
          market_id = 5;
          reporting_state = pre_reporting;
          block_number = 10;
        }
        ∷ [];
    next_market_state_id = 2;
  };
  emitted = [];
  override_timestamps = [];
  block_head_timestamp = 0;
}

ending-IsNumbered : IsNumbered 2 ending.db.market_states
unfolding IsNumbered
ending-IsNumbered = (omega arith, tt)

ending-NamesGiven : NamesGiven 2 ending.db.markets
unfolding NamesGiven
ending-NamesGiven = (omega arith, tt)

advance_market_reaching_end_time_lem_example :
    let result = advance_market_reaching_end_time 1 12 1000 ending in
    (result.0 ≡ ok tt)
    × (select_where
          (λ m. has_state pre_reporting result.1.db.market_states m && ltb m.end_time 1000)
          result.1.db.markets
        ≡ [])
advance_market_reaching_end_time_lem_example =
    advance_market_reaching_end_time_lem 1 12 1000 ending ending-IsNumbered ending-NamesGiven
