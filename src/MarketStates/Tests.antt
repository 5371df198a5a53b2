-- ===== src/MarketStates/Tests.antt =====
-- Market states and fee windows at concrete tables.
use augur_node.Prelude.{
  ℕ, ◌≡◌, refl, none, some, List, [], ◌∷◌, ◌++◌, map, arith, ok, err, if◌then◌else◌,
}
use augur_node.Prelude.Int.{pos}
use augur_node.Prelude.Tables.{select_where}
use augur_node.Database.{
  World, empty_db, MarketRow, MarketStateRow, FeeWindowRow, designated_reporting, pre_reporting,
  open_reporting, current, future, ◌>>◌, market_state_not_current, fee_window_closed,
  fee_window_opened,
}
use augur_node.MarketStates.{
  update_market_state, rollback_market_state, query_current_market_state_id,
  update_active_fee_windows, is_expired, is_newly_active, address_of, is_among, same_state,
}
use augur_node.MarketStates.History.{IsNumbered, NamesLatest, rollback-update}
use augur_node.MarketStates.Marking.{HasDistinctWindows, at_time}
use augur_node.MarketStates.Windows.{window_events, update_active_fee_windows_lem}

abbrev market_five : MarketRow ℕ
market_five = record {
  market_id = 5;
  universe = 1;
  min_price = 0;
  max_price = 1;
  num_ticks = 10000;
  market_state_id = some 2;
  fee_window = 70;
  end_time = 900;
  initial_report_size = none;
  finalization_block_number = none;
  forking = 0;
  needs_migration = pos 0;
  needs_disavowal = pos 0;
  dispute_rounds = none;
  market_creator_mailbox = 80;
  market_creator_mailbox_owner = 81;
  market_creator_fees_balance = 0;
  category = none;
  open_interest = 0;
  volume = 0;
  share_volume = 0;
  shares_outstanding = 0;
  last_trade_block_number = none;
}

abbrev history : List MarketStateRow
history =
    record {
      market_state_id = 1;
      market_id = 6;
      reporting_state = pre_reporting;
      block_number = 10;
    }
    ∷ record {
      market_state_id = 2;
      market_id = 5;
      reporting_state = pre_reporting;
      block_number = 11;
    }
    ∷ []

abbrev windows : List FeeWindowRow
windows =
    record {
      fee_window = 70;
      universe = 1;
      start_time = 100;
      end_time = 200;
      state = current;
      fee_token = 90;
    }
    ∷ record {
      fee_window = 71;
      universe = 1;
      start_time = 200;
      end_time = 300;
      state = future;
      fee_token = 90;
    }
    ∷ record {
      fee_window = 72;
      universe = 1;
      start_time = 300;
      end_time = 400;
      state = future;
      fee_token = 90;
    }
    ∷ []

abbrev world : World ℕ
world = record {
  db = record (empty_db) {
    markets = market_five ∷ [];
    market_states = history;
    next_market_state_id = 3;
    fee_windows = windows;
  };
  emitted = [];
  override_timestamps = [];
  block_head_timestamp = 0;
}

history-IsNumbered : IsNumbered 3 history
unfolding IsNumbered
history-IsNumbered = (omega arith, (omega arith, tt))

market_five-NamesLatest : NamesLatest 5 history (market_five ∷ [])
unfolding NamesLatest query_current_market_state_id
market_five-NamesLatest = ((λ h. refl), tt)

rollback-update_example :
    ((update_market_state 5 12 designated_reporting >> rollback_market_state 5 designated_reporting)
        world
      ≡ (ok tt, record world { db = record (world.db) { next_market_state_id = 4 } }))
    × (((update_market_state 5 12 designated_reporting >> rollback_market_state 5 open_reporting)
          world).0
        ≡ (if same_state designated_reporting open_reporting
            then ok tt
            else err market_state_not_current))
rollback-update_example =
    rollback-update 5 12 designated_reporting open_reporting world history-IsNumbered
      market_five-NamesLatest

windows-HasDistinctWindows : HasDistinctWindows windows
unfolding HasDistinctWindows is_among
windows-HasDistinctWindows = (refl, (refl, (refl, tt)))

-- At time 250 the first window closes, the second opens and the third is still to come.
update_active_fee_windows_lem_example :
    let closed = map address_of (select_where (is_expired 250) windows) in
    let opened = map address_of (select_where (is_newly_active 250) windows) in
    update_active_fee_windows 12 250 world ≡ (
      ok (record { expired_fee_windows = closed; new_active_fee_windows = opened }),
      record world {
        db = record (world.db) { fee_windows = map (at_time 250) windows };
        emitted =
            ([] ++ window_events fee_window_closed 12 250 closed)
            ++ window_events fee_window_opened 12 250 opened;
      },
    )
update_active_fee_windows_lem_example =
    update_active_fee_windows_lem 12 250 world windows-HasDistinctWindows
