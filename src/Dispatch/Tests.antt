-- ===== src/Dispatch/Tests.antt =====
-- Blocks and their logs at concrete tables.
use augur_node.Prelude.{ℕ, refl, Bool, true, false, Option, none, some, List, [], ◌∷◌}
use augur_node.Prelude.Int.{ℤ, pos}
use augur_node.BigNumber.{integers}
use augur_node.Database.{World, empty_db, tokens_transferred}
use augur_node.BlockQueue.{BlockDetail, add, remove}
use augur_node.MarketStates.Ordered.{IsConsistent}
use augur_node.Tokens.{TokenLog, only_value}
use augur_node.Reporting.Samples.{chain, log_in, whole_numbers}
use augur_node.Dispatch.{
  EventLog, augur_log, token_log, ReceivedLog, Network, universe_created_log, market_created_log,
  initial_report_submitted_log, tokens_minted_log, process_block,
}
use augur_node.Dispatch.Consistent.{Reached, started, processed, Reached-IsConsistent}

abbrev net : Network ℤ
net = record {
  chain = chain;
  numbers = whole_numbers;
  legacy_reputation_token = 60;
  universe = 1;
  ether = 61;
  designated_reporting_duration = 30;
}

abbrev received : Bool → EventLog ℤ → ReceivedLog ℤ
received removed log = record { event_log = log; removed = removed }

-- The stake of the designated reporter comes to the market before the market.
abbrev stake_log : TokenLog ℤ
stake_log = record {
  transaction_hash = 70;
  log_index = 1;
  block_number = 100;
  address = 41;
  token = none;
  numeral = only_value (pos 3);
  target = 5;
  from_address = 0;
  to_address = 5;
  event_name = tokens_transferred;
}

abbrev block_at : ℕ → ℕ → Option BlockDetail
block_at number timestamp =
    some (record { hash = number; number = number; timestamp = some timestamp })

abbrev creation : List (ReceivedLog ℤ)
creation =
    received false (augur_log universe_created_log (log_in 100))
    ∷ received false (token_log tokens_minted_log stake_log)
    ∷ received false (augur_log market_created_log (log_in 100))
    ∷ []

abbrev report : Bool → List (ReceivedLog ℤ)
report removed = received removed (augur_log initial_report_submitted_log (log_in 101)) ∷ []

abbrev nothing_yet : World ℤ
nothing_yet = record {
  db = empty_db;
  emitted = [];
  override_timestamps = [];
  block_head_timestamp = 0;
}

abbrev created : World ℤ
created = (process_block integers net add (block_at 100 10) false creation nothing_yet).1

abbrev reported : World ℤ
reported = (process_block integers net add (block_at 101 510) false (report false) created).1

abbrev taken_back : World ℤ
taken_back = (process_block integers net remove (block_at 101 510) false (report true) reported).1

abbrev taken_back_reached : Reached integers net taken_back
taken_back_reached =
    processed reported
      (processed created
        (processed nothing_yet (started nothing_yet refl) add (block_at 100 10) false creation) add
        (block_at 101 510) false (report false))
      remove (block_at 101 510) false (report true)

Reached-IsConsistent_example : IsConsistent taken_back.db
Reached-IsConsistent_example = Reached-IsConsistent integers net taken_back_reached
