-- ===== src/Blocks.antt =====
-- Processing a block (src/blockchain/process-block.ts, src/blockchain/log-processors/timestamp-set.ts):
-- the clock, the row of the block, and what time brings to markets, crowdsourcers and fee windows.
pub mod Clock
pub mod Row
pub mod EndTimes
pub mod Keeping
mod Tests
use augur_node.Prelude.{
  ℕ, zero, suc, ◌+◌, Bool, true, false, ◌&&◌, ◌||◌, not, Option, none, some, List, [], ◌∷◌, ◌++◌,
  map, ◌==◌, ltb, if◌then◌else◌, ok,
}
use augur_node.Prelude.Int.{pos, eq_ℤ}
use augur_node.Prelude.Tables.{
  select_where, first_where, update_where, delete_where, insert_row, count_where,
}
use augur_node.Database.{
  Db, World, Action, MarketRow, MarketStateRow, FeeWindowRow, UniverseRow, PayoutRow,
  CrowdsourcerRow, BlockRow, TransactionHashRow, ReportingState, pre_reporting,
  designated_reporting, open_reporting, crowdsourcing_dispute, awaiting_next_window,
  awaiting_finalization, pure, throw, gets, or_throw, modify, emit, ◌>>=◌, ◌>>◌, transaction,
  market_state_event, market_dispute_event, timestamp_removal_failed, block_without_timestamp,
  null_transaction_hash,
}
use augur_node.BlockQueue.{BlockDetail, BlockDirection, add, remove}
use augur_node.MarketStates.{
  update_market_state, same_state, is_among, is_current_window, update_active_fee_windows,
  FeeWindowModifications,
}

-- `a || b` on numbers
abbrev pub or_if_zero : Option ℕ → ℕ → ℕ
or_if_zero none b = b
or_if_zero (some a) b = if a == 0 then b else a

abbrev pub head_of : List ℕ → Option ℕ
head_of [] = none
head_of (t ∷ ts) = some t

abbrev pub tail_of : List ℕ → List ℕ
tail_of [] = []
tail_of (t ∷ ts) = ts

abbrev pub has_number : ℕ → BlockRow → Bool
has_number block_number r = r.block_number == block_number

abbrev pub set_block : ℕ → ℕ → Bool → BlockRow → BlockRow
set_block block_hash timestamp bulk_sync r = record r {
  block_hash = block_hash;
  timestamp = timestamp;
  bulk_sync = bulk_sync;
}

-- The blocks after the upsert.
abbrev pub upsert_block : ℕ → ℕ → Bool → ℕ → Option BlockRow → List BlockRow → List BlockRow
upsert_block block_number block_hash bulk_sync timestamp none rows =
    insert_row
      (record {
        block_number = block_number;
        block_hash = block_hash;
        timestamp = timestamp;
        bulk_sync = bulk_sync;
      })
      rows
upsert_block block_number block_hash bulk_sync timestamp (some r) rows =
    update_where (has_number block_number) (set_block block_hash timestamp bulk_sync) rows

-- The reporting state that a market names.
abbrev pub is_in_state : ReportingState → Option MarketStateRow → Bool
is_in_state s none = false
is_in_state s (some r) = same_state r.reporting_state s

abbrev pub named_row : Option ℕ → List MarketStateRow → Option MarketStateRow
named_row none rows = none
named_row (some id) rows = first_where (λ r. r.market_state_id == id) rows

abbrev pub is_unforked : ℕ → UniverseRow → Bool
is_unforked universe u = u.universe == universe && not u.forked

abbrev pub set_winning : {N : Type 0} → PayoutRow N → PayoutRow N
set_winning p = record p { winning = some p.tentative_winning }

-- A market with a fee window of its universe that is current.
pub record Disputed : Type 0 where
  pub market_id : ℕ
  pub universe : ℕ
  pub fee_window : ℕ

abbrev pub is_empty : List ℕ → Bool
is_empty [] = true
is_empty (a ∷ rest) = false

module _ {N : Type 0} where
  pub get_override_timestamp : World N → Option ℕ
  get_override_timestamp w = head_of w.override_timestamps

  pub get_current_time : World N → ℕ
  get_current_time w = or_if_zero (get_override_timestamp w) w.block_head_timestamp

  abbrev pub push_timestamp : ℕ → Action N (Unit {0})
  push_timestamp t w = (ok tt, record w { override_timestamps = t ∷ w.override_timestamps })

  pub set_override_timestamp : ℕ → Action N (Unit {0})
  set_override_timestamp override_timestamp = do
    push_timestamp override_timestamp
    modify (λ db. record db { override_timestamp = some override_timestamp })

  -- `overrideTimestamps.pop()`
  abbrev pub pop_timestamp : Action N (Option ℕ)
  pop_timestamp w = (
    ok (head_of w.override_timestamps),
    record w { override_timestamps = tail_of w.override_timestamps },
  )

  -- What the removal does with what it popped and with what is on top then.
  abbrev pub put_prior : ℕ → Option ℕ → Option ℕ → Action N (Unit {0})
  put_prior override_timestamp none prior = throw timestamp_removal_failed
  put_prior override_timestamp (some t) none = throw timestamp_removal_failed
  put_prior override_timestamp (some t) (some prior) =
      if t == override_timestamp
      then modify (λ db. record db { override_timestamp = some prior })
      else throw timestamp_removal_failed

  pub remove_override_timestamp : ℕ → Action N (Unit {0})
  remove_override_timestamp override_timestamp = do
    removed ← pop_timestamp
    (λ w. put_prior override_timestamp removed (get_override_timestamp w) w)

  pub clear_override_timestamp : Action N (Unit {0})
  clear_override_timestamp w =
      (ok tt, record w { override_timestamps = []; block_head_timestamp = 0 })

  pub insert_block_row : ℕ → ℕ → Bool → ℕ → Action N (Unit {0})
  insert_block_row block_number block_hash bulk_sync timestamp = do
    found ← gets (λ db. first_where (has_number block_number) db.blocks)
    modify (λ db. record db {
      blocks = upsert_block block_number block_hash bulk_sync timestamp found db.blocks;
    })

  abbrev pub insert_hash : ℕ → ℕ → Option TransactionHashRow → Action N (Unit {0})
  insert_hash block_number hash none = modify (λ db. record db {
    transaction_hashes =
        insert_row
          (record { block_number = block_number; transaction_hash = hash; removed = false })
          db.transaction_hashes;
  })
  insert_hash block_number hash (some r) = pure tt

  pub insert_transaction_hash : ℕ → Option ℕ → Action N (Unit {0})
  insert_transaction_hash block_number transaction_hash = do
    hash ← or_throw transaction_hash null_transaction_hash
    found ← gets (λ db. first_where (λ r. r.transaction_hash == hash) db.transaction_hashes)
    insert_hash block_number hash found

  unfoldable pub has_state : ReportingState → List MarketStateRow → MarketRow N → Bool
  has_state s states m = is_in_state s (named_row m.market_state_id states)

  -- `each(marketIds, async (marketIdRow) => { ... })`
  pub each : {A : Type 0} → List A → (A → Action N (Unit {0})) → Action N (Unit {0})
  each [] f = pure tt
  each (a ∷ rest) f = do f a; each rest f

  abbrev pub market_id_of : MarketRow N → ℕ
  market_id_of m = m.market_id

  -- `universe` is the address of the contract Universe of the network.
  abbrev pub advance_market : ℕ → ℕ → ReportingState → ℕ → Action N (Unit {0})
  advance_market universe block_number s market_id = do
    update_market_state market_id block_number s
    emit (market_state_event universe market_id s)

  pub advance_market_reaching_end_time : ℕ → ℕ → ℕ → Action N (Unit {0})
  advance_market_reaching_end_time universe block_number timestamp = do
    markets ← gets (λ db.
        select_where (λ m. has_state pre_reporting db.market_states m && ltb m.end_time timestamp)
          db.markets)
    each (map market_id_of markets) (advance_market universe block_number designated_reporting)

  -- `duration` is `DESIGNATED_REPORTING_DURATION_SECONDS`; endTime < timestamp - duration.
  pub advance_market_missing_designated_report : ℕ → ℕ → ℕ → ℕ → Action N (Unit {0})
  advance_market_missing_designated_report universe duration block_number timestamp = do
    markets ← gets (λ db.
        select_where
          (λ m.
            ltb (m.end_time + duration) timestamp
            && has_state designated_reporting db.market_states m)
          db.markets)
    each (map market_id_of markets) (advance_market universe block_number open_reporting)

  -- The join with the universe, whose address is unique.
  abbrev pub in_unforked_universe : Db N → MarketRow N → Bool
  in_unforked_universe db m = not (count_where (is_unforked m.universe) db.universes == 0)

  abbrev pub awaits_finalization : Db N → List ℕ → MarketRow N → Bool
  awaits_finalization db expired m =
      in_unforked_universe db m
      && (is_among m.fee_window expired
          && (not (eq_ℤ m.needs_migration (pos 1)) && not (m.forking == 1)))

  abbrev pub mark_winning : ℕ → Action N (Unit {0})
  mark_winning market_id = modify (λ db. record db {
    payouts = update_where (λ p. p.market_id == market_id) set_winning db.payouts;
  })

  abbrev pub await_finalization : ℕ → MarketRow N → Action N (Unit {0})
  await_finalization block_number m = do
    update_market_state m.market_id block_number awaiting_finalization
    emit (market_state_event m.universe m.market_id awaiting_finalization)
    mark_winning m.market_id

  pub advance_markets_to_awaiting_finalization : ℕ → List ℕ → Action N (Unit {0})
  advance_markets_to_awaiting_finalization block_number expired = do
    markets ← gets (λ db. select_where (awaits_finalization db expired) db.markets)
    each markets (await_finalization block_number)

  abbrev pub enters_dispute : Db N → List ℕ → MarketRow N → Bool
  enters_dispute db new_active m =
      is_among m.fee_window new_active
      && (has_state awaiting_next_window db.market_states m && in_unforked_universe db m)

  abbrev pub disputed_in : MarketRow N → FeeWindowRow → Disputed
  disputed_in m r = record {
    market_id = m.market_id;
    universe = m.universe;
    fee_window = r.fee_window;
  }

  pub with_current_windows : List FeeWindowRow → List (MarketRow N) → List Disputed
  with_current_windows windows [] = []
  with_current_windows windows (m ∷ rest) =
      map (disputed_in m)
        (select_where (λ r. r.universe == m.universe && is_current_window r.state) windows)
      ++ with_current_windows windows rest

  abbrev pub enter_dispute : ℕ → Disputed → Action N (Unit {0})
  enter_dispute block_number d = do
    emit (market_dispute_event d.universe d.fee_window d.market_id crowdsourcing_dispute)
    update_market_state d.market_id block_number crowdsourcing_dispute

  pub advance_markets_to_crowdsourcing_dispute : ℕ → List ℕ → Action N (Unit {0})
  advance_markets_to_crowdsourcing_dispute block_number new_active = do
    rows ← gets (λ db.
        with_current_windows db.fee_windows
          (select_where (enters_dispute db new_active) db.markets))
    each rows (enter_dispute block_number)

  abbrev pub is_incomplete : List ℕ → CrowdsourcerRow N → Bool
  is_incomplete expired c = elim c.completed [
    | none ↦ is_among c.fee_window expired
    | some b ↦ false
  ]

  pub advance_incomplete_crowdsourcers : List ℕ → Action N (Unit {0})
  advance_incomplete_crowdsourcers expired = modify (λ db. record db {
    crowdsourcers =
        update_where (is_incomplete expired) (λ c. record c { completed = some false })
          db.crowdsourcers;
  })

  -- What `advanceFeeWindowActive` does where a fee window has expired or become active.
  abbrev pub advance_windows : ℕ → FeeWindowModifications → Action N (Unit {0})
  advance_windows block_number m =
      if is_empty m.expired_fee_windows && is_empty m.new_active_fee_windows then pure tt else (do
        advance_incomplete_crowdsourcers m.expired_fee_windows
        advance_markets_to_awaiting_finalization block_number m.expired_fee_windows
        advance_markets_to_crowdsourcing_dispute block_number m.new_active_fee_windows)

  pub advance_fee_window_active : ℕ → ℕ → Action N (Unit {0})
  advance_fee_window_active block_number timestamp = do
    m ← update_active_fee_windows block_number timestamp
    advance_windows block_number m

  pub advance_time : ℕ → ℕ → ℕ → ℕ → Action N (Unit {0})
  advance_time universe duration block_number timestamp = do
    advance_market_reaching_end_time universe block_number timestamp
    advance_market_missing_designated_report universe duration block_number timestamp
    advance_fee_window_active block_number timestamp

  abbrev pub set_block_head : ℕ → Action N (Unit {0})
  set_block_head t w = (ok tt, record w { block_head_timestamp = t })

  abbrev pub process_present_block : ℕ → ℕ → Bool → BlockDetail → ℕ → Action N (Unit {0})
  process_present_block universe duration bulk_sync block t = do
    set_block_head t
    (λ w.
        (do
          insert_block_row block.number block.hash bulk_sync (get_current_time w)
          advance_time universe duration block.number (get_current_time w))
          w)

  pub process_block_by_block_details : ℕ → ℕ → Option BlockDetail → Bool → Action N (Unit {0})
  process_block_by_block_details universe duration block bulk_sync = do
    b ← or_throw block block_without_timestamp
    t ← or_throw b.timestamp block_without_timestamp
    process_present_block universe duration bulk_sync b t

  -- `setOverrideTimestamp` and then the fee windows, and back.
  pub process_timestamp_set_log : ℕ → ℕ → Action N (Unit {0})
  process_timestamp_set_log block_number new_timestamp = do
    set_override_timestamp new_timestamp
    advance_fee_window_active block_number new_timestamp

  pub process_timestamp_set_log_removal : ℕ → ℕ → Action N (Unit {0})
  process_timestamp_set_log_removal block_number new_timestamp = do
    remove_override_timestamp new_timestamp
    (λ w. advance_fee_window_active block_number (get_current_time w) w)

  -- The transaction of `processBlockAndLogs`, on the writes that the log processors returned.
  abbrev pub remove_block : BlockDetail → Db N → Db N
  remove_block block db = record db {
    transaction_hashes =
        update_where (λ r. r.block_number == block.number) (λ r. record r { removed = true })
          db.transaction_hashes;
    blocks = delete_where (λ r. r.block_hash == block.hash) db.blocks;
  }

  abbrev pub block_writes :
      ℕ → ℕ → BlockDirection → BlockDetail → Bool → List (Action N (Unit {0})) → Action N (Unit {0})
  block_writes universe duration add block bulk_sync db_write_functions = do
    process_block_by_block_details universe duration (some block) bulk_sync
    each db_write_functions (λ db_write_function. db_write_function)
  block_writes universe duration remove block bulk_sync db_write_functions = do
    each db_write_functions (λ db_write_function. db_write_function)
    modify (remove_block block)

  pub process_block_and_logs :
      ℕ
      → ℕ
      → BlockDirection
      → Option BlockDetail
      → Bool
      → List (Action N (Unit {0}))
      → Action N (Unit {0})
  process_block_and_logs universe duration direction block bulk_sync db_write_functions = do
    b ← or_throw block block_without_timestamp
    t ← or_throw b.timestamp block_without_timestamp
    transaction (block_writes universe duration direction b bulk_sync db_write_functions)
