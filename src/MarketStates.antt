-- ===== src/MarketStates.antt =====
-- The reporting state of a market and its history, and the fee windows
-- (src/blockchain/log-processors/database.ts). Every state that a market was in is a row of
-- `market_state`; the market names the latest one. The database numbers the rows in the order of
-- their insertion and never reuses a number, and an insertion returns it.
pub mod History
pub mod Marking
pub mod Windows
pub mod Ordered
pub mod Keeping
mod Tests
use augur_node.Prelude.{
  ℕ, zero, suc, ◌+◌, Bool, true, false, ◌&&◌, ◌||◌, not, Option, none, some, List, [], ◌∷◌, map,
  ◌==◌, ltb, if◌then◌else◌,
}
use augur_node.Prelude.Tables.{select_where, update_where, delete_where, count_where, insert_row}
use augur_node.Database.{
  Db, Action, MarketRow, MarketStateRow, FeeWindowRow, FeeWindowState, past, current, future,
  ReportingState, pre_reporting, designated_reporting, open_reporting, crowdsourcing_dispute,
  awaiting_next_window, awaiting_finalization, finalized, forking, awaiting_no_report_migration,
  awaiting_fork_migration, pure, throw, gets, modify, emit, ◌>>=◌, ◌>>◌, market_state_not_current,
  EventName, fee_window_event, fee_window_closed, fee_window_opened,
}

abbrev pub state_code : ReportingState → ℕ
state_code pre_reporting = 0
state_code designated_reporting = 1
state_code open_reporting = 2
state_code crowdsourcing_dispute = 3
state_code awaiting_next_window = 4
state_code awaiting_finalization = 5
state_code finalized = 6
state_code forking = 7
state_code awaiting_no_report_migration = 8
state_code awaiting_fork_migration = 9

abbrev pub same_state : ReportingState → ReportingState → Bool
same_state a b = state_code a == state_code b

abbrev pub max_id : ℕ → Option ℕ → Option ℕ
max_id a none = some a
max_id a (some b) = some (if ltb a b then b else a)

-- `queryCurrentMarketStateId`
unfoldable pub query_current_market_state_id : ℕ → List MarketStateRow → Option ℕ
query_current_market_state_id market_id [] = none
query_current_market_state_id market_id (r ∷ rows) =
    let rest = query_current_market_state_id market_id rows in
    if r.market_id == market_id then max_id r.market_state_id rest else rest

abbrev pub is_market : {N : Type 0} → ℕ → MarketRow N → Bool
is_market market_id r = r.market_id == market_id

abbrev pub set_state_id : {N : Type 0} → Option ℕ → MarketRow N → MarketRow N
set_state_id id r = record r { market_state_id = id }

-- `marketStateId = id`, which is not true of any row where `id` is NULL
abbrev pub has_id : Option ℕ → MarketStateRow → Bool
has_id none r = false
has_id (some id) r = r.market_state_id == id

abbrev pub is_current : Option ℕ → ReportingState → MarketStateRow → Bool
is_current id expected r = has_id id r && same_state r.reporting_state expected

module _ {N : Type 0} where
  unfoldable pub set_market_state_to_latest : ℕ → Action N (Unit {0})
  set_market_state_to_latest market_id = modify (λ db. record db {
    markets =
        update_where (is_market market_id)
          (set_state_id (query_current_market_state_id market_id db.market_states)) db.markets;
  })

  abbrev pub insert_market_state : ℕ → ℕ → ReportingState → Db N → Db N
  insert_market_state market_id block_number reporting_state db = record db {
    market_states =
        insert_row
          (record {
            market_state_id = db.next_market_state_id;
            market_id = market_id;
            reporting_state = reporting_state;
            block_number = block_number;
          })
          db.market_states;
    next_market_state_id = suc db.next_market_state_id;
  }

  unfoldable pub update_market_state : ℕ → ℕ → ReportingState → Action N (Unit {0})
  update_market_state market_id block_number reporting_state = do
    modify (insert_market_state market_id block_number reporting_state)
    set_market_state_to_latest market_id

  pub rollback_market_state : ℕ → ReportingState → Action N (Unit {0})
  rollback_market_state market_id expected_state = do
    current_id ← gets (λ db. query_current_market_state_id market_id db.market_states)
    rows_affected ← gets (λ db. count_where (is_current current_id expected_state) db.market_states)
    modify (λ db. record db {
      market_states = delete_where (is_current current_id expected_state) db.market_states;
    })
    (if rows_affected == 0 then throw market_state_not_current else pure tt)
    set_market_state_to_latest market_id

abbrev pub is_past : FeeWindowState → Bool
is_past past = true
is_past current = false
is_past future = false

abbrev pub is_current_window : FeeWindowState → Bool
is_current_window past = false
is_current_window current = true
is_current_window future = false

abbrev pub is_expired : ℕ → FeeWindowRow → Bool
is_expired timestamp r = not (is_past r.state) && ltb r.end_time timestamp

abbrev pub is_newly_active : ℕ → FeeWindowRow → Bool
is_newly_active timestamp r =
    not (is_current_window r.state) && (ltb timestamp r.end_time && ltb r.start_time timestamp)

abbrev pub address_of : FeeWindowRow → ℕ
address_of r = r.fee_window

-- `.whereIn(...)`
unfoldable pub is_among : ℕ → List ℕ → Bool
is_among a [] = false
is_among a (b ∷ bs) = (b == a) || is_among a bs

abbrev pub set_window_state : FeeWindowState → FeeWindowRow → FeeWindowRow
set_window_state s r = record r { state = s }

-- The two updates of the table by `updateActiveFeeWindows`.
unfoldable pub mark_windows :
    List FeeWindowRow → FeeWindowState → List FeeWindowRow → List FeeWindowRow
mark_windows selected s rows =
    update_where (λ r. is_among r.fee_window (map address_of selected)) (set_window_state s) rows

pub record FeeWindowModifications : Type 0 where
  pub expired_fee_windows : List ℕ
  pub new_active_fee_windows : List ℕ

module _ {N : Type 0} where
  pub emit_windows : EventName → ℕ → ℕ → List ℕ → Action N (Unit {0})
  emit_windows name block_number timestamp [] = pure tt
  emit_windows name block_number timestamp (a ∷ rest) = do
    emit (fee_window_event name block_number timestamp a)
    emit_windows name block_number timestamp rest

  -- The events, and what is returned.
  pub report_windows : ℕ → ℕ → List ℕ → List ℕ → Action N FeeWindowModifications
  report_windows block_number timestamp closed opened = do
    emit_windows fee_window_closed block_number timestamp closed
    emit_windows fee_window_opened block_number timestamp opened
    pure (record { expired_fee_windows = closed; new_active_fee_windows = opened })

  pub update_active_fee_windows : ℕ → ℕ → Action N FeeWindowModifications
  update_active_fee_windows block_number timestamp = do
    expired ← gets (λ db. select_where (is_expired timestamp) db.fee_windows)
    modify (λ db. record db { fee_windows = mark_windows expired past db.fee_windows })
    newly_active ← gets (λ db. select_where (is_newly_active timestamp) db.fee_windows)
    modify (λ db. record db { fee_windows = mark_windows newly_active current db.fee_windows })
    report_windows block_number timestamp (map address_of expired) (map address_of newly_active)
