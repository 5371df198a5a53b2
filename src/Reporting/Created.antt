-- ===== src/Reporting/Created.antt =====
-- The creation of a market (src/blockchain/log-processors/market-created.ts), on the columns that the
-- tables of this library have.
use augur_node.Prelude.{
  ℕ, zero, suc, Bool, true, false, ◌&&◌, not, Option, none, some, List, [], ◌∷◌, ◌++◌, ◌==◌,
  if◌then◌else◌,
}
use augur_node.Prelude.Int.{pos}
use augur_node.Prelude.Tables.{select_where, first_where, delete_where, insert_row, count_where}
use augur_node.BigNumber.{BigNumber}
use augur_node.Database.{
  Action, Db, MarketRow, OutcomeRow, TokenRow, TokenSymbol, BalanceRow, SupplyRow, rep, cash,
  shares, crowdsourcer, participation_token, fee_token, pre_reporting, throw, gets, or_throw,
  modify, emit, ◌>>=◌, ◌>>◌, log_event, market_created, rep_balance_not_found,
  market_already_exists,
}
use augur_node.MarketStates.{is_market, is_among, insert_market_state}
use augur_node.Reporting.{FormattedEventLog, Chain}
use augur_node.Reporting.Markets.{create_category_if_not_exists}

-- `list.length`
unfoldable pub length : List ℕ → ℕ
length [] = 0
length (a ∷ rest) = suc (length rest)

-- The numbers of the outcomes, from `first` on.
unfoldable pub outcomes_from : ℕ → ℕ → List ℕ
outcomes_from first zero = []
outcomes_from first (suc n) = first ∷ outcomes_from (suc first) n

abbrev pub num_outcomes : {N : Type 0} → FormattedEventLog N → ℕ
num_outcomes log = if log.is_categorical then length log.outcomes else 2

abbrev pub is_rep : TokenSymbol → Bool
is_rep rep = true
is_rep cash = false
is_rep shares = false
is_rep crowdsourcer = false
is_rep participation_token = false
is_rep fee_token = false

abbrev pub is_token_of : ℕ → TokenRow → Bool
is_token_of market_id t = elim t.market_id [ none ↦ false | some m ↦ m == market_id ]

unfoldable pub addresses_of : List TokenRow → List ℕ
addresses_of [] = []
addresses_of (t ∷ rest) = t.contract_address ∷ addresses_of rest

abbrev pub is_bond_transfer : ℕ → ℕ → Option ℕ → ℕ → Bool
is_bond_transfer ether market_id recipient token =
    elim recipient [ none ↦ false | some r ↦ r == market_id ] && token == ether

module _ {N : Type 0} where
  -- A row of `balances_detail` with a symbol REP and an owner.
  abbrev pub is_rep_balance : Db N → ℕ → BalanceRow N → Bool
  is_rep_balance db owner b =
      b.owner == owner
      && not (count_where (λ t. t.contract_address == b.token && is_rep t.symbol) db.tokens == 0)

  abbrev pub insert_if : Bool → MarketRow N → Action N (Unit {0})
  insert_if is_new row =
      if is_new
      then modify (λ db. record db { markets = insert_row row db.markets })
      else throw market_already_exists

  -- The row of a market; its id is the table's key.
  abbrev pub insert_market : MarketRow N → Action N (Unit {0})
  insert_market row = do
    found ← gets (λ db. count_where (is_market row.market_id) db.markets)
    insert_if (found == 0) row

  unfoldable pub outcome_rows : ℕ → N → N → List ℕ → List (OutcomeRow N)
  outcome_rows market_id price no_volume [] = []
  outcome_rows market_id price no_volume (outcome ∷ rest) =
      record {
        market_id = market_id;
        outcome = outcome;
        price = price;
        volume = no_volume;
        share_volume = no_volume;
      }
      ∷ outcome_rows market_id price no_volume rest

  unfoldable pub share_token_rows : Chain N → ℕ → List ℕ → List TokenRow
  share_token_rows chain market_id [] = []
  share_token_rows chain market_id (outcome ∷ rest) =
      record {
        contract_address = chain.share_token market_id outcome;
        market_id = some market_id;
        outcome = outcome;
        fee_window = none;
        symbol = shares;
      }
      ∷ share_token_rows chain market_id rest

  unfoldable pub supply_rows : N → List TokenRow → List (SupplyRow N)
  supply_rows supply [] = []
  supply_rows supply (t ∷ rest) =
      record { token = t.contract_address; supply = supply } ∷ supply_rows supply rest

  abbrev pub delete_states : ℕ → Db N → Db N
  delete_states market_id db = record db {
    market_states = delete_where (λ r. r.market_id == market_id) db.market_states;
  }

  abbrev pub delete_markets : ℕ → Db N → Db N
  delete_markets market_id db = record db {
    markets = delete_where (is_market market_id) db.markets;
  }

  abbrev pub delete_outcomes : ℕ → Db N → Db N
  delete_outcomes market_id db = record db {
    outcomes = delete_where (λ r. r.market_id == market_id) db.outcomes;
    token_supply =
        delete_where
          (λ s. is_among s.token (addresses_of (select_where (is_token_of market_id) db.tokens)))
          db.token_supply;
    tokens = delete_where (is_token_of market_id) db.tokens;
  }

  abbrev pub delete_bond : ℕ → ℕ → Db N → Db N
  delete_bond ether market_id db = record db {
    transfers =
        delete_where (λ r. is_bond_transfer ether market_id r.recipient r.token) db.transfers;
  }

  -- `ether` is the constant `ETHER`.
  unfoldable pub process_market_created_log_removal : ℕ → FormattedEventLog N → Action N (Unit {0})
  process_market_created_log_removal ether log = do
    modify (delete_markets log.market)
    modify (delete_outcomes log.market)
    modify (delete_states log.market)
    modify (delete_bond ether log.market)
    emit (log_event market_created log.transaction_hash log.log_index)

module _ (bn : BigNumber) where
  open bn use {Num, zero_bn, one_bn, plus, divided_by}

  -- `new BigNumber(n, 10)`
  unfoldable pub new_big_number : ℕ → Num
  new_big_number zero = zero_bn
  new_big_number (suc n) = plus (new_big_number n) one_bn

  abbrev pub market_row : Chain Num → FormattedEventLog Num → ℕ → MarketRow Num
  market_row chain log market_state_id = record {
    market_id = log.market;
    universe = log.universe;
    min_price = log.min_price;
    max_price = log.max_price;
    num_ticks = chain.num_ticks log.market;
    market_state_id = some market_state_id;
    fee_window = chain.market_fee_window log.market;
    end_time = chain.market_end_time log.market;
    initial_report_size = none;
    finalization_block_number = none;
    forking = 0;
    needs_migration = pos 0;
    needs_disavowal = pos 0;
    dispute_rounds = none;
    market_creator_mailbox = chain.market_creator_mailbox log.market;
    market_creator_mailbox_owner = log.market_creator;
    market_creator_fees_balance = zero_bn;
    category = some (chain.to_upper_case log.topic);
    open_interest = zero_bn;
    volume = zero_bn;
    share_volume = zero_bn;
    shares_outstanding = zero_bn;
    last_trade_block_number = none;
  }

  abbrev pub initial_price : FormattedEventLog Num → Num
  initial_price log =
      divided_by (plus log.min_price log.max_price) (new_big_number (num_outcomes log))

  -- The rows of the outcomes, of their share tokens and of the validity bond.
  abbrev pub insert_outcomes : ℕ → Chain Num → FormattedEventLog Num → Db Num → Db Num
  insert_outcomes ether chain log db =
      let numbers = outcomes_from 0 (num_outcomes log) in
      let token_rows = share_token_rows chain log.market numbers in
      record db {
        outcomes = db.outcomes ++ outcome_rows log.market (initial_price log) zero_bn numbers;
        tokens = db.tokens ++ token_rows;
        token_supply = db.token_supply ++ supply_rows zero_bn token_rows;
        transfers =
            insert_row
              (record {
                transaction_hash = log.transaction_hash;
                log_index = log.log_index;
                sender = some log.market_creator;
                recipient = some log.market;
                value = chain.validity_bond_attoeth log.market;
                block_number = log.block_number;
                token = ether;
              })
              db.transfers;
      }

  -- What follows the insertion of the market.
  abbrev pub create_outcomes : ℕ → Chain Num → FormattedEventLog Num → Action Num (Unit {0})
  create_outcomes ether chain log = do
    modify (insert_outcomes ether chain log)
    emit (log_event market_created log.transaction_hash log.log_index)
    create_category_if_not_exists bn log.universe (chain.to_upper_case log.topic)

  -- What follows the look at the stake of the designated reporter.
  abbrev pub create_market : ℕ → Chain Num → FormattedEventLog Num → Action Num (Unit {0})
  create_market ether chain log = do
    market_state_id ← gets (λ db. db.next_market_state_id)
    modify (insert_market_state log.market log.block_number pre_reporting)
    insert_market (market_row chain log market_state_id)
    create_outcomes ether chain log

  unfoldable pub process_market_created_log :
      ℕ → Chain Num → FormattedEventLog Num → Action Num (Unit {0})
  process_market_created_log ether chain log = do
    stake ← gets (λ db. first_where (is_rep_balance db log.market) db.balances)
    row ← or_throw stake rep_balance_not_found
    create_market ether chain log
