-- ===== src/Tokens.antt =====
-- Token logs: mint, burn, transfer and approval, each with its removal
-- (src/blockchain/log-processors/token/*.ts and tokens-transferred.ts).
pub mod Ledger
pub mod Shifts
pub mod Writes
pub mod Effects
pub mod Totals
pub mod Balances
pub mod Transfers
pub mod Rollback
pub mod Keeping
mod Tests
use augur_node.Prelude.{ℕ, Bool, true, false, ◌&&◌, Option, none, some, List, ◌==◌, if◌then◌else◌}
use augur_node.Prelude.Tables.{first_where, update_where, delete_where, insert_row}
use augur_node.BigNumber.{BigNumber, is_zero}
use augur_node.Database.{
  Db, World, Action, Error, BalanceRow, SupplyRow, TransferRow, ApprovalRow, balance_not_found,
  check_failed, not_unique, supply_not_found, pure, throw, gets, modify, emit, log_event, EventName,
  tokens_burned, burn, tokens_transferred, approval, ◌>>=◌, ◌>>◌,
}

-- A log states its number under `amount`, under `value`, or under both.
pub data LogNumeral (N : Type 0) : Type 0 where
  only_amount : N → LogNumeral N
  only_value : N → LogNumeral N
  amount_and_value : N → N → LogNumeral N

-- The fields of a mint, burn or transfer log. Its numerals are read as numbers. `from_address` and
-- `to_address` are `log.from` and `log.to` of a transfer; `target` is that of a mint or a burn.
pub record TokenLog (N : Type 0) : Type 0 where
  pub transaction_hash : ℕ
  pub log_index : ℕ
  pub block_number : ℕ
  pub address : ℕ
  pub token : Option ℕ
  pub numeral : LogNumeral N
  pub target : ℕ
  pub from_address : ℕ
  pub to_address : ℕ
  pub event_name : EventName

pub record ApprovalLog (N : Type 0) : Type 0 where
  pub transaction_hash : ℕ
  pub log_index : ℕ
  pub block_number : ℕ
  pub address : ℕ
  pub owner : ℕ
  pub spender : ℕ
  pub value : N
  pub event_name : EventName

-- `log.token || log.address`
abbrev pub or_else : {A : Type 0} → Option A → A → A
or_else none b = b
or_else (some a) b = a

abbrev pub token_of : {N : Type 0} → TokenLog N → ℕ
token_of log = or_else log.token log.address

-- `log.amount || log.value`, in a mint or a burn
abbrev pub numeral_amount : {N : Type 0} → LogNumeral N → N
numeral_amount (only_amount a) = a
numeral_amount (only_value v) = v
numeral_amount (amount_and_value a v) = a

abbrev pub amount_of : {N : Type 0} → TokenLog N → N
amount_of log = numeral_amount log.numeral

-- `log.value || log.amount`, in a transfer
abbrev pub numeral_value : {N : Type 0} → LogNumeral N → N
numeral_value (only_amount a) = a
numeral_value (only_value v) = v
numeral_value (amount_and_value a v) = v

abbrev pub value_of : {N : Type 0} → TokenLog N → N
value_of log = numeral_value log.numeral

abbrev pub is_balance_of : {N : Type 0} → ℕ → ℕ → BalanceRow N → Bool
is_balance_of token owner r = r.token == token && r.owner == owner

abbrev pub is_transfer : {N : Type 0} → ℕ → ℕ → TransferRow N → Bool
is_transfer transaction_hash log_index r =
    r.transaction_hash == transaction_hash && r.log_index == log_index

abbrev pub is_supply_of : {N : Type 0} → ℕ → SupplyRow N → Bool
is_supply_of token r = r.token == token

abbrev pub set_balance : {N : Type 0} → N → BalanceRow N → BalanceRow N
set_balance b r = record r { balance = b }

abbrev pub set_supply : {N : Type 0} → N → SupplyRow N → SupplyRow N
set_supply s r = record r { supply = s }

module _ (bn : BigNumber) where
  open bn use {Num, zero_bn, plus, minus, lt}

  abbrev pub W : Type 0
  W = World Num

  abbrev pub Do : Type 0
  Do = Action Num (Unit {0})

  -- `legacy` is the address `LegacyReputationToken` of the network.
  pub is_legacy_reputation_token : ℕ → ℕ → Bool
  is_legacy_reputation_token legacy token = token == legacy

  abbrev pub update_balance : ℕ → ℕ → Num → Do
  update_balance token owner b = modify (λ db. record db {
    balances = update_where (is_balance_of token owner) (set_balance b) db.balances;
  })

  -- A row of `balances` is written under its CHECK nonnegativeBalance.
  abbrev pub write_balance : Num → Do → Do
  write_balance b write = if lt b zero_bn then throw check_failed else write

  -- What is done with the row that was read.
  abbrev pub raise_balance : ℕ → ℕ → Num → Option (BalanceRow Num) → Do
  raise_balance token owner amount none = write_balance amount (
      modify (λ db. record db {
        balances =
            insert_row (record { token = token; owner = owner; balance = amount }) db.balances;
      }))
  raise_balance token owner amount (some r) =
      write_balance (plus r.balance amount) (update_balance token owner (plus r.balance amount))

  abbrev pub lower_balance : ℕ → ℕ → Num → Option (BalanceRow Num) → Do
  lower_balance token owner amount none = throw balance_not_found
  lower_balance token owner amount (some r) =
      write_balance (minus r.balance amount) (update_balance token owner (minus r.balance amount))

  pub increase_token_balance : ℕ → ℕ → ℕ → Num → Do
  unfolding is_legacy_reputation_token
  increase_token_balance legacy token owner amount =
      if is_legacy_reputation_token legacy token then pure tt else (do
        old ← gets (λ db. first_where (is_balance_of token owner) db.balances)
        raise_balance token owner amount old)

  pub decrease_token_balance : ℕ → ℕ → ℕ → Num → Do
  unfolding is_legacy_reputation_token
  decrease_token_balance legacy token owner amount =
      if is_legacy_reputation_token legacy token then pure tt else (do
        old ← gets (λ db. first_where (is_balance_of token owner) db.balances)
        (if is_zero bn amount then pure tt else lower_balance token owner amount old))

  abbrev pub update_supply : ℕ → Num → Do
  update_supply token s = modify (λ db. record db {
    token_supply = update_where (is_supply_of token) (set_supply s) db.token_supply;
  })

  abbrev pub raise_supply : ℕ → Num → Option (SupplyRow Num) → Do
  raise_supply token amount none = modify (λ db. record db {
    token_supply = insert_row (record { token = token; supply = amount }) db.token_supply;
  })
  raise_supply token amount (some r) = update_supply token (plus r.supply amount)

  abbrev pub lower_supply : ℕ → Num → Option (SupplyRow Num) → Do
  lower_supply token amount none = throw supply_not_found
  lower_supply token amount (some r) = update_supply token (minus r.supply amount)

  pub increase_token_supply : ℕ → Num → Do
  increase_token_supply token amount = do
    old ← gets (λ db. first_where (is_supply_of token) db.token_supply)
    raise_supply token amount old

  pub decrease_token_supply : ℕ → Num → Do
  decrease_token_supply token amount = do
    old ← gets (λ db. first_where (is_supply_of token) db.token_supply)
    (if is_zero bn amount then pure tt else lower_supply token amount old)

  -- A row of `transfers` is written under its UNIQUE, with the row that there may be for its log, and
  -- under its CHECK positiveValue.
  abbrev pub write_transfer : Num → Option (TransferRow Num) → Do → Do
  write_transfer value none write = if lt value zero_bn then throw check_failed else write
  write_transfer value (some r) write = throw not_unique

  abbrev pub add_transfer : TokenLog Num → Option ℕ → Option ℕ → Num → Db Num → Db Num
  add_transfer log sender recipient value db = record db {
    transfers =
        insert_row
          (record {
            transaction_hash = log.transaction_hash;
            log_index = log.log_index;
            sender = sender;
            recipient = recipient;
            value = value;
            block_number = log.block_number;
            token = token_of log;
          })
          db.transfers;
  }

  pub insert_transfer : TokenLog Num → Option ℕ → Option ℕ → Num → Do
  insert_transfer log sender recipient value = do
    present ← gets (λ db. first_where (is_transfer log.transaction_hash log.log_index) db.transfers)
    write_transfer value present (modify (add_transfer log sender recipient value))

  pub delete_transfer : ℕ → ℕ → Do
  delete_transfer transaction_hash log_index = modify (λ db. record db {
    transfers = delete_where (is_transfer transaction_hash log_index) db.transfers;
  })

  -- `updateProfitLossRemoveRow`
  unfoldable pub update_profit_loss_remove_row : ℕ → Do
  update_profit_loss_remove_row transaction_hash = modify (λ db. record db {
    profit_loss = delete_where (λ r. r.transaction_hash == transaction_hash) db.profit_loss;
  })

  pub process_mint_log : ℕ → TokenLog Num → Do
  process_mint_log legacy log = do
    insert_transfer log none (some log.target) (amount_of log)
    increase_token_supply (token_of log) (amount_of log)
    increase_token_balance legacy (token_of log) log.target (amount_of log)

  pub process_mint_log_removal : ℕ → TokenLog Num → Do
  process_mint_log_removal legacy log = do
    delete_transfer log.transaction_hash log.log_index
    decrease_token_supply (token_of log) (amount_of log)
    decrease_token_balance legacy (token_of log) log.target (amount_of log)
    update_profit_loss_remove_row log.transaction_hash

  pub process_burn_log : ℕ → TokenLog Num → Do
  process_burn_log legacy log = do
    emit (log_event log.event_name log.transaction_hash log.log_index)
    insert_transfer log (some log.target) none (amount_of log)
    decrease_token_supply (token_of log) (amount_of log)
    decrease_token_balance legacy (token_of log) log.target (amount_of log)

  pub process_burn_log_removal : ℕ → TokenLog Num → Do
  process_burn_log_removal legacy log = do
    emit (log_event log.event_name log.transaction_hash log.log_index)
    delete_transfer log.transaction_hash log.log_index
    increase_token_supply (token_of log) (amount_of log)
    increase_token_balance legacy (token_of log) log.target (amount_of log)
    update_profit_loss_remove_row log.transaction_hash

  pub process_tokens_transferred_log : ℕ → TokenLog Num → Do
  process_tokens_transferred_log legacy log = do
    insert_transfer log (some log.from_address) (some log.to_address) (value_of log)
    emit (log_event tokens_transferred log.transaction_hash log.log_index)
    increase_token_balance legacy (token_of log) log.to_address (value_of log)
    decrease_token_balance legacy (token_of log) log.from_address (value_of log)

  pub process_tokens_transferred_log_removal : ℕ → TokenLog Num → Do
  process_tokens_transferred_log_removal legacy log = do
    delete_transfer log.transaction_hash log.log_index
    emit (log_event tokens_transferred log.transaction_hash log.log_index)
    increase_token_balance legacy (token_of log) log.from_address (value_of log)
    decrease_token_balance legacy (token_of log) log.to_address (value_of log)
    update_profit_loss_remove_row log.transaction_hash

  pub process_approval_log : ApprovalLog Num → Do
  process_approval_log log = do
    emit (log_event log.event_name log.transaction_hash log.log_index)
    modify (λ db. record db {
      approvals =
          insert_row
            (record {
              transaction_hash = log.transaction_hash;
              log_index = log.log_index;
              owner = log.owner;
              spender = log.spender;
              token = log.address;
              value = log.value;
              block_number = log.block_number;
            })
            db.approvals;
    })

  pub process_approval_log_removal : ApprovalLog Num → Do
  process_approval_log_removal log = do
    emit (log_event log.event_name log.transaction_hash log.log_index)
    modify (λ db. record db {
      approvals =
          delete_where
            (λ r. r.transaction_hash == log.transaction_hash && r.log_index == log.log_index)
            db.approvals;
    })
