-- ===== src/Tokens/Tests.antt =====
-- The token logs at concrete states.
use augur_node.Prelude.{◌==◌, ◌||◌, if◌then◌else◌, ℕ, ◌≡◌, ◌≢◌, refl, none, [], ok, arith}
use augur_node.Prelude.Int.{ℤ, pos, ◌+ℤ◌, ◌-ℤ◌}
use augur_node.Prelude.Tables.{first_where, insert_row, update_where}
use augur_node.BigNumber.{is_zero, integers}
use augur_node.Database.{World, empty_db, tokens_transferred, tokens_burned}
use augur_node.Tokens.{
  is_balance_of, is_transfer, TokenLog, only_amount, only_value, process_mint_log,
  process_tokens_transferred_log, process_tokens_transferred_log_removal, insert_transfer,
  increase_token_supply, increase_token_balance, decrease_token_balance, is_legacy_reputation_token,
  delete_transfer, update_profit_loss_remove_row,
}
use augur_node.Tokens.Ledger.{total}
use augur_node.Tokens.Totals.{
  ProcessedAll, done, step, minted, transferred, IsBacked, ProcessedAll-IsBacked,
}
use augur_node.Tokens.Balances.{IsNonneg, taking}
use augur_node.Tokens.Transfers.{process_tokens_transferred_log_lem}
use augur_node.Tokens.Rollback.{transfer_undone, SameLedger, Undone-SameLedger}

abbrev start : World ℤ
start = record { db = empty_db; emitted = []; override_timestamps = []; block_head_timestamp = 0 }

-- Ten tokens for owner 1, of which four go to owner 2.
abbrev mint_ten : TokenLog ℤ
mint_ten = record {
  transaction_hash = 1;
  log_index = 0;
  block_number = 100;
  address = 50;
  token = none;
  numeral = only_amount (pos 10);
  target = 1;
  from_address = 0;
  to_address = 0;
  event_name = tokens_burned;
}

abbrev send_four : TokenLog ℤ
send_four = record {
  transaction_hash = 2;
  log_index = 0;
  block_number = 101;
  address = 50;
  token = none;
  numeral = only_value (pos 4);
  target = 0;
  from_address = 1;
  to_address = 2;
  event_name = tokens_transferred;
}

abbrev after_mint : World ℤ
after_mint = (process_mint_log integers 99 mint_ten start).1

abbrev after_transfer : World ℤ
after_transfer = (process_tokens_transferred_log integers 99 send_four after_mint).1

abbrev after_removal : World ℤ
after_removal = (process_tokens_transferred_log_removal integers 99 send_four after_transfer).1

mint_returns : process_mint_log integers 99 mint_ten start ≡ (ok tt, after_mint)
unfolding process_mint_log insert_transfer increase_token_supply increase_token_balance
    is_legacy_reputation_token first_where insert_row
mint_returns = refl

transfer_returns :
    process_tokens_transferred_log integers 99 send_four after_mint ≡ (ok tt, after_transfer)
unfolding process_mint_log process_tokens_transferred_log insert_transfer increase_token_supply
    increase_token_balance decrease_token_balance is_legacy_reputation_token first_where insert_row
    update_where ◌-ℤ◌
transfer_returns = refl

removal_returns :
    process_tokens_transferred_log_removal integers 99 send_four after_transfer
    ≡ (ok tt, after_removal)
unfolding process_mint_log process_tokens_transferred_log process_tokens_transferred_log_removal
    insert_transfer delete_transfer update_profit_loss_remove_row increase_token_supply
    increase_token_balance decrease_token_balance is_legacy_reputation_token first_where insert_row
    update_where ◌-ℤ◌ ◌+ℤ◌
removal_returns = refl

empty-IsBacked : IsBacked integers 99 50 empty_db
unfolding first_where total
empty-IsBacked = (tt, refl)

abbrev mint_then_transfer : ProcessedAll integers 99 start after_transfer
mint_then_transfer =
    step (minted mint_ten mint_returns) (step (transferred send_four transfer_returns) done)

not_legacy : ◌≢◌ {A = ℕ} 50 99
not_legacy h = omega (arith, h)

ProcessedAll-IsBacked_example : IsBacked integers 99 50 after_transfer.db
ProcessedAll-IsBacked_example =
    ProcessedAll-IsBacked integers 99 50 not_legacy mint_then_transfer empty-IsBacked

after_mint-IsBacked : IsBacked integers 99 50 after_mint.db
after_mint-IsBacked =
    (ProcessedAll-IsBacked integers 99 50 not_legacy (step (minted mint_ten mint_returns) done)
      empty-IsBacked)

Undone-SameLedger_example : SameLedger integers 99 50 1 after_mint.db after_removal.db
Undone-SameLedger_example =
    Undone-SameLedger integers 99 50 1 not_legacy
      (transfer_undone send_four transfer_returns removal_returns) after_mint-IsBacked.0

no_transfer : first_where (is_transfer 2 0) after_mint.db.transfers ≡ none
unfolding process_mint_log insert_transfer increase_token_supply increase_token_balance
    is_legacy_reputation_token first_where insert_row
no_transfer = refl

no_balance-IsNonneg : IsNonneg integers (first_where (is_balance_of 50 2) after_mint.db.balances)
unfolding process_mint_log insert_transfer increase_token_supply increase_token_balance
    is_legacy_reputation_token first_where insert_row
no_balance-IsNonneg = tt

-- The sender has a row.
process_tokens_transferred_log_lem_example :
    (process_tokens_transferred_log integers 99 send_four after_mint).0 ≡ (
      if (50 == 99) || (is_zero integers (pos 4) || (2 == 1))
      then ok tt
      else taking integers (pos 4) (first_where (is_balance_of 50 1) after_mint.db.balances))
process_tokens_transferred_log_lem_example =
    process_tokens_transferred_log_lem integers 99 send_four after_mint no_transfer refl
      no_balance-IsNonneg
