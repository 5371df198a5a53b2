-- ===== src/Tokens/Keeping.antt =====
-- Token logs keep every market naming the latest state of its history: they write neither of the two
-- tables.
use augur_node.Prelude.{ℕ, Option, none, some, [], ◌∷◌, ◌==◌, if◌then◌else◌}
use augur_node.Prelude.Tables.{first_where, insert_row}
use augur_node.BigNumber.{BigNumber, is_zero}
use augur_node.Database.{
  BalanceRow, SupplyRow, TransferRow, emit, pure, gets, modify, throw, check_failed, ◌>>=◌,
  log_event, tokens_transferred,
}
use augur_node.MarketStates.Keeping.{Keeps, if-Keeps, sequence-Keeps}
use augur_node.Tokens.{
  TokenLog, ApprovalLog, token_of, amount_of, value_of, is_balance_of, is_supply_of,
  is_legacy_reputation_token, update_balance, raise_balance, lower_balance, raise_supply,
  lower_supply, increase_token_balance, decrease_token_balance, increase_token_supply,
  decrease_token_supply, is_transfer, write_transfer, add_transfer, insert_transfer,
  delete_transfer, update_profit_loss_remove_row, process_mint_log, process_mint_log_removal,
  process_burn_log, process_burn_log_removal, process_tokens_transferred_log,
  process_tokens_transferred_log_removal, process_approval_log, process_approval_log_removal,
}

module _ (bn : BigNumber) where
  open bn use {Num, zero_bn, plus, minus, lt}

  raise_balance-Keeps :
      (t o : ℕ) (a : Num) (row : Option (BalanceRow Num)) → Keeps (raise_balance bn t o a row)
  raise_balance-Keeps t o a none =
      if-Keeps (lt a zero_bn) (throw check_failed)
        (modify (λ db. record db {
          balances = insert_row (record { token = t; owner = o; balance = a }) db.balances;
        }))
        (λ w v. v) (λ w v. v)
  raise_balance-Keeps t o a (some r) =
      if-Keeps (lt (plus r.balance a) zero_bn) (throw check_failed)
        (update_balance bn t o (plus r.balance a)) (λ w v. v) (λ w v. v)

  lower_balance-Keeps :
      (t o : ℕ) (a : Num) (row : Option (BalanceRow Num)) → Keeps (lower_balance bn t o a row)
  lower_balance-Keeps t o a none = λ w v. v
  lower_balance-Keeps t o a (some r) =
      if-Keeps (lt (minus r.balance a) zero_bn) (throw check_failed)
        (update_balance bn t o (minus r.balance a)) (λ w v. v) (λ w v. v)

  raise_supply-Keeps :
      (t : ℕ) (a : Num) (row : Option (SupplyRow Num)) → Keeps (raise_supply bn t a row)
  raise_supply-Keeps t a none = λ w v. v
  raise_supply-Keeps t a (some r) = λ w v. v

  lower_supply-Keeps :
      (t : ℕ) (a : Num) (row : Option (SupplyRow Num)) → Keeps (lower_supply bn t a row)
  lower_supply-Keeps t a none = λ w v. v
  lower_supply-Keeps t a (some r) = λ w v. v

  increase_balance-Keeps :
      (legacy t o : ℕ) (a : Num) → Keeps (increase_token_balance bn legacy t o a)
  unfolding increase_token_balance is_legacy_reputation_token
  increase_balance-Keeps legacy t o a =
      if-Keeps (t == legacy) (pure tt)
        (gets (λ db. first_where (is_balance_of t o) db.balances) >>= raise_balance bn t o a)
        (λ w v. v) (λ w v. raise_balance-Keeps t o a _ w v)

  decrease_balance-Keeps :
      (legacy t o : ℕ) (a : Num) → Keeps (decrease_token_balance bn legacy t o a)
  unfolding decrease_token_balance is_legacy_reputation_token
  decrease_balance-Keeps legacy t o a =
      if-Keeps (t == legacy) (pure tt)
        (gets (λ db. first_where (is_balance_of t o) db.balances)
          >>= (λ old. if is_zero bn a then pure tt else lower_balance bn t o a old))
        (λ w v. v)
        (λ w v.
          if-Keeps (is_zero bn a) (pure tt)
            (lower_balance bn t o a (first_where (is_balance_of t o) w.db.balances)) (λ w' v'. v')
            (lower_balance-Keeps t o a _) w v)

  write_transfer-Keeps :
      (log : TokenLog Num) (s r : Option ℕ) (a : Num) (present : Option (TransferRow Num))
      → Keeps (write_transfer bn a present (modify (add_transfer bn log s r a)))
  write_transfer-Keeps log s r a none =
      if-Keeps (lt a zero_bn) (throw check_failed) (modify (add_transfer bn log s r a)) (λ w v. v)
        (λ w v. v)
  write_transfer-Keeps log s r a (some x) = λ w v. v

  insert_transfer-Keeps :
      (log : TokenLog Num) (s r : Option ℕ) (a : Num) → Keeps (insert_transfer bn log s r a)
  unfolding insert_transfer
  insert_transfer-Keeps log s r a w v =
      write_transfer-Keeps log s r a
        (first_where (is_transfer log.transaction_hash log.log_index) w.db.transfers) w v

  increase_supply-Keeps : (t : ℕ) (a : Num) → Keeps (increase_token_supply bn t a)
  unfolding increase_token_supply
  increase_supply-Keeps t a w v =
      raise_supply-Keeps t a (first_where (is_supply_of t) w.db.token_supply) w v

  decrease_supply-Keeps : (t : ℕ) (a : Num) → Keeps (decrease_token_supply bn t a)
  unfolding decrease_token_supply
  decrease_supply-Keeps t a w v =
      if-Keeps (is_zero bn a) (pure tt)
        (lower_supply bn t a (first_where (is_supply_of t) w.db.token_supply)) (λ w' v'. v')
        (lower_supply-Keeps t a _) w v

  module _ (legacy : ℕ) (log : TokenLog Num) where
    abbrev token : ℕ
    token = token_of log

    abbrev amount : Num
    amount = amount_of log

    abbrev value : Num
    value = value_of log

    pub mint-Keeps : Keeps (process_mint_log bn legacy log)
    unfolding process_mint_log
    mint-Keeps =
        sequence-Keeps
          (insert_transfer bn log none (some log.target) amount
            ∷ increase_token_supply bn token amount
            ∷ increase_token_balance bn legacy token log.target amount
            ∷ [])
          (
            insert_transfer-Keeps log none (some log.target) amount,
            (increase_supply-Keeps token amount, increase_balance-Keeps legacy token _ amount),
          )

    pub mint_removal-Keeps : Keeps (process_mint_log_removal bn legacy log)
    unfolding process_mint_log_removal delete_transfer update_profit_loss_remove_row
    mint_removal-Keeps =
        sequence-Keeps
          (delete_transfer bn log.transaction_hash log.log_index
            ∷ decrease_token_supply bn token amount
            ∷ decrease_token_balance bn legacy token log.target amount
            ∷ update_profit_loss_remove_row bn log.transaction_hash
            ∷ [])
          (
            (λ w v. v),
            (
              decrease_supply-Keeps token amount,
              (decrease_balance-Keeps legacy token _ amount, λ w v. v),
            ),
          )

    pub burn-Keeps : Keeps (process_burn_log bn legacy log)
    unfolding process_burn_log
    burn-Keeps =
        sequence-Keeps
          (emit (log_event log.event_name log.transaction_hash log.log_index)
            ∷ insert_transfer bn log (some log.target) none amount
            ∷ decrease_token_supply bn token amount
            ∷ decrease_token_balance bn legacy token log.target amount
            ∷ [])
          (
            (λ w v. v),
            (
              insert_transfer-Keeps log (some log.target) none amount,
              (decrease_supply-Keeps token amount, decrease_balance-Keeps legacy token _ amount),
            ),
          )

    pub burn_removal-Keeps : Keeps (process_burn_log_removal bn legacy log)
    unfolding process_burn_log_removal delete_transfer update_profit_loss_remove_row
    burn_removal-Keeps =
        sequence-Keeps
          (emit (log_event log.event_name log.transaction_hash log.log_index)
            ∷ delete_transfer bn log.transaction_hash log.log_index
            ∷ increase_token_supply bn token amount
            ∷ increase_token_balance bn legacy token log.target amount
            ∷ update_profit_loss_remove_row bn log.transaction_hash
            ∷ [])
          (
            (λ w v. v),
            (
              (λ w v. v),
              (
                increase_supply-Keeps token amount,
                (increase_balance-Keeps legacy token _ amount, λ w v. v),
              ),
            ),
          )

    pub transferred-Keeps : Keeps (process_tokens_transferred_log bn legacy log)
    unfolding process_tokens_transferred_log
    transferred-Keeps =
        sequence-Keeps
          (insert_transfer bn log (some log.from_address) (some log.to_address) value
            ∷ emit (log_event tokens_transferred log.transaction_hash log.log_index)
            ∷ increase_token_balance bn legacy token log.to_address value
            ∷ decrease_token_balance bn legacy token log.from_address value
            ∷ [])
          (
            insert_transfer-Keeps log (some log.from_address) (some log.to_address) value,
            (
              (λ w v. v),
              (
                increase_balance-Keeps legacy token _ value,
                decrease_balance-Keeps legacy token _ value,
              ),
            ),
          )

    pub transferred_removal-Keeps : Keeps (process_tokens_transferred_log_removal bn legacy log)
    unfolding process_tokens_transferred_log_removal delete_transfer update_profit_loss_remove_row
    transferred_removal-Keeps =
        sequence-Keeps
          (delete_transfer bn log.transaction_hash log.log_index
            ∷ emit (log_event tokens_transferred log.transaction_hash log.log_index)
            ∷ increase_token_balance bn legacy token log.from_address value
            ∷ decrease_token_balance bn legacy token log.to_address value
            ∷ update_profit_loss_remove_row bn log.transaction_hash
            ∷ [])
          (
            (λ w v. v),
            (
              (λ w v. v),
              (
                increase_balance-Keeps legacy token _ value,
                (decrease_balance-Keeps legacy token _ value, λ w v. v),
              ),
            ),
          )

  pub approval-Keeps : (log : ApprovalLog Num) → Keeps (process_approval_log bn log)
  unfolding process_approval_log
  approval-Keeps log w v = v

  pub approval_removal-Keeps : (log : ApprovalLog Num) → Keeps (process_approval_log_removal bn log)
  unfolding process_approval_log_removal
  approval_removal-Keeps log w v = v
