-- ===== src/Tokens/Transfers.antt =====
-- When a transfer throws (src/blockchain/log-processors/tokens-transferred.ts).
use augur_node.Prelude.{
  ℕ, ◌≡◌, refl, ap, ◌∙◌, false, ◌||◌, Option, none, some, ◌==◌, if◌then◌else◌, Bool-cases, inl, inr,
  ok,
}
use augur_node.Prelude.Tables.{first_where}
use augur_node.BigNumber.{BigNumber, is_zero}
use augur_node.Database.{BalanceRow, after_ok, emit, ◌>>◌, log_event, tokens_transferred}
use augur_node.Tokens.Balances.{
  IsNonneg, taking, increased, decreased, legacy_raised, legacy_lowered, taken_after,
}
use augur_node.Tokens.{
  TokenLog, W, token_of, value_of, is_balance_of, process_tokens_transferred_log, is_transfer,
  add_transfer, insert_transfer, increase_token_balance, decrease_token_balance,
}

module _ (bn : BigNumber) where
  open bn use {Num, zero_bn, lt}

  inserted :
      (log : TokenLog Num) (s r : Option ℕ) (v : Num) (w : W bn)
      → first_where (is_transfer log.transaction_hash log.log_index) w.db.transfers ≡ none
      → lt v zero_bn ≡ false
      → insert_transfer bn log s r v w ≡ (ok tt, record w { db = add_transfer bn log s r v w.db })
  unfolding insert_transfer
  inserted log s r v w h k = rw h (rw k refl)

  -- A transfer that is not in the table of transfers yet, of a value that is not negative, to a
  -- recipient whose balance is not negative, returns if its token is the legacy one, if it moves
  -- nothing or if the sender is the recipient. Otherwise it throws that the balance was not found
  -- where the sender has no row for the token, it throws the failed check of the table where the
  -- sender's balance is less than the value, and it returns where it is not.
  pub process_tokens_transferred_log_lem :
      (legacy : ℕ) (log : TokenLog Num) (w : W bn)
      → first_where (is_transfer log.transaction_hash log.log_index) w.db.transfers ≡ none
      → lt (value_of log) zero_bn ≡ false
      → IsNonneg bn (first_where (is_balance_of (token_of log) log.to_address) w.db.balances)
      → (process_tokens_transferred_log bn legacy log w).0 ≡ (
          if (token_of log == legacy)
            || (is_zero bn (value_of log) || (log.to_address == log.from_address))
          then ok tt
          else taking bn
              (value_of log)
              (first_where (is_balance_of (token_of log) log.from_address) w.db.balances))
  unfolding process_tokens_transferred_log
  process_tokens_transferred_log_lem legacy log w fresh v n =
      ap (λ r. r.0)
        (after_ok (insert_transfer bn log (some log.from_address) (some log.to_address) value)
          (λ u.
            emit (log_event tokens_transferred log.transaction_hash log.log_index)
            >> increase_token_balance bn legacy token log.to_address value
            >> decrease_token_balance bn legacy token log.from_address value)
          w (inserted log (some log.from_address) (some log.to_address) value w fresh v))
      ∙ elim (Bool-cases (token == legacy)) [
        | inl e ↦ rw e (
            ap (λ r. r.0)
              (after_ok (increase_token_balance bn legacy token log.to_address value)
                (λ u. decrease_token_balance bn legacy token log.from_address value) _
                (legacy_raised bn legacy token log.to_address value _ e))
            ∙ ap (λ r. r.0) (legacy_lowered bn legacy token log.from_address value _ e))
        | inr e ↦ rw e (
            ap (λ r. r.0)
              (after_ok (increase_token_balance bn legacy token log.to_address value)
                (λ u. decrease_token_balance bn legacy token log.from_address value) _
                (increased bn legacy token log.to_address value _ found e refl v n))
            ∙ decreased bn legacy token log.from_address value _ e
            ∙ taken_after bn token log.from_address log.to_address value w.db.balances found refl n)
      ]
    where
      token : ℕ
      token = token_of log

      value : Num
      value = value_of log

      found : Option (BalanceRow Num)
      found = first_where (is_balance_of (token_of log) log.to_address) w.db.balances
