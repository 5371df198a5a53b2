-- ===== src/Tokens/Effects.antt =====
-- What each token log, and each removal of one, does to the ledger
-- (src/blockchain/log-processors/token/*.ts, tokens-transferred.ts).
use augur_node.Prelude.{
  ap, inl, inr, Bool-cases, Option-cases, ℕ, Option, refl, ◌≡◌, Bool, true, false, if◌then◌else◌,
  ◌==◌,
}
use augur_node.Prelude.Tables.{first_where}
use augur_node.BigNumber.{BigNumber}
use augur_node.Database.{◌>>◌, emit}
use augur_node.Tokens.{
  TokenLog, Do, token_of, amount_of, value_of, process_mint_log, process_mint_log_removal,
  process_burn_log, process_burn_log_removal, process_tokens_transferred_log,
  process_tokens_transferred_log_removal, is_transfer, add_transfer, insert_transfer,
  delete_transfer, update_profit_loss_remove_row, increase_token_supply, decrease_token_supply,
  increase_token_balance, decrease_token_balance,
}
use augur_node.Tokens.Ledger as L
use augur_node.Tokens.Shifts as S
use augur_node.Tokens.Writes as Wr

module _ (bn : BigNumber) (legacy : ℕ) where
  open bn use {lt, Num, zero_bn, plus, negated, plus_comm, plus-zero_bn, plus-negated}

  abbrev Quiet : Do bn → Type 0
  Quiet m =
      Wr.Does bn legacy (Wr.nothing bn legacy) (Wr.nothing_at bn legacy) (Wr.nothing bn legacy) m

  Quiet-insert_transfer :
      (log : TokenLog Num) (s r : Option ℕ) (v : Num) → Quiet (insert_transfer bn log s r v)
  unfolding insert_transfer
  Quiet-insert_transfer log s r v w w' h =
      elim (Option-cases
        (first_where (is_transfer log.transaction_hash log.log_index) w.db.transfers)) [
          | inl f ↦ elim (Bool-cases (lt v zero_bn)) [
            | inl e ↦ cc (ap (λ p. p.0) (rw e at (rw f at h)))
            | inr e ↦
                Wr.Does-keep bn legacy (add_transfer bn log s r v) (λ d. refl) (λ d. refl) w w'
                  (rw e at (rw f at h))
          ]
          | inr (x, f) ↦ cc (ap (λ p. p.0) (rw f at h))
        ]

  Quiet-delete_transfer : (h i : ℕ) → Quiet (delete_transfer bn h i)
  unfolding delete_transfer
  Quiet-delete_transfer h i = Wr.Does-keep bn legacy _ (λ d. refl) (λ d. refl)

  Quiet-remove_row : (h : ℕ) → Quiet (update_profit_loss_remove_row bn h)
  unfolding update_profit_loss_remove_row
  Quiet-remove_row h = Wr.Does-keep bn legacy _ (λ d. refl) (λ d. refl)

  -- A supply write and a balance write of the same amount, in that order.
  abbrev Issues : (TokenLog Num) → Num → Do bn → Type 0
  Issues log a m =
      Wr.Does bn legacy (L.only_for bn (token_of log) a) (S.only_at bn (token_of log) log.target a)
        (L.only_for bn (token_of log) a) m

  pub Does-mint : (log : TokenLog Num) → Issues log (amount_of log) (process_mint_log bn legacy log)
  unfolding process_mint_log
  Does-mint log =
      Wr.Does-before bn legacy {m = insert_transfer bn log _ _ _} (Quiet-insert_transfer log _ _ _)
        (Wr.Does-both bn legacy {m = increase_token_supply bn _ _}
          {k = increase_token_balance bn legacy _ _ _} (Wr.Does-increase_token_supply bn legacy _ _)
          (Wr.Does-increase_token_balance bn legacy _ _ _))

  pub Does-mint_removal :
      (log : TokenLog Num)
      → Issues log (negated (amount_of log)) (process_mint_log_removal bn legacy log)
  unfolding process_mint_log_removal
  Does-mint_removal log =
      Wr.Does-before bn legacy {m = delete_transfer bn _ _} (Quiet-delete_transfer _ _) (
        Wr.Does-both bn legacy {m = decrease_token_supply bn _ _}
          (Wr.Does-decrease_token_supply bn legacy _ _)
          (Wr.Does-after bn legacy {m = decrease_token_balance bn legacy _ _ _}
            (Wr.Does-decrease_token_balance bn legacy _ _ _)
            (Quiet-remove_row log.transaction_hash)))

  pub Does-burn :
      (log : TokenLog Num) → Issues log (negated (amount_of log)) (process_burn_log bn legacy log)
  unfolding process_burn_log
  Does-burn log = Wr.Does-before bn legacy {m = emit _} (Wr.Does-emit bn legacy _) (
      Wr.Does-before bn legacy {m = insert_transfer bn log _ _ _} (Quiet-insert_transfer log _ _ _)
        (Wr.Does-both bn legacy {m = decrease_token_supply bn _ _}
          {k = decrease_token_balance bn legacy _ _ _} (Wr.Does-decrease_token_supply bn legacy _ _)
          (Wr.Does-decrease_token_balance bn legacy _ _ _)))

  pub Does-burn_removal :
      (log : TokenLog Num) → Issues log (amount_of log) (process_burn_log_removal bn legacy log)
  unfolding process_burn_log_removal
  Does-burn_removal log = Wr.Does-before bn legacy {m = emit _} (Wr.Does-emit bn legacy _) (
      Wr.Does-before bn legacy {m = delete_transfer bn _ _} (Quiet-delete_transfer _ _) (
        Wr.Does-both bn legacy {m = increase_token_supply bn _ _}
          (Wr.Does-increase_token_supply bn legacy _ _)
          (Wr.Does-after bn legacy {m = increase_token_balance bn legacy _ _ _}
            (Wr.Does-increase_token_balance bn legacy _ _ _)
            (Quiet-remove_row log.transaction_hash))))

  -- An amount for one owner that another owner gives.
  abbrev pub moved : ℕ → ℕ → ℕ → Num → ℕ → ℕ → Num
  moved token sender recipient v u o =
      plus (S.only_at bn token recipient v u o) (S.only_at bn token sender (negated v) u o)

  Moves : ℕ → ℕ → ℕ → Num → Do bn → Type 0
  Moves token sender recipient v m =
      Wr.Does bn legacy (Wr.nothing bn legacy) (moved token sender recipient v)
        (Wr.nothing bn legacy) m

  only_for-cancel :
      (token : ℕ) (v : Num) (u : ℕ)
      → plus (L.only_for bn token v u) (L.only_for bn token (negated v) u) ≡ zero_bn
  only_for-cancel token v u = go (token == u)
    where
      go : (c : Bool) → plus (if c then v else zero_bn) (if c then negated v else zero_bn) ≡ zero_bn
      go true = plus-negated v
      go false = plus-zero_bn zero_bn

  -- `k` takes from the sender what the recipient was given.
  moving :
      (token sender recipient : ℕ) (v : Num) {k : Do bn}
      → Wr.Does bn legacy
          (Wr.nothing bn legacy)
          (S.only_at bn token sender (negated v))
          (L.only_for bn token (negated v))
          k
      → Moves token sender recipient v (increase_token_balance bn legacy token recipient v >> k)
  unfolding Moves
  moving token sender recipient v {k} hk =
      Wr.Does-as bn legacy {m = increase_token_balance bn legacy token recipient v >> k}
        (λ u. plus-zero_bn _) (λ u o. refl) (λ u. only_for-cancel token v u)
        (Wr.Does-then bn legacy {m = increase_token_balance bn legacy _ _ _} {k = k}
          (Wr.Does-increase_token_balance bn legacy _ _ _) hk)

  pub Does-transfer :
      (log : TokenLog Num)
      → Wr.Does bn legacy
          (Wr.nothing bn legacy)
          (moved (token_of log) log.from_address log.to_address (value_of log))
          (Wr.nothing bn legacy)
          (process_tokens_transferred_log bn legacy log)
  unfolding process_tokens_transferred_log Moves
  Does-transfer log =
      Wr.Does-before bn legacy {m = insert_transfer bn log _ _ _} (Quiet-insert_transfer log _ _ _)
        (Wr.Does-before bn legacy {m = emit _} (Wr.Does-emit bn legacy _) (
          moving (token_of log) log.from_address log.to_address (value_of log)
            {k = decrease_token_balance bn legacy _ _ _}
            (Wr.Does-decrease_token_balance bn legacy _ _ _)))

  pub Does-transfer_removal :
      (log : TokenLog Num)
      → Wr.Does bn legacy
          (Wr.nothing bn legacy)
          (moved (token_of log) log.to_address log.from_address (value_of log))
          (Wr.nothing bn legacy)
          (process_tokens_transferred_log_removal bn legacy log)
  unfolding process_tokens_transferred_log_removal Moves
  Does-transfer_removal log =
      Wr.Does-before bn legacy {m = delete_transfer bn _ _} (Quiet-delete_transfer _ _) (
        Wr.Does-before bn legacy {m = emit _} (Wr.Does-emit bn legacy _) (
          moving (token_of log) log.to_address log.from_address (value_of log) (
            Wr.Does-after bn legacy {m = decrease_token_balance bn legacy _ _ _}
              (Wr.Does-decrease_token_balance bn legacy _ _ _)
              (Quiet-remove_row log.transaction_hash))))
