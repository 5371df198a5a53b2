-- ===== src/Tokens/Totals.antt =====
-- Every reachable ledger is backed (src/blockchain/log-processors/token/*.ts, tokens-transferred.ts).
use augur_node.Prelude.{ℕ, ◌≡◌, ◌≢◌, refl, sym, ap₂, ◌∙◌, ok}
use augur_node.BigNumber.{BigNumber}
use augur_node.Database.{Db}
use augur_node.Tokens.{
  TokenLog, W, process_mint_log, process_mint_log_removal, process_burn_log,
  process_burn_log_removal, process_tokens_transferred_log, process_tokens_transferred_log_removal,
}
use augur_node.Tokens.Ledger as L
use augur_node.Tokens.Writes as Wr
use augur_node.Tokens.Effects as E

module _ (bn : BigNumber) (legacy : ℕ) where
  open bn use {Num, zero_bn, plus, negated, plus_comm, plus-zero_bn, plus-negated}

  -- The state before and after a token log, or its removal, that was processed without an error.
  pub data Processed : W bn → W bn → Type 0 where
    minted :
        {w w' : W bn} (log : TokenLog Num)
        → process_mint_log bn legacy log w ≡ (ok tt, w')
        → Processed w w'
    mint_removed :
        {w w' : W bn} (log : TokenLog Num)
        → process_mint_log_removal bn legacy log w ≡ (ok tt, w')
        → Processed w w'
    burned :
        {w w' : W bn} (log : TokenLog Num)
        → process_burn_log bn legacy log w ≡ (ok tt, w')
        → Processed w w'
    burn_removed :
        {w w' : W bn} (log : TokenLog Num)
        → process_burn_log_removal bn legacy log w ≡ (ok tt, w')
        → Processed w w'
    transferred :
        {w w' : W bn} (log : TokenLog Num)
        → process_tokens_transferred_log bn legacy log w ≡ (ok tt, w')
        → Processed w w'
    transfer_removed :
        {w w' : W bn} (log : TokenLog Num)
        → process_tokens_transferred_log_removal bn legacy log w ≡ (ok tt, w')
        → Processed w w'

  -- The states that sequences of them lead to.
  pub data ProcessedAll : W bn → W bn → Type 0 where
    done : {w : W bn} → ProcessedAll w w
    step : {w w' w'' : W bn} → Processed w w' → ProcessedAll w' w'' → ProcessedAll w w''

  -- No owner has two rows of one token, and the supply of the token is the sum of its balances.
  abbrev pub IsBacked : ℕ → Db Num → Type 0
  IsBacked token d =
      L.UniqueKeys bn d.balances
      × (L.supply_of bn token d.token_supply ≡ L.total bn token d.balances)

  Shift-IsBacked :
      {s : ℕ → Num} {b : ℕ → ℕ → Num} {t : ℕ → Num} (u : ℕ) (d d' : Db Num)
      → u ≢ legacy
      → Wr.Shift bn legacy s b t d d'
      → s u ≡ t u
      → IsBacked u d
      → IsBacked u d'
  Shift-IsBacked u d d' n sh k b =
      let (unique, supplies, totals) = sh b.0 in
      (unique, supplies u ∙ ap₂ plus b.1 k ∙ sym (totals u n).0)

  Processed-IsBacked :
      {w w' : W bn} (u : ℕ) → u ≢ legacy → Processed w w' → IsBacked u w.db → IsBacked u w'.db
  Processed-IsBacked {w} {w'} u n (minted log h) =
      Shift-IsBacked u w.db w'.db n (E.Does-mint bn legacy log w w' h) refl
  Processed-IsBacked {w} {w'} u n (mint_removed log h) =
      Shift-IsBacked u w.db w'.db n (E.Does-mint_removal bn legacy log w w' h) refl
  Processed-IsBacked {w} {w'} u n (burned log h) =
      Shift-IsBacked u w.db w'.db n (E.Does-burn bn legacy log w w' h) refl
  Processed-IsBacked {w} {w'} u n (burn_removed log h) =
      Shift-IsBacked u w.db w'.db n (E.Does-burn_removal bn legacy log w w' h) refl
  Processed-IsBacked {w} {w'} u n (transferred log h) =
      Shift-IsBacked u w.db w'.db n (E.Does-transfer bn legacy log w w' h) refl
  Processed-IsBacked {w} {w'} u n (transfer_removed log h) =
      Shift-IsBacked u w.db w'.db n (E.Does-transfer_removal bn legacy log w w' h) refl

  -- In whatever order mint, burn and transfer logs and their removals are processed without an
  -- error, from a state with one row at most per owner and token, where the balances of a token
  -- that is not the legacy one sum to its supply: every state that is reached has one row at most
  -- per owner and token again, and the balances of the token sum to its supply.
  pub ProcessedAll-IsBacked :
      {w w' : W bn} (token : ℕ)
      → token ≢ legacy
      → ProcessedAll w w'
      → IsBacked token w.db
      → IsBacked token w'.db
  ProcessedAll-IsBacked token n done b = b
  ProcessedAll-IsBacked token n (step s rest) b =
      ProcessedAll-IsBacked token n rest (Processed-IsBacked token n s b)
