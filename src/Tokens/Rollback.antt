-- ===== src/Tokens/Rollback.antt =====
-- A removal undoes its log (src/blockchain/log-processors/token/*.ts, tokens-transferred.ts).
use augur_node.Prelude.{ℕ, ◌≡◌, ◌≢◌, sym, ap, ◌∙◌, ok, Bool, true, false, if◌then◌else◌, ◌==◌, ◌&&◌}
use augur_node.BigNumber.{BigNumber, negated-plus}
use augur_node.Database.{Db}
use augur_node.Tokens.{
  TokenLog, W, token_of, value_of, process_mint_log, process_mint_log_removal, process_burn_log,
  process_burn_log_removal, process_tokens_transferred_log, process_tokens_transferred_log_removal,
}
use augur_node.Tokens.Ledger as L
use augur_node.Tokens.Shifts as S
use augur_node.Tokens.Writes as Wr
use augur_node.Tokens.Effects as E

module _ (bn : BigNumber) (legacy : ℕ) where
  open bn use {Num, zero_bn, plus, negated, plus_comm, plus_assoc, plus-zero_bn, plus-negated}

  -- The states before a log, after it, and after its removal, both processed without an error.
  pub data Undone : W bn → W bn → W bn → Type 0 where
    mint_undone :
        {w w' w'' : W bn} (log : TokenLog Num)
        → process_mint_log bn legacy log w ≡ (ok tt, w')
        → process_mint_log_removal bn legacy log w' ≡ (ok tt, w'')
        → Undone w w' w''
    burn_undone :
        {w w' w'' : W bn} (log : TokenLog Num)
        → process_burn_log bn legacy log w ≡ (ok tt, w')
        → process_burn_log_removal bn legacy log w' ≡ (ok tt, w'')
        → Undone w w' w''
    transfer_undone :
        {w w' w'' : W bn} (log : TokenLog Num)
        → process_tokens_transferred_log bn legacy log w ≡ (ok tt, w')
        → process_tokens_transferred_log_removal bn legacy log w' ≡ (ok tt, w'')
        → Undone w w' w''

  -- The supply of a token and the balance of an owner are the same.
  abbrev pub SameLedger : ℕ → ℕ → Db Num → Db Num → Type 0
  SameLedger u o d d' =
      (L.supply_of bn u d'.token_supply ≡ L.supply_of bn u d.token_supply)
      × (L.balance_of bn u o d'.balances ≡ L.balance_of bn u o d.balances)

  cancelled : {x y z p q : Num} → y ≡ plus x p → z ≡ plus y q → plus p q ≡ zero_bn → z ≡ x
  cancelled {x} {y} {z} {p} {q} e e' c =
      e' ∙ ap (λ v. plus v q) e ∙ plus_assoc x p q ∙ ap (plus x) c ∙ plus-zero_bn x

  Shifts-SameLedger :
      {s s' : ℕ → Num} {b b' : ℕ → ℕ → Num} {t t' : ℕ → Num} (u o : ℕ) (d d' d'' : Db Num)
      → u ≢ legacy
      → Wr.Shift bn legacy s b t d d'
      → Wr.Shift bn legacy s' b' t' d' d''
      → plus (s u) (s' u) ≡ zero_bn
      → plus (b u o) (b' u o) ≡ zero_bn
      → L.UniqueKeys bn d.balances
      → SameLedger u o d d''
  Shifts-SameLedger u o d d' d'' n h h' zs zb unique =
      let (i, is, ib) = h unique in
      let (j, js, jb) = h' i in
      (cancelled (is u) (js u) zs, cancelled ((ib u n).1 o) ((jb u n).1 o) zb)

  if_cancel :
      (c : Bool) {a b : Num}
      → plus a b ≡ zero_bn
      → plus (if c then a else zero_bn) (if c then b else zero_bn) ≡ zero_bn
  if_cancel true h = h
  if_cancel false h = plus-zero_bn zero_bn

  moved-cancel :
      (token sender recipient : ℕ) (v : Num) (u o : ℕ)
      → plus
          (E.moved bn legacy token sender recipient v u o)
          (E.moved bn legacy token recipient sender v u o)
        ≡ zero_bn
  moved-cancel token sender recipient v u o =
      plus_assoc _ _ _
      ∙ ap (plus _) (
          sym (plus_assoc _ _ _)
          ∙ ap (λ x. plus x (S.only_at bn token recipient (negated v) u o))
              (if_cancel (token == u && sender == o) (negated-plus bn v))
          ∙ plus_comm _ _
          ∙ plus-zero_bn _)
      ∙ if_cancel (token == u && recipient == o) (plus-negated v)

  -- When a mint, burn or transfer log is processed and then its removal, both without an error,
  -- from a state with one row at most per owner and token, the supply of a token that is not the
  -- legacy one and every balance of it are what they were before the log.
  pub Undone-SameLedger :
      {w w' w'' : W bn} (token owner : ℕ)
      → token ≢ legacy
      → Undone w w' w''
      → L.UniqueKeys bn w.db.balances
      → SameLedger token owner w.db w''.db
  Undone-SameLedger {w} {w'} {w''} u o n (mint_undone log h h') =
      Shifts-SameLedger u o w.db w'.db w''.db n (E.Does-mint bn legacy log w w' h)
        (E.Does-mint_removal bn legacy log w' w'' h') (if_cancel _ (plus-negated _))
        (if_cancel _ (plus-negated _))
  Undone-SameLedger {w} {w'} {w''} u o n (burn_undone log h h') =
      Shifts-SameLedger u o w.db w'.db w''.db n (E.Does-burn bn legacy log w w' h)
        (E.Does-burn_removal bn legacy log w' w'' h') (if_cancel _ (negated-plus bn _))
        (if_cancel _ (negated-plus bn _))
  Undone-SameLedger {w} {w'} {w''} u o n (transfer_undone log h h') =
      Shifts-SameLedger u o w.db w'.db w''.db n (E.Does-transfer bn legacy log w w' h)
        (E.Does-transfer_removal bn legacy log w' w'' h') (plus-zero_bn _)
        (moved-cancel (token_of log) log.from_address log.to_address (value_of log) u o)
