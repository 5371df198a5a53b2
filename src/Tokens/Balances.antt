-- ===== src/Tokens/Balances.antt =====
-- What raising and lowering a balance come to, one after the other
-- (src/blockchain/log-processors/token/increase-token-balance.ts, decrease-token-balance.ts).
use augur_node.Prelude.{
  arith, ℕ, ◌≡◌, refl, sym, ap, ap₂, ◌∙◌, true, false, ◌||◌, ◌&&◌, ◌⊎◌, Option, none, some, List,
  ◌==◌, ==_refl, ==_iff, if◌then◌else◌, Bool-cases, inl, inr, Result, ok, err,
}
use augur_node.Prelude.Tables.{first_where, update_where, insert_row}
use augur_node.Prelude.TableLaws.{first-insert, first-update, first_or, updated_same, updated_other}
use augur_node.BigNumber.{
  BigNumber, is_zero, minus-plus, minus_lt, minus_nonneg, sign_cases, lt_negated-zero_bn,
  zero_bn-plus,
}
use augur_node.Database.{BalanceRow, Error, balance_not_found, check_failed}
use augur_node.Tokens.{
  W, is_balance_of, set_balance, lower_balance, increase_token_balance, decrease_token_balance,
  is_legacy_reputation_token,
}

module _ (bn : BigNumber) where
  open bn use {
    Num, zero_bn, plus, minus, negated, lt, plus-zero_bn, minus_lem, lt-plus, lt_trans, lt_irrefl,
  }

  -- A row without a balance below zero.
  abbrev pub IsNonneg : Option (BalanceRow Num) → Type 0
  IsNonneg none = Unit {0}
  IsNonneg (some r) = lt r.balance zero_bn ≡ false

  -- What comes of taking a value from the row of an owner.
  abbrev pub taking : Num → Option (BalanceRow Num) → Result Error (Unit {0})
  taking v none = err balance_not_found
  taking v (some r) = if lt r.balance v then err check_failed else ok tt

  lt-minus : (a b : Num) → lt (minus a b) zero_bn ≡ lt a b
  lt-minus a b = elim (Bool-cases (lt a b)) [
    | inl e ↦ minus_lt bn a b e ∙ sym e
    | inr e ↦ minus_nonneg bn a b e ∙ sym e
  ]

  lowered :
      (token owner : ℕ) (a : Num) (o : Option (BalanceRow Num)) (w : W bn)
      → (lower_balance bn token owner a o w).0 ≡ taking a o
  lowered token owner a none w = refl
  lowered token owner a (some r) w = elim (Bool-cases (lt r.balance a)) [
    | inl e ↦ rw (lt-minus r.balance a, e) refl
    | inr e ↦ rw (lt-minus r.balance a, e) refl
  ]

  sum_nonneg :
      (a b : Num) → lt a zero_bn ≡ false → lt b zero_bn ≡ false → lt (plus a b) zero_bn ≡ false
  sum_nonneg a b ha hb = elim (Bool-cases (lt (plus a b) zero_bn)) [
    | inr e ↦ e
    | inl e ↦
        cc (sym (lt_trans a (negated b) zero_bn (below e) (negative (sign_cases bn b) e)) ∙ ha)
  ]
    where
      below : lt (plus a b) zero_bn ≡ true → lt a (negated b) ≡ true
      below e =
          sym (
            ap₂ lt
              (ap (λ x. plus x (negated b)) refl ∙ sym (minus_lem (plus a b) b) ∙ minus-plus bn a b)
              (zero_bn-plus bn (negated b)))
          ∙ lt-plus (plus a b) zero_bn (negated b) e

      negative :
          (lt b zero_bn ≡ true) ⊎ (b ≡ zero_bn) ⊎ (lt zero_bn b ≡ true)
          → lt (plus a b) zero_bn ≡ true
          → lt (negated b) zero_bn ≡ true
      negative (inl k) e = cc (sym k ∙ hb)
      negative (inr (inl k)) e =
          cc (sym (ap (λ x. lt x zero_bn) (ap (plus a) k ∙ plus-zero_bn a)) ∙ e ∙ sym refl)
      negative (inr (inr k)) e = lt_negated-zero_bn bn b k

  -- The balances after an increase, for each row that it may have found.
  pub raised : ℕ → ℕ → Num → Option (BalanceRow Num) → List (BalanceRow Num) → List (BalanceRow Num)
  raised token owner a none rows =
      insert_row (record { token = token; owner = owner; balance = a }) rows
  raised token owner a (some r) rows =
      update_where (is_balance_of token owner) (set_balance (plus r.balance a)) rows

  pub increased :
      (legacy token owner : ℕ) (a : Num) (w : W bn) (found : Option (BalanceRow Num))
      → (token == legacy) ≡ false
      → first_where (is_balance_of token owner) w.db.balances ≡ found
      → lt a zero_bn ≡ false
      → IsNonneg found
      → increase_token_balance bn legacy token owner a w ≡ (
        ok tt,
        record w { db = record (w.db) { balances = raised token owner a found w.db.balances } },
      )
  unfolding increase_token_balance is_legacy_reputation_token raised
  increased legacy token owner a w none e h k n = rw e (rw h (rw k refl))
  increased legacy token owner a w (some r) e h k n =
      rw e (rw h (rw (sum_nonneg r.balance a n k) refl))

  pub decreased :
      (legacy token owner : ℕ) (a : Num) (w : W bn)
      → (token == legacy) ≡ false
      → (decrease_token_balance bn legacy token owner a w).0 ≡ (
          if is_zero bn a
          then ok tt
          else taking a (first_where (is_balance_of token owner) w.db.balances))
  unfolding decrease_token_balance is_legacy_reputation_token
  decreased legacy token owner a w e = rw e (elim (Bool-cases (is_zero bn a)) [
    | inl z ↦ rw z refl
    | inr z ↦ rw z (lowered token owner a (first_where (is_balance_of token owner) w.db.balances) w)
  ])

  module _ (token sender recipient : ℕ) (a : Num) (rows : List (BalanceRow Num)) where
    -- The row of another owner stays what it is.
    row_after :
        (found : Option (BalanceRow Num))
        → (recipient == sender) ≡ false
        → first_where (is_balance_of token sender) (raised token recipient a found rows)
          ≡ first_where (is_balance_of token sender) rows
    unfolding raised
    row_after none e =
        first-insert (is_balance_of token sender)
          (record { token = token; owner = recipient; balance = a }) rows
        ∙ rw (==_refl token, e) (or_nothing (first_where (is_balance_of token sender) rows))
      where
        or_nothing : (o : Option (BalanceRow Num)) → first_or o none ≡ o
        or_nothing none = refl
        or_nothing (some r) = refl
    row_after (some r) e =
        first-update (is_balance_of token sender) (is_balance_of token recipient)
          (set_balance (plus r.balance a)) rows (λ x. refl)
        ∙ updated_other (is_balance_of token sender) (is_balance_of token recipient)
            (set_balance (plus r.balance a)) rows
            (λ x q. apart x.token x.owner token sender recipient q e)
      where
        apart :
            (t o u s r : ℕ)
            → ((t == u) && (o == s)) ≡ true
            → (r == s) ≡ false
            → ((t == u) && (o == r)) ≡ false
        apart t o u s r q k = ground arith

    -- The recipient has what it was given, at least.
    own_row_after :
        (found : Option (BalanceRow Num))
        → first_where (is_balance_of token recipient) rows ≡ found
        → IsNonneg found
        → taking a
            (first_where (is_balance_of token recipient) (raised token recipient a found rows))
          ≡ ok tt
    unfolding raised
    own_row_after none h n =
        ap (taking a) {y = some (record { token = token; owner = recipient; balance = a })} (
          first-insert (is_balance_of token recipient)
            (record { token = token; owner = recipient; balance = a }) rows
          ∙ rw (h, ==_refl token, ==_refl recipient) refl)
        ∙ rw (lt_irrefl a) refl
    own_row_after (some r) h n =
        ap (taking a) (
          first-update (is_balance_of token recipient) (is_balance_of token recipient)
            (set_balance (plus r.balance a)) rows (λ x. refl)
          ∙ updated_same (is_balance_of token recipient) (set_balance (plus r.balance a)) rows h)
        ∙ rw
            (sym (lt-minus (plus r.balance a) a)
              ∙ ap (λ x. lt x zero_bn) (minus-plus bn r.balance a)
              ∙ n)
            refl

  pub legacy_raised :
      (legacy token owner : ℕ) (a : Num) (w : W bn)
      → (token == legacy) ≡ true
      → increase_token_balance bn legacy token owner a w ≡ (ok tt, w)
  unfolding increase_token_balance is_legacy_reputation_token
  legacy_raised legacy token owner a w e = rw e refl

  pub legacy_lowered :
      (legacy token owner : ℕ) (a : Num) (w : W bn)
      → (token == legacy) ≡ true
      → decrease_token_balance bn legacy token owner a w ≡ (ok tt, w)
  unfolding decrease_token_balance is_legacy_reputation_token
  legacy_lowered legacy token owner a w e = rw e refl

  pub taken_after :
      (token sender recipient : ℕ) (a : Num) (rows : List (BalanceRow Num))
      (found : Option (BalanceRow Num))
      → first_where (is_balance_of token recipient) rows ≡ found
      → IsNonneg found
      → (if is_zero bn a
          then ok tt
          else taking a
              (first_where (is_balance_of token sender) (raised token recipient a found rows)))
        ≡ (if is_zero bn a || (recipient == sender)
            then ok tt
            else taking a (first_where (is_balance_of token sender) rows))
  taken_after token sender recipient a rows found h n = elim (Bool-cases (is_zero bn a)) [
    | inl z ↦ rw z refl
    | inr z ↦ rw z (elim (Bool-cases (recipient == sender)) [
      | inl e ↦ rw e (
          ap
            (λ o.
              taking a (first_where (is_balance_of token o) (raised token recipient a found rows)))
            (sym ((==_iff recipient sender).0 e))
          ∙ own_row_after token sender recipient a rows found h n)
      | inr e ↦ rw e (ap (taking a) (row_after token sender recipient a rows found e))
    ])
  ]
