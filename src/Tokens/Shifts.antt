-- ===== src/Tokens/Shifts.antt =====
-- What each write of a token log adds to the balance of every owner, to the sum of the balances of
-- every token and to its supply (src/blockchain/log-processors/token/*.ts).
use augur_node.Prelude.{
  ℕ, ◌≡◌, refl, sym, ap, ◌∙◌, true, false, ◌&&◌, Option, none, some, List, arith, ◌==◌,
  if◌then◌else◌, Bool-cases, inl, inr, ==_iff,
}
use augur_node.Prelude.Tables.{first_where, update_where, insert_row}
use augur_node.Prelude.TableLaws.{
  updated, first_or, first-update, first-insert, updated_same, updated_other,
}
use augur_node.BigNumber.{BigNumber, zero_bn-plus}
use augur_node.Database.{BalanceRow, SupplyRow}
use augur_node.Tokens.{is_balance_of, is_supply_of, set_balance, set_supply}
use augur_node.Tokens.Ledger as L
use augur_node.Tokens.Ledger.{pair_eq}

pair_apart :
    (a b c d e f : ℕ)
    → ((a == c) && (b == d)) ≡ true
    → ((e == c) && (f == d)) ≡ false
    → ((a == e) && (b == f)) ≡ false
pair_apart a b c d e f h k = ground arith

apart : (a c e : ℕ) → (a == c) ≡ true → (e == c) ≡ false → (a == e) ≡ false
apart a c e h k = ground arith

module _ (bn : BigNumber) where
  open bn use {Num, zero_bn, plus, minus, negated, plus_comm, plus_assoc, plus-zero_bn, minus_lem}

  -- An amount for one owner of one token alone.
  abbrev pub only_at : ℕ → ℕ → Num → ℕ → ℕ → Num
  only_at token owner a t o = if token == t && owner == o then a else zero_bn

  pub balance_of-update :
      (token owner : ℕ) (a : Num) (rows : List (BalanceRow Num)) {r : BalanceRow Num} (t o : ℕ)
      → first_where (is_balance_of token owner) rows ≡ some r
      → L.balance_of bn t o
          (update_where (is_balance_of token owner) (set_balance (plus r.balance a)) rows)
        ≡ plus (L.balance_of bn t o rows) (only_at token owner a t o)
  balance_of-update token owner a rows {r} t o h =
      ap (L.balance_in bn) (
        first-update (is_balance_of t o) (is_balance_of token owner)
          (set_balance (plus r.balance a)) rows (λ x. refl))
      ∙ elim (Bool-cases (token == t && owner == o)) [
        | inl e ↦ rw e (same (pair_eq token owner t o e))
        | inr e ↦ rw e (
            ap (L.balance_in bn) (
              updated_other (is_balance_of t o) (is_balance_of token owner)
                (set_balance (plus r.balance a)) rows
                (λ x q. pair_apart x.token x.owner t o token owner q e))
            ∙ sym (plus-zero_bn _))
      ]
    where
      same :
          (token ≡ t) × (owner ≡ o)
          → L.balance_in bn (
              updated
                (is_balance_of token owner)
                (set_balance (plus r.balance a))
                (first_where (is_balance_of t o) rows))
            ≡ plus (L.balance_of bn t o rows) a
      same k =
          rw (sym k.0, sym k.1)
            (ap (L.balance_in bn)
                (updated_same (is_balance_of token owner) (set_balance (plus r.balance a)) rows h)
              ∙ rw h refl)

  pub balance_of-insert :
      (token owner : ℕ) (a : Num) (rows : List (BalanceRow Num)) (t o : ℕ)
      → first_where (is_balance_of token owner) rows ≡ none
      → L.balance_of bn t o (insert_row (record { token = token; owner = owner; balance = a }) rows)
        ≡ plus (L.balance_of bn t o rows) (only_at token owner a t o)
  balance_of-insert token owner a rows t o h =
      ap (L.balance_in bn) (
        first-insert (is_balance_of t o) (record { token = token; owner = owner; balance = a })
          rows)
      ∙ elim (Bool-cases (token == t && owner == o)) [
        | inl e ↦ rw e (same (pair_eq token owner t o e))
        | inr e ↦ rw e (other (first_where (is_balance_of t o) rows))
      ]
    where
      same :
          (token ≡ t) × (owner ≡ o)
          → L.balance_in bn (
              first_or
                (first_where (is_balance_of t o) rows)
                (some (record { token = token; owner = owner; balance = a })))
            ≡ plus (L.balance_of bn t o rows) a
      same k = rw (sym k.0, sym k.1) (rw h (sym (zero_bn-plus bn a)))

      other :
          (x : Option (BalanceRow Num))
          → L.balance_in bn (first_or x none) ≡ plus (L.balance_in bn x) zero_bn
      other none = sym (plus-zero_bn _)
      other (some r) = sym (plus-zero_bn _)

  pub supply_of-update :
      (token : ℕ) (a : Num) (rows : List (SupplyRow Num)) {r : SupplyRow Num} (t : ℕ)
      → first_where (is_supply_of token) rows ≡ some r
      → L.supply_of bn t (update_where (is_supply_of token) (set_supply (plus r.supply a)) rows)
        ≡ plus (L.supply_of bn t rows) (L.only_for bn token a t)
  supply_of-update token a rows {r} t h =
      ap (L.supply_in bn) (
        first-update (is_supply_of t) (is_supply_of token) (set_supply (plus r.supply a)) rows
          (λ x. refl))
      ∙ elim (Bool-cases (token == t)) [
        | inl e ↦ rw e (same ((==_iff token t).0 e))
        | inr e ↦ rw e (
            ap (L.supply_in bn) (
              updated_other (is_supply_of t) (is_supply_of token) (set_supply (plus r.supply a))
                rows (λ x q. apart x.token t token q e))
            ∙ sym (plus-zero_bn _))
      ]
    where
      same :
          token ≡ t
          → L.supply_in bn (
              updated
                (is_supply_of token)
                (set_supply (plus r.supply a))
                (first_where (is_supply_of t) rows))
            ≡ plus (L.supply_of bn t rows) a
      same k = rw (sym k) (
          ap (L.supply_in bn)
            (updated_same (is_supply_of token) (set_supply (plus r.supply a)) rows h)
          ∙ rw h refl)

  pub supply_of-insert :
      (token : ℕ) (a : Num) (rows : List (SupplyRow Num)) (t : ℕ)
      → first_where (is_supply_of token) rows ≡ none
      → L.supply_of bn t (insert_row (record { token = token; supply = a }) rows)
        ≡ plus (L.supply_of bn t rows) (L.only_for bn token a t)
  supply_of-insert token a rows t h =
      ap (L.supply_in bn)
        (first-insert (is_supply_of t) (record { token = token; supply = a }) rows)
      ∙ elim (Bool-cases (token == t)) [
        | inl e ↦ rw e (same ((==_iff token t).0 e))
        | inr e ↦ rw e (other (first_where (is_supply_of t) rows))
      ]
    where
      same :
          token ≡ t
          → L.supply_in bn (
              first_or
                (first_where (is_supply_of t) rows)
                (some (record { token = token; supply = a })))
            ≡ plus (L.supply_of bn t rows) a
      same k = rw (sym k) (rw h (sym (zero_bn-plus bn a)))

      other :
          (x : Option (SupplyRow Num))
          → L.supply_in bn (first_or x none) ≡ plus (L.supply_in bn x) zero_bn
      other none = sym (plus-zero_bn _)
      other (some r) = sym (plus-zero_bn _)
