-- ===== src/Tokens/Ledger.antt =====
-- The balances as a ledger: what each write does to the balance of every owner, the sum of all
-- balances of a token and its supply (src/blockchain/log-processors/token/*.ts).
use augur_node.Prelude.{
  ℕ, ◌≡◌, refl, subst₂, sym, ap, ◌∙◌, Bool, true, false, ◌&&◌, Option, none, some, List, [], ◌∷◌,
  arith, ◌==◌, if◌then◌else◌, Bool-cases, inl, inr,
}
use augur_node.Prelude.Tables.{first_where, update_where, insert_row}
use augur_node.Prelude.TableLaws.{updated, first-update, first-insert, update_none}
use augur_node.BigNumber.{BigNumber}
use augur_node.Database.{BalanceRow, SupplyRow}
use augur_node.Tokens.{is_balance_of, is_supply_of, set_balance}

pair_sym : (a b c d : ℕ) → ((a == c) && (b == d)) ≡ ((c == a) && (d == b))
pair_sym a b c d = ground arith

pub pair_eq : (a b c d : ℕ) → ((a == c) && (b == d)) ≡ true → (a ≡ c) × (b ≡ d)
pair_eq a b c d h = ground arith

some_eq {ℓ} : {A : Type ℓ} {a b : A} → some a ≡ some b → a ≡ b
some_eq h = cc

module _ (bn : BigNumber) where
  open bn use {Num, zero_bn, plus, minus, plus_comm, plus_assoc, plus-zero_bn}

  -- The balance of an owner; an owner without a row has none.
  abbrev pub balance_in : Option (BalanceRow Num) → Num
  balance_in none = zero_bn
  balance_in (some r) = r.balance

  abbrev pub balance_of : ℕ → ℕ → List (BalanceRow Num) → Num
  balance_of token owner rows = balance_in (first_where (is_balance_of token owner) rows)

  abbrev pub supply_in : Option (SupplyRow Num) → Num
  supply_in none = zero_bn
  supply_in (some r) = r.supply

  abbrev pub supply_of : ℕ → List (SupplyRow Num) → Num
  supply_of token rows = supply_in (first_where (is_supply_of token) rows)

  -- The sum of all balances of a token.
  unfoldable pub total : ℕ → List (BalanceRow Num) → Num
  total token [] = zero_bn
  total token (r ∷ rows) = plus (if r.token == token then r.balance else zero_bn) (total token rows)

  -- No two rows are for one token and owner.
  abbrev pub UniqueKeys : List (BalanceRow Num) → Type 0
  UniqueKeys [] = Unit {0}
  UniqueKeys (r ∷ rows) =
      (first_where (is_balance_of r.token r.owner) rows ≡ none) × UniqueKeys rows

  -- An amount for one token alone.
  abbrev pub only_for : ℕ → Num → ℕ → Num
  only_for token a t = if token == t then a else zero_bn

  plus_if : (c : Bool) (x a : Num) → (if c then plus x a else x) ≡ plus x (if c then a else zero_bn)
  plus_if true x a = refl
  plus_if false x a = sym (plus-zero_bn x)

  pub UniqueKeys-update :
      (token owner : ℕ) (b : Num) (rows : List (BalanceRow Num))
      → UniqueKeys rows
      → UniqueKeys (update_where (is_balance_of token owner) (set_balance b) rows)
  unfolding update_where
  UniqueKeys-update token owner b [] u = tt
  UniqueKeys-update token owner b (r ∷ rows) u = elim (Bool-cases (is_balance_of token owner r)) [
    | inl e ↦ rw e (key_free, UniqueKeys-update token owner b rows u.1)
    | inr e ↦ rw e (key_free, UniqueKeys-update token owner b rows u.1)
  ]
    where
      key_free :
          first_where
            (is_balance_of r.token r.owner)
            (update_where (is_balance_of token owner) (set_balance b) rows)
          ≡ none
      key_free =
          first-update (is_balance_of r.token r.owner) (is_balance_of token owner) (set_balance b)
            rows (λ x. refl)
          ∙ ap (updated (is_balance_of token owner) (set_balance b)) u.0

  pub UniqueKeys-insert :
      (r : BalanceRow Num) (rows : List (BalanceRow Num))
      → first_where (is_balance_of r.token r.owner) rows ≡ none
      → UniqueKeys rows
      → UniqueKeys (insert_row r rows)
  unfolding insert_row first_where
  UniqueKeys-insert r [] h u = (refl, tt)
  UniqueKeys-insert r (x ∷ rows) h u = elim (Bool-cases (is_balance_of r.token r.owner x)) [
    | inl e ↦ cc (rw e at h)
    | inr e ↦ (
      first-insert (is_balance_of x.token x.owner) r rows
          ∙ rw (u.0, pair_sym r.token r.owner x.token x.owner, e) refl,
      UniqueKeys-insert r rows (rw e at h) u.1,
    )
  ]

  pub total-insert :
      (t : ℕ) (r : BalanceRow Num) (rows : List (BalanceRow Num))
      → total t (insert_row r rows) ≡ plus (total t rows) (only_for r.token r.balance t)
  unfolding total insert_row
  total-insert t r [] = plus_comm _ _
  total-insert t r (x ∷ rows) = ap (plus _) (total-insert t r rows) ∙ sym (plus_assoc _ _ _)

  plus_swap : (b a rest : Num) → plus (plus b a) rest ≡ plus (plus b rest) a
  plus_swap b a rest =
      plus_assoc b a rest ∙ ap (plus b) (plus_comm a rest) ∙ sym (plus_assoc b rest a)

  -- Adding to the balance of an owner adds to the total of the token.
  pub total-update :
      (t token owner : ℕ) (a : Num) (rows : List (BalanceRow Num)) {r : BalanceRow Num}
      → UniqueKeys rows
      → first_where (is_balance_of token owner) rows ≡ some r
      → total t (update_where (is_balance_of token owner) (set_balance (plus r.balance a)) rows)
        ≡ plus (total t rows) (only_for token a t)
  unfolding total update_where first_where
  total-update t token owner a [] u h = cc
  total-update t token owner a (x ∷ rows) {r} u h =
      elim (Bool-cases (is_balance_of token owner x)) [
        | inl e ↦ rw e (here (pair_eq x.token x.owner token owner e) (some_eq (rw e at h)))
        | inr e ↦ rw e (
            ap (plus _) (total-update t token owner a rows u.1 (rw e at h))
            ∙ sym (plus_assoc _ _ _))
      ]
    where
      here :
          (x.token ≡ token) × (x.owner ≡ owner)
          → x ≡ r
          → plus (if x.token == t then plus r.balance a else zero_bn) (
              total t
                (update_where (is_balance_of token owner) (set_balance (plus r.balance a)) rows))
            ≡ plus
                (plus (if x.token == t then x.balance else zero_bn) (total t rows))
                (only_for token a t)
      here k e =
          rw
            (update_none (is_balance_of token owner) (set_balance (plus r.balance a)) rows
              (subst₂ (λ m o. first_where (is_balance_of m o) rows ≡ none) k.0 k.1 u.0))
            (rw (k.0, ap (λ v. v.balance) e)
              (elim (Bool-cases (token == t)) [
                | inl q ↦ rw q (plus_swap r.balance a (total t rows))
                | inr q ↦ rw q (sym (plus-zero_bn _))
              ]))
