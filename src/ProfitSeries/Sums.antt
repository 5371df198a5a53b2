-- ===== src/ProfitSeries/Sums.antt =====
-- The results of a market at a time, and their sum (src/server/getters/get-profit-loss.ts).
use augur_node.Prelude.{
  ℕ, zero, suc, ◌+◌, ◌<◌, ◌≡◌, refl, sym, ap, subst, ◌∙◌, not, Bool-cases, inl, inr, Option, none,
  some, List, [], ◌∷◌, leb, arith, ok,
}
use augur_node.Prelude.Tables.{select_where}
use augur_node.BigNumber.{BigNumber}
use augur_node.Quantity.{new_quantity, price, minus, is_equal}
use augur_node.ProfitSeries.Results.{
  PositionRow, OutcomeValue, ProfitLossResult, insert_by_outcome, sort_by_outcome, value_of,
  last_price, unsorted_results, get_profit_results_for_timestamp, sorted_values, non_zero,
  values_for, get_profit_results_for_market, sum_from, zero_or,
}
use augur_node.ProfitSeries.Balance.{IsBalanced, profit_result_lem, sum_profit_loss_results_lem}

module _ (bn : BigNumber) where
  open bn use {Num, zero_bn, plus, plus_assoc, eq}

  unfoldable pub AllBalanced : List (ProfitLossResult Num) → Type 0
  AllBalanced [] = Unit {0}
  AllBalanced (r ∷ rest) = IsBalanced bn r × AllBalanced rest

  -- Every row is of one of the market's outcomes.
  unfoldable pub AllOfMarket : ℕ → List (PositionRow Num) → Type 0
  AllOfMarket n [] = Unit {0}
  AllOfMarket n (pl ∷ pls) = ((pl.num_outcomes ≡ n) × (pl.outcome < n)) × AllOfMarket n pls

  unfoldable pub totals : Num → List (ProfitLossResult Num) → Num
  totals sum [] = sum
  totals sum (r ∷ rest) = totals (plus sum r.total) rest

  insert_by_outcome-AllBalanced :
      (r : ProfitLossResult Num) (rs : List (ProfitLossResult Num))
      → IsBalanced bn r
      → AllBalanced rs
      → AllBalanced (insert_by_outcome r rs)
  unfolding AllBalanced insert_by_outcome
  insert_by_outcome-AllBalanced r [] b all = (b, tt)
  insert_by_outcome-AllBalanced r (x ∷ rs) b all = elim (Bool-cases (leb r.outcome x.outcome)) [
    | inl e ↦ rw e (b, all)
    | inr e ↦ rw e (all.0, insert_by_outcome-AllBalanced r rs b all.1)
  ]

  sort_by_outcome-AllBalanced :
      (rs : List (ProfitLossResult Num)) → AllBalanced rs → AllBalanced (sort_by_outcome rs)
  unfolding AllBalanced sort_by_outcome
  sort_by_outcome-AllBalanced [] all = tt
  sort_by_outcome-AllBalanced (r ∷ rs) all =
      insert_by_outcome-AllBalanced r _ all.0 (sort_by_outcome-AllBalanced rs all.1)

  insert_some :
      (r : ProfitLossResult Num) (rs : List (ProfitLossResult Num))
      → (first : ProfitLossResult Num) × (rest : List (ProfitLossResult Num)) × (insert_by_outcome r
            rs
          ≡ first ∷ rest)
  unfolding insert_by_outcome
  insert_some r [] = (r, [], refl)
  insert_some r (x ∷ rs) = elim (Bool-cases (leb r.outcome x.outcome)) [
    | inl e ↦ (r, x ∷ rs, rw e refl)
    | inr e ↦ (x, insert_by_outcome r rs, rw e refl)
  ]

  has_value :
      (values : List (OutcomeValue Num)) (outcome n start : ℕ)
      → outcome < n
      → (v : Num) × (value_of bn outcome (sorted_values bn values start n) ≡ some v)
  unfolding value_of sorted_values
  has_value values outcome zero start h = elim h [ ]
  has_value values zero (suc n) start h = (_, refl)
  has_value values (suc outcome) (suc n) start h =
      has_value values outcome n (start + 1) (omega arith)

  -- The list of values has one for each row.
  unfoldable CoversAll : Option (List Num) → List (PositionRow Num) → Type 0
  CoversAll vs [] = Unit {0}
  CoversAll vs (pl ∷ pls) =
      ((p : Num) × (last_price bn vs pl ≡ ok (new_quantity price p))) × CoversAll vs pls

  covers_none : (pls : List (PositionRow Num)) → CoversAll none pls
  unfolding CoversAll
  covers_none [] = tt
  covers_none (pl ∷ pls) = ((zero_bn, refl), covers_none pls)

  covers_some :
      (values : List (OutcomeValue Num)) (n : ℕ) (pls : List (PositionRow Num))
      → AllOfMarket n pls
      → CoversAll (some (sorted_values bn values 0 n)) pls
  unfolding CoversAll AllOfMarket minus is_equal
  covers_some values n [] all = tt
  covers_some values n (pl ∷ pls) all =
      let (v, e) = has_value values pl.outcome n 0 all.0.1 in
      ((bn.minus v pl.min_price, rw e refl), covers_some values n pls all.1)

  first_of_market :
      (n : ℕ) (pls : List (PositionRow Num)) (pl : PositionRow Num) (rest : List (PositionRow Num))
      → AllOfMarket n pls
      → non_zero bn pls ≡ pl ∷ rest
      → pl.num_outcomes ≡ n
  unfolding AllOfMarket non_zero select_where
  first_of_market n [] pl rest all e = cc
  first_of_market n (x ∷ pls) pl rest all e = elim (Bool-cases (not (eq x.position zero_bn))) [
    | inl h ↦ same_first x pl all.0.0 (rw h at e)
    | inr h ↦ first_of_market n pls pl rest all.1 (rw h at e)
  ]
    where
      same_first :
          (a b : PositionRow Num) {s t : List (PositionRow Num)}
          → a.num_outcomes ≡ n
          → a ∷ s ≡ b ∷ t
          → b.num_outcomes ≡ n
      same_first a b k h = cc

  -- The results of the rows, and that they are balanced.
  abbrev MakesBalanced :
      Option (List Num)
      → (ℕ → ℕ → Option Num)
      → (ℕ → ℕ → Option Num)
      → List (PositionRow Num)
      → Type 0
  MakesBalanced vs ago oldest pls =
      (rs : List (ProfitLossResult Num)) × (unsorted_results bn vs ago oldest pls ≡ ok rs)
      × AllBalanced rs

  module _ (vs : Option (List Num)) (ago oldest : ℕ → ℕ → Option Num) where
    result_step :
        (pl : PositionRow Num) (pls : List (PositionRow Num))
        → ((p : Num) × (last_price bn vs pl ≡ ok (new_quantity price p)))
        → MakesBalanced vs ago oldest pls
        → (r : ProfitLossResult Num) × (rs : List (ProfitLossResult Num)) × (unsorted_results bn vs
              ago oldest
              (pl ∷ pls)
            ≡ ok (r ∷ rs))
          × AllBalanced (r ∷ rs)
    unfolding unsorted_results AllBalanced
    result_step pl pls (p, priced) (rs, rest, all) =
        let (r, made, b) =
          profit_result_lem bn p (zero_or bn (ago pl.market_id pl.outcome))
            (oldest pl.market_id pl.outcome) pl in
        (r, rs, rw priced (rw made (rw rest refl)), (b, all))

    unsorted_results-MakesBalanced :
        (pls : List (PositionRow Num)) → CoversAll vs pls → MakesBalanced vs ago oldest pls
    unfolding CoversAll unsorted_results AllBalanced
    unsorted_results-MakesBalanced [] c = ([], refl, tt)
    unsorted_results-MakesBalanced (pl ∷ pls) c =
        let (r, rs, made, all) = result_step pl pls c.0 (unsorted_results-MakesBalanced pls c.1) in
        (r ∷ rs, made, all)

    results_some :
        (pl : PositionRow Num) (pls : List (PositionRow Num))
        → CoversAll vs (pl ∷ pls)
        → (r : ProfitLossResult Num) × (rs : List (ProfitLossResult Num)) × (unsorted_results bn vs
              ago oldest
              (pl ∷ pls)
            ≡ ok (r ∷ rs))
          × AllBalanced (r ∷ rs)
    unfolding CoversAll
    results_some pl pls c = result_step pl pls c.0 (unsorted_results-MakesBalanced pls c.1)

  sum_from-IsBalanced :
      (left : ProfitLossResult Num) (rest : List (ProfitLossResult Num))
      → IsBalanced bn left
      → AllBalanced rest
      → (sum : ProfitLossResult Num) × (sum_from bn left rest ≡ ok sum)
        × IsBalanced bn sum
        × (sum.total ≡ totals left.total rest)
  unfolding sum_from AllBalanced totals
  sum_from-IsBalanced left [] b all = (left, refl, b, refl)
  sum_from-IsBalanced left (right ∷ rest) b all =
      let (s, added, c, t) = sum_profit_loss_results_lem bn left right b all.0 in
      let (sum, summed, d, u) = sum_from-IsBalanced s rest c all.1 in
      (sum, rw added summed, d, u ∙ ap (λ x. totals x rest) t)

  covers :
      (values : List (OutcomeValue Num)) (n : ℕ) (pls : List (PositionRow Num))
      → AllOfMarket n pls
      → CoversAll (values_for bn values (non_zero bn pls)) pls
  covers values n pls all = go (non_zero bn pls) refl
    where
      go :
          (held : List (PositionRow Num))
          → non_zero bn pls ≡ held
          → CoversAll (values_for bn values held) pls
      go [] e = covers_none pls
      go (pl ∷ rest) e =
          subst (λ k. CoversAll (some (sorted_values bn values 0 k)) pls)
            (sym (first_of_market n pls pl rest all e)) (covers_some values n pls all)

  -- Where all rows are of outcomes of one market, there is at least one, and with any prices of the
  -- past and any values: the results of the rows at a timestamp are made without an error, and so is
  -- their sum. In each of them and in the sum, the total is the realized and the unrealized profit,
  -- the total cost is the unrealized and the realized cost, and the unrealized profit and its cost
  -- are the unrealized revenue; the total of the sum is the totals of the results added up.
  pub get_profit_results_for_market_lem :
      (n : ℕ) (values : List (OutcomeValue Num)) (ago oldest : ℕ → ℕ → Option Num)
      (pl : PositionRow Num) (pls : List (PositionRow Num))
      → AllOfMarket n (pl ∷ pls)
      → (first : ProfitLossResult Num) × (rest : List (ProfitLossResult Num))
        × (sum : ProfitLossResult Num) × (get_profit_results_for_market bn values ago oldest
              (pl ∷ pls)
            ≡ ok (first ∷ rest))
        × AllBalanced (first ∷ rest)
        × (sum_from bn first rest ≡ ok sum)
        × IsBalanced bn sum
        × (sum.total ≡ totals first.total rest)
  unfolding get_profit_results_for_market get_profit_results_for_timestamp sort_by_outcome
      AllBalanced
  get_profit_results_for_market_lem n values ago oldest pl pls all =
      let vs = values_for bn values (non_zero bn (pl ∷ pls)) in
      let (r, rs, made, b) = results_some vs ago oldest pl pls (covers values n (pl ∷ pls) all) in
      let (first, rest, sorted) = insert_some r (sort_by_outcome rs) in
      let balanced : AllBalanced (first ∷ rest) =
        subst AllBalanced sorted (sort_by_outcome-AllBalanced (r ∷ rs) b) in
      let (sum, summed, c, t) = sum_from-IsBalanced first rest balanced.0 balanced.1 in
      (first, rest, sum, rw made (ap ok sorted), balanced, summed, c, t)
