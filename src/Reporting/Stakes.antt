-- ===== src/Reporting/Stakes.antt =====
-- The payout with the largest stake (src/blockchain/log-processors/crowdsourcer.ts).
use augur_node.Prelude.{
  ℕ, Bool, ◌&&◌, not, Option, none, some, List, [], ◌∷◌, ◌++◌, ◌==◌, ltb, if◌then◌else◌,
}
use augur_node.Prelude.Tables.{select_where, update_where, count_where}
use augur_node.BigNumber.{BigNumber}
use augur_node.Database.{
  Action, Db, CrowdsourcerRow, InitialReportRow, PayoutRow, gets, modify, ◌>>=◌,
}
use augur_node.Reporting.{completed_in}

-- The stake of a crowdsourcer or of an initial report on a payout.
pub record StakesByPayoutId (N : Type 0) : Type 0 where
  pub payout_id : ℕ
  pub amount_staked : N

module _ (bn : BigNumber) where
  open bn use {Num, eq, lt, plus, minus, zero_bn}

  abbrev pub same_stake : StakesByPayoutId Num → StakesByPayoutId Num → Bool
  same_stake a b = a.payout_id == b.payout_id && eq a.amount_staked b.amount_staked

  -- `UNION` keeps one of equal rows.
  unfoldable pub without_repeats : List (StakesByPayoutId Num) → List (StakesByPayoutId Num)
  without_repeats [] = []
  without_repeats (s ∷ stakes) =
      let rest = without_repeats stakes in
      if count_where (same_stake s) stakes == 0 then s ∷ rest else rest

  unfoldable pub crowdsourcer_stakes : List (CrowdsourcerRow Num) → List (StakesByPayoutId Num)
  crowdsourcer_stakes [] = []
  crowdsourcer_stakes (c ∷ rest) =
      record { payout_id = c.payout_id; amount_staked = c.amount_staked } ∷ crowdsourcer_stakes rest

  unfoldable pub report_stakes : List (InitialReportRow Num) → List (StakesByPayoutId Num)
  report_stakes [] = []
  report_stakes (r ∷ rest) =
      record { payout_id = r.payout_id; amount_staked = r.amount_staked } ∷ report_stakes rest

  -- `groupByAndSum(results, ["payoutId"], ["amountStaked"])`; the groups are the properties of an
  -- object whose keys are numerals, which come in ascending order.
  unfoldable pub add_stake :
      StakesByPayoutId Num → List (StakesByPayoutId Num) → List (StakesByPayoutId Num)
  add_stake s [] = s ∷ []
  add_stake s (g ∷ groups) =
      let later = add_stake s groups in
      if s.payout_id == g.payout_id
      then record g { amount_staked = plus s.amount_staked g.amount_staked } ∷ groups
      else (if ltb s.payout_id g.payout_id then s ∷ g ∷ groups else g ∷ later)

  unfoldable pub group_by_and_sum :
      List (StakesByPayoutId Num) → List (StakesByPayoutId Num) → List (StakesByPayoutId Num)
  group_by_and_sum groups [] = groups
  group_by_and_sum groups (s ∷ stakes) = group_by_and_sum (add_stake s groups) stakes

  -- The first group after the sort by stake, the largest first, which keeps the order of equals.
  unfoldable pub most_staked :
      StakesByPayoutId Num → List (StakesByPayoutId Num) → StakesByPayoutId Num
  most_staked best [] = best
  most_staked best (g ∷ groups) =
      most_staked (if lt best.amount_staked g.amount_staked then g else best) groups

  abbrev pub first_of : List (StakesByPayoutId Num) → Option (StakesByPayoutId Num)
  first_of [] = none
  first_of (g ∷ groups) = some (most_staked g groups)

  abbrev pub market_stakes : ℕ → Db Num → List (StakesByPayoutId Num)
  market_stakes market_id db = without_repeats (
      crowdsourcer_stakes (select_where (completed_in market_id) db.crowdsourcers)
      ++ report_stakes (select_where (λ r. r.market_id == market_id) db.initial_reports))

  abbrev pub set_tentative_winning : ℕ → PayoutRow Num → PayoutRow Num
  set_tentative_winning n p = record p { tentative_winning = n }

  -- The payouts after the two updates, or after the one where nothing is staked.
  unfoldable pub mark_payouts :
      ℕ → Option (StakesByPayoutId Num) → List (PayoutRow Num) → List (PayoutRow Num)
  mark_payouts market_id none payouts =
      update_where (λ p. p.market_id == market_id) (set_tentative_winning 0) payouts
  mark_payouts market_id (some best) payouts =
      update_where (λ p. p.market_id == market_id && p.payout_id == best.payout_id)
        (set_tentative_winning 1)
        (update_where (λ p. p.market_id == market_id && not (p.payout_id == best.payout_id))
          (set_tentative_winning 0) payouts)

  unfoldable pub update_tentative_winning_payout : ℕ → Action Num (Unit {0})
  update_tentative_winning_payout market_id = do
    stakes ← gets (market_stakes market_id)
    modify (λ db. record db {
      payouts = mark_payouts market_id (first_of (group_by_and_sum [] stakes)) db.payouts;
    })
