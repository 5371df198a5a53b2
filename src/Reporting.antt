-- ===== src/Reporting.antt =====
-- Reporting logs (src/blockchain/log-processors): what they share. Values that a processor asks the
-- contracts or the node for are fields of `Chain`; a log has the fields that the processors read.
pub mod InitialReports
pub mod Stakes
pub mod Totals
pub mod MostStaked
pub mod Contributions
pub mod Submitted
pub mod Crowdsourcers
pub mod Universes
pub mod Markets
pub mod Created
pub mod Keeping
pub mod LogsKeep
pub mod UniversesKeep
pub mod MarketsKeep
pub mod CreatedKeep
pub mod Samples
mod Tests
use augur_node.Prelude.{
  ℕ, suc, ◌+◌, Bool, true, false, ◌&&◌, Option, none, some, List, [], ◌∷◌, ◌==◌, ltb, if◌then◌else◌,
  ok,
}
use augur_node.Prelude.Tables.{first_where, update_where, insert_row, count_where}
use augur_node.BigNumber.{BigNumber}
use augur_node.Database.{
  Db, Action, MarketRow, PayoutRow, CrowdsourcerRow, FeeWindowRow, pure, gets, or_throw, modify,
  ◌>>=◌, ◌>>◌, mailbox_not_found, mailbox_balance_failed,
}
use augur_node.MarketStates.{is_market}
use augur_node.Blocks.{get_current_time}

-- `FormattedEventLog`
pub record FormattedEventLog (N : Type 0) : Type 0 where
  pub block_number : ℕ
  pub transaction_hash : ℕ
  pub log_index : ℕ
  pub universe : ℕ
  pub market : ℕ
  pub dispute_crowdsourcer : ℕ
  pub payout_numerators : List (Option N)
  pub invalid : Bool
  pub size : N
  pub reporter : ℕ
  pub amount_staked : N
  pub amount_redeemed : N
  pub rep_received : N
  pub reporting_fees_received : N
  pub is_designated_reporter : Bool
  pub from_address : ℕ
  pub to_address : ℕ
  pub fee_window : ℕ
  pub start_time : ℕ
  pub end_time : ℕ
  pub child_universe : ℕ
  pub parent_universe : ℕ
  pub new_universe : ℕ
  pub original_universe : ℕ
  pub reporting_participant : ℕ
  pub market_creator : ℕ
  pub topic : ℕ
  pub is_categorical : Bool
  pub outcomes : List ℕ
  pub min_price : N
  pub max_price : N
  pub new_timestamp : ℕ

-- What the contracts and the node answer; no balance stands for an error of the node. A name of a
-- category is a number, so the conversion to upper case is a function on numbers.
pub record Chain (N : Type 0) : Type 0 where
  pub initial_reporter : ℕ → ℕ
  pub reputation_token : ℕ → ℕ
  pub forking_market : ℕ → Option ℕ
  pub fee_token : ℕ → ℕ
  pub fee_window_by_timestamp : ℕ → ℕ → ℕ
  pub balance : ℕ → Option N
  pub dispute_round_duration_seconds : ℕ
  pub market_fee_window : ℕ → ℕ
  pub market_end_time : ℕ → ℕ
  pub market_creator_mailbox : ℕ → ℕ
  pub num_ticks : ℕ → N
  pub validity_bond_attoeth : ℕ → N
  pub share_token : ℕ → ℕ → ℕ
  pub to_upper_case : ℕ → ℕ

abbrev pub is_completed : Option Bool → Bool
is_completed none = false
is_completed (some b) = b

abbrev pub in_market : {N : Type 0} → ℕ → CrowdsourcerRow N → Bool
in_market market_id c = c.market_id == market_id

-- The fee window of a universe that contains a time.
abbrev pub contains_time : ℕ → ℕ → FeeWindowRow → Bool
contains_time universe t r = r.universe == universe && (ltb r.start_time t && ltb t r.end_time)

abbrev pub window_or : ℕ → Option FeeWindowRow → ℕ
window_or fallback none = fallback
window_or fallback (some r) = r.fee_window

module _ {N : Type 0} where
  abbrev pub time_of_window : Chain N → Bool → ℕ → ℕ
  time_of_window chain next now = now + (if next then chain.dispute_round_duration_seconds else 0)

  unfoldable pub get_fee_window : Chain N → ℕ → Bool → Action N ℕ
  get_fee_window chain universe next w =
      let t = time_of_window chain next (get_current_time w) in
      (
        ok (
            window_or (chain.fee_window_by_timestamp universe t)
              (first_where (contains_time universe t) w.db.fee_windows)),
        w,
      )

  abbrev pub set_fee_window : ℕ → MarketRow N → MarketRow N
  set_fee_window fee_window r = record r { fee_window = fee_window }

  unfoldable pub update_market_fee_window : Chain N → ℕ → ℕ → Bool → Action N (Unit {0})
  update_market_fee_window chain universe market_id next = do
    fee_window ← get_fee_window chain universe next
    modify (λ db. record db {
      markets = update_where (is_market market_id) (set_fee_window fee_window) db.markets;
    })

  abbrev pub completed_in : ℕ → CrowdsourcerRow N → Bool
  completed_in market_id c = is_completed c.completed && c.market_id == market_id

  abbrev pub set_dispute_rounds : Option ℕ → MarketRow N → MarketRow N
  set_dispute_rounds rounds r = record r { dispute_rounds = rounds }

  unfoldable pub update_dispute_round : ℕ → Action N (Unit {0})
  update_dispute_round market_id = modify (λ db. record db {
    markets =
        update_where (is_market market_id)
          (set_dispute_rounds (some (count_where (completed_in market_id) db.crowdsourcers)))
          db.markets;
  })

  abbrev pub set_creator_fees : N → MarketRow N → MarketRow N
  set_creator_fees balance r = record r { market_creator_fees_balance = balance }

  unfoldable pub refresh_market_mailbox_eth_balance : Chain N → ℕ → Action N (Unit {0})
  refresh_market_mailbox_eth_balance chain market_id = do
    row ← gets (λ db. first_where (is_market market_id) db.markets)
    market ← or_throw row mailbox_not_found
    balance ← or_throw (chain.balance market.market_creator_mailbox) mailbox_balance_failed
    modify (λ db. record db {
      markets = update_where (is_market market_id) (set_creator_fees balance) db.markets;
    })

module _ (bn : BigNumber) where
  open bn use {Num, eq}

  -- A column is asked for where the log has a numerator for it.
  unfoldable pub has_numerators : List (Option Num) → List (Option Num) → Bool
  has_numerators [] columns = true
  has_numerators (none ∷ numerators) [] = has_numerators numerators []
  has_numerators (none ∷ numerators) (column ∷ columns) = has_numerators numerators columns
  has_numerators (some v ∷ numerators) [] = false
  has_numerators (some v ∷ numerators) (none ∷ columns) = false
  has_numerators (some v ∷ numerators) (some u ∷ columns) =
      eq u v && has_numerators numerators columns

  abbrev pub same_bool : Bool → Bool → Bool
  same_bool true b = b
  same_bool false b = if b then false else true

  abbrev pub is_payout : ℕ → List (Option Num) → Bool → PayoutRow Num → Bool
  is_payout market_id numerators invalid p =
      p.market_id == market_id
      && (same_bool p.is_invalid invalid && has_numerators numerators p.payout)

  abbrev pub add_payout : ℕ → List (Option Num) → Bool → Bool → Db Num → Db Num
  add_payout market_id numerators invalid tentative_winning db = record db {
    payouts =
        insert_row
          (record {
            payout_id = db.next_payout_id;
            market_id = market_id;
            is_invalid = invalid;
            payout = numerators;
            tentative_winning = if tentative_winning then 1 else 0;
            winning = none;
          })
          db.payouts;
    next_payout_id = suc db.next_payout_id;
  }

  -- What is inserted, where no payout is found.
  abbrev pub payout_or_insert :
      ℕ → List (Option Num) → Bool → Bool → Option (PayoutRow Num) → Action Num ℕ
  payout_or_insert market_id numerators invalid tentative_winning none = do
    id ← gets (λ db. db.next_payout_id)
    modify (add_payout market_id numerators invalid tentative_winning)
    pure id
  payout_or_insert market_id numerators invalid tentative_winning (some p) = pure p.payout_id

  unfoldable pub insert_payout : ℕ → List (Option Num) → Bool → Bool → Action Num ℕ
  insert_payout market_id numerators invalid tentative_winning = do
    row ← gets (λ db. first_where (is_payout market_id numerators invalid) db.payouts)
    payout_or_insert market_id numerators invalid tentative_winning row
