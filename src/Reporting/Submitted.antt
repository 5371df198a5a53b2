-- ===== src/Reporting/Submitted.antt =====
-- What the removal of an initial report does with the history of its market
-- (src/blockchain/log-processors/initial-report-submitted.ts).
use augur_node.Prelude.{
  ℕ, ◌≡◌, refl, sym, ap, ◌∙◌, Bool, true, false, Option, none, some, List, [], ◌∷◌, ◌==◌,
  if◌then◌else◌, Result, ok, err,
}
use augur_node.Prelude.Tables.{first_where, update_where, insert_row}
use augur_node.BigNumber.{BigNumber}
use augur_node.Database.{
  World, Action, Error, MarketRow, PayoutRow, UniverseRow, modify, awaiting_next_window, or_throw,
  emit, ◌>>=◌, ◌>>◌, log_event, initial_report_submitted, universe_not_found, mailbox_not_found,
  mailbox_balance_failed, market_state_not_current,
}
use augur_node.MarketStates.{
  is_market, same_state, update_market_state, rollback_market_state, set_market_state_to_latest,
}
use augur_node.MarketStates.History.{IsNumbered, state_row, rollback_inserted}
use augur_node.MarketStates.Keeping.{sequence}
use augur_node.Reporting.{
  FormattedEventLog, Chain, get_fee_window, update_market_fee_window, update_dispute_round,
  set_creator_fees, refresh_market_mailbox_eth_balance, payout_or_insert, insert_payout,
}
use augur_node.Reporting.InitialReports.{
  state_after, set_initial_report_size, insert_report, delete_reports, add_report, submit_report,
  report_row, process_initial_report_submitted_log, process_initial_report_submitted_log_removal,
}
use augur_node.Reporting.Keeping.{mailbox_row}

module _ {N : Type 0} where
  -- A write that leaves the histories of all markets.
  abbrev IsSilent : {A : Type 0} → Action N A → Type 0
  IsSilent m = (w : World N) → (m w).1.db.market_states ≡ w.db.market_states

  IsSilent-bind :
      {A B : Type 0} (m : Action N A) (f : A → Action N B)
      → ((a : A) → IsSilent (f a))
      → (w : World N) → (((m >>= f) w).1.db.market_states ≡ (m w).1.db.market_states)
  IsSilent-bind {A} {B} m f k w = go (m w)
    where
      go :
          (p : Result Error A × World N)
          → (let q : Result Error B × World N = elim p.0 [
            | ok a ↦ f a p.1
            | err e ↦ (err e, p.1)
          ] in
              q.1.db.market_states)
            ≡ p.1.db.market_states
      go (ok a, w') = k a w'
      go (err e, w') = refl

  then_err :
      {A B : Type 0} (m : Action N A) (k : Action N B) (w : World N) {e : Error}
      → (m w).0 ≡ err e
      → ((m >> k) w).0 ≡ err e
  then_err {A} {B} m k w {e} h = go (m w) h
    where
      go :
          (p : Result Error A × World N)
          → p.0 ≡ err e
          → (let q : Result Error B × World N = elim p.0 [ ok a ↦ k p.1 | err x ↦ (err x, p.1) ] in
              q.0)
            ≡ err e
      go (ok a, w') q = cc
      go (err x, w') q = cc

  AllSilent : List (Action N (Unit {0})) → Type 0
  AllSilent [] = Unit {0}
  AllSilent (m ∷ ms) = IsSilent m × AllSilent ms

  sequence-IsSilent : (ms : List (Action N (Unit {0}))) → AllSilent ms → IsSilent (sequence ms)
  unfolding AllSilent
  sequence-IsSilent [] k w = refl
  sequence-IsSilent (m ∷ []) k w = k.0 w
  sequence-IsSilent (m ∷ m' ∷ ms) k w =
      IsSilent-bind m (λ done. sequence (m' ∷ ms)) (λ done. sequence-IsSilent (m' ∷ ms) k.1) w
      ∙ k.0 w

  or_throw-IsSilent : {A : Type 0} (o : Option A) (e : Error) → IsSilent (or_throw o e)
  or_throw-IsSilent none e w = refl
  or_throw-IsSilent (some a) e w = refl

  mailbox_row-IsSilent :
      (chain : Chain N) (market_id : ℕ) (market : MarketRow N)
      → IsSilent (mailbox_row chain market_id market)
  mailbox_row-IsSilent chain market_id market w =
      let found = or_throw (chain.balance market.market_creator_mailbox) mailbox_balance_failed in
      IsSilent-bind found
        (λ balance. modify (λ db. record db {
          markets = update_where (is_market market_id) (set_creator_fees balance) db.markets;
        }))
        (λ balance w'. refl) w
      ∙ or_throw-IsSilent _ mailbox_balance_failed w

  mailbox-IsSilent :
      (chain : Chain N) (market_id : ℕ)
      → IsSilent (refresh_market_mailbox_eth_balance chain market_id)
  unfolding refresh_market_mailbox_eth_balance
  mailbox-IsSilent chain market_id w =
      IsSilent-bind (or_throw (first_where (is_market market_id) w.db.markets) mailbox_not_found)
        (mailbox_row chain market_id) (mailbox_row-IsSilent chain market_id) w
      ∙ or_throw-IsSilent _ mailbox_not_found w

  window-IsSilent :
      (chain : Chain N) (universe market_id : ℕ) (next : Bool)
      → IsSilent (update_market_fee_window chain universe market_id next)
  unfolding update_market_fee_window get_fee_window
  window-IsSilent chain universe market_id next w = refl

  round-IsSilent : (market_id : ℕ) → IsSilent (update_dispute_round {N = N} market_id)
  unfolding update_dispute_round
  round-IsSilent market_id w = refl

module _ (bn : BigNumber) where
  open bn use {Num}

  payout_or_insert-IsSilent :
      (m : ℕ) (ns : List (Option Num)) (i t : Bool) (row : Option (PayoutRow Num))
      → IsSilent (payout_or_insert bn m ns i t row)
  payout_or_insert-IsSilent m ns i t none w = refl
  payout_or_insert-IsSilent m ns i t (some p) w = refl

  insert_payout-IsSilent :
      (m : ℕ) (ns : List (Option Num)) (i t : Bool) → IsSilent (insert_payout bn m ns i t)
  unfolding insert_payout
  insert_payout-IsSilent m ns i t w = payout_or_insert-IsSilent m ns i t _ w

  size-IsSilent : (m : ℕ) (size : Option Num) → IsSilent (set_initial_report_size bn m size)
  unfolding set_initial_report_size
  size-IsSilent m size w = refl

  module _ (chain : Chain Num) (log : FormattedEventLog Num) where
    add_report-IsSilent : (payout_id : ℕ) → IsSilent (add_report bn chain log payout_id)
    unfolding AllSilent
    add_report-IsSilent payout_id =
        sequence-IsSilent
          (insert_report bn (report_row bn log (chain.initial_reporter log.market) payout_id)
            ∷ set_initial_report_size bn log.market (some log.amount_staked)
            ∷ update_market_fee_window chain log.universe log.market true
            ∷ update_dispute_round log.market
            ∷ refresh_market_mailbox_eth_balance chain log.market
            ∷ emit (log_event initial_report_submitted log.transaction_hash log.log_index)
            ∷ [])
          (
            (λ w. refl),
            (
              size-IsSilent log.market (some log.amount_staked),
              (
                window-IsSilent chain log.universe log.market true,
                (round-IsSilent log.market, (mailbox-IsSilent chain log.market, ((λ w. refl), tt))),
              ),
            ),
          )

    -- What the removal does after the rollback.
    abbrev remove_report : List (Action Num (Unit {0}))
    remove_report =
        delete_reports bn log.market
        ∷ set_initial_report_size bn log.market none
        ∷ update_market_fee_window chain log.universe log.market false
        ∷ refresh_market_mailbox_eth_balance chain log.market
        ∷ emit (log_event initial_report_submitted log.transaction_hash log.log_index)
        ∷ []

    remove_report-IsSilent : IsSilent (sequence remove_report)
    unfolding AllSilent
    remove_report-IsSilent = sequence-IsSilent remove_report (
      (λ w. refl),
      (
        size-IsSilent log.market none,
        (
          window-IsSilent chain log.universe log.market false,
          (mailbox-IsSilent chain log.market, ((λ w. refl), tt)),
        ),
      ),
    )

    -- The history after a report: the state that was given last.
    submit_report_lem :
        (w : World Num) (u : UniverseRow)
        → (submit_report bn chain log u w).1.db.market_states
          ≡ insert_row
              (state_row w.db.next_market_state_id log.market
                (state_after u.forked)
                log.block_number)
              w.db.market_states
    unfolding update_market_state set_market_state_to_latest
    submit_report_lem w u =
        let insert = insert_payout bn log.market log.payout_numerators log.invalid true in
        IsSilent-bind insert (add_report bn chain log) add_report-IsSilent _
        ∙ insert_payout-IsSilent log.market log.payout_numerators log.invalid true _

    -- After a report that returned, its removal gives the market back the history that it had, if its
    -- universe has not forked; if it has, the market got another state than the removal expects, and
    -- the removal throws that the state is not the most current. The universe of the log is the first
    -- that is found, and the database has given all ids of the histories.
    pub initial_report_removed :
        (w w' : World Num) (u : UniverseRow)
        → first_where (λ r. r.universe == log.universe) w.db.universes ≡ some u
        → IsNumbered w.db.next_market_state_id w.db.market_states
        → process_initial_report_submitted_log bn chain log w ≡ (ok tt, w')
        → (u.forked ≡ false
            → (process_initial_report_submitted_log_removal bn chain log w').1.db.market_states
              ≡ w.db.market_states)
          × (u.forked ≡ true
              → (process_initial_report_submitted_log_removal bn chain log w').0
                ≡ err market_state_not_current)
    unfolding process_initial_report_submitted_log process_initial_report_submitted_log_removal
    initial_report_removed w w' u h numbered e = (
      λ unforked.
          IsSilent-bind (rollback_market_state log.market awaiting_next_window)
            (λ done. sequence remove_report) (λ done. remove_report-IsSilent) w'
          ∙ (rolled_back false unforked).1,
      λ forked.
          then_err (rollback_market_state log.market awaiting_next_window) (sequence remove_report)
            w' (rolled_back true forked).0,
    )
      where
        history :
            w'.db.market_states
            ≡ insert_row
                (state_row w.db.next_market_state_id log.market
                  (state_after u.forked)
                  log.block_number)
                w.db.market_states
        history =
            ap (λ (p : Result Error (Unit {0}) × World Num). p.1.db.market_states)
              (sym e
                ∙ ap (λ row. (or_throw row universe_not_found >>= submit_report bn chain log) w) h)
            ∙ submit_report_lem w u

        rolled_back :
            (forked : Bool)
            → u.forked ≡ forked
            → ((rollback_market_state log.market awaiting_next_window w').0 ≡ (
                if same_state (state_after forked) awaiting_next_window
                then ok tt
                else err market_state_not_current))
              × ((rollback_market_state log.market (state_after forked) w').1.db.market_states
                  ≡ w.db.market_states)
        rolled_back forked f =
            rollback_inserted w.db.next_market_state_id log.market log.block_number
              (state_after forked) awaiting_next_window w.db.market_states w' numbered
              (history
                ∙ ap
                    (λ b.
                      insert_row
                        (state_row w.db.next_market_state_id log.market (state_after b)
                          log.block_number)
                        w.db.market_states)
                    f)
