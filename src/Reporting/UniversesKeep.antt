-- ===== src/Reporting/UniversesKeep.antt =====
-- Universes and their fee windows keep every market naming the latest state of its history
-- (src/blockchain/log-processors/universe-forked.ts, fee-window-created.ts).
use augur_node.Prelude.{ℕ, ◌≡◌, refl, Bool, true, false, ◌&&◌, none, some, List, [], ◌∷◌, ◌==◌}
use augur_node.Prelude.Tables.{first_where, select_where, update_where, insert_row}
use augur_node.BigNumber.{BigNumber}
use augur_node.Database.{
  Action, MarketRow, modify, emit, or_throw, ◌>>◌, log_event, fee_window_created, fee_token,
  participation_token, awaiting_fork_migration, forking, crowdsourcing_dispute, universe_created,
  rep, market_state_event, forking_market_not_found,
}
use augur_node.MarketStates.{is_market, update_market_state}
use augur_node.MarketStates.Ordered.{update-AllLatest}
use augur_node.MarketStates.Keeping.{
  Keeps, Keeps-bind, Keeps-then, or_throw-Keeps, sequence, sequence-Keeps,
  update_market_state-Keeps,
}
use augur_node.Blocks.{each, get_current_time, advance_fee_window_active}
use augur_node.Blocks.Keeping.{each-Keeps, advance_fee_window_active-Keeps}
use augur_node.Reporting.{FormattedEventLog, Chain, insert_payout}
use augur_node.Reporting.Universes.{
  change_markets, change_universes, set_forked, set_forking, add_disavowal, drop_disavowal, rounds,
  window_row, clear_payout, set_tentative, is_other, is_reverted, ids_of, token_row, revert_market,
  uncomplete_nonforking_crowdsourcers, process_universe_forked_log,
  process_universe_forked_log_removal, process_fee_window_created_log,
  process_fee_window_created_log_removal, process_fee_window_redeemed_log,
  process_fee_window_redeemed_log_removal, process_universe_created_log,
  process_universe_created_log_removal,
}
use augur_node.Reporting.Keeping.{insert_payout-Keeps}

module _ {N : Type 0} where
  -- A change of markets that keeps what names their states.
  pub change_markets-Keeps :
      (p : MarketRow N → Bool) (f : MarketRow N → MarketRow N)
      → ((r : MarketRow N)
          → ((f r).market_state_id ≡ r.market_state_id) × ((f r).market_id ≡ r.market_id))
      → Keeps (change_markets p f)
  change_markets-Keeps p f k w v = (v.0, update-AllLatest p f _ _ k v.1)

  abbrev forget_winner : ℕ → ℕ → Action N (Unit {0})
  forget_winner universe market_id = do
    emit (market_state_event universe market_id awaiting_fork_migration)
    modify (λ db. record db {
      payouts = update_where (λ p. p.market_id == market_id) clear_payout db.payouts;
    })
    modify (λ db. record db {
      payouts = update_where (λ p. p.market_id == market_id) set_tentative db.payouts;
    })

  revert-Keeps : (u b m : ℕ) → Keeps (revert_market {N = N} u b m)
  unfolding revert_market
  revert-Keeps u b m =
      Keeps-then (update_market_state m b awaiting_fork_migration) (forget_winner u m)
        (update_market_state-Keeps m b awaiting_fork_migration) (λ w v. v)

  uncomplete-Keeps : (u m : ℕ) → Keeps (uncomplete_nonforking_crowdsourcers {N = N} u m)
  unfolding uncomplete_nonforking_crowdsourcers
  uncomplete-Keeps u m w v = (
    v.0,
    update-AllLatest _ _ _ _ (λ r. (refl, refl))
        (update-AllLatest (is_other u m) (rounds none) _ w.db.markets (λ r. (refl, refl)) v.1),
  )

  -- The markets whose states a fork takes back are those of the tables that it finds.
  revert_all : ℕ → ℕ → Action N (Unit {0})
  revert_all universe block_number w =
      each (ids_of (select_where (is_reverted universe w.db) w.db.markets))
        (revert_market universe block_number) w

  revert_all-Keeps : (u b : ℕ) → Keeps (revert_all u b)
  unfolding revert_all
  revert_all-Keeps u b w v = each-Keeps _ (revert_market u b) (revert-Keeps u b) w v

  abbrev fork : FormattedEventLog N → ℕ → List (Action N (Unit {0}))
  fork log forking_market =
      change_markets (is_market forking_market) (set_forking 1)
      ∷ update_market_state forking_market log.block_number forking
      ∷ emit (market_state_event log.universe forking_market forking)
      ∷ change_markets (is_other log.universe forking_market) add_disavowal
      ∷ change_universes (λ u. u.universe == log.universe) (set_forked true)
      ∷ revert_all log.universe log.block_number
      ∷ uncomplete_nonforking_crowdsourcers log.universe forking_market
      ∷ []

  pub forked-Keeps :
      (chain : Chain N) (log : FormattedEventLog N) → Keeps (process_universe_forked_log chain log)
  unfolding process_universe_forked_log revert_all
  forked-Keeps chain log =
      Keeps-bind (or_throw (chain.forking_market log.universe) forking_market_not_found)
        (λ m. sequence (fork log m)) (or_throw-Keeps _ _)
        (λ m. sequence-Keeps (fork log m) (
          change_markets-Keeps (is_market m) (set_forking 1) (λ r. (refl, refl)),
          (
            update_market_state-Keeps m log.block_number forking,
            (
              (λ w v. v),
              (
                change_markets-Keeps (is_other log.universe m) add_disavowal (λ r. (refl, refl)),
                (
                  (λ w v. v),
                  (revert_all-Keeps log.universe log.block_number, uncomplete-Keeps log.universe m),
                ),
              ),
            ),
          ),
        ))

  abbrev unfork : FormattedEventLog N → MarketRow N → List (Action N (Unit {0}))
  unfork log market =
      change_markets (is_market market.market_id) (set_forking 0)
      ∷ emit (market_state_event log.universe market.market_id crowdsourcing_dispute)
      ∷ change_markets (is_other log.universe market.market_id) drop_disavowal
      ∷ change_universes (λ u. u.universe == log.universe) (set_forked false)
      ∷ []

  pub forked_removal-Keeps :
      (log : FormattedEventLog N) → Keeps (process_universe_forked_log_removal log)
  unfolding process_universe_forked_log_removal
  forked_removal-Keeps log w v =
      Keeps-bind
        (or_throw (first_where (λ m. m.forking == 1 && m.universe == log.universe) w.db.markets)
          forking_market_not_found)
        (λ m. sequence (unfork log m)) (or_throw-Keeps _ _)
        (λ m. sequence-Keeps (unfork log m) (
          change_markets-Keeps (is_market m.market_id) (set_forking 0) (λ r. (refl, refl)),
          (
            (λ w' v'. v'),
            (
              change_markets-Keeps (is_other log.universe m.market_id) drop_disavowal
                  (λ r. (refl, refl)),
              λ w' v'. v',
            ),
          ),
        ))
        w v

  abbrev add_window : Chain N → FormattedEventLog N → Action N (Unit {0})
  add_window chain log = do
    emit (log_event fee_window_created log.transaction_hash log.log_index)
    modify (λ db. record db { fee_windows = insert_row (window_row chain log) db.fee_windows })
    modify (λ db. record db {
      tokens =
          insert_row (token_row (chain.fee_token log.fee_window) (some log.fee_window) fee_token)
            (insert_row (token_row log.fee_window none participation_token) db.tokens);
    })

  pub window_created-Keeps :
      (chain : Chain N) (log : FormattedEventLog N)
      → Keeps (process_fee_window_created_log chain log)
  unfolding process_fee_window_created_log
  window_created-Keeps chain log =
      Keeps-then (add_window chain log)
        (λ w. advance_fee_window_active log.block_number (get_current_time w) w) (λ w v. v)
        (λ w v. advance_fee_window_active-Keeps log.block_number (get_current_time w) w v)

  pub window_created_removal-Keeps :
      (log : FormattedEventLog N) → Keeps (process_fee_window_created_log_removal log)
  unfolding process_fee_window_created_log_removal
  window_created_removal-Keeps log w v = v

  pub window_redeemed-Keeps :
      (log : FormattedEventLog N) → Keeps (process_fee_window_redeemed_log log)
  unfolding process_fee_window_redeemed_log
  window_redeemed-Keeps log w v = v

  pub window_redeemed_removal-Keeps :
      (log : FormattedEventLog N) → Keeps (process_fee_window_redeemed_log_removal log)
  unfolding process_fee_window_redeemed_log_removal
  window_redeemed_removal-Keeps log w v = v

module _ (bn : BigNumber) where
  open bn use {Num}

  module _ (chain : Chain Num) (log : FormattedEventLog Num) where
    abbrev add_universe : ℕ → Action Num (Unit {0})
    add_universe payout_id = do
      modify (λ db. record db {
        universes =
            insert_row
              (record {
                universe = log.child_universe;
                parent_universe = some log.parent_universe;
                payout_id = payout_id;
                reputation_token = chain.reputation_token log.child_universe;
                forked = false;
              })
              db.universes;
      })
      emit (log_event universe_created log.transaction_hash log.log_index)
      modify (λ db. record db {
        tokens =
            insert_row (token_row (chain.reputation_token log.child_universe) none rep) db.tokens;
      })

    pub universe_created-Keeps : Keeps (process_universe_created_log bn chain log)
    unfolding process_universe_created_log
    universe_created-Keeps =
        Keeps-bind (insert_payout bn log.child_universe log.payout_numerators log.invalid true)
          add_universe
          (insert_payout-Keeps bn log.child_universe log.payout_numerators log.invalid true)
          (λ payout_id w v. v)

    pub universe_created_removal-Keeps : Keeps (process_universe_created_log_removal bn log)
    unfolding process_universe_created_log_removal
    universe_created_removal-Keeps w v = v
