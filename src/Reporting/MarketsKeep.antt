-- ===== src/Reporting/MarketsKeep.antt =====
-- The end of markets, their migration and disavowal keep every market naming the latest state of its
-- history (src/blockchain/log-processors/market-finalized.ts, market-migrated.ts).
use augur_node.Prelude.{ℕ, refl, true, Option, none, some, [], ◌∷◌, ◌++◌, ◌==◌, ok, if◌then◌else◌}
use augur_node.Prelude.Int.{ℤ, pos}
use augur_node.Prelude.Tables.{first_where, update_where}
use augur_node.BigNumber.{BigNumber}
use augur_node.Database.{
  Action, MarketRow, MarketStateRow, CategoryRow, PayoutRow, modify, emit, throw, or_throw, pure,
  ◌>>=◌, log_event, awaiting_fork_migration, finalized, awaiting_next_window,
  reporting_participant_disavowed, market_not_found, prior_state_not_found, category_not_found,
  payout_not_found, reporting_participant_not_found,
}
use augur_node.MarketStates.{is_market, same_state, update_market_state, rollback_market_state}
use augur_node.MarketStates.Keeping.{
  Keeps, Keeps-bind, if-Keeps, or_throw-Keeps, sequence-Keeps, update_market_state-Keeps,
  rollback_market_state-Keeps,
}
use augur_node.Blocks.{named_row, get_current_time}
use augur_node.Orders.{OrderNumbers, num_ticks_to_tick_size}
use augur_node.Reporting.{
  FormattedEventLog, Chain, update_market_fee_window, refresh_market_mailbox_eth_balance,
}
use augur_node.Reporting.Universes.{change_markets}
use augur_node.Reporting.Markets.{
  plus_one, minus_one, change_disavowals, change_needs_disavowal, disavow, set_mailbox_owner,
  migrate, state_or_skip, advance_to_awaiting_next_window, create_category_if_not_exists,
  category_of, create_if_named, needs_one_more, is_other_market, flag_markets_needing_migration,
  set_finalization, clear_migration, update_outcome_values_from_finalization, remove_outcome_value,
  named_category, in_category, set_non_finalized, change_non_finalized, outcome_rows,
  update_category_aggregations_on_market_finalized,
  update_category_aggregations_on_market_finalized_rollback,
  process_market_participants_disavowed_log, process_market_participants_disavowed_log_removal,
  process_reporting_participant_disavowed_log, process_reporting_participant_disavowed_log_removal,
  process_market_mailbox_transferred_log, process_market_mailbox_transferred_log_removal,
  process_market_migrated_log, process_market_migrated_log_removal, process_market_finalized_log,
  process_market_finalized_log_removal,
}
use augur_node.Reporting.Keeping.{fee_window-Keeps, mailbox-Keeps}
use augur_node.Reporting.UniversesKeep.{change_markets-Keeps}

module _ {N : Type 0} where
  module _ (log : FormattedEventLog N) where
    pub participants_disavowed-Keeps : Keeps (process_market_participants_disavowed_log log)
    unfolding process_market_participants_disavowed_log
    participants_disavowed-Keeps w v =
        change_markets-Keeps (is_market log.market) (change_needs_disavowal minus_one)
          (λ r. (refl, refl)) w v

    pub participants_disavowed_removal-Keeps :
        Keeps (process_market_participants_disavowed_log_removal log)
    unfolding process_market_participants_disavowed_log_removal
    participants_disavowed_removal-Keeps w v =
        change_markets-Keeps (is_market log.market) (change_needs_disavowal plus_one)
          (λ r. (refl, refl)) w v

    pub mailbox_transferred-Keeps : Keeps (process_market_mailbox_transferred_log log)
    unfolding process_market_mailbox_transferred_log
    mailbox_transferred-Keeps =
        change_markets-Keeps (is_market log.market) (set_mailbox_owner log.to_address)
          (λ r. (refl, refl))

    pub mailbox_transferred_removal-Keeps :
        Keeps (process_market_mailbox_transferred_log_removal log)
    unfolding process_market_mailbox_transferred_log_removal
    mailbox_transferred_removal-Keeps =
        change_markets-Keeps (is_market log.market) (set_mailbox_owner log.from_address)
          (λ r. (refl, refl))

  disavow-Keeps : (p a : ℕ) (c : ℤ) (t i : ℕ) → Keeps (disavow {N = N} p a c t i)
  unfolding disavow
  disavow-Keeps p a c t i w v =
      if-Keeps _ (emit (log_event reporting_participant_disavowed t i))
        (if _
          then emit (log_event reporting_participant_disavowed t i)
          else throw reporting_participant_not_found)
        (λ w' v'. v')
        (if-Keeps _ (emit (log_event reporting_participant_disavowed t i))
          (throw reporting_participant_not_found) (λ w' v'. v') (λ w' v'. v'))
        _ v

  pub disavowed-Keeps :
      (log : FormattedEventLog N) → Keeps (process_reporting_participant_disavowed_log log)
  unfolding process_reporting_participant_disavowed_log
  disavowed-Keeps log = disavow-Keeps log.reporting_participant 1 (pos 1) _ _

  pub disavowed_removal-Keeps :
      (log : FormattedEventLog N) → Keeps (process_reporting_participant_disavowed_log_removal log)
  unfolding process_reporting_participant_disavowed_log_removal
  disavowed_removal-Keeps log = disavow-Keeps log.reporting_participant 0 (pos 0) _ _

  state_or_skip-Keeps :
      (m b fw : ℕ) (row : Option MarketStateRow) → Keeps (state_or_skip {N = N} m b fw row)
  state_or_skip-Keeps m b fw none = λ w v. v
  state_or_skip-Keeps m b fw (some r) =
      if-Keeps (same_state r.reporting_state awaiting_fork_migration) _ (pure tt)
        (update_market_state-Keeps m b _) (λ w v. v)

  next_window-Keeps : (m b : ℕ) → Keeps (advance_to_awaiting_next_window {N = N} m b)
  unfolding advance_to_awaiting_next_window
  next_window-Keeps m b w v =
      Keeps-bind (or_throw (first_where (is_market m) w.db.markets) prior_state_not_found)
        (λ market w'.
          state_or_skip m b market.fee_window (named_row market.market_state_id w'.db.market_states)
            w')
        (or_throw-Keeps _ _)
        (λ market w' v'.
          state_or_skip-Keeps m b market.fee_window
            (named_row market.market_state_id w'.db.market_states) w' v')
        w v

module _ (bn : BigNumber) where
  open bn use {Num, plus, minus}

  named-Keeps : (u : ℕ) (category : Option ℕ) → Keeps (create_if_named bn u category)
  unfolding create_category_if_not_exists
  named-Keeps u none w v = v
  named-Keeps u (some category) w v = v

  category_change : (Num → Num → Num) → MarketRow Num → CategoryRow Num → Action Num (Unit {0})
  category_change f market category = modify (λ db. record db {
    categories =
        update_where (in_category category.category)
          (set_non_finalized bn (f category.non_finalized_open_interest market.open_interest))
          db.categories;
  })

  find_category : (Num → Num → Num) → MarketRow Num → Action Num (Unit {0})
  find_category f market w =
      (or_throw (named_category bn market.category w.db.categories) category_not_found
          >>= category_change f market)
        w

  non_finalized-Keeps : (f : Num → Num → Num) (m : ℕ) → Keeps (change_non_finalized bn f m)
  unfolding change_non_finalized category_change find_category
  non_finalized-Keeps f m w v =
      Keeps-bind (or_throw (first_where (is_market m) w.db.markets) market_not_found)
        (find_category f) (or_throw-Keeps _ _)
        (λ market w' v'.
          Keeps-bind
            (or_throw (named_category bn market.category w'.db.categories) category_not_found)
            (category_change f market) (or_throw-Keeps _ _) (λ category w2 v2. v2) w' v')
        w v

  flag-Keeps : (m u : ℕ) → Keeps (flag_markets_needing_migration bn m u)
  unfolding flag_markets_needing_migration
  flag-Keeps m u w v =
      Keeps-bind (or_throw (first_where (is_market m) w.db.markets) market_not_found)
        (λ market.
          if market.forking == 1
          then change_markets (is_other_market bn u m) (needs_one_more bn)
          else pure tt)
        (or_throw-Keeps _ _)
        (λ market.
          if-Keeps (market.forking == 1) _ (pure tt)
            (change_markets-Keeps (is_other_market bn u m) (needs_one_more bn) (λ r. (refl, refl)))
            (λ w' v'. v'))
        w v

  -- What is written once the payout is found.
  value_rows :
      OrderNumbers Num
      → FormattedEventLog Num
      → PayoutRow Num
      → MarketRow Num
      → Action Num (Unit {0})
  value_rows on log payout market w = (
    ok tt,
    record w {
      db = record w.db {
        outcome_values =
            w.db.outcome_values
            ++ outcome_rows bn log (get_current_time w)
                (num_ticks_to_tick_size bn on market.num_ticks market.min_price market.max_price)
                market.min_price 0 payout.payout;
      };
    },
  )

  find_market : OrderNumbers Num → FormattedEventLog Num → PayoutRow Num → Action Num (Unit {0})
  find_market on log payout w =
      (or_throw (first_where (is_market log.market) w.db.markets) payout_not_found
          >>= value_rows on log payout)
        w

  module _ (on : OrderNumbers Num) (chain : Chain Num) (log : FormattedEventLog Num) where
    values-Keeps : Keeps (update_outcome_values_from_finalization bn on log)
    unfolding update_outcome_values_from_finalization value_rows find_market
    values-Keeps w v =
        Keeps-bind
          (or_throw (first_where (λ p. p.market_id == log.market) w.db.payouts) payout_not_found)
          (find_market on log) (or_throw-Keeps _ _)
          (λ payout w' v'.
            Keeps-bind
              (or_throw (first_where (is_market log.market) w'.db.markets) payout_not_found)
              (value_rows on log payout) (or_throw-Keeps _ _) (λ market w2 v2. v2) w' v')
          w v

    category_after : Action Num (Unit {0})
    category_after w =
        create_if_named bn log.new_universe
          (category_of bn (first_where (is_market log.market) w.db.markets)) w

    pub migrated-Keeps : Keeps (process_market_migrated_log bn chain log)
    unfolding process_market_migrated_log category_after
    migrated-Keeps =
        sequence-Keeps
          (advance_to_awaiting_next_window log.market log.block_number
            ∷ update_market_fee_window chain log.new_universe log.market true
            ∷ change_markets (is_market log.market) (migrate log.new_universe minus_one)
            ∷ change_disavowals log.market plus_one
            ∷ category_after
            ∷ [])
          (
            next_window-Keeps log.market log.block_number,
            (
              fee_window-Keeps chain log.new_universe log.market true,
              (
                change_markets-Keeps (is_market log.market) (migrate log.new_universe minus_one)
                    (λ r. (refl, refl)),
                ((λ w v. v), λ w v. named-Keeps log.new_universe _ w v),
              ),
            ),
          )

    pub migrated_removal-Keeps : Keeps (process_market_migrated_log_removal bn log)
    unfolding process_market_migrated_log_removal
    migrated_removal-Keeps =
        sequence-Keeps
          (rollback_market_state log.market awaiting_next_window
            ∷ change_markets (is_market log.market) (migrate log.original_universe plus_one)
            ∷ change_disavowals log.market minus_one
            ∷ [])
          (
            rollback_market_state-Keeps log.market awaiting_next_window,
            (
              change_markets-Keeps (is_market log.market) (migrate log.original_universe plus_one)
                  (λ r. (refl, refl)),
              λ w v. v,
            ),
          )

    pub finalized-Keeps : Keeps (process_market_finalized_log bn on chain log)
    unfolding process_market_finalized_log update_category_aggregations_on_market_finalized
    finalized-Keeps =
        sequence-Keeps
          (update_market_state log.market log.block_number finalized
            ∷ change_markets (is_market log.market) (set_finalization bn (some log.block_number))
            ∷ flag_markets_needing_migration bn log.market log.universe
            ∷ refresh_market_mailbox_eth_balance chain log.market
            ∷ update_outcome_values_from_finalization bn on log
            ∷ change_non_finalized bn minus log.market
            ∷ [])
          (
            update_market_state-Keeps log.market log.block_number finalized,
            (
              change_markets-Keeps (is_market log.market) _ (λ r. (refl, refl)),
              (
                flag-Keeps log.market log.universe,
                (
                  mailbox-Keeps chain log.market,
                  (values-Keeps, non_finalized-Keeps minus log.market),
                ),
              ),
            ),
          )

    pub finalized_removal-Keeps : Keeps (process_market_finalized_log_removal bn chain log)
    unfolding process_market_finalized_log_removal remove_outcome_value
        update_category_aggregations_on_market_finalized_rollback
    finalized_removal-Keeps =
        sequence-Keeps
          (rollback_market_state log.market finalized
            ∷ change_markets (is_market log.market) (set_finalization bn none)
            ∷ change_markets (λ m. m.universe == log.universe) (clear_migration bn)
            ∷ refresh_market_mailbox_eth_balance chain log.market
            ∷ remove_outcome_value bn log.transaction_hash
            ∷ change_non_finalized bn plus log.market
            ∷ [])
          (
            rollback_market_state-Keeps log.market finalized,
            (
              change_markets-Keeps (is_market log.market) _ (λ r. (refl, refl)),
              (
                change_markets-Keeps (λ m. m.universe == log.universe) _ (λ r. (refl, refl)),
                (mailbox-Keeps chain log.market, ((λ w v. v), non_finalized-Keeps plus log.market)),
              ),
            ),
          )
