-- ===== src/Reporting/Contributions.antt =====
-- The removal of a contribution takes it back (src/blockchain/log-processors/crowdsourcer.ts).
use augur_node.Prelude.{
  ℕ, ◌≡◌, refl, ap, ap₂, ◌∙◌, arith, true, Option, some, List, [], ◌∷◌, ◌++◌, ◌==◌, Result, ok,
  ◌&&◌,
}
use augur_node.Prelude.Tables.{first_where, update_where, delete_where, insert_row, count_where}
use augur_node.Prelude.TableLaws.{
  first-update, updated_same, updates-undone, count_zero-first, delete_none, delete-insert,
}
use augur_node.BigNumber.{BigNumber, minus-plus}
use augur_node.Database.{
  World, CrowdsourcerRow, DisputeRow, Emission, log_event, dispute_crowdsourcer_contribution,
  after_ok, ◌>>◌, ◌>>=◌, or_throw, emit, Error, crowdsourcer_not_found,
}
use augur_node.Reporting.{FormattedEventLog}
use augur_node.Reporting.Crowdsourcers.{
  is_crowdsourcer, change_crowdsourcers, set_amount_staked, change_stake, dispute_row, is_dispute,
  process_dispute_crowdsourcer_contribution_log,
  process_dispute_crowdsourcer_contribution_log_removal,
}

module _ (bn : BigNumber) where
  open bn use {Num, plus, minus}

  module _ (log : FormattedEventLog Num) where
    abbrev event : Emission
    event = log_event dispute_crowdsourcer_contribution log.transaction_hash log.log_index

    -- The tables and the event of a contribution, and of its removal, for the stake that it writes.
    abbrev contributed : Num → World Num → World Num
    contributed amount w = record w {
      db = record (w.db) {
        disputes = insert_row (dispute_row bn log) w.db.disputes;
        crowdsourcers =
            update_where (is_crowdsourcer bn log.dispute_crowdsourcer) (set_amount_staked bn amount)
              w.db.crowdsourcers;
      };
      emitted = w.emitted ++ event ∷ [];
    }

    abbrev withdrawn : Num → World Num → World Num
    withdrawn amount w = record w {
      db = record (w.db) {
        disputes = delete_where (is_dispute bn log) w.db.disputes;
        crowdsourcers =
            update_where (is_crowdsourcer bn log.dispute_crowdsourcer) (set_amount_staked bn amount)
              w.db.crowdsourcers;
      };
      emitted = w.emitted ++ event ∷ [];
    }

    -- What is done with the crowdsourcer that was found.
    abbrev change_found :
        (Num → Num) → World Num → Option (CrowdsourcerRow Num) → Result Error (Unit {0}) × World Num
    change_found f w row =
        ((or_throw row crowdsourcer_not_found >>= (λ c.
              change_crowdsourcers bn (is_crowdsourcer bn log.dispute_crowdsourcer)
                (set_amount_staked bn (f c.amount_staked))))
            >> emit event)
          w

    contribution_lem :
        (w : World Num) (c : CrowdsourcerRow Num)
        → first_where (is_crowdsourcer bn log.dispute_crowdsourcer) w.db.crowdsourcers ≡ some c
        → process_dispute_crowdsourcer_contribution_log bn log w
          ≡ (ok tt, contributed (plus c.amount_staked log.amount_staked) w)
    unfolding process_dispute_crowdsourcer_contribution_log change_stake
    contribution_lem w c h =
        ap
          (change_found (λ staked. plus staked log.amount_staked)
            (record w {
              db = record (w.db) { disputes = insert_row (dispute_row bn log) w.db.disputes };
            }))
          h

    withdrawal_lem :
        (w : World Num) (c : CrowdsourcerRow Num)
        → first_where (is_crowdsourcer bn log.dispute_crowdsourcer) w.db.crowdsourcers ≡ some c
        → process_dispute_crowdsourcer_contribution_log_removal bn log w
          ≡ (ok tt, withdrawn (minus c.amount_staked log.amount_staked) w)
    unfolding process_dispute_crowdsourcer_contribution_log_removal change_stake
    withdrawal_lem w c h =
        ap
          (change_found (λ staked. minus staked log.amount_staked)
            (record w {
              db = record (w.db) { disputes = delete_where (is_dispute bn log) w.db.disputes };
            }))
          h

    own_dispute : is_dispute bn log (dispute_row bn log) ≡ true
    own_dispute = both_same log.transaction_hash log.log_index
      where
        both_same : (a b : ℕ) → ((a == a) && (b == b)) ≡ true
        both_same a b = ground arith

    -- A contribution to the only crowdsourcer of its address, whose log has no row in `disputes` yet,
    -- and then the removal of that log, return and leave the tables as they were, each with its event.
    pub contribution_withdrawn :
        (w : World Num) (c : CrowdsourcerRow Num)
        → first_where (is_crowdsourcer bn log.dispute_crowdsourcer) w.db.crowdsourcers ≡ some c
        → count_where (is_crowdsourcer bn log.dispute_crowdsourcer) w.db.crowdsourcers ≡ 1
        → count_where (is_dispute bn log) w.db.disputes ≡ 0
        → (process_dispute_crowdsourcer_contribution_log bn log
              >> process_dispute_crowdsourcer_contribution_log_removal bn log)
            w
          ≡ (ok tt, record w { emitted = (w.emitted ++ event ∷ []) ++ event ∷ [] })
    contribution_withdrawn w c h one fresh =
        let id = log.dispute_crowdsourcer in
        let staked = plus c.amount_staked log.amount_staked in
        let found =
          first-update (is_crowdsourcer bn id) (is_crowdsourcer bn id) (set_amount_staked bn staked)
            w.db.crowdsourcers (λ r. refl)
          ∙ updated_same (is_crowdsourcer bn id) (set_amount_staked bn staked) w.db.crowdsourcers
              h in
        after_ok (process_dispute_crowdsourcer_contribution_log bn log)
          (λ done. process_dispute_crowdsourcer_contribution_log_removal bn log) w
          (contribution_lem w c h)
        ∙ withdrawal_lem (contributed staked w) (set_amount_staked bn staked c) found
        ∙ ap₂ (λ (ds : List (DisputeRow Num)) (cs : List (CrowdsourcerRow Num)). the_world w ds cs)
            (delete-insert (is_dispute bn log) (dispute_row bn log) w.db.disputes own_dispute
              ∙ delete_none (is_dispute bn log) w.db.disputes
                  (count_zero-first (is_dispute bn log) w.db.disputes fresh))
            (updates-undone (is_crowdsourcer bn id) (set_amount_staked bn staked)
              (set_amount_staked bn (minus staked log.amount_staked)) w.db.crowdsourcers (λ r. refl)
              h one
              (ap (λ x. set_amount_staked bn x c)
                (minus-plus bn c.amount_staked log.amount_staked)))
      where
        the_world :
            World Num
            → List (DisputeRow Num)
            → List (CrowdsourcerRow Num)
            → Result Error (Unit {0}) × World Num
        the_world w ds cs = (
          ok tt,
          record w {
            db = record (w.db) { disputes = ds; crowdsourcers = cs };
            emitted = (w.emitted ++ event ∷ []) ++ event ∷ [];
          },
        )
