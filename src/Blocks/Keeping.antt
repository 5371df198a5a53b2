-- ===== src/Blocks/Keeping.antt =====
-- What a block and the passing of time keep (src/blockchain/process-block.ts).
use augur_node.Prelude.{ℕ, Bool, ◌&&◌, List, [], ◌∷◌, Option, none, some, ◌==◌}
use augur_node.Database.{
  modify, transaction, Action, ReportingState, designated_reporting, open_reporting,
  awaiting_finalization, crowdsourcing_dispute, emit, ◌>>=◌, ◌>>◌, or_throw, throw,
  market_state_event, block_without_timestamp, timestamp_removal_failed,
}
use augur_node.BlockQueue.{BlockDetail, BlockDirection, add, remove}
use augur_node.MarketStates.{update_market_state, update_active_fee_windows, FeeWindowModifications}
use augur_node.MarketStates.Keeping.{
  Keeps, KeepsReturned, KeepsReturned-bind, Keeps-KeepsReturned, transaction-Keeps, or_throw-Keeps,
  Keeps-bind, Keeps-then, if-Keeps, sequence, sequence-Keeps, update_market_state-Keeps,
  update_active_fee_windows-Keeps,
}
use augur_node.Blocks.{
  each, advance_market, advance_market_reaching_end_time, advance_market_missing_designated_report,
  advance_markets_to_awaiting_finalization, advance_markets_to_crowdsourcing_dispute,
  await_finalization, enter_dispute, mark_winning, advance_windows, is_empty,
  advance_incomplete_crowdsourcers, advance_fee_window_active, advance_time, set_override_timestamp,
  remove_override_timestamp, put_prior, get_override_timestamp, get_current_time, insert_block_row,
  process_present_block, process_block_by_block_details, process_timestamp_set_log,
  process_timestamp_set_log_removal, head_of, tail_of, block_writes, remove_block,
  process_block_and_logs,
}

module _ {N : Type 0} where
  pub each-Keeps :
      {A : Type 0} (list : List A) (f : A → Action N (Unit {0}))
      → ((a : A) → Keeps (f a))
      → Keeps (each list f)
  unfolding each
  each-Keeps [] f k = λ w v. v
  each-Keeps (a ∷ rest) f k = Keeps-then (f a) (each rest f) (k a) (each-Keeps rest f k)

  advance_market-Keeps :
      (universe block_number : ℕ) (s : ReportingState) (market_id : ℕ)
      → Keeps (advance_market {N = N} universe block_number s market_id)
  advance_market-Keeps universe block_number s market_id =
      sequence-Keeps
        (update_market_state market_id block_number s
          ∷ emit (market_state_event universe market_id s)
          ∷ [])
        (update_market_state-Keeps market_id block_number s, λ w v. v)

  reaching-Keeps : (u b t : ℕ) → Keeps (advance_market_reaching_end_time {N = N} u b t)
  unfolding advance_market_reaching_end_time
  reaching-Keeps u b t w v =
      each-Keeps _ (advance_market u b designated_reporting)
        (advance_market-Keeps u b designated_reporting) w v

  missing-Keeps : (u d b t : ℕ) → Keeps (advance_market_missing_designated_report {N = N} u d b t)
  unfolding advance_market_missing_designated_report
  missing-Keeps u d b t w v =
      each-Keeps _ (advance_market u b open_reporting) (advance_market-Keeps u b open_reporting) w v

  awaiting-Keeps :
      (b : ℕ) (expired : List ℕ)
      → Keeps (advance_markets_to_awaiting_finalization {N = N} b expired)
  unfolding advance_markets_to_awaiting_finalization
  awaiting-Keeps b expired w v =
      each-Keeps _ (await_finalization b)
        (λ m.
          sequence-Keeps
            (update_market_state m.market_id b awaiting_finalization
              ∷ (do
                emit (market_state_event m.universe m.market_id awaiting_finalization)
                mark_winning m.market_id)
              ∷ [])
            (update_market_state-Keeps m.market_id b awaiting_finalization, λ w' v'. v'))
        w v

  dispute-Keeps :
      (b : ℕ) (active : List ℕ) → Keeps (advance_markets_to_crowdsourcing_dispute {N = N} b active)
  unfolding advance_markets_to_crowdsourcing_dispute
  dispute-Keeps b active w v =
      each-Keeps _ (enter_dispute b)
        (λ d w' v'. update_market_state-Keeps d.market_id b crowdsourcing_dispute _ v') w v

  -- What follows the change of the fee windows.
  after_windows-Keeps :
      (b : ℕ) (m : FeeWindowModifications)
      → Keeps (
          sequence (
            advance_incomplete_crowdsourcers {N = N} m.expired_fee_windows
            ∷ advance_markets_to_awaiting_finalization b m.expired_fee_windows
            ∷ advance_markets_to_crowdsourcing_dispute b m.new_active_fee_windows
            ∷ []))
  unfolding advance_incomplete_crowdsourcers
  after_windows-Keeps b m =
      sequence-Keeps
        (advance_incomplete_crowdsourcers m.expired_fee_windows
          ∷ advance_markets_to_awaiting_finalization b m.expired_fee_windows
          ∷ advance_markets_to_crowdsourcing_dispute b m.new_active_fee_windows
          ∷ [])
        (
          (λ w v. v),
          (awaiting-Keeps b m.expired_fee_windows, dispute-Keeps b m.new_active_fee_windows),
        )

  pub advance_fee_window_active-Keeps : (b t : ℕ) → Keeps (advance_fee_window_active {N = N} b t)
  unfolding advance_fee_window_active
  advance_fee_window_active-Keeps b t =
      Keeps-bind (update_active_fee_windows b t) (advance_windows b)
        (update_active_fee_windows-Keeps b t)
        (λ m.
          if-Keeps (is_empty m.expired_fee_windows && is_empty m.new_active_fee_windows) _ _
            (λ w v. v) (after_windows-Keeps b m))

  advance_time-Keeps : (u d b t : ℕ) → Keeps (advance_time {N = N} u d b t)
  unfolding advance_time
  advance_time-Keeps u d b t =
      sequence-Keeps
        (advance_market_reaching_end_time u b t
          ∷ advance_market_missing_designated_report u d b t
          ∷ advance_fee_window_active b t
          ∷ [])
        (reaching-Keeps u b t, (missing-Keeps u d b t, advance_fee_window_active-Keeps b t))

  present_block-Keeps :
      (u d : ℕ) (bulk_sync : Bool) (block : BlockDetail) (t : ℕ)
      → Keeps (process_present_block {N = N} u d bulk_sync block t)
  unfolding insert_block_row
  present_block-Keeps u d bulk_sync block t w v = advance_time-Keeps u d block.number _ _ v

  pub process_block_by_block_details-Keeps :
      (u d : ℕ) (block : Option BlockDetail) (bulk_sync : Bool)
      → Keeps (process_block_by_block_details {N = N} u d block bulk_sync)
  unfolding process_block_by_block_details
  process_block_by_block_details-Keeps u d none bulk_sync = λ w v. v
  process_block_by_block_details-Keeps u d (some block) bulk_sync = go block.timestamp
    where
      go :
          (t : Option ℕ)
          → Keeps {N = N}
              (or_throw t block_without_timestamp >>= process_present_block u d bulk_sync block)
      go none = λ w v. v
      go (some t) = present_block-Keeps u d bulk_sync block t

  put_prior-Keeps : (t : ℕ) (removed prior : Option ℕ) → Keeps (put_prior {N = N} t removed prior)
  put_prior-Keeps t none prior = λ w v. v
  put_prior-Keeps t (some removed) none = λ w v. v
  put_prior-Keeps t (some removed) (some prior) =
      if-Keeps (removed == t) _ (throw timestamp_removal_failed) (λ w v. v) (λ w v. v)

  pub process_timestamp_set_log-Keeps : (b t : ℕ) → Keeps (process_timestamp_set_log {N = N} b t)
  unfolding process_timestamp_set_log set_override_timestamp
  process_timestamp_set_log-Keeps b t w v = advance_fee_window_active-Keeps b t _ v

  pub process_timestamp_set_log_removal-Keeps :
      (b t : ℕ) → Keeps (process_timestamp_set_log_removal {N = N} b t)
  unfolding process_timestamp_set_log_removal remove_override_timestamp get_override_timestamp
  process_timestamp_set_log_removal-Keeps b t w v =
      Keeps-then
        (put_prior t (head_of w.override_timestamps) (head_of (tail_of w.override_timestamps)))
        (λ w'. advance_fee_window_active b (get_current_time w') w') (put_prior-Keeps t _ _)
        (λ w' v'. advance_fee_window_active-Keeps b (get_current_time w') w' v')
        (record w { override_timestamps = tail_of w.override_timestamps }) v

  abbrev pub AllReturned : List (Action N (Unit {0})) → Type 0
  AllReturned [] = Unit {0}
  AllReturned (m ∷ ms) = KeepsReturned m × AllReturned ms

  each-KeepsReturned :
      (writes : List (Action N (Unit {0})))
      → AllReturned writes
      → KeepsReturned (each writes (λ db_write_function. db_write_function))
  unfolding each
  each-KeepsReturned [] all = λ w v. v
  each-KeepsReturned (m ∷ ms) all =
      KeepsReturned-bind m (λ done. each ms (λ db_write_function. db_write_function)) all.0
        (λ done. each-KeepsReturned ms all.1)

  writes-KeepsReturned :
      (u d : ℕ) (direction : BlockDirection) (block : BlockDetail) (bulk_sync : Bool)
      (writes : List (Action N (Unit {0})))
      → AllReturned writes
      → KeepsReturned (block_writes u d direction block bulk_sync writes)
  writes-KeepsReturned u d add block bulk_sync writes all =
      KeepsReturned-bind (process_block_by_block_details u d (some block) bulk_sync)
        (λ done. each writes (λ db_write_function. db_write_function))
        (Keeps-KeepsReturned (process_block_by_block_details u d (some block) bulk_sync)
          (process_block_by_block_details-Keeps u d (some block) bulk_sync))
        (λ done. each-KeepsReturned writes all)
  writes-KeepsReturned u d remove block bulk_sync writes all =
      KeepsReturned-bind (each writes (λ db_write_function. db_write_function))
        (λ done. modify (remove_block block)) (each-KeepsReturned writes all) (λ done w v. v)

  pub process_block_and_logs-Keeps :
      (u d : ℕ) (direction : BlockDirection) (block : Option BlockDetail) (bulk_sync : Bool)
      (writes : List (Action N (Unit {0})))
      → AllReturned writes
      → Keeps (process_block_and_logs u d direction block bulk_sync writes)
  unfolding process_block_and_logs
  process_block_and_logs-Keeps u d direction none bulk_sync writes all = λ w v. v
  process_block_and_logs-Keeps u d direction (some block) bulk_sync writes all =
      Keeps-bind (or_throw block.timestamp block_without_timestamp)
        (λ t. transaction (block_writes u d direction block bulk_sync writes)) (or_throw-Keeps _ _)
        (λ t.
          transaction-Keeps (block_writes u d direction block bulk_sync writes)
            (writes-KeepsReturned u d direction block bulk_sync writes all))
