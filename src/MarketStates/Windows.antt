-- ===== src/MarketStates/Windows.antt =====
-- The fee windows follow the clock (src/blockchain/log-processors/database.ts).
use augur_node.Prelude.{
  ℕ, ◌≡◌, sym, ap, ◌∙◌, List, [], ◌∷◌, map, ok, ◌++◌, append-nil, append_assoc,
}
use augur_node.Prelude.Tables.{select_where}
use augur_node.Database.{
  World, past, current, Emission, EventName, fee_window_event, fee_window_closed, fee_window_opened,
  ◌>>◌, pure, after_ok,
}
use augur_node.MarketStates.{
  address_of, is_expired, is_newly_active, update_active_fee_windows, emit_windows, report_windows,
}
use augur_node.MarketStates.Marking.{
  HasDistinctWindows, at_time, mark_windows-select, HasDistinctWindows-update, newly_active_kept,
  marked_windows,
}

-- One event for each window.
abbrev pub window_events : EventName → ℕ → ℕ → List ℕ → List Emission
window_events name block_number timestamp addresses =
    map (fee_window_event name block_number timestamp) addresses

module _ {N : Type 0} where
  emit_windows_lem :
      (name : EventName) (b t : ℕ) (ids : List ℕ) (w : World N)
      → emit_windows name b t ids w
        ≡ (ok tt, record w { emitted = w.emitted ++ window_events name b t ids })
  unfolding emit_windows
  emit_windows_lem name b t [] w =
      ap (λ es. (ok tt, record w { emitted = es })) (sym (append-nil w.emitted))
  emit_windows_lem name b t (a ∷ ids) w =
      emit_windows_lem name b t ids
        (record w { emitted = w.emitted ++ fee_window_event name b t a ∷ [] })
      ∙ ap (λ es. (ok tt, record w { emitted = es })) (append_assoc w.emitted _ _)

  report_windows_lem :
      (b t : ℕ) (closed opened : List ℕ) (w : World N)
      → report_windows b t closed opened w ≡ (
        ok (record { expired_fee_windows = closed; new_active_fee_windows = opened }),
        record w {
          emitted =
              (w.emitted ++ window_events fee_window_closed b t closed)
              ++ window_events fee_window_opened b t opened;
        },
      )
  unfolding report_windows
  report_windows_lem b t closed opened w =
      after_ok (emit_windows fee_window_closed b t closed)
        (λ u.
          emit_windows fee_window_opened b t opened
          >> pure (record { expired_fee_windows = closed; new_active_fee_windows = opened }))
        w (emit_windows_lem fee_window_closed b t closed w)
      ∙ after_ok (emit_windows fee_window_opened b t opened)
          (λ u. pure (record { expired_fee_windows = closed; new_active_fee_windows = opened })) _
          (emit_windows_lem fee_window_opened b t opened _)

  -- Where no two fee windows have one address, the call returns; it sets each window whose end is
  -- before the timestamp to past, each window whose start is before it and whose end is after it
  -- to current, and keeps the others; it reports and returns the windows that had not been past
  -- and those that had not been current, the closed ones first, and changes nothing else.
  pub update_active_fee_windows_lem :
      (b t : ℕ) (w : World N)
      → HasDistinctWindows w.db.fee_windows
      → let closed = map address_of (select_where (is_expired t) w.db.fee_windows) in
        let opened = map address_of (select_where (is_newly_active t) w.db.fee_windows) in
        update_active_fee_windows b t w ≡ (
          ok (record { expired_fee_windows = closed; new_active_fee_windows = opened }),
          record w {
            db = record (w.db) { fee_windows = map (at_time t) w.db.fee_windows };
            emitted =
                (w.emitted ++ window_events fee_window_closed b t closed)
                ++ window_events fee_window_opened b t opened;
          },
        )
  unfolding update_active_fee_windows
  update_active_fee_windows_lem b t w k =
      rw (mark_windows-select (is_expired t) past w.db.fee_windows k) (
        rw
          (
            mark_windows-select (is_newly_active t) current _
                (HasDistinctWindows-update (is_expired t) past w.db.fee_windows k),
            newly_active_kept t w.db.fee_windows,
            marked_windows t w.db.fee_windows,
          )
          (report_windows_lem b t _ _ _))
