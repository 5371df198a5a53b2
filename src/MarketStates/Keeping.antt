-- ===== src/MarketStates/Keeping.antt =====
-- Writes that keep every market naming the latest state of its history
-- (src/blockchain/log-processors/database.ts).
use augur_node.Prelude.{
  ℕ, ◌≡◌, refl, sym, ap, ◌∙◌, subst, Bool, true, false, Option, none, some, List, [], ◌∷◌, ◌++◌,
  ◌==◌, ==_iff, if◌then◌else◌, Bool-cases, inl, inr, Result, ok, err,
}
use augur_node.Prelude.Tables.{delete_where, count_where}
use augur_node.Database.{
  transaction, pure, World, Action, Error, MarketStateRow, ReportingState, or_throw, EventName,
  fee_window_event, fee_window_closed, fee_window_opened, ◌>>=◌, ◌>>◌,
}
use augur_node.MarketStates.{
  FeeWindowModifications, query_current_market_state_id, is_current, set_market_state_to_latest,
  update_market_state, rollback_market_state, update_active_fee_windows, report_windows,
  emit_windows,
}
use augur_node.MarketStates.Ordered.{
  IsOrdered, AllLatest, IsConsistent, IsOrdered-insert, IsOrdered-delete, query-insert_other,
  query-IsOwned, query-delete_other, count_zero-delete, ==_sym, delete_nothing,
  set_latest-AllLatest,
}

module _ {N : Type 0} where
  -- A write that keeps the tables consistent, whether it returns or throws.
  abbrev pub Keeps : {A : Type 0} → Action N A → Type 0
  Keeps m = (w : World N) → IsConsistent w.db → IsConsistent (m w).1.db

  pub Keeps-bind :
      {A B : Type 0} (m : Action N A) (f : A → Action N B)
      → Keeps m
      → ((a : A) → Keeps (f a))
      → Keeps (m >>= f)
  Keeps-bind {A} {B} m f km kf w v = go (m w) (km w v)
    where
      go :
          (p : Result Error A × World N)
          → IsConsistent p.1.db
          → IsConsistent (
              let q : Result Error B × World N = elim p.0 [
                | ok a ↦ f a p.1
                | err e ↦ (err e, p.1)
              ] in
              q.1.db)
      go (ok a, w') c = kf a w' c
      go (err e, w') c = c

  pub Keeps-then :
      {A B : Type 0} (m : Action N A) (k : Action N B) → Keeps m → Keeps k → Keeps (m >> k)
  Keeps-then m k km kk = Keeps-bind m (λ a. k) km (λ a. kk)

  -- A handler that only writes is the sequence of its writes.
  abbrev pub sequence : List (Action N (Unit {0})) → Action N (Unit {0})
  sequence [] = pure tt
  sequence (m ∷ []) = m
  sequence (m ∷ k ∷ ms) = m >> sequence (k ∷ ms)

  abbrev pub AllKeep : List (Action N (Unit {0})) → Type 0
  AllKeep [] = Unit {0}
  AllKeep (m ∷ []) = Keeps m
  AllKeep (m ∷ k ∷ ms) = Keeps m × AllKeep (k ∷ ms)

  pub sequence-Keeps : (ms : List (Action N (Unit {0}))) → AllKeep ms → Keeps (sequence ms)
  sequence-Keeps [] all = λ w v. v
  sequence-Keeps (m ∷ []) all = all
  sequence-Keeps (m ∷ k ∷ ms) all =
      Keeps-then m (sequence (k ∷ ms)) all.0 (sequence-Keeps (k ∷ ms) all.1)

  pub or_throw-Keeps : {A : Type 0} (o : Option A) (e : Error) → Keeps (or_throw {N = N} o e)
  or_throw-Keeps none e = λ w v. v
  or_throw-Keeps (some a) e = λ w v. v

  pub if-Keeps :
      {A : Type 0} (b : Bool) (m k : Action N A) → Keeps m → Keeps k → Keeps (if b then m else k)
  if-Keeps true m k km kk = km
  if-Keeps false m k km kk = kk

  pub update_market_state-Keeps :
      (m b : ℕ) (st : ReportingState) → Keeps (update_market_state {N = N} m b st)
  unfolding update_market_state set_market_state_to_latest
  update_market_state-Keeps m b st w v = (
    IsOrdered-insert 0 w.db.next_market_state_id m b st w.db.market_states v.0,
    set_latest-AllLatest m w.db.market_states _ w.db.markets
        (λ m' h.
          query-insert_other m' w.db.next_market_state_id m b st w.db.market_states
            (==_sym m m' ∙ h))
        v.1,
  )

  -- The rollback keeps the latest states of the other markets.
  others_kept :
      (m : ℕ) (expected : ReportingState) (w : World N) (id : Option ℕ)
      → query_current_market_state_id m w.db.market_states ≡ id
      → IsConsistent w.db
      → (m' : ℕ) → (m' == m) ≡ false
      → query_current_market_state_id m' (delete_where (is_current id expected) w.db.market_states)
        ≡ query_current_market_state_id m' w.db.market_states
  others_kept m expected w none e v m' h =
      ap (query_current_market_state_id m') (delete_nothing expected w.db.market_states)
  others_kept m expected w (some id) e v m' h =
      query-delete_other m m' id expected w.db.market_states
        (query-IsOwned m 0 w.db.next_market_state_id id w.db.market_states v.0 e) h

  pub rollback_market_state-Keeps :
      (m : ℕ) (expected : ReportingState) → Keeps (rollback_market_state {N = N} m expected)
  unfolding rollback_market_state set_market_state_to_latest
  rollback_market_state-Keeps m expected w v =
      let id = query_current_market_state_id m w.db.market_states in
      let p = is_current id expected in
      elim (Bool-cases (count_where p w.db.market_states == 0)) [
        | inl e ↦ rw e (
            subst
              (λ (states : List MarketStateRow).
                IsOrdered 0 w.db.next_market_state_id states × AllLatest states w.db.markets)
              (sym (count_zero-delete p w.db.market_states ((==_iff _ 0).0 e))) v)
        | inr e ↦ rw e (
          IsOrdered-delete p 0 _ w.db.market_states v.0,
          set_latest-AllLatest m w.db.market_states _ w.db.markets
              (others_kept m expected w id refl v) v.1,
        )
      ]

  -- A write that keeps the tables consistent where it returns.
  abbrev pub IsKept : {A : Type 0} → Result Error A × World N → Type 0
  IsKept (ok a, w) = IsConsistent w.db
  IsKept (err e, w) = Unit {0}

  abbrev pub KeepsReturned : {A : Type 0} → Action N A → Type 0
  KeepsReturned m = (w : World N) → IsConsistent w.db → IsKept (m w)

  pub Keeps-KeepsReturned : {A : Type 0} (m : Action N A) → Keeps m → KeepsReturned m
  Keeps-KeepsReturned {A} m k w v = go (m w) (k w v)
    where
      go : (p : Result Error A × World N) → IsConsistent p.1.db → IsKept p
      go (ok a, w') c = c
      go (err e, w') c = tt

  pub KeepsReturned-bind :
      {A B : Type 0} (m : Action N A) (f : A → Action N B)
      → KeepsReturned m
      → ((a : A) → KeepsReturned (f a))
      → KeepsReturned (m >>= f)
  KeepsReturned-bind {A} {B} m f km kf w v = go (m w) (km w v)
    where
      go :
          (p : Result Error A × World N)
          → IsKept p
          → IsKept (
              let q : Result Error B × World N = elim p.0 [
                | ok a ↦ f a p.1
                | err e ↦ (err e, p.1)
              ] in
              q)
      go (ok a, w') c = kf a w' c
      go (err e, w') c = tt

  -- A transaction that throws takes back what was written.
  pub transaction-Keeps : {A : Type 0} (m : Action N A) → KeepsReturned m → Keeps (transaction m)
  unfolding transaction
  transaction-Keeps {A} m k w v = go (m w) (k w v)
    where
      go :
          (p : Result Error A × World N)
          → IsKept p
          → IsConsistent (
              let q : Result Error A × World N = elim p.0 [
                | ok a ↦ (ok a, p.1)
                | err e ↦ (err e, record (p.1) { db = w.db })
              ] in
              q.1.db)
      go (ok a, w') c = c
      go (err e, w') c = v

  emit_windows-Keeps :
      (name : EventName) (b t : ℕ) (ids : List ℕ) → Keeps (emit_windows {N = N} name b t ids)
  unfolding emit_windows
  emit_windows-Keeps name b t [] w v = v
  emit_windows-Keeps name b t (a ∷ ids) w v =
      emit_windows-Keeps name b t ids
        (record w { emitted = w.emitted ++ fee_window_event name b t a ∷ [] }) v

  report_windows-Keeps :
      (b t : ℕ) (closed opened : List ℕ) → Keeps (report_windows {N = N} b t closed opened)
  unfolding report_windows
  report_windows-Keeps b t closed opened =
      let returned : Action N FeeWindowModifications =
        pure (record { expired_fee_windows = closed; new_active_fee_windows = opened }) in
      Keeps-then (emit_windows fee_window_closed b t closed)
        (emit_windows fee_window_opened b t opened >> returned)
        (emit_windows-Keeps fee_window_closed b t closed)
        (Keeps-then (emit_windows fee_window_opened b t opened) returned
          (emit_windows-Keeps fee_window_opened b t opened) (λ w v. v))

  pub update_active_fee_windows-Keeps : (b t : ℕ) → Keeps (update_active_fee_windows {N = N} b t)
  unfolding update_active_fee_windows
  update_active_fee_windows-Keeps b t w v = report_windows-Keeps b t _ _ _ v
