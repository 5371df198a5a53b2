-- ===== src/Trades/Volumes.antt =====
-- What a trade adds to the volumes is taken back with it
-- (src/blockchain/log-processors/order-filled/update-volumetrics.ts).
use augur_node.Prelude.{
  ℕ, ◌≡◌, refl, sym, ap, ap₂, ◌∙◌, Bool, true, false, Option, some, List, Result, ok,
}
use augur_node.Prelude.Tables.{first_where, update_where, count_where}
use augur_node.Prelude.TableLaws.{first-update, updated_same, updates-undone}
use augur_node.BigNumber.{BigNumber}
use augur_node.Database.{
  Action, World, Error, MarketRow, OutcomeRow, TradeRow, modify, or_throw, after_ok, ◌>>◌, ◌>>=◌,
  market_not_found, outcome_not_found,
}
use augur_node.MarketStates.{is_market}
use augur_node.Trades.{
  is_outcome, volume_in, signed, set_market_volume, set_outcome_volume, increment_market_volume,
  increment_outcome_volume, increment_volumes,
}

module _ (bn : BigNumber) where
  open bn use {Num, plus, negated, zero_bn, plus_assoc, plus_comm, plus-zero_bn, plus-negated}

  module _ (market_id outcome : ℕ) (trade : TradeRow Num) where
    -- What the two updates write for the rows that they found.
    abbrev market_after : Bool → MarketRow Num → MarketRow Num → MarketRow Num
    market_after is_increase m =
        set_market_volume bn (plus m.volume (signed bn is_increase (volume_in bn m trade)))
          (plus (signed bn is_increase trade.amount) m.share_volume)

    abbrev outcome_after : Bool → MarketRow Num → OutcomeRow Num → OutcomeRow Num → OutcomeRow Num
    outcome_after is_increase m r =
        set_outcome_volume bn (plus r.volume (signed bn is_increase (volume_in bn m trade)))
          (plus (signed bn is_increase trade.amount) r.share_volume)

    abbrev with_market : Bool → MarketRow Num → World Num → World Num
    with_market is_increase m w = record w {
      db = record (w.db) {
        markets = update_where (is_market market_id) (market_after is_increase m) w.db.markets;
      };
    }

    abbrev with_outcome : Bool → MarketRow Num → OutcomeRow Num → World Num → World Num
    with_outcome is_increase m r w = record w {
      db = record (w.db) {
        outcomes =
            update_where (is_outcome market_id outcome) (outcome_after is_increase m r)
              w.db.outcomes;
      };
    }

    market_volume_lem :
        (is_increase : Bool) (w : World Num) (m : MarketRow Num)
        → first_where (is_market market_id) w.db.markets ≡ some m
        → increment_market_volume bn market_id
            (signed bn is_increase trade.amount)
            trade
            is_increase
            w
          ≡ (ok tt, with_market is_increase m w)
    unfolding increment_market_volume
    market_volume_lem is_increase w m h =
        ap
          (λ (row : Option (MarketRow Num)).
            (or_throw row market_not_found >>= (λ m'. modify (λ db. record db {
              markets = update_where (is_market market_id) (market_after is_increase m') db.markets;
            })))
              w)
          h

    abbrev outcome_found : Bool → MarketRow Num → Option (OutcomeRow Num) → Action Num (Unit {0})
    outcome_found is_increase m row = or_throw row outcome_not_found >>= (λ r. modify (λ db.
        record db {
          outcomes =
              update_where (is_outcome market_id outcome) (outcome_after is_increase m r)
                db.outcomes;
        }))

    outcome_volume_lem :
        (is_increase : Bool) (w : World Num) (m : MarketRow Num) (r : OutcomeRow Num)
        → first_where (is_market market_id) w.db.markets ≡ some m
        → first_where (is_outcome market_id outcome) w.db.outcomes ≡ some r
        → increment_outcome_volume bn market_id outcome
            (signed bn is_increase trade.amount)
            trade
            is_increase
            w
          ≡ (ok tt, with_outcome is_increase m r w)
    unfolding increment_outcome_volume
    outcome_volume_lem is_increase w m r h k =
        ap
          (λ (row : Option (MarketRow Num)).
            (or_throw row market_not_found >>= (λ m' w'.
                outcome_found is_increase m'
                  (first_where (is_outcome market_id outcome) w'.db.outcomes) w'))
              w)
          h
        ∙ ap (λ row. outcome_found is_increase m row w) k

    found_market :
        (is_increase : Bool) (w : World Num) (m : MarketRow Num)
        → first_where (is_market market_id) w.db.markets ≡ some m
        → first_where (is_market market_id) (with_market is_increase m w).db.markets
          ≡ some (market_after is_increase m m)
    found_market is_increase w m h =
        let p : MarketRow Num → Bool = is_market market_id in
        first-update p p (market_after is_increase m) w.db.markets (λ x. refl)
        ∙ updated_same p (market_after is_increase m) w.db.markets h

    found_outcome :
        (is_increase : Bool) (w : World Num) (m : MarketRow Num) (r : OutcomeRow Num)
        → first_where (is_outcome market_id outcome) w.db.outcomes ≡ some r
        → first_where (is_outcome market_id outcome) (with_outcome is_increase m r w).db.outcomes
          ≡ some (outcome_after is_increase m r r)
    found_outcome is_increase w m r h =
        let p : OutcomeRow Num → Bool = is_outcome market_id outcome in
        first-update p p (outcome_after is_increase m r) w.db.outcomes (λ x. refl)
        ∙ updated_same p (outcome_after is_increase m r) w.db.outcomes h

    taken_back : (x v : Num) → plus (plus x v) (negated v) ≡ x
    taken_back x v = plus_assoc x v (negated v) ∙ ap (plus x) (plus-negated v) ∙ plus-zero_bn x

    added_back : (a x : Num) → plus (negated a) (plus a x) ≡ x
    added_back a x =
        sym (plus_assoc (negated a) a x)
        ∙ ap (λ t. plus t x) (plus_comm (negated a) a ∙ plus-negated a)
        ∙ plus_comm zero_bn x
        ∙ plus-zero_bn x

    volumes_lem :
        (is_increase : Bool) (w : World Num) (m : MarketRow Num) (r : OutcomeRow Num)
        → first_where (is_market market_id) w.db.markets ≡ some m
        → first_where (is_outcome market_id outcome) w.db.outcomes ≡ some r
        → increment_volumes bn market_id outcome is_increase trade w
          ≡ (ok tt, with_outcome is_increase m r (with_market is_increase m w))
    volumes_lem is_increase w m r h k =
        after_ok
          (increment_market_volume bn market_id (signed bn is_increase trade.amount) trade
            is_increase)
          (λ done.
            increment_outcome_volume bn market_id outcome (signed bn is_increase trade.amount) trade
              is_increase)
          w (market_volume_lem is_increase w m h)
        ∙ outcome_volume_lem is_increase (with_market is_increase m w)
            (market_after is_increase m m) r (found_market is_increase w m h) k

    -- A trade is counted in the volumes of its market and of its outcome and then taken back: where
    -- the market and the outcome have one row each, both calls return, and the tables are what they
    -- were.
    pub increment_volumes-undone :
        (w : World Num) (m : MarketRow Num) (r : OutcomeRow Num)
        → first_where (is_market market_id) w.db.markets ≡ some m
        → count_where (is_market market_id) w.db.markets ≡ 1
        → first_where (is_outcome market_id outcome) w.db.outcomes ≡ some r
        → count_where (is_outcome market_id outcome) w.db.outcomes ≡ 1
        → (increment_volumes bn market_id outcome true trade
              >> increment_volumes bn market_id outcome false trade)
            w
          ≡ (ok tt, w)
    increment_volumes-undone w m r h one k one' =
        let m1 = market_after true m m in
        let r1 = outcome_after true m r r in
        after_ok (increment_volumes bn market_id outcome true trade)
          (λ done. increment_volumes bn market_id outcome false trade) w
          (volumes_lem true w m r h k)
        ∙ volumes_lem false (with_outcome true m r (with_market true m w)) m1 r1
            (found_market true w m h) (found_outcome true (with_market true m w) m r k)
        ∙ ap₂ (λ (ms : List (MarketRow Num)) (rs : List (OutcomeRow Num)). with_tables w ms rs)
            (updates-undone (is_market market_id) (market_after true m) (market_after false m1)
              w.db.markets (λ x. refl) h one
              (ap₂ (λ v s. set_market_volume bn v s m) (taken_back _ _) (added_back _ _)))
            (updates-undone (is_outcome market_id outcome) (outcome_after true m r)
              (outcome_after false m1 r1) w.db.outcomes (λ x. refl) k one'
              (ap₂ (λ v s. set_outcome_volume bn v s r) (taken_back _ _) (added_back _ _)))
      where
        with_tables :
            World Num
            → List (MarketRow Num)
            → List (OutcomeRow Num)
            → Result Error (Unit {0}) × World Num
        with_tables w ms rs =
            (ok tt, record w { db = record (w.db) { markets = ms; outcomes = rs } })
