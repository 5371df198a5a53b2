-- ===== src/ProfitLoss/Tests.antt =====
-- Frozen funds at a concrete trade.
use augur_node.Prelude.{ℕ, ◌≡◌, ◌≢◌, some, ok, arith}
use augur_node.Prelude.Int.{ℤ, pos, ◌+ℤ◌, ◌-ℤ◌, ◌*ℤ◌}
use augur_node.BigNumber.{integers}
use augur_node.Database.{buy}
use augur_node.ProfitLoss.{
  FrozenFundsEvent, make_frozen_funds_event, get_frozen_funds_after_event_for_one_outcome,
}
use augur_node.ProfitLoss.Frozen.{trade_row, frozen_funds_of_both_sides}

one_is_not_two : ◌≢◌ {A = ℕ} 1 2
one_is_not_two h = omega (arith, h)

-- Account 1 buys ten shares at 7, in a market from 2 to 20, and sends three shares; account 2 sends
-- two shares: five complete sets are made.
frozen_funds_of_both_sides_example :
    (event_c event_f : FrozenFundsEvent ℤ) × (make_frozen_funds_event integers 1
        (pos 4)
        (pos 2)
        (pos 20)
        (some (trade_row integers buy 1 2 (pos 10) (pos 3) (pos 2) (pos 7) (pos 2) (pos 20)))
      ≡ ok event_c)
    × (make_frozen_funds_event integers 2
          (pos 0)
          (pos 2)
          (pos 20)
          (some (trade_row integers buy 1 2 (pos 10) (pos 3) (pos 2) (pos 7) (pos 2) (pos 20)))
        ≡ ok event_f)
    × (get_frozen_funds_after_event_for_one_outcome integers (pos 30) event_c
          +ℤ get_frozen_funds_after_event_for_one_outcome integers (pos 0) event_f
        ≡ (pos 30 +ℤ pos 0)
          +ℤ (((pos 10 -ℤ pos 3) -ℤ pos 2) *ℤ (pos 20 -ℤ pos 2) +ℤ (pos 4 +ℤ pos 0)))
frozen_funds_of_both_sides_example =
    frozen_funds_of_both_sides integers buy 1 2 (pos 10) (pos 3) (pos 2) (pos 7) (pos 2) (pos 20)
      (pos 30) (pos 0) (pos 4) (pos 0) one_is_not_two
