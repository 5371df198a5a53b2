-- ===== src/FinancialMath/Magnitudes.antt =====
-- The formulas of src/utils/financial-math.ts at quantities of the classes that their types name:
-- no dimension check throws, and the result is the stated number.
use augur_node.Prelude.{
  ◌≡◌, refl, Bool, false, not, ◌||◌, ok, ◌>>=◌, if◌then◌else◌, Bool-cases, inl, inr,
}
use augur_node.Prelude.Int.{◌+ℤ◌, ◌-ℤ◌}
use augur_node.BigNumber.{BigNumber, is_zero, is_zero_of_ne, is_zero-abs, ne_zero_of_is_zero}
use augur_node.Quantity.{
  new_quantity, shares, price, tokens, multiplied_by, divided_by, plus, minus, quantity_is_zero,
  quantity_gt, abs, min, expect, is_equal,
}
use augur_node.FinancialMath.{
  same_sign, get_share_price_for_position, get_trade_quantity_closed, get_trade_quantity_opened,
  get_next_average_trade_price, get_trade_realized_cost_delta, get_trade_realized_revenue_delta,
  get_trade_realized_profit_delta, get_unrealized_cost, get_next_net_position,
}

module _ (bn : BigNumber) where
  open bn use {Num, zero_bn, is_negative}

  abbrev pub same_sign_bn : Num → Num → Bool
  same_sign_bn a b = same_sign (is_negative a) (is_negative b)

  -- The number of shares that a trade of `delta` closes of a position of `net`.
  unfoldable pub quantity_closed : Num → Num → Num
  quantity_closed net delta =
      if is_zero bn delta || same_sign_bn delta net
      then zero_bn
      else bn.min (bn.abs net) (bn.abs delta)

  -- The number of shares that it opens.
  unfoldable pub quantity_opened : Num → Num → Num
  quantity_opened net delta =
      if is_zero bn delta
      then zero_bn
      else (if same_sign_bn delta net
          then bn.abs delta
          else (if bn.lt (bn.abs net) (bn.abs delta) then bn.abs (bn.plus delta net) else zero_bn))

  -- The price of a share in a position of `net`, from its trade price less the market's least price.
  unfoldable pub share_price : Num → Num → Num → Num → Num
  share_price min_price max_price net p =
      if is_zero bn net
      then zero_bn
      else (if is_negative net then bn.minus max_price (bn.plus min_price p) else p)

  pub get_trade_quantity_closed_lem :
      (net delta : Num)
      → get_trade_quantity_closed bn (new_quantity shares net) (new_quantity shares delta)
        ≡ ok (new_quantity shares (quantity_closed net delta))
  unfolding get_trade_quantity_closed quantity_closed min abs is_equal quantity_is_zero
  get_trade_quantity_closed_lem net delta =
      elim (Bool-cases (is_zero bn delta || same_sign_bn delta net)) [ inl e ↦ rw e | inr e ↦ rw e ]

  pub get_trade_quantity_opened_lem :
      (net delta : Num)
      → get_trade_quantity_opened bn (new_quantity shares net) (new_quantity shares delta)
        ≡ ok (new_quantity shares (quantity_opened net delta))
  unfolding get_trade_quantity_opened quantity_opened plus abs quantity_gt is_equal quantity_is_zero
  get_trade_quantity_opened_lem net delta = elim (Bool-cases (is_zero bn delta)) [
    | inl z ↦ rw z
    | inr z ↦ rw z (elim (Bool-cases (same_sign_bn delta net)) [
      | inl s ↦ rw s
      | inr s ↦
          rw s
            (elim (Bool-cases (bn.lt (bn.abs net) (bn.abs delta))) [ inl r ↦ rw r | inr r ↦ rw r ])
    ])
  ]

  pub get_share_price_for_position_lem :
      (min_price max_price net p : Num)
      → get_share_price_for_position bn
          (new_quantity price min_price)
          (new_quantity price max_price)
          (new_quantity shares net)
          (new_quantity price p)
        ≡ ok (new_quantity price (share_price min_price max_price net p))
  unfolding get_share_price_for_position share_price plus minus is_equal quantity_is_zero
  get_share_price_for_position_lem min_price max_price net p = elim (Bool-cases (is_zero bn net)) [
    | inl e ↦ rw e
    | inr e ↦ rw e (elim (Bool-cases (is_negative net)) [ inl s ↦ rw s | inr s ↦ rw s ])
  ]

  -- The tokens paid or received at a share price.
  tokens_of_shares :
      (p n : Num)
      → expect tokens (multiplied_by bn (new_quantity price p) (new_quantity shares n))
        ≡ ok (new_quantity tokens (bn.multiplied_by p n))
  unfolding expect multiplied_by is_equal ◌+ℤ◌
  tokens_of_shares p n = refl

  pub get_trade_realized_cost_delta_lem :
      (min_price max_price net delta average : Num)
      → get_trade_realized_cost_delta bn
          (new_quantity price min_price)
          (new_quantity price max_price)
          (new_quantity shares net)
          (new_quantity shares delta)
          (new_quantity price average)
        ≡ ok (
            new_quantity tokens (
              bn.multiplied_by
                (share_price min_price max_price net average)
                (quantity_closed net delta)))
  unfolding get_trade_realized_cost_delta
  get_trade_realized_cost_delta_lem min_price max_price net delta average =
      rw (get_share_price_for_position_lem min_price max_price net average)
        (rw (get_trade_quantity_closed_lem net delta) (tokens_of_shares _ _))

  pub get_trade_realized_revenue_delta_lem :
      (min_price max_price net delta p : Num)
      → get_trade_realized_revenue_delta bn
          (new_quantity price min_price)
          (new_quantity price max_price)
          (new_quantity shares net)
          (new_quantity shares delta)
          (new_quantity price p)
        ≡ ok (
            new_quantity tokens (
              bn.multiplied_by (share_price min_price max_price net p) (quantity_closed net delta)))
  unfolding get_trade_realized_revenue_delta
  get_trade_realized_revenue_delta_lem min_price max_price net delta p =
      rw (get_share_price_for_position_lem min_price max_price net p)
        (rw (get_trade_quantity_closed_lem net delta) (tokens_of_shares _ _))

  pub get_trade_realized_profit_delta_lem :
      (min_price max_price net delta average p : Num)
      → get_trade_realized_profit_delta bn
          (new_quantity price min_price)
          (new_quantity price max_price)
          (new_quantity shares net)
          (new_quantity shares delta)
          (new_quantity price average)
          (new_quantity price p)
        ≡ ok (
            new_quantity tokens (
              bn.minus
                (bn.multiplied_by
                  (share_price min_price max_price net p)
                  (quantity_closed net delta))
                (bn.multiplied_by
                  (share_price min_price max_price net average)
                  (quantity_closed net delta))))
  unfolding get_trade_realized_profit_delta minus is_equal
  get_trade_realized_profit_delta_lem min_price max_price net delta average p =
      rw (get_trade_realized_revenue_delta_lem min_price max_price net delta p)
        (rw (get_trade_realized_cost_delta_lem min_price max_price net delta average))

  pub get_unrealized_cost_lem :
      (min_price max_price net average : Num)
      → get_unrealized_cost bn
          (new_quantity price min_price)
          (new_quantity price max_price)
          (new_quantity shares net)
          (new_quantity price average)
        ≡ ok (
            new_quantity tokens
              (bn.multiplied_by (share_price min_price max_price net average) (bn.abs net)))
  unfolding get_unrealized_cost abs
  get_unrealized_cost_lem min_price max_price net average =
      rw (get_share_price_for_position_lem min_price max_price net average) (tokens_of_shares _ _)

  pub get_next_net_position_lem :
      (net delta : Num)
      → get_next_net_position bn (new_quantity shares net) (new_quantity shares delta)
        ≡ ok (new_quantity shares (bn.plus net delta))
  unfolding get_next_net_position plus is_equal
  get_next_net_position_lem net delta = refl

  -- The average price of the position after a trade, once nothing throws.
  unfoldable pub next_average : Num → Num → Num → Num → Num
  next_average net average delta p =
      let next = bn.plus net delta in
      if is_zero bn next
      then zero_bn
      else (if not (same_sign_bn next net)
          then p
          else (if is_zero bn (quantity_opened net delta)
              then average
              else bn.divided_by
                  (bn.plus (bn.multiplied_by (bn.abs net) average)
                    (bn.multiplied_by (bn.abs delta) p))
                  (bn.abs next)))

  weighted_average :
      (net average delta p next : Num)
      → is_zero bn next ≡ false
      → (plus bn
            (multiplied_by bn (abs bn (new_quantity shares net)) (new_quantity price average))
            (multiplied_by bn (abs bn (new_quantity shares delta)) (new_quantity price p))
          >>= λ weighted. divided_by bn weighted (abs bn (new_quantity shares next)) >>= λ quotient.
              expect price quotient)
        ≡ ok (
            new_quantity price (
              bn.divided_by
                (bn.plus
                  (bn.multiplied_by (bn.abs net) average)
                  (bn.multiplied_by (bn.abs delta) p))
                (bn.abs next)))
  unfolding plus multiplied_by divided_by abs expect is_equal ◌+ℤ◌ ◌-ℤ◌
  weighted_average net average delta p next nz =
      rw (is_zero_of_ne bn _ (is_zero-abs bn next (ne_zero_of_is_zero bn next nz)))

  pub get_next_average_trade_price_lem :
      (net average delta p : Num)
      → get_next_average_trade_price bn
          (new_quantity shares net)
          (new_quantity price average)
          (new_quantity shares delta)
          (new_quantity price p)
        ≡ ok (new_quantity price (next_average net average delta p))
  unfolding get_next_average_trade_price next_average quantity_is_zero
  get_next_average_trade_price_lem net average delta p =
      let next : Num = bn.plus net delta in
      rw (get_next_net_position_lem net delta) (elim (Bool-cases (is_zero bn next)) [
        | inl z ↦ rw z
        | inr z ↦ rw z (elim (Bool-cases (same_sign_bn next net)) [
          | inr s ↦ rw s
          | inl s ↦ rw s (
              rw (get_trade_quantity_opened_lem net delta)
                (elim (Bool-cases (is_zero bn (quantity_opened net delta))) [
                  | inl o ↦ rw o
                  | inr o ↦ rw o (weighted_average net average delta p next z)
                ]))
        ])
      ])
