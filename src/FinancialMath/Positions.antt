-- ===== src/FinancialMath/Positions.antt =====
-- How a trade splits into shares closed and shares opened (src/utils/financial-math.ts,
-- `getTradeQuantityClosed`, `getTradeQuantityOpened`, `getNextNetPosition`).
use augur_node.Prelude.{
  ◌≡◌, ◌≢◌, sym, ap, ◌∙◌, true, false, ok, if◌then◌else◌, Bool-cases, inl, inr,
}
use augur_node.BigNumber.{
  BigNumber, is_zero, sign_cases, zero_bn-plus, is_zero_of_ne, zero_of_is_zero, ne_zero_of_is_zero,
  abs-zero_bn, minus-zero_bn, abs_of_lt, lt-negated, abs_of_gt, abs-plus_pos, abs-plus_neg,
  abs-plus_opposite, excess-min, difference-min, difference_comm,
}
use augur_node.Quantity.{new_quantity, shares}
use augur_node.FinancialMath.{
  get_trade_quantity_closed, get_trade_quantity_opened, get_next_net_position,
}
use augur_node.FinancialMath.Magnitudes.{
  same_sign_bn, quantity_closed, quantity_opened, get_trade_quantity_closed_lem,
  get_trade_quantity_opened_lem, get_next_net_position_lem,
}

module _ (bn : BigNumber) where
  open bn use {
    Num, zero_bn, lt, plus_comm, plus-zero_bn, is_negative, is_negative_lt, is_negative_gt,
  }

  pub abs_pos : (a : Num) → a ≢ zero_bn → lt zero_bn (bn.abs a) ≡ true
  abs_pos a h = elim (sign_cases bn a) [
    | inl n ↦ rw (abs_of_lt bn a n) (lt-negated bn a n)
    | inr (inl z) ↦ absurd (h z)
    | inr (inr p) ↦ rw (abs_of_gt bn a p) p
  ]

  opposite_signs :
      (a b : Num)
      → lt zero_bn a ≡ true
      → lt b zero_bn ≡ true
      → (same_sign_bn bn a b ≡ false) × (same_sign_bn bn b a ≡ false)
  opposite_signs a b h k = (
    rw (is_negative_gt a h) (rw (is_negative_lt b k)),
    rw (is_negative_gt a h) (rw (is_negative_lt b k)),
  )

  signs_pos : (a b : Num) → lt zero_bn a ≡ true → lt zero_bn b ≡ true → same_sign_bn bn a b ≡ true
  signs_pos a b h k = rw (is_negative_gt a h) (rw (is_negative_gt b k))

  signs_neg : (a b : Num) → lt a zero_bn ≡ true → lt b zero_bn ≡ true → same_sign_bn bn a b ≡ true
  signs_neg a b h k = rw (is_negative_lt a h) (rw (is_negative_lt b k))

  -- A trade of the sign of the position makes it larger by the whole trade.
  pub abs_next_same :
      (net delta : Num)
      → delta ≢ zero_bn
      → same_sign_bn bn delta net ≡ true
      → bn.abs (bn.plus net delta) ≡ bn.plus (bn.abs net) (bn.abs delta)
  abs_next_same net delta nz s = elim (sign_cases bn net) [
    | inr (inl z) ↦ rw z (
        ap bn.abs (zero_bn-plus bn delta)
        ∙ sym
            (ap (λ t. bn.plus t (bn.abs delta)) (abs-zero_bn bn) ∙ zero_bn-plus bn (bn.abs delta)))
    | inl n ↦ elim (sign_cases bn delta) [
      | inl d ↦ abs-plus_neg bn net delta n d
      | inr (inl d) ↦ absurd (nz d)
      | inr (inr d) ↦ cc (s, (opposite_signs delta net d n).0)
    ]
    | inr (inr p) ↦ elim (sign_cases bn delta) [
      | inl d ↦ cc (s, (opposite_signs net delta p d).1)
      | inr (inl d) ↦ absurd (nz d)
      | inr (inr d) ↦ abs-plus_pos bn net delta p d
    ]
  ]

  -- A trade of the other sign takes the smaller from the larger.
  pub abs_next_opposite :
      (net delta : Num)
      → delta ≢ zero_bn
      → same_sign_bn bn delta net ≡ false
      → bn.abs (bn.plus net delta) ≡ (
          if lt (bn.abs net) (bn.abs delta)
          then bn.minus (bn.abs delta) (bn.abs net)
          else bn.minus (bn.abs net) (bn.abs delta))
  abs_next_opposite net delta nz s = elim (sign_cases bn net) [
    | inr (inl z) ↦
        rw (z, abs-zero_bn bn, abs_pos delta nz)
          (ap bn.abs (zero_bn-plus bn delta) ∙ sym (minus-zero_bn bn (bn.abs delta)))
    | inl n ↦ elim (sign_cases bn delta) [
      | inl d ↦ cc (s, signs_neg delta net d n)
      | inr (inl d) ↦ absurd (nz d)
      | inr (inr d) ↦
          ap bn.abs (plus_comm net delta)
          ∙ abs-plus_opposite bn delta net d n
          ∙ difference_comm bn (bn.abs delta) (bn.abs net)
    ]
    | inr (inr p) ↦ elim (sign_cases bn delta) [
      | inl d ↦ abs-plus_opposite bn net delta p d
      | inr (inl d) ↦ absurd (nz d)
      | inr (inr d) ↦ cc (s, signs_pos delta net d p)
    ]
  ]

  -- The same with the closed and opened numbers of shares.
  pub opened_opposite :
      (net delta : Num)
      → delta ≢ zero_bn
      → same_sign_bn bn delta net ≡ false
      → quantity_opened bn net delta
        ≡ (if lt (bn.abs net) (bn.abs delta) then bn.minus (bn.abs delta) (bn.abs net) else zero_bn)
  unfolding quantity_opened
  opened_opposite net delta nz s = rw (is_zero_of_ne bn delta nz) (
      rw s (elim (Bool-cases (lt (bn.abs net) (bn.abs delta))) [
        | inl l ↦ rw l (ap bn.abs (plus_comm delta net) ∙ abs_next_opposite net delta nz s ∙ rw l)
        | inr l ↦ rw l
      ]))

  pub closed_opposite :
      (net delta : Num)
      → delta ≢ zero_bn
      → same_sign_bn bn delta net ≡ false
      → quantity_closed bn net delta ≡ bn.min (bn.abs net) (bn.abs delta)
  unfolding quantity_closed
  closed_opposite net delta nz s = rw (is_zero_of_ne bn delta nz) (rw s)

  pub opened_same :
      (net delta : Num)
      → delta ≢ zero_bn
      → same_sign_bn bn delta net ≡ true
      → (quantity_opened bn net delta ≡ bn.abs delta) × (quantity_closed bn net delta ≡ zero_bn)
  unfolding quantity_opened quantity_closed
  opened_same net delta nz s =
      (rw (is_zero_of_ne bn delta nz) (rw s), rw (is_zero_of_ne bn delta nz) (rw s))

  pub opened_zero :
      (net delta : Num)
      → delta ≡ zero_bn
      → (quantity_opened bn net delta ≡ zero_bn) × (quantity_closed bn net delta ≡ zero_bn)
  unfolding quantity_opened quantity_closed
  opened_zero net delta z = let e = (bn.eq_iff delta zero_bn).1 z in (rw e, rw e)

  -- Every share of a trade is opened or closed, and the position changes by just these.
  pub split_of_trade :
      (net delta : Num)
      → (bn.plus (quantity_opened bn net delta) (quantity_closed bn net delta) ≡ bn.abs delta)
        × (bn.plus (bn.abs (bn.plus net delta)) (quantity_closed bn net delta)
            ≡ bn.plus (bn.abs net) (quantity_opened bn net delta))
  split_of_trade net delta = elim (Bool-cases (is_zero bn delta)) [
    | inl z ↦
        (let d = zero_of_is_zero bn delta z in
          let none_traded = opened_zero net delta d in
          (
            rw (none_traded.0, none_traded.1)
                (plus-zero_bn zero_bn ∙ sym (ap bn.abs d ∙ abs-zero_bn bn)),
            rw (none_traded.0, none_traded.1)
                (ap (λ t. bn.plus (bn.abs t) zero_bn) (ap (bn.plus net) d ∙ plus-zero_bn net)),
          ))
    | inr z ↦
        (let nz = ne_zero_of_is_zero bn delta z in
          elim (Bool-cases (same_sign_bn bn delta net)) [
            | inl s ↦
                (let same = opened_same net delta nz s in
                  (
                    rw (same.0, same.1) (plus-zero_bn (bn.abs delta)),
                    rw (same.0, same.1) (plus-zero_bn _ ∙ abs_next_same net delta nz s),
                  ))
            | inr s ↦ (
              rw (opened_opposite net delta nz s, closed_opposite net delta nz s)
                  (excess-min bn (bn.abs net) (bn.abs delta)),
              rw (opened_opposite net delta nz s, closed_opposite net delta nz s)
                  (rw (abs_next_opposite net delta nz s)
                    (difference-min bn (bn.abs net) (bn.abs delta))),
            )
          ])
  ]

  -- For a trade of any size on any position, the checks of dimensions pass, the shares opened and the
  -- shares closed add up to the size of the trade, and the size of the next position is the size of
  -- the old one less the shares closed plus the shares opened.
  pub trade_quantities :
      (net delta : Num)
      → (o c n : Num) × (get_trade_quantity_opened bn
            (new_quantity shares net)
            (new_quantity shares delta)
          ≡ ok (new_quantity shares o))
        × (get_trade_quantity_closed bn (new_quantity shares net) (new_quantity shares delta)
            ≡ ok (new_quantity shares c))
        × (get_next_net_position bn (new_quantity shares net) (new_quantity shares delta)
            ≡ ok (new_quantity shares n))
        × (bn.plus o c ≡ bn.abs delta)
        × (bn.plus (bn.abs n) c ≡ bn.plus (bn.abs net) o)
  trade_quantities net delta =
      let split = split_of_trade net delta in
      (
        quantity_opened bn net delta,
        quantity_closed bn net delta,
        bn.plus net delta,
        get_trade_quantity_opened_lem bn net delta,
        get_trade_quantity_closed_lem bn net delta,
        get_next_net_position_lem bn net delta,
        split.0,
        split.1,
      )
