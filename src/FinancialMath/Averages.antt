-- ===== src/FinancialMath/Averages.antt =====
-- The average price after a trade, and the cost of a position of one sign
-- (src/utils/financial-math.ts).
use augur_node.Prelude.{◌≡◌, ◌≢◌, sym, ap, ◌∙◌, true, false, inl, inr}
use augur_node.BigNumber
use augur_node.BigNumber.{BigNumber, is_zero}
use augur_node.FinancialMath.Magnitudes.{
  same_sign_bn, quantity_closed, quantity_opened, share_price, next_average,
}
use augur_node.FinancialMath.Signs.{share_price_long, share_price_short}

module _ (bn : BigNumber) (min_price max_price : bn.Num) where
  open bn use {
    Num, zero_bn, lt, abs, plus_comm, plus-zero_bn, is_negative, fits, multiplied_by as times,
  }

  abbrev pub sp : Num → Num → Num
  sp net p = share_price bn min_price max_price net p

  -- The average of the next position, in the ways a trade can go.
  pub average_kept :
      (net average delta p : Num)
      → is_zero bn (bn.plus net delta) ≡ false
      → same_sign_bn bn (bn.plus net delta) net ≡ true
      → quantity_opened bn net delta ≡ zero_bn
      → next_average bn net average delta p ≡ average
  unfolding next_average
  average_kept net average delta p nz s o =
      rw nz (rw s (rw ((bn.eq_iff (quantity_opened bn net delta) zero_bn).1 o)))

  pub average_reversed :
      (net average delta p : Num)
      → is_zero bn (bn.plus net delta) ≡ false
      → same_sign_bn bn (bn.plus net delta) net ≡ false
      → next_average bn net average delta p ≡ p
  unfolding next_average
  average_reversed net average delta p nz s = rw nz (rw s)

  -- The weighted average `q`, where a division can represent it.
  pub average_weighted :
      (net average delta p q : Num)
      → bn.plus net delta ≢ zero_bn
      → same_sign_bn bn (bn.plus net delta) net ≡ true
      → quantity_opened bn net delta ≢ zero_bn
      → fits q ≡ true
      → bn.plus (times (abs net) average) (times (abs delta) p) ≡ times q (abs (bn.plus net delta))
      → next_average bn net average delta p ≡ q
  unfolding next_average
  average_weighted net average delta p q nz s o f h = rw (BigNumber.is_zero_of_ne bn _ nz) (
      rw s (
        rw (BigNumber.is_zero_of_ne bn _ o)
          (rw h (bn.divide-times q _ f (BigNumber.is_zero-abs bn _ nz)))))

  -- A share price of the sign of `s` at a size that may be zero.
  pub cost_long :
      (net p : Num) → lt net zero_bn ≡ false → times (sp net p) (abs net) ≡ times p (abs net)
  cost_long net p h = elim (BigNumber.sign_cases bn net) [
    | inl n ↦ cc (h, n)
    | inr (inl z) ↦
        rw (z, BigNumber.abs-zero_bn bn)
          (BigNumber.times-zero_bn bn _ ∙ sym (BigNumber.times-zero_bn bn _))
    | inr (inr n) ↦ ap (λ t. times t (abs net)) (share_price_long bn min_price max_price net p n)
  ]

  pub cost_short :
      (net p : Num)
      → lt zero_bn net ≡ false
      → times (sp net p) (abs net) ≡ times (bn.minus (bn.minus max_price min_price) p) (abs net)
  cost_short net p h = elim (BigNumber.sign_cases bn net) [
    | inr (inr n) ↦ cc (h, n)
    | inr (inl z) ↦
        rw (z, BigNumber.abs-zero_bn bn)
          (BigNumber.times-zero_bn bn _ ∙ sym (BigNumber.times-zero_bn bn _))
    | inl n ↦
        ap (λ t. times t (abs net))
          (share_price_short bn min_price max_price net p n
            ∙ BigNumber.minus-sum bn max_price min_price p)
  ]

  -- The cost of the next position and the cost realized by the trade are together the cost of the old
  -- position and of the shares that the trade opened.
  abbrev pub CostKept : Num → Num → Num → Num → Type 0
  CostKept net average delta p =
      bn.plus
        (times (sp (bn.plus net delta) (next_average bn net average delta p))
          (abs (bn.plus net delta)))
        (times (sp net average) (quantity_closed bn net delta))
      ≡ bn.plus (times (sp net average) (abs net))
          (times (sp delta p) (quantity_opened bn net delta))

  -- The average price that a further opening needs a division for.
  abbrev pub IsAverage : Num → Num → Num → Num → Num → Type 0
  IsAverage net average delta p q =
      (fits q ≡ true)
      × (bn.plus (times (abs net) average) (times (abs delta) p)
          ≡ times q (abs (bn.plus net delta)))
