-- ===== src/FinancialMath/Costs.antt =====
-- A trade keeps the cost of a position, in each of the ways it can go
-- (src/utils/financial-math.ts).
use augur_node.Prelude.{◌≡◌, ◌≢◌, refl, sym, ap, ap₂, ◌∙◌, Bool, true, false, Bool-cases, inl, inr}
use augur_node.BigNumber
use augur_node.BigNumber.{BigNumber, is_zero}
use augur_node.FinancialMath.{same_sign}
use augur_node.FinancialMath.Positions.{
  opened_opposite, closed_opposite, opened_same, opened_zero, abs_next_same, abs_next_opposite,
}
use augur_node.FinancialMath.Magnitudes.{
  same_sign_bn, quantity_closed, quantity_opened, next_average,
}
use augur_node.FinancialMath.Averages.{
  sp, average_kept, average_reversed, average_weighted, cost_long, cost_short, IsAverage, CostKept,
}
use augur_node.FinancialMath.Signs.{
  SameStrict, SameStrict-is_negative, SameStrict-is_zero, SameStrict-share_price, next_same,
  next_reversed, next_reduced, share_price_long, share_price_short,
}

module _ (bn : BigNumber) (min_price max_price : bn.Num) where
  open bn use {Num, zero_bn, lt, abs, plus_comm, plus-zero_bn, is_negative, multiplied_by as times}

  same_sign_self : (b : Bool) → same_sign b b ≡ true
  same_sign_self true = refl
  same_sign_self false = refl

  cost_of_none : (s n : Num) → n ≡ zero_bn → times s (abs n) ≡ zero_bn
  cost_of_none s n z = rw (z, BigNumber.abs-zero_bn bn) (BigNumber.times-zero_bn bn s)

  -- A cost that differs from another by nothing.
  pad : (x y s t : Num) → x ≡ y → bn.plus x (times s zero_bn) ≡ bn.plus y (times t zero_bn)
  pad x y s t h = ap₂ bn.plus h (BigNumber.times-zero_bn bn s ∙ sym (BigNumber.times-zero_bn bn t))

  kept_zero :
      (net average delta p : Num)
      → delta ≡ zero_bn
      → CostKept bn min_price max_price net average delta p
  kept_zero net average delta p d =
      let same : bn.plus net delta ≡ net = ap (bn.plus net) d ∙ plus-zero_bn net in
      let nothing = opened_zero bn net delta d in
      rw (nothing.0, nothing.1)
        (pad _ _ _ _ (elim (Bool-cases (is_zero bn net)) [
          | inl z ↦
              (let none_held = BigNumber.zero_of_is_zero bn net z in
                cost_of_none _ _ (same ∙ none_held) ∙ sym (cost_of_none _ _ none_held))
          | inr z ↦
              ap₂ (λ x y. times (sp bn min_price max_price x y) (abs x)) same
                (average_kept bn min_price max_price net average delta p (ap (is_zero bn) same ∙ z)
                  (ap (λ t. same_sign_bn bn t net) same ∙ same_sign_self (is_negative net))
                  nothing.0)
        ]))

  -- What a further opening costs, for a position above and below zero.
  opening_long :
      (net average delta p q : Num)
      → lt net zero_bn ≡ false
      → lt zero_bn delta ≡ true
      → lt zero_bn (bn.plus net delta) ≡ true
      → bn.plus (times (abs net) average) (times (abs delta) p) ≡ times q (abs (bn.plus net delta))
      → times (sp bn min_price max_price (bn.plus net delta) q) (abs (bn.plus net delta))
        ≡ bn.plus
            (times (sp bn min_price max_price net average) (abs net))
            (times (sp bn min_price max_price delta p) (abs delta))
  opening_long net average delta p q n d x h =
      ap (λ t. times t (abs (bn.plus net delta)))
        (share_price_long bn min_price max_price (bn.plus net delta) q x)
      ∙ sym h
      ∙ ap₂ bn.plus
          (bn.times_comm (abs net) average ∙ sym (cost_long bn min_price max_price net average n))
          (bn.times_comm (abs delta) p
            ∙ sym
                (ap (λ t. times t (abs delta)) (share_price_long bn min_price max_price delta p d)))

  opening_short :
      (net average delta p q : Num)
      → lt zero_bn net ≡ false
      → lt delta zero_bn ≡ true
      → lt (bn.plus net delta) zero_bn ≡ true
      → abs (bn.plus net delta) ≡ bn.plus (abs net) (abs delta)
      → bn.plus (times (abs net) average) (times (abs delta) p) ≡ times q (abs (bn.plus net delta))
      → times (sp bn min_price max_price (bn.plus net delta) q) (abs (bn.plus net delta))
        ≡ bn.plus
            (times (sp bn min_price max_price net average) (abs net))
            (times (sp bn min_price max_price delta p) (abs delta))
  opening_short net average delta p q n d x e h =
      ap₂ times
        (share_price_short bn min_price max_price (bn.plus net delta) q x
          ∙ BigNumber.minus-sum bn max_price min_price q)
        e
      ∙ BigNumber.complement_average bn (bn.minus max_price min_price) q average p (abs net)
          (abs delta)
          (ap (times q) (sym e)
            ∙ sym h
            ∙ ap₂ bn.plus (bn.times_comm (abs net) average) (bn.times_comm (abs delta) p))
      ∙ ap₂ bn.plus (sym (cost_short bn min_price max_price net average n)) (
          sym (
            ap (λ t. times t (abs delta))
              (share_price_short bn min_price max_price delta p d
                ∙ BigNumber.minus-sum bn max_price min_price p)))

  opening_cost :
      (net average delta p q : Num)
      → delta ≢ zero_bn
      → same_sign_bn bn delta net ≡ true
      → SameStrict bn min_price max_price (bn.plus net delta) delta
      → bn.plus (times (abs net) average) (times (abs delta) p) ≡ times q (abs (bn.plus net delta))
      → times (sp bn min_price max_price (bn.plus net delta) q) (abs (bn.plus net delta))
        ≡ bn.plus
            (times (sp bn min_price max_price net average) (abs net))
            (times (sp bn min_price max_price delta p) (abs delta))
  opening_cost net average delta p q nz s (inl (x, d)) h =
      opening_long net average delta p q
        (elim (Bool-cases (lt net zero_bn)) [
          | inl n ↦ cc (s, bn.is_negative_lt net n, bn.is_negative_gt delta d)
          | inr n ↦ n
        ])
        d x h
  opening_cost net average delta p q nz s (inr (x, d)) h =
      opening_short net average delta p q
        (elim (Bool-cases (lt zero_bn net)) [
          | inl n ↦ cc (s, bn.is_negative_gt net n, bn.is_negative_lt delta d)
          | inr n ↦ n
        ])
        d x (abs_next_same bn net delta nz s) h

  kept_same :
      (net average delta p q : Num)
      → delta ≢ zero_bn
      → same_sign_bn bn delta net ≡ true
      → IsAverage bn min_price max_price net average delta p q
      → CostKept bn min_price max_price net average delta p
  kept_same net average delta p q nz s a =
      let next = bn.plus net delta in
      let strict = next_same bn min_price max_price net delta nz s in
      let split = opened_same bn net delta nz s in
      rw
        (
          split.1,
          average_weighted bn min_price max_price net average delta p q
              (BigNumber.ne_zero_of_is_zero bn next
                (SameStrict-is_zero bn min_price max_price next delta strict))
              (ap (λ t. same_sign t (is_negative net))
                  (SameStrict-is_negative bn min_price max_price next delta strict)
                ∙ s)
              (λ e. BigNumber.is_zero-abs bn delta nz (sym split.0 ∙ e)) a.0 a.1,
          split.0,
        )
        (ap (bn.plus _) (BigNumber.times-zero_bn bn _)
          ∙ plus-zero_bn _
          ∙ opening_cost net average delta p q nz s strict a.1)

  kept_reversed :
      (net average delta p : Num)
      → delta ≢ zero_bn
      → same_sign_bn bn delta net ≡ false
      → lt (abs net) (abs delta) ≡ true
      → CostKept bn min_price max_price net average delta p
  kept_reversed net average delta p nz s l =
      let next = bn.plus net delta in
      let strict = next_reversed bn min_price max_price net delta nz s l in
      let reversed : next_average bn net average delta p ≡ p =
        average_reversed bn min_price max_price net average delta p
          (SameStrict-is_zero bn min_price max_price next delta strict)
          (ap (λ t. same_sign t (is_negative net))
              (SameStrict-is_negative bn min_price max_price next delta strict)
            ∙ s) in
      let size : abs next ≡ bn.minus (abs delta) (abs net) =
        abs_next_opposite bn net delta nz s ∙ rw l in
      let opened : quantity_opened bn net delta ≡ bn.minus (abs delta) (abs net) =
        opened_opposite bn net delta nz s ∙ rw l in
      let closed_all : quantity_closed bn net delta ≡ abs net =
        closed_opposite bn net delta nz s
        ∙ bn.min_lem (abs net) (abs delta)
        ∙ rw (BigNumber.lt_asymm bn (abs net) (abs delta) l) in
      ap₂ bn.plus
        (ap₂ times
          (ap (sp bn min_price max_price next) reversed
            ∙ SameStrict-share_price bn min_price max_price next delta p strict)
          (size ∙ sym opened))
        (ap (times (sp bn min_price max_price net average)) closed_all)
      ∙ plus_comm _ _

  kept_reduced :
      (net average delta p : Num)
      → delta ≢ zero_bn
      → same_sign_bn bn delta net ≡ false
      → lt (abs net) (abs delta) ≡ false
      → CostKept bn min_price max_price net average delta p
  kept_reduced net average delta p nz s l =
      let next = bn.plus net delta in
      let size : abs next ≡ bn.minus (abs net) (abs delta) =
        abs_next_opposite bn net delta nz s ∙ rw l in
      let opened : quantity_opened bn net delta ≡ zero_bn =
        opened_opposite bn net delta nz s ∙ rw l in
      let closed_part : quantity_closed bn net delta ≡ abs delta =
        closed_opposite bn net delta nz s
        ∙ bn.min_lem (abs net) (abs delta)
        ∙ elim (Bool-cases (lt (abs delta) (abs net))) [
          | inl k ↦ rw k
          | inr k ↦ rw k (bn.lt_connex (abs net) (abs delta) l k)
        ] in
      elim (Bool-cases (is_zero bn next)) [
        | inl z ↦
            (let none_left = BigNumber.zero_of_is_zero bn next z in
              ap₂ bn.plus (cost_of_none _ next none_left) (
                ap (times (sp bn min_price max_price net average)) (
                  closed_part
                  ∙ sym (
                      sym (BigNumber.plus-minus bn (abs net) (abs delta))
                      ∙ ap (λ t. bn.plus t (abs delta))
                          (sym size ∙ ap abs none_left ∙ BigNumber.abs-zero_bn bn)
                      ∙ BigNumber.zero_bn-plus bn (abs delta))))
              ∙ plus_comm _ _
              ∙ ap (bn.plus _) (sym (ap (times _) opened ∙ BigNumber.times-zero_bn bn _)))
        | inr z ↦
            (let strict =
                next_reduced bn min_price max_price net delta nz s l
                  (BigNumber.ne_zero_of_is_zero bn next z) in
              let kept : next_average bn net average delta p ≡ average =
                average_kept bn min_price max_price net average delta p z
                  (ap (λ t. same_sign t (is_negative net))
                      (SameStrict-is_negative bn min_price max_price next net strict)
                    ∙ same_sign_self (is_negative net))
                  opened in
              ap₂ bn.plus
                (ap₂ times
                  (ap (sp bn min_price max_price next) kept
                    ∙ SameStrict-share_price bn min_price max_price next net average strict)
                  size)
                (ap (times (sp bn min_price max_price net average)) closed_part)
              ∙ BigNumber.part_and_rest bn (sp bn min_price max_price net average) (abs net)
                  (abs delta)
              ∙ sym (
                  ap (bn.plus _) (ap (times _) opened ∙ BigNumber.times-zero_bn bn _)
                  ∙ plus-zero_bn _))
      ]

  pub cost_kept :
      (net average delta p q : Num)
      → (delta ≢ zero_bn
          → same_sign_bn bn delta net ≡ true
          → IsAverage bn min_price max_price net average delta p q)
      → CostKept bn min_price max_price net average delta p
  cost_kept net average delta p q a = elim (Bool-cases (is_zero bn delta)) [
    | inl z ↦ kept_zero net average delta p (BigNumber.zero_of_is_zero bn delta z)
    | inr z ↦
        (let nz = BigNumber.ne_zero_of_is_zero bn delta z in
          elim (Bool-cases (same_sign_bn bn delta net)) [
            | inl s ↦ kept_same net average delta p q nz s (a nz s)
            | inr s ↦ elim (Bool-cases (lt (abs net) (abs delta))) [
              | inl l ↦ kept_reversed net average delta p nz s l
              | inr l ↦ kept_reduced net average delta p nz s l
            ]
          ])
  ]
