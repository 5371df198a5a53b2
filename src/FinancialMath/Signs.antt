-- ===== src/FinancialMath/Signs.antt =====
-- The sign of a position after a trade, and its share price (src/utils/financial-math.ts).
use augur_node.Prelude.{
  ◌≡◌, ◌≢◌, refl, sym, ap, ap₂, ◌∙◌, subst₂, true, false, Bool-cases, inl, inr, ◌⊎◌,
}
use augur_node.BigNumber
use augur_node.BigNumber.{BigNumber, is_zero}
use augur_node.FinancialMath.Positions.{abs_pos}
use augur_node.FinancialMath.Magnitudes.{same_sign_bn, share_price}

module _ (bn : BigNumber) (min_price max_price : bn.Num) where
  open bn use {
    Num, zero_bn, lt, plus, minus, negated, abs, plus_comm, plus-zero_bn, is_negative,
    is_negative_lt, is_negative_gt, lt-plus, lt_connex, lt_irrefl, multiplied_by as times,
  }

  is_zero_of_lt : (n : Num) → lt n zero_bn ≡ true → is_zero bn n ≡ false
  is_zero_of_lt n h = BigNumber.is_zero_of_ne bn n λ e. cc (lt_irrefl n, ap (lt n) e, h)

  is_zero_of_gt : (n : Num) → lt zero_bn n ≡ true → is_zero bn n ≡ false
  is_zero_of_gt n h = BigNumber.is_zero_of_ne bn n λ e. cc (lt_irrefl n, ap (λ t. lt t n) e, h)

  abbrev pub sp : Num → Num → Num
  sp net p = share_price bn min_price max_price net p

  pub share_price_long : (net p : Num) → lt zero_bn net ≡ true → sp net p ≡ p
  unfolding share_price
  share_price_long net p h = rw (is_zero_of_gt net h) (rw (is_negative_gt net h))

  pub share_price_short :
      (net p : Num) → lt net zero_bn ≡ true → sp net p ≡ minus max_price (plus min_price p)
  unfolding share_price
  share_price_short net p h = rw (is_zero_of_lt net h) (rw (is_negative_lt net h))

  pub share_price_closed : (p : Num) → sp zero_bn p ≡ zero_bn
  unfolding share_price
  share_price_closed p = rw (BigNumber.is_zero_refl bn)

  -- The sign of the next position.
  next_of_reversal_long :
      (net delta : Num)
      → lt zero_bn delta ≡ true
      → lt (abs net) (abs delta) ≡ true
      → lt zero_bn net ≡ false
      → lt zero_bn (plus net delta) ≡ true
  next_of_reversal_long net delta d l n = elim (BigNumber.sign_cases bn net) [
    | inl neg ↦
        subst₂ (λ x y. lt x y ≡ true) (BigNumber.negated-plus bn net) (plus_comm delta net)
          (lt-plus (negated net) delta net (
            subst₂ (λ x y. lt x y ≡ true) (BigNumber.abs_of_lt bn net neg)
              (BigNumber.abs_of_gt bn delta d) l))
    | inr (inl z) ↦ rw (z, BigNumber.zero_bn-plus bn delta) d
    | inr (inr pos) ↦ cc
  ]

  next_of_reversal_short :
      (net delta : Num)
      → lt delta zero_bn ≡ true
      → lt (abs net) (abs delta) ≡ true
      → lt net zero_bn ≡ false
      → lt (plus net delta) zero_bn ≡ true
  next_of_reversal_short net delta d l n =
      subst₂ (λ x y. lt x y ≡ true) refl (BigNumber.negated-plus bn delta)
        (lt-plus net (negated delta) delta (
          subst₂ (λ x y. lt x y ≡ true) (BigNumber.abs_of_nonneg bn net n)
            (BigNumber.abs_of_lt bn delta d) l))

  -- Both above zero, or both below.
  abbrev pub SameStrict : Num → Num → Type 0
  SameStrict a b =
      (lt zero_bn a ≡ true) × (lt zero_bn b ≡ true) ⊎ (lt a zero_bn ≡ true) × (lt b zero_bn ≡ true)

  pub SameStrict-is_negative : (a b : Num) → SameStrict a b → is_negative a ≡ is_negative b
  SameStrict-is_negative a b (inl h) = is_negative_gt a h.0 ∙ sym (is_negative_gt b h.1)
  SameStrict-is_negative a b (inr h) = is_negative_lt a h.0 ∙ sym (is_negative_lt b h.1)

  pub SameStrict-is_zero : (a b : Num) → SameStrict a b → is_zero bn a ≡ false
  SameStrict-is_zero a b (inl h) = is_zero_of_gt a h.0
  SameStrict-is_zero a b (inr h) = is_zero_of_lt a h.0

  pub SameStrict-share_price : (a b p : Num) → SameStrict a b → sp a p ≡ sp b p
  SameStrict-share_price a b p (inl h) = share_price_long a p h.0 ∙ sym (share_price_long b p h.1)
  SameStrict-share_price a b p (inr h) = share_price_short a p h.0 ∙ sym (share_price_short b p h.1)

  -- The sign of the next position, in the three ways a trade can go.
  pub next_same :
      (net delta : Num)
      → delta ≢ zero_bn
      → same_sign_bn bn delta net ≡ true
      → SameStrict (plus net delta) delta
  next_same net delta nz s = elim (BigNumber.sign_cases bn delta) [
    | inr (inl z) ↦ absurd (nz z)
    | inl d ↦ elim (BigNumber.sign_cases bn net) [
      | inl n ↦ inr (BigNumber.plus_neg bn net delta n d, d)
      | inr (inl z) ↦ inr (rw (z, BigNumber.zero_bn-plus bn delta) d, d)
      | inr (inr n) ↦ cc (s, is_negative_gt net n, is_negative_lt delta d)
    ]
    | inr (inr d) ↦ elim (BigNumber.sign_cases bn net) [
      | inl n ↦ cc (s, is_negative_lt net n, is_negative_gt delta d)
      | inr (inl z) ↦ inl (rw (z, BigNumber.zero_bn-plus bn delta) d, d)
      | inr (inr n) ↦ inl (BigNumber.plus_pos bn net delta n d, d)
    ]
  ]

  pub next_reversed :
      (net delta : Num)
      → delta ≢ zero_bn
      → same_sign_bn bn delta net ≡ false
      → lt (abs net) (abs delta) ≡ true
      → SameStrict (plus net delta) delta
  next_reversed net delta nz s l = elim (BigNumber.sign_cases bn delta) [
    | inr (inl z) ↦ absurd (nz z)
    | inl d ↦ inr (
      next_of_reversal_short net delta d l (elim (Bool-cases (lt net zero_bn)) [
        | inl n ↦ cc (s, is_negative_lt net n, is_negative_lt delta d)
        | inr n ↦ n
      ]),
      d,
    )
    | inr (inr d) ↦ inl (
      next_of_reversal_long net delta d l (elim (Bool-cases (lt zero_bn net)) [
        | inl n ↦ cc (s, is_negative_gt net n, is_negative_gt delta d)
        | inr n ↦ n
      ]),
      d,
    )
  ]

  -- A position that is not yet crossed keeps its sign.
  crossed_long :
      (net delta : Num) → lt (plus net delta) zero_bn ≡ true → lt net (negated delta) ≡ true
  crossed_long net delta h =
      subst₂ (λ x y. lt x y ≡ true)
        (bn.plus_assoc net delta (negated delta)
          ∙ ap (plus net) (bn.plus-negated delta)
          ∙ plus-zero_bn net)
        (BigNumber.zero_bn-plus bn (negated delta))
        (lt-plus (plus net delta) zero_bn (negated delta) h)

  crossed_short :
      (net delta : Num) → lt zero_bn (plus net delta) ≡ true → lt (negated net) delta ≡ true
  crossed_short net delta h =
      subst₂ (λ x y. lt x y ≡ true) (BigNumber.zero_bn-plus bn (negated net))
        (ap (λ t. plus t (negated net)) (plus_comm net delta)
          ∙ bn.plus_assoc delta net (negated net)
          ∙ ap (plus delta) (bn.plus-negated net)
          ∙ plus-zero_bn delta)
        (lt-plus zero_bn (plus net delta) (negated net) h)

  pub next_reduced :
      (net delta : Num)
      → delta ≢ zero_bn
      → same_sign_bn bn delta net ≡ false
      → lt (abs net) (abs delta) ≡ false
      → plus net delta ≢ zero_bn
      → SameStrict (plus net delta) net
  next_reduced net delta nz s l open_still = elim (BigNumber.sign_cases bn net) [
    | inr (inl z) ↦ cc (
      l,
      ap (λ t. lt (abs t) (abs delta)) z,
      ap (λ t. lt t (abs delta)) (BigNumber.abs-zero_bn bn),
      abs_pos bn delta nz,
    )
    | inr (inr n) ↦ elim (BigNumber.sign_cases bn (plus net delta)) [
      | inl x ↦ elim (BigNumber.sign_cases bn delta) [
        | inl d ↦ cc (
          l,
          ap₂ lt (BigNumber.abs_of_gt bn net n) (BigNumber.abs_of_lt bn delta d),
          crossed_long net delta x,
        )
        | inr (inl z) ↦ absurd (nz z)
        | inr (inr d) ↦ cc (s, is_negative_gt net n, is_negative_gt delta d)
      ]
      | inr (inl x) ↦ absurd (open_still x)
      | inr (inr x) ↦ inl (x, n)
    ]
    | inl n ↦ elim (BigNumber.sign_cases bn (plus net delta)) [
      | inl x ↦ inr (x, n)
      | inr (inl x) ↦ absurd (open_still x)
      | inr (inr x) ↦ elim (BigNumber.sign_cases bn delta) [
        | inl d ↦ cc (s, is_negative_lt net n, is_negative_lt delta d)
        | inr (inl z) ↦ absurd (nz z)
        | inr (inr d) ↦ cc (
          l,
          ap₂ lt (BigNumber.abs_of_lt bn net n) (BigNumber.abs_of_gt bn delta d),
          crossed_short net delta x,
        )
      ]
    ]
  ]
