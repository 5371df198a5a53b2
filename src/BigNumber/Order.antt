-- ===== src/BigNumber/Order.antt =====
-- Absolute values of sums and differences, from the documented laws of bignumber.js.
use augur_node.Prelude.{
  ◌≡◌, sym, ap, ap₂, ◌∙◌, true, false, if◌then◌else◌, Bool-cases, inl, inr, subst, subst₂,
}
use augur_node.BigNumber.Spec.{BigNumber}
use augur_node.BigNumber.Laws.{
  zero_bn-plus, plus-minus, negated-negated, negated-sum, lt_asymm, abs_of_lt, abs_of_nonneg,
  lt-negated, lt_negated-zero_bn, sign_cases, negated-zero_bn, minus_self,
}

module _ (bn : BigNumber) where
  open bn use {
    Num, zero_bn, plus, minus, negated, abs, min, lt, plus_comm, plus_assoc, plus-zero_bn,
    plus-negated, minus_lem, lt-plus, lt_connex, lt_trans, lt_irrefl, min_lem,
  }

  pub negated-minus : (a b : Num) → negated (minus a b) ≡ minus b a
  negated-minus a b =
      ap negated (minus_lem a b)
      ∙ negated-sum bn a (negated b)
      ∙ ap (plus (negated a)) (negated-negated bn b)
      ∙ plus_comm (negated a) b
      ∙ sym (minus_lem b a)

  pub minus_lt : (a b : Num) → lt a b ≡ true → lt (minus a b) zero_bn ≡ true
  minus_lt a b h =
      subst₂ (λ x y. lt x y ≡ true) (sym (minus_lem a b)) (plus-negated b)
        (lt-plus a b (negated b) h)

  pub lt_of_minus_lt : (a b : Num) → lt (minus a b) zero_bn ≡ true → lt a b ≡ true
  lt_of_minus_lt a b h =
      subst₂ (λ x y. lt x y ≡ true) (plus-minus bn a b) (zero_bn-plus bn b)
        (lt-plus (minus a b) zero_bn b h)

  pub minus_nonneg : (a b : Num) → lt a b ≡ false → lt (minus a b) zero_bn ≡ false
  minus_nonneg a b h = elim (Bool-cases (lt (minus a b) zero_bn)) [
    | inl n ↦ cc (lt_of_minus_lt a b n)
    | inr n ↦ n
  ]

  pub abs-minus : (a b : Num) → abs (minus a b) ≡ (if lt a b then minus b a else minus a b)
  abs-minus a b = elim (Bool-cases (lt a b)) [
    | inl l ↦ rw l (abs_of_lt bn _ (minus_lt a b l) ∙ negated-minus a b)
    | inr l ↦ rw l (abs_of_nonneg bn _ (minus_nonneg a b l))
  ]

  pub abs_of_gt : (a : Num) → lt zero_bn a ≡ true → abs a ≡ a
  abs_of_gt a h = abs_of_nonneg bn a (lt_asymm bn zero_bn a h)

  pub abs-negated : (a : Num) → abs (negated a) ≡ abs a
  abs-negated a = elim (sign_cases bn a) [
    | inl n ↦ abs_of_gt _ (lt-negated bn a n) ∙ sym (abs_of_lt bn a n)
    | inr (inl z) ↦ rw z (ap abs (negated-zero_bn bn))
    | inr (inr p) ↦
        abs_of_lt bn _ (lt_negated-zero_bn bn a p) ∙ negated-negated bn a ∙ sym (abs_of_gt a p)
  ]

  pub plus_pos :
      (a b : Num) → lt zero_bn a ≡ true → lt zero_bn b ≡ true → lt zero_bn (plus a b) ≡ true
  plus_pos a b h k =
      lt_trans zero_bn b (plus a b) k
        (subst (λ t. lt t (plus a b) ≡ true) (zero_bn-plus bn b) (lt-plus zero_bn a b h))

  pub plus_neg :
      (a b : Num) → lt a zero_bn ≡ true → lt b zero_bn ≡ true → lt (plus a b) zero_bn ≡ true
  plus_neg a b h k =
      lt_trans (plus a b) b zero_bn
        (subst (λ t. lt (plus a b) t ≡ true) (zero_bn-plus bn b) (lt-plus a zero_bn b h)) k

  -- Numbers of one sign.
  pub abs-plus_pos :
      (a b : Num)
      → lt zero_bn a ≡ true
      → lt zero_bn b ≡ true
      → abs (plus a b) ≡ plus (abs a) (abs b)
  abs-plus_pos a b h k =
      abs_of_gt _ (plus_pos a b h k) ∙ sym (ap₂ plus (abs_of_gt a h) (abs_of_gt b k))

  pub abs-plus_neg :
      (a b : Num)
      → lt a zero_bn ≡ true
      → lt b zero_bn ≡ true
      → abs (plus a b) ≡ plus (abs a) (abs b)
  abs-plus_neg a b h k =
      sym (abs-negated (plus a b))
      ∙ ap abs (negated-sum bn a b)
      ∙ abs-plus_pos _ _ (lt-negated bn a h) (lt-negated bn b k)
      ∙ ap₂ plus (abs-negated a) (abs-negated b)

  -- Numbers of opposite signs.
  pub abs-plus_opposite :
      (a b : Num)
      → lt zero_bn a ≡ true
      → lt b zero_bn ≡ true
      → abs (plus a b)
        ≡ (if lt (abs a) (abs b) then minus (abs b) (abs a) else minus (abs a) (abs b))
  abs-plus_opposite a b h k =
      ap (λ t. abs (plus a t)) (sym (negated-negated bn b))
      ∙ ap abs (sym (minus_lem a (negated b)))
      ∙ abs-minus a (negated b)
      ∙ ap₂ (λ x y. if lt x y then minus y x else minus x y) (sym (abs_of_gt a h))
          (sym (abs_of_lt bn b k))

  -- The smaller part, the excess and the difference of two numbers.
  pub excess-min : (a b : Num) → plus (if lt a b then minus b a else zero_bn) (min a b) ≡ b
  excess-min a b = elim (Bool-cases (lt a b)) [
    | inl l ↦ rw (l, min_lem a b) (rw (lt_asymm bn a b l) (plus-minus bn b a))
    | inr l ↦
        rw (l, min_lem a b)
          (elim (Bool-cases (lt b a)) [
            | inl k ↦ rw k (zero_bn-plus bn b)
            | inr k ↦ rw k (zero_bn-plus bn a ∙ lt_connex a b l k)
          ])
  ]

  pub difference-min :
      (a b : Num)
      → plus (if lt a b then minus b a else minus a b) (min a b)
        ≡ plus a (if lt a b then minus b a else zero_bn)
  difference-min a b = elim (Bool-cases (lt a b)) [
    | inl l ↦ rw (l, min_lem a b) (rw (lt_asymm bn a b l) (plus_comm (minus b a) a))
    | inr l ↦
        rw (l, min_lem a b)
          (elim (Bool-cases (lt b a)) [
            | inl k ↦ rw k (plus-minus bn a b ∙ sym (plus-zero_bn a))
            | inr k ↦ rw k (
                ap (λ t. plus (minus a t) a) (sym (lt_connex a b l k))
                ∙ ap (λ t. plus t a) (minus_self bn a)
                ∙ zero_bn-plus bn a
                ∙ sym (plus-zero_bn a))
          ])
  ]

  pub difference_comm :
      (a b : Num)
      → (if lt a b then minus b a else minus a b) ≡ (if lt b a then minus a b else minus b a)
  difference_comm a b = elim (Bool-cases (lt a b)) [
    | inl l ↦ rw (l, lt_asymm bn a b l)
    | inr l ↦
        rw l (elim (Bool-cases (lt b a)) [ inl k ↦ rw k | inr k ↦ rw k (rw (lt_connex a b l k)) ])
  ]
