-- ===== src/BigNumber/Laws.antt =====
-- Consequences of the documented laws of bignumber.js that several components share.
use augur_node.Prelude.{
  ◌≡◌, ◌≢◌, refl, sym, ap, ◌∙◌, ◌≡⟨◌⟩◌, ◌∎, ◌⊎◌, inl, inr, true, false, Bool-cases, subst₂,
}
use augur_node.BigNumber.Spec.{BigNumber, is_zero}

module _ (bn : BigNumber) where
  open bn use {
    Num, zero_bn, one_bn, plus, minus, multiplied_by, divided_by, negated, abs, min, max, eq, lt,
    is_negative, plus_assoc, plus_comm, plus-zero_bn, plus-negated, minus_lem, times_comm,
    times-plus, times-one_bn, eq_iff, lt_irrefl, lt_trans, lt_connex, lt-plus, lt-times, abs_lem,
    min_lem,
  }

  pub zero_bn-plus : (a : Num) → plus zero_bn a ≡ a
  zero_bn-plus a = plus_comm zero_bn a ∙ plus-zero_bn a

  pub plus_left_comm : (a b c : Num) → plus a (plus b c) ≡ plus b (plus a c)
  plus_left_comm a b c =
      sym (plus_assoc a b c) ∙ ap (λ t. plus t c) (plus_comm a b) ∙ plus_assoc b a c

  pub negated-plus : (a : Num) → plus (negated a) a ≡ zero_bn
  negated-plus a = plus_comm (negated a) a ∙ plus-negated a

  -- Taking away what was added gives the number back.
  pub minus-plus : (a b : Num) → minus (plus a b) b ≡ a
  minus-plus a b =
      minus_lem (plus a b) b
      ∙ plus_assoc a b (negated b)
      ∙ ap (plus a) (plus-negated b)
      ∙ plus-zero_bn a

  pub plus-minus : (a b : Num) → plus (minus a b) b ≡ a
  plus-minus a b =
      ap (λ t. plus t b) (minus_lem a b)
      ∙ plus_assoc a (negated b) b
      ∙ ap (plus a) (negated-plus b)
      ∙ plus-zero_bn a

  pub minus_self : (a : Num) → minus a a ≡ zero_bn
  minus_self a = minus_lem a a ∙ plus-negated a

  -- The same number can be taken off both sides.
  pub plus_cancel : (a b c : Num) → plus a c ≡ plus b c → a ≡ b
  plus_cancel a b c h = sym (minus-plus a c) ∙ ap (λ t. minus t c) h ∙ minus-plus b c

  pub negated_unique : (a b : Num) → plus a b ≡ zero_bn → a ≡ negated b
  negated_unique a b h = plus_cancel a (negated b) b (h ∙ sym (negated-plus b))

  pub negated-negated : (a : Num) → negated (negated a) ≡ a
  negated-negated a = sym (negated_unique a (negated a) (plus-negated a))

  pub negated-zero_bn : negated zero_bn ≡ zero_bn
  negated-zero_bn = sym (negated_unique zero_bn zero_bn (plus-zero_bn zero_bn))

  pub minus-zero_bn : (a : Num) → minus a zero_bn ≡ a
  minus-zero_bn a = minus_lem a zero_bn ∙ ap (plus a) negated-zero_bn ∙ plus-zero_bn a

  pub minus-negated : (a b : Num) → minus a (negated b) ≡ plus a b
  minus-negated a b = minus_lem a (negated b) ∙ ap (plus a) (negated-negated b)

  pub plus-negated_left : (a b : Num) → plus a (plus (negated a) b) ≡ b
  plus-negated_left a b =
      sym (plus_assoc a (negated a) b) ∙ ap (λ t. plus t b) (plus-negated a) ∙ zero_bn-plus b

  pub negated-sum : (a b : Num) → negated (plus a b) ≡ plus (negated a) (negated b)
  negated-sum a b = sym (
      negated_unique _ _ (
        plus (plus (negated a) (negated b)) (plus a b)
        ≡⟨ plus_assoc _ _ _ ⟩ plus (negated a) (plus (negated b) (plus a b))
        ≡⟨ ap (λ t. plus (negated a) (plus (negated b) t)) (plus_comm a b) ⟩
          plus (negated a) (plus (negated b) (plus b a))
        ≡⟨ ap (plus (negated a)) (sym (plus_assoc _ _ _) ∙ ap (λ t. plus t a) (negated-plus b)) ⟩
          plus (negated a) (plus zero_bn a)
        ≡⟨ ap (plus (negated a)) (zero_bn-plus a) ∙ negated-plus a ⟩ zero_bn ∎))

  pub times-zero_bn : (a : Num) → multiplied_by a zero_bn ≡ zero_bn
  times-zero_bn a = plus_cancel _ zero_bn (multiplied_by a zero_bn) (
      sym (times-plus a zero_bn zero_bn)
      ∙ ap (multiplied_by a) (plus-zero_bn zero_bn)
      ∙ sym (zero_bn-plus _))

  pub zero_bn-times : (a : Num) → multiplied_by zero_bn a ≡ zero_bn
  zero_bn-times a = times_comm zero_bn a ∙ times-zero_bn a

  pub plus-times :
      (a b c : Num) → multiplied_by (plus a b) c ≡ plus (multiplied_by a c) (multiplied_by b c)
  plus-times a b c = times_comm _ c ∙ times-plus c a b ∙ ap₂' (times_comm c a) (times_comm c b)
    where
      ap₂' : {x x' y y' : Num} → x ≡ x' → y ≡ y' → plus x y ≡ plus x' y'
      ap₂' p q = λ i. plus (p i) (q i)

  pub times-negated : (a b : Num) → multiplied_by a (negated b) ≡ negated (multiplied_by a b)
  times-negated a b =
      negated_unique _ _
        (sym (times-plus a (negated b) b) ∙ ap (multiplied_by a) (negated-plus b) ∙ times-zero_bn a)

  pub is_zero_refl : is_zero bn zero_bn ≡ true
  is_zero_refl = (eq_iff zero_bn zero_bn).1 refl

  pub zero_of_is_zero : (a : Num) → is_zero bn a ≡ true → a ≡ zero_bn
  zero_of_is_zero a = (eq_iff a zero_bn).0

  pub ne_zero_of_is_zero : (a : Num) → is_zero bn a ≡ false → a ≢ zero_bn
  ne_zero_of_is_zero a h e = cc ((eq_iff a zero_bn).1 e)

  pub is_zero_of_ne : (a : Num) → a ≢ zero_bn → is_zero bn a ≡ false
  is_zero_of_ne a h = elim (Bool-cases (is_zero bn a)) [
    | inl e ↦ absurd (h (zero_of_is_zero a e))
    | inr e ↦ e
  ]

  pub lt_asymm : (a b : Num) → lt a b ≡ true → lt b a ≡ false
  lt_asymm a b h = elim (Bool-cases (lt b a)) [
    | inl e ↦ cc (lt_irrefl a, lt_trans a b a h e)
    | inr e ↦ e
  ]

  -- A number is negative, zero or positive.
  pub sign_cases : (a : Num) → (lt a zero_bn ≡ true) ⊎ (a ≡ zero_bn) ⊎ (lt zero_bn a ≡ true)
  sign_cases a = elim (Bool-cases (lt a zero_bn)) [
    | inl n ↦ inl n
    | inr n ↦ elim (Bool-cases (lt zero_bn a)) [
      | inl p ↦ inr (inr p)
      | inr p ↦ inr (inl (lt_connex a zero_bn n p))
    ]
  ]

  pub abs_of_lt : (a : Num) → lt a zero_bn ≡ true → abs a ≡ negated a
  abs_of_lt a h = abs_lem a ∙ rw h

  pub abs_of_nonneg : (a : Num) → lt a zero_bn ≡ false → abs a ≡ a
  abs_of_nonneg a h = abs_lem a ∙ rw h

  pub abs-zero_bn : abs zero_bn ≡ zero_bn
  abs-zero_bn = abs_of_nonneg zero_bn (lt_irrefl zero_bn)

  pub lt-negated : (a : Num) → lt a zero_bn ≡ true → lt zero_bn (negated a) ≡ true
  lt-negated a h =
      subst₂ (λ x y. lt x y ≡ true) (plus-negated a) (zero_bn-plus (negated a))
        (lt-plus a zero_bn (negated a) h)

  pub lt_negated-zero_bn : (a : Num) → lt zero_bn a ≡ true → lt (negated a) zero_bn ≡ true
  lt_negated-zero_bn a h =
      subst₂ (λ x y. lt x y ≡ true) (zero_bn-plus (negated a)) (plus-negated a)
        (lt-plus zero_bn a (negated a) h)

  pub is_zero-abs : (a : Num) → a ≢ zero_bn → abs a ≢ zero_bn
  is_zero-abs a h e = elim (Bool-cases (lt a zero_bn)) [
    | inl n ↦ h (sym (negated-negated a) ∙ ap negated (sym (abs_of_lt a n) ∙ e) ∙ negated-zero_bn)
    | inr n ↦ h (sym (abs_of_nonneg a n) ∙ e)
  ]

  pub abs_nonneg : (a : Num) → lt (abs a) zero_bn ≡ false
  abs_nonneg a = elim (Bool-cases (lt a zero_bn)) [
    | inl n ↦ rw (abs_of_lt a n) (lt_asymm zero_bn (negated a) (lt-negated a n))
    | inr n ↦ rw (abs_of_nonneg a n) n
  ]
