-- ===== src/BigNumber/Products.antt =====
-- Products of sums and differences, from the documented laws of bignumber.js.
use augur_node.Prelude.{◌≡◌, sym, ap, ap₂, ◌∙◌, ◌≡⟨◌⟩◌, ◌∎}
use augur_node.BigNumber.Spec.{BigNumber}
use augur_node.BigNumber.Laws.{times-negated, plus-times, negated-sum, plus-minus, plus_left_comm}

module _ (bn : BigNumber) where
  open bn use {
    Num, plus, minus, negated, plus_comm, plus_assoc, minus_lem, times_comm, times-plus,
    multiplied_by as times,
  }

  pub minus-times : (a b c : Num) → times (minus a b) c ≡ minus (times a c) (times b c)
  minus-times a b c =
      ap (λ t. times t c) (minus_lem a b)
      ∙ plus-times bn a (negated b) c
      ∙ ap (plus (times a c))
          (times_comm (negated b) c ∙ times-negated bn c b ∙ ap negated (times_comm c b))
      ∙ sym (minus_lem (times a c) (times b c))

  -- (a - m) - p
  pub minus-sum : (a m p : Num) → minus a (plus m p) ≡ minus (minus a m) p
  minus-sum a m p =
      minus_lem a (plus m p)
      ∙ ap (plus a) (negated-sum bn m p)
      ∙ sym (plus_assoc a (negated m) (negated p))
      ∙ ap (λ t. plus t (negated p)) (sym (minus_lem a m))
      ∙ sym (minus_lem (minus a m) p)

  pub sum-minus_sum : (a b c d : Num) → minus (plus a b) (plus c d) ≡ plus (minus a c) (minus b d)
  sum-minus_sum a b c d =
      minus (plus a b) (plus c d)
      ≡⟨ minus_lem _ _ ∙ ap (plus (plus a b)) (negated-sum bn c d) ⟩
        plus (plus a b) (plus (negated c) (negated d))
      ≡⟨ plus_assoc a b _ ∙ ap (plus a) (plus_left_comm bn b (negated c) (negated d)) ⟩
        plus a (plus (negated c) (plus b (negated d)))
      ≡⟨ sym (plus_assoc a (negated c) _) ⟩ plus (plus a (negated c)) (plus b (negated d))
      ≡⟨ ap₂ plus (sym (minus_lem a c)) (sym (minus_lem b d)) ⟩ plus (minus a c) (minus b d) ∎

  -- A weighted average `q` of `a` and `b`, seen from the top `k` of the range.
  pub complement_average :
      (k q a b x y : Num)
      → times q (plus x y) ≡ plus (times a x) (times b y)
      → times (minus k q) (plus x y) ≡ plus (times (minus k a) x) (times (minus k b) y)
  complement_average k q a b x y h =
      minus-times k q (plus x y)
      ∙ ap₂ minus (times-plus k x y) h
      ∙ sum-minus_sum (times k x) (times k y) (times a x) (times b y)
      ∙ ap₂ plus (sym (minus-times k a x)) (sym (minus-times k b y))

  -- The two sides of a trade at `p` pay the whole range `k` together.
  pub complement_sum : (k p n : Num) → plus (times p n) (times (minus k p) n) ≡ times k n
  complement_sum k p n =
      ap (plus (times p n)) (minus-times k p n)
      ∙ plus_comm (times p n) (minus (times k n) (times p n))
      ∙ plus-minus bn (times k n) (times p n)

  -- A part and the rest.
  pub part_and_rest : (s a b : Num) → plus (times s (minus a b)) (times s b) ≡ times s a
  part_and_rest s a b = sym (times-plus s (minus a b) b) ∙ ap (times s) (plus-minus bn a b)
