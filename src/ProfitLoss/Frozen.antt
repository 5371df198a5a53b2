-- ===== src/ProfitLoss/Frozen.antt =====
-- The frozen funds of both sides of a trade (src/blockchain/log-processors/profit-loss/frozen-funds.ts,
-- update-profit-loss.ts).
use augur_node.Prelude.{
  ℕ, ◌≡◌, ◌≢◌, refl, sym, ap, ap₂, ◌∙◌, false, some, ◌==◌, ==_refl, ==_iff, Bool-cases, inl, inr,
  ok,
}
use augur_node.BigNumber.{
  BigNumber, minus-times, minus-sum, sum-minus_sum, plus_left_comm, negated-plus, zero_bn-plus,
}
use augur_node.Database.{OrderType, buy, sell}
use augur_node.ProfitLoss.{
  TradeData, FrozenFundsEvent, creator, filler, trade_event, make_frozen_funds_event,
  get_frozen_funds_after_event_for_one_outcome,
}

-- What the creator and the filler of an order pay for a share: the price over the minimum if they
-- are long, and what it is under the maximum if they are short.
abbrev pub paid_by_creator : {N : Type 0} → OrderType → N → N → N
paid_by_creator buy over under = over
paid_by_creator sell over under = under

abbrev pub paid_by_filler : {N : Type 0} → OrderType → N → N → N
paid_by_filler buy over under = under
paid_by_filler sell over under = over

ne_eq : (a b : ℕ) → a ≢ b → (b == a) ≡ false
ne_eq a b n = elim (Bool-cases (b == a)) [
  | inl e ↦ elim (n (sym ((==_iff b a).0 e))) [ ]
  | inr e ↦ e
]

module _ (bn : BigNumber) where
  open bn use {
    Num, zero_bn, plus, minus, negated, plus_comm, plus_assoc, plus-zero_bn, plus-negated,
    minus_lem, times-plus, times_comm, multiplied_by as times,
  }

  swap_middle : (a b c d : Num) → plus (plus a b) (plus c d) ≡ plus (plus a c) (plus b d)
  swap_middle a b c d =
      plus_assoc a b (plus c d)
      ∙ ap (plus a) (plus_left_comm bn b c d)
      ∙ sym (plus_assoc a c (plus b d))

  -- b - q + (u - r)
  gather : (b q u r : Num) → plus (minus b q) (minus u r) ≡ plus b (minus u (plus r q))
  gather b q u r =
      sym (sum-minus_sum bn b u q r)
      ∙ ap (minus (plus b u)) (plus_comm q r)
      ∙ minus_lem (plus b u) (plus r q)
      ∙ plus_assoc b u _
      ∙ ap (plus b) (sym (minus_lem u (plus r q)))

  -- One side pays `x` for each share that it takes and gets `y` for each share that it sends.
  side :
      (b a s x y d : Num)
      → plus (plus (minus b (times s y)) (times (minus a s) x)) d
        ≡ plus (plus b (minus (times a x) (times s (plus x y)))) d
  side b a s x y d =
      ap (λ t. plus t d)
        (ap (plus (minus b (times s y))) (minus-times bn a s x)
          ∙ gather b (times s y) (times a x) (times s x)
          ∙ ap (λ t. plus b (minus (times a x) t)) (sym (times-plus s x y)))

  -- Both sides, `k` being what they pay together.
  sides :
      (b c a s t x y d e : Num)
      → plus
          (plus (plus (minus b (times s y)) (times (minus a s) x)) d)
          (plus (plus (minus c (times t x)) (times (minus a t) y)) e)
        ≡ plus (plus b c) (plus (times (minus (minus a s) t) (plus x y)) (plus d e))
  sides b c a s t x y d e =
      ap₂ plus (side b a s x y d) (
        side c a t y x e
        ∙ ap (λ k. plus (plus c (minus (times a y) (times t k))) e) (plus_comm y x))
      ∙ swap_middle _ d _ e
      ∙ ap (λ v. plus v (plus d e)) (swap_middle b _ c _)
      ∙ plus_assoc (plus b c) _ (plus d e)
      ∙ ap (λ v. plus (plus b c) (plus v (plus d e))) sets
    where
      sets :
          plus (minus (times a x) (times s (plus x y))) (minus (times a y) (times t (plus x y)))
          ≡ times (minus (minus a s) t) (plus x y)
      sets =
          sym (sum-minus_sum bn (times a x) (times a y) (times s (plus x y)) (times t (plus x y)))
          ∙ ap (λ v. minus v (plus (times s (plus x y)) (times t (plus x y))))
              (sym (times-plus a x y))
          ∙ minus-sum bn (times a (plus x y)) (times s (plus x y)) (times t (plus x y))
          ∙ ap (λ v. minus v (times t (plus x y))) (sym (minus-times bn a s (plus x y)))
          ∙ sym (minus-times bn (minus a s) t (plus x y))

  -- (p - m) + (k - p)
  whole_range : (p m k : Num) → plus (minus p m) (minus k p) ≡ minus k m
  whole_range p m k =
      plus_comm (minus p m) (minus k p)
      ∙ ap₂ plus (minus_lem k p) (minus_lem p m)
      ∙ plus_assoc k (negated p) (plus p (negated m))
      ∙ ap (plus k) (
          sym (plus_assoc (negated p) p (negated m))
          ∙ ap (λ t. plus t (negated m)) (negated-plus bn p)
          ∙ zero_bn-plus bn (negated m))
      ∙ sym (minus_lem k m)

  -- A trade of `a` shares in which each side sends some shares and pays the rest at the price.
  abbrev pub trade_row : OrderType → ℕ → ℕ → Num → Num → Num → Num → Num → Num → TradeData Num
  trade_row order_type c f a s t p min_price max_price = record {
    order_type = order_type;
    order_creator = c;
    order_filler = f;
    trade_price = p;
    num_creator_tokens =
        times (minus a s) (paid_by_creator order_type (minus p min_price) (minus max_price p));
    num_creator_shares = s;
    num_filler_tokens =
        times (minus a t) (paid_by_filler order_type (minus p min_price) (minus max_price p));
    num_filler_shares = t;
  }

  -- In a trade of `a` shares between two accounts, where each side sends some shares and pays the
  -- rest at the trade's price, both events are made, and the frozen funds of the two accounts grow
  -- together by the display range for each complete set that the trade makes, which is the shares
  -- traded less the shares that both sides sent, and by the profits that both realized.
  pub frozen_funds_of_both_sides :
      (order_type : OrderType) (c f : ℕ)
      (a s t p min_price max_price before_c before_f profit_c profit_f : Num)
      → c ≢ f
      → (event_c event_f : FrozenFundsEvent Num) × (make_frozen_funds_event bn c profit_c min_price
            max_price
            (some (trade_row order_type c f a s t p min_price max_price))
          ≡ ok event_c)
        × (make_frozen_funds_event bn f profit_f min_price max_price
              (some (trade_row order_type c f a s t p min_price max_price))
            ≡ ok event_f)
        × (plus
              (get_frozen_funds_after_event_for_one_outcome bn before_c event_c)
              (get_frozen_funds_after_event_for_one_outcome bn before_f event_f)
            ≡ plus (plus before_c before_f) (
                plus
                  (times (minus (minus a s) t) (minus max_price min_price))
                  (plus profit_c profit_f)))
  unfolding get_frozen_funds_after_event_for_one_outcome make_frozen_funds_event
  frozen_funds_of_both_sides buy c f a s t p m k b_c b_f d_c d_f n = (
    trade_event bn d_c m k (trade_row buy c f a s t p m k) creator,
    trade_event bn d_f m k (trade_row buy c f a s t p m k) filler,
    rw (==_refl c) refl,
    rw (ne_eq c f n, ==_refl f) refl,
    sides b_c b_f a s t (minus p m) (minus k p) d_c d_f
        ∙ ap (λ r. plus (plus b_c b_f) (plus (times (minus (minus a s) t) r) (plus d_c d_f)))
            (whole_range p m k),
  )
  frozen_funds_of_both_sides sell c f a s t p m k b_c b_f d_c d_f n = (
    trade_event bn d_c m k (trade_row sell c f a s t p m k) creator,
    trade_event bn d_f m k (trade_row sell c f a s t p m k) filler,
    rw (==_refl c) refl,
    rw (ne_eq c f n, ==_refl f) refl,
    sides b_c b_f a s t (minus k p) (minus p m) d_c d_f
        ∙ ap (λ r. plus (plus b_c b_f) (plus (times (minus (minus a s) t) r) (plus d_c d_f)))
            (plus_comm (minus k p) (minus p m) ∙ whole_range p m k),
  )
