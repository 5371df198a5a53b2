-- ===== src/OrderBook/Taking.antt =====
-- What is taken from a side of the book (src/utils/simulated-order-book.ts).
use augur_node.Prelude.{
  ◌≡◌, refl, sym, ap, ap₂, ◌∙◌, true, false, List, [], ◌∷◌, ◌⊎◌, inl, inr, Bool-cases, Result, ok,
  ◌++◌,
}
use augur_node.BigNumber.{BigNumber, plus-minus, zero_bn-plus, zero_bn-times, minus-zero_bn}
use augur_node.Quantity.{Quantity, QuantityError, new_quantity, shares, price, tokens}
use augur_node.Quantity as Q
use augur_node.Prelude.Int.{◌+ℤ◌}
use augur_node.FinancialMath.{get_share_price, of_trade_price}
use augur_node.FinancialMath.SharePrices.{share_price_of_long, share_price_of_short}
use augur_node.OrderBook.{
  QuantityAtPrice, Taken, TakeType, take_long, take_short, position_of, take_from, take_best,
}

-- Prices and the shares that are offered at them.
pub record Offer (N : Type 0) : Type 0 where
  pub at_price : N
  pub offered : N

module _ (bn : BigNumber) where
  open bn use {
    Num, zero_bn, plus, minus, lt, plus_comm, plus_assoc, plus-zero_bn, lt-plus, lt_connex,
    multiplied_by,
  }

  abbrev pub order_of : Offer Num → QuantityAtPrice Num
  order_of o = record {
    trade_price = new_quantity price o.at_price;
    quantity = new_quantity shares o.offered;
  }

  unfoldable pub book_of : List (Offer Num) → List (QuantityAtPrice Num)
  book_of [] = []
  book_of (o ∷ rest) = order_of o ∷ book_of rest

  unfoldable pub shares_offered : List (Offer Num) → Num
  shares_offered [] = zero_bn
  shares_offered (o ∷ rest) = plus o.offered (shares_offered rest)

  -- A share that is taken from a bid is worth its price over the minimum, one that is taken from an
  -- ask what its price is under the maximum.
  abbrev pub price_for : TakeType → Num → Num → Num → Num
  price_for take_long lo hi p = minus p lo
  price_for take_short lo hi p = minus hi p

  -- What orders that are used up bring.
  unfoldable pub revenue : TakeType → Num → Num → List (Offer Num) → Num
  revenue t lo hi [] = zero_bn
  revenue t lo hi (o ∷ rest) =
      plus (multiplied_by o.offered (price_for t lo hi o.at_price)) (revenue t lo hi rest)

  -- A part of the first order, and what it brings.
  abbrev pub without : Num → List (Offer Num) → List (Offer Num)
  without part [] = []
  without part (o ∷ rest) = record o { offered = minus o.offered part } ∷ rest

  abbrev pub part_revenue : TakeType → Num → Num → Num → List (Offer Num) → Num
  part_revenue t lo hi part [] = zero_bn
  part_revenue t lo hi part (o ∷ rest) = multiplied_by part (price_for t lo hi o.at_price)

  -- A part is not negative, and is nothing or less than the first order, if there is one.
  abbrev pub IsPartOf : Num → List (Offer Num) → Type 0
  IsPartOf part [] = lt part zero_bn ≡ false
  IsPartOf part (o ∷ rest) =
      (lt part zero_bn ≡ false) × ((part ≡ zero_bn) ⊎ (lt part o.offered ≡ true))

  priced :
      (t : TakeType) (lo hi p : Num)
      → get_share_price bn
          (new_quantity price lo)
          (new_quantity price hi)
          (position_of t)
          (of_trade_price (new_quantity price p))
        ≡ ok (new_quantity price (price_for t lo hi p))
  priced take_long lo hi p = share_price_of_long bn lo hi p
  priced take_short lo hi p = share_price_of_short bn lo hi p

  abbrev pub result : List (Offer Num) → Num → Result QuantityError (Taken Num)
  result left earned =
      ok (record { new_bids_or_asks = book_of left; proceeds = new_quantity tokens earned })

  -- The orders are split into those that are used up and the rest, of whose first one a part is taken.
  abbrev Takes : Num → Num → TakeType → List (Offer Num) → Num → Num → Type 0
  Takes lo hi t offers amount start =
      (whole : List (Offer Num)) × (rest : List (Offer Num)) × (part : Num) × (offers
        ≡ whole ++ rest)
      × (plus (shares_offered whole) part ≡ amount)
      × IsPartOf part rest
      × (take_from bn (new_quantity price lo) (new_quantity price hi) t false (book_of offers)
            (new_quantity shares amount) (new_quantity tokens start)
          ≡ result (without part rest)
              (plus start (plus (revenue t lo hi whole) (part_revenue t lo hi part rest))))
      × (take_from bn (new_quantity price lo) (new_quantity price hi) t true (book_of offers)
            (new_quantity shares amount) (new_quantity tokens start)
          ≡ result rest
              (plus start (plus (revenue t lo hi whole) (part_revenue t lo hi part rest))))

  -- Taking no more than there is leaves nothing below zero.
  fewer_nonneg : (a q : Num) → lt a q ≡ false → lt (minus a q) zero_bn ≡ false
  fewer_nonneg a q h = elim (Bool-cases (lt (minus a q) zero_bn)) [
    | inl e ↦ cc (
        sym h
        ∙ sym (ap₂ lt (plus-minus bn a q) (zero_bn-plus bn q))
        ∙ lt-plus (minus a q) zero_bn q e)
    | inr e ↦ e
  ]

  nothing_earned : (start e : Num) → e ≡ zero_bn → start ≡ plus start (plus zero_bn e)
  nothing_earned start e h = sym (ap (plus start) (zero_bn-plus bn e ∙ h) ∙ plus-zero_bn start)

  earned_later :
      (start first later part : Num)
      → plus (plus start first) (plus later part) ≡ plus start (plus (plus first later) part)
  earned_later start first later part =
      plus_assoc start first (plus later part) ∙ ap (plus start) (sym (plus_assoc first later part))

  taken_first :
      (q rest part amount : Num)
      → plus rest part ≡ minus amount q
      → plus (plus q rest) part ≡ amount
  taken_first q rest part amount h =
      plus_assoc q rest part ∙ ap (plus q) h ∙ plus_comm q _ ∙ plus-minus bn amount q

  takes :
      (lo hi : Num) (t : TakeType) (offers : List (Offer Num)) (amount start : Num)
      → lt amount zero_bn ≡ false
      → Takes lo hi t offers amount start
  unfolding take_from book_of shares_offered revenue Q.quantity_gt Q.plus Q.minus Q.multiplied_by
      Q.is_equal ◌+ℤ◌
  takes lo hi t [] amount start nonneg = (
    [],
    [],
    amount,
    refl,
    zero_bn-plus bn amount,
    nonneg,
    ap (result []) (nothing_earned start zero_bn refl),
    ap (result []) (nothing_earned start zero_bn refl),
  )
  takes lo hi t (o ∷ rest) amount start nonneg = elim (Bool-cases (lt zero_bn amount)) [
    | inr none_left ↦
        let none : amount ≡ zero_bn = sym (lt_connex zero_bn amount none_left nonneg) in
        let earned = nothing_earned start (multiplied_by amount (price_for t lo hi o.at_price)) (
          ap (λ a. multiplied_by a (price_for t lo hi o.at_price)) none
          ∙ zero_bn-times bn (price_for t lo hi o.at_price)) in
        (
          [],
          o ∷ rest,
          amount,
          refl,
          zero_bn-plus bn amount,
          (nonneg, inl none),
          rw none_left refl
              ∙ ap₂ (λ q e. result (record o { offered = q } ∷ rest) e)
                  (sym (ap (minus o.offered) none ∙ minus-zero_bn bn o.offered)) earned,
          rw none_left refl ∙ ap (result (o ∷ rest)) earned,
        )
    | inl more ↦ elim (Bool-cases (lt amount o.offered)) [
      | inl larger ↦
          let earned =
            ap (plus start)
              (sym (zero_bn-plus bn (multiplied_by amount (price_for t lo hi o.at_price)))) in
          (
            [],
            o ∷ rest,
            amount,
            refl,
            zero_bn-plus bn amount,
            (nonneg, inr larger),
            rw (more, priced t lo hi o.at_price) (rw larger refl)
                ∙ ap (result (without amount (o ∷ rest))) earned,
            rw (more, priced t lo hi o.at_price) (rw larger refl) ∙ ap (result (o ∷ rest)) earned,
          )
      | inr used_up ↦
          let first = multiplied_by o.offered (price_for t lo hi o.at_price) in
          let (whole, later, part, split, sum, fits, run, dry_run) =
            takes lo hi t rest (minus amount o.offered) (plus start first)
              (fewer_nonneg amount o.offered used_up) in
          let earned =
            earned_later start first (revenue t lo hi whole) (part_revenue t lo hi part later) in
          (
            o ∷ whole,
            later,
            part,
            ap (◌∷◌ o) split,
            taken_first o.offered (shares_offered whole) part amount sum,
            fits,
            rw (more, priced t lo hi o.at_price) (rw used_up run)
                ∙ ap (result (without part later)) earned,
            rw (more, priced t lo hi o.at_price) (rw used_up dry_run) ∙ ap (result later) earned,
          )
    ]
  ]

  -- Taking an amount of shares that is not negative from the orders of one side returns. The orders
  -- are some that are used up and then the rest: the shares of the former and a part of the first
  -- order of the rest are the amount, the part being nothing or less than that order. The proceeds
  -- are the shares of the orders that are used up, each at what a share of that order is worth, and
  -- the part at what a share of its order is worth. The book that is returned is the rest, with the
  -- part taken from its first order, and in a dry run the rest as it was, with the same proceeds. If
  -- no order is left, the part is not taken from any and brings nothing.
  pub take_best_lem :
      (lo hi : Num) (t : TakeType) (offers : List (Offer Num)) (amount : Num)
      → lt amount zero_bn ≡ false
      → (whole : List (Offer Num)) × (rest : List (Offer Num)) × (part : Num) × (offers
          ≡ whole ++ rest)
        × (plus (shares_offered whole) part ≡ amount)
        × IsPartOf part rest
        × (take_best bn
              (new_quantity price lo)
              (new_quantity price hi)
              (book_of offers)
              (new_quantity shares amount)
              t
              false
            ≡ result
                (without part rest)
                (plus (revenue t lo hi whole) (part_revenue t lo hi part rest)))
        × (take_best bn
              (new_quantity price lo)
              (new_quantity price hi)
              (book_of offers)
              (new_quantity shares amount)
              t
              true
            ≡ result rest (plus (revenue t lo hi whole) (part_revenue t lo hi part rest)))
  unfolding take_best
  take_best_lem lo hi t offers amount nonneg =
      let (whole, rest, part, split, sum, fits, run, dry_run) =
        takes lo hi t offers amount zero_bn nonneg in
      (
        whole,
        rest,
        part,
        split,
        sum,
        fits,
        run ∙ ap (result (without part rest)) (zero_bn-plus bn _),
        dry_run ∙ ap (result rest) (zero_bn-plus bn _),
      )
