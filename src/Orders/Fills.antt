-- ===== src/Orders/Fills.antt =====
-- Fills and their removal (src/blockchain/log-processors/order-filled/update-order.ts): the removal of
-- a fill calls `updateOrder` with the negated amounts.
use augur_node.Prelude.{
  ℕ, ◌≡◌, refl, sym, ap, ◌∙◌, true, none, some, List, if◌then◌else◌, ok, err, ◌&&◌, ◌==◌,
}
use augur_node.Prelude.Tables.{first_where, update_where}
use augur_node.Prelude.TableLaws.{first-update, updated, updated_same}
use augur_node.BigNumber.{BigNumber, is_zero, minus-negated, plus-minus}
use augur_node.Database.{Db, World, OrderRow, open_order, filled, after_ok, ◌>>◌, order_not_found}
use augur_node.Orders.{
  OrderNumbers, is_order, remaining, passes_checks, set_price, update_order, format_order_amount,
}

module _ (bn : BigNumber) (on : OrderNumbers (bn.Num)) where
  open bn use {Num, zero_bn, plus, minus, negated}

  -- The tables after the fill of an order that exists.
  abbrev filled_db : ℕ → ℕ → Num → Num → Num → Num → OrderRow Num → Db Num → Db Num
  filled_db m id a p s t order db = record db {
    outcomes =
        update_where (λ r. r.market_id == m && r.outcome == order.outcome) (set_price bn on p)
          db.outcomes;
    orders = update_where (is_order id) (remaining bn on order a s t) db.orders;
  }

  update_order-found :
      (m id : ℕ) (a p s t : Num) (w : World Num) {order : OrderRow Num}
      → first_where (is_order id) w.db.orders ≡ some order
      → passes_checks bn on (remaining bn on order a s t order) ≡ true
      → update_order bn on m id a p s t w
        ≡ (ok tt, record w { db = filled_db m id a p s t order w.db })
  unfolding update_order
  update_order-found m id a p s t w h k = rw h (rw k refl)

  update_order-missing :
      (m id : ℕ) (a p s t : Num) (w : World Num)
      → first_where (is_order id) w.db.orders ≡ none
      → update_order bn on m id a p s t w ≡ (err order_not_found, w)
  unfolding update_order
  update_order-missing m id a p s t w h = rw h refl

  filled_row :
      (id : ℕ) (a s t : Num) (rows : List (OrderRow Num)) {order : OrderRow Num}
      → first_where (is_order id) rows ≡ some order
      → first_where (is_order id) (update_where (is_order id) (remaining bn on order a s t) rows)
        ≡ some (remaining bn on order a s t order)
  filled_row id a s t rows {order} h =
      first-update (is_order id) (is_order id) (remaining bn on order a s t) rows (λ r. refl)
      ∙ ap (updated (is_order id) (remaining bn on order a s t)) h
      ∙ ap (updated (is_order id) (remaining bn on order a s t)) (sym h)
      ∙ updated_same (is_order id) (remaining bn on order a s t) rows h

  back : (x a : Num) → minus (minus x a) (negated a) ≡ x
  back x a = minus-negated bn (minus x a) a ∙ plus-minus bn x a

  -- The row of an order with these amounts left.
  abbrev pub settled : OrderRow Num → Num → Num → Num → OrderRow Num
  settled order full shares tokens = record order {
    order_state = if is_zero bn full then filled else open_order;
    full_precision_amount = full;
    amount = format_order_amount bn on full;
    shares_escrowed = shares;
    tokens_escrowed = tokens;
  }

  -- Where what is left of an order passes the checks of the table after a fill, and the amounts
  -- that it had before, its full-precision amount rounded, pass them as well, the removal of the
  -- fill gives back what it took: both calls return, and the order has the full-precision amount
  -- and the escrowed shares and tokens that it had before, the rounded amount of that, and is
  -- filled if the amount is zero and open otherwise; its other columns are what they were.
  pub update_order-undone :
      (m id : ℕ) (a p q s t : Num) (w : World Num) (order : OrderRow Num)
      → first_where (is_order id) w.db.orders ≡ some order
      → passes_checks bn on (remaining bn on order a s t order) ≡ true
      → passes_checks bn on
          (settled order order.full_precision_amount order.shares_escrowed order.tokens_escrowed)
        ≡ true
      → let result =
          (update_order bn on m id a p s t
              >> update_order bn on m id (negated a) q (negated s) (negated t))
            w in
        (result.0 ≡ ok tt)
        × (first_where (is_order id) result.1.db.orders
            ≡ some (
                settled order order.full_precision_amount order.shares_escrowed
                  order.tokens_escrowed))
  update_order-undone m id a p q s t w order h left whole = (
    ap (λ r. r.0) both,
    ap (λ r. first_where (is_order id) r.1.db.orders) both
        ∙ filled_row id (negated a) (negated s) (negated t) (between.db.orders)
            (filled_row id a s t w.db.orders h)
        ∙ ap some given_back,
  )
    where
      given_back :
          remaining bn on
            (remaining bn on order a s t order)
            (negated a)
            (negated s)
            (negated t)
            (remaining bn on order a s t order)
          ≡ settled order order.full_precision_amount order.shares_escrowed order.tokens_escrowed
      given_back =
          ap
            (λ x.
              settled order x (minus (minus order.shares_escrowed s) (negated s))
                (minus (minus order.tokens_escrowed t) (negated t)))
            (back order.full_precision_amount a)
          ∙ ap
              (λ x.
                settled order order.full_precision_amount x
                  (minus (minus order.tokens_escrowed t) (negated t)))
              (back order.shares_escrowed s)
          ∙ ap (settled order order.full_precision_amount order.shares_escrowed)
              (back order.tokens_escrowed t)

      between : World Num
      between = record w { db = filled_db m id a p s t order w.db }

      both :
          (update_order bn on m id a p s t
              >> update_order bn on m id (negated a) q (negated s) (negated t))
            w
          ≡ (
            ok tt,
            record (between) {
              db =
                  filled_db m id
                    (negated a)
                    q
                    (negated s)
                    (negated t)
                    (remaining bn on order a s t order)
                    (between.db);
            },
          )
      both =
          after_ok (update_order bn on m id a p s t)
            (λ u. update_order bn on m id (negated a) q (negated s) (negated t)) w
            (update_order-found m id a p s t w h left)
          ∙ update_order-found m id (negated a) q (negated s) (negated t) between
              (filled_row id a s t w.db.orders h) (ap (passes_checks bn on) given_back ∙ whole)
