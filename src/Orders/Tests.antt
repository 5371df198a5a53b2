-- ===== src/Orders/Tests.antt =====
-- Orders at a concrete table, in whole numbers.
use augur_node.Prelude.{◌≡◌, refl, true, some, [], ◌∷◌, ok}
use augur_node.Prelude.Int.{ℤ, pos, ◌-ℤ◌, div_ℤ, ◌*ℤ◌}
use augur_node.Prelude.Tables.{first_where}
use augur_node.BigNumber.{integers}
use augur_node.Database.{World, empty_db, OrderRow, buy, open_order, ◌>>◌}
use augur_node.Orders.{
  OrderNumbers, is_order, passes_checks, remaining, format_order_amount, round_to_precision,
  update_order,
}
use augur_node.Orders.Fills.{settled, update_order-undone}

-- No decimal places: whole numbers are rounded to themselves.
abbrev whole_numbers : OrderNumbers ℤ
whole_numbers = record {
  to_precision_down = λ a. a;
  to_precision_up = λ a. a;
  integer_floor = λ a. a;
  integer_ceil = λ a. a;
  convert_on_chain_amount_to_display_amount = λ a t. a;
  convert_on_chain_price_to_display_price = λ p m t. p;
  precision_limit = pos 10;
  precision_zero = pos 1;
  precision_multiple = pos 1;
  minimum_trade_size = pos 1;
  wei_per_ether = pos 1;
}

abbrev order_nine : OrderRow ℤ
order_nine = record {
  order_id = 9;
  market_id = 5;
  outcome = 1;
  share_token = 30;
  order_type = buy;
  order_creator = 1;
  order_state = open_order;
  price = pos 3;
  amount = pos 12;
  original_amount = pos 12;
  full_precision_price = pos 3;
  full_precision_amount = pos 12;
  original_full_precision_amount = pos 12;
  original_tokens_escrowed = pos 36;
  original_shares_escrowed = pos 0;
  tokens_escrowed = pos 36;
  shares_escrowed = pos 0;
  trade_group_id = 0;
  block_number = 100;
  transaction_hash = 4;
  log_index = 0;
}

abbrev book : World ℤ
book = record {
  db = record (empty_db) { orders = order_nine ∷ [] };
  emitted = [];
  override_timestamps = [];
  block_head_timestamp = 0;
}

nine_found : first_where (is_order 9) book.db.orders ≡ some order_nine
unfolding first_where
nine_found = refl

nine_checked :
    (passes_checks integers whole_numbers
        (remaining integers whole_numbers order_nine (pos 5) (pos 0) (pos 15) order_nine)
      ≡ true)
    × (passes_checks integers whole_numbers
          (settled integers whole_numbers order_nine (pos 12) (pos 0) (pos 36))
        ≡ true)
unfolding format_order_amount round_to_precision ◌-ℤ◌ div_ℤ ◌*ℤ◌
nine_checked = (refl, refl)

-- Five shares of the order are filled, and the block of the fill is removed.
update_order-undone_example :
    let result =
      (update_order integers whole_numbers 5 9 (pos 5) (pos 3) (pos 0) (pos 15)
          >> update_order integers whole_numbers 5 9
              (integers.negated (pos 5))
              (pos 3)
              (integers.negated (pos 0))
              (integers.negated (pos 15)))
        book in
    (result.0 ≡ ok tt)
    × (first_where (is_order 9) result.1.db.orders
        ≡ some (settled integers whole_numbers order_nine (pos 12) (pos 0) (pos 36)))
update_order-undone_example =
    update_order-undone integers whole_numbers 5 9 (pos 5) (pos 3) (pos 3) (pos 0) (pos 15) book
      order_nine nine_found nine_checked.0 nine_checked.1
