-- ===== src/OrderBook/Tests.antt =====
-- Taking from a concrete side of the book.
use augur_node.Prelude.{◌≡◌, refl, List, [], ◌∷◌, ◌++◌, false, true}
use augur_node.Prelude.Int.{ℤ, pos, ◌+ℤ◌}
use augur_node.BigNumber.{integers}
use augur_node.Quantity.{new_quantity, shares, price}
use augur_node.OrderBook.{take_long, take_best}
use augur_node.OrderBook.Taking.{
  Offer, book_of, shares_offered, revenue, without, part_revenue, IsPartOf, result, take_best_lem,
}

abbrev two_bids : List (Offer ℤ)
two_bids =
    record { at_price = pos 9; offered = pos 4 }
    ∷ record { at_price = pos 8; offered = pos 10 }
    ∷ []

-- Six shares: the first bid whole, two of the second.
take_best_lem_example :
    (whole : List (Offer ℤ)) × (rest : List (Offer ℤ)) × (part : ℤ) × (two_bids ≡ whole ++ rest)
    × (shares_offered integers whole +ℤ part ≡ pos 6)
    × IsPartOf integers part rest
    × (take_best integers
          (new_quantity price (pos 2))
          (new_quantity price (pos 20))
          (book_of integers two_bids)
          (new_quantity shares (pos 6))
          take_long
          false
        ≡ result integers (without integers part rest) (
            revenue integers take_long (pos 2) (pos 20) whole
            +ℤ part_revenue integers take_long (pos 2) (pos 20) part rest))
    × (take_best integers
          (new_quantity price (pos 2))
          (new_quantity price (pos 20))
          (book_of integers two_bids)
          (new_quantity shares (pos 6))
          take_long
          true
        ≡ result integers rest (
            revenue integers take_long (pos 2) (pos 20) whole
            +ℤ part_revenue integers take_long (pos 2) (pos 20) part rest))
take_best_lem_example = take_best_lem integers (pos 2) (pos 20) take_long two_bids (pos 6) refl
