-- ===== src/Trades/OpenInterest.antt =====
-- The open interest of a category is that of its markets
-- (src/blockchain/log-processors/order-filled/update-volumetrics.ts, category-aggregations.ts).
use augur_node.Prelude.{
  ℕ, ◌≡◌, refl, sym, ap, ◌∙◌, arith, Bool, false, Option, none, some, List, [], ◌∷◌, ◌==◌, ==_refl,
  if◌then◌else◌, Bool-cases, inl, inr, Result, ok,
}
use augur_node.Prelude.Tables.{first_where, update_where, count_where}
use augur_node.Prelude.TableLaws.{
  first-update, updated, updated_same, update_none, count_zero-first,
}
use augur_node.BigNumber.{BigNumber, minus_self, sum-minus_sum}
use augur_node.Database.{
  Action, World, Error, MarketRow, CategoryRow, SupplyRow, finalized, modify, or_throw, ◌>>◌, ◌>>=◌,
  market_not_found, supply_not_found, category_not_found,
}
use augur_node.MarketStates.{is_market}
use augur_node.Blocks.{named_row, is_in_state}
use augur_node.Orders.{OrderNumbers, fixed_point_to_decimal}
use augur_node.Reporting.Markets.{in_category}
use augur_node.Trades.{
  joins, is_share_of, set_open_interest, change_category, update_market_open_interest,
  update_category_aggregations_on_market_open_interest_changed,
}

abbrev pub is_in : ℕ → Option ℕ → Bool
is_in category none = false
is_in category (some c) = c == category

module _ (bn : BigNumber) where
  open bn use {
    Num, plus, minus, multiplied_by, negated, zero_bn, plus_assoc, plus_comm, plus-zero_bn,
    plus-negated, minus_lem,
  }

  -- The open interest of the markets of a category.
  unfoldable pub open_interest_of : ℕ → List (MarketRow Num) → Num
  open_interest_of category [] = zero_bn
  open_interest_of category (m ∷ markets) =
      let rest = open_interest_of category markets in
      if is_in category m.category then plus m.open_interest rest else rest

  exchanged : (a b c : Num) → plus a (plus b c) ≡ plus b (plus a c)
  exchanged a b c = sym (plus_assoc a b c) ∙ ap (λ x. plus x c) (plus_comm a b) ∙ plus_assoc b a c

  -- n = (m + (n - m))
  difference : (m n : Num) → plus m (minus n m) ≡ n
  difference m n =
      ap (plus m) (minus_lem n m)
      ∙ exchanged m n (negated m)
      ∙ ap (plus n) (plus-negated m)
      ∙ plus-zero_bn n

  moved : (m n rest : Num) → plus n rest ≡ plus (plus m rest) (minus n m)
  moved m n rest = sym (
      plus_assoc m rest (minus n m)
      ∙ ap (plus m) (plus_comm rest (minus n m))
      ∙ sym (plus_assoc m (minus n m) rest)
      ∙ ap (λ x. plus x rest) (difference m n))

  both_moved : (a b d : Num) → minus (plus a d) (plus b d) ≡ minus a b
  both_moved a b d =
      sum-minus_sum bn a d b d ∙ ap (plus (minus a b)) (minus_self bn d) ∙ plus-zero_bn (minus a b)

  open_interest_of-update :
      (category market_id : ℕ) (n : Num) (markets : List (MarketRow Num)) (m : MarketRow Num)
      → first_where (is_market market_id) markets ≡ some m
      → count_where (is_market market_id) markets ≡ 1
      → m.category ≡ some category
      → open_interest_of category
          (update_where (is_market market_id) (set_open_interest bn n) markets)
        ≡ plus (open_interest_of category markets) (minus n m.open_interest)
  unfolding open_interest_of first_where count_where update_where
  open_interest_of-update category market_id n [] m h one k = cc
  open_interest_of-update category market_id n (r ∷ markets) m h one k =
      elim (Bool-cases (is_market market_id r)) [
        | inl t ↦
            let no_more =
              count_zero-first (is_market market_id) markets (omega (arith, rw t at one)) in
            let same = some_of (rw t at h) in
            let inside =
              ap (λ (x : MarketRow Num). is_in category x.category) same
              ∙ ap (is_in category) k
              ∙ ==_refl category in
            rw t (
              rw
                (update_none (is_market market_id) (set_open_interest bn n) markets no_more, inside)
                (moved r.open_interest n (open_interest_of category markets)
                  ∙ ap
                      (λ (x : MarketRow Num).
                        plus (plus r.open_interest (open_interest_of category markets))
                          (minus n x.open_interest))
                      same))
        | inr t ↦
            let later =
              open_interest_of-update category market_id n markets m (rw t at h)
                (omega (arith, rw t at one)) k in
            rw t (elim (Bool-cases (is_in category r.category)) [
              | inl i ↦ rw i (ap (plus r.open_interest) later ∙ sym (plus_assoc _ _ _))
              | inr i ↦ rw i later
            ])
      ]
    where
      some_of : {x y : MarketRow Num} → some x ≡ some y → x ≡ y
      some_of q = cc

  -- What is written for the rows that are found.
  abbrev pub new_open_interest : OrderNumbers Num → MarketRow Num → SupplyRow Num → Num
  new_open_interest on m s =
      fixed_point_to_decimal bn on (multiplied_by s.supply m.num_ticks) on.wei_per_ether

  abbrev with_category : Bool → Num → CategoryRow Num → World Num → World Num
  with_category is_finalized oi_delta row w = record w {
    db = record (w.db) {
      categories =
          update_where (in_category row.category) (change_category bn is_finalized oi_delta row)
            w.db.categories;
    };
  }

  abbrev with_market : ℕ → Num → World Num → World Num
  with_market market_id n w = record w {
    db = record (w.db) {
      markets = update_where (is_market market_id) (set_open_interest bn n) w.db.markets;
    };
  }

  category_lem :
      (category : ℕ) (new old : Num) (is_finalized : Bool) (w : World Num) (row : CategoryRow Num)
      → first_where (in_category category) w.db.categories ≡ some row
      → update_category_aggregations_on_market_open_interest_changed bn
          (some category)
          new
          old
          is_finalized
          w
        ≡ (ok tt, with_category is_finalized (minus new old) row w)
  unfolding update_category_aggregations_on_market_open_interest_changed
  category_lem category new old is_finalized w row h =
      ap
        (λ (found : Option (CategoryRow Num)).
          (or_throw found category_not_found >>= (λ row'. modify (λ db. record db {
            categories =
                update_where (in_category row'.category)
                  (change_category bn is_finalized (minus new old) row') db.categories;
          })))
            w)
        h

  module _ (on : OrderNumbers Num) (market_id : ℕ) where
    abbrev pub with_supply : MarketRow Num → Bool → Option (SupplyRow Num) → Action Num (Unit {0})
    with_supply m is_finalized row = or_throw row supply_not_found >>= (λ s.
        modify (λ db. record db {
          markets =
              update_where (is_market market_id) (set_open_interest bn (new_open_interest on m s))
                db.markets;
        })
        >> update_category_aggregations_on_market_open_interest_changed bn m.category
            (new_open_interest on m s) m.open_interest is_finalized)

    abbrev pub with_found : MarketRow Num → Action Num (Unit {0})
    with_found m w =
        with_supply m (is_in_state finalized (named_row m.market_state_id w.db.market_states))
          (first_where (joins (is_share_of market_id) w.db.tokens) w.db.token_supply) w

    open_interest_lem :
        (category : ℕ) (w : World Num) (m : MarketRow Num) (s : SupplyRow Num)
        (row : CategoryRow Num)
        → first_where (is_market market_id) w.db.markets ≡ some m
        → m.category ≡ some category
        → first_where (joins (is_share_of market_id) w.db.tokens) w.db.token_supply ≡ some s
        → first_where (in_category category) w.db.categories ≡ some row
        → update_market_open_interest bn on market_id w ≡ (
          ok tt,
          with_category
              (is_in_state finalized (named_row m.market_state_id w.db.market_states))
              (minus (new_open_interest on m s) m.open_interest)
              row
              (with_market market_id (new_open_interest on m s) w),
        )
    unfolding update_market_open_interest
    open_interest_lem category w m s row h k t c =
        ap (λ found. (or_throw found market_not_found >>= with_found) w) h
        ∙ ap
            (λ found.
              with_supply m (is_in_state finalized (named_row m.market_state_id w.db.market_states))
                found w)
            t
        ∙ ap
            (λ name.
              update_category_aggregations_on_market_open_interest_changed bn name
                (new_open_interest on m s) m.open_interest
                (is_in_state finalized (named_row m.market_state_id w.db.market_states))
                (with_market market_id (new_open_interest on m s) w))
            k
        ∙ category_lem category (new_open_interest on m s) m.open_interest _
            (with_market market_id (new_open_interest on m s) w) row c

    -- Where a market has one row, a share token with a supply, and a category that is found, the
    -- update of its open interest returns, the market gets the supply times its number of ticks as
    -- ether, and the open interest in the first row of the category less that of the markets of the
    -- category is what it was before.
    pub update_market_open_interest_lem :
        (category : ℕ) (w : World Num) (m : MarketRow Num) (s : SupplyRow Num)
        (row : CategoryRow Num)
        → first_where (is_market market_id) w.db.markets ≡ some m
        → count_where (is_market market_id) w.db.markets ≡ 1
        → m.category ≡ some category
        → first_where (joins (is_share_of market_id) w.db.tokens) w.db.token_supply ≡ some s
        → first_where (in_category category) w.db.categories ≡ some row
        → (let result = update_market_open_interest bn on market_id w in
            (result.0 ≡ ok tt)
            × (first_where (is_market market_id) result.1.db.markets
                ≡ some (set_open_interest bn (new_open_interest on m s) m))
            × ((c : CategoryRow Num) × (first_where (in_category category) result.1.db.categories
                  ≡ some c)
                × (minus c.open_interest (open_interest_of category result.1.db.markets)
                    ≡ minus row.open_interest (open_interest_of category w.db.markets))))
    update_market_open_interest_lem category w m s row h one k t c =
        let e = open_interest_lem category w m s row h k t c in
        let n = new_open_interest on m s in
        let p : MarketRow Num → Bool = is_market market_id in
        let is_finalized = is_in_state finalized (named_row m.market_state_id w.db.market_states) in
        let delta = minus n m.open_interest in
        let f : CategoryRow Num → CategoryRow Num = change_category bn is_finalized delta row in
        (
          ap (λ (r : Result Error (Unit {0}) × World Num). r.0) e,
          ap (λ (r : Result Error (Unit {0}) × World Num). first_where p r.1.db.markets) e
              ∙ first-update p p (set_open_interest bn n) w.db.markets (λ x. refl)
              ∙ updated_same p (set_open_interest bn n) w.db.markets h,
          (
            f row,
            ap
                  (λ (r : Result Error (Unit {0}) × World Num).
                    first_where (in_category category) r.1.db.categories)
                  e
                ∙ first-update (in_category category) (in_category row.category) f w.db.categories
                    (λ x. refl)
                ∙ ap (updated (in_category row.category) f) c
                ∙ rw (==_refl row.category) refl,
            ap (minus (plus row.open_interest delta)) (
                  ap
                    (λ (r : Result Error (Unit {0}) × World Num).
                      open_interest_of category r.1.db.markets)
                    e
                  ∙ open_interest_of-update category market_id n w.db.markets m h one k)
                ∙ both_moved row.open_interest (open_interest_of category w.db.markets) delta,
          ),
        )
