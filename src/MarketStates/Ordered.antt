-- ===== src/MarketStates/Ordered.antt =====
-- Histories of markets (src/blockchain/log-processors/database.ts): the rows of `market_state` under an
-- insertion and under a deletion, and which of them the markets name.
use augur_node.Prelude.{
  ℕ, suc, ◌≤◌, ◌<◌, ◌≡◌, ◌⊎◌, refl, sym, ap, ◌∙◌, Bool, true, false, ◌&&◌, Option, none, some, List,
  [], ◌∷◌, arith, ◌==◌, ==_iff, Bool-cases, inl, inr,
}
use augur_node.Prelude.Tables.{update_where, delete_where, count_where, insert_row}
use augur_node.Database.{Db, MarketRow, MarketStateRow, ReportingState}
use augur_node.MarketStates.{
  query_current_market_state_id, is_market, set_state_id, is_current, max_id,
}
use augur_node.MarketStates.History.{state_row}

-- The ids of the rows ascend, from `low` on and below `next`.
unfoldable pub IsOrdered : ℕ → ℕ → List MarketStateRow → Type 0
IsOrdered low next [] = low ≤ next
IsOrdered low next (r ∷ rows) =
    (low ≤ r.market_state_id) × IsOrdered (suc r.market_state_id) next rows

-- Every market names the latest of its rows, or nothing if it has none.
unfoldable pub AllLatest : {N : Type 0} → List MarketStateRow → List (MarketRow N) → Type 0
AllLatest states [] = Unit {0}
AllLatest states (r ∷ rows) =
    (r.market_state_id ≡ query_current_market_state_id r.market_id states) × AllLatest states rows

abbrev pub IsConsistent : {N : Type 0} → Db N → Type 0
IsConsistent db =
    IsOrdered 0 db.next_market_state_id db.market_states × AllLatest db.market_states db.markets

IsOrdered-weaken :
    (low high next : ℕ) (rows : List MarketStateRow)
    → low ≤ high
    → IsOrdered high next rows
    → IsOrdered low next rows
unfolding IsOrdered
IsOrdered-weaken low high next [] l o = omega arith
IsOrdered-weaken low high next (r ∷ rows) l o = (omega (arith, o.0), o.1)

pub IsOrdered-insert :
    (low n m b : ℕ) (st : ReportingState) (rows : List MarketStateRow)
    → IsOrdered low n rows
    → IsOrdered low (suc n) (insert_row (state_row n m st b) rows)
unfolding IsOrdered insert_row
IsOrdered-insert low n m b st [] o = (o, omega arith)
IsOrdered-insert low n m b st (r ∷ rows) o = (o.0, IsOrdered-insert _ n m b st rows o.1)

pub IsOrdered-delete :
    (p : MarketStateRow → Bool) (low n : ℕ) (rows : List MarketStateRow)
    → IsOrdered low n rows
    → IsOrdered low n (delete_where p rows)
unfolding IsOrdered delete_where
IsOrdered-delete p low n [] o = o
IsOrdered-delete p low n (r ∷ rows) o = elim (Bool-cases (p r)) [
  | inl e ↦
      rw e (IsOrdered-delete p low n rows (IsOrdered-weaken low _ n rows (omega (arith, o.0)) o.1))
  | inr e ↦ rw e (o.0, IsOrdered-delete p _ n rows o.1)
]

-- The latest state of a market after another market was given one.
pub query-insert_other :
    (m' n m b : ℕ) (st : ReportingState) (rows : List MarketStateRow)
    → (m == m') ≡ false
    → query_current_market_state_id m' (insert_row (state_row n m st b) rows)
      ≡ query_current_market_state_id m' rows
unfolding query_current_market_state_id insert_row
query-insert_other m' n m b st [] h = rw h refl
query-insert_other m' n m b st (r ∷ rows) h = elim (Bool-cases (r.market_id == m')) [
  | inl e ↦ rw e (ap (max_id r.market_state_id) (query-insert_other m' n m b st rows h))
  | inr e ↦ rw e (query-insert_other m' n m b st rows h)
]

max_id-ge :
    (a low id : ℕ) (o : Option ℕ)
    → low ≤ a
    → ((k : ℕ) → o ≡ some k → low ≤ k)
    → max_id a o ≡ some id
    → low ≤ id
max_id-ge a low id none l h e = ground (arith, e)
max_id-ge a low id (some k) l h e = ground (arith, h k refl, e)

query_low :
    (m low n id : ℕ) (rows : List MarketStateRow)
    → IsOrdered low n rows
    → query_current_market_state_id m rows ≡ some id
    → low ≤ id
unfolding IsOrdered query_current_market_state_id
query_low m low n id [] o e = cc
query_low m low n id (r ∷ rows) o e = elim (Bool-cases (r.market_id == m)) [
  | inl h ↦
      max_id-ge r.market_state_id low id (query_current_market_state_id m rows) o.0
        (λ k q. omega (arith, query_low m (suc r.market_state_id) n k rows o.1 q, o.0)) (rw h at e)
  | inr h ↦ omega (arith, query_low m (suc r.market_state_id) n id rows o.1 (rw h at e), o.0)
]

-- The rows with an id are of a market.
pub IsOwned : ℕ → ℕ → List MarketStateRow → Type 0
IsOwned m id [] = Unit {0}
IsOwned m id (r ∷ rows) = (r.market_state_id ≡ id → (r.market_id == m) ≡ true) × IsOwned m id rows

below-IsOwned :
    (m id low n : ℕ) (rows : List MarketStateRow)
    → IsOrdered low n rows
    → id < low
    → IsOwned m id rows
unfolding IsOrdered IsOwned
below-IsOwned m id low n [] o l = tt
below-IsOwned m id low n (r ∷ rows) o l =
    (λ e. absurd (omega (arith, o.0)), below-IsOwned m id _ n rows o.1 (omega (arith, o.0)))

max_id-cases :
    (a id : ℕ) (o : Option ℕ)
    → max_id a o ≡ some id
    → ((k : ℕ) → o ≡ some k → a < k)
    → (id ≡ a) ⊎ (o ≡ some id)
max_id-cases a id none e h = inl (ground (arith, e))
max_id-cases a id (some k) e h = inr (ground (arith, e, h k refl))

pub query-IsOwned :
    (m low n id : ℕ) (rows : List MarketStateRow)
    → IsOrdered low n rows
    → query_current_market_state_id m rows ≡ some id
    → IsOwned m id rows
unfolding IsOrdered IsOwned query_current_market_state_id
query-IsOwned m low n id [] o e = tt
query-IsOwned m low n id (r ∷ rows) o e = elim (Bool-cases (r.market_id == m)) [
  | inl h ↦ (
    λ same. h,
    elim (max_id-cases r.market_state_id id (query_current_market_state_id m rows) (rw h at e)
        (λ k q. query_low m (suc r.market_state_id) n k rows o.1 q)) [
          | inl same ↦ below-IsOwned m id _ n rows o.1 (omega (arith, same))
          | inr later ↦ query-IsOwned m _ n id rows o.1 later
        ],
  )
  | inr h ↦ (
    λ same.
        absurd (omega (arith, same, query_low m (suc r.market_state_id) n id rows o.1 (rw h at e))),
    query-IsOwned m _ n id rows o.1 (rw h at e),
  )
]

pub ==_sym : (a b : ℕ) → (a == b) ≡ (b == a)
==_sym a b = ground arith

not_both_markets : (a m m' : ℕ) → (a == m) ≡ true → (m' == m) ≡ false → (a == m') ≡ false
not_both_markets a m m' h k = ground arith

id_of_current : (a id c d : ℕ) → ((a == id) && (c == d)) ≡ true → a ≡ id
id_of_current a id c d h = ground arith

pub query-delete_other :
    (m m' id : ℕ) (expected : ReportingState) (rows : List MarketStateRow)
    → IsOwned m id rows
    → (m' == m) ≡ false
    → query_current_market_state_id m' (delete_where (is_current (some id) expected) rows)
      ≡ query_current_market_state_id m' rows
unfolding IsOwned query_current_market_state_id delete_where
query-delete_other m m' id expected [] o h = refl
query-delete_other m m' id expected (r ∷ rows) o h =
    elim (Bool-cases (is_current (some id) expected r)) [
      | inl e ↦ rw e (
          rw (not_both_markets r.market_id m m' (o.0 (id_of_current r.market_state_id id _ _ e)) h)
            (query-delete_other m m' id expected rows o.1 h))
      | inr e ↦ rw e (elim (Bool-cases (r.market_id == m')) [
        | inl k ↦
            rw k (ap (max_id r.market_state_id) (query-delete_other m m' id expected rows o.1 h))
        | inr k ↦ rw k (query-delete_other m m' id expected rows o.1 h)
      ])
    ]

pub count_zero-delete :
    (p : MarketStateRow → Bool) (rows : List MarketStateRow)
    → count_where p rows ≡ 0
    → delete_where p rows ≡ rows
unfolding count_where delete_where
count_zero-delete p [] h = refl
count_zero-delete p (r ∷ rows) h = elim (Bool-cases (p r)) [
  | inl e ↦ absurd (omega (arith, rw e at h))
  | inr e ↦ rw e (ap (◌∷◌ r) (count_zero-delete p rows (omega (arith, rw e at h))))
]

pub delete_nothing :
    (expected : ReportingState) (rows : List MarketStateRow)
    → delete_where (is_current none expected) rows ≡ rows
unfolding delete_where
delete_nothing expected [] = refl
delete_nothing expected (r ∷ rows) = ap (◌∷◌ r) (delete_nothing expected rows)

module _ {N : Type 0} where
  pub set_latest-AllLatest :
      (m : ℕ) (states states' : List MarketStateRow) (markets : List (MarketRow N))
      → ((m' : ℕ)
          → (m' == m) ≡ false
          → query_current_market_state_id m' states' ≡ query_current_market_state_id m' states)
      → AllLatest states markets
      → AllLatest states' (
          update_where
            (is_market m)
            (set_state_id (query_current_market_state_id m states'))
            markets)
  unfolding AllLatest update_where
  set_latest-AllLatest m states states' [] k all = tt
  set_latest-AllLatest m states states' (r ∷ rows) k all = elim (Bool-cases (is_market m r)) [
    | inl e ↦ rw e (
      ap (λ x. query_current_market_state_id x states') (sym ((==_iff r.market_id m).0 e)),
      set_latest-AllLatest m states states' rows k all.1,
    )
    | inr e ↦
        rw e (all.0 ∙ sym (k r.market_id e), set_latest-AllLatest m states states' rows k all.1)
  ]

  -- An update that keeps what a market is called and which state it names.
  pub update-AllLatest :
      (p : MarketRow N → Bool) (f : MarketRow N → MarketRow N) (states : List MarketStateRow)
      (markets : List (MarketRow N))
      → ((r : MarketRow N)
          → ((f r).market_state_id ≡ r.market_state_id) × ((f r).market_id ≡ r.market_id))
      → AllLatest states markets
      → AllLatest states (update_where p f markets)
  unfolding AllLatest update_where
  update-AllLatest p f states [] k all = tt
  update-AllLatest p f states (r ∷ rows) k all = elim (Bool-cases (p r)) [
    | inl e ↦ rw e (
      (k r).0 ∙ all.0 ∙ ap (λ x. query_current_market_state_id x states) (sym (k r).1),
      update-AllLatest p f states rows k all.1,
    )
    | inr e ↦ rw e (all.0, update-AllLatest p f states rows k all.1)
  ]
