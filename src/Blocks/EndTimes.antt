-- ===== src/Blocks/EndTimes.antt =====
-- No market stays in pre-reporting after its end time (src/blockchain/process-block.ts).
use augur_node.Prelude.{
  ℕ, suc, ◌<◌, ◌≡◌, refl, sym, subst, ◌∙◌, Bool, true, false, ◌&&◌, ◌||◌, not, Option, none, some,
  List, [], ◌∷◌, ◌++◌, map, arith, ◌==◌, ltb, Bool-cases, inl, inr, ok,
}
use augur_node.Prelude.Tables.{select_where, first_where, update_where, insert_row}
use augur_node.Prelude.TableLaws.{first-insert, first_or}
use augur_node.Database.{
  World, MarketRow, MarketStateRow, ReportingState, designated_reporting, pre_reporting,
  market_state_event,
}
use augur_node.MarketStates.{
  is_among, update_market_state, set_market_state_to_latest, is_market, set_state_id,
}
use augur_node.MarketStates.History.{IsNumbered, state_row, current-insert}
use augur_node.Blocks.{
  has_state, named_row, each, advance_market, advance_market_reaching_end_time, market_id_of,
}

-- The database has given the id.
abbrev pub IsGiven : ℕ → Option ℕ → Type 0
IsGiven next none = Unit {0}
IsGiven next (some id) = id < next

-- Every market names a state whose id the database has given.
unfoldable pub NamesGiven : {N : Type 0} → ℕ → List (MarketRow N) → Type 0
NamesGiven next [] = Unit {0}
NamesGiven next (m ∷ rest) = IsGiven next m.market_state_id × NamesGiven next rest

-- The markets of the test are among the ids.
NoneBut : {N : Type 0} → (MarketRow N → Bool) → List ℕ → List (MarketRow N) → Type 0
NoneBut p ids [] = Unit {0}
NoneBut p ids (m ∷ rest) = ((p m && not (is_among m.market_id ids)) ≡ false) × NoneBut p ids rest

and_cut : (b c : Bool) → (b && not c) ≡ false → (a : Bool) → (b && not (a || c)) ≡ false
and_cut true c h true = refl
and_cut true c h false = h
and_cut false c h a = refl

and_end : (b : Bool) → (b && not false) ≡ false → b ≡ false
and_end true h = cc
and_end false h = refl

next_apart : (a next : ℕ) → a < next → (next == a) ≡ false
next_apart a next h = ground arith

given_next : (next : ℕ) → (next == next) ≡ true
given_next next = ground arith

IsNumbered-insert :
    (n m b : ℕ) (st : ReportingState) (rows : List MarketStateRow)
    → IsNumbered n rows
    → IsNumbered (suc n) (insert_row (state_row n m st b) rows)
unfolding IsNumbered insert_row
IsNumbered-insert n m b st [] k = (omega arith, tt)
IsNumbered-insert n m b st (r ∷ rows) k = (omega (arith, k.0), IsNumbered-insert n m b st rows k.1)

unused_id :
    (n : ℕ) (rows : List MarketStateRow)
    → IsNumbered n rows
    → first_where (λ r. r.market_state_id == n) rows ≡ none
unfolding first_where IsNumbered
unused_id n [] k = refl
unused_id n (r ∷ rows) k = rw (below r.market_state_id n k.0) (unused_id n rows k.1)
  where
    below : (a n : ℕ) → a < n → (a == n) ≡ false
    below a n h = ground arith

or_none : (o : Option MarketStateRow) → first_or o none ≡ o
or_none none = refl
or_none (some r) = refl

-- The new row is the one of its id, and the rows of earlier ids stay what they were.
named-new :
    (n m b : ℕ) (st : ReportingState) (rows : List MarketStateRow)
    → IsNumbered n rows
    → named_row (some n) (insert_row (state_row n m st b) rows) ≡ some (state_row n m st b)
named-new n m b st rows k =
    first-insert (λ r. r.market_state_id == n) (state_row n m st b) rows
    ∙ rw (unused_id n rows k, given_next n) refl

named-old :
    (n m b : ℕ) (st : ReportingState) (rows : List MarketStateRow) (o : Option ℕ)
    → IsGiven n o
    → named_row o (insert_row (state_row n m st b) rows) ≡ named_row o rows
named-old n m b st rows none g = refl
named-old n m b st rows (some id) g =
    first-insert (λ r. r.market_state_id == id) (state_row n m st b) rows
    ∙ rw (next_apart id n g) (or_none _)

module _ {N : Type 0} where
  -- A market that is still in pre-reporting though its end time is before the timestamp.
  abbrev pub is_due : ℕ → List MarketStateRow → MarketRow N → Bool
  is_due t states m = has_state pre_reporting states m && ltb m.end_time t

  NoneBut-cons :
      (p : MarketRow N → Bool) (a : ℕ) (ids : List ℕ) (rows : List (MarketRow N))
      → NoneBut p ids rows
      → NoneBut p (a ∷ ids) rows
  unfolding NoneBut is_among
  NoneBut-cons p a ids [] k = tt
  NoneBut-cons p a ids (m ∷ rows) k = (
    and_cut (p m) (is_among m.market_id ids) k.0 (a == m.market_id),
    NoneBut-cons p a ids rows k.1,
  )

  NoneBut-select :
      (p : MarketRow N → Bool) (rows : List (MarketRow N))
      → NoneBut p (map market_id_of (select_where p rows)) rows
  unfolding NoneBut is_among select_where
  NoneBut-select p [] = tt
  NoneBut-select p (m ∷ rows) = elim (Bool-cases (p m)) [
    | inl e ↦
        subst (λ l. NoneBut p (map market_id_of l) (m ∷ rows)) (sym (taken e))
          (
            rw (given_next m.market_id) (never (p m)),
            NoneBut-cons p m.market_id _ rows (NoneBut-select p rows),
          )
    | inr e ↦
        subst (λ l. NoneBut p (map market_id_of l) (m ∷ rows)) (sym (left_out e))
          (left_false (p m) _ e, NoneBut-select p rows)
  ]
    where
      taken : p m ≡ true → select_where p (m ∷ rows) ≡ m ∷ select_where p rows
      taken e = rw e refl

      left_out : p m ≡ false → select_where p (m ∷ rows) ≡ select_where p rows
      left_out e = rw e refl

      left_false : (c d : Bool) → c ≡ false → (c && d) ≡ false
      left_false c d h = rw h refl

      never : (c : Bool) → (c && false) ≡ false
      never true = refl
      never false = refl

  NoneBut-nil :
      (p : MarketRow N → Bool) (rows : List (MarketRow N))
      → NoneBut p [] rows
      → select_where p rows ≡ []
  unfolding NoneBut is_among select_where
  NoneBut-nil p [] k = refl
  NoneBut-nil p (m ∷ rows) k = rw (and_end (p m) k.0) (NoneBut-nil p rows k.1)

  NamesGiven-advance :
      (n id : ℕ) (rows : List (MarketRow N))
      → NamesGiven n rows
      → NamesGiven (suc n) (update_where (is_market id) (set_state_id (some n)) rows)
  unfolding NamesGiven update_where
  NamesGiven-advance n id [] k = tt
  NamesGiven-advance n id (m ∷ rows) k = elim (Bool-cases (is_market id m)) [
    | inl e ↦ rw e (omega arith, NamesGiven-advance n id rows k.1)
    | inr e ↦ rw e (later m.market_state_id k.0, NamesGiven-advance n id rows k.1)
  ]
    where
      later : (o : Option ℕ) → IsGiven n o → IsGiven (suc n) o
      later none g = tt
      later (some a) g = omega (arith, g)

  -- A market that is advanced is due no more, and the others are what they were.
  NoneBut-advance :
      (t n id b : ℕ) (ids : List ℕ) (states : List MarketStateRow) (rows : List (MarketRow N))
      → IsNumbered n states
      → NamesGiven n rows
      → NoneBut (is_due t states) (id ∷ ids) rows
      → NoneBut
          (is_due t (insert_row (state_row n id designated_reporting b) states))
          ids
          (update_where (is_market id) (set_state_id (some n)) rows)
  unfolding NoneBut NamesGiven update_where is_among has_state
  NoneBut-advance t n id b ids states [] k g h = tt
  NoneBut-advance t n id b ids states (m ∷ rows) k g h = elim (Bool-cases (is_market id m)) [
    | inl e ↦ rw e (
      rw (named-new n id b designated_reporting states k) refl,
      NoneBut-advance t n id b ids states rows k g.1 h.1,
    )
    | inr e ↦ rw e (
      rw (named-old n id b designated_reporting states m.market_state_id g.0)
          (rw (apart m.market_id id e) at (h.0)),
      NoneBut-advance t n id b ids states rows k g.1 h.1,
    )
  ]
    where
      apart : (a c : ℕ) → (a == c) ≡ false → (c == a) ≡ false
      apart a c q = ground arith

  -- What the advances of a list of markets come to, from a state where only these may be due.
  Advanced : ℕ → ℕ → ℕ → List ℕ → World N → Type 0
  Advanced universe b t ids w =
      (each ids (advance_market universe b designated_reporting) w).0 ≡ ok tt
      × (let db = (each ids (advance_market universe b designated_reporting) w).1.db in
          select_where (is_due t db.market_states) db.markets ≡ [])

  advances :
      (universe b t : ℕ) (ids : List ℕ) (w : World N)
      → IsNumbered w.db.next_market_state_id w.db.market_states
      → NamesGiven w.db.next_market_state_id w.db.markets
      → NoneBut (is_due t w.db.market_states) ids w.db.markets
      → Advanced universe b t ids w
  unfolding each Advanced update_market_state set_market_state_to_latest
  advances universe b t [] w k g h = (refl, NoneBut-nil _ w.db.markets h)
  advances universe b t (id ∷ ids) w k g h =
      subst (λ o. Advanced universe b t ids (after o))
        (sym (current-insert id next b designated_reporting w.db.market_states k))
        (advances universe b t ids (after (some next))
          (IsNumbered-insert next id b designated_reporting w.db.market_states k)
          (NamesGiven-advance next id w.db.markets g)
          (NoneBut-advance t next id b ids w.db.market_states w.db.markets k g h))
    where
      next : ℕ
      next = w.db.next_market_state_id

      after : Option ℕ → World N
      after o = record w {
        db = record (w.db) {
          markets = update_where (is_market id) (set_state_id o) w.db.markets;
          market_states = insert_row (state_row next id designated_reporting b) w.db.market_states;
          next_market_state_id = suc next;
        };
        emitted = w.emitted ++ market_state_event universe id designated_reporting ∷ [];
      }

  -- Where the database has given the ids of all states and of those that markets name: bringing the
  -- markets that have reached their end time to designated reporting returns, and then no market is
  -- in pre-reporting with an end time before the timestamp of the block.
  pub advance_market_reaching_end_time_lem :
      (universe b t : ℕ) (w : World N)
      → IsNumbered w.db.next_market_state_id w.db.market_states
      → NamesGiven w.db.next_market_state_id w.db.markets
      → let result = advance_market_reaching_end_time universe b t w in
        (result.0 ≡ ok tt)
        × (select_where
              (λ m. has_state pre_reporting result.1.db.market_states m && ltb m.end_time t)
              result.1.db.markets
            ≡ [])
  unfolding advance_market_reaching_end_time Advanced
  advance_market_reaching_end_time_lem universe b t w k g =
      advances universe b t
        (map market_id_of (select_where (is_due t w.db.market_states) w.db.markets)) w k g
        (NoneBut-select (is_due t w.db.market_states) w.db.markets)
