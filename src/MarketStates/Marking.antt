-- ===== src/MarketStates/Marking.antt =====
-- The two updates of the table of fee windows, row by row (src/blockchain/log-processors/database.ts).
use augur_node.Prelude.{
  ℕ, ◌≡◌, refl, sym, subst, ap, ap₂, ◌∙◌, Bool, true, false, ◌&&◌, ◌||◌, not, List, [], ◌∷◌, map,
  ◌==◌, ==_refl, ltb, arith, if◌then◌else◌, Bool-cases, inl, inr,
}
use augur_node.Prelude.Tables.{select_where, update_where}
use augur_node.Database.{FeeWindowRow, FeeWindowState, past, current, future}
use augur_node.MarketStates.{
  is_among, address_of, mark_windows, set_window_state, is_expired, is_newly_active, is_past,
}

-- No two windows have one address.
unfoldable pub HasDistinctWindows : List FeeWindowRow → Type 0
HasDistinctWindows [] = Unit {0}
HasDistinctWindows (r ∷ rows) =
    (is_among r.fee_window (map address_of rows) ≡ false) × HasDistinctWindows rows

AgreeOn : (FeeWindowRow → Bool) → (FeeWindowRow → Bool) → List FeeWindowRow → Type 0
AgreeOn p q [] = Unit {0}
AgreeOn p q (r ∷ rows) = (p r ≡ q r) × AgreeOn p q rows

update-agree :
    (p q : FeeWindowRow → Bool) (f : FeeWindowRow → FeeWindowRow) (rows : List FeeWindowRow)
    → AgreeOn p q rows
    → update_where p f rows ≡ update_where q f rows
unfolding update_where AgreeOn
update-agree p q f [] k = refl
update-agree p q f (r ∷ rows) k =
    ap₂ ◌∷◌ (ap (λ c. if c then f r else r) k.0) (update-agree p q f rows k.1)

or_false : (a b : Bool) → (a || b) ≡ false → (a ≡ false) × (b ≡ false)
or_false false b h = (refl, h)
or_false true b h = cc

eq_sym : (a b : ℕ) → (a == b) ≡ (b == a)
eq_sym a b = ground arith

is_among-select :
    (a : ℕ) (p : FeeWindowRow → Bool) (rows : List FeeWindowRow)
    → is_among a (map address_of rows) ≡ false
    → is_among a (map address_of (select_where p rows)) ≡ false
unfolding is_among select_where
is_among-select a p [] h = refl
is_among-select a p (r ∷ rows) h =
    let (here, there) = or_false (r.fee_window == a) _ h in
    elim (Bool-cases (p r)) [
      | inl e ↦ rw e (rw here (is_among-select a p rows there))
      | inr e ↦ rw e (is_among-select a p rows there)
    ]

-- A selected row before the others changes nothing for rows with other addresses.
agree-weaken :
    (a : ℕ) (c : Bool) (p : FeeWindowRow → Bool) (selected : List ℕ) (rows : List FeeWindowRow)
    → is_among a (map address_of rows) ≡ false
    → AgreeOn (λ r. is_among r.fee_window selected) p rows
    → AgreeOn (λ r. is_among r.fee_window (if c then a ∷ selected else selected)) p rows
unfolding AgreeOn is_among
agree-weaken a c p selected [] h k = tt
agree-weaken a c p selected (r ∷ rows) h k =
    let (here, there) = or_false (r.fee_window == a) _ h in
    (with_head c (eq_sym a r.fee_window ∙ here) ∙ k.0, agree-weaken a c p selected rows there k.1)
  where
    with_head :
        (c : Bool)
        → (a == r.fee_window) ≡ false
        → is_among r.fee_window (if c then a ∷ selected else selected)
          ≡ is_among r.fee_window selected
    with_head true e = rw e refl
    with_head false e = refl

map-if :
    (c : Bool) (r : FeeWindowRow) (rows : List FeeWindowRow)
    → map address_of (if c then r ∷ rows else rows)
      ≡ (if c then r.fee_window ∷ map address_of rows else map address_of rows)
map-if true r rows = refl
map-if false r rows = refl

head_agrees :
    (c : Bool) (a : ℕ) (rest : List ℕ)
    → is_among a rest ≡ false
    → is_among a (if c then a ∷ rest else rest) ≡ c
unfolding is_among
head_agrees true a rest h = rw (==_refl a) refl
head_agrees false a rest h = h

-- By distinct addresses the rows that were selected are found again.
selected_agree :
    (p : FeeWindowRow → Bool) (rows : List FeeWindowRow)
    → HasDistinctWindows rows
    → AgreeOn (λ r. is_among r.fee_window (map address_of (select_where p rows))) p rows
unfolding AgreeOn HasDistinctWindows select_where is_among
selected_agree p [] k = tt
selected_agree p (r ∷ rows) k =
    subst (λ selected. AgreeOn (λ x. is_among x.fee_window selected) p (r ∷ rows))
      (sym (map-if (p r) r (select_where p rows)))
      (
        head_agrees (p r) r.fee_window _ (is_among-select r.fee_window p rows k.0),
        agree-weaken r.fee_window (p r) p _ rows k.0 (selected_agree p rows k.1),
      )

pub mark_windows-select :
    (p : FeeWindowRow → Bool) (s : FeeWindowState) (rows : List FeeWindowRow)
    → HasDistinctWindows rows
    → mark_windows (select_where p rows) s rows ≡ update_where p (set_window_state s) rows
unfolding mark_windows
mark_windows-select p s rows k =
    update-agree (λ r. is_among r.fee_window (map address_of (select_where p rows))) p
      (set_window_state s) rows (selected_agree p rows k)

addresses_kept :
    (p : FeeWindowRow → Bool) (s : FeeWindowState) (rows : List FeeWindowRow)
    → map address_of (update_where p (set_window_state s) rows) ≡ map address_of rows
unfolding update_where
addresses_kept p s [] = refl
addresses_kept p s (r ∷ rows) = ap₂ ◌∷◌ (same (p r)) (addresses_kept p s rows)
  where
    same : (c : Bool) → address_of (if c then set_window_state s r else r) ≡ r.fee_window
    same true = refl
    same false = refl

pub HasDistinctWindows-update :
    (p : FeeWindowRow → Bool) (s : FeeWindowState) (rows : List FeeWindowRow)
    → HasDistinctWindows rows
    → HasDistinctWindows (update_where p (set_window_state s) rows)
unfolding update_where HasDistinctWindows
HasDistinctWindows-update p s [] k = tt
HasDistinctWindows-update p s (r ∷ rows) k = elim (Bool-cases (p r)) [
  | inl e ↦ rw e (
    ap (is_among r.fee_window) (addresses_kept p s rows) ∙ k.0,
    HasDistinctWindows-update p s rows k.1,
  )
  | inr e ↦ rw e (
    ap (is_among r.fee_window) (addresses_kept p s rows) ∙ k.0,
    HasDistinctWindows-update p s rows k.1,
  )
]

-- A window at a time: past after its end, current between its start and its end, and otherwise what
-- it was.
pub at_time : ℕ → FeeWindowRow → FeeWindowRow
at_time timestamp r =
    if ltb r.end_time timestamp
    then set_window_state past r
    else (if ltb timestamp r.end_time && ltb r.start_time timestamp
        then set_window_state current r
        else r)

abbrev mark_expired : ℕ → FeeWindowRow → FeeWindowRow
mark_expired timestamp r = if is_expired timestamp r then set_window_state past r else r

abbrev mark_active : ℕ → FeeWindowRow → FeeWindowRow
mark_active timestamp r = if is_newly_active timestamp r then set_window_state current r else r

not_both : (a b : ℕ) → ltb a b ≡ true → ltb b a ≡ false
not_both a b h = ground arith

abbrev window : ℕ → ℕ → ℕ → ℕ → ℕ → FeeWindowState → FeeWindowRow
window f a u start end s = record {
  fee_window = a;
  universe = u;
  start_time = start;
  end_time = end;
  state = s;
  fee_token = f;
}

marked_window :
    (t f a u start end : ℕ) (s : FeeWindowState)
    → mark_active t (mark_expired t (window f a u start end s))
      ≡ at_time t (window f a u start end s)
unfolding at_time
marked_window t f a u start end s = elim (Bool-cases (ltb end t)) [
  | inl e ↦ rw e (ended s (not_both end t e))
  | inr e ↦ rw e (open_still s)
]
  where
    ended :
        (s : FeeWindowState)
        → ltb t end ≡ false
        → mark_active t (
            if not (is_past s) && true
            then window f a u start end past
            else window f a u start end s)
          ≡ window f a u start end past
    ended past h = rw h refl
    ended current h = rw h refl
    ended future h = rw h refl

    open_still :
        (s : FeeWindowState)
        → mark_active t (
            if not (is_past s) && false
            then window f a u start end past
            else window f a u start end s)
          ≡ (if ltb t end && ltb start t
              then window f a u start end current
              else window f a u start end s)
    open_still past = refl
    open_still current = elim (Bool-cases (ltb t end && ltb start t)) [
      | inl e ↦ rw e refl
      | inr e ↦ rw e refl
    ]
    open_still future = refl

pub marked_windows :
    (timestamp : ℕ) (rows : List FeeWindowRow)
    → update_where
        (is_newly_active timestamp)
        (set_window_state current)
        (update_where (is_expired timestamp) (set_window_state past) rows)
      ≡ map (at_time timestamp) rows
unfolding update_where
marked_windows timestamp [] = refl
marked_windows timestamp (r ∷ rows) =
    ap₂ ◌∷◌
      (marked_window timestamp r.fee_token r.fee_window r.universe r.start_time r.end_time r.state)
      (marked_windows timestamp rows)

-- What was marked as past is not newly active, and what was not stays as it was.
newly_active_window :
    (t f a u start end : ℕ) (s : FeeWindowState)
    → is_newly_active t (mark_expired t (window f a u start end s))
      ≡ is_newly_active t (window f a u start end s)
newly_active_window t f a u start end s = elim (Bool-cases (ltb end t)) [
  | inl e ↦ rw e (ended s (not_both end t e))
  | inr e ↦ rw e (open_still s)
]
  where
    ended :
        (s : FeeWindowState)
        → ltb t end ≡ false
        → is_newly_active t (
            if not (is_past s) && true
            then window f a u start end past
            else window f a u start end s)
          ≡ is_newly_active t (window f a u start end s)
    ended past h = refl
    ended current h = rw h refl
    ended future h = refl

    open_still :
        (s : FeeWindowState)
        → is_newly_active t (
            if not (is_past s) && false
            then window f a u start end past
            else window f a u start end s)
          ≡ is_newly_active t (window f a u start end s)
    open_still past = refl
    open_still current = refl
    open_still future = refl

map_address-if :
    (c : Bool) (r r' : FeeWindowRow) (rows rows' : List FeeWindowRow)
    → r.fee_window ≡ r'.fee_window
    → map address_of rows ≡ map address_of rows'
    → map address_of (if c then r ∷ rows else rows)
      ≡ map address_of (if c then r' ∷ rows' else rows')
map_address-if true r r' rows rows' h k = ap₂ ◌∷◌ h k
map_address-if false r r' rows rows' h k = k

pub newly_active_kept :
    (timestamp : ℕ) (rows : List FeeWindowRow)
    → map address_of (
        select_where
          (is_newly_active timestamp)
          (update_where (is_expired timestamp) (set_window_state past) rows))
      ≡ map address_of (select_where (is_newly_active timestamp) rows)
unfolding select_where update_where
newly_active_kept timestamp [] = refl
newly_active_kept timestamp (r ∷ rows) =
    ap (λ c. map address_of (if c then mark_expired timestamp r ∷ rest else rest))
      (newly_active_window timestamp r.fee_token r.fee_window r.universe r.start_time r.end_time
        r.state)
    ∙ map_address-if (is_newly_active timestamp r) (mark_expired timestamp r) r rest
        (select_where (is_newly_active timestamp) rows) (address (is_expired timestamp r))
        (newly_active_kept timestamp rows)
  where
    rest : List FeeWindowRow
    rest =
        select_where (is_newly_active timestamp)
          (update_where (is_expired timestamp) (set_window_state past) rows)

    address : (c : Bool) → (if c then set_window_state past r else r).fee_window ≡ r.fee_window
    address true = refl
    address false = refl
