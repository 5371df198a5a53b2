-- ===== src/ProfitSeries/Found.antt =====
-- The row of one outcome that a bucket finds (src/server/getters/get-profit-loss.ts): a change of a
-- timestamp in place does not change which row a later bucket finds.
use augur_node.Prelude.{
  ℕ, zero, suc, ◌≤◌, ◌<◌, ◌≡◌, refl, sym, ap, ◌∙◌, inl, inr, false, List, [], ◌∷◌, map, leb,
  if◌then◌else◌, Bool-cases, arith,
}
use augur_node.ProfitSeries.{
  Timestamped, before_bucket, set_timestamp, Reported, stored, fresh, report, look_at, shown,
}

module _ {A : Type 0} where
  -- Rows in the order of their timestamps, from `t` on.
  unfoldable pub IsAscendingFrom : ℕ → List (Timestamped A) → Type 0
  IsAscendingFrom t [] = Unit {0}
  IsAscendingFrom t (v ∷ values) = (t ≤ v.timestamp) × IsAscendingFrom v.timestamp values

  -- The last row whose timestamp is not after `t`, among all rows of an outcome.
  unfoldable pub latest_at : ℕ → A → List (Timestamped A) → A
  latest_at t found [] = found
  latest_at t found (v ∷ values) = latest_at t (if leb v.timestamp t then v.row else found) values

  -- The other columns of the rows.
  abbrev pub row_of : Timestamped A → A
  row_of v = v.row

  unfoldable pub nth : A → List A → ℕ → A
  nth default [] place = default
  nth default (r ∷ rows) zero = r
  nth default (r ∷ rows) (suc place) = nth default rows place

  -- The last of the first rows.
  last_of : A → List A → ℕ → A
  last_of found rows zero = found
  last_of found [] (suc n) = found
  last_of found (r ∷ rows) (suc n) = last_of r rows n

  -- Two lists of rows that agree but for timestamps, and by the prefix of each later bucket.
  pub record Agree (now : ℕ) (values values' : List (Timestamped A)) : Type 0 where
    pub rows : map row_of values ≡ map row_of values'
    pub prefix : (t : ℕ) → now ≤ t → before_bucket t values ≡ before_bucket t values'

  rows_kept :
      (t place : ℕ) (values : List (Timestamped A))
      → map row_of (set_timestamp t place values) ≡ map row_of values
  unfolding set_timestamp
  rows_kept t place [] = refl
  rows_kept t zero (v ∷ values) = refl
  rows_kept t (suc place) (v ∷ values) = ap (◌∷◌ v.row) (rows_kept t place values)

  pub prefix_kept :
      (t place later : ℕ) (values : List (Timestamped A))
      → place < before_bucket t values
      → t ≤ later
      → before_bucket later (set_timestamp t place values) ≡ before_bucket later values
  unfolding set_timestamp before_bucket
  prefix_kept t place later [] h l = refl
  prefix_kept t zero later (v ∷ values) h l = ground arith
  prefix_kept t (suc place) later (v ∷ values) h l = elim (Bool-cases (leb v.timestamp t)) [
    | inl e ↦
        ap (λ n. if leb v.timestamp later then suc n else 0)
          (prefix_kept t place later values (ground (arith, e)) l)
    | inr e ↦ absurd (ground (arith, e))
  ]

  -- The bucket finds the row that is the latest.
  late :
      (t s : ℕ) (found : A) (values : List (Timestamped A))
      → IsAscendingFrom s values
      → t < s
      → latest_at t found values ≡ found
  unfolding IsAscendingFrom latest_at
  late t s found [] h l = refl
  late t s found (v ∷ values) h l =
      rw (not_leb v.timestamp t (omega (arith, h.0)))
        (late t v.timestamp found values h.1 (omega (arith, h.0)))
    where
      not_leb : (a b : ℕ) → b < a → leb a b ≡ false
      not_leb a b k = ground arith

  latest_is_last :
      (t s : ℕ) (found : A) (values : List (Timestamped A))
      → IsAscendingFrom s values
      → latest_at t found values ≡ last_of found (map row_of values) (before_bucket t values)
  unfolding IsAscendingFrom latest_at before_bucket last_of
  latest_is_last t s found [] h = refl
  latest_is_last t s found (v ∷ values) h = elim (Bool-cases (leb v.timestamp t)) [
    | inl e ↦ rw e (latest_is_last t v.timestamp v.row values h.1)
    | inr e ↦ rw e (late t v.timestamp found values h.1 (ground (arith, e)))
  ]

  nth_is_last :
      (t : ℕ) (default found : A) (values : List (Timestamped A)) (place : ℕ)
      → place < before_bucket t values
      → nth default (map row_of values) place ≡ last_of found (map row_of values) (suc place)
  unfolding before_bucket last_of nth
  nth_is_last t default found [] place h = elim h [ ]
  nth_is_last t default found (v ∷ values) zero h = refl
  nth_is_last t default found (v ∷ values) (suc place) h = elim (Bool-cases (leb v.timestamp t)) [
    | inl e ↦ nth_is_last t default v.row values place (ground (arith, e))
    | inr e ↦ absurd (ground (arith, e))
  ]

  look_at-nth :
      (default : A) (values : List (Timestamped A)) (place : ℕ)
      → (look_at default values place).row ≡ nth default (map row_of values) place
  unfolding look_at nth
  look_at-nth default [] place = refl
  look_at-nth default (v ∷ values) zero = refl
  look_at-nth default (v ∷ values) (suc place) = look_at-nth default values place

  unfoldable pub slot_row : A → List A → Reported A → A
  slot_row default rows (stored place) = nth default rows place
  slot_row default rows (fresh v) = v.row

  pub shown_row :
      (default : A) (values : List (Timestamped A)) (r : Reported A)
      → (shown default values r).row ≡ slot_row default (map row_of values) r
  unfolding slot_row
  shown_row default values (stored place) = look_at-nth default values place
  shown_row default values (fresh v) = refl

  -- What one bucket does with one outcome, by the number of rows that are not after it.
  module _ (t : ℕ) (default : A) (values values' : List (Timestamped A)) where
    pub reported_row :
        (n s : ℕ)
        → before_bucket t values ≡ n
        → IsAscendingFrom s values
        → slot_row default (map row_of values) (report t default values' n).0
          ≡ latest_at t default values
    unfolding slot_row last_of
    reported_row zero s e asc =
        sym (latest_is_last t s default values asc ∙ ap (last_of default (map row_of values)) e)
    reported_row (suc place) s e asc =
        nth_is_last t default default values place (omega (arith, e))
        ∙ sym (latest_is_last t s default values asc ∙ ap (last_of default (map row_of values)) e)

    pub report-Agree :
        (now n : ℕ)
        → Agree now values values'
        → now ≤ t
        → before_bucket t values' ≡ n
        → Agree t values (report t default values' n).1
    report-Agree now zero ag l e = record {
      rows = ag.rows;
      prefix = λ later h. ag.prefix later (omega arith);
    }
    report-Agree now (suc place) ag l e = record {
      rows = ag.rows ∙ sym (rows_kept t place values');
      prefix = λ later h.
          ag.prefix later (omega arith)
          ∙ sym (prefix_kept t place later values' (omega (arith, e)) h);
    }
