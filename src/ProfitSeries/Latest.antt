-- ===== src/ProfitSeries/Latest.antt =====
-- The rows that the buckets show for all outcomes (src/server/getters/get-profit-loss.ts).
use augur_node.Prelude.{ℕ, ◌≤◌, ◌≡◌, refl, sym, ap, ap₂, ◌∙◌, List, [], ◌∷◌, map}
use augur_node.ProfitSeries.{
  Timestamped, before_bucket, Reported, bucket_outcomes, bucket_all, shown_all,
  bucket_at_timestamps,
}
use augur_node.ProfitSeries.Found.{
  IsAscendingFrom, latest_at, row_of, Agree, slot_row, shown_row, reported_row, report-Agree,
}

-- The times of the buckets, in order.
unfoldable pub TimesFrom : ℕ → List ℕ → Type 0
TimesFrom now [] = Unit {0}
TimesFrom now (t ∷ timestamps) = (now ≤ t) × TimesFrom t timestamps

module _ {A : Type 0} where
  -- The same for all outcomes of a market.
  unfoldable pub AllAscending : List (List (Timestamped A)) → Type 0
  AllAscending [] = Unit {0}
  AllAscending (values ∷ outcomes) = IsAscendingFrom 0 values × AllAscending outcomes

  AgreeAll : ℕ → List (List (Timestamped A)) → List (List (Timestamped A)) → Type 0
  AgreeAll now [] [] = Unit {0}
  AgreeAll now [] (values' ∷ outcomes') = ⊥
  AgreeAll now (values ∷ outcomes) [] = ⊥
  AgreeAll now (values ∷ outcomes) (values' ∷ outcomes') =
      Agree now values values' × AgreeAll now outcomes outcomes'

  AgreeAll-self : (outcomes : List (List (Timestamped A))) → AgreeAll 0 outcomes outcomes
  unfolding AgreeAll
  AgreeAll-self [] = tt
  AgreeAll-self (values ∷ outcomes) =
      (record { rows = refl; prefix = λ t h. refl }, AgreeAll-self outcomes)

  slot_rows : A → List (List (Timestamped A)) → List (Reported A) → List A
  slot_rows default [] rs = []
  slot_rows default (values ∷ outcomes) [] = []
  slot_rows default (values ∷ outcomes) (r ∷ rs) =
      slot_row default (map row_of values) r ∷ slot_rows default outcomes rs

  bucket_outcomes_lem :
      (now t : ℕ) (default : A) (outcomes outcomes' : List (List (Timestamped A)))
      → AgreeAll now outcomes outcomes'
      → AllAscending outcomes
      → now ≤ t
      → (slot_rows default outcomes (bucket_outcomes t default outcomes').0
          ≡ map (latest_at t default) outcomes)
        × AgreeAll t outcomes (bucket_outcomes t default outcomes').1
  unfolding AgreeAll AllAscending slot_rows bucket_outcomes
  bucket_outcomes_lem now t default [] [] ag asc l = (refl, tt)
  bucket_outcomes_lem now t default [] (values' ∷ outcomes') ag asc l = elim ag [ ]
  bucket_outcomes_lem now t default (values ∷ outcomes) [] ag asc l = elim ag [ ]
  bucket_outcomes_lem now t default (values ∷ outcomes) (values' ∷ outcomes') ag asc l =
      let (same, rest) = bucket_outcomes_lem now t default outcomes outcomes' ag.1 asc.1 l in
      (
        ap₂ ◌∷◌
            (reported_row t default values values' (before_bucket t values') 0 (ag.0.prefix t l)
              asc.0)
            same,
        (report-Agree t default values values' now (before_bucket t values') ag.0 l refl, rest),
      )

  bucket_all_lem :
      (now : ℕ) (timestamps : List ℕ) (default : A)
      (outcomes outcomes' : List (List (Timestamped A)))
      → AgreeAll now outcomes outcomes'
      → AllAscending outcomes
      → TimesFrom now timestamps
      → (map (slot_rows default outcomes) (bucket_all timestamps default outcomes').0
          ≡ map (λ t. map (latest_at t default) outcomes) timestamps)
        × ((t : ℕ) × AgreeAll t outcomes (bucket_all timestamps default outcomes').1)
  unfolding TimesFrom bucket_all
  bucket_all_lem now [] default outcomes outcomes' ag asc times = (refl, (now, ag))
  bucket_all_lem now (t ∷ timestamps) default outcomes outcomes' ag asc times =
      let (same, ag') = bucket_outcomes_lem now t default outcomes outcomes' ag asc times.0 in
      let (rest, end) =
        bucket_all_lem t timestamps default outcomes (bucket_outcomes t default outcomes').1 ag' asc
          times.1 in
      (ap₂ ◌∷◌ same rest, end)

  shown_all_rows :
      (now : ℕ) (default : A) (outcomes outcomes' : List (List (Timestamped A)))
      (rs : List (Reported A))
      → AgreeAll now outcomes outcomes'
      → map row_of (shown_all default outcomes' rs) ≡ slot_rows default outcomes rs
  unfolding AgreeAll shown_all slot_rows
  shown_all_rows now default [] [] rs ag = refl
  shown_all_rows now default [] (values' ∷ outcomes') rs ag = elim ag [ ]
  shown_all_rows now default (values ∷ outcomes) [] rs ag = elim ag [ ]
  shown_all_rows now default (values ∷ outcomes) (values' ∷ outcomes') [] ag = refl
  shown_all_rows now default (values ∷ outcomes) (values' ∷ outcomes') (r ∷ rs) ag =
      ap₂ ◌∷◌ (shown_row default values' r ∙ ap (λ rows. slot_row default rows r) (sym ag.0.rows))
        (shown_all_rows now default outcomes outcomes' rs ag.1)

  shown_rows :
      (now : ℕ) (default : A) (outcomes outcomes' : List (List (Timestamped A)))
      (rss : List (List (Reported A)))
      → AgreeAll now outcomes outcomes'
      → map (map row_of) (map (shown_all default outcomes') rss)
        ≡ map (slot_rows default outcomes) rss
  shown_rows now default outcomes outcomes' [] ag = refl
  shown_rows now default outcomes outcomes' (rs ∷ rss) ag =
      ap₂ ◌∷◌ (shown_all_rows now default outcomes outcomes' rs ag)
        (shown_rows now default outcomes outcomes' rss ag)

  -- Where the rows of every outcome and the times of the buckets are in the order of time, each
  -- bucket shows for each outcome the last row that is not after the bucket, or the default where
  -- there is none, although earlier buckets have changed timestamps of the same rows. This is said
  -- of all columns but the timestamp.
  pub bucket_at_timestamps_rows :
      (outcomes : List (List (Timestamped A))) (timestamps : List ℕ) (default : A)
      → AllAscending outcomes
      → TimesFrom 0 timestamps
      → map (map (λ v. v.row)) (bucket_at_timestamps outcomes timestamps default)
        ≡ map (λ t. map (latest_at t default) outcomes) timestamps
  unfolding bucket_at_timestamps
  bucket_at_timestamps_rows outcomes timestamps default asc times =
      let (same, (end, ag)) =
        bucket_all_lem 0 timestamps default outcomes outcomes (AgreeAll-self outcomes) asc times in
      shown_rows end default outcomes _ (bucket_all timestamps default outcomes).0 ag ∙ same
