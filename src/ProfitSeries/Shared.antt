-- ===== src/ProfitSeries/Shared.antt =====
-- One object in several buckets (src/server/getters/get-profit-loss.ts).
use augur_node.Prelude.{
  ℕ, zero, suc, ◌-◌, ◌≤◌, ◌<◌, ◌≡◌, refl, sym, ap, map, ◌∙◌, inl, inr, List, [], ◌∷◌, leb,
  Bool-cases, arith,
}
use augur_node.ProfitSeries.{
  stored, Timestamped, before_bucket, set_timestamp, bucket_outcomes, bucket_all, look_at,
  shown_all, bucket_at_timestamps,
}
use augur_node.ProfitSeries.Found.{prefix_kept}

-- The last of some times.
unfoldable pub last_time : ℕ → List ℕ → ℕ
last_time t [] = t
last_time t (s ∷ later) = last_time s later

module _ {A : Type 0} where
  look_set :
      (t place : ℕ) (default : A) (values : List (Timestamped A))
      → place < before_bucket t values
      → (look_at default (set_timestamp t place values) place).timestamp ≡ t
  unfolding before_bucket set_timestamp look_at
  look_set t place default [] h = elim h [ ]
  look_set t zero default (v ∷ values) h = refl
  look_set t (suc place) default (v ∷ values) h = elim (Bool-cases (leb v.timestamp t)) [
    | inl e ↦ look_set t place default values (ground (arith, e))
    | inr e ↦ absurd (ground (arith, e))
  ]

  -- Times that ascend from `t`, with no further row up to any of them.
  unfoldable pub Within : ℕ → List ℕ → List (Timestamped A) → Type 0
  Within t [] values = Unit {0}
  Within t (s ∷ later) values =
      (t ≤ s) × (before_bucket s values ≡ before_bucket t values) × Within s later values

  -- A change of a timestamp that an earlier bucket makes.
  Within-set :
      (t place s : ℕ) (later : List ℕ) (values : List (Timestamped A))
      → place < before_bucket t values
      → t ≤ s
      → Within s later values
      → Within s later (set_timestamp t place values)
  unfolding Within
  Within-set t place s [] values h l w = tt
  Within-set t place s (r ∷ later) values h l w = (
    w.0,
    prefix_kept t place r values h (omega (arith, w.0))
        ∙ w.1
        ∙ sym (prefix_kept t place s values h l),
    Within-set t place r later values h (omega (arith, w.0)) w.2,
  )

  -- All buckets hold one reference, and what it shows has the time of the last bucket.
  all_stored :
      (t place : ℕ) (later : List ℕ) (default : A) (values : List (Timestamped A))
      → before_bucket t values ≡ suc place
      → Within t later values
      → (after : List (Timestamped A)) × (bucket_all (t ∷ later) default (values ∷ [])
          ≡ (map (λ s. stored place ∷ []) (t ∷ later), after ∷ []))
        × ((look_at default after place).timestamp ≡ last_time t later)
  unfolding bucket_all bucket_outcomes Within last_time
  all_stored t place [] default values e w =
      (set_timestamp t place values, rw e refl, look_set t place default values (omega (arith, e)))
  all_stored t place (s ∷ later) default values e w =
      let reached = place_reached e in
      let (after, run, time) =
        all_stored s place later default (set_timestamp t place values)
          (prefix_kept t place s values reached w.0 ∙ w.1 ∙ e)
          (Within-set t place s later values reached w.0 w.2) in
      (after, rw e (ap (λ p. ((stored place ∷ []) ∷ p.0, p.1)) run), time)
    where
      place_reached : before_bucket t values ≡ suc place → place < before_bucket t values
      place_reached e = omega (arith, e)

  shown_each :
      (place : ℕ) (default : A) (after : List (Timestamped A)) (times : List ℕ)
      → map (shown_all default (after ∷ [])) (map (λ s. stored place ∷ []) times)
        ≡ map (λ s. look_at default after place ∷ []) times
  unfolding shown_all
  shown_each place default after [] = refl
  shown_each place default after (s ∷ times) =
      ap (◌∷◌ (look_at default after place ∷ [])) (shown_each place default after times)

  -- For the rows of a single outcome, and buckets that ascend from a first one, up to which there is
  -- a row: where no further row comes up to any later bucket, all the buckets show one and the same
  -- object, and its timestamp is that of the last bucket, also in the results of those before it.
  pub bucket_at_timestamps_shared :
      (t : ℕ) (later : List ℕ) (default : A) (values : List (Timestamped A))
      → 0 < before_bucket t values
      → Within t later values
      → (x : Timestamped A) × (bucket_at_timestamps (values ∷ []) (t ∷ later) default
          ≡ map (λ s. x ∷ []) (t ∷ later))
        × (x.timestamp ≡ last_time t later)
  unfolding bucket_at_timestamps
  bucket_at_timestamps_shared t later default values some_row w =
      let place = before_bucket t values - 1 in
      let (after, run, time) =
        all_stored t place later default values (omega (arith, some_row)) w in
      (
        look_at default after place,
        ap (λ p. map (shown_all default p.1) p.0) run ∙ shown_each place default after (t ∷ later),
        time,
      )
