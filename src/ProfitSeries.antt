-- ===== src/ProfitSeries.antt =====
-- Profit and loss over time (src/server/getters/get-profit-loss.ts): the times at which results are
-- reported, and the rows that are the latest at these times. A timestamp is a whole number; the rows
-- of an outcome are objects, which the source changes in place.
pub mod Buckets
pub mod Found
pub mod Latest
pub mod Shared
pub mod Results
pub mod Balance
pub mod Sums
mod Tests
use augur_node.Prelude.{
  ℕ, zero, suc, ◌+◌, ◌-◌, ◌/◌, Bool, true, false, not, Option, none, some, List, [], ◌∷◌, ◌++◌, map,
  ltb, leb, ◌==◌, if◌then◌else◌, Result, ok, err, ◌>>=◌, ◌>>◌, guard,
}
use augur_node.Prelude.Int.{ℤ, pos, negsuc, ltb_ℤ, pos_part}

pub data RangeError : Type 0 where
  start_time_invalid end_time_invalid end_before_start interval_not_positive : RangeError

abbrev pub default_number_of_buckets : ℕ
default_number_of_buckets = 30

-- `Math.ceil(a / b)`
abbrev pub ceil_div : ℕ → ℕ → ℕ
ceil_div a b = (a + (b - 1)) / b

abbrev pub interval_positive : Option ℤ → Bool
interval_positive none = true
interval_positive (some i) = ltb_ℤ (pos 0) i

abbrev pub interval_of : Option ℤ → ℕ → ℕ
interval_of none duration = ceil_div duration default_number_of_buckets
interval_of (some i) duration = pos_part i

abbrev pub prepend : ℕ → Option (List ℕ) → Option (List ℕ)
prepend t none = none
prepend t (some rest) = some (t ∷ rest)

-- The loop from `bucketEndTime` on; the fuel bounds its rounds.
unfoldable pub buckets_from : ℕ → ℕ → ℕ → ℕ → Option (List ℕ)
buckets_from zero bucket_end_time end_time interval = none
buckets_from (suc fuel) bucket_end_time end_time interval =
    let rest = buckets_from fuel (bucket_end_time + interval) end_time interval in
    if ltb bucket_end_time end_time then prepend bucket_end_time rest else some (end_time ∷ [])

unfoldable pub bucket_range_by_interval : ℤ → ℤ → Option ℤ → Result RangeError (Option (List ℕ))
bucket_range_by_interval start_time end_time period_interval = do
  guard (not (ltb_ℤ start_time (pos 0))) start_time_invalid
  guard (not (ltb_ℤ end_time (pos 0))) end_time_invalid
  guard (not (ltb_ℤ end_time start_time)) end_before_start
  guard (interval_positive period_interval) interval_not_positive
  ok (
      buckets_from (suc (pos_part end_time - pos_part start_time)) (pos_part start_time)
        (pos_part end_time) (interval_of period_interval (pos_part end_time - pos_part start_time)))

-- A row of a time series: its timestamp and its other columns.
pub record Timestamped (A : Type 0) : Type 0 where
  pub timestamp : ℕ
  pub row : A

-- `_.takeWhile(values, (pl) => pl.timestamp <= bucket.timestamp).length`
unfoldable pub before_bucket : {A : Type 0} → ℕ → List (Timestamped A) → ℕ
before_bucket t [] = 0
before_bucket t (v ∷ values) =
    let rest = before_bucket t values in if leb v.timestamp t then suc rest else 0

-- `result.timestamp = bucket.timestamp` on the value at a place.
unfoldable pub set_timestamp : {A : Type 0} → ℕ → ℕ → List (Timestamped A) → List (Timestamped A)
set_timestamp t place [] = []
set_timestamp t zero (v ∷ values) = record v { timestamp = t } ∷ values
set_timestamp t (suc place) (v ∷ values) = v ∷ set_timestamp t place values

-- What a bucket holds for an outcome: a reference to one of the outcome's rows, or an object of its
-- own that is made from the default.
pub data Reported (A : Type 0) : Type 0 where
  stored : ℕ → Reported A
  fresh : Timestamped A → Reported A

-- The result for a bucket and an outcome, and the rows of the outcome after it.
abbrev pub report :
    {A : Type 0} → ℕ → A → List (Timestamped A) → ℕ → Reported A × List (Timestamped A)
report t default values zero = (fresh (record { timestamp = t; row = default }), values)
report t default values (suc place) = (stored place, set_timestamp t place values)

abbrev pub bucket_outcome :
    {A : Type 0} → ℕ → A → List (Timestamped A) → Reported A × List (Timestamped A)
bucket_outcome t default values = report t default values (before_bucket t values)

-- One bucket: the map over the outcomes.
unfoldable pub bucket_outcomes :
    {A : Type 0}
    → ℕ
    → A
    → List (List (Timestamped A))
    → List (Reported A) × List (List (Timestamped A))
bucket_outcomes t default [] = ([], [])
bucket_outcomes t default (values ∷ outcomes) =
    let (r, values') = bucket_outcome t default values in
    let (rs, outcomes') = bucket_outcomes t default outcomes in (r ∷ rs, values' ∷ outcomes')

-- The map over the timestamps.
unfoldable pub bucket_all :
    {A : Type 0}
    → List ℕ
    → A
    → List (List (Timestamped A))
    → List (List (Reported A)) × List (List (Timestamped A))
bucket_all [] default outcomes = ([], outcomes)
bucket_all (t ∷ timestamps) default outcomes =
    let (rs, outcomes') = bucket_outcomes t default outcomes in
    let (rest, outcomes'') = bucket_all timestamps default outcomes' in (rs ∷ rest, outcomes'')

-- What a reference shows, once all buckets are made.
unfoldable pub look_at : {A : Type 0} → A → List (Timestamped A) → ℕ → Timestamped A
look_at default [] place = record { timestamp = 0; row = default }
look_at default (v ∷ values) zero = v
look_at default (v ∷ values) (suc place) = look_at default values place

abbrev pub shown : {A : Type 0} → A → List (Timestamped A) → Reported A → Timestamped A
shown default values (stored place) = look_at default values place
shown default values (fresh v) = v

unfoldable pub shown_all :
    {A : Type 0} → A → List (List (Timestamped A)) → List (Reported A) → List (Timestamped A)
shown_all default [] rs = []
shown_all default (values ∷ outcomes) [] = []
shown_all default (values ∷ outcomes) (r ∷ rs) =
    shown default values r ∷ shown_all default outcomes rs

unfoldable pub bucket_at_timestamps :
    {A : Type 0} → List (List (Timestamped A)) → List ℕ → A → List (List (Timestamped A))
bucket_at_timestamps outcomes timestamps default =
    let (rs, outcomes') = bucket_all timestamps default outcomes in
    map (shown_all default outcomes') rs
