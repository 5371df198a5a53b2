-- ===== src/ProfitSeries/Tests.antt =====
-- Time series at concrete rows.
use augur_node.Prelude.{
  ℕ, suc, ◌+◌, ◌≤◌, ◌<◌, ◌≡◌, refl, List, [], ◌∷◌, map, none, some, arith, ok, err,
}
use augur_node.Prelude.Int.{ℤ, pos, negsuc}
use augur_node.ProfitSeries.{
  Timestamped, before_bucket, bucket_at_timestamps, bucket_range_by_interval, buckets_from,
  start_time_invalid, end_time_invalid, end_before_start, interval_not_positive,
}
use augur_node.ProfitSeries.Buckets.{Ranges, bucket_range_by_interval_lem, bucket_range_errors}
use augur_node.ProfitSeries.Found.{IsAscendingFrom, latest_at}
use augur_node.ProfitSeries.Latest.{AllAscending, TimesFrom, bucket_at_timestamps_rows}
use augur_node.BigNumber.{integers}
use augur_node.ProfitSeries.Results.{
  PositionRow, OutcomeValue, ProfitLossResult, get_profit_results_for_market, sum_from,
}
use augur_node.ProfitSeries.Balance.{IsBalanced}
use augur_node.ProfitSeries.Sums.{
  AllBalanced, AllOfMarket, totals, get_profit_results_for_market_lem,
}
use augur_node.ProfitSeries.Shared.{Within, last_time, bucket_at_timestamps_shared}

-- From 100 to 125 by tens.
range_run :
    bucket_range_by_interval (pos 100) (pos 125) (some (pos 10))
    ≡ ok (some (100 ∷ 110 ∷ 120 ∷ 125 ∷ []))
unfolding bucket_range_by_interval buckets_from
range_run = refl

bucket_range_by_interval_lem_example :
    Ranges 100 25 (some (pos 10)) × ((few : Ranges 100 25 none) × (few.0 ≤ 30))
bucket_range_by_interval_lem_example = bucket_range_by_interval_lem 100 25 (some (pos 10)) refl

bucket_range_errors_example :
    (bucket_range_by_interval (negsuc 4) (pos 9) none ≡ err start_time_invalid)
    × (bucket_range_by_interval (pos 4) (negsuc 9) none ≡ err end_time_invalid)
    × (bucket_range_by_interval (pos (4 + suc 9)) (pos 4) none ≡ err end_before_start)
    × (bucket_range_by_interval (pos 4) (pos (4 + 9)) (some (pos 0)) ≡ err interval_not_positive)
    × (bucket_range_by_interval (pos 4) (pos (4 + 9)) (some (negsuc 2)) ≡ err interval_not_positive)
bucket_range_errors_example = bucket_range_errors 4 9 2 (pos 9) none

abbrev two_rows : List (Timestamped ℕ)
two_rows = record { timestamp = 10; row = 1 } ∷ record { timestamp = 20; row = 2 } ∷ []

abbrev one_row : List (Timestamped ℕ)
one_row = record { timestamp = 15; row = 7 } ∷ []

rows-AllAscending : AllAscending (two_rows ∷ one_row ∷ [])
unfolding AllAscending IsAscendingFrom
rows-AllAscending = ((omega arith, (omega arith, tt)), ((omega arith, tt), tt))

times-TimesFrom : TimesFrom 0 (5 ∷ 12 ∷ 30 ∷ [])
unfolding TimesFrom
times-TimesFrom = (omega arith, (omega arith, (omega arith, tt)))

bucket_at_timestamps_rows_example :
    map (map (λ v. v.row)) (bucket_at_timestamps (two_rows ∷ one_row ∷ []) (5 ∷ 12 ∷ 30 ∷ []) 0)
    ≡ map (λ t. map (latest_at t 0) (two_rows ∷ one_row ∷ [])) (5 ∷ 12 ∷ 30 ∷ [])
bucket_at_timestamps_rows_example =
    bucket_at_timestamps_rows (two_rows ∷ one_row ∷ []) (5 ∷ 12 ∷ 30 ∷ []) 0 rows-AllAscending
      times-TimesFrom

later-Within : Within 12 (15 ∷ 18 ∷ []) two_rows
unfolding Within before_bucket
later-Within = (omega arith, refl, (omega arith, refl, tt))

some_row : 0 < before_bucket 12 two_rows
unfolding before_bucket
some_row = omega arith

-- The buckets at 12, at 15 and at 18 all say 18.
bucket_at_timestamps_shared_example :
    (x : Timestamped ℕ) × (bucket_at_timestamps (two_rows ∷ []) (12 ∷ 15 ∷ 18 ∷ []) 0
      ≡ map {A = ℕ} (λ s. x ∷ []) (12 ∷ 15 ∷ 18 ∷ []))
    × (x.timestamp ≡ last_time 12 (15 ∷ 18 ∷ []))
bucket_at_timestamps_shared_example =
    bucket_at_timestamps_shared 12 (15 ∷ 18 ∷ []) 0 two_rows some_row later-Within

abbrev long_row : PositionRow ℤ
long_row = record {
  market_id = 5;
  outcome = 1;
  timestamp = 20;
  num_outcomes = 2;
  price = pos 4;
  position = pos 10;
  profit = pos 3;
  realized_cost = pos 6;
  min_price = pos 0;
  max_price = pos 10;
  frozen_funds = pos 40;
}

abbrev flat_row : PositionRow ℤ
flat_row = record long_row { outcome = 0; position = pos 0 }

abbrev last_values : List (OutcomeValue ℤ)
last_values = record { outcome = 1; value = pos 7 } ∷ []

rows-AllOfMarket : AllOfMarket integers 2 (long_row ∷ flat_row ∷ [])
unfolding AllOfMarket
rows-AllOfMarket = ((refl, omega arith), ((refl, omega arith), tt))

get_profit_results_for_market_lem_example :
    (first : ProfitLossResult ℤ) × (rest : List (ProfitLossResult ℤ)) × (sum : ProfitLossResult ℤ)
    × (get_profit_results_for_market integers last_values
          (λ m o. none)
          (λ m o. some (pos 5))
          (long_row ∷ flat_row ∷ [])
        ≡ ok (first ∷ rest))
    × AllBalanced integers (first ∷ rest)
    × (sum_from integers first rest ≡ ok sum)
    × IsBalanced integers sum
    × (sum.total ≡ totals integers first.total rest)
get_profit_results_for_market_lem_example =
    get_profit_results_for_market_lem integers 2 last_values (λ m o. none) (λ m o. some (pos 5))
      long_row (flat_row ∷ []) rows-AllOfMarket
