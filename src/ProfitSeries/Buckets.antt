-- ===== src/ProfitSeries/Buckets.antt =====
-- The times of the buckets (src/server/getters/get-profit-loss.ts).
use native.Mathlib.Decide.{dec_le}
use augur_node.Prelude.{
  ℕ, zero, suc, ◌+◌, ◌-◌, ◌*◌, ◌≤◌, ◌<◌, ◌≡◌, refl, ap, ◌∙◌, ◌⊎◌, inl, inr, true, false, Option,
  none, some, List, [], ◌∷◌, ◌++◌, ltb, Bool-cases, ltb→lt, lt→ltb, arith, ok, err,
}
use augur_node.Prelude.Int.{ℤ, pos, negsuc}
use augur_node.ProfitSeries.{
  buckets_from, bucket_range_by_interval, interval_of, interval_positive, ceil_div, prepend,
  start_time_invalid, end_time_invalid, end_before_start, interval_not_positive,
}

-- n times, each an interval after the one before it.
unfoldable pub steps : ℕ → ℕ → ℕ → List ℕ
steps start interval zero = []
steps start interval (suc n) = start ∷ steps (start + interval) interval n

suc_times : (n i s : ℕ) → (s + i) + n * i ≡ s + suc n * i
suc_times n i s = grind arith

-- n is the number of steps from the start that begin before the end.
abbrev pub Reaches : ℕ → ℕ → ℕ → ℕ → Type 0
Reaches start end interval n =
    (end ≤ start + n * interval) × ((n ≡ 0) ⊎ (start + n * interval < end + interval))

shifted : (s e i n : ℕ) → s < e → (n ≡ 0) ⊎ ((s + i) + n * i < e + i) → s + suc n * i < e + i
shifted s e i n h (inl none_more) = rw none_more (grind arith)
shifted s e i n h (inr some_more) = omega (arith, suc_times n i s)

pub buckets_from_lem :
    (fuel start end interval : ℕ)
    → 0 < fuel
    → end < start + fuel
    → (start < end → 0 < interval)
    → (n : ℕ) × (buckets_from fuel start end interval ≡ some (steps start interval n ++ end ∷ []))
      × Reaches start end interval n
unfolding buckets_from steps
buckets_from_lem zero start end interval some_fuel enough positive = absurd (omega arith)
buckets_from_lem (suc fuel) start end interval some_fuel enough positive =
    elim (Bool-cases (ltb start end)) [
      | inl more ↦
          let before : start < end = ltb→lt start end more in
          let (n, same, reaches) =
            buckets_from_lem fuel (start + interval) end interval (omega arith) (grind arith)
              (λ later. positive before) in
          (
            suc n,
            rw more (ap (prepend start) same),
            (
              omega (arith, reaches.0, suc_times n interval start),
              inr (shifted start end interval n before reaches.1),
            ),
          )
      | inr done ↦ (0, rw done refl, (ground (arith, done), inl refl))
    ]

-- The default interval makes as many buckets as the constant says, at most, before the last.
default_few :
    (start duration n : ℕ)
    → (n ≡ 0) ⊎ (start + n * ceil_div duration 30 < start + duration + ceil_div duration 30)
    → n ≤ 30
default_few start duration n (inl none_more) = omega arith
default_few start duration n (inr below) = elim (dec_le n 30) [
  | yes few ↦ few
  | no many ↦ absurd (omega (arith, at_least n (ceil_div duration 30) (omega arith)))
]
  where
    at_least : (m i : ℕ) → 31 ≤ m → 31 * i ≤ m * i
    at_least m i h = grind arith

-- The interval is positive where time passes.
interval_pos :
    (period : Option ℤ) (duration : ℕ)
    → interval_positive period ≡ true
    → 0 < duration
    → 0 < interval_of period duration
interval_pos none duration h p = omega arith
interval_pos (some (pos i)) duration h p = ground arith
interval_pos (some (negsuc i)) duration h p = ground arith

-- The times in reach, from the start to the end.
abbrev pub Ranges : ℕ → ℕ → Option ℤ → Type 0
Ranges start duration period =
    (n : ℕ) × (bucket_range_by_interval (pos start) (pos (start + duration)) period
      ≡ ok (some (steps start (interval_of period duration) n ++ (start + duration) ∷ [])))
    × Reaches start (start + duration) (interval_of period duration) n

ltb_not : (a b : ℕ) → b ≤ a → ltb a b ≡ false
ltb_not a b h = ground arith

-- The checks pass, and the loop runs from the start to the end.
range_checked :
    (start duration : ℕ) (period : Option ℤ)
    → interval_positive period ≡ true
    → bucket_range_by_interval (pos start) (pos (start + duration)) period
      ≡ ok (buckets_from (suc duration) start (start + duration) (interval_of period duration))
unfolding bucket_range_by_interval
range_checked start duration period h =
    rw
      (
        ltb_not (start + 0) 0 (omega arith),
        ltb_not (start + duration + 0) 0 (omega arith),
        ltb_not (start + duration + 0) (start + 0) (omega arith),
        h,
        add-sub start duration,
      )
      refl
  where
    add-sub : (a b : ℕ) → a + b - a ≡ b
    add-sub a b = omega arith

range_of_valid :
    (start duration : ℕ) (period : Option ℤ)
    → interval_positive period ≡ true
    → Ranges start duration period
range_of_valid start duration period h =
    let (n, same, reaches) =
      buckets_from_lem (suc duration) start (start + duration) (interval_of period duration)
        (omega arith) (omega arith) (λ later. interval_pos period duration h (omega arith)) in
    (n, range_checked start duration period h ∙ ap ok same, reaches)

-- Where the interval is positive or not given: the loop ends, and the buckets are the start and
-- every interval after it that is before the end, and then the end. Without an interval there are
-- at most thirty of them before the end.
pub bucket_range_by_interval_lem :
    (start duration : ℕ) (period : Option ℤ)
    → interval_positive period ≡ true
    → Ranges start duration period × ((few : Ranges start duration none) × (few.0 ≤ 30))
bucket_range_by_interval_lem start duration period h = (
  range_of_valid start duration period h,
  let few = range_of_valid start duration none refl in
      (few, default_few start duration few.0 few.2.1),
)

-- A start before zero is refused, whatever the end and the interval are; then an end before zero,
-- and then an end before the start, whatever the interval is; and with a start and an end that are
-- in order, an interval that is zero, and one that is negative, whatever its size.
pub bucket_range_errors :
    (start duration size : ℕ) (e : ℤ) (period : Option ℤ)
    → (bucket_range_by_interval (negsuc start) e period ≡ err start_time_invalid)
      × (bucket_range_by_interval (pos start) (negsuc duration) period ≡ err end_time_invalid)
      × (bucket_range_by_interval (pos (start + suc duration)) (pos start) period
          ≡ err end_before_start)
      × (bucket_range_by_interval (pos start) (pos (start + duration)) (some (pos 0))
          ≡ err interval_not_positive)
      × (bucket_range_by_interval (pos start) (pos (start + duration)) (some (negsuc size))
          ≡ err interval_not_positive)
unfolding bucket_range_by_interval
bucket_range_errors start duration size e period = (
  rw (lt→ltb 0 (0 + suc start) (omega arith)) refl,
  rw (ltb_not (start + 0) 0 (omega arith), lt→ltb 0 (0 + suc duration) (omega arith)) refl,
  rw
      (
        ltb_not (start + suc duration + 0) 0 (omega arith),
        ltb_not (start + 0) 0 (omega arith),
        lt→ltb (start + 0) (start + suc duration + 0) (omega arith),
      )
      refl,
  rw
      (
        ltb_not (start + 0) 0 (omega arith),
        ltb_not (start + duration + 0) 0 (omega arith),
        ltb_not (start + duration + 0) (start + 0) (omega arith),
      )
      refl,
  rw
      (
        ltb_not (start + 0) 0 (omega arith),
        ltb_not (start + duration + 0) 0 (omega arith),
        ltb_not (start + duration + 0) (start + 0) (omega arith),
        ltb_not (0 + suc size) 0 (omega arith),
      )
      refl,
)
