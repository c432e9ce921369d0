-- ===== src/Timeline/Series.antt =====
-- The points of the chart, as `loadStatistics` of frontend/src/components/Timeline.js makes them
-- from the answer of the backend. A time is the number of milliseconds since the least one that a
-- `Date` can hold, so that the program's negative times are those below `epoch`.
pub mod Filling
pub mod Range
use caronte.Prelude.{
  ℕ, zero, suc, Text, ◌+◌, ◌-◌, ◌*◌, ◌/◌, Bool, true, false, List, [], ◌∷◌, ◌++◌, Option, none,
  some, map, Comparable, ◌==◌, nat_comparable, list_comparable, if◌then◌else◌, ltb, leb,
}
use mathlib.Core.Option

abbrev pub epoch : ℕ
epoch = 8640000000000000

abbrev pub minutes : ℕ
minutes = 60000

abbrev pub max_timeline_range : ℕ
max_timeline_range = 24 * 60 * minutes

-- One entry of the answer: `values` is its object under the name of the metric, if it has one.
pub record Metric : Type 0 where
  pub range_start : ℕ
  pub values : Option (List (Text × ℕ))

pub record Point : Type 0 where
  pub time : ℕ
  pub columns : List ℕ

unfoldable pub column_of : List (Text × ℕ) → Text → ℕ
column_of [] c = 0
column_of ((n, v) ∷ vs) c = if n == c then v else column_of vs c

-- `((metric in m) && (m[metric] != null)) ? (m[metric][c] || 0) : 0`
unfoldable pub value_of : Option (List (Text × ℕ)) → Text → ℕ
unfolding column_of
value_of none c = 0
value_of (some vs) c = column_of vs c

unfoldable pub metric_point : List Text → Metric → Point
unfolding value_of
metric_point columns m = record { time = m.range_start; columns = map (value_of m.values) columns }

unfoldable pub zero_point : List Text → ℕ → Point
zero_point columns time = record { time = time; columns = map (λ _. 0) columns }

-- The loop that passes over negative times: the start, and the entries that are left.
unfoldable pub skip_negative : ℕ → List Metric → ℕ × List Metric
skip_negative time_start [] = (time_start, [])
skip_negative time_start (m ∷ ms) =
    let rest = skip_negative (m.range_start - minutes) ms in
    if ltb time_start epoch then rest else (time_start, m ∷ ms)

-- The loop over the intervals; `none` is that the fuel ran out.
unfoldable pub fill : List Text → ℕ → ℕ → ℕ → List Metric → Option (List Point)
unfolding metric_point zero_point
fill columns zero interval time_end ms = none
fill columns (suc fuel) interval time_end [] =
    let rest = fill columns fuel (interval + minutes) time_end [] in
    if leb interval time_end then Option.map (zero_point columns interval ∷◌) rest else some []
fill columns (suc fuel) interval time_end (m ∷ ms) =
    let met = fill columns fuel (interval + minutes) time_end ms in
    let missed = fill columns fuel (interval + minutes) time_end (m ∷ ms) in
    if leb interval time_end
    then (if interval == m.range_start
        then Option.map (metric_point columns m ∷◌) met
        else Option.map (zero_point columns interval ∷◌) missed)
    else some []

unfoldable pub last_start : Metric → List Metric → ℕ
last_start m [] = m.range_start
last_start m (m' ∷ ms) = last_start m' ms

unfoldable pub time_end_of : ℕ → ℕ → ℕ
time_end_of time_start time_end =
    if ltb max_timeline_range (time_end - time_start)
    then time_start + max_timeline_range
    else time_end

-- More rounds than the loop makes between the two times, at a minute each, however far they are
-- apart.
abbrev pub fuel_for : ℕ → ℕ → ℕ
fuel_for time_start time_end = suc (suc ((time_end - time_start) / minutes))

-- The points, for an answer that is not empty. The loop always has the fuel that it needs.
unfoldable pub load_points : List Text → Metric → List Metric → Option (List Point)
unfolding skip_negative fill last_start time_end_of
load_points columns m ms =
    let (time_start, rest) = skip_negative (m.range_start - minutes) (m ∷ ms) in
    let time_end = time_end_of time_start (last_start m ms + minutes) in
    fill columns (fuel_for time_start time_end) time_start time_end rest
