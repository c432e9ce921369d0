-- ===== src/Timeline/Series/Range.antt =====
-- Which times the chart of frontend/src/components/Timeline.js shows, and how many.
use caronte.Prelude.{
  ℕ, Text, ◌+◌, ◌-◌, ◌*◌, ◌≤◌, ◌<◌, ◌≡◌, refl, ◌∙◌, ap, List, [], ◌∷◌, ◌++◌, some, map, arith,
  length, lt→ltb, le→ltb, All,
}
use caronte.Timeline.Series.{
  epoch, minutes, Metric, Point, zero_point, fill, fuel_for, last_start, time_end_of, skip_negative,
  load_points,
}
use caronte.Timeline.Series.Filling.{
  grid, rounds, point_at, OnGrid, fill_lem, fill-ends, point_at_before,
}

-- A minute's points of a day, and one more, come from the cut to a day.
rounds_bound : (t e : ℕ) → rounds t (time_end_of t e) ≤ 24 * 60 + 1
unfolding time_end_of
rounds_bound t e = ground arith

rounds-fuel_for : (t e : ℕ) → rounds t e < fuel_for t e
rounds-fuel_for t e = ground arith

-- The last time of the chart that starts at `t`.
abbrev pub chart_end : ℕ → Metric → List Metric → ℕ
unfolding last_start time_end_of
chart_end t m ms = time_end_of t (last_start m ms + minutes)

abbrev pub chart_times : ℕ → Metric → List Metric → List ℕ
chart_times t m ms = grid t (rounds t (chart_end t m ms))

pub skip_negative-stop : (t : ℕ) (ms : List Metric) → epoch ≤ t → skip_negative t ms ≡ (t, ms)
unfolding skip_negative
skip_negative-stop t [] h = refl
skip_negative-stop t (m ∷ ms) h = rw (le→ltb t epoch h)

skip_negative-next :
    (t : ℕ) (m : Metric) (ms : List Metric)
    → t < epoch
    → skip_negative t (m ∷ ms) ≡ skip_negative (m.range_start - minutes) ms
unfolding skip_negative
skip_negative-next t m ms h = rw (lt→ltb t epoch h)

last_start-Early :
    (b : Metric) (before : List Metric) (m : Metric) (ms : List Metric)
    → last_start b (before ++ m ∷ ms) ≡ last_start m ms
unfolding last_start
last_start-Early b [] m ms = refl
last_start-Early b (b' ∷ before) m ms = last_start-Early b' before m ms

chart_end-Early :
    (t : ℕ) (b : Metric) (before : List Metric) (m : Metric) (ms : List Metric)
    → chart_end t b (before ++ m ∷ ms) ≡ chart_end t m ms
unfolding chart_end
chart_end-Early t b before m ms =
    ap (λ u. time_end_of t (u + minutes)) (last_start-Early b before m ms)

OnGrid-earlier :
    (m : Metric) (ms : List Metric)
    → epoch + minutes ≤ m.range_start
    → OnGrid (m.range_start + minutes) ms
    → OnGrid (m.range_start - minutes) ms
OnGrid-earlier m [] h g = tt
OnGrid-earlier m (m' ∷ ms) h g = (omega arith, ground arith, g.2)

module _ (columns : List Text) where
  chart_bound : (t : ℕ) (m : Metric) (ms : List Metric) → rounds t (chart_end t m ms) ≤ 24 * 60 + 1
  unfolding chart_end
  chart_bound t m ms = rounds_bound t (last_start m ms + minutes)

  filled :
      (t : ℕ) (m : Metric) (ms rest : List Metric)
      → OnGrid t rest
      → fill columns (fuel_for t (chart_end t m ms)) t (chart_end t m ms) rest
        ≡ some (map (point_at columns rest) (chart_times t m ms))
  filled t m ms rest g =
      fill_lem columns (fuel_for t (chart_end t m ms)) t (chart_end t m ms) rest
        (rounds-fuel_for t (chart_end t m ms)) g

  pub load_points-skip :
      (m : Metric) (ms : List Metric) (t : ℕ) (rest : List Metric)
      → skip_negative (m.range_start - minutes) (m ∷ ms) ≡ (t, rest)
      → load_points columns m ms
        ≡ fill columns (fuel_for t (chart_end t m ms)) t (chart_end t m ms) rest
  unfolding load_points chart_end
  load_points-skip m ms t rest e = rw e

  -- Whatever the answer holds, the loop ends, and the chart has at most a point for each minute of
  -- a day and one more.
  pub load_points-ends :
      (m : Metric) (ms : List Metric)
      → (points : List Point) × load_points columns m ms ≡ some points × length points ≤ 24 * 60 + 1
  load_points-ends m ms =
      let start = (skip_negative (m.range_start - minutes) (m ∷ ms)).0 in
      let rest = (skip_negative (m.range_start - minutes) (m ∷ ms)).1 in
      let bound = chart_bound start m ms in
      let end = chart_end start m ms in
      let (points, made, n) =
        fill-ends columns (fuel_for start end) start end rest (rounds-fuel_for start end) in
      (points, load_points-skip m ms start rest refl ∙ made, omega arith)

  abbrev pub Early : Metric → Type 0
  Early m = m.range_start - minutes < epoch

  skip_negative-Early :
      (time_start : ℕ) (before : List Metric) (m : Metric) (ms : List Metric)
      → time_start < epoch
      → All Early before
      → epoch + minutes ≤ m.range_start
      → skip_negative time_start (before ++ m ∷ ms) ≡ (m.range_start - minutes, ms)
  skip_negative-Early t [] m ms e a h =
      skip_negative-next t m ms e ∙ skip_negative-stop (m.range_start - minutes) ms (omega arith)
  skip_negative-Early t (b ∷ before) m ms e a h =
      skip_negative-next t b (before ++ m ∷ ms) e
      ∙ skip_negative-Early (b.range_start - minutes) before m ms a.0 a.1 h

  -- If the answer begins with entries that start before the second minute after 1970 began, and
  -- goes on with an entry `m` that does not, the chart starts a minute before `m` and does not
  -- show `m`: its points are those of the entries after `m`, and zeros at the start of `m`.
  load_points-Early :
      (b : Metric) (before : List Metric) (m : Metric) (ms : List Metric)
      → Early b
      → All Early before
      → epoch + minutes ≤ m.range_start
      → OnGrid m.range_start (m ∷ ms)
      → load_points columns b (before ++ m ∷ ms)
          ≡ some (map (point_at columns ms) (chart_times (m.range_start - minutes) m ms))
        × point_at columns ms m.range_start ≡ zero_point columns m.range_start
  load_points-Early b before m ms e a h g = (
    load_points-skip b (before ++ m ∷ ms) (m.range_start - minutes) ms
          (skip_negative-Early (b.range_start - minutes) (b ∷ before) m ms e (e, a) h)
        ∙ ap
            (λ u.
              fill columns (fuel_for (m.range_start - minutes) u) (m.range_start - minutes) u ms)
            (chart_end-Early (m.range_start - minutes) b before m ms)
        ∙ (filled (m.range_start - minutes) m ms ms (OnGrid-earlier m ms h g.2)),
    point_at_before columns ms m.range_start (m.range_start + minutes) (omega arith) g.2,
  )
