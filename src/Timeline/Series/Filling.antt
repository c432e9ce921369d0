-- ===== src/Timeline/Series/Filling.antt =====
-- Which points the loop of frontend/src/components/Timeline.js over the intervals makes.
use caronte.Prelude.{
  ℕ, zero, suc, Text, ◌+◌, ◌-◌, ◌/◌, ◌%◌, ◌≤◌, ◌<◌, ◌≡◌, refl, ◌∙◌, ap, sym, subst, true, false,
  List, [], ◌∷◌, some, map, ◌==◌, nat_comparable, list_comparable, if◌then◌else◌, leb, arith,
  length, Bool-cases, inl, inr, leb→le,
}
use mathlib.Core.Option
use caronte.Timeline.Series.{minutes, Metric, Point, metric_point, zero_point, fill}

-- The times of the chart: `n` of them, a minute apart.
abbrev pub grid : ℕ → ℕ → List ℕ
grid t zero = []
grid t (suc n) = t ∷ grid (t + minutes) n

abbrev pub rounds : ℕ → ℕ → ℕ
rounds interval time_end = if leb interval time_end then (time_end - interval) / minutes + 1 else 0

-- The specification: at each time the values of the entry that starts then, or zeros.
abbrev pub point_at : List Text → List Metric → ℕ → Point
point_at columns [] t = zero_point columns t
point_at columns (m ∷ ms) t =
    if t == m.range_start then metric_point columns m else point_at columns ms t

-- The entries are in order, and each starts a whole number of minutes after `t`.
abbrev pub OnGrid : ℕ → List Metric → Type 0
OnGrid t [] = Unit
OnGrid t (m ∷ ms) =
    (t ≤ m.range_start) × ((m.range_start - t) % minutes ≡ 0) × OnGrid (m.range_start + minutes) ms

module _ (columns : List Text) where
  pub point_at_before :
      (ms : List Metric) (t u : ℕ)
      → t < u
      → OnGrid u ms
      → point_at columns ms t ≡ zero_point columns t
  point_at_before [] t u h g = refl
  point_at_before (m ∷ ms) t u h g = ground (arith, point_at_before ms t (m.range_start + minutes))

  map-point_at_after :
      (m : Metric) (ms : List Metric) (t n : ℕ)
      → m.range_start < t
      → map (point_at columns (m ∷ ms)) (grid t n) ≡ map (point_at columns ms) (grid t n)
  map-point_at_after m ms t zero h = refl
  map-point_at_after m ms t (suc n) h = ground (arith, map-point_at_after m ms (t + minutes) n)

  rounds_next : (t e : ℕ) → t ≤ e → rounds t e ≡ suc (rounds (t + minutes) e)
  rounds_next t e h = ground arith

  OnGrid-next :
      (m : Metric) (ms : List Metric) (t : ℕ)
      → (t == m.range_start) ≡ false
      → OnGrid t (m ∷ ms)
      → OnGrid (t + minutes) (m ∷ ms)
  OnGrid-next m ms t h g =
      let later : t < m.range_start = ground arith in (omega arith, omega arith, g.2)

  less_fuel :
      (fuel t e : ℕ) → leb t e ≡ true → rounds t e < suc fuel → rounds (t + minutes) e < fuel
  less_fuel fuel t e more h = ground arith

  fill_done :
      (fuel t e : ℕ) (ms : List Metric)
      → leb t e ≡ false
      → fill columns (suc fuel) t e ms ≡ some (map (point_at columns ms) (grid t (rounds t e)))
  unfolding fill
  fill_done fuel t e [] done = rw done
  fill_done fuel t e (m ∷ ms) done = rw done

  -- One round of the loop, given that the rest of it goes as stated.
  fill_round :
      (fuel t e : ℕ) (ms : List Metric)
      → leb t e ≡ true
      → OnGrid t ms
      → ((ms' : List Metric)
          → OnGrid (t + minutes) ms'
          → fill columns fuel (t + minutes) e ms'
            ≡ some (map (point_at columns ms') (grid (t + minutes) (rounds (t + minutes) e))))
      → fill columns (suc fuel) t e ms ≡ some (map (point_at columns ms) (grid t (rounds t e)))
  unfolding fill
  fill_round fuel t e [] more g ih = rw (rounds_next t e (leb→le t e more), ih [] tt) (rw more)
  fill_round fuel t e (m ∷ ms) more g ih = elim (Bool-cases (t == m.range_start)) [
    | inl met ↦
        let at : t ≡ m.range_start = ground arith in
        let rest = ih ms (subst (λ u. OnGrid (u + minutes) ms) (sym at) g.2) in
        rw (
          rounds_next t e (leb→le t e more),
          more,
          met,
          rest,
          map-point_at_after m ms (t + minutes) (rounds (t + minutes) e) (omega arith),
        )
    | inr missed ↦
        let rest = ih (m ∷ ms) (OnGrid-next m ms t missed g) in
        let later : t < m.range_start = ground arith in
        rw (
          rounds_next t e (leb→le t e more),
          more,
          missed,
          rest,
          point_at_before ms t (m.range_start + minutes) (omega arith) g.2,
        )
  ]

  -- With as much fuel as there are times and one more, the loop makes a point for each time from
  -- the first to the last, a minute apart: the entry's values where an entry starts, zeros else.
  pub fill_lem :
      (fuel t e : ℕ) (ms : List Metric)
      → rounds t e < fuel
      → OnGrid t ms
      → fill columns fuel t e ms ≡ some (map (point_at columns ms) (grid t (rounds t e)))
  unfolding fill
  fill_lem zero t e ms h g = elim h [ ]
  fill_lem (suc fuel) t e ms h g = elim (Bool-cases (leb t e)) [
    | inl more ↦
        fill_round fuel t e ms more g
          (λ ms' g'. fill_lem fuel (t + minutes) e ms' (less_fuel fuel t e more h) g')
    | inr done ↦ fill_done fuel t e ms done
  ]

  fill-more :
      (fuel t e : ℕ) (ms : List Metric)
      → leb t e ≡ true
      → (ms' : List Metric) × (p : Point) × fill columns (suc fuel) t e ms
          ≡ Option.map (p ∷◌) (fill columns fuel (t + minutes) e ms')
  unfolding fill
  fill-more fuel t e [] more = ([], zero_point columns t, rw more)
  fill-more fuel t e (m ∷ ms) more = elim (Bool-cases (t == m.range_start)) [
    | inl met ↦ (ms, metric_point columns m, rw (more, met))
    | inr missed ↦ (m ∷ ms, zero_point columns t, rw (more, missed))
  ]

  -- Whatever the entries, the loop ends with that fuel, after that many rounds.
  pub fill-ends :
      (fuel t e : ℕ) (ms : List Metric)
      → rounds t e < fuel
      → (points : List Point) × fill columns fuel t e ms ≡ some points × length points ≡ rounds t e
  fill-ends zero t e ms h = elim h [ ]
  fill-ends (suc fuel) t e ms h = elim (Bool-cases (leb t e)) [
    | inl more ↦
        let (ms', p, round) = fill-more fuel t e ms more in
        let (points, rest, n) = fill-ends fuel (t + minutes) e ms' (less_fuel fuel t e more h) in
        (
          p ∷ points,
          round ∙ ap (Option.map (p ∷◌)) rest,
          ap suc n ∙ sym (rounds_next t e (leb→le t e more)),
        )
    | inr done ↦
        (map (point_at columns ms) (grid t (rounds t e)), fill_done fuel t e ms done, rw done)
  ]
