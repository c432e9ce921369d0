-- ===== src/Timeline/Loading/Chart.antt =====
-- The points of the chart that the loads of frontend/src/components/Timeline.js leave.
use caronte.Prelude.{
  ℕ, zero, suc, ◌+◌, ◌-◌, ◌*◌, ◌≤◌, ◌≡◌, refl, sym, subst, ◌∙◌, inl, inr, List, [], ◌∷◌, Option,
  none, some, length, length-map, get_elem?, without_at, String, Text, ◌==◌, nat_comparable,
  string_comparable, leb, Bool-cases, if_both,
}
use mathlib.Core.Option
use caronte.Timeline.Handlers.{TimeRange, Event}
use caronte.Timeline.Handlers
use caronte.Timeline.Series.{
  minutes, Metric, Point, metric_point, zero_point, value_of, fill, fuel_for, skip_negative,
  load_points,
}
use caronte.Timeline.Series.Range.{chart_end, load_points-skip, load_points-ends}
use caronte.Timeline.Loading.Kept.{handler-Kept}
use caronte.Timeline.Loading.{
  Entry, Query, State, start, LoadEvent, handled, listed, list_failed, answered, answer_failed,
  handle, set_list, query_statistics, list_answered, last_time, show_points, show_statistics,
  statistics_answered, step, run,
}

-- Points a minute apart from `t` on, with a value for each column.
abbrev pub Rows : List Text → ℕ → List Point → Type 0
Rows columns t [] = Unit
Rows columns t (p ∷ ps) =
    (p.time ≡ t) × (length p.columns ≡ length columns) × Rows columns (t + minutes) ps

cons-some :
    (p : Point) (o : Option (List Point)) {ps : List Point}
    → Option.map (p ∷◌) o ≡ some ps
    → (qs : List Point) × (o ≡ some qs) × (p ∷ qs ≡ ps)
cons-some p none h = cc
cons-some p (some qs) h = (qs, refl, cc)

module _ (columns : List Text) where
  round-Rows :
      (p : Point) (t : ℕ) (o : Option (List Point)) {ps : List Point}
      → p.time ≡ t
      → length p.columns ≡ length columns
      → ((qs : List Point) → o ≡ some qs → Rows columns (t + minutes) qs)
      → Option.map (p ∷◌) o ≡ some ps
      → Rows columns t ps
  round-Rows p t o at_t wide ih h =
      let (qs, e, e') = cons-some p o h in subst (Rows columns t) e' (at_t, wide, ih qs e)

  no_more : (t : ℕ) {ps : List Point} → some [] ≡ some ps → Rows columns t ps
  no_more t h = let empty : [] ≡ _ = cc in subst (Rows columns t) empty tt

  fill-Rows :
      (fuel t e : ℕ) (ms : List Metric) (ps : List Point)
      → fill columns fuel t e ms ≡ some ps
      → Rows columns t ps
  unfolding fill zero_point metric_point
  fill-Rows zero t e ms ps h = cc
  fill-Rows (suc fuel) t e [] ps h = elim (Bool-cases (leb t e)) [
    | inl more ↦
        round-Rows (zero_point columns t) t (fill columns fuel (t + minutes) e []) refl
          (length-map columns (λ _. 0)) (fill-Rows fuel (t + minutes) e []) (rw more at h)
    | inr done ↦ no_more t (rw done at h)
  ]
  fill-Rows (suc fuel) t e (m ∷ ms) ps h = elim (Bool-cases (leb t e)) [
    | inl more ↦ elim (Bool-cases (t == m.range_start)) [
      | inl met ↦
          round-Rows (metric_point columns m) t (fill columns fuel (t + minutes) e ms)
            (sym ((nat_comparable.same_iff t m.range_start).0 met))
            (length-map columns (value_of m.values)) (fill-Rows fuel (t + minutes) e ms)
            (rw (more, met) at h)
      | inr missed ↦
          round-Rows (zero_point columns t) t (fill columns fuel (t + minutes) e (m ∷ ms)) refl
            (length-map columns (λ _. 0)) (fill-Rows fuel (t + minutes) e (m ∷ ms))
            (rw (more, missed) at h)
    ]
    | inr done ↦ no_more t (rw done at h)
  ]

  load_points-Rows :
      (m : Metric) (ms : List Metric) (ps : List Point)
      → load_points columns m ms ≡ some ps
      → (t : ℕ) × Rows columns t ps
  load_points-Rows m ms ps h =
      let start_of = (skip_negative (m.range_start - minutes) (m ∷ ms)).0 in
      let rest = (skip_negative (m.range_start - minutes) (m ∷ ms)).1 in
      (
        start_of,
        fill-Rows (fuel_for start_of (chart_end start_of m ms)) start_of (chart_end start_of m ms)
            rest ps (sym (load_points-skip columns m ms start_of rest refl) ∙ h),
      )

-- The chart is that of the series: its points are a minute apart, from the start of the series to
-- its end, each has a value for each column, and there is at most one for each minute of a day and
-- one more. Before there is a series there are no points.
abbrev pub IsChart : Option TimeRange → List Text → List Point → Type 0
IsChart none columns ps = ps ≡ []
IsChart (some r) columns [] = ⊥
IsChart (some r) columns (p ∷ ps) =
    Rows columns r.begin (p ∷ ps) × (last_time p ps ≡ r.end) × (length (p ∷ ps) ≤ 24 * 60 + 1)

abbrev HasChart : State → Type 0
HasChart s = IsChart s.view.series s.columns s.points

show-HasChart :
    (q : Query) (o : Option (List Point)) (m : Metric) (ms : List Metric) (s : State)
    → load_points q.columns m ms ≡ o
    → HasChart s
    → HasChart (show_points q o s)
unfolding show_points Handlers.statistics_loaded
show-HasChart q none m ms s e h = h
show-HasChart q (some []) m ms s e h = h
show-HasChart q (some (p ∷ ps)) m ms s e h =
    let (t, rows) = load_points-Rows q.columns m ms (p ∷ ps) e in
    let (qs, made, bound) = load_points-ends q.columns m ms in
    let same : qs ≡ p ∷ ps = cc in
    (
      subst (λ u. Rows q.columns u (p ∷ ps)) (sym rows.0) rows,
      refl,
      subst (λ l. length l ≤ 24 * 60 + 1) same bound,
    )

list-HasChart :
    (o : Option String) (i : ℕ) (list : List Entry) (s : State)
    → HasChart s
    → HasChart (list_answered o i list s)
unfolding list_answered query_statistics set_list
list-HasChart none i list s h = h
list-HasChart (some m) i list s h =
    if_both HasChart (m == "matched_rules")
      (record s { asked = without_at i s.asked; rules = some list })
      (record s { asked = without_at i s.asked; services = some list }) h h

answer-HasChart :
    (o : Option Query) (i now : ℕ) (ms : List Metric) (s : State)
    → HasChart s
    → HasChart (statistics_answered o i now ms s)
unfolding statistics_answered show_statistics
answer-HasChart none i now ms s h = h
answer-HasChart (some q) i now [] s h = h
answer-HasChart (some q) i now (m ∷ ms) s h =
    show-HasChart q (load_points q.columns m ms) m ms _ refl h

step-HasChart : (e : LoadEvent) (s : State) → HasChart s → HasChart (step e s)
unfolding step handle
step-HasChart (handled e) s h =
    subst (λ r. IsChart r s.columns s.points) (sym (handler-Kept e s.view).1) h
step-HasChart (listed i list) s h = list-HasChart (get_elem? s.asked i) i list s h
step-HasChart (list_failed i) s h = h
step-HasChart (answered i now ms) s h = answer-HasChart (get_elem? s.waiting i) i now ms s h
step-HasChart (answer_failed i) s h = h

run-HasChart : (es : List LoadEvent) (s : State) → HasChart s → HasChart (run es s)
unfolding run
run-HasChart [] s h = h
run-HasChart (e ∷ es) s h = run-HasChart es (step e s) (step-HasChart e s h)

-- Whatever the handlers, the answers, their order and the failures: before there is a series there
-- are no points, and then the points are a minute apart from the start of the series to its end,
-- each with one value for each column shown, and at most 1441 in number.
pub run-IsChart :
    (es : List LoadEvent)
    → IsChart (run es start).view.series (run es start).columns (run es start).points
run-IsChart es = run-HasChart es start refl
