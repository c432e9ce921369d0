-- ===== src/Timeline/Loading/Order.antt =====
-- Which metric frontend/src/components/Timeline.js shows once its loads are over.
use caronte.Prelude.{
  ℕ, suc, ◌+◌, ◌/◌, ◌-◌, ◌≤◌, ◌≡◌, ◌≢◌, refl, sym, subst, ap, ◌∙◌, inl, inr, true, List, [], ◌∷◌,
  ◌++◌, append-nil, append_assoc, Option, none, some, map, length, drop, drop-length_append,
  get_elem?, without_at, last?, String, Text, leb, ◌==◌, nat_comparable, string_comparable,
  Bool-cases, if_both, arith, last-append_one,
}
use mathlib.Core.Option
use caronte.Timeline.Handlers.{TimeRange, Event}
use caronte.Timeline.Handlers
use caronte.Timeline.Series.{
  epoch, minutes, Metric, Point, fill, last_start, time_end_of, load_points,
}
use caronte.Timeline.Series.Range.{
  chart_end, load_points-skip, load_points-ends, skip_negative-stop,
}
use caronte.Timeline.Loading.Kept.{handler-Kept, handler-Extends}
use caronte.Timeline.Loading.{
  Entry, Query, State, start, LoadEvent, handled, listed, list_failed, answered, answer_failed,
  handler_step, handle, set_list, query_statistics, list_answered, show_points, show_statistics,
  statistics_answered, step, run,
}

-- An answer with entries, none before 1970 and the last not before the first.
abbrev pub IsAnswer : List Metric → Type 0
IsAnswer [] = ⊥
IsAnswer (m ∷ ms) = (epoch + minutes ≤ m.range_start) × (m.range_start ≤ last_start m ms)

-- No request fails, and the answers come in the order of the requests.
abbrev pub InOrder : List LoadEvent → Type 0
InOrder [] = Unit
InOrder (handled e ∷ es) = InOrder es
InOrder (listed i list ∷ es) = (i ≡ 0) × InOrder es
InOrder (list_failed i ∷ es) = ⊥
InOrder (answered i now ms ∷ es) = (i ≡ 0) × IsAnswer ms × InOrder es
InOrder (answer_failed i ∷ es) = ⊥

-- The metric that was loaded last, or the first one that is shown.
abbrev pub last_metric : List String → String
last_metric ms = elim (last? ms) [ none ↦ "connections_per_service" | some m ↦ m ]

time_end_of-le : (t e : ℕ) → t ≤ e → t ≤ time_end_of t e
unfolding time_end_of
time_end_of-le t e h = ground arith

map_cons-ne : (p : Point) (o : Option (List Point)) → Option.map (p ∷◌) o ≢ some []
map_cons-ne p none h = cc
map_cons-ne p (some qs) h = cc

module _ (columns : List Text) where
  fill-ne : (fuel t e : ℕ) (ms : List Metric) → t ≤ e → fill columns (suc fuel) t e ms ≢ some []
  unfolding fill
  fill-ne fuel t e [] h k =
      let more : leb t e ≡ true = ground arith in
      map_cons-ne _ (fill columns fuel (t + minutes) e []) (rw more at k)
  fill-ne fuel t e (m ∷ ms) h k =
      let more : leb t e ≡ true = ground arith in
      elim (Bool-cases (t == m.range_start)) [
        | inl met ↦ map_cons-ne _ (fill columns fuel (t + minutes) e ms) (rw (more, met) at k)
        | inr missed ↦
            map_cons-ne _ (fill columns fuel (t + minutes) e (m ∷ ms)) (rw (more, missed) at k)
      ]

  load_points-ne :
      (m : Metric) (ms : List Metric) → IsAnswer (m ∷ ms) → load_points columns m ms ≢ some []
  unfolding time_end_of last_start
  load_points-ne m ms h k =
      let from = m.range_start - minutes in
      let stop = skip_negative-stop from (m ∷ ms) (omega arith) in
      let end = chart_end from m ms in
      fill-ne (suc ((end - from) / minutes)) from end (m ∷ ms)
        (time_end_of-le from (last_start m ms + minutes) (omega arith))
        (sym (load_points-skip columns m ms from (m ∷ ms) stop) ∙ k)

  some_point : (ps : List Point) → ps ≢ [] → (p : Point) × (qs : List Point) × (ps ≡ p ∷ qs)
  some_point [] h = absurd (h refl)
  some_point (p ∷ qs) h = (p, qs, refl)

  load_points-some :
      (m : Metric) (ms : List Metric)
      → IsAnswer (m ∷ ms)
      → (p : Point) × (ps : List Point) × (load_points columns m ms ≡ some (p ∷ ps))
  load_points-some m ms h =
      let (qs, made, bound) = load_points-ends columns m ms in
      let (p, ps, e) = some_point qs (λ e. load_points-ne m ms h (made ∙ ap some e)) in
      (p, ps, made ∙ ap some e)

-- The loads that are over, and those that wait for the statistics or for a list.
abbrev FollowsBy : List String → String → List String → Type 0
FollowsBy loads metric queued =
    (over : List String) × (loads ≡ over ++ queued) × (metric ≡ last_metric over)

abbrev queue : State → List String
queue s = map (λ (q : Query). q.metric) s.waiting ++ s.asked

abbrev Follows : State → Type 0
Follows s = FollowsBy s.view.loads s.view.metric (queue s)

handle-Follows : (e : Event) (s : State) → Follows s → Follows (handle e s)
unfolding handle
handle-Follows e s (over, loads, metric) =
    let (new, more) = handler-Extends e s.view in
    let fresh : drop (length s.view.loads) (handler_step e s.view).loads ≡ new =
      ap (drop (length s.view.loads)) more ∙ drop-length_append s.view.loads new in
    let waits = map (λ (q : Query). q.metric) s.waiting in
    let regroup : (over ++ (waits ++ s.asked)) ++ new ≡ over ++ (waits ++ (s.asked ++ new)) =
      simp append_assoc in
    (
      over,
      more
          ∙ ap (◌++ new) loads
          ∙ regroup
          ∙ ap (λ xs. over ++ (waits ++ (s.asked ++ xs))) (sym fresh),
      (handler-Kept e s.view).0 ∙ metric,
    )

first_of {ℓ} :
    {A : Type ℓ} (xs : List A) {a : A} → get_elem? xs 0 ≡ some a → xs ≡ a ∷ without_at 0 xs
first_of [] e = cc
first_of (x ∷ xs) e = cc

-- A load that goes from waiting for a list to waiting for the statistics keeps its place.
abbrev FollowsAt : String → State → Type 0
FollowsAt m s =
    FollowsBy s.view.loads s.view.metric (map (λ (q : Query). q.metric) s.waiting ++ m ∷ s.asked)

set-FollowsAt :
    (m k : String) (list : List Entry) (s : State) → FollowsAt m s → FollowsAt m (set_list k list s)
unfolding set_list
set-FollowsAt m k list s h =
    if_both (FollowsAt m) (k == "matched_rules") (record s { rules = some list })
      (record s { services = some list }) h h

queue_one :
    (qs : List Query) (q : Query) (ms : List String)
    → map (λ (p : Query). p.metric) qs ++ q.metric ∷ ms
      ≡ map (λ (p : Query). p.metric) (qs ++ q ∷ []) ++ ms
queue_one [] q ms = refl
queue_one (p ∷ qs) q ms = ap (p.metric ∷◌) (queue_one qs q ms)

query-Follows : (m : String) (s : State) → FollowsAt m s → Follows (query_statistics m s)
unfolding query_statistics
query-Follows m s (over, loads, metric) =
    (over, loads ∙ ap (over ++◌) (queue_one s.waiting _ s.asked), metric)

list-Follows :
    (o : Option String) (list : List Entry) (s : State)
    → get_elem? s.asked 0 ≡ o
    → Follows s
    → Follows (list_answered o 0 list s)
unfolding list_answered
list-Follows none list s e h = h
list-Follows (some m) list s e (over, loads, metric) =
    let waits = map (λ (q : Query). q.metric) s.waiting in
    let without = record s { asked = without_at 0 s.asked } in
    query-Follows m (set_list m list without) (
      set-FollowsAt m m list without
        (over, loads ∙ ap (λ xs. over ++ (waits ++ xs)) (first_of s.asked e), metric))

show-Follows :
    (q : Query) (m : Metric) (ms : List Metric) (s : State) (over : List String)
    → IsAnswer (m ∷ ms)
    → s.view.loads ≡ over ++ q.metric ∷ queue s
    → Follows (show_points q (load_points q.columns m ms) s)
unfolding show_points Handlers.statistics_loaded
show-Follows q m ms s over a loads =
    let (p, ps, e) = load_points-some q.columns m ms a in
    let newest : q.metric ≡ last_metric (over ++ q.metric ∷ []) =
      rw (last_metric, last-append_one over q.metric) refl in
    rw e (over ++ q.metric ∷ [], loads ∙ sym (append_assoc over (q.metric ∷ []) (queue s)), newest)

answer-Follows :
    (o : Option Query) (now : ℕ) (ms : List Metric) (s : State)
    → get_elem? s.waiting 0 ≡ o
    → IsAnswer ms
    → Follows s
    → Follows (statistics_answered o 0 now ms s)
unfolding statistics_answered show_statistics
answer-Follows none now ms s e a h = h
answer-Follows (some q) now [] s e a h = absurd a
answer-Follows (some q) now (m ∷ ms) s e a (over, loads, metric) = show-Follows q m ms _ over a (
    loads ∙ ap (λ qs. over ++ (map (λ (p : Query). p.metric) qs ++ s.asked)) (first_of s.waiting e))

run-Follows : (es : List LoadEvent) (s : State) → InOrder es → Follows s → Follows (run es s)
unfolding run step
run-Follows [] s o h = h
run-Follows (handled e ∷ es) s o h = run-Follows es (handle e s) o (handle-Follows e s h)
run-Follows (listed i list ∷ es) s (first, o) h = run-Follows es (step (listed i list) s) o (
    subst (λ j. Follows (list_answered (get_elem? s.asked j) j list s)) (sym first)
      (list-Follows (get_elem? s.asked 0) list s refl h))
run-Follows (answered i now ms ∷ es) s (first, a, o) h =
    run-Follows es (step (answered i now ms) s) o (
      subst (λ j. Follows (statistics_answered (get_elem? s.waiting j) j now ms s)) (sym first)
        (answer-Follows (get_elem? s.waiting 0) now ms s refl a h))
run-Follows (list_failed i ∷ es) s o h = absurd o
run-Follows (answer_failed i ∷ es) s o h = absurd o

-- If no request fails, the answers come in the order of the requests, and each answer for the
-- statistics has entries, the first not before the second minute of 1970 and the last not before
-- the first: once no load is under way, the metric shown is that of the last load that was started,
-- or the initial one if none was.
pub run-last_metric :
    (es : List LoadEvent)
    → InOrder es
    → (run es start).asked ≡ []
    → (run es start).waiting ≡ []
    → (run es start).view.metric ≡ last_metric (run es start).view.loads
run-last_metric es o no_asked no_waiting =
    let (over, loads, metric) = run-Follows es start o ([], refl, refl) in
    metric
    ∙ ap last_metric (
        sym (
          loads
          ∙ ap (λ qs. over ++ (map (λ (p : Query). p.metric) qs ++ (run es start).asked)) no_waiting
          ∙ ap (over ++◌) no_asked
          ∙ append-nil over))
