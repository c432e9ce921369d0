-- ===== src/Timeline/Loading/Styles.antt =====
-- The styles of the chart that the loads of frontend/src/components/Timeline.js leave.
use caronte.Prelude.{
  ℕ, ◌≡◌, refl, inl, inr, nat_comparable, List, [], ◌∷◌, Option, none, some, get_elem?, without_at,
  String, ◌==◌, string_comparable, if◌then◌else◌, All, All-append_one, All-imp, All-without_at,
  All-get_elem?, Bool-cases, if_both,
}
use caronte.Timeline.Handlers.{
  TimeRange, Event, mounted, metric_chosen, loaded, time_range_changed, selection_changed, fired,
  connections_filtered, connection_updated, notified, pulsed, pulse_ended,
}
use caronte.Timeline.Handlers
use caronte.Timeline.Loading.Kept.{handler-Kept}
use caronte.Timeline.Series.{Metric, Point, load_points}
use caronte.Timeline.Loading.{
  Entry, Query, State, start, LoadEvent, handled, listed, list_failed, answered, answer_failed,
  handle, set_list, query_statistics, list_answered, show_points, show_statistics,
  statistics_answered, step, run, create_styler,
}

abbrev IsSome {ℓ} : {A : Type ℓ} → Option A → Type 0
IsSome none = ⊥
IsSome (some a) = Unit

-- The table of the metric is there.
abbrev HasTable : Option (List Entry) → Option (List Entry) → String → Type 0
HasTable services rules metric = IsSome (if metric == "matched_rules" then rules else services)

abbrev HasTableIf : Option TimeRange → Type 0 → Type 0
HasTableIf none T = Unit
HasTableIf (some r) T = T

abbrev HasTables : State → Type 0
HasTables s =
    All (λ (q : Query). HasTable s.services s.rules q.metric) s.waiting
    × HasTableIf s.view.series (HasTable s.services s.rules s.view.metric)

HasTable-services :
    (services rules : Option (List Entry)) (list : List Entry) (metric : String)
    → HasTable services rules metric
    → HasTable (some list) rules metric
HasTable-services services rules list metric h = elim (Bool-cases (metric == "matched_rules")) [
  | inl e ↦ rw e (rw e at h)
  | inr e ↦ rw e tt
]

HasTable-rules :
    (services rules : Option (List Entry)) (list : List Entry) (metric : String)
    → HasTable services rules metric
    → HasTable services (some list) metric
HasTable-rules services rules list metric h = elim (Bool-cases (metric == "matched_rules")) [
  | inl e ↦ rw e tt
  | inr e ↦ rw e (rw e at h)
]

HasTable-set :
    (s : State) (asked : String) (list : List Entry)
    → HasTable (set_list asked list s).services (set_list asked list s).rules asked
unfolding set_list
HasTable-set s asked list = elim (Bool-cases (asked == "matched_rules")) [
  | inl e ↦ rw (e, set_list) tt
  | inr e ↦ rw (e, set_list) tt
]

HasTableIf-map : (o : Option TimeRange) {A B : Type 0} → (A → B) → HasTableIf o A → HasTableIf o B
HasTableIf-map none f h = tt
HasTableIf-map (some r) f h = f h

handle-HasTables : (e : Event) (s : State) → HasTables s → HasTables (handle e s)
unfolding handle
handle-HasTables e s (w, t) = let (m, r) = handler-Kept e s.view in (w, rw (m, r) t)

set-HasTables :
    (m : String) (list : List Entry) (s : State) → HasTables s → HasTables (set_list m list s)
unfolding set_list
set-HasTables m list s (w, t) =
    if_both HasTables (m == "matched_rules") (record s { rules = some list })
      (record s { services = some list })
      (
        All-imp (λ q. HasTable-rules s.services s.rules list q.metric) s.waiting w,
        HasTableIf-map s.view.series (HasTable-rules s.services s.rules list s.view.metric) t,
      )
      (
        All-imp (λ q. HasTable-services s.services s.rules list q.metric) s.waiting w,
        HasTableIf-map s.view.series (HasTable-services s.services s.rules list s.view.metric) t,
      )

query-HasTables :
    (m : String) (s : State)
    → HasTable s.services s.rules m
    → HasTables s
    → HasTables (query_statistics m s)
unfolding query_statistics
query-HasTables m s k (w, t) =
    (All-append_one (λ (q : Query). HasTable s.services s.rules q.metric) s.waiting _ w k, t)

list-HasTables :
    (o : Option String) (i : ℕ) (list : List Entry) (s : State)
    → HasTables s
    → HasTables (list_answered o i list s)
unfolding list_answered
list-HasTables none i list s h = h
list-HasTables (some m) i list s h =
    let without = record s { asked = without_at i s.asked } in
    query-HasTables m (set_list m list without) (HasTable-set without m list)
      (set-HasTables m list without h)

show-HasTables :
    (q : Query) (ps : Option (List Point)) (s : State)
    → HasTable s.services s.rules q.metric
    → HasTables s
    → HasTables (show_points q ps s)
unfolding show_points Handlers.statistics_loaded
show-HasTables q none s k h = h
show-HasTables q (some []) s k h = h
show-HasTables q (some (p ∷ ps)) s k h = (h.0, k)

answer-HasTables :
    (o : Option Query) (i now : ℕ) (ms : List Metric) (s : State)
    → get_elem? s.waiting i ≡ o
    → HasTables s
    → HasTables (statistics_answered o i now ms s)
unfolding statistics_answered show_statistics
answer-HasTables none i now ms s e h = h
answer-HasTables (some q) i now [] s e h = (All-without_at _ i s.waiting h.0, h.1)
answer-HasTables (some q) i now (m ∷ ms) s e h =
    show-HasTables q (load_points q.columns m ms) _ (All-get_elem? _ i s.waiting e h.0)
      (All-without_at _ i s.waiting h.0, h.1)

step-HasTables : (e : LoadEvent) (s : State) → HasTables s → HasTables (step e s)
unfolding step
step-HasTables (handled e) s h = handle-HasTables e s h
step-HasTables (listed i list) s h = list-HasTables (get_elem? s.asked i) i list s h
step-HasTables (list_failed i) s h = h
step-HasTables (answered i now ms) s h = answer-HasTables (get_elem? s.waiting i) i now ms s refl h
step-HasTables (answer_failed i) s h = (All-without_at _ i s.waiting h.0, h.1)

run-HasTables : (es : List LoadEvent) (s : State) → HasTables s → HasTables (run es s)
unfolding run
run-HasTables [] s h = h
run-HasTables (e ∷ es) s h = run-HasTables es (step e s) (step-HasTables e s h)

IsSome-some : (o : Option (List Entry)) → IsSome o → (es : List Entry) × (o ≡ some es)
IsSome-some none h = absurd h
IsSome-some (some es) h = (es, refl)

-- Whatever the handlers, the answers and their order, and the failures: once a chart is shown, the
-- services or rules that its styles are made from are there.
pub run-create_styler :
    (es : List LoadEvent) {r : TimeRange}
    → (run es start).view.series ≡ some r
    → (styles : List Entry) × (create_styler (run es start) ≡ some styles)
unfolding create_styler
run-create_styler es shown =
    let t = (run-HasTables es start (tt, tt)).1 in IsSome-some _ (rw shown at t)
