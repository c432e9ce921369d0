-- ===== src/Timeline/Loading/Warnings.antt =====
-- How often frontend/src/components/Timeline.js says that the range of the answer is too large.
use caronte.Prelude.{
  ℕ, ◌+◌, ◌<◌, ◌≡◌, refl, List, [], ◌∷◌, Option, none, some, get_elem?, without_at, String, ltb,
  ltb→lt, ◌==◌, string_comparable, if_both, Bool-cases, inl, inr,
}
use caronte.Timeline.Series.{minutes, Metric, Point, load_points}
use caronte.Timeline.Loading.{
  Entry, Query, State, start, LoadEvent, handled, listed, list_failed, answered, answer_failed,
  handle, set_list, query_statistics, list_answered, is_large, warn, show_points, show_statistics,
  statistics_answered, step, run,
}

-- Times, the last one first, of which each is more than a minute after the one before it.
abbrev pub IsSpaced : List ℕ → Type 0
IsSpaced [] = Unit
IsSpaced (t ∷ []) = Unit
IsSpaced (t ∷ u ∷ ts) = (u + minutes < t) × IsSpaced (u ∷ ts)

warn-IsSpaced : (now : ℕ) (ts : List ℕ) → IsSpaced ts → IsSpaced (warn now ts)
unfolding warn
warn-IsSpaced now [] h = tt
warn-IsSpaced now (t ∷ ts) h = elim (Bool-cases (ltb (t + minutes) now)) [
  | inl late ↦ rw late (ltb→lt (t + minutes) now late, h)
  | inr early ↦ rw early h
]

show-warned :
    (q : Query) (o : Option (List Point)) (s : State) → (show_points q o s).warned ≡ s.warned
unfolding show_points
show-warned q none s = refl
show-warned q (some []) s = refl
show-warned q (some (p ∷ ps)) s = refl

list-warned :
    (o : Option String) (i : ℕ) (list : List Entry) (s : State)
    → (list_answered o i list s).warned ≡ s.warned
unfolding list_answered query_statistics set_list
list-warned none i list s = refl
list-warned (some m) i list s =
    if_both (λ (t : State). t.warned ≡ s.warned) (m == "matched_rules")
      (record s { asked = without_at i s.asked; rules = some list })
      (record s { asked = without_at i s.asked; services = some list }) refl refl

answer-IsSpaced :
    (o : Option Query) (i now : ℕ) (ms : List Metric) (s : State)
    → IsSpaced s.warned
    → IsSpaced (statistics_answered o i now ms s).warned
unfolding statistics_answered show_statistics
answer-IsSpaced none i now ms s h = h
answer-IsSpaced (some q) i now [] s h = h
answer-IsSpaced (some q) i now (m ∷ ms) s h =
    rw (show-warned q (load_points q.columns m ms) _) (
      if_both IsSpaced (is_large m ms) (warn now s.warned) s.warned (warn-IsSpaced now s.warned h)
        h)

step-IsSpaced : (e : LoadEvent) (s : State) → IsSpaced s.warned → IsSpaced (step e s).warned
unfolding step handle
step-IsSpaced (handled e) s h = h
step-IsSpaced (listed i list) s h = rw (list-warned (get_elem? s.asked i) i list s) h
step-IsSpaced (list_failed i) s h = h
step-IsSpaced (answered i now ms) s h = answer-IsSpaced (get_elem? s.waiting i) i now ms s h
step-IsSpaced (answer_failed i) s h = h

run_from-IsSpaced :
    (es : List LoadEvent) (s : State) → IsSpaced s.warned → IsSpaced (run es s).warned
unfolding run
run_from-IsSpaced [] s h = h
run_from-IsSpaced (e ∷ es) s h = run_from-IsSpaced es (step e s) (step-IsSpaced e s h)

-- Whatever the handlers and the answers, of two notifications in a row that the range is large the
-- second comes more than a minute after the first.
pub run-IsSpaced : (es : List LoadEvent) → IsSpaced (run es start).warned
run-IsSpaced es = run_from-IsSpaced es start tt
