-- ===== src/Timeline/Loading.antt =====
-- `loadStatistics` of frontend/src/components/Timeline.js as it runs: a load that a handler starts
-- waits for the services or the rules, then for the statistics, and the handlers go on meanwhile.
-- The handlers and what they keep are those of Timeline/Handlers; a load that fails ends.
pub mod Kept
pub mod Styles
pub mod Chart
pub mod Order
pub mod Warnings
use caronte.Prelude.{
  ℕ, ◌+◌, ◌-◌, ◌≡◌, Bool, true, false, List, [], ◌∷◌, ◌++◌, Option, none, some, map, drop, length,
  get_elem?, without_at, String, Text, ltb, ◌==◌, string_comparable, if◌then◌else◌,
}
use mathlib.Core.Option
use caronte.Utils.Params.{Params}
use caronte.Timeline.Handlers.{
  TimeRange, Event, loaded, statistics_columns, statistics_params, statistics_loaded,
}
use caronte.Timeline.Handlers
use caronte.Timeline.Series.{
  minutes, max_timeline_range, Metric, Point, skip_negative, last_start, load_points,
}

-- A service by its port, or a rule by its identifier.
pub record Entry : Type 0 where
  pub key : Text
  pub color : Text

-- A load whose request for the statistics is under way.
pub record Query : Type 0 where
  pub metric : String
  pub columns : List Text
  pub params : Params

-- `asked` has the metrics of the loads that wait for the services or the rules. `warned` has the
-- times of the notifications of a large range, the last one first; it is
-- `lastDisplayNotificationTime`.
pub record State : Type 0 where
  pub view : Handlers.State
  pub services : Option (List Entry)
  pub rules : Option (List Entry)
  pub columns : List Text
  pub points : List Point
  pub asked : List String
  pub waiting : List Query
  pub warned : List ℕ

abbrev pub start : State
start = record {
  view = Handlers.start;
  services = none;
  rules = none;
  columns = [];
  points = [];
  asked = [];
  waiting = [];
  warned = [];
}

-- What a handler does; the end of a load is not a handler's.
unfoldable pub handler_step : Event → Handlers.State → Handlers.State
unfolding Handlers.step
handler_step (loaded m r) v = v
handler_step e v = Handlers.step e v

-- The loads that a handler has started ask for the services or the rules.
unfoldable pub handle : Event → State → State
unfolding handler_step
handle e s =
    let view = handler_step e s.view in
    record s { view = view; asked = s.asked ++ drop (length s.view.loads) view.loads }

abbrev pub keys : Option (List Entry) → List Text
keys none = []
keys (some es) = map (λ (e : Entry). e.key) es

-- The services or the rules have come.
unfoldable pub set_list : String → List Entry → State → State
set_list metric list s =
    if metric == "matched_rules"
    then record s { rules = some list }
    else record s { services = some list }

unfoldable pub query_statistics : String → State → State
unfolding statistics_columns statistics_params
query_statistics metric s =
    let query : Query = record {
      metric = metric;
      columns = statistics_columns metric s.view (keys s.rules) (keys s.services);
      params = statistics_params metric s.view (keys s.rules) (keys s.services);
    } in
    record s { waiting = s.waiting ++ query ∷ [] }

unfoldable pub list_answered : Option String → ℕ → List Entry → State → State
unfolding set_list query_statistics
list_answered none i list s = s
list_answered (some metric) i list s =
    query_statistics metric (set_list metric list (record s { asked = without_at i s.asked }))

-- Whether the range of an answer is cut.
unfoldable pub is_large : Metric → List Metric → Bool
unfolding skip_negative last_start
is_large m ms =
    let time_start = (skip_negative (m.range_start - minutes) (m ∷ ms)).0 in
    ltb max_timeline_range (last_start m ms + minutes - time_start)

unfoldable pub warn : ℕ → List ℕ → List ℕ
warn now [] = now ∷ []
warn now (t ∷ ts) = if ltb (t + minutes) now then now ∷ t ∷ ts else t ∷ ts

-- `series.range()`, of the points.
abbrev pub last_time : Point → List Point → ℕ
last_time p [] = p.time
last_time p (q ∷ ps) = last_time q ps

unfoldable pub show_points : Query → Option (List Point) → State → State
unfolding statistics_loaded
show_points q (some (p ∷ ps)) s = record s {
  view = statistics_loaded q.metric (record { begin = p.time; end = last_time p ps }) s.view;
  columns = q.columns;
  points = p ∷ ps;
}
show_points q _ s = s

-- The statistics have come at the time `now`.
unfoldable pub show_statistics : Query → ℕ → List Metric → State → State
unfolding show_points load_points is_large warn
show_statistics q now [] s = s
show_statistics q now (m ∷ ms) s =
    show_points q (load_points q.columns m ms)
      (record s { warned = if is_large m ms then warn now s.warned else s.warned })

unfoldable pub statistics_answered : Option Query → ℕ → ℕ → List Metric → State → State
unfolding show_statistics
statistics_answered none i now ms s = s
statistics_answered (some q) i now ms s =
    show_statistics q now ms (record s { waiting = without_at i s.waiting })

pub data LoadEvent : Type 0 where
  handled : Event → LoadEvent
  listed : ℕ → List Entry → LoadEvent
  list_failed : ℕ → LoadEvent
  answered : ℕ → ℕ → List Metric → LoadEvent
  answer_failed : ℕ → LoadEvent

unfoldable pub step : LoadEvent → State → State
unfolding handle list_answered statistics_answered
step (handled e) s = handle e s
step (listed i list) s = list_answered (get_elem? s.asked i) i list s
step (list_failed i) s = record s { asked = without_at i s.asked }
step (answered i now ms) s = statistics_answered (get_elem? s.waiting i) i now ms s
step (answer_failed i) s = record s { waiting = without_at i s.waiting }

unfoldable pub run : List LoadEvent → State → State
unfolding step
run [] s = s
run (e ∷ es) s = run es (step e s)

-- `createStyler`: a key and a colour for each service or rule. `none` is that it throws, as their
-- table is not there.
unfoldable pub create_styler : State → Option (List Entry)
create_styler s = if s.view.metric == "matched_rules" then s.rules else s.services
