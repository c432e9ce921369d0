-- ===== src/Timeline/Handlers.antt =====
-- The state and the handlers of frontend/src/components/Timeline.js. A time is a number of
-- milliseconds since the least one that a `Date` can hold; a load is counted when it starts, with its metric. Timers wait in `pending`, and
-- `pulses` counts those that end a pulse. `updates` is the history of `timeline_updates`.
use caronte.Prelude.{
  ℕ, ◌+◌, ◌-◌, ◌*◌, Bool, true, false, not, ◌&&◌, List, [], ◌∷◌, ◌++◌, Option, none, some, filter,
  any, get_elem?, without_at, String, Text, text, starts_with, ltb, leb, ◌==◌, nat_comparable,
  string_comparable, list_comparable, option_comparable, if◌then◌else◌,
}
use caronte.Utils.Params.{Params, append_all}

abbrev pub left_selection_padding_multiplier : ℕ
left_selection_padding_multiplier = 24

abbrev pub right_selection_padding_multiplier : ℕ
right_selection_padding_multiplier = 8

pub record TimeRange : Type 0 where
  pub begin : ℕ
  pub end : ℕ

pub record Timer : Type 0 where
  pub id : ℕ
  pub time_range : TimeRange

-- `series` is the range of the series, which is also `start` and `end` of the state.
pub record State : Type 0 where
  pub metric : String
  pub service_port_filter : Option Text
  pub matched_rules_filter : List Text
  pub series : Option TimeRange
  pub time_range : Option TimeRange
  pub selection : Option TimeRange
  pub disable_time_series_changes : Bool
  pub selection_timeout : Option ℕ
  pub pending : List Timer
  pub next_id : ℕ
  pub updates : List TimeRange
  pub pulse_timeline : Bool
  pub pulses : ℕ
  pub loads : List String

abbrev pub start : State
start = record {
  metric = "connections_per_service";
  service_port_filter = none;
  matched_rules_filter = [];
  series = none;
  time_range = none;
  selection = none;
  disable_time_series_changes = false;
  selection_timeout = none;
  pending = [];
  next_id = 1;
  updates = [];
  pulse_timeline = false;
  pulses = 0;
  loads = [];
}

unfoldable pub load_statistics : State → State
load_statistics s = record s { loads = s.loads ++ s.metric ∷ [] }

-- A metric is chosen in the menu.
unfoldable pub choose_metric : String → State → State
choose_metric metric s = record s { loads = s.loads ++ metric ∷ [] }

unfoldable pub component_did_mount : Option Text → List Text → State → State
unfolding load_statistics
component_did_mount service_port matched_rules s =
    load_statistics
      (record s { service_port_filter = service_port; matched_rules_filter = matched_rules })

-- What `loadStatistics` asks for: the columns, and the parameters of the request. `rules` are the
-- identifiers, and `services` the ports, of the backend's; a port is no empty text.
unfoldable pub statistics_columns : String → State → List Text → List Text → List Text
statistics_columns metric s rules services =
    if metric == "matched_rules"
    then (if s.matched_rules_filter == [] then rules else s.matched_rules_filter)
    else elim s.service_port_filter [
      | none ↦ services
      | some p ↦ if any (λ q. q == p) services then p ∷ [] else services
    ]

unfoldable pub statistics_params : String → State → List Text → List Text → Params
unfolding statistics_columns
statistics_params metric s rules services =
    let named : Params = ("metric", text metric) ∷ [] in
    if metric == "matched_rules"
    then append_all "rules_ids" s.matched_rules_filter named
    else append_all "ports" (statistics_columns metric s rules services) named

-- The end of `loadStatistics`, with the range of the new series.
unfoldable pub statistics_loaded : String → TimeRange → State → State
statistics_loaded metric r s = record s { metric = metric; series = some r; time_range = some r }

unfoldable pub handle_time_range_change : TimeRange → State → State
handle_time_range_change r s =
    if not s.disable_time_series_changes then record s { time_range = some r } else s

-- `clearTimeout`, where there is a timer.
abbrev pub clear_timeout : Option ℕ → List Timer → List Timer
clear_timeout none ts = ts
clear_timeout (some i) ts = filter (λ (t : Timer). not (t.id == i)) ts

unfoldable pub handle_selection_change : TimeRange → State → State
handle_selection_change r s =
    let timer : Timer = record { id = s.next_id; time_range = r } in
    record s {
      disable_time_series_changes = true;
      selection = some r;
      selection_timeout = some s.next_id;
      pending = clear_timeout s.selection_timeout s.pending ++ timer ∷ [];
      next_id = s.next_id + 1;
    }

-- The timer at a place fires, if there is one.
unfoldable pub fire_timer : Option Timer → ℕ → State → State
fire_timer none i s = s
fire_timer (some t) i s = record s {
  pending = without_at i s.pending;
  updates = s.updates ++ t.time_range ∷ [];
  selection_timeout = none;
  disable_time_series_changes = false;
}

unfoldable pub fire : ℕ → State → State
unfolding fire_timer
fire i s = fire_timer (get_elem? s.pending i) i s

-- The selection with its paddings, as far as the series reaches. A start before the least time is
-- before the series as well, so it may stop there.
unfoldable pub adjusted : TimeRange → TimeRange → TimeRange
adjusted series selection =
    let delta = selection.end - selection.begin in
    let from = selection.begin - delta * left_selection_padding_multiplier in
    let to = selection.end + delta * right_selection_padding_multiplier in
    record {
      begin = if leb series.begin from then from else series.begin;
      end = if leb to series.end then to else series.end;
    }

unfoldable pub adjust_selection : TimeRange → TimeRange → State → State
unfolding adjusted
adjust_selection series selection s = record s { time_range = some (adjusted series selection) }

-- A comparison with a range that is not there is false.
unfoldable pub update_within : Option TimeRange → TimeRange → State → State
unfolding adjust_selection
update_within none p s = s
update_within (some r) p s =
    if leb r.begin p.begin && (ltb p.begin p.end && leb p.end r.end)
    then adjust_selection r p (record s { selection = some p })
    else s

unfoldable pub handle_connection_updates : TimeRange → State → State
unfolding update_within
handle_connection_updates p s = update_within s.series p s

-- An entry of the payload, where it is there: for the port, which is null or its text, and for the
-- rules. Two payloads never have the same array.
unfoldable pub filter_port : Option (Option Text) → State → State
unfolding load_statistics
filter_port none s = s
filter_port (some p) s =
    if s.service_port_filter == p then s else load_statistics (record s { service_port_filter = p })

unfoldable pub filter_rules : Option (List Text) → State → State
unfolding load_statistics
filter_rules none s = s
filter_rules (some rs) s = load_statistics (record s { matched_rules_filter = rs })

unfoldable pub handle_connections_filters :
    Option (Option Text) → Option (List Text) → State → State
unfolding filter_port filter_rules
handle_connections_filters service_port matched_rules s =
    filter_rules matched_rules (filter_port service_port s)

unfoldable pub handle_notifications : Text → State → State
unfolding load_statistics
handle_notifications event s =
    if event == text "services.edit" && not (s.metric == "matched_rules")
    then load_statistics s
    else if starts_with event (text "rules") && s.metric == "matched_rules"
    then load_statistics s
    else if event == text "pcap.completed"
    then load_statistics s
    else s

unfoldable pub handle_pulse_timeline : State → State
handle_pulse_timeline s = record s { pulse_timeline = true; pulses = s.pulses + 1 }

unfoldable pub end_pulse : State → State
end_pulse s =
    if s.pulses == 0 then s else record s { pulse_timeline = false; pulses = s.pulses - 1 }

pub data Event : Type 0 where
  mounted : Option Text → List Text → Event
  metric_chosen : String → Event
  loaded : String → TimeRange → Event
  time_range_changed : TimeRange → Event
  selection_changed : TimeRange → Event
  fired : ℕ → Event
  connections_filtered : Option (Option Text) → Option (List Text) → Event
  connection_updated : TimeRange → Event
  notified : Text → Event
  pulsed : Event
  pulse_ended : Event

unfoldable pub step : Event → State → State
unfolding component_did_mount choose_metric statistics_loaded handle_time_range_change
    handle_selection_change fire handle_connections_filters handle_connection_updates
    handle_notifications handle_pulse_timeline end_pulse
step (mounted p rs) s = component_did_mount p rs s
step (metric_chosen m) s = choose_metric m s
step (loaded m r) s = statistics_loaded m r s
step (time_range_changed r) s = handle_time_range_change r s
step (selection_changed r) s = handle_selection_change r s
step (fired i) s = fire i s
step (connections_filtered p rs) s = handle_connections_filters p rs s
step (connection_updated r) s = handle_connection_updates r s
step (notified e) s = handle_notifications e s
step pulsed s = handle_pulse_timeline s
step pulse_ended s = end_pulse s

unfoldable pub run : List Event → State → State
run [] s = s
run (e ∷ es) s = run es (step e s)
