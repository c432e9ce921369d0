-- ===== src/Timeline/Loading/Kept.antt =====
-- The handlers of frontend/src/components/Timeline.js leave the chart as it is.
use caronte.Prelude.{
  ℕ, ◌≡◌, refl, sym, ap, ◌∙◌, not, ◌-◌, nat_comparable, false, List, [], ◌∷◌, ◌++◌, append-nil,
  append_assoc, list_comparable, option_comparable, text, starts_with, ◌&&◌, Option, none, some,
  get_elem?, String, Text, ◌==◌, string_comparable, if◌then◌else◌, if_both, arith,
}
use caronte.Timeline.Handlers.{
  TimeRange, Event, mounted, metric_chosen, loaded, time_range_changed, selection_changed, fired,
  connections_filtered, connection_updated, notified, pulsed, pulse_ended,
}
use caronte.Timeline.Handlers
use caronte.Timeline.Loading.{handler_step}

-- No handler changes the metric or the series.
abbrev pub Kept : Handlers.State → Handlers.State → Type 0
Kept v w = (w.metric ≡ v.metric) × (w.series ≡ v.series)

update-Kept :
    (o : Option TimeRange) (r : TimeRange) (v : Handlers.State)
    → Kept v (Handlers.update_within o r v)
unfolding Handlers.update_within Handlers.adjust_selection
update-Kept none r v = (refl, refl)
update-Kept (some p) r v = if_both (Kept v) _ _ v (refl, refl) (refl, refl)

fire-Kept :
    (o : Option Handlers.Timer) (i : ℕ) (v : Handlers.State) → Kept v (Handlers.fire_timer o i v)
unfolding Handlers.fire_timer
fire-Kept none i v = (refl, refl)
fire-Kept (some t) i v = (refl, refl)

port-Kept : (o : Option (Option Text)) (v : Handlers.State) → Kept v (Handlers.filter_port o v)
unfolding Handlers.filter_port Handlers.load_statistics
port-Kept none v = (refl, refl)
port-Kept (some p) v = if_both (Kept v) _ v _ (refl, refl) (refl, refl)

rules-Kept : (o : Option (List Text)) (v : Handlers.State) → Kept v (Handlers.filter_rules o v)
unfolding Handlers.filter_rules Handlers.load_statistics
rules-Kept none v = (refl, refl)
rules-Kept (some rs) v = (refl, refl)

notify-Kept : (e : Text) (v : Handlers.State) → Kept v (Handlers.handle_notifications e v)
unfolding Handlers.handle_notifications Handlers.load_statistics
notify-Kept e v = ground arith

pub handler-Kept : (e : Event) (v : Handlers.State) → Kept v (handler_step e v)
unfolding handler_step Handlers.step Handlers.component_did_mount Handlers.load_statistics
    Handlers.choose_metric Handlers.handle_selection_change Handlers.handle_time_range_change
    Handlers.fire Handlers.handle_connections_filters Handlers.handle_connection_updates
    Handlers.handle_notifications Handlers.handle_pulse_timeline Handlers.end_pulse
handler-Kept (mounted p rs) v = (refl, refl)
handler-Kept (metric_chosen m) v = (refl, refl)
handler-Kept (loaded m r) v = (refl, refl)
handler-Kept (time_range_changed r) v =
    if_both (Kept v) (not v.disable_time_series_changes) (record v { time_range = some r }) v
      (refl, refl) (refl, refl)
handler-Kept (selection_changed r) v = (refl, refl)
handler-Kept (fired i) v = fire-Kept (get_elem? v.pending i) i v
handler-Kept (connections_filtered p rs) v =
    let (m, s) = rules-Kept rs (Handlers.filter_port p v) in
    let (m', s') = port-Kept p v in (m ∙ m', s ∙ s')
handler-Kept (connection_updated r) v = update-Kept v.series r v
handler-Kept (notified e) v = notify-Kept e v
handler-Kept pulsed v = (refl, refl)
handler-Kept pulse_ended v =
    if_both (Kept v) (v.pulses == 0) v (record v { pulse_timeline = false; pulses = v.pulses - 1 })
      (refl, refl) (refl, refl)

-- A handler adds loads to those before.
abbrev pub Added : List String → List String → Type 0
Added xs ys = (new : List String) × (ys ≡ xs ++ new)

abbrev pub Extends : Handlers.State → Handlers.State → Type 0
Extends v w = Added v.loads w.loads

Added-none : {xs ys : List String} → ys ≡ xs → Added xs ys
Added-none {xs} e = ([], e ∙ sym (append-nil xs))

update-loads :
    (o : Option TimeRange) (r : TimeRange) (v : Handlers.State)
    → (Handlers.update_within o r v).loads ≡ v.loads
unfolding Handlers.update_within Handlers.adjust_selection
update-loads none r v = refl
update-loads (some p) r v = if_both (λ (w : Handlers.State). w.loads ≡ v.loads) _ _ v refl refl

fire-loads :
    (o : Option Handlers.Timer) (i : ℕ) (v : Handlers.State)
    → (Handlers.fire_timer o i v).loads ≡ v.loads
unfolding Handlers.fire_timer
fire-loads none i v = refl
fire-loads (some t) i v = refl

port-Extends :
    (o : Option (Option Text)) (v : Handlers.State) → Extends v (Handlers.filter_port o v)
unfolding Handlers.filter_port Handlers.load_statistics
port-Extends none v = Added-none refl
port-Extends (some p) v =
    if_both (Extends v) (v.service_port_filter == p) v
      (Handlers.load_statistics (record v { service_port_filter = p })) (Added-none refl)
      (v.metric ∷ [], refl)

rules-Extends :
    (o : Option (List Text)) (v : Handlers.State) → Extends v (Handlers.filter_rules o v)
unfolding Handlers.filter_rules Handlers.load_statistics
rules-Extends none v = Added-none refl
rules-Extends (some rs) v = (v.metric ∷ [], refl)

notify-Extends : (e : Text) (v : Handlers.State) → Extends v (Handlers.handle_notifications e v)
unfolding Handlers.handle_notifications Handlers.load_statistics
notify-Extends e v =
    let loading = Handlers.load_statistics v in
    let loads : Extends v loading = (v.metric ∷ [], refl) in
    if_both (Extends v) (e == text "services.edit" && not (v.metric == "matched_rules")) loading
      (if starts_with e (text "rules") && v.metric == "matched_rules"
        then loading
        else if e == text "pcap.completed"
        then loading
        else v)
      loads
      (if_both (Extends v) (starts_with e (text "rules") && v.metric == "matched_rules") loading
        (if e == text "pcap.completed" then loading else v) loads
        (if_both (Extends v) (e == text "pcap.completed") loading v loads (Added-none refl)))

pub handler-Extends : (e : Event) (v : Handlers.State) → Extends v (handler_step e v)
unfolding handler_step Handlers.step Handlers.component_did_mount Handlers.load_statistics
    Handlers.choose_metric Handlers.handle_selection_change Handlers.handle_time_range_change
    Handlers.fire Handlers.handle_connections_filters Handlers.handle_connection_updates
    Handlers.handle_pulse_timeline Handlers.end_pulse
handler-Extends (mounted p rs) v = (v.metric ∷ [], refl)
handler-Extends (metric_chosen m) v = (m ∷ [], refl)
handler-Extends (loaded m r) v = Added-none refl
handler-Extends (time_range_changed r) v =
    if_both (Extends v) (not v.disable_time_series_changes) (record v { time_range = some r }) v
      (Added-none refl) (Added-none refl)
handler-Extends (selection_changed r) v = Added-none refl
handler-Extends (fired i) v = Added-none (fire-loads (get_elem? v.pending i) i v)
handler-Extends (connections_filtered p rs) v =
    let (new, e) = port-Extends p v in
    let (new', e') = rules-Extends rs (Handlers.filter_port p v) in
    (new ++ new', e' ∙ ap (◌++ new') e ∙ append_assoc v.loads new new')
handler-Extends (connection_updated r) v = Added-none (update-loads v.series r v)
handler-Extends (notified e) v = notify-Extends e v
handler-Extends pulsed v = Added-none refl
handler-Extends pulse_ended v =
    if_both (Extends v) (v.pulses == 0) v
      (record v { pulse_timeline = false; pulses = v.pulses - 1 }) (Added-none refl)
      (Added-none refl)
