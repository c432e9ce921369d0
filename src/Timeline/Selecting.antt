-- ===== src/Timeline/Selecting.antt =====
-- The delay of the selections in frontend/src/components/Timeline.js.
use caronte.Prelude.{
  ℕ, zero, suc, ◌-◌, sym, subst, ◌≡◌, refl, ap, ◌∙◌, Bool, true, false, not, List, [], ◌∷◌, ◌++◌,
  Option, none, some, Text, text, starts_with, ==_refl, if_both, ◌==◌, nat_comparable,
  string_comparable, list_comparable, option_comparable, if◌then◌else◌, ◌&&◌, ltb, leb, get_elem?,
  without_at,
}
use caronte.Timeline.Handlers.{
  choose_metric, TimeRange, Timer, State, start, clear_timeout, load_statistics,
  component_did_mount, statistics_loaded, handle_time_range_change, handle_selection_change,
  fire_timer, fire, update_within, filter_port, filter_rules, adjust_selection,
  handle_connection_updates, handle_connections_filters, handle_notifications,
  handle_pulse_timeline, end_pulse, Event, mounted, metric_chosen, loaded, time_range_changed,
  selection_changed, fired, connections_filtered, connection_updated, notified, pulsed, pulse_ended,
  step, run,
}

-- The specification: one selection waits at most, and a firing timer sends it.
pub record Delay : Type 0 where
  pub waiting : Option TimeRange
  pub sent : List TimeRange

unfoldable pub send_waiting : Delay → Delay
send_waiting d = elim d.waiting [
  | none ↦ d
  | some r ↦ record { waiting = none; sent = d.sent ++ r ∷ [] }
]

unfoldable pub delay_step : Event → Delay → Delay
unfolding send_waiting
delay_step (selection_changed r) d = record d { waiting = some r }
delay_step (fired zero) d = send_waiting d
delay_step _ d = d

unfoldable pub delay_run : List Event → Delay → Delay
delay_run [] d = d
delay_run (e ∷ es) d = delay_run es (delay_step e d)

-- The timers, the field for the last one, and the flag, where a selection waits or none.
abbrev pub Waits : Option TimeRange → List Timer → Option ℕ → Bool → Type 0
Waits none ts timeout flag = (ts ≡ []) × (timeout ≡ none) × (flag ≡ false)
Waits (some r) ts timeout flag =
    (i : ℕ) × (ts ≡ (record { id = i; time_range = r }) ∷ []) × (timeout ≡ some i) × (flag ≡ true)

-- The part of the state that the delay is about.
abbrev timing : State → List Timer × Option ℕ × Bool × List TimeRange
timing s = (s.pending, s.selection_timeout, s.disable_time_series_changes, s.updates)

abbrev Refines : List Timer × Option ℕ × Bool × List TimeRange → Delay → Type 0
Refines (ts, timeout, flag, updates) d = Waits d.waiting ts timeout flag × (updates ≡ d.sent)

cleared :
    (w : Option TimeRange) (ts : List Timer) (timeout : Option ℕ) (flag : Bool)
    → Waits w ts timeout flag
    → clear_timeout timeout ts ≡ []
cleared none ts timeout flag h = rw (h.0, h.1) refl
cleared (some r) ts timeout flag (i, h, g, k) = rw (h, g, ==_refl i) refl

selection_changed-Refines :
    (r : TimeRange) (s : State) (d : Delay)
    → Refines (timing s) d
    → Refines (timing (handle_selection_change r s)) (delay_step (selection_changed r) d)
unfolding handle_selection_change delay_step
selection_changed-Refines r s d (w, e) = (
  (
    s.next_id,
    ap (◌++ ((record { id = s.next_id; time_range = r }) ∷ []))
        (cleared d.waiting s.pending s.selection_timeout s.disable_time_series_changes w),
    refl,
    refl,
  ),
  e,
)

-- A timer fires that is there, or none does.
fired_waits :
    (w : Option TimeRange) (i : ℕ) (s : State) (ts : List Timer) (sent : List TimeRange)
    → s.pending ≡ ts
    → Waits w ts s.selection_timeout s.disable_time_series_changes
    → s.updates ≡ sent
    → Refines
        (timing (fire_timer (get_elem? ts i) i s))
        (delay_step (fired i) (record { waiting = w; sent = sent }))
unfolding fire_timer delay_step send_waiting
fired_waits none zero s ts sent p (h, g, k) e = rw h ((p ∙ h, g, k), e)
fired_waits none (suc i) s ts sent p (h, g, k) e = rw h ((p ∙ h, g, k), e)
fired_waits (some r) zero s ts sent p (j, h, g, k) e =
    rw h ((ap (without_at 0) (p ∙ h), refl, refl), ap (◌++ (r ∷ [])) e)
fired_waits (some r) (suc i) s ts sent p (j, h, g, k) e = rw h ((j, p ∙ h, g, k), e)

kept : (t s : State) (d : Delay) → timing t ≡ timing s → Refines (timing s) d → Refines (timing t) d
kept t s d e v = subst (λ x. Refines x d) (sym e) v

module _ (s : State) where
  notified-timing : (e : Text) → timing (handle_notifications e s) ≡ timing s
  unfolding handle_notifications load_statistics
  notified-timing e =
      let same : State → Type 0 = λ t. timing t ≡ timing s in
      let by_pcap : State = if e == text "pcap.completed" then load_statistics s else s in
      let by_rules : State =
        if starts_with e (text "rules") && s.metric == "matched_rules"
        then load_statistics s
        else by_pcap in
      if_both same (e == text "services.edit" && not (s.metric == "matched_rules"))
        (load_statistics s) by_rules refl
        (if_both same (starts_with e (text "rules") && s.metric == "matched_rules")
          (load_statistics s) by_pcap refl
          (if_both same (e == text "pcap.completed") (load_statistics s) s refl refl))

  port-timing : (p : Option (Option Text)) → timing (filter_port p s) ≡ timing s
  unfolding filter_port load_statistics
  port-timing none = refl
  port-timing (some p) =
      if_both (λ (t : State). timing t ≡ timing s) (s.service_port_filter == p) s
        (load_statistics (record s { service_port_filter = p })) refl refl

  rules-timing : (rs : Option (List Text)) → timing (filter_rules rs s) ≡ timing s
  unfolding filter_rules load_statistics
  rules-timing none = refl
  rules-timing (some rs) = refl

  updated-timing : (o : Option TimeRange) (p : TimeRange) → timing (update_within o p s) ≡ timing s
  unfolding update_within adjust_selection
  updated-timing none p = refl
  updated-timing (some r) p =
      if_both (λ (t : State). timing t ≡ timing s)
        (leb r.begin p.begin && (ltb p.begin p.end && leb p.end r.end))
        (adjust_selection r p (record s { selection = some p })) s refl refl

  range-timing : (r : TimeRange) → timing (handle_time_range_change r s) ≡ timing s
  unfolding handle_time_range_change
  range-timing r =
      if_both (λ (t : State). timing t ≡ timing s) (not s.disable_time_series_changes)
        (record s { time_range = some r }) s refl refl

  pulse-timing : timing (end_pulse s) ≡ timing s
  unfolding end_pulse
  pulse-timing =
      if_both (λ (t : State). timing t ≡ timing s) (s.pulses == 0) s
        (record s { pulse_timeline = false; pulses = s.pulses - 1 }) refl refl

step-Refines :
    (e : Event) (s : State) (d : Delay)
    → Refines (timing s) d
    → Refines (timing (step e s)) (delay_step e d)
unfolding step delay_step choose_metric component_did_mount statistics_loaded load_statistics
    handle_connection_updates handle_connections_filters handle_pulse_timeline fire
step-Refines (mounted p rs) s d v = v
step-Refines (metric_chosen m) s d v = v
step-Refines (loaded m r) s d v = v
step-Refines (time_range_changed r) s d v =
    kept (handle_time_range_change r s) s d (range-timing s r) v
step-Refines (selection_changed r) s d v = selection_changed-Refines r s d v
step-Refines (fired i) s d v = fired_waits d.waiting i s s.pending d.sent refl v.0 v.1
step-Refines (connections_filtered p rs) s d v =
    kept (handle_connections_filters p rs s) s d
      (rules-timing (filter_port p s) rs ∙ port-timing s p) v
step-Refines (connection_updated r) s d v =
    kept (handle_connection_updates r s) s d (updated-timing s s.series r) v
step-Refines (notified e) s d v = kept (handle_notifications e s) s d (notified-timing s e) v
step-Refines pulsed s d v = v
step-Refines pulse_ended s d v = kept (end_pulse s) s d (pulse-timing s) v

run-Refines :
    (es : List Event) (s : State) (d : Delay)
    → Refines (timing s) d
    → Refines (timing (run es s)) (delay_run es d)
unfolding run delay_run
run-Refines [] s d v = v
run-Refines (e ∷ es) s d v = run-Refines es (step e s) (delay_step e d) (step-Refines e s d v)

-- The range after a change by the chart: no change while a selection waits.
abbrev pub changed_range : Option TimeRange → TimeRange → Option TimeRange → Option TimeRange
changed_range none r old = some r
changed_range (some waiting) r old = old

time_range_changed-range :
    (w : Option TimeRange) (r : TimeRange) (s : State)
    → Waits w s.pending s.selection_timeout s.disable_time_series_changes
    → (step (time_range_changed r) s).time_range ≡ changed_range w r s.time_range
unfolding step handle_time_range_change
time_range_changed-range none r s (h, g, k) = rw (k, handle_time_range_change) refl
time_range_changed-range (some q) r s (i, h, g, k) = rw (k, handle_time_range_change) refl

-- After any history, the selections that were sent are those of the delay that keeps only the last
-- selection and sends it when its timer fires, and what waits is a single timer with the last
-- selection, or none; a change of the range by the chart then leaves the range as it is if a
-- selection waits, and is taken over if none does.
pub run-delay :
    (es : List Event) (r : TimeRange)
    → let s = run es start in
      let d = delay_run es (record { waiting = none; sent = [] }) in
      (s.updates ≡ d.sent)
      × Waits d.waiting s.pending s.selection_timeout s.disable_time_series_changes
      × ((step (time_range_changed r) s).time_range ≡ changed_range d.waiting r s.time_range)
run-delay es r =
    let d = delay_run es (record { waiting = none; sent = [] }) in
    let v =
      run-Refines es start (record { waiting = none; sent = [] }) ((refl, refl, refl), refl) in
    (v.1, v.0, time_range_changed-range d.waiting r (run es start) v.0)
