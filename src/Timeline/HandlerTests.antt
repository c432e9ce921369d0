-- ===== src/Timeline/HandlerTests.antt =====
-- Selections in frontend/src/components/Timeline.js, and the theorems at them.
use caronte.Prelude.{◌≡◌, refl, List, [], ◌∷◌, none, some, text}
use caronte.Utils.Params.{append_all}
use caronte.Timeline.Handlers.{
  TimeRange, State, start, Event, mounted, loaded, time_range_changed, selection_changed, fired,
  connection_updated, step, run, handle_connection_updates, statistics_params,
}
use caronte.Timeline.Selecting.{Waits, delay_run, delay_step, run-delay}
use caronte.Timeline.Zoom.{Shown, handle_connection_updates-Shown}

abbrev hour : TimeRange
hour = record { begin = 1000; end = 4600 }

abbrev minute : TimeRange
minute = record { begin = 1300; end = 1360 }

abbrev instant : TimeRange
instant = record { begin = 1310; end = 1311 }

abbrev choosing : List Event
choosing =
    mounted none []
    ∷ loaded "connections_per_service" hour
    ∷ selection_changed minute
    ∷ time_range_changed instant
    ∷ selection_changed instant
    ∷ fired 0
    ∷ selection_changed hour
    ∷ []

run-delay_example :
    let s = run choosing start in
    (s.updates ≡ instant ∷ [])
    × Waits (some hour) s.pending s.selection_timeout s.disable_time_series_changes
    × ((step (time_range_changed instant) s).time_range ≡ s.time_range)
unfolding delay_run delay_step
run-delay_example = run-delay choosing instant

abbrev loaded_hour : State
loaded_hour = record start { series = some hour; time_range = some hour }

handle_connection_updates-Shown_example :
    Shown (some hour) instant loaded_hour (handle_connection_updates instant loaded_hour)
handle_connection_updates-Shown_example = handle_connection_updates-Shown loaded_hour instant

-- The padding is 24 times the length before the selection and 8 times behind it.
run-zoom :
    (run (connection_updated instant ∷ []) loaded_hour).time_range
    ≡ some (record { begin = 1286; end = 1319 })
unfolding run step handle_connection_updates
run-zoom = refl

-- A filtered port that is a service is the only column.
statistics_params-port :
    statistics_params "duration_per_service"
      (record start { service_port_filter = some (text "80") })
      []
      (text "22" ∷ text "80" ∷ [])
    ≡ ("metric", text "duration_per_service") ∷ ("ports", text "80") ∷ []
unfolding statistics_params append_all
statistics_params-port = refl
