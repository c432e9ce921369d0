-- ===== src/Timeline/LoadingTests.antt =====
-- Loads of frontend/src/components/Timeline.js at concrete inputs, and the theorems on them.
use caronte.Prelude.{◌+◌, ◌*◌, ◌≡◌, refl, List, [], ◌∷◌, none, some, text, arith}
use caronte.Timeline.Handlers.{TimeRange, mounted, metric_chosen, notified}
use caronte.Timeline.Series.{epoch, minutes, Metric, last_start}
use caronte.Timeline.Loading.{
  Entry, start, LoadEvent, handled, listed, answered, run, create_styler,
}
use caronte.Timeline.Loading.Styles.{run-create_styler}
use caronte.Timeline.Loading.Chart.{IsChart, run-IsChart}
use caronte.Timeline.Loading.Order.{IsAnswer, last_metric, run-last_metric}
use caronte.Timeline.Loading.Warnings.{IsSpaced, run-IsSpaced}

abbrev web : Entry
web = record { key = text "80"; color = text "#fff" }

abbrev flag : Entry
flag = record { key = text "rule"; color = text "#f00" }

-- Two entries, more than a day apart, and one entry.
abbrev days : List Metric
days =
    record { range_start = epoch + 2 * minutes; values = some ((text "80", 7) ∷ []) }
    ∷ record { range_start = epoch + 2000 * minutes; values = none }
    ∷ []

abbrev single : List Metric
single = record { range_start = epoch + 5 * minutes; values = none } ∷ []

-- The chart is mounted, and another metric is chosen before the first is there.
abbrev choosing : List LoadEvent
choosing =
    handled (mounted none [])
    ∷ handled (metric_chosen "matched_rules")
    ∷ listed 0 (web ∷ [])
    ∷ listed 0 (flag ∷ [])
    ∷ answered 0 (epoch + 9) single
    ∷ answered 0 (epoch + 10) single
    ∷ []

-- The same, with the answers for the statistics the other way round.
abbrev overtaken : List LoadEvent
overtaken =
    handled (mounted none [])
    ∷ handled (metric_chosen "matched_rules")
    ∷ listed 0 (web ∷ [])
    ∷ listed 0 (flag ∷ [])
    ∷ answered 1 (epoch + 9) single
    ∷ answered 0 (epoch + 10) single
    ∷ []

-- A pcap is completed between the choice and its answer.
abbrev notified_between : List LoadEvent
notified_between =
    handled (mounted none [])
    ∷ listed 0 (web ∷ [])
    ∷ answered 0 (epoch + 9) single
    ∷ handled (metric_chosen "matched_rules")
    ∷ handled (notified (text "pcap.completed"))
    ∷ listed 0 (flag ∷ [])
    ∷ listed 0 (web ∷ [])
    ∷ answered 0 (epoch + 9) single
    ∷ answered 0 (epoch + 10) single
    ∷ []

choosing-metric : (run choosing start).view.metric ≡ "matched_rules"
unfolding run
choosing-metric = refl

-- An answer that comes late takes the place of the metric that was chosen after it.
overtaken-metric : (run overtaken start).view.metric ≡ "connections_per_service"
unfolding run
overtaken-metric = refl

-- A reload asks for the metric that is shown, and so the one that was chosen is lost.
notified_between-metric : (run notified_between start).view.metric ≡ "connections_per_service"
unfolding run
notified_between-metric = refl

abbrev large : List LoadEvent
large =
    handled (mounted none [])
    ∷ handled (notified (text "pcap.completed"))
    ∷ handled (notified (text "pcap.completed"))
    ∷ listed 0 (web ∷ [])
    ∷ listed 0 (web ∷ [])
    ∷ listed 0 (web ∷ [])
    ∷ answered 0 (epoch + 9) days
    ∷ answered 0 (epoch + 60009) days
    ∷ answered 0 (epoch + 60010) days
    ∷ []

large-warned : (run large start).warned ≡ (epoch + 60010) ∷ (epoch + 9) ∷ []
unfolding run
large-warned = refl

run-IsSpaced_example : IsSpaced (run large start).warned
run-IsSpaced_example = run-IsSpaced large

abbrev shown : TimeRange
shown = record { begin = epoch + 4 * minutes; end = epoch + 6 * minutes }

choosing-shown : (run choosing start).view.series ≡ some shown
unfolding run
choosing-shown = refl

run-create_styler_example :
    (styles : List Entry) × (create_styler (run choosing start) ≡ some styles)
run-create_styler_example = run-create_styler choosing choosing-shown

run-IsChart_example :
    IsChart
      (run choosing start).view.series
      (run choosing start).columns
      (run choosing start).points
run-IsChart_example = run-IsChart choosing

choosing-asked : (run choosing start).asked ≡ []
unfolding run
choosing-asked = refl

choosing-waiting : (run choosing start).waiting ≡ []
unfolding run
choosing-waiting = refl

single-IsAnswer : IsAnswer single
unfolding last_start
single-IsAnswer = (omega arith, omega arith)

run-last_metric_example :
    (run choosing start).view.metric ≡ last_metric (run choosing start).view.loads
run-last_metric_example =
    run-last_metric choosing (refl, (refl, (refl, single-IsAnswer, (refl, single-IsAnswer, tt))))
      choosing-asked choosing-waiting
