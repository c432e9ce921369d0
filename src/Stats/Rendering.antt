-- ===== src/Stats/Rendering.antt =====
-- What frontend/src/components/panels/StatsPane.js renders of the resources of the server.
use caronte.Prelude.{
  ◌+◌, ◌≤◌, ◌≡◌, ◌↔◌, refl, ◌∙◌, ap, List, [], ◌∷◌, none, Text, text, length, starts_with,
  if◌then◌else◌, if_both, arith,
}
use caronte.Stats.{
  Cpu, SystemStats, Answer, absent, refusal, stats, State, start, load_stats, load_resources_stats,
  load_rules, component_did_mount, handle_notifications, Event, mounted, notified, three_seconds,
  stats_answered, resources_answered, rules_answered, step, run, cpu_rows, cpu_stats, memory_rows,
  render_resources,
}

-- The last answer about the resources.
abbrev pub last_resources : List Event → Answer SystemStats → Answer SystemStats
last_resources [] a = a
last_resources (resources_answered r ∷ es) a = last_resources es r
last_resources (_ ∷ es) a = last_resources es a

notified-resources : (e : Text) (s : State) → (handle_notifications e s).resources ≡ s.resources
unfolding handle_notifications load_stats load_rules
notified-resources e s =
    if_both (λ (t : State). t.resources ≡ s.resources) (starts_with e (text "pcap")) (load_stats s)
      (if starts_with e (text "rules") then load_rules s else s) refl
      (if_both (λ (t : State). t.resources ≡ s.resources) (starts_with e (text "rules"))
        (load_rules s) s refl refl)

run-resources : (es : List Event) (s : State) → (run es s).resources ≡ last_resources es s.resources
unfolding run step component_did_mount load_stats load_resources_stats load_rules
run-resources [] s = refl
run-resources (mounted ∷ es) s = run-resources es (step mounted s)
run-resources (notified e ∷ es) s =
    run-resources es (handle_notifications e s) ∙ ap (last_resources es) (notified-resources e s)
run-resources (three_seconds ∷ es) s = run-resources es (step three_seconds s)
run-resources (stats_answered a ∷ es) s = run-resources es (step (stats_answered a) s)
run-resources (resources_answered a ∷ es) s = run-resources es (step (resources_answered a) s)
run-resources (rules_answered rs ∷ es) s = run-resources es (step (rules_answered rs) s)

cpu_rows-length :
    (cs : List Cpu) (ps : List Text)
    → (cpu_rows cs ps ≡ none → length ps + 1 ≤ length cs)
      × (length ps + 1 ≤ length cs → cpu_rows cs ps ≡ none)
unfolding cpu_rows
cpu_rows-length [] ps = ground arith
cpu_rows-length (c ∷ cs) [] = ground arith
cpu_rows-length (c ∷ cs) (p ∷ ps) = ground (arith, cpu_rows-length cs ps)

-- When rendering an answer throws.
abbrev pub Throws : Answer SystemStats → Type 0
Throws absent = ⊥
Throws refusal = Unit
Throws (stats r) = length r.cpu_percents + 1 ≤ length r.cpu_times

render_resources-Throws : (a : Answer SystemStats) → (render_resources a ≡ none) ↔ Throws a
unfolding render_resources cpu_stats memory_rows
render_resources-Throws absent = ground arith
render_resources-Throws refusal = ground arith
render_resources-Throws (stats r) = ground (arith, cpu_rows-length r.cpu_times r.cpu_percents)

-- After any history, rendering the resources throws exactly if the last answer about them was a
-- refusal, or had fewer percentages than processors.
pub render_resources-run :
    (es : List Event)
    → (render_resources (run es start).resources ≡ none) ↔ Throws (last_resources es absent)
render_resources-run es =
    rw (run-resources es start) (render_resources-Throws (last_resources es absent))
