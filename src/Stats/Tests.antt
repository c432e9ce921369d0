-- ===== src/Stats/Tests.antt =====
-- Two services, and a server whose resources are refused, in
-- frontend/src/components/panels/StatsPane.js, with the theorems at them.
use caronte.Prelude.{◌≡◌, refl, List, [], map, ◌∷◌, none, Text, text}
use caronte.Stats.{
  Totals, start, Event, mounted, notified, three_seconds, resources_answered, refusal, run,
  zero_row, service_row, services_stats, render_resources, occurrences, stats,
}
use caronte.Stats.Sums.{sum_row, services_stats-totals}
use caronte.Stats.Rendering.{render_resources-run}

abbrev two_ports : List Text
two_ports = text "22" ∷ text "80" ∷ []

abbrev two_services : Totals
two_services = record {
  connections_per_service = (text "22", 3) ∷ (text "80", 4) ∷ [];
  client_bytes_per_service = (text "22", 10) ∷ (text "80", 20) ∷ [];
  server_bytes_per_service = (text "22", 5) ∷ (text "80", 7) ∷ [];
  total_bytes_per_service = (text "22", 15) ∷ (text "80", 27) ∷ [];
  duration_per_service = (text "22", 1) ∷ [];
  matched_rules = (text "a", 2) ∷ [];
}

services_stats-totals_example :
    services_stats two_services two_ports zero_row
    ≡ (map (λ p. (p, service_row two_services p)) two_ports, sum_row two_services two_ports)
services_stats-totals_example = services_stats-totals two_services two_ports

abbrev refused_load : List Event
refused_load =
    mounted ∷ notified (text "pcap.completed") ∷ resources_answered refusal ∷ three_seconds ∷ []

render-refused_load : render_resources (run refused_load start).resources ≡ none
render-refused_load = (render_resources-run refused_load).1 tt

occurrences-rules :
    (occurrences (stats two_services) (record { id = text "a"; name = text "flag" }) ≡ 2)
    × (occurrences (stats two_services) (record { id = text "b"; name = text "ssh" }) ≡ 0)
unfolding occurrences
occurrences-rules = (refl, refl)
