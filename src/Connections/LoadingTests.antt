-- ===== src/Connections/LoadingTests.antt =====
-- A pane of frontend/src/components/panels/ConnectionsPane.js over numbered connections, and the
-- theorems on its loads at it.
use caronte.Prelude.{ℕ, ◌≤◌, ◌≡◌, refl, true, false, List, [], ◌∷◌, none, text, length, arith}
use caronte.Utils.Numbers.{to_text}
use caronte.Utils.Params.{Params}
use caronte.Connections.Window.{empty_window, max_connections, merge}
use caronte.Connections.Loading.{
  Pane, query_limit, for_rules, component_did_mount, rules_come, load_connections,
  handle_timeline_updates, connections_come, services_come, Load, for_services, for_connections,
}
use caronte.Connections.Loading.Steps.{
  gets_rules, gets_services, gets_connections, timeline, first, later, Reach, here, next_step,
}
use caronte.Connections.Loading.Limits.{Reach-limit}

abbrev fresh : Pane ℕ
fresh = record {
  window = empty_window;
  loading = false;
  url_params = [];
  rules = true;
  services = true;
  show_more_recent_button = false;
  disable_scroll_handler = false;
  last_scroll_position = 0;
  query_string_redirect = false;
  loads = [];
}

abbrev answer : ℕ → Params → List ℕ
answer time query = 3 ∷ 2 ∷ 1 ∷ []

abbrev asked : Pane ℕ
unfolding handle_timeline_updates load_connections
asked = handle_timeline_updates (text "10") (text "20") fresh

-- The one load of `asked`.
abbrev load : Load
unfolding asked
load = record {
  stage = for_connections;
  cursors = record { from = false; to = false };
  is_initial = false;
  query =
      ("started_after", text "10")
      ∷ ("started_before", text "20")
      ∷ ("limit", to_text max_connections)
      ∷ [];
  enables = false;
}

abbrev answered : Pane ℕ
unfolding asked
answered = connections_come max_connections load (answer 0 load.query) (record asked { loads = [] })

answered-connections : answered.window.connections ≡ 3 ∷ 2 ∷ 1 ∷ []
unfolding answered connections_come merge
answered-connections = refl

-- A mounted pane whose rules come while its timeline is moved.
abbrev mounted : Pane ℕ
unfolding component_did_mount load_connections
mounted = component_did_mount none []

abbrev first_load : Load
first_load = record {
  stage = for_rules;
  cursors = record { from = false; to = false };
  is_initial = true;
  query = ("limit", to_text query_limit) ∷ [];
  enables = false;
}

abbrev moved : Pane ℕ
unfolding mounted handle_timeline_updates load_connections
moved =
    handle_timeline_updates (text "10") (text "20")
      (rules_come first_load (record mounted { loads = [] }))

moved-Reach : Reach max_connections to_text answer mounted moved
unfolding moved mounted component_did_mount load_connections
moved-Reach =
    next_step (next_step here (gets_rules first_load [] first refl))
      (timeline (text "10") (text "20"))

-- Then the services and the connections of the first load come, while the second waits.
abbrev second_load : Load
unfolding load
second_load = record load { stage = for_services }

abbrev served : Pane ℕ
unfolding moved services_come
served =
    services_come (record first_load { stage = for_services })
      (record moved { loads = second_load ∷ [] })

abbrev filled : Pane ℕ
unfolding served
filled =
    connections_come max_connections (record first_load { stage = for_connections })
      (answer 0 first_load.query) (record served { loads = second_load ∷ [] })

filled-Reach : Reach max_connections to_text answer mounted filled
unfolding filled served moved mounted component_did_mount load_connections load
    handle_timeline_updates rules_come services_come
filled-Reach =
    next_step
      (next_step moved-Reach
        (gets_services (record first_load { stage = for_services }) (second_load ∷ []) first refl))
      (gets_connections (record first_load { stage = for_connections }) (second_load ∷ []) 0
        (later first) refl)

filled-connections : filled.window.connections ≡ 3 ∷ 2 ∷ 1 ∷ []
unfolding filled connections_come merge
filled-connections = refl

Reach-limit_example : length filled.window.connections ≤ 200
unfolding mounted
Reach-limit_example =
    Reach-limit max_connections to_text answer (λ time query. omega arith) none [] filled-Reach
