-- ===== src/Exchange/ServicePort.antt =====
-- The port filter of frontend/src/components/Header.js, the list of connections
-- (frontend/src/components/panels/ConnectionsPane.js) and frontend/src/components/Timeline.js as
-- they share `service_port`, which a click on the service of a connection
-- (frontend/src/components/objects/Connection.js) sets too.
pub mod Agreement
pub mod Tests
use caronte.Prelude.{
  ℕ, List, [], ◌∷◌, Option, none, some, Text, length, drop, Comparable, ◌==◌, string_comparable,
  if◌then◌else◌,
}
use caronte.Utils.Numbers.{to_text}
use caronte.Utils.Params.{Params, array, get, get_all}
use caronte.Filters.StringFilter
use caronte.Filters.StringFilter.{
  Payload, entry, initial, filter_changed, fire, connections_filters_callback,
}
use caronte.Filters.PortFilter.{port_filter}
use caronte.Filters.FlagFilters.{as_update}
use caronte.Connections.Loading
use caronte.Connections.Loading.{Pane}
use caronte.Timeline.Handlers
use caronte.Timeline.Handlers.{start}

-- The three components; `A` is a connection.
pub record Sharing {ℓ} (A : Type ℓ) : Type ℓ where
  pub field : StringFilter.State
  pub listed : Pane A
  pub charted : Handlers.State

-- What the user and other components do. `pressed` is the service button of a connection to that
-- port; `filtered` and `rules_filtered` are payloads of other components, the second with the
-- identifiers of rules.
pub data Event : Type 0 where
  typed : Text → Event
  fired : ℕ → Event
  pressed : ℕ → Event
  filtered : Payload → Event
  rules_filtered : List Text → Event

-- The payload of the service button.
unfoldable pub press_service : ℕ → Payload
unfolding to_text
press_service port_dst = ("service_port", some (to_text port_dst)) ∷ []

-- `value || null`
unfoldable pub or_null : Option Text → Option Text
or_null (some (c ∷ cs)) = some (c ∷ cs)
or_null _ = none

module _ {ℓ} {A : Type ℓ} where
  -- A dispatch as the list and the timeline get it.
  unfoldable pub pass_on : Payload → Sharing A → Sharing A
  unfolding Loading.handle_connections_filters Handlers.handle_connections_filters as_update entry
  pass_on p s = record s {
    listed = Loading.handle_connections_filters (as_update p) s.listed;
    charted = Handlers.handle_connections_filters (entry "service_port" p) none s.charted;
  }

  -- The values that the field sent, oldest first.
  unfoldable pub pass_on_all : List (Option Text) → Sharing A → Sharing A
  unfolding pass_on
  pass_on_all [] s = s
  pass_on_all (v ∷ vs) s = pass_on_all vs (pass_on (("service_port", v) ∷ []) s)

  -- The field goes on to `f`, and what it sent meanwhile reaches the others.
  unfoldable pub advance : StringFilter.State → Sharing A → Sharing A
  unfolding pass_on_all
  advance f s = pass_on_all (drop (length s.field.sent) f.sent) (record s { field = f })

  -- A dispatch of another component.
  unfoldable pub deliver : Payload → Sharing A → Sharing A
  unfolding pass_on connections_filters_callback
  deliver p s =
      pass_on p
        (record s { field = connections_filters_callback (port_filter "service_port") p s.field })

  -- A payload that has `matched_rules` only.
  unfoldable pub deliver_rules : List Text → Sharing A → Sharing A
  unfolding Loading.handle_connections_filters Handlers.handle_connections_filters
  deliver_rules rules s = record s {
    listed = Loading.handle_connections_filters (("matched_rules", array rules) ∷ []) s.listed;
    charted = Handlers.handle_connections_filters none (some rules) s.charted;
  }

  unfoldable pub step : Event → Sharing A → Sharing A
  unfolding advance deliver deliver_rules filter_changed fire press_service
  step (typed t) s = advance (filter_changed (port_filter "service_port") t s.field) s
  step (fired h) s = advance (fire (port_filter "service_port") h s.field) s
  step (pressed port) s = deliver (press_service port) s
  step (filtered p) s = deliver p s
  step (rules_filtered rules) s = deliver_rules rules s

  unfoldable pub run : List Event → Sharing A → Sharing A
  unfolding step
  run [] s = s
  run (e ∷ es) s = run es (step e s)

  -- The three read the parameters of the same address when they are mounted.
  unfoldable pub mount : Option Text → Params → Sharing A
  unfolding StringFilter.component_did_mount Loading.component_did_mount
      Handlers.component_did_mount get get_all or_null
  mount path_id params = record {
    field =
        StringFilter.component_did_mount (port_filter "service_port") (get "service_port" params)
          initial;
    listed = Loading.component_did_mount path_id params;
    charted =
        Handlers.component_did_mount (or_null (get "service_port" params))
          (get_all "matched_rules" params) start;
  }
