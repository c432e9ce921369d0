-- ===== src/Main.antt =====
-- frontend/src/components/pages/MainPage.js: the page that passes a connection that is selected in
-- the list on to the pane of its messages, with the path that the list's redirects lead to. `server`
-- is the backend's answer, `query` prints parameters, `pathname_of` is the path of an address, and
-- `is_connection` the router's test for the route `/connections/:id`; these three are the
-- libraries'. Each event ends with the renders that follow it.
pub mod Selected
pub mod Resizing
pub mod Tests
use caronte.Prelude.{
  ℕ, Bool, true, false, List, [], ◌∷◌, Option, none, some, String, Text, if◌then◌else◌,
}
use mathlib.Core.Option
use caronte.Utils.Params.{Params}
use caronte.Connections.Selection
use caronte.Connections.Selection.{connection_selected, redirect}
use caronte.Streams.{Connection, connection_changed, component_did_mount, receive_connection}
use caronte.Streams

-- `streams` is the pane of the messages, where it is mounted.
pub record State {ℓ} (M : Type ℓ) : Type ℓ where
  pub list : Selection.State
  pub selected_connection : Option Connection
  pub filter_window_open : Bool
  pub pathname : Text
  pub streams : Option (Streams.State M)

pub data Event : Type 0 where
  selected : Connection → Event
  reselected : Event
  params_changed : Params → Event
  navigated : Text → Event
  filters_opened : Event
  filters_hidden : Event
  streamed : Streams.Event → Event

abbrev pub list_start : Params → Selection.State
list_start params = record {
  selected = none;
  shown = [];
  connection_selected_redirect = false;
  query_string_redirect = false;
  url_params = params;
  pulse_connections_view = false;
  pulses = 0;
  rules_loads = 0;
  services_loads = 0;
}

-- What happens in the pane; the page alone passes a connection.
unfoldable pub pane_step {ℓ} :
    {M : Type ℓ} → (Text → String → List M) → Streams.Event → Streams.State M → Streams.State M
unfolding Streams.step
pane_step server (connection_changed c) t = t
pane_step server e t = Streams.step server e t

-- The route is kept, or entered: then the pane is mounted with the connection.
unfoldable pub mount {ℓ} :
    {M : Type ℓ} → Option Connection → Option (Streams.State M) → Option (Streams.State M)
unfolding component_did_mount
mount c none = some (component_did_mount (Streams.start c))
mount c (some t) = some t

module _ {ℓ} {M : Type ℓ} (is_connection : Text → Bool) where
  unfoldable pub show_path : Text → State M → State M
  unfolding mount
  show_path path s = record s {
    pathname = path;
    streams = if is_connection path then mount s.selected_connection s.streams else none;
  }

  abbrev pub start : Params → Text → State M
  start params path = show_path path (record {
    list = list_start params;
    selected_connection = none;
    filter_window_open = false;
    pathname = path;
    streams = none;
  })

  module _ (query : Params → Text) (pathname_of : Text → Text) where
    unfoldable pub follow_redirect : Option Text × Selection.State → State M → State M
    unfolding show_path
    follow_redirect (none, list) s = record s { list = list }
    follow_redirect (some url, list) s = show_path (pathname_of url) (record s { list = list })

    -- The list is rendered, and its redirect is followed.
    unfoldable pub render_list : State M → State M
    unfolding follow_redirect redirect
    render_list s = follow_redirect (redirect query s.pathname s.list) s

    -- `connectionSelected` of the list, and the callback `onSelected`, with a connection that the
    -- page did not have.
    unfoldable pub select : Connection → State M → State M
    unfolding render_list connection_selected receive_connection
    select c s = render_list (record s {
      list = connection_selected c.id s.list;
      selected_connection = some c;
      streams = Option.map (receive_connection (some c)) s.streams;
    })

    -- The connection that the page has is selected again: no property of the pane changes.
    unfoldable pub reselect : Option Connection → State M → State M
    unfolding render_list connection_selected
    reselect none s = s
    reselect (some c) s = render_list (record s { list = connection_selected c.id s.list })

    unfoldable pub change_params : Params → State M → State M
    unfolding render_list
    change_params params s =
        render_list
          (record s { list = record s.list { query_string_redirect = true; url_params = params } })

    unfoldable pub step : (Text → String → List M) → Event → State M → State M
    unfolding select reselect change_params show_path pane_step
    step server (selected c) s = select c s
    step server reselected s = reselect s.selected_connection s
    step server (params_changed params) s = change_params params s
    step server (navigated path) s = show_path path s
    step server filters_opened s = record s { filter_window_open = true }
    step server filters_hidden s = record s { filter_window_open = false }
    step server (streamed e) s = record s { streams = Option.map (pane_step server e) s.streams }

    unfoldable pub run : (Text → String → List M) → List Event → State M → State M
    unfolding step
    run server [] s = s
    run server (e ∷ es) s = run server es (step server e s)
