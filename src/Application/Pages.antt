-- ===== src/Application/Pages.antt =====
-- frontend/src/components/App.js: the page of the application and its title.
use caronte.Prelude.{
  ℕ, Bool, true, false, List, [], ◌∷◌, ◌++◌, Option, none, some, Text, ends_with, ◌==◌,
  nat_comparable, list_comparable, if◌then◌else◌,
}

-- A notification: another one has no message that matters here.
pub data Notification : Type 0 where
  connected_event : Bool → Text → Notification
  other_event : Notification

pub record State : Type 0 where
  pub connected : Bool
  pub configured : Bool
  pub version : Option Text

abbrev pub start : State
start = record { connected = false; configured = false; version = none }

unfoldable pub handle_notifications : Notification → State → State
handle_notifications (connected_event c v) s = record {
  connected = true;
  configured = c;
  version = some v;
}
handle_notifications other_event s = s

unfoldable pub on_configured : State → State
on_configured s = record s { configured = true }

pub data Page : Type 0 where
  service_unavailable : Page
  configuration : Page
  main : Option Text → Page

unfoldable pub page : State → Page
page s =
    if s.connected
    then (if s.configured then main s.version else configuration)
    else service_unavailable

pub data Event : Type 0 where
  notified : Notification → Event
  setup_done : Event

-- Only the page of the configuration calls `onConfigured`.
unfoldable pub step : Event → State → State
step (notified n) s = handle_notifications n s
step setup_done s = elim (page s) [
  | configuration ↦ on_configured s
  | service_unavailable ↦ s
  | main v ↦ s
]

unfoldable pub run : List Event → State → State
run [] s = s
run (e ∷ es) s = run es (step e s)

-- The cursor, "❚".
abbrev pub cursor : ℕ
cursor = 10074

abbrev pub without_last : Text → Text
without_last [] = []
without_last (c ∷ []) = []
without_last (c ∷ d ∷ s) = c ∷ without_last (d ∷ s)

-- What happens to the title every half a second.
unfoldable pub blink : Text → Text
blink title = if ends_with title (cursor ∷ []) then without_last title else title ++ cursor ∷ []

-- frontend/src/components/panels/MainPane.js: what the text of the tutorial at a place shows behind
-- it, and the views that it makes pulse.
pub data Background : Type 0 where
  streams_pane : Background
  pcaps_pane : Background
  rules_pane : Background
  services_pane : Background

pub data Pulse : Type 0 where
  pulse_connections_view : ℕ → Pulse
  pulse_timeline : ℕ → Pulse

pub record Tutorial : Type 0 where
  pub background_pane : Option Background
  pub dispatched : List Pulse

unfoldable pub pre_string_typed : ℕ → Tutorial → Tutorial
pre_string_typed n s =
    if n == 1
    then record s { dispatched = s.dispatched ++ pulse_connections_view 12000 ∷ [] }
    else if n == 2
    then record s { background_pane = some streams_pane }
    else if n == 3
    then record s { background_pane = none; dispatched = s.dispatched ++ pulse_timeline 12000 ∷ [] }
    else if n == 6
    then record s { background_pane = some pcaps_pane }
    else if n == 7
    then record s { background_pane = some rules_pane }
    else if n == 8
    then record s { background_pane = some services_pane }
    else if n == 10
    then record s { background_pane = none }
    else s
