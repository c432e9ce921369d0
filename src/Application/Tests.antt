-- ===== src/Application/Tests.antt =====
-- A session of the application in frontend/src, and the theorems at it.
use caronte.Prelude.{
  ℕ, ◌≡◌, refl, true, false, List, [], ◌∷◌, ◌++◌, none, some, map, Text, text, starts_with,
  if◌then◌else◌,
}
use caronte.Utils.Numbers.{to_text}
use caronte.Application.Backend.{answered, settle, failed, rejected}
use caronte.Application.Socket as Socket
use caronte.Application.Pages as Pages
use caronte.Application.Reconnection.{run-link}
use caronte.Application.Outage as Outage
use caronte.Application.Outage.{Follows, run-closed-shown}

-- The second socket fails, and the third brings a notification.
abbrev session : List Socket.Event
session =
    Socket.came 1 (text "connected")
    ∷ Socket.failed 1
    ∷ Socket.closed 1
    ∷ Socket.three_seconds
    ∷ Socket.failed 2
    ∷ Socket.three_seconds
    ∷ Socket.came 3 (text "connected")
    ∷ []

run-link_example : Socket.run session Socket.start ≡ record {
  ws = 3;
  alive = 3 ∷ [];
  timers = 0;
  dispatched = text "connected" ∷ text "connected" ∷ [];
}
run-link_example = run-link session

abbrev parse : Text → Pages.Notification
parse message =
    if starts_with message (text "connected")
    then Pages.connected_event true (text "v1")
    else Pages.other_event

-- The same session in the application, before the setup.
abbrev sessions : List Outage.Event
sessions = map Outage.at_socket session

abbrev parse_new : Text → Pages.Notification
parse_new message =
    if starts_with message (text "connected")
    then Pages.connected_event false (text "v1")
    else Pages.other_event

abbrev later_on : List Outage.Event
later_on =
    Outage.at_socket Socket.three_seconds
    ∷ Outage.setup_done
    ∷ Outage.at_socket (Socket.came 3 (text "pcap"))
    ∷ []

run-closed-shown_example :
    let a = Outage.run parse_new sessions Outage.start in
    let b = Outage.step parse_new (Outage.at_socket (Socket.closed 3)) a in
    ((Outage.run parse_new later_on b).socket ≡ b.socket)
    × Follows (Pages.page a.pages) (Pages.page (Outage.run parse_new later_on b).pages)
unfolding Outage.run Outage.step Socket.step
run-closed-shown_example = run-closed-shown parse_new sessions later_on 3 refl

-- The main page stays.
shown-session :
    Pages.page (Outage.run parse sessions Outage.start).pages ≡ Pages.main (some (text "v1"))
unfolding Outage.run Outage.step Socket.step Pages.run Pages.step Pages.handle_notifications
    Pages.page
shown-session = refl

-- A refusal is a rejection with its status, and an answer without JSON an error.
settle-answers :
    (settle {J = ℕ} (answered 404 (text "Not Found") (some 1))
      ≡ rejected (record { status_code = 404; status = text "404 Not Found"; json = 1 }))
    × (settle {J = ℕ} (answered 200 (text "OK") none) ≡ failed)
unfolding settle to_text
settle-answers = (refl, refl)

blink-title :
    (Pages.blink (Pages.blink (text "caronte")) ≡ text "caronte")
    × (Pages.blink (text "c" ++ Pages.cursor ∷ []) ≡ text "c")
unfolding Pages.blink
blink-title = (refl, refl)

tutorial-end :
    (Pages.pre_string_typed 10
      (Pages.pre_string_typed 8 (record { background_pane = none; dispatched = [] })))
    ≡ record { background_pane = none; dispatched = [] }
unfolding Pages.pre_string_typed
tutorial-end = refl
