-- ===== src/Application/Socket.antt =====
-- frontend/src/notifications.js: the socket of the notifications. Sockets are numbered; `alive` are
-- those that are not closed, and `timers` counts the pending calls of `createWebsocket`. A browser
-- reports an error of a socket that could not be opened or was not closed cleanly, and then, as
-- after a clean close, that it is closed; a closed socket brings no message.
use caronte.Prelude.{
  ℕ, ◌+◌, ◌-◌, Bool, not, List, [], ◌∷◌, ◌++◌, filter, any, Text, ◌==◌, nat_comparable,
  if◌then◌else◌,
}

pub record State : Type 0 where
  pub ws : ℕ
  pub alive : List ℕ
  pub timers : ℕ
  pub dispatched : List Text

abbrev pub is_alive : ℕ → List ℕ → Bool
is_alive i alive = any (λ j. j == i) alive

abbrev pub close : ℕ → List ℕ → List ℕ
close i alive = filter (λ j. not (j == i)) alive

unfoldable pub create_websocket : State → State
create_websocket s = record s { ws = s.ws + 1; alive = s.alive ++ (s.ws + 1) ∷ [] }

unfoldable pub on_websocket_error : State → State
on_websocket_error s = record s { alive = close s.ws s.alive; timers = s.timers + 1 }

unfoldable pub on_websocket_message : Text → State → State
on_websocket_message m s = record s { dispatched = s.dispatched ++ m ∷ [] }

pub data Event : Type 0 where
  failed : ℕ → Event
  closed : ℕ → Event
  came : ℕ → Text → Event
  three_seconds : Event

-- The browser closes a socket itself before it reports an error or a close.
unfoldable pub step : Event → State → State
unfolding create_websocket on_websocket_error on_websocket_message
step (failed i) s =
    if is_alive i s.alive then on_websocket_error (record s { alive = close i s.alive }) else s
step (closed i) s = record s { alive = close i s.alive }
step (came i m) s = if is_alive i s.alive then on_websocket_message m s else s
step three_seconds s =
    if s.timers == 0 then s else create_websocket (record s { timers = s.timers - 1 })

unfoldable pub run : List Event → State → State
run [] s = s
run (e ∷ es) s = run es (step e s)

abbrev pub start : State
unfolding create_websocket
start = create_websocket (record { ws = 0; alive = []; timers = 0; dispatched = [] })
