-- ===== src/Notifications/Tests.antt =====
-- A session of frontend/src/components/Notifications.js, and the theorems at it.
use mathlib.Core.Option
use caronte.Prelude.{true, ◌≡◌, refl, [], some, text, string_comparable}
use caronte.Notifications.{
  Incoming, State, armed, clear, contains, describe, notification_handler, push_notification,
  fire_open, fire_hide, start, receives, opens, hides, Reach, here, next_step,
}
use caronte.Notifications.Lifecycle.{IsSound, Reach-IsSound}
use caronte.Notifications.Timers.{OnlyTimers}
use caronte.Notifications.Cleanup.{Reach-empty}

abbrev new_rule : Incoming
new_rule = record { event = "rules.new"; message = λ _. text "flag_in" }

abbrev other_event : Incoming
other_event = record { event = "searches.new"; message = λ _. [] }

description : Option.map (λ d. d.1) (describe new_rule) ≡ some (text "new rule added: flag_in")
unfolding describe
description = refl

ignored : notification_handler other_event start ≡ start
unfolding notification_handler describe
ignored = refl

abbrev received : State
received = notification_handler new_rule start

abbrev open_state : State
open_state = fire_open 0 received

abbrev closed_state : State
closed_state = fire_hide 0 open_state

to_closed : Reach start closed_state
unfolding notification_handler describe push_notification armed fire_open clear
to_closed =
    next_step (next_step (next_step here (receives new_rule)) (opens 0 refl)) (hides 0 refl refl)

Reach-IsSound_example : IsSound closed_state 0
Reach-IsSound_example = Reach-IsSound 0 to_closed

is_closed : contains 0 closed_state.closed_notifications ≡ true
unfolding notification_handler describe push_notification fire_open fire_hide contains
is_closed = refl

Reach-empty_example :
    (t : State) × (q : Reach closed_state t) × OnlyTimers q
    × (t.notifications ≡ [])
    × (t.closed_notifications ≡ [])
    × (t.pending ≡ [])
unfolding to_closed
Reach-empty_example = Reach-empty to_closed ((((tt, tt), tt), tt))
