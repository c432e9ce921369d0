-- ===== src/Notifications/Cleanup.antt =====
-- Whether the notifications of frontend/src/components/Notifications.js go away.
use caronte.Prelude.{
  ℕ, true, false, ◌≡◌, refl, ◌∙◌, List, [], ◌∷◌, Option, String, Text, nat_comparable, arith,
  ==_refl, Option-cases, inl, inr, length,
}
use caronte.Notifications.{
  Incoming, State, Timer, open_timer, hide_timer, remove_timer, armed, clear, contains, describe,
  push_notification, notification_handler, fire_open, fire_hide, fire_remove, click, start, Step,
  receives, opens, hides, removes, clicks, Reach, here, next_step,
}
use caronte.Notifications.Lifecycle.{
  contains-append, contains-without, armed-clear, armed-append, IsSound, Reach-IsSound,
}
use caronte.Notifications.Timers.{
  Timely, AllTimely, OnlyTimers, Reach-append, AllTimely-append, run_timers,
}

-- A closed notification has a timer that removes it.
abbrev Removed : State → ℕ → Type 0
Removed s r = contains r s.closed_notifications ≡ true → armed (remove_timer r) s.pending ≡ true

push-Removed :
    (d : Text × Text × Option String) (s : State) (r : ℕ)
    → Removed s r
    → Removed (push_notification d s) r
unfolding push_notification armed
push-Removed (a, b, c) s r v = ground (
  arith,
  armed-append (remove_timer r) s.pending
      (open_timer s.next ∷ hide_timer s.next ∷ remove_timer s.next ∷ []),
)

handler-Removed :
    (n : Incoming) (s : State) (r : ℕ) → Removed s r → Removed (notification_handler n s) r
unfolding notification_handler
handler-Removed n s r v = elim (Option-cases (describe n)) [
  | inl e ↦ rw (e, notification_handler) v
  | inr (d, e) ↦ rw (e, notification_handler) (push-Removed d s r v)
]

Step-Removed :
    {s t : State} (r : ℕ) (st : Step s t)
    → Timely st
    → ((q : ℕ) → IsSound s q)
    → Removed s r
    → Removed t r
unfolding fire_open fire_hide fire_remove click
Step-Removed {s} r (receives n) w i v = handler-Removed n s r v
Step-Removed {s} r (opens q h) w i v =
    ground (arith, armed-clear (remove_timer r) (open_timer q) s.pending)
Step-Removed {s} r (hides q h k) w i v =
    let iq = i q in
    ground (
      arith,
      contains-append r s.closed_notifications q,
      armed-clear (remove_timer r) (hide_timer q) s.pending,
    )
Step-Removed {s} r (removes q h k) w i v = ground (
  arith,
  contains-without r s.closed_notifications q,
  armed-clear (remove_timer r) (remove_timer q) s.pending,
)
Step-Removed {s} r (clicks q h) w i v =
    let iq = i q in
    ground (
      arith,
      armed-clear (remove_timer r) (hide_timer q) s.pending,
      armed-clear (remove_timer r) (remove_timer q) (clear (hide_timer q) s.pending),
    )

Reach-Removed : {s : State} (r : ℕ) (p : Reach start s) → AllTimely p → Removed s r
unfolding contains
Reach-Removed r here w = λ h. cc
Reach-Removed r (next_step p st) w =
    Step-Removed r st w.1 (λ q. Reach-IsSound q p) (Reach-Removed r p w.0)

empty_of_contains : (xs : List ℕ) → ((r : ℕ) → contains r xs ≡ false) → xs ≡ []
unfolding contains
empty_of_contains [] h = refl
empty_of_contains (x ∷ xs) h = ground (arith, h x, ==_refl x)

not_armed : (s : State) (t : Timer) → s.pending ≡ [] → armed t s.pending ≡ false
unfolding armed
not_armed s t e = rw (e, armed)

-- If no notification is clicked after it has closed, then nothing is shown any more once no timer
-- is pending.
pub quiet-empty :
    {s : State} (p : Reach start s)
    → AllTimely p
    → s.pending ≡ []
    → (s.notifications ≡ []) × (s.closed_notifications ≡ [])
quiet-empty {s} p w e = (
  empty_of_contains s.notifications (λ r. (Reach-IsSound r p).shown ∙ not_armed s (hide_timer r) e),
  empty_of_contains s.closed_notifications
      (λ r. ground (arith, Reach-Removed r p w, not_armed s (remove_timer r) e)),
)

-- From every state that is reached with no click on a closed notification, a sequence of steps
-- that are all timers firing, with no message and no click, leads to a state in which nothing is
-- shown and no timer is pending.
pub Reach-empty :
    {s : State} (p : Reach start s)
    → AllTimely p
    → (t : State) × (q : Reach s t) × OnlyTimers q
      × (t.notifications ≡ [])
      × (t.closed_notifications ≡ [])
      × (t.pending ≡ [])
Reach-empty {s} p w =
    let (t, q, only, v, e) = run_timers (length s.pending) s s.pending refl (omega arith) in
    let (a, b) = quiet-empty (Reach-append p q) (AllTimely-append p q w v) e in
    (t, q, only, a, b, e)
