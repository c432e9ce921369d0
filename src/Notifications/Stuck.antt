-- ===== src/Notifications/Stuck.antt =====
-- A click on a notification of frontend/src/components/Notifications.js that has already closed.
use caronte.Prelude.{
  ℕ, ◌<◌, true, false, ◌≡◌, [], ◌∷◌, Option, String, Text, nat_comparable, arith, Option-cases, inl,
  inr,
}
use caronte.Notifications.{
  Incoming, State, open_timer, hide_timer, remove_timer, armed, clear, contains, describe,
  push_notification, notification_handler, fire_open, fire_hide, fire_remove, click, start, Step,
  receives, opens, hides, removes, clicks, Reach, here, next_step,
}
use caronte.Notifications.Lifecycle.{
  contains-append, contains-without, armed-clear, armed-append, IsSound, Reach-IsSound,
}

-- Closed, with no timer left that would remove it.
pub record IsStuck (s : State) (r : ℕ) : Type 0 where
  pub old : r < s.next
  pub closed : contains r s.closed_notifications ≡ true
  pub unhidden : armed (hide_timer r) s.pending ≡ false
  pub unremoved : armed (remove_timer r) s.pending ≡ false

push-IsStuck :
    (d : Text × Text × Option String) (s : State) (r : ℕ)
    → IsStuck s r
    → IsStuck (push_notification d s) r
unfolding push_notification armed
push-IsStuck (a, b, c) s r v = ground (
  arith,
  armed-append (hide_timer r) s.pending
      (open_timer s.next ∷ hide_timer s.next ∷ remove_timer s.next ∷ []),
  armed-append (remove_timer r) s.pending
      (open_timer s.next ∷ hide_timer s.next ∷ remove_timer s.next ∷ []),
)

handler-IsStuck :
    (n : Incoming) (s : State) (r : ℕ) → IsStuck s r → IsStuck (notification_handler n s) r
unfolding notification_handler
handler-IsStuck n s r v = elim (Option-cases (describe n)) [
  | inl e ↦ rw (e, notification_handler) v
  | inr (d, e) ↦ rw (e, notification_handler) (push-IsStuck d s r v)
]

Step-IsStuck : {s t : State} (r : ℕ) → Step s t → IsStuck s r → IsStuck t r
unfolding fire_open fire_hide fire_remove click
Step-IsStuck {s} r (receives n) v = handler-IsStuck n s r v
Step-IsStuck {s} r (opens q h) v = ground (
  arith,
  armed-clear (hide_timer r) (open_timer q) s.pending,
  armed-clear (remove_timer r) (open_timer q) s.pending,
)
Step-IsStuck {s} r (hides q h k) v = ground (
  arith,
  contains-append r s.closed_notifications q,
  armed-clear (hide_timer r) (hide_timer q) s.pending,
  armed-clear (remove_timer r) (hide_timer q) s.pending,
)
Step-IsStuck {s} r (removes q h k) v = ground (
  arith,
  contains-without r s.closed_notifications q,
  armed-clear (hide_timer r) (remove_timer q) s.pending,
  armed-clear (remove_timer r) (remove_timer q) s.pending,
)
Step-IsStuck {s} r (clicks q h) v = ground (
  arith,
  armed-clear (hide_timer r) (hide_timer q) s.pending,
  armed-clear (remove_timer r) (hide_timer q) s.pending,
  armed-clear (hide_timer r) (remove_timer q) (clear (hide_timer q) s.pending),
  armed-clear (remove_timer r) (remove_timer q) (clear (hide_timer q) s.pending),
)

Reach-IsStuck : {s t : State} (r : ℕ) → Reach s t → IsStuck s r → IsStuck t r
Reach-IsStuck r here v = v
Reach-IsStuck r (next_step p st) v = Step-IsStuck r st (Reach-IsStuck r p v)

click-IsStuck :
    (s : State) (r : ℕ)
    → IsSound s r
    → contains r s.closed_notifications ≡ true
    → IsStuck (click r s) r
unfolding click
click-IsStuck s r v h = ground (
  arith,
  armed-clear (hide_timer r) (hide_timer r) s.pending,
  armed-clear (hide_timer r) (remove_timer r) (clear (hide_timer r) s.pending),
  armed-clear (remove_timer r) (remove_timer r) (clear (hide_timer r) s.pending),
)

-- A notification that is clicked after it has closed and before it is removed is shown in every
-- state from then on.
click_while_closed :
    {s t : State} (r : ℕ)
    → Reach start s
    → contains r s.closed_notifications ≡ true
    → Reach (click r s) t
    → contains r t.closed_notifications ≡ true
click_while_closed {s} r p h q =
    (Reach-IsStuck r q (click-IsStuck s r (Reach-IsSound r p) h)).closed
