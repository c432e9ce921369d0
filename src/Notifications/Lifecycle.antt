-- ===== src/Notifications/Lifecycle.antt =====
-- Where a notification of frontend/src/components/Notifications.js stands at any moment.
use caronte.Prelude.{
  ℕ, ◌≤◌, true, false, not, ◌&&◌, ◌||◌, ◌≡◌, refl, List, [], ◌∷◌, ◌++◌, Option, String, Text, ◌==◌,
  nat_comparable, arith, Option-cases, inl, inr, ◌↔◌,
}
use caronte.Notifications.{
  Incoming, State, Timer, open_timer, hide_timer, remove_timer, timer_same, armed, clear, contains,
  without, describe, push_notification, notification_handler, fire_open, fire_hide, fire_remove,
  click, start, Step, receives, opens, hides, removes, clicks, Reach, here, next_step,
}

pub contains-append :
    (r : ℕ) (xs : List ℕ) (y : ℕ) → contains r (xs ++ y ∷ []) ≡ (contains r xs || y == r)
unfolding contains
contains-append r [] y = ground arith
contains-append r (x ∷ xs) y = ground (arith, contains-append r xs y)

pub contains-without :
    (r : ℕ) (xs : List ℕ) (y : ℕ) → contains r (without xs y) ≡ (contains r xs && not (y == r))
unfolding contains without
contains-without r [] y = refl
contains-without r (x ∷ xs) y = ground (arith, contains-without r xs y)

pub timer_same_iff : (t u : Timer) → (timer_same t u ≡ true) ↔ (t ≡ u)
timer_same_iff (open_timer a) u = ground arith
timer_same_iff (hide_timer a) u = ground arith
timer_same_iff (remove_timer a) u = ground arith

pub armed-clear :
    (t u : Timer) (ts : List Timer) → armed t (clear u ts) ≡ (armed t ts && not (timer_same u t))
unfolding armed clear
armed-clear t u [] = refl
armed-clear t u (x ∷ ts) =
    ground (arith, armed-clear t u ts, timer_same_iff x u, timer_same_iff x t, timer_same_iff u t)

pub armed-append :
    (t : Timer) (ts us : List Timer) → armed t (ts ++ us) ≡ (armed t ts || armed t us)
unfolding armed
armed-append t [] us = refl
armed-append t (x ∷ ts) us = ground (arith, armed-append t ts us)

-- Where one notification stands: it is among the open ones as long as its hide
-- timer runs; then so does its remove timer, and it is not among the closed ones; once the hide
-- timer is gone and while the remove timer runs, it is among the closed ones. References that have
-- not been given out are nowhere.
pub record IsSound (s : State) (r : ℕ) : Type 0 where
  pub shown : contains r s.notifications ≡ armed (hide_timer r) s.pending
  pub watched : armed (hide_timer r) s.pending ≡ true → armed (remove_timer r) s.pending ≡ true
  pub apart : armed (hide_timer r) s.pending ≡ true → contains r s.closed_notifications ≡ false
  pub leaving :
      armed (remove_timer r) s.pending ≡ true
      → armed (hide_timer r) s.pending ≡ false
      → contains r s.closed_notifications ≡ true
  pub fresh :
      s.next ≤ r
      → (contains r s.closed_notifications ≡ false)
        × (armed (hide_timer r) s.pending ≡ false)
        × (armed (remove_timer r) s.pending ≡ false)

push-IsSound :
    (d : Text × Text × Option String) (s : State) (r : ℕ)
    → IsSound s r
    → IsSound (push_notification d s) r
unfolding push_notification armed
push-IsSound (a, b, c) s r v = ground (
  arith,
  contains-append r s.notifications s.next,
  armed-append (hide_timer r) s.pending
      (open_timer s.next ∷ hide_timer s.next ∷ remove_timer s.next ∷ []),
  armed-append (remove_timer r) s.pending
      (open_timer s.next ∷ hide_timer s.next ∷ remove_timer s.next ∷ []),
)

handler-IsSound :
    (n : Incoming) (s : State) (r : ℕ) → IsSound s r → IsSound (notification_handler n s) r
unfolding notification_handler
handler-IsSound n s r v = elim (Option-cases (describe n)) [
  | inl e ↦ rw (e, notification_handler) v
  | inr (d, e) ↦ rw (e, notification_handler) (push-IsSound d s r v)
]

fire_hide-IsSound :
    (q : ℕ) (s : State) (r : ℕ)
    → armed (hide_timer q) s.pending ≡ true
    → IsSound s r
    → IsSound (fire_hide q s) r
unfolding fire_hide
fire_hide-IsSound q s r h v = ground (
  arith,
  contains-without r s.notifications q,
  contains-append r s.closed_notifications q,
  armed-clear (hide_timer r) (hide_timer q) s.pending,
  armed-clear (remove_timer r) (hide_timer q) s.pending,
)

fire_open-IsSound : (q : ℕ) (s : State) (r : ℕ) → IsSound s r → IsSound (fire_open q s) r
unfolding fire_open
fire_open-IsSound q s r v = ground (
  arith,
  armed-clear (hide_timer r) (open_timer q) s.pending,
  armed-clear (remove_timer r) (open_timer q) s.pending,
)

fire_remove-IsSound :
    (q : ℕ) (s : State) (r : ℕ)
    → armed (hide_timer q) s.pending ≡ false
    → IsSound s r
    → IsSound (fire_remove q s) r
unfolding fire_remove
fire_remove-IsSound q s r h v = ground (
  arith,
  contains-without r s.closed_notifications q,
  armed-clear (hide_timer r) (remove_timer q) s.pending,
  armed-clear (remove_timer r) (remove_timer q) s.pending,
)

click-IsSound : (q : ℕ) (s : State) (r : ℕ) → IsSound s r → IsSound (click q s) r
unfolding click
click-IsSound q s r v = ground (
  arith,
  contains-without r s.notifications q,
  armed-clear (hide_timer r) (hide_timer q) s.pending,
  armed-clear (remove_timer r) (hide_timer q) s.pending,
  armed-clear (hide_timer r) (remove_timer q) (clear (hide_timer q) s.pending),
  armed-clear (remove_timer r) (remove_timer q) (clear (hide_timer q) s.pending),
)

Step-IsSound : {s t : State} (r : ℕ) → Step s t → IsSound s r → IsSound t r
Step-IsSound {s} r (receives n) v = handler-IsSound n s r v
Step-IsSound {s} r (opens q h) v = fire_open-IsSound q s r v
Step-IsSound {s} r (hides q h k) v = fire_hide-IsSound q s r h v
Step-IsSound {s} r (removes q h k) v = fire_remove-IsSound q s r k v
Step-IsSound {s} r (clicks q h) v = click-IsSound q s r v

start-IsSound : (r : ℕ) → IsSound start r
unfolding contains armed
start-IsSound r = record {
  shown = refl;
  watched = λ h. cc;
  apart = λ h. refl;
  leaving = λ h k. cc;
  fresh = λ h. (refl, refl, refl);
}

-- In every reachable state, and for every notification: it is among the open ones exactly while the
-- timer that hides it is pending; then the timer that removes it is pending too, and it is not among
-- the closed ones; once the first timer is gone and while the second is pending, it is among the
-- closed ones; and one that has not been made yet is nowhere.
pub Reach-IsSound : {s : State} (r : ℕ) → Reach start s → IsSound s r
Reach-IsSound r here = start-IsSound r
Reach-IsSound r (next_step p st) = Step-IsSound r st (Reach-IsSound r p)
