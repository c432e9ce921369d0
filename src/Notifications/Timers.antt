-- ===== src/Notifications/Timers.antt =====
-- The timers of frontend/src/components/Notifications.js always run out.
use caronte.Prelude.{
  ℕ, suc, ◌≤◌, true, not, ◌≡◌, refl, List, [], ◌∷◌, nat_comparable, arith, inl, inr, ap, length,
  length-filter-le, zero, Bool-cases,
}
use caronte.Notifications.{
  State, Timer, open_timer, hide_timer, remove_timer, timer_same, armed, clear, fire_open,
  fire_hide, fire_remove, Step, receives, opens, hides, removes, clicks, Reach, here, next_step,
}
use caronte.Notifications.Lifecycle.{timer_same_iff}

-- Every click is on a notification that has not closed yet.
abbrev pub Timely : {s t : State} → Step s t → Type 0
Timely {s} (clicks r h) = armed (hide_timer r) s.pending ≡ true
Timely _ = Unit

abbrev pub AllTimely : {s t : State} → Reach s t → Type 0
AllTimely here = Unit
AllTimely (next_step p st) = AllTimely p × Timely st

-- A step that is a timer's, and not a message or a click.
abbrev pub OfTimer : {s t : State} → Step s t → Type 0
OfTimer (receives n) = ⊥
OfTimer (clicks r h) = ⊥
OfTimer _ = Unit

abbrev pub OnlyTimers : {s t : State} → Reach s t → Type 0
OnlyTimers here = Unit
OnlyTimers (next_step p st) = OnlyTimers p × OfTimer st

length-clear :
    (t : Timer) (us : List Timer) → armed t us ≡ true → suc (length (clear t us)) ≤ length us
unfolding armed clear
length-clear t [] h = cc
length-clear t (u ∷ us) h =
    ground (arith, length-clear t us, length-filter-le (λ x. not (timer_same x t)) us)

-- One timer fires, and is pending no more.
abbrev Fires : State → Type 0
Fires s =
    (t : State) × (st : Step s t) × OfTimer st
    × Timely st
    × (suc (length t.pending) ≤ length s.pending)

can_open : (s : State) (r : ℕ) → armed (open_timer r) s.pending ≡ true → Fires s
unfolding fire_open
can_open s r h = (fire_open r s, opens r h, tt, tt, length-clear (open_timer r) s.pending h)

can_hide : (s : State) (r : ℕ) → armed (hide_timer r) s.pending ≡ true → Fires s
unfolding fire_hide
can_hide s r h = elim (Bool-cases (armed (open_timer r) s.pending)) [
  | inl waits ↦ can_open s r waits
  | inr ready ↦ (fire_hide r s, hides r h ready, tt, tt, length-clear (hide_timer r) s.pending h)
]

can_remove : (s : State) (r : ℕ) → armed (remove_timer r) s.pending ≡ true → Fires s
unfolding fire_remove
can_remove s r h = elim (Bool-cases (armed (hide_timer r) s.pending)) [
  | inl waits ↦ can_hide s r waits
  | inr ready ↦
      (fire_remove r s, removes r h ready, tt, tt, length-clear (remove_timer r) s.pending h)
]

armed-head :
    (s : State) (u : Timer) (us : List Timer) → s.pending ≡ u ∷ us → armed u s.pending ≡ true
unfolding armed
armed-head s u us e = rw (e, armed) (ground (arith, timer_same_iff u u))

-- While a timer is pending, one can fire.
fire_one : (s : State) (u : Timer) (us : List Timer) → s.pending ≡ u ∷ us → Fires s
fire_one s (open_timer r) us e = can_open s r (armed-head s (open_timer r) us e)
fire_one s (hide_timer r) us e = can_hide s r (armed-head s (hide_timer r) us e)
fire_one s (remove_timer r) us e = can_remove s r (armed-head s (remove_timer r) us e)

pub Reach-append : {s t u : State} → Reach s t → Reach t u → Reach s u
Reach-append p here = p
Reach-append p (next_step q st) = next_step (Reach-append p q) st

pub AllTimely-append :
    {s t u : State} (p : Reach s t) (q : Reach t u)
    → AllTimely p
    → AllTimely q
    → AllTimely (Reach-append p q)
unfolding Reach-append
AllTimely-append p here w v = w
AllTimely-append p (next_step q st) w v = (AllTimely-append p q w v.0, v.1)

OnlyTimers-append :
    {s t u : State} (p : Reach s t) (q : Reach t u)
    → OnlyTimers p
    → OnlyTimers q
    → OnlyTimers (Reach-append p q)
unfolding Reach-append
OnlyTimers-append p here w v = w
OnlyTimers-append p (next_step q st) w v = (OnlyTimers-append p q w v.0, v.1)

-- The timers that are pending lead to a state with none.
abbrev pub Settles : State → Type 0
Settles s = (t : State) × (p : Reach s t) × OnlyTimers p × AllTimely p × (t.pending ≡ [])

settle_after : (s t : State) (st : Step s t) → OfTimer st → Timely st → Settles t → Settles s
settle_after s t st o w (u, p, only, v, e) = (
  u,
  Reach-append (next_step here st) p,
  OnlyTimers-append (next_step here st) p (tt, o) only,
  AllTimely-append (next_step here st) p (tt, w) v,
  e,
)

pub run_timers : (n : ℕ) (s : State) (us : List Timer) → s.pending ≡ us → length us ≤ n → Settles s
run_timers n s [] e h = (s, here, tt, tt, e)
run_timers zero s (u ∷ us) e h = elim h [ ]
run_timers (suc n) s (u ∷ us) e h =
    let (t, st, o, w, less) = fire_one s u us e in
    settle_after s t st o w (run_timers n t t.pending refl (omega (arith, ap length e)))
