-- ===== src/Streams/Actions/Copying.antt =====
-- The text of the button in frontend/src/components/dialogs/CopyDialog.js.
use caronte.Prelude.{
  ℕ, zero, suc, ◌≡◌, refl, ◌⊎◌, inl, inr, Bool, true, false, List, [], ◌∷◌, ◌++◌, Option, none,
  some, any, get_elem?, without_at, String, Text, ◌==◌, nat_comparable, arith, Bool-cases,
  Option-cases, ==_refl,
}
use caronte.Streams.Messages.{Message, copy, render_html, connections_actions}
use caronte.Streams.Actions.{
  Dialog, Timer, State, start, is_open, open_window, show_html, close_render_window,
  show_copy_dialog, press, act, copy_action_value, hide_dialog, take_back, fire, Event, pressed,
  copy_pressed, hidden, left, fired, user_closed, step, run,
}

-- Some pending timer takes the text of that dialog back.
abbrev pub IsTaken : ℕ → List Timer → Type 0
IsTaken i ts = any (λ (t : Timer). t.owner == i) ts ≡ true

abbrev pub Settles : Option Dialog → List Timer → Type 0
Settles none ts = Unit
Settles (some d) ts = (d.copied ≡ false) ⊎ IsTaken d.instance ts

abbrev pub IsSettling : State → Type 0
IsSettling s = Settles s.message_action_dialog s.timers

any-append_one :
    (i h : ℕ) (ts : List Timer) → IsTaken i (ts ++ record { handle = h; owner = i } ∷ [])
any-append_one i h [] = rw (==_refl i) refl
any-append_one i h (t ∷ ts) = ground (arith, any-append_one i h ts)

-- A timer of another dialog takes none of this dialog's.
any-without_at :
    (i k : ℕ) (t : Timer) (ts : List Timer)
    → get_elem? ts k ≡ some t
    → (t.owner == i) ≡ false
    → IsTaken i ts
    → IsTaken i (without_at k ts)
any-without_at i k t [] e n h = cc
any-without_at i zero t (u ∷ ts) e n h =
    let same : u ≡ t = cc in let other : (u.owner == i) ≡ false = rw same n in ground arith
any-without_at i (suc k) t (u ∷ ts) e n h = ground (arith, any-without_at i k t ts e n)

take_back-Settles :
    (o : Option Dialog) (k : ℕ) (t : Timer) (ts : List Timer)
    → get_elem? ts k ≡ some t
    → Settles o ts
    → Settles (take_back t o) (without_at k ts)
unfolding take_back
take_back-Settles none k t ts e h = tt
take_back-Settles (some d) k t ts e h = elim (Bool-cases (d.instance == t.owner)) [
  | inl o ↦ rw o (inl refl)
  | inr o ↦
      rw o (elim h [
        | inl u ↦ inl u
        | inr u ↦ inr (any-without_at d.instance k t ts e (ground arith) u)
      ])
]

fire-IsSettling : (i : ℕ) (s : State) → IsSettling s → IsSettling (fire i s)
unfolding fire
fire-IsSettling i s h = elim (Option-cases (get_elem? s.timers i)) [
  | inl e ↦ rw (e, fire) h
  | inr (t, e) ↦ rw (e, fire) (take_back-Settles s.message_action_dialog i t s.timers e h)
]

-- The rest of a state beside its dialog.
abbrev Of : Option Dialog → State → State
Of o s = record s { message_action_dialog = o }

show-Settles :
    (value : Text) (o : Option Dialog) (s : State)
    → Settles o s.timers
    → IsSettling (show_copy_dialog value (Of o s))
unfolding show_copy_dialog
show-Settles value none s h = inl refl
show-Settles value (some d) s h = h

copy-Settles : (o : Option Dialog) (s : State) → IsSettling (copy_action_value (Of o s))
unfolding copy_action_value
copy-Settles none s = tt
copy-Settles (some d) s = inr (any-append_one d.instance s.next s.timers)

hide-Settles : (o : Option Dialog) (s : State) → IsSettling (hide_dialog (Of o s))
unfolding hide_dialog
hide-Settles none s = tt
hide-Settles (some d) s = tt

open-IsSettling :
    (allowed : Bool) (html : Text) (s : State)
    → IsSettling s
    → IsSettling (open_window allowed html s)
unfolding open_window
open-IsSettling true html s h = h
open-IsSettling false html s h = h

show_html-IsSettling :
    (allowed : Bool) (html : Text) (s : State)
    → IsSettling s
    → IsSettling (show_html allowed html s)
unfolding show_html
show_html-IsSettling allowed html s h = elim (Option-cases s.render_window) [
  | inl e ↦ rw (e, show_html) (open-IsSettling allowed html s h)
  | inr (id, e) ↦ elim (Bool-cases (is_open id s.windows)) [
    | inl o ↦ rw (e, o, show_html) h
    | inr o ↦ rw (e, o, show_html) (open-IsSettling allowed html s h)
  ]
]

close_render_window-IsSettling : (s : State) → IsSettling s → IsSettling (close_render_window s)
unfolding close_render_window
close_render_window-IsSettling s h = elim (Option-cases s.render_window) [
  | inl e ↦ rw (e, close_render_window) h
  | inr (id, e) ↦ rw (e, close_render_window) h
]

module _ (to_lower : String → String) (sanitize : Text → Text) where
  press-IsSettling :
      (allowed : Bool) (c : Message) (i : ℕ) (s : State)
      → IsSettling s
      → IsSettling (press to_lower sanitize allowed c i s)
  unfolding press act
  press-IsSettling allowed c i s h =
      elim (Option-cases (get_elem? (connections_actions to_lower c) i)) [
        | inl e ↦ rw (e, press, act) h
        | inr (copy name value, e) ↦
            rw (e, press, act) (show-Settles value s.message_action_dialog s h)
        | inr (render_html body, e) ↦
            rw (e, press, act) (show_html-IsSettling allowed (sanitize body) s h)
      ]

  step-IsSettling : (e : Event) (s : State) → IsSettling s → IsSettling (step to_lower sanitize e s)
  unfolding step
  step-IsSettling (pressed allowed c i) s h = press-IsSettling allowed c i s h
  step-IsSettling copy_pressed s h = copy-Settles s.message_action_dialog s
  step-IsSettling hidden s h = hide-Settles s.message_action_dialog s
  step-IsSettling left s h = close_render_window-IsSettling s h
  step-IsSettling (fired i) s h = fire-IsSettling i s h
  step-IsSettling (user_closed id) s h = h

  run-Settling_from :
      (es : List Event) (s : State) → IsSettling s → IsSettling (run to_lower sanitize es s)
  unfolding run
  run-Settling_from [] s h = h
  run-Settling_from (e ∷ es) s h =
      run-Settling_from es (step to_lower sanitize e s) (step-IsSettling e s h)

  -- After any history of the buttons, timers and windows, a dialog whose button says that the text
  -- is copied has a pending timer that takes this back, even if the dialog was hidden and shown
  -- again meanwhile.
  pub run-IsSettling : (es : List Event) → IsSettling (run to_lower sanitize es start)
  run-IsSettling es = run-Settling_from es start tt
