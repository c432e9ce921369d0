-- ===== src/Streams/Actions/Windows.antt =====
-- The windows that the pane's buttons open: which of them are open, and what they show.
use caronte.Prelude.{
  ℕ, ◌≡◌, refl, ◌⊎◌, inl, inr, Bool, true, false, not, ◌&&◌, List, [], ◌∷◌, Option, none, some, map,
  get_elem?, String, Text, ◌==◌, nat_comparable, arith, All, All-append_one, All-get_elem?, subst,
  Bool-cases, Option-cases,
}
use caronte.Streams.Messages.{
  Message, HttpResponse, http_request, http_response, other, Action, copy, render_html, is_html,
  connections_actions,
}
use caronte.Streams.Actions.{
  Page, State, start, is_open, close, write, open_window, show_html, close_render_window,
  show_copy_dialog, act, press, copy_action_value, hide_dialog, fire, Event, pressed, copy_pressed,
  hidden, left, fired, user_closed, step, run,
}

abbrev pub IsClosed : Page → Type 0
IsClosed w = w.closed ≡ true

module _ (to_lower : String → String) (sanitize : Text → Text) where
  -- The page is what the library makes of the body of an answer that is a page.
  abbrev pub IsSanitized : Text → Type 0
  IsSanitized html = (r : HttpResponse) × (is_html to_lower r ≡ true) × (html ≡ sanitize r.body)

  -- A window is closed, or the pane refers to it.
  abbrev pub IsGuarded : Option ℕ → Page → Type 0
  IsGuarded r w = ((w.closed ≡ true) ⊎ (r ≡ some w.id)) × IsSanitized w.html

  abbrev pub IsSafe : State → Type 0
  IsSafe s = All (IsGuarded s.render_window) s.windows

  close-IsSafe :
      (r : Option ℕ) (id : ℕ) (ws : List Page)
      → All (IsGuarded r) ws
      → All (IsGuarded r) (close id ws)
  unfolding close
  close-IsSafe r id [] h = tt
  close-IsSafe r id (w ∷ ws) h = elim (Bool-cases (w.id == id)) [
    | inl e ↦ rw e ((inl refl, h.0.1), close-IsSafe r id ws h.1)
    | inr e ↦ rw e (h.0, close-IsSafe r id ws h.1)
  ]

  write-IsSafe :
      (r : Option ℕ) (id : ℕ) (html : Text) (ws : List Page)
      → IsSanitized html
      → All (IsGuarded r) ws
      → All (IsGuarded r) (write id html ws)
  unfolding write
  write-IsSafe r id html [] k h = tt
  write-IsSafe r id html (w ∷ ws) k h = elim (Bool-cases (w.id == id)) [
    | inl e ↦ rw e ((h.0.0, k), write-IsSafe r id html ws k h.1)
    | inr e ↦ rw e (h.0, write-IsSafe r id html ws k h.1)
  ]

  -- The window that the pane refers to is not open, so none is.
  unless_open :
      (id : ℕ) (w : Page)
      → (w.id == id && not w.closed) ≡ false
      → IsGuarded (some id) w
      → w.closed ≡ true
  unless_open id w k (inl h, _) = h
  unless_open id w k (inr h, _) = ground arith

  none_open :
      (id : ℕ) (ws : List Page)
      → is_open id ws ≡ false
      → All (IsGuarded (some id)) ws
      → All IsClosed ws
  unfolding is_open
  none_open id [] k h = tt
  none_open id (w ∷ ws) k h = elim (Bool-cases (w.id == id && not w.closed)) [
    | inl e ↦ absurd (ground arith)
    | inr e ↦ (unless_open id w e h.0, none_open id ws (rw e at k) h.1)
  ]

  nothing_referred : (ws : List Page) → All (IsGuarded none) ws → All IsClosed ws
  nothing_referred [] h = tt
  nothing_referred (w ∷ ws) ((inl k, _), h) = (k, nothing_referred ws h)
  nothing_referred (w ∷ ws) ((inr k, _), h) = absurd (ground arith)

  reguard :
      (r t : Option ℕ) (ws : List Page)
      → All IsClosed ws
      → All (IsGuarded r) ws
      → All (IsGuarded t) ws
  reguard r t [] k h = tt
  reguard r t (w ∷ ws) k h = ((inl k.0, h.0.1), reguard r t ws k.1 h.1)

  open_window-IsSafe :
      (allowed : Bool) (html : Text) (s : State)
      → IsSanitized html
      → All IsClosed s.windows
      → IsSafe s
      → IsSafe (open_window allowed html s)
  unfolding open_window
  open_window-IsSafe true html s k closed h =
      All-append_one (IsGuarded (some s.next)) s.windows
        (record { id = s.next; closed = false; html = html })
        (reguard s.render_window (some s.next) s.windows closed h) (inr refl, k)
  open_window-IsSafe false html s k closed h = reguard s.render_window none s.windows closed h

  -- `r` is the window that the pane refers to.
  show_html-Safe_from :
      (allowed : Bool) (html : Text) (r : Option ℕ) (s : State)
      → s.render_window ≡ r
      → IsSanitized html
      → All (IsGuarded r) s.windows
      → IsSafe (show_html allowed html (record s { render_window = r }))
  unfolding show_html
  show_html-Safe_from allowed html none s e k h =
      open_window-IsSafe allowed html (record s { render_window = none }) k
        (nothing_referred s.windows h) h
  show_html-Safe_from allowed html (some id) s e k h = elim (Bool-cases (is_open id s.windows)) [
    | inl o ↦ rw (o, show_html) (write-IsSafe (some id) id html s.windows k h)
    | inr o ↦
        rw (o, show_html)
          (open_window-IsSafe allowed html (record s { render_window = some id }) k
            (none_open id s.windows o h) h)
  ]

  -- A button that shows a page shows the body of an answer that is one.
  abbrev IsFair : Action → Type 0
  IsFair (copy name value) = Unit
  IsFair (render_html body) = IsSanitized (sanitize body)

  copies-AreFair :
      (rs : List (String × Text)) → All IsFair (map (λ (r : String × Text). copy r.0 r.1) rs)
  copies-AreFair [] = tt
  copies-AreFair (r ∷ rs) = (tt, copies-AreFair rs)

  connections_actions-AreFair : (c : Message) → All IsFair (connections_actions to_lower c)
  unfolding connections_actions
  connections_actions-AreFair c = elim (Option-cases c.metadata) [
    | inl e ↦ rw (e, connections_actions) tt
    | inr (http_request r, e) ↦ elim (Option-cases r.reproducers) [
      | inl n ↦ rw (e, n, connections_actions) tt
      | inr (rs, n) ↦ rw (e, n, connections_actions) (copies-AreFair rs)
    ]
    | inr (http_response r, e) ↦ elim (Bool-cases (is_html to_lower r)) [
      | inl n ↦ rw (e, n, connections_actions) ((r, n, refl), tt)
      | inr n ↦ rw (e, n, connections_actions) tt
    ]
    | inr (other, e) ↦ rw (e, connections_actions) tt
  ]

  show_copy_dialog-windows :
      (value : Text) (s : State) → IsSafe s → IsSafe (show_copy_dialog value s)
  unfolding show_copy_dialog
  show_copy_dialog-windows value s h = elim (Option-cases s.message_action_dialog) [
    | inl e ↦ rw (e, show_copy_dialog) h
    | inr (d, e) ↦ rw (e, show_copy_dialog) h
  ]

  press-IsSafe :
      (allowed : Bool) (c : Message) (i : ℕ) (s : State)
      → IsSafe s
      → IsSafe (press to_lower sanitize allowed c i s)
  unfolding press act
  press-IsSafe allowed c i s h =
      elim (Option-cases (get_elem? (connections_actions to_lower c) i)) [
        | inl e ↦ rw (e, press, act) h
        | inr (copy name value, e) ↦ rw (e, press, act) (show_copy_dialog-windows value s h)
        | inr (render_html body, e) ↦
            rw (e, press, act)
              (show_html-Safe_from allowed (sanitize body) s.render_window s refl
                (All-get_elem? IsFair i (connections_actions to_lower c) e
                  (connections_actions-AreFair c))
                h)
      ]

  copy_action_value-IsSafe : (s : State) → IsSafe s → IsSafe (copy_action_value s)
  unfolding copy_action_value
  copy_action_value-IsSafe s h = elim (Option-cases s.message_action_dialog) [
    | inl e ↦ rw (e, copy_action_value) h
    | inr (d, e) ↦ rw (e, copy_action_value) h
  ]

  hide_dialog-IsSafe : (s : State) → IsSafe s → IsSafe (hide_dialog s)
  unfolding hide_dialog
  hide_dialog-IsSafe s h = elim (Option-cases s.message_action_dialog) [
    | inl e ↦ rw (e, hide_dialog) h
    | inr (d, e) ↦ rw (e, hide_dialog) h
  ]

  fire-IsSafe : (i : ℕ) (s : State) → IsSafe s → IsSafe (fire i s)
  unfolding fire
  fire-IsSafe i s h = elim (Option-cases (get_elem? s.timers i)) [
    | inl e ↦ rw (e, fire) h
    | inr (t, e) ↦ rw (e, fire) h
  ]

  close_render_window-IsSafe : (s : State) → IsSafe s → IsSafe (close_render_window s)
  unfolding close_render_window
  close_render_window-IsSafe s h = elim (Option-cases s.render_window) [
    | inl e ↦ rw (e, close_render_window) h
    | inr (id, e) ↦ rw (e, close_render_window) (close-IsSafe s.render_window id s.windows h)
  ]

  step-IsSafe : (e : Event) (s : State) → IsSafe s → IsSafe (step to_lower sanitize e s)
  unfolding step
  step-IsSafe (pressed allowed c i) s h = press-IsSafe allowed c i s h
  step-IsSafe copy_pressed s h = copy_action_value-IsSafe s h
  step-IsSafe hidden s h = hide_dialog-IsSafe s h
  step-IsSafe left s h = close_render_window-IsSafe s h
  step-IsSafe (fired i) s h = fire-IsSafe i s h
  step-IsSafe (user_closed id) s h = close-IsSafe s.render_window id s.windows h

  run-Safe_from : (es : List Event) (s : State) → IsSafe s → IsSafe (run to_lower sanitize es s)
  unfolding run
  run-Safe_from [] s h = h
  run-Safe_from (e ∷ es) s h = run-Safe_from es (step to_lower sanitize e s) (step-IsSafe e s h)

  close-IsClosed :
      (id : ℕ) (ws : List Page) → All (IsGuarded (some id)) ws → All IsClosed (close id ws)
  unfolding close
  close-IsClosed id [] h = tt
  close-IsClosed id (w ∷ ws) h = elim (Bool-cases (w.id == id)) [
    | inl e ↦ rw e (refl, close-IsClosed id ws h.1)
    | inr e ↦ rw e (unless_open id w (rw e refl) h.0, close-IsClosed id ws h.1)
  ]

  close_render_window-IsClosed :
      (s : State) → IsSafe s → All IsClosed (close_render_window s).windows
  unfolding close_render_window
  close_render_window-IsClosed s h = elim (Option-cases s.render_window) [
    | inl e ↦
        rw (e, close_render_window)
          (nothing_referred s.windows (subst (λ r. All (IsGuarded r) s.windows) e h))
    | inr (id, e) ↦
        rw (e, close_render_window)
          (close-IsClosed id s.windows (subst (λ r. All (IsGuarded r) s.windows) e h))
  ]

  -- After any history of the buttons beside messages and in the dialog, of timers, of windows that
  -- the user closes, and of changes of the connection or the format: every window that the pane
  -- opened is closed or the one it refers to, and shows what the library makes of the body of an
  -- answer that is a page; and when the pane is left or gets another connection or format then, all
  -- of them are closed.
  pub run-IsSafe :
      (es : List Event)
      → IsSafe (run to_lower sanitize es start)
        × All IsClosed (close_render_window (run to_lower sanitize es start)).windows
  run-IsSafe es =
      let safe = run-Safe_from es start tt in
      (safe, close_render_window-IsClosed (run to_lower sanitize es start) safe)
