-- ===== src/Main/Selected.antt =====
-- The connection that is selected in the list, the one that frontend/src/components/pages/MainPage.js
-- keeps, and the one whose messages are shown.
use caronte.Prelude.{
  ◌≡◌, refl, sym, ap, ◌∙◌, Bool, true, false, List, [], ◌∷◌, Option, none, some, String, Text, any,
  get_elem?, ◌==◌, string_comparable, if◌then◌else◌, if_both, Option-cases, inl, inr,
}
use mathlib.Core.Option
use caronte.Utils.Params.{Params}
use caronte.Connections.Selection
use caronte.Connections.Selection.{connection_selected, redirect}
use caronte.Streams.{
  Connection, connection_changed, format_chosen, mode_chosen, answered, load_failed,
  component_did_mount, receive_connection, component_did_update, close_render_window, load_stream,
  set_format, view_as, valid_formats,
}
use caronte.Streams
use caronte.Streams.Order.{
  IsCurrent, run-IsCurrent, mounted-IsCurrent, update-IsCurrent, close-connection,
}
use caronte.Main.{
  State, Event, selected, reselected, params_changed, navigated, filters_opened, filters_hidden,
  streamed, start, pane_step, mount, show_path, follow_redirect, render_list, select, reselect,
  change_params, step, run,
}

-- No request for messages fails, and their answers come in order.
abbrev pub InOrder : List Event → Type 0
InOrder [] = Unit
InOrder (streamed e ∷ es) = Streams.Order.InOrder (e ∷ []) × InOrder es
InOrder (selected c ∷ es) = InOrder es
InOrder (reselected ∷ es) = InOrder es
InOrder (params_changed p ∷ es) = InOrder es
InOrder (navigated path ∷ es) = InOrder es
InOrder (filters_opened ∷ es) = InOrder es
InOrder (filters_hidden ∷ es) = InOrder es

split_InOrder : (e : Event) (es : List Event) → InOrder (e ∷ es) → InOrder (e ∷ []) × InOrder es
split_InOrder (streamed e) es o = ((o.0, tt), o.1)
split_InOrder (selected c) es o = (tt, o)
split_InOrder reselected es o = (tt, o)
split_InOrder (params_changed p) es o = (tt, o)
split_InOrder (navigated path) es o = (tt, o)
split_InOrder filters_opened es o = (tt, o)
split_InOrder filters_hidden es o = (tt, o)

abbrev pub id_of : Option Connection → Option Text
id_of = Option.map (λ (c : Connection). c.id)

module _ {ℓ} {M : Type ℓ} (server : Text → String → List M) where
  -- The pane, where it is mounted, has the connection, and what it shows is due to it.
  abbrev pub PaneOf : Option Connection → Option (Streams.State M) → Type ℓ
  PaneOf c none = Unit
  PaneOf c (some t) = (t.connection ≡ c) × IsCurrent server t

  abbrev pub Agrees : State M → Type ℓ
  Agrees s =
      (s.list.selected ≡ id_of s.selected_connection) × PaneOf s.selected_connection s.streams

  update-connection : (t : Streams.State M) → (component_did_update t).connection ≡ t.connection
  unfolding component_did_update load_stream
  update-connection t = elim (Option-cases t.connection) [
    | inl e ↦ rw (e, component_did_update) e
    | inr (c, e) ↦ rw (e, component_did_update) (close-connection server t ∙ e)
  ]

  format-connection :
      (f : String) (t : Streams.State M) → (set_format f t).connection ≡ t.connection
  unfolding set_format
  format-connection f t =
      if_both (λ (u : Streams.State M). u.connection ≡ t.connection)
        (any (λ g. g == f) valid_formats) _ t
        (if_both (λ (u : Streams.State M). u.connection ≡ t.connection) (t.format == f) t _ refl
          (update-connection (record t { format = f })))
        refl

  pane-connection :
      (e : Streams.Event) (t : Streams.State M) → (pane_step server e t).connection ≡ t.connection
  unfolding pane_step Streams.step Streams.fail Streams.answer view_as
  pane-connection (connection_changed c) t = refl
  pane-connection (format_chosen f) t = format-connection f t
  pane-connection (mode_chosen m) t =
      if_both (λ (u : Streams.State M). u.connection ≡ t.connection) (m == "decoded")
        (record t { try_parse = true }) _ refl
        (if_both (λ (u : Streams.State M). u.connection ≡ t.connection) (m == "raw")
          (record t { try_parse = false }) t refl refl)
  pane-connection (answered i) t = elim (Option-cases (get_elem? t.requests i)) [
    | inl e ↦ rw (e, Streams.answer) refl
    | inr (r, e) ↦ rw (e, Streams.answer) refl
  ]
  pane-connection (load_failed i) t = refl

  pane-PaneOf :
      (e : Streams.Event) (c : Option Connection) (o : Option (Streams.State M))
      → Streams.Order.InOrder (e ∷ [])
      → PaneOf c o
      → PaneOf c (Option.map (pane_step server e) o)
  unfolding pane_step Streams.run Streams.step
  pane-PaneOf e c none o h = tt
  pane-PaneOf (connection_changed d) c (some t) o h = h
  pane-PaneOf (format_chosen f) c (some t) o (same, v) = (
    pane-connection (format_chosen f) t ∙ same,
    run-IsCurrent server (format_chosen f ∷ []) t o v,
  )
  pane-PaneOf (mode_chosen m) c (some t) o (same, v) =
      (pane-connection (mode_chosen m) t ∙ same, run-IsCurrent server (mode_chosen m ∷ []) t o v)
  pane-PaneOf (answered i) c (some t) o (same, v) =
      (pane-connection (answered i) t ∙ same, run-IsCurrent server (answered i ∷ []) t o v)
  pane-PaneOf (load_failed i) c (some t) o h = absurd o

  receive-PaneOf :
      (c : Option Connection) (o : Option (Streams.State M))
      → PaneOf c (Option.map (receive_connection c) o)
  unfolding receive_connection
  receive-PaneOf c none = tt
  receive-PaneOf c (some t) = (
    update-connection (record t { connection = c }),
    update-IsCurrent server (record t { connection = c }),
  )

  mounted-connection :
      (c : Option Connection) → (component_did_mount (Streams.start {M = M} c)).connection ≡ c
  unfolding component_did_mount load_stream
  mounted-connection none = refl
  mounted-connection (some c) = refl

  mount-PaneOf :
      (c : Option Connection) (o : Option (Streams.State M)) → PaneOf c o → PaneOf c (mount c o)
  unfolding mount
  mount-PaneOf c none h = (mounted-connection c, mounted-IsCurrent server c)
  mount-PaneOf c (some t) h = h

  module _ (is_connection : Text → Bool) (query : Params → Text) (pathname_of : Text → Text) where
    path-Agrees : (path : Text) (s : State M) → Agrees s → Agrees (show_path is_connection path s)
    unfolding show_path
    path-Agrees path s (same, h) = (
      same,
      if_both (PaneOf s.selected_connection) (is_connection path)
          (mount s.selected_connection s.streams) none
          (mount-PaneOf s.selected_connection s.streams h) tt,
    )

    follow_redirect-Agrees :
        (r : Option Text × Selection.State) (s : State M)
        → r.1.selected ≡ id_of s.selected_connection
        → PaneOf s.selected_connection s.streams
        → Agrees (follow_redirect is_connection query pathname_of r s)
    unfolding follow_redirect
    follow_redirect-Agrees (none, list) s same h = (same, h)
    follow_redirect-Agrees (some url, list) s same h =
        path-Agrees (pathname_of url) (record s { list = list }) (same, h)

    redirect-selected :
        (path : Text) (list : Selection.State)
        → (redirect query path list).1.selected ≡ list.selected
    unfolding redirect
    redirect-selected path list =
        if_both (λ (r : Option Text × Selection.State). r.1.selected ≡ list.selected)
          list.connection_selected_redirect _
          (if list.query_string_redirect then _ else (none, list)) refl
          (if_both (λ (r : Option Text × Selection.State). r.1.selected ≡ list.selected)
            list.query_string_redirect _ (none, list) refl refl)

    render-Agrees :
        (s : State M) → Agrees s → Agrees (render_list is_connection query pathname_of s)
    unfolding render_list
    render-Agrees s (same, h) =
        follow_redirect-Agrees (redirect query s.pathname s.list) s
          (redirect-selected s.pathname s.list ∙ same) h

    reselect-Agrees :
        (c : Option Connection) (s : State M)
        → s.selected_connection ≡ c
        → Agrees s
        → Agrees (reselect is_connection query pathname_of c s)
    unfolding reselect connection_selected
    reselect-Agrees none s e h = h
    reselect-Agrees (some c) s e (same, h) =
        render-Agrees (record s { list = connection_selected c.id s.list }) (sym (ap id_of e), h)

    step-Agrees :
        (e : Event) (s : State M)
        → InOrder (e ∷ [])
        → Agrees s
        → Agrees (step is_connection query pathname_of server e s)
    unfolding step select connection_selected change_params
    step-Agrees (selected c) s o h =
        render-Agrees
          (record s {
            list = connection_selected c.id s.list;
            selected_connection = some c;
            streams = Option.map (receive_connection (some c)) s.streams;
          })
          (refl, receive-PaneOf (some c) s.streams)
    step-Agrees reselected s o h = reselect-Agrees s.selected_connection s refl h
    step-Agrees (params_changed p) s o h =
        render-Agrees
          (record s { list = record s.list { query_string_redirect = true; url_params = p } }) h
    step-Agrees (navigated path) s o h = path-Agrees path s h
    step-Agrees filters_opened s o h = h
    step-Agrees filters_hidden s o h = h
    step-Agrees (streamed e) s o (same, h) =
        (same, pane-PaneOf e s.selected_connection s.streams o.0 h)

    run_from-Agrees :
        (es : List Event) (s : State M)
        → InOrder es
        → Agrees s
        → Agrees (run is_connection query pathname_of server es s)
    unfolding run
    run_from-Agrees [] s o h = h
    run_from-Agrees (e ∷ es) s o h =
        let (first, rest) = split_InOrder e es o in
        run_from-Agrees es (step is_connection query pathname_of server e s) rest
          (step-Agrees e s first h)

    -- If no request for messages fails and their answers come in order, then whatever is selected,
    -- filtered and navigated to: the connection that the list marks as selected is the one that the
    -- page keeps; the pane of the messages, where it is mounted, has that connection and its
    -- identifier, and once its requests are answered it shows that connection's messages in the
    -- chosen format; before that, its last request is for them. Where no connection is selected the
    -- pane, if it is mounted, has none.
    pub run-Agrees :
        (params : Params) (path : Text) (es : List Event)
        → InOrder es
        → Agrees (run is_connection query pathname_of server es (start is_connection params path))
    run-Agrees params path es o =
        run_from-Agrees es (start is_connection params path) o (path-Agrees path _ (refl, tt))
