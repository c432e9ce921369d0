-- ===== src/Streams/Order.antt =====
-- Whose messages frontend/src/components/panels/StreamsPane.js shows.
use caronte.Prelude.{
  ◌≡◌, refl, subst, ◌∙◌, Bool, true, false, List, [], ◌∷◌, ◌++◌, Option, none, some, any, String,
  Text, get_elem?, without_at, ◌==◌, string_comparable, list_comparable, nat_comparable,
  option_comparable, if◌then◌else◌, if_both, Option-cases, inl, inr,
}
use caronte.Streams.{
  Connection, Request, State, start, load_stream, close_render_window, component_did_mount,
  component_did_update, set_format, view_as, receive_connection, Event, connection_changed,
  format_chosen, mode_chosen, answered, load_failed, answer, step, run, valid_formats,
}

-- No request fails, and the answers come in the order of the requests.
abbrev pub InOrder : List Event → Type 0
InOrder [] = Unit
InOrder (answered i ∷ es) = (i ≡ 0) × InOrder es
InOrder (load_failed i ∷ es) = ⊥
InOrder (connection_changed c ∷ es) = InOrder es
InOrder (format_chosen f ∷ es) = InOrder es
InOrder (mode_chosen m ∷ es) = InOrder es

module _ {ℓ} {M : Type ℓ} (server : Text → String → List M) where
  -- The last request is for the connection and the format; without any the messages are theirs.
  abbrev pub IsDue : Text → String → List M → List Request → Type ℓ
  IsDue id format messages [] = messages ≡ server id format
  IsDue id format messages (r ∷ []) = (r.connection_id ≡ id) × (r.wanted ≡ format) × Unit {ℓ}
  IsDue id format messages (r ∷ q ∷ rs) = IsDue id format messages (q ∷ rs)

  abbrev pub CurrentFor : Option Connection → State M → Type ℓ
  CurrentFor none s = Unit
  CurrentFor (some c) s = (s.current_id ≡ some c.id) × IsDue c.id s.format s.messages s.requests

  abbrev pub IsCurrent : State M → Type ℓ
  IsCurrent s = CurrentFor s.connection s

  IsDue-append :
      (id : Text) (format : String) (messages : List M) (rs : List Request)
      → IsDue id format messages (rs ++ record { connection_id = id; wanted = format } ∷ [])
  IsDue-append id format messages [] = (refl, refl, tt)
  IsDue-append id format messages (r ∷ []) = (refl, refl, tt)
  IsDue-append id format messages (r ∷ q ∷ rs) = IsDue-append id format messages (q ∷ rs)

  loaded-IsCurrent :
      (c : Connection) (s : State M) → s.connection ≡ some c → IsCurrent (load_stream c.id s)
  unfolding load_stream
  loaded-IsCurrent c s e = simp e (refl, IsDue-append c.id s.format [] s.requests)

  pub close-connection : (s : State M) → (close_render_window s).connection ≡ s.connection
  unfolding close_render_window
  close-connection s = elim (Option-cases s.render_window) [
    | inl e ↦ simp (e, close_render_window)
    | inr (w, e) ↦ simp (e, close_render_window)
  ]

  pub update-IsCurrent : (s : State M) → IsCurrent (component_did_update s)
  unfolding component_did_update
  update-IsCurrent s = elim (Option-cases s.connection) [
    | inl e ↦ simp (e, component_did_update) tt
    | inr (c, e) ↦
        simp (e, component_did_update)
          (loaded-IsCurrent c (close_render_window s) (close-connection s ∙ e))
  ]

  format-IsCurrent : (f : String) (s : State M) → IsCurrent s → IsCurrent (set_format f s)
  unfolding set_format
  format-IsCurrent f s v =
      if_both IsCurrent (any (λ g. g == f) valid_formats) _ s
        (if_both IsCurrent (s.format == f) s _ v (update-IsCurrent (record s { format = f }))) v

  CurrentFor-mode :
      (c : Option Connection) (b : Bool) (s : State M)
      → CurrentFor c s
      → CurrentFor c (record s { try_parse = b })
  CurrentFor-mode none b s v = tt
  CurrentFor-mode (some c) b s v = v

  mode-IsCurrent : (m : String) (s : State M) → IsCurrent s → IsCurrent (view_as m s)
  unfolding view_as
  mode-IsCurrent m s v =
      if_both IsCurrent (m == "decoded") (record s { try_parse = true })
        (if m == "raw" then record s { try_parse = false } else s)
        (CurrentFor-mode s.connection true s v)
        (if_both IsCurrent (m == "raw") (record s { try_parse = false }) s
          (CurrentFor-mode s.connection false s v) v)

  -- While requests are left the messages do not matter.
  IsDue-any :
      (id : Text) (format : String) (old new : List M) (q : Request) (rs : List Request)
      → IsDue id format old (q ∷ rs)
      → IsDue id format new (q ∷ rs)
  IsDue-any id format old new q [] d = d
  IsDue-any id format old new q (p ∷ rs) d = IsDue-any id format old new p rs d

  IsDue-rest :
      (id : Text) (format : String) (messages : List M) (r : Request) (rs : List Request)
      → IsDue id format messages (r ∷ rs)
      → IsDue id format (server r.connection_id r.wanted) rs
  IsDue-rest id format messages r [] d = rw (d.0, d.1) refl
  IsDue-rest id format messages r (q ∷ []) d = d
  IsDue-rest id format messages r (q ∷ p ∷ rs) d =
      IsDue-any id format messages (server r.connection_id r.wanted) q (p ∷ rs) d

  IsDue-first :
      (id : Text) (format : String) (messages : List M) (rs : List Request) (r : Request)
      → get_elem? rs 0 ≡ some r
      → IsDue id format messages rs
      → IsDue id format (server r.connection_id r.wanted) (without_at 0 rs)
  IsDue-first id format messages [] r e d = cc
  IsDue-first id format messages (q ∷ rs) r e d =
      let same : q ≡ r = cc in
      subst (λ (t : Request). IsDue id format (server t.connection_id t.wanted) rs) same
        (IsDue-rest id format messages q rs d)

  CurrentFor-first :
      (c : Option Connection) (s : State M) (r : Request)
      → get_elem? s.requests 0 ≡ some r
      → CurrentFor c s
      → CurrentFor c (record s {
        messages = server r.connection_id r.wanted;
        requests = without_at 0 s.requests;
      })
  CurrentFor-first none s r e v = tt
  CurrentFor-first (some c) s r e v = (v.0, IsDue-first c.id s.format s.messages s.requests r e v.1)

  answer-IsCurrent : (s : State M) → IsCurrent s → IsCurrent (answer server 0 s)
  unfolding answer
  answer-IsCurrent s v = elim (Option-cases (get_elem? s.requests 0)) [
    | inl e ↦ rw (e, answer) v
    | inr (r, e) ↦ rw (e, answer) (CurrentFor-first s.connection s r e v)
  ]

  pub run-IsCurrent :
      (es : List Event) (s : State M) → InOrder es → IsCurrent s → IsCurrent (run server es s)
  unfolding run step receive_connection
  run-IsCurrent [] s o v = v
  run-IsCurrent (connection_changed c ∷ es) s o v =
      run-IsCurrent es (receive_connection c s) o (update-IsCurrent (record s { connection = c }))
  run-IsCurrent (format_chosen f ∷ es) s o v =
      run-IsCurrent es (set_format f s) o (format-IsCurrent f s v)
  run-IsCurrent (mode_chosen m ∷ es) s o v = run-IsCurrent es (view_as m s) o (mode-IsCurrent m s v)
  run-IsCurrent (answered i ∷ es) s o v =
      rw o.0 (run-IsCurrent es (answer server 0 s) o.1 (answer-IsCurrent s v))
  run-IsCurrent (load_failed i ∷ es) s o v = elim o [ ]

  pub mounted-IsCurrent : (c : Option Connection) → IsCurrent (component_did_mount (start c))
  unfolding component_did_mount
  mounted-IsCurrent none = tt
  mounted-IsCurrent (some c) = loaded-IsCurrent c (start (some c)) refl

  -- If no request fails and the answers come in order, then after any history the pane has the
  -- identifier of the connection that the page passed last, and once every request is answered it
  -- shows that connection's messages in the chosen format; before that, the last request is for
  -- them. Where no connection is passed nothing is claimed.
  run-InOrder :
      (c : Option Connection) (es : List Event)
      → InOrder es
      → IsCurrent (run server es (component_did_mount (start c)))
  run-InOrder c es o = run-IsCurrent es (component_did_mount (start c)) o (mounted-IsCurrent c)

  -- If a request is not answered when the page passes another connection, and the answer to the
  -- request for that one comes first, then with no request left the pane has the identifier of the
  -- new connection and shows the messages of the old request.
  run-out_of_order :
      (s : State M) (r : Request) (c : Connection)
      → s.requests ≡ r ∷ []
      → let t = run server (connection_changed (some c) ∷ answered 1 ∷ answered 0 ∷ []) s in
        (t.requests ≡ [])
        × (t.current_id ≡ some c.id)
        × (t.messages ≡ server r.connection_id r.wanted)
  unfolding run step receive_connection component_did_update load_stream answer close_render_window
  run-out_of_order s r c e = elim (Option-cases s.render_window) [
    | inl w ↦ simp (w, close_render_window, e) (refl, refl, refl)
    | inr (w', w) ↦ simp (w, close_render_window, e) (refl, refl, refl)
  ]
