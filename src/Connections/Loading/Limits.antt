-- ===== src/Connections/Loading/Limits.antt =====
-- How many connections the list of frontend/src/components/panels/ConnectionsPane.js shows.
use caronte.Prelude.{
  ℕ, ◌-◌, ◌≤◌, ◌≡◌, refl, Bool, List, Option, none, some, Text, length, Bool-cases, Option-cases,
  inl, inr, arith,
}
use caronte.Utils.Params.{Params, Payload, update_params}
use caronte.Connections.Window.{
  Window, Cursors, empty_window, trim_front, trim_back, follow, precede, merge,
}
use caronte.Connections.Window.Bounds.{length-slice}
use caronte.Connections.Loading.{
  Pane, Scroll, same_params, scrolled, load_following, load_previous, handle_scroll,
  handle_connections_filters, handle_timeline_updates, press_most_recent, load_connections,
  component_did_mount, rules_come, services_come, connections_come, load_fails,
}
use caronte.Connections.Loading.Steps.{
  Step, filters, timeline, most_recent, scrolls, gets_rules, gets_services, gets_connections, fails,
  Reach, here, next_step,
}

module _ {ℓ} {A : Type ℓ} (max : ℕ) where
  length-trim_front : (w : Window A) → length (trim_front max w).connections ≤ max
  unfolding trim_front
  length-trim_front w =
      let n = length w.connections in ground (arith, length-slice (n - max) (n - 1) w.connections)

  length-trim_back : (w : Window A) → length (trim_back max w).connections ≤ max
  unfolding trim_back
  length-trim_back w = ground (arith, length-slice 0 max w.connections)

  length-merge :
      (c : Cursors) (is_initial : Bool) (w : Window A) (res : List A)
      → length res ≤ max
      → length w.connections ≤ max
      → length (merge max c is_initial w res).connections ≤ max
  unfolding merge
  length-merge c is_initial w res h k =
      ground (arith, length-trim_front (follow is_initial w res), length-trim_back (precede w res))

module _ {ℓ} {A : Type ℓ} (id : A → Text) where
  -- The handlers leave what is shown alone.
  following-window : (e : Scroll) (s : Pane A) → (load_following id e s).window ≡ s.window
  unfolding load_following load_connections scrolled
  following-window e s = elim (Option-cases s.window.last) [
    | inl h ↦ simp (h, load_following)
    | inr (l, h) ↦ simp (h, load_following)
  ]

  previous-window : (e : Scroll) (s : Pane A) → (load_previous id e s).window ≡ s.window
  unfolding load_previous load_connections
  previous-window e s = elim (Option-cases s.window.first) [
    | inl h ↦ simp (h, load_previous)
    | inr (f, h) ↦ simp (h, load_previous)
  ]

  scroll-window : (e : Scroll) (s : Pane A) → (handle_scroll id e s).window ≡ s.window
  unfolding handle_scroll scrolled
  scroll-window e s = ground (arith, following-window e s, previous-window e s)

filters-window {ℓ} :
    {A : Type ℓ} (p : Payload) (s : Pane A) → (handle_connections_filters p s).window ≡ s.window
unfolding handle_connections_filters load_connections
filters-window p s = elim (Bool-cases (same_params s.url_params (update_params s.url_params p))) [
  | inl e ↦ rw e refl
  | inr e ↦ rw e refl
]

module _ {ℓ} {A : Type ℓ} (max : ℕ) (id : A → Text) (answer : ℕ → Params → List A)
    (limited : (time : ℕ) (query : Params) → length (answer time query) ≤ max) where
  Step-limit :
      {s t : Pane A}
      → Step max id answer s t
      → length s.window.connections ≤ max
      → length t.window.connections ≤ max
  unfolding handle_timeline_updates press_most_recent load_connections rules_come services_come
      connections_come load_fails
  Step-limit {s} (filters p) h = rw (filters-window p s) h
  Step-limit {s} (timeline a b) h = h
  Step-limit {s} most_recent h = h
  Step-limit {s} (scrolls e) h = rw (scroll-window id e s) h
  Step-limit {s} (gets_rules l ls p e) h = h
  Step-limit {s} (gets_services l ls p e) h = h
  Step-limit {s} (gets_connections l ls time p e) h =
      length-merge max l.cursors l.is_initial s.window (answer time l.query) (limited time l.query)
        h
  Step-limit {s} (fails l ls p) h = h

  Reach-kept :
      {s t : Pane A}
      → Reach max id answer s t
      → length s.window.connections ≤ max
      → length t.window.connections ≤ max
  Reach-kept here h = h
  Reach-kept (next_step p st) h = Step-limit st (Reach-kept p h)

  mounted-empty :
      (path_id : Option Text) (params : Params)
      → (component_did_mount {A = A} path_id params).window ≡ empty_window
  unfolding component_did_mount load_connections
  mounted-empty none params = refl
  mounted-empty (some i) params = refl

  -- If the backend never answers with more connections than the maximum, then a mounted pane never
  -- shows more, whatever loads are under way at the same time, in whatever order they are answered,
  -- and whichever of them fail.
  pub Reach-limit :
      {t : Pane A} (path_id : Option Text) (params : Params)
      → Reach max id answer (component_did_mount path_id params) t
      → length t.window.connections ≤ max
  Reach-limit path_id params p = Reach-kept p (rw (mounted-empty path_id params) (omega arith))
