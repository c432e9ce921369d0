-- ===== src/Connections/Loading/Failure.antt =====
-- What is left of the pane of frontend/src/components/panels/ConnectionsPane.js when a load fails.
use caronte.Prelude.{◌≡◌, refl, ◌∙◌, true, List, [], ◌∷◌, Text, Bool-cases, inl, inr}
use caronte.Connections.Loading.{Pane, Scroll, scrolled, handle_scroll, load_fails}

module _ {ℓ} {A : Type ℓ} (id : A → Text) where
  -- A history of scrolling, oldest first.
  unfoldable pub scroll_all : List Scroll → Pane A → Pane A
  scroll_all [] s = s
  scroll_all (e ∷ es) s = scroll_all es (handle_scroll id e s)

  record Waits (s t : Pane A) : Type ℓ where
    pub window : t.window ≡ s.window
    pub loading : t.loading ≡ true
    pub loads : t.loads ≡ s.loads

  handle_scroll-Waits :
      (e : Scroll) (s : Pane A) → s.loading ≡ true → Waits s (handle_scroll id e s)
  unfolding handle_scroll scrolled
  handle_scroll-Waits e s h = elim (Bool-cases s.disable_scroll_handler) [
    | inl d ↦ rw d (record { window = refl; loading = h; loads = refl })
    | inr d ↦ rw (d, h, handle_scroll) (record { window = refl; loading = refl; loads = refl })
  ]

  scroll_all-Waits : (es : List Scroll) (s : Pane A) → s.loading ≡ true → Waits s (scroll_all es s)
  unfolding scroll_all
  scroll_all-Waits [] s h = record { window = refl; loading = h; loads = refl }
  scroll_all-Waits (e ∷ es) s h =
      let a = handle_scroll-Waits e s h in
      let b = scroll_all-Waits es (handle_scroll id e s) a.loading in
      record { window = b.window ∙ a.window; loading = b.loading; loads = b.loads ∙ a.loads }

  -- If the only load fails while the pane is loading, then however the list is scrolled, the same
  -- connections are shown, the pane says that it is loading, and no load is under way.
  pub scroll_all-load_fails :
      (s : Pane A) (es : List Scroll)
      → s.loading ≡ true
      → ((scroll_all es (load_fails [] s)).window ≡ s.window)
        × ((scroll_all es (load_fails [] s)).loading ≡ true)
        × ((scroll_all es (load_fails [] s)).loads ≡ [])
  unfolding load_fails
  scroll_all-load_fails s es h =
      let w = scroll_all-Waits es (load_fails [] s) h in (w.window, w.loading, w.loads)
