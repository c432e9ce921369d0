-- ===== src/Connections/Loading/Late.antt =====
-- An answer that comes late to frontend/src/components/panels/ConnectionsPane.js.
use caronte.Prelude.{ℕ, ◌≤◌, ◌≡◌, refl, true, false, List, ◌∷◌, ◌++◌, length, le→ltb}
use caronte.Connections.Window.{merge, follow, trim_front}
use caronte.Connections.Loading.{Load, Pane, connections_come}

-- Where a load of following connections is under way when the list is loaded anew, for another
-- query, and is answered after it: as long as the maximum is not exceeded, what it brings is
-- appended to the new list, but for its first entry.
connections_come-late {ℓ} :
    {A : Type ℓ} (max : ℕ) (old new : Load) (c : A) (cs res : List A) (s : Pane A)
    → old.cursors ≡ record { from = true; to = false }
    → new.cursors ≡ record { from = false; to = false }
    → old.is_initial ≡ false
    → length (res ++ cs) ≤ max
    → (connections_come max old (c ∷ cs) (connections_come max new res s)).window.connections
      ≡ res ++ cs
unfolding connections_come merge follow trim_front
connections_come-late max old new c cs res s o n i h =
    rw (n, o, i, le→ltb max (length (res ++ cs)) h) refl
