-- ===== src/Exchange.antt =====
-- A selection in frontend/src/components/Timeline.js, the load that it starts in
-- frontend/src/components/panels/ConnectionsPane.js, the backend's answer
-- (connections_controller.go), and the update that the timeline gets back. Times are milliseconds
-- since 1970 here; `started_at` is that of a connection.
pub mod Selected
pub mod ServicePort
pub mod Tests
use caronte.Prelude.{
  ℕ, ◌+◌, ◌*◌, ◌/◌, Bool, true, false, ◌&&◌, ◌||◌, List, [], ◌∷◌, Option, none, some, take, filter,
  ltb, Comparable, ◌==◌, nat_comparable, if◌then◌else◌,
}
use caronte.Connections.Window.{Window, Cursors, merge}
use caronte.Timeline.Handlers.{TimeRange, State, handle_connection_updates}

-- `Math.round(t / 1000)`, in the payload that handleTimelineUpdates reads.
unfoldable pub seconds : ℕ → ℕ
seconds t = (t + 500) / 1000

module _ {ℓ} {A : Type ℓ} where
  -- The merge of an answer to a request without cursors.
  unfoldable pub reload : ℕ → List A → Window A → Window A
  unfolding merge
  reload max res w = merge max (record { from = false; to = false }) false w res

  module _ (started_at : A → ℕ) where
    -- A bound in seconds that is 0 is no bound.
    unfoldable pub is_started_within : ℕ → ℕ → A → Bool
    is_started_within after before c =
        (after == 0 || ltb (after * 1000) (started_at c))
        && (before == 0 || ltb (started_at c) (before * 1000))

    -- The stored connections are listed newest first.
    unfoldable pub get_started : ℕ → ℕ → ℕ → List A → List A
    unfolding is_started_within
    get_started after before limit stored =
        take limit (filter (is_started_within after before) stored)

    -- The payload of `connection_updates`, if both ends are there.
    unfoldable pub updates : Window A → Option TimeRange
    updates w = elim w.first [
      | none ↦ none
      | some f ↦ elim w.last [
        | none ↦ none
        | some l ↦ some (record { begin = started_at l; end = started_at f })
      ]
    ]

unfoldable pub deliver : Option TimeRange → State → State
unfolding handle_connection_updates
deliver none s = s
deliver (some p) s = handle_connection_updates p s
