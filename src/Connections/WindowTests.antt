-- ===== src/Connections/WindowTests.antt =====
-- Runs of the merge of frontend/src/components/panels/ConnectionsPane.js, and its theorems at
-- concrete lists. A connection is its identifier, and the maximum is 5.
use caronte.Prelude.{ℕ, ◌≡◌, refl, true, false, List, [], ◌∷◌, none, some, length, arith}
use caronte.Connections.Window.{Window, merge, empty_window}
use caronte.Connections.Window.Segment.{IsSegment, following, previous, merge-following-IsSegment}
use caronte.Connections.Window.Previous.{merge-previous-IsSegment}
use caronte.Connections.Window.Gap.{Skips, merge-following-Skips}
use caronte.Connections.Server.{get_connections, Descending}

abbrev key : ℕ → ℕ
key n = n

abbrev stored : List ℕ
stored = 9 ∷ 8 ∷ 7 ∷ 6 ∷ 5 ∷ 4 ∷ 3 ∷ 2 ∷ 1 ∷ []

stored-Descending : Descending key stored
stored-Descending = omega arith

abbrev shown : Window ℕ
shown = record { connections = 7 ∷ 6 ∷ 5 ∷ []; first = some 7; last = some 5 }

abbrev shown_part : IsSegment stored shown
shown_part = record {
  before = 9 ∷ 8 ∷ [];
  after = 4 ∷ 3 ∷ 2 ∷ 1 ∷ [];
  covers = refl;
  first = refl;
  last = refl;
}

initial_load :
    merge 5 following true empty_window (get_connections key (some 7) none 3 stored) ≡ shown
unfolding merge get_connections
initial_load = refl

past_the_maximum :
    merge 5 following false shown (get_connections key (some 5) none 4 stored)
    ≡ record { connections = 6 ∷ 5 ∷ 4 ∷ 3 ∷ []; first = some 6; last = some 2 }
unfolding merge get_connections
past_the_maximum = refl

merge-following-IsSegment_example :
    IsSegment stored (merge 5 following false shown (get_connections key (some 5) none 3 stored))
merge-following-IsSegment_example =
    merge-following-IsSegment key stored 5 2 shown 5 stored-Descending refl (omega arith) shown_part

merge-previous-IsSegment_example :
    IsSegment stored (merge 5 previous false shown (get_connections key none (some 7) 4 stored))
merge-previous-IsSegment_example =
    merge-previous-IsSegment key stored 5 3 shown 7 stored-Descending (omega arith) refl shown_part

merge-following-Skips_example :
    Skips stored (merge 5 following false shown (get_connections key (some 5) none 4 stored))
    × (length
          (merge 5 following false shown (get_connections key (some 5) none 4 stored)).connections
        ≡ 4)
merge-following-Skips_example =
    merge-following-Skips key stored 5 3 shown 5 shown_part stored-Descending refl (omega arith)
