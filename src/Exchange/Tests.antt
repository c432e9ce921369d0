-- ===== src/Exchange/Tests.antt =====
-- A selection among three connections, which are their times.
use caronte.Prelude.{ℕ, ◌≡◌, refl, List, [], ◌∷◌, some}
use caronte.Connections.Window.{empty_window}
use caronte.Timeline.Handlers.{TimeRange, State, start}
use caronte.Exchange.{seconds, reload, get_started, updates}

abbrev starts : List ℕ
starts = 9500 ∷ 4200 ∷ 2100 ∷ []

abbrev chosen : TimeRange
chosen = record { begin = 1600; end = 5000 }

abbrev charted : State
charted = record start { series = some (record { begin = 0; end = 60000 }) }

started-chosen :
    updates
      (λ (t : ℕ). t)
      (reload 200
        (get_started (λ (t : ℕ). t) (seconds 1600) (seconds 5000) 200 starts)
        empty_window)
    ≡ some (record { begin = 2100; end = 4200 })
unfolding updates reload get_started seconds
started-chosen = refl
