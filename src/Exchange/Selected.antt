-- ===== src/Exchange/Selected.antt =====
-- What a selection of the timeline leads to.
use caronte.Prelude.{ℕ, ◌+◌, ◌<◌, ◌≡◌, Option, none, some}
use caronte.Connections.Window.{Window}
use caronte.Timeline.Handlers.{TimeRange, State}
use caronte.Timeline.Zoom.{Shown}

module _ {ℓ} {A : Type ℓ} (started_at : A → ℕ) where
  -- Half a second may be lost at each end.
  abbrev pub StartsNear : TimeRange → A → Type 0
  StartsNear r c = (r.begin < started_at c + 500) × (started_at c < r.end + 500)

  -- What the timeline becomes by an answer that is loaded into the list.
  abbrev pub Outcome : TimeRange → State → State → Option TimeRange → Type 0
  Outcome r s t none = t ≡ s
  Outcome r s t (some p) = (r.begin < p.begin + 500) × (p.end < r.end + 500) × Shown s.series p s t
