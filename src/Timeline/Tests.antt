-- ===== src/Timeline/Tests.antt =====
-- Charts of frontend/src/components/Timeline.js, and the theorems on them.
use caronte.Prelude.{Text, text, ◌+◌, ◌*◌, ◌≡◌, refl, List, [], ◌∷◌, none, some, map}
use caronte.Timeline.Series.{epoch, minutes, Metric, Point, load_points}
use mathlib.Core.Option

-- Two ports, and entries at the third and the fifth minute of 1970.
abbrev ports : List Text
ports = text "80" ∷ text "443" ∷ []

abbrev third : Metric
third = record { range_start = epoch + 2 * minutes; values = some ((text "80", 7) ∷ []) }

abbrev fifth : Metric
fifth = record { range_start = epoch + 4 * minutes; values = none }

load_points_two :
    Option.map (map (λ (p : Point). p.columns)) (load_points ports third (fifth ∷ []))
    ≡ some ((0 ∷ 0 ∷ []) ∷ (7 ∷ 0 ∷ []) ∷ (0 ∷ 0 ∷ []) ∷ (0 ∷ 0 ∷ []) ∷ (0 ∷ 0 ∷ []) ∷ [])
unfolding load_points
load_points_two = refl
