-- ===== src/Timeline/Zoom.antt =====
-- The range that frontend/src/components/Timeline.js shows around the connections that the list
-- shows.
use caronte.Prelude.{
  ◌+◌, ◌-◌, ◌*◌, ◌≤◌, ◌<◌, ◌≡◌, ◌⊎◌, inl, inr, refl, true, false, ◌&&◌, Option, none, some, ltb,
  leb, arith,
}
use caronte.Timeline.Handlers.{
  TimeRange, State, adjusted, adjust_selection, update_within, handle_connection_updates,
}

-- A range lies within another.
abbrev pub Within : TimeRange → TimeRange → Type 0
Within p r = (r.begin ≤ p.begin) × (p.end ≤ r.end)

abbrev pub IsShowable : TimeRange → TimeRange → Type 0
IsShowable p r = Within p r × (p.begin < p.end)

-- `q` starts 24 times the length of `p` before it, or where `r` starts if that is later, and ends 8
-- times that length behind it, or where `r` ends if that is earlier.
abbrev pub IsPadded : TimeRange → TimeRange → TimeRange → Type 0
IsPadded r p q =
    (((r.begin + 24 * (p.end - p.begin) ≤ p.begin) × (q.begin + 24 * (p.end - p.begin) ≡ p.begin))
      ⊎ ((p.begin < r.begin + 24 * (p.end - p.begin)) × (q.begin ≡ r.begin)))
    × (((p.end + 8 * (p.end - p.begin) ≤ r.end) × (q.end ≡ p.end + 8 * (p.end - p.begin)))
        ⊎ ((r.end < p.end + 8 * (p.end - p.begin)) × (q.end ≡ r.end)))

adjusted-Within :
    (r p : TimeRange) → IsShowable p r → Within (adjusted r p) r × Within p (adjusted r p)
unfolding adjusted
adjusted-Within r p h = ground arith

adjusted-begin :
    (r p : TimeRange)
    → ((r.begin + 24 * (p.end - p.begin) ≤ p.begin)
        × ((adjusted r p).begin + 24 * (p.end - p.begin) ≡ p.begin))
      ⊎ ((p.begin < r.begin + 24 * (p.end - p.begin)) × ((adjusted r p).begin ≡ r.begin))
unfolding adjusted
adjusted-begin r p = ground arith

adjusted-end :
    (r p : TimeRange)
    → ((p.end + 8 * (p.end - p.begin) ≤ r.end)
        × ((adjusted r p).end ≡ p.end + 8 * (p.end - p.begin)))
      ⊎ ((r.end < p.end + 8 * (p.end - p.begin)) × ((adjusted r p).end ≡ r.end))
unfolding adjusted
adjusted-end r p = ground arith

-- What becomes of a state, given the range of the series.
abbrev pub Shown : Option TimeRange → TimeRange → State → State → Type 0
Shown none p s t = t ≡ s
Shown (some r) p s t =
    (IsShowable p r
      × (q : TimeRange) × (t ≡ record s { selection = some p; time_range = some q })
      × Within q r
      × Within p q
      × IsPadded r p q)
    ⊎ (¬ (IsShowable p r) × (t ≡ s))

within_test :
    (r p : TimeRange)
    → (leb r.begin p.begin && (ltb p.begin p.end && leb p.end r.end) ≡ true × IsShowable p r)
      ⊎ (leb r.begin p.begin && (ltb p.begin p.end && leb p.end r.end) ≡ false × ¬ (IsShowable p r))
within_test r p = ground arith

update_within-Shown :
    (o : Option TimeRange) (p : TimeRange) (s : State) → Shown o p s (update_within o p s)
unfolding update_within adjust_selection
update_within-Shown none p s = refl
update_within-Shown (some r) p s = elim (within_test r p) [
  | inl (e, h) ↦ inl (
    h,
    adjusted r p,
    rw (e, adjust_selection) refl,
    (adjusted-Within r p h).0,
    (adjusted-Within r p h).1,
    (adjusted-begin r p, adjusted-end r p),
  )
  | inr (e, h) ↦ inr (h, rw (e, adjust_selection) refl)
]

-- Of a payload whose connections come from more than one moment and lie within the series, the
-- range becomes the selection, and the range that is shown lies within the series and has the
-- selection in it: it starts 24 times the selection's length before it and ends 8 times that length
-- behind it, or where the series starts or ends if that is nearer; any other payload, or one before
-- there is a series, changes nothing.
pub handle_connection_updates-Shown :
    (s : State) (p : TimeRange) → Shown s.series p s (handle_connection_updates p s)
unfolding handle_connection_updates
handle_connection_updates-Shown s p = update_within-Shown s.series p s
