-- ===== src/Main/Resizing.antt =====
-- `handleTimelineResize` of frontend/src/components/pages/MainPage.js: the height of the chart
-- follows that of its pane a tenth of a second after the last change. The timer reads the height
-- when it fires.
use caronte.Prelude.{
  ℕ, suc, ◌≡◌, refl, inl, inr, not, List, [], ◌∷◌, ◌++◌, Option, none, some, filter, any, ◌==◌,
  nat_comparable, arith, if◌then◌else◌, Bool-cases, if_both,
}

pub record State : Type 0 where
  pub timeline_height : ℕ
  pub timeline_timeout_handle : Option ℕ
  pub pending : List ℕ
  pub next_handle : ℕ

abbrev pub start : State
start = record {
  timeline_height = 210;
  timeline_timeout_handle = none;
  pending = [];
  next_handle = 1;
}

abbrev clear_timeout : Option ℕ → List ℕ → List ℕ
clear_timeout none hs = hs
clear_timeout (some h) hs = filter (λ g. not (g == h)) hs

unfoldable pub handle_timeline_resize : State → State
handle_timeline_resize s = record s {
  timeline_timeout_handle = some s.next_handle;
  pending = clear_timeout s.timeline_timeout_handle s.pending ++ s.next_handle ∷ [];
  next_handle = suc s.next_handle;
}

-- The timer of a handle fires, if it is pending; the pane has that height.
unfoldable pub fire : ℕ → ℕ → State → State
fire handle client_height s =
    if any (λ h. h == handle) s.pending
    then record s {
      timeline_height = client_height;
      pending = clear_timeout (some handle) s.pending;
    }
    else s

pub data Event : Type 0 where
  resized : Event
  fired : ℕ → ℕ → Event

unfoldable pub step : Event → State → State
unfolding handle_timeline_resize fire
step resized s = handle_timeline_resize s
step (fired handle client_height) s = fire handle client_height s

unfoldable pub run : List Event → State → State
unfolding step
run [] s = s
run (e ∷ es) s = run es (step e s)

-- No timer waits, or only the one whose handle is kept.
abbrev IsLastTimer : Option ℕ → List ℕ → Type 0
IsLastTimer o [] = Unit
IsLastTimer o (h ∷ []) = o ≡ some h
IsLastTimer o (h ∷ g ∷ hs) = ⊥

abbrev pub HasLastTimer : State → Type 0
HasLastTimer s = IsLastTimer s.timeline_timeout_handle s.pending

cleared : (o : Option ℕ) (hs : List ℕ) → IsLastTimer o hs → clear_timeout o hs ≡ []
cleared none [] h = refl
cleared (some k) [] h = refl
cleared none (h ∷ []) e = cc
cleared (some k) (h ∷ []) e = ground arith
cleared o (h ∷ g ∷ hs) e = absurd e

rest-IsLastTimer :
    (o : Option ℕ) (k : ℕ) (hs : List ℕ)
    → IsLastTimer o hs
    → IsLastTimer o (clear_timeout (some k) hs)
rest-IsLastTimer o k [] v = tt
rest-IsLastTimer o k (h ∷ []) v = elim (Bool-cases (h == k)) [
  | inl same ↦ rw same tt
  | inr other ↦ rw other v
]
rest-IsLastTimer o k (h ∷ g ∷ hs) v = absurd v

fire-HasLastTimer : (h height : ℕ) (s : State) → HasLastTimer s → HasLastTimer (fire h height s)
unfolding fire
fire-HasLastTimer h height s v =
    if_both HasLastTimer (any (λ g. g == h) s.pending)
      (record s { timeline_height = height; pending = clear_timeout (some h) s.pending }) s
      (rest-IsLastTimer s.timeline_timeout_handle h s.pending v) v

resize-HasLastTimer : (s : State) → HasLastTimer s → HasLastTimer (handle_timeline_resize s)
unfolding handle_timeline_resize
resize-HasLastTimer s v = rw (cleared s.timeline_timeout_handle s.pending v) refl

run_from-HasLastTimer : (es : List Event) (s : State) → HasLastTimer s → HasLastTimer (run es s)
unfolding run
run_from-HasLastTimer [] s v = v
run_from-HasLastTimer (resized ∷ es) s v =
    run_from-HasLastTimer es (handle_timeline_resize s) (resize-HasLastTimer s v)
run_from-HasLastTimer (fired h height ∷ es) s v =
    run_from-HasLastTimer es (fire h height s) (fire-HasLastTimer h height s v)

-- After any history of changes and timers, no timer is pending or only the one of the last change.
run-HasLastTimer : (es : List Event) → HasLastTimer (run es start)
run-HasLastTimer es = run_from-HasLastTimer es start tt
