-- ===== src/Searches/InFlight.antt =====
-- The search in flight of frontend/src/components/panels/SearchPane.js, and its `loading`.
use caronte.Prelude.{
  ℕ, ◌+◌, ◌≤◌, ◌≡◌, refl, true, false, List, [], ◌∷◌, ◌++◌, String, if◌then◌else◌, arith,
  Bool-cases, inl, inr, ◌==◌, string_comparable,
}
use caronte.Searches.{Request, get_searches, perform, State, start}
use caronte.Searches.Form.{
  validate_search, load_searches, reset, perform_search, view_search, performed, refused, loaded,
  load_failed, update_param, handle_notification, component_did_mount, Answers, first, later, Step,
  notified, changed, cancels, performs, views, performs_ok, performs_not, loads_ok, loads_not,
  Reach, here, next_step,
}

-- How many searches are not yet answered.
abbrev pub in_flight : List Request → ℕ
in_flight [] = 0
in_flight (get_searches ∷ qs) = in_flight qs
in_flight (perform o ∷ qs) = in_flight qs + 1

abbrev cost : Request → ℕ
cost get_searches = 0
cost (perform o) = 1

in_flight-append :
    (qs : List Request) (q : Request) → in_flight (qs ++ q ∷ []) ≡ in_flight qs + cost q
in_flight-append [] get_searches = refl
in_flight-append [] (perform o) = refl
in_flight-append (get_searches ∷ qs) q = in_flight-append qs q
in_flight-append (perform o ∷ qs) q = ground (arith, in_flight-append qs q)

in_flight-Answers :
    {ps qs : List Request} {q : Request} → Answers ps q qs → in_flight ps ≡ in_flight qs + cost q
in_flight-Answers (first {q = get_searches}) = ground arith
in_flight-Answers (first {q = perform o}) = ground arith
in_flight-Answers (later {p = get_searches} a) = in_flight-Answers a
in_flight-Answers (later {p = perform o} a) = ground (arith, in_flight-Answers a)

abbrev pub HasSearchBound : State → Type 0
HasSearchBound s = in_flight s.requests ≤ (if s.loading then 1 else 0)

load-HasSearchBound : (s : State) → HasSearchBound s → HasSearchBound (load_searches s)
unfolding load_searches
load-HasSearchBound s v = ground (arith, in_flight-append s.requests get_searches)

perform-HasSearchBound :
    (s : State) → s.loading ≡ false → HasSearchBound s → HasSearchBound (perform_search s)
unfolding perform_search
perform-HasSearchBound s l v =
    elim (Bool-cases (validate_search s.current_search_options s.errors).0) [
      | inl e ↦
          rw e (ground (arith, in_flight-append s.requests (perform s.current_search_options)))
      | inr e ↦ rw e (ground arith)
    ]

notified-HasSearchBound :
    (e : String) (s : State) → HasSearchBound s → HasSearchBound (handle_notification e s)
unfolding handle_notification
notified-HasSearchBound e s v = elim (Bool-cases (e == "searches.new")) [
  | inl h ↦ rw h (load-HasSearchBound s v)
  | inr h ↦ rw h v
]

Step-HasSearchBound : {s t : State} → Step s t → HasSearchBound s → HasSearchBound t
unfolding update_param reset view_search performed load_searches refused loaded load_failed
Step-HasSearchBound {s} (notified e) v = notified-HasSearchBound e s v
Step-HasSearchBound {s} (changed f) v = v
Step-HasSearchBound {s} (cancels l) v = v
Step-HasSearchBound {s} (performs l) v = perform-HasSearchBound s l v
Step-HasSearchBound {s} (views i) v = v
Step-HasSearchBound {s} (performs_ok o qs a b q) v =
    ground (arith, in_flight-Answers q, in_flight-append qs get_searches)
Step-HasSearchBound {s} (performs_not o qs a b q) v = ground (arith, in_flight-Answers q)
Step-HasSearchBound {s} (loads_ok qs a b q) v = ground (arith, in_flight-Answers q)
Step-HasSearchBound {s} (loads_not qs a b q) v = ground (arith, in_flight-Answers q)

-- In every reachable state at most one search is not yet answered, and none unless the form says
-- that it is loading.
pub Reach-HasSearchBound : {s : State} → Reach (component_did_mount start) s → HasSearchBound s
unfolding component_did_mount reset load_searches
Reach-HasSearchBound here = omega arith
Reach-HasSearchBound (next_step p st) = Step-HasSearchBound st (Reach-HasSearchBound p)

-- The form is loading and no answer will end it.
abbrev IsStuck : State → Type 0
IsStuck s = (s.loading ≡ true) × (in_flight s.requests ≡ 0)

notified-IsStuck : (e : String) (s : State) → IsStuck s → IsStuck (handle_notification e s)
unfolding handle_notification load_searches
notified-IsStuck e s v = elim (Bool-cases (e == "searches.new")) [
  | inl h ↦ rw h (v.0, ground (arith, in_flight-append s.requests get_searches))
  | inr h ↦ rw h v
]

Step-IsStuck : {s t : State} → Step s t → IsStuck s → IsStuck t
unfolding update_param view_search loaded load_failed
Step-IsStuck {s} (notified e) v = notified-IsStuck e s v
Step-IsStuck {s} (changed f) v = v
Step-IsStuck {s} (cancels l) v = ground arith
Step-IsStuck {s} (performs l) v = ground arith
Step-IsStuck {s} (views i) v = v
Step-IsStuck {s} (performs_ok o qs a b q) v = ground (arith, in_flight-Answers q)
Step-IsStuck {s} (performs_not o qs a b q) v = ground (arith, in_flight-Answers q)
Step-IsStuck {s} (loads_ok qs a b q) v = ground (arith, in_flight-Answers q)
Step-IsStuck {s} (loads_not qs a b q) v = ground (arith, in_flight-Answers q)

Reach-IsStuck : {s t : State} → Reach s t → IsStuck s → IsStuck t
Reach-IsStuck here v = v
Reach-IsStuck (next_step p st) v = Step-IsStuck st (Reach-IsStuck p v)

-- Once a search is performed whose options the form refuses, the form is loading in every state
-- from then on, whatever is changed, and no search is in flight.
perform_search-refused :
    {s t : State}
    → Reach (component_did_mount start) s
    → s.loading ≡ false
    → (validate_search s.current_search_options s.errors).0 ≡ false
    → Reach (perform_search s) t
    → (t.loading ≡ true) × (in_flight t.requests ≡ 0)
unfolding perform_search
perform_search-refused {s} p l e q =
    Reach-IsStuck q (rw e (refl, ground (arith, Reach-HasSearchBound p)))
