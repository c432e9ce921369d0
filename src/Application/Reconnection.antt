-- ===== src/Application/Reconnection.antt =====
-- When frontend/src/notifications.js connects again, and when it does not.
use caronte.Prelude.{
  ℕ, ◌+◌, ◌≡◌, refl, ap, ◌∙◌, subst, sym, true, List, [], ◌∷◌, ◌++◌, Text, ◌==◌, nat_comparable,
  if◌then◌else◌, Bool-cases, inl, inr, arith,
}
use caronte.Application.Socket.{
  State, is_alive, create_websocket, on_websocket_error, on_websocket_message, Event, failed,
  closed, came, three_seconds, step, run, start,
}

-- The specification: a link that is there, that is tried again after a failure, or that is lost,
-- with the number of the last socket, and what it delivered.
pub data Link : Type 0 where
  connected : ℕ → List Text → Link
  waiting : ℕ → List Text → Link
  lost : ℕ → List Text → Link

abbrev pub link_step : Event → Link → Link
link_step (failed i) (connected n d) = if n == i then waiting n d else connected n d
link_step (closed i) (connected n d) = if n == i then lost n d else connected n d
link_step (came i m) (connected n d) = if n == i then connected n (d ++ m ∷ []) else connected n d
link_step three_seconds (connected n d) = connected n d
link_step (failed i) (waiting n d) = waiting n d
link_step (closed i) (waiting n d) = waiting n d
link_step (came i m) (waiting n d) = waiting n d
link_step three_seconds (waiting n d) = connected (n + 1) d
link_step e (lost n d) = lost n d

abbrev pub link_run : List Event → Link → Link
link_run [] l = l
link_run (e ∷ es) l = link_run es (link_step e l)

-- There is a single socket, or a single timer, or neither.
abbrev pub state_of : Link → State
state_of (connected n d) = record { ws = n; alive = n ∷ []; timers = 0; dispatched = d }
state_of (waiting n d) = record { ws = n; alive = []; timers = 1; dispatched = d }
state_of (lost n d) = record { ws = n; alive = []; timers = 0; dispatched = d }

step-link : (e : Event) (l : Link) → step e (state_of l) ≡ state_of (link_step e l)
unfolding step on_websocket_error on_websocket_message create_websocket
step-link (failed i) (connected n d) = elim (Bool-cases (n == i)) [
  | inl e ↦ rw e refl
  | inr e ↦ rw e refl
]
step-link (closed i) (connected n d) = elim (Bool-cases (n == i)) [
  | inl e ↦ rw e refl
  | inr e ↦ rw e refl
]
step-link (came i m) (connected n d) = elim (Bool-cases (n == i)) [
  | inl e ↦ rw e refl
  | inr e ↦ rw e refl
]
step-link three_seconds (connected n d) = refl
step-link (failed i) (waiting n d) = refl
step-link (closed i) (waiting n d) = refl
step-link (came i m) (waiting n d) = refl
step-link three_seconds (waiting n d) = refl
step-link (failed i) (lost n d) = refl
step-link (closed i) (lost n d) = refl
step-link (came i m) (lost n d) = refl
step-link three_seconds (lost n d) = refl

run-state_of : (es : List Event) (l : Link) → run es (state_of l) ≡ state_of (link_run es l)
unfolding run
run-state_of [] l = refl
run-state_of (e ∷ es) l = ap (run es) (step-link e l) ∙ run-state_of es (link_step e l)

-- After any history, the sockets, the timers and what was dispatched are those of a link that has
-- one socket at a time, tries again three seconds after a failure, and is lost by a clean close.
pub run-link : (es : List Event) → run es start ≡ state_of (link_run es (connected 1 []))
unfolding create_websocket
run-link es = run-state_of es (connected 1 [])

lost_run : (es : List Event) (n : ℕ) (d : List Text) → link_run es (lost n d) ≡ lost n d
lost_run [] n d = refl
lost_run (e ∷ es) n d = lost_run es n d

closed_lost :
    (i n : ℕ) (d : List Text)
    → (n == i) ≡ true
    → step (closed i) (state_of (connected n d)) ≡ state_of (lost n d)
unfolding step
closed_lost i n d e = rw e refl

closed_link :
    (es : List Event) (i : ℕ) (l : Link)
    → is_alive i (state_of l).alive ≡ true
    → run es (step (closed i) (state_of l)) ≡ step (closed i) (state_of l)
closed_link es i (connected n d) h = elim (Bool-cases (n == i)) [
  | inl e ↦
      subst (λ (s : State). run es s ≡ s) (sym (closed_lost i n d e))
        (run-state_of es (lost n d) ∙ ap state_of (lost_run es n d))
  | inr e ↦ ground (arith, e, h)
]
closed_link es i (waiting n d) h = ground arith
closed_link es i (lost n d) h = ground arith

-- Once the socket is closed cleanly, after any history, nothing that happens later opens another
-- or dispatches a message.
pub run-closed :
    (es later : List Event) (i : ℕ)
    → let s = run es start in
      is_alive i s.alive ≡ true → run later (step (closed i) s) ≡ step (closed i) s
run-closed es later i h =
    subst
      (λ (s : State). is_alive i s.alive ≡ true → run later (step (closed i) s) ≡ step (closed i) s)
      (sym (run-link es)) (closed_link later i (link_run es (connected 1 []))) h
