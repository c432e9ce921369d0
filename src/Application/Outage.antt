-- ===== src/Application/Outage.antt =====
-- What frontend/src/components/App.js shows when the socket of frontend/src/notifications.js is
-- closed. `parse` is `JSON.parse`.
use caronte.Prelude.{
  ℕ, ◌≡◌, refl, ap, ◌∙◌, sym, subst, ◌⊎◌, inl, inr, Bool, true, false, List, [], ◌∷◌, Option, map,
  Text, drop, length, drop-length_append, append-nil,
}
use caronte.Application.Socket as Socket
use caronte.Application.Pages as Pages
use caronte.Application.Reconnection.{run-closed}

-- The application beside its socket.
pub record App : Type 0 where
  pub socket : Socket.State
  pub pages : Pages.State

abbrev pub start : App
start = record { socket = Socket.start; pages = Pages.start }

-- Something happens at the socket, or the setup page is done.
pub data Event : Type 0 where
  at_socket : Socket.Event → Event
  setup_done : Event

module _ (parse : Text → Pages.Notification) where
  -- What the socket dispatches meanwhile reaches the application.
  unfoldable pub step : Event → App → App
  unfolding Socket.step Pages.run
  step (at_socket e) a =
      let t = Socket.step e a.socket in
      let messages = drop (length a.socket.dispatched) t.dispatched in
      record {
        socket = t;
        pages = Pages.run (map (λ m. Pages.notified (parse m)) messages) a.pages;
      }
  step setup_done a = record a { pages = Pages.step Pages.setup_done a.pages }

  unfoldable pub run : List Event → App → App
  unfolding step
  run [] a = a
  run (e ∷ es) a = run es (step e a)

-- What happens at the socket.
abbrev at_sockets : List Event → List Socket.Event
at_sockets [] = []
at_sockets (at_socket e ∷ es) = e ∷ at_sockets es
at_sockets (setup_done ∷ es) = at_sockets es

-- The page stays, or it was that of the setup and becomes the main one.
abbrev pub Follows : Pages.Page → Pages.Page → Type 0
Follows p q = (q ≡ p) ⊎ ((p ≡ Pages.configuration) × (v : Option Text) × (q ≡ Pages.main v))

Follows-after : (p q r : Pages.Page) → Follows p q → Follows q r → Follows p r
Follows-after p q r (inl e) (inl e') = inl (e' ∙ e)
Follows-after p q r (inl e) (inr (c, v, m)) = inr (sym e ∙ c, v, m)
Follows-after p q r (inr (c, v, m)) (inl e') = inr (c, v, e' ∙ m)
Follows-after p q r (inr (c, v, m)) (inr (c', v', m')) = inr (c, v', m')

-- The completion of the setup, by the fields of the application's state.
setup-Follows :
    (connected configured : Bool) (version : Option Text)
    → let s : Pages.State = record {
      connected = connected;
      configured = configured;
      version = version;
    } in
      Follows (Pages.page s) (Pages.page (Pages.step Pages.setup_done s))
unfolding Pages.page Pages.step Pages.on_configured
setup-Follows true true v = inl refl
setup-Follows true false v = inr (refl, v, refl)
setup-Follows false configured v = inl refl

nothing_new : (ms : List Text) → drop (length ms) ms ≡ []
nothing_new ms = ap (drop (length ms)) (sym (append-nil ms)) ∙ drop-length_append ms []

same_app :
    (t : Socket.State) (p : Pages.State) (a : App)
    → t ≡ a.socket
    → p ≡ a.pages
    → record { socket = t; pages = p } ≡ a
same_app t p a h k = rw (h, k) refl

module _ (parse : Text → Pages.Notification) where
  run-socket :
      (es : List Event) (a : App) → (run parse es a).socket ≡ Socket.run (at_sockets es) a.socket
  unfolding run step Socket.run
  run-socket [] a = refl
  run-socket (at_socket e ∷ es) a = run-socket es (step parse (at_socket e) a)
  run-socket (setup_done ∷ es) a = run-socket es (step parse setup_done a)

  -- What leaves the dispatched messages as they are leaves the application's state as it is.
  silent-pages :
      (e : Socket.Event) (a : App)
      → (Socket.step e a.socket).dispatched ≡ a.socket.dispatched
      → (step parse (at_socket e) a).pages ≡ a.pages
  unfolding step Pages.run
  silent-pages e a h = rw (h, nothing_new a.socket.dispatched) refl

  -- Nothing happens at a socket that no event changes, and the page follows the setup alone.
  still-Follows :
      (later : List Event) (a : App)
      → ((e : Socket.Event) → Socket.step e a.socket ≡ a.socket)
      → ((run parse later a).socket ≡ a.socket)
        × Follows (Pages.page a.pages) (Pages.page (run parse later a).pages)
  unfolding run
  still-Follows [] a h = (refl, inl refl)
  still-Follows (at_socket e ∷ later) a h =
      let same : step parse (at_socket e) a ≡ a =
        same_app (Socket.step e a.socket) (step parse (at_socket e) a).pages a (h e)
          (silent-pages e a (ap (λ (t : Socket.State). t.dispatched) (h e))) in
      subst
        (λ b.
          ((run parse later b).socket ≡ a.socket)
          × Follows (Pages.page a.pages) (Pages.page (run parse later b).pages))
        (sym same) (still-Follows later a h)
  still-Follows (setup_done ∷ later) a h =
      let (kept, follows) = still-Follows later (step parse setup_done a) h in
      (
        kept,
        Follows-after (Pages.page a.pages) (Pages.page (Pages.step Pages.setup_done a.pages))
            (Pages.page (run parse later (step parse setup_done a)).pages)
            (setup-Follows a.pages.connected a.pages.configured a.pages.version) follows,
      )

  closed-pages : (i : ℕ) (a : App) → (step parse (at_socket (Socket.closed i)) a).pages ≡ a.pages
  unfolding Socket.step
  closed-pages i a = silent-pages (Socket.closed i) a refl

  -- Once the socket is closed cleanly, after any history of the socket and the setup page, whatever
  -- happens later at the socket or on the setup page: no socket is opened and no message is
  -- dispatched, and the page stays as it was before the close, but that the setup page gives way to
  -- the main one when it is done.
  pub run-closed-shown :
      (es later : List Event) (i : ℕ)
      → let a = run parse es start in
        let b = step parse (at_socket (Socket.closed i)) a in
        Socket.is_alive i a.socket.alive ≡ true
        → ((run parse later b).socket ≡ b.socket)
          × Follows (Pages.page a.pages) (Pages.page (run parse later b).pages)
  unfolding step Socket.run
  run-closed-shown es later i h =
      let a = run parse es start in
      let b = step parse (at_socket (Socket.closed i)) a in
      let at_start = run-socket es start in
      let still : (e : Socket.Event) → Socket.step e b.socket ≡ b.socket = λ e.
        subst
          (λ (s : Socket.State).
            Socket.is_alive i s.alive ≡ true
            → Socket.step e (Socket.step (Socket.closed i) s) ≡ Socket.step (Socket.closed i) s)
          (sym at_start) (run-closed (at_sockets es) (e ∷ []) i) h in
      let (kept, follows) = still-Follows later b still in
      (
        kept,
        subst (λ s. Follows (Pages.page s) (Pages.page (run parse later b).pages))
            (closed-pages i a) follows,
      )
