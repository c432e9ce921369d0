-- ===== src/Dispatcher/Delivery.antt =====
-- Whom a dispatch of frontend/src/dispatcher.js calls, after any history of registrations.
use caronte.Prelude.{
  ℕ, String, subst, ◌≡◌, refl, sym, ◌∙◌, ap, Bool, true, false, not, ◌&&◌, List, [], ◌∷◌, ◌++◌, map,
  map-append, append_assoc, append-nil, Option, none, some, filter, filter-append, any, arith, ◌==◌,
  nat_comparable, string_comparable, option_comparable, if◌then◌else◌,
}
use caronte.Dispatcher.{
  Dispatcher, Listener, Topic, string, array, other, Result, done, throw, new_dispatcher, register,
  unregister, called, call_each, dispatch, Called, returns, throws, element_listener, listener,
  push_all,
}

pub data Op : Type 0 where
  registers : Topic → Option ℕ → Op
  unregisters : ℕ → Op

-- A call that throws leaves the dispatcher as it was.
abbrev pub after : Dispatcher → Result → Dispatcher
after d (done d') = d'
after d (throw e) = d

unfoldable pub apply : Op → Dispatcher → Dispatcher
apply (registers topic callback) d = after d (register topic callback d)
apply (unregisters c) d = unregister c d

unfoldable pub run : List Op → Dispatcher → Dispatcher
run [] d = d
run (op ∷ ops) d = run ops (apply op d)

abbrev is_unregister : ℕ → Op → Bool
is_unregister c (registers _ _) = false
is_unregister c (unregisters c') = c == c'

-- The specification looks ahead: a callback registered under the topic's own string is called
-- unless it is taken off later. Nothing else is called.
abbrev pub subscribed : String → Op → List Op → List ℕ
subscribed t (registers topic none) later = []
subscribed t (registers (string s) (some c)) later =
    if s == t && not (any (is_unregister c) later) then c ∷ [] else []
subscribed t _ later = []

abbrev pub subscribers : String → List Op → List ℕ
subscribers t [] = []
subscribers t (op ∷ later) = subscribed t op later ++ subscribers t later

-- Not taken off by any of the operations.
abbrev kept : List Op → ℕ → Bool
kept ops c = not (any (is_unregister c) ops)

filter-map_callback :
    (p : ℕ → Bool) (q : Listener → Bool) (ls : List Listener)
    → filter p (map (λ (l : Listener). l.callback) (filter q ls))
      ≡ map (λ (l : Listener). l.callback) (filter q (filter (λ l. p l.callback) ls))
filter-map_callback p q [] = refl
filter-map_callback p q (l ∷ ls) = ground (arith, filter-map_callback p q ls)

called-unregister :
    (t : String) (c : ℕ) (d : Dispatcher)
    → called t (unregister c d) ≡ filter (λ x. not (x == c)) (called t d)
unfolding called unregister
called-unregister t c d =
    sym (filter-map_callback (λ x. not (x == c)) (λ l. l.topic == some t) d.listeners)

called-push_all :
    (t : String) (d : Dispatcher) (ls : List Listener)
    → called t (push_all d ls) ≡ called t d ++ called t (record { listeners = ls })
unfolding called push_all
called-push_all t d ls = simp (filter-append, map-append)

called-elements :
    (t : String) (c : ℕ) (topics : List (Option String))
    → called t (record { listeners = map (element_listener c) topics }) ≡ []
unfolding called element_listener
called-elements t c [] = refl
called-elements t c (e ∷ es) = called-elements t c es

called-listener :
    (t s : String) (c : ℕ)
    → called t (record { listeners = listener s c ∷ [] }) ≡ (if s == t && true then c ∷ [] else [])
unfolding called listener
called-listener t s c = ground arith

-- What one operation does to the called callbacks.
called-register :
    (t : String) (topic : Topic) (callback : Option ℕ) (d : Dispatcher)
    → called t (apply (registers topic callback) d)
      ≡ called t d ++ subscribed t (registers topic callback) []
unfolding apply register
called-register t topic none d = sym (append-nil _)
called-register t (string s) (some c) d =
    rw (called-push_all t d _) (ap (called t d ++◌) (called-listener t s c))
called-register t (array topics) (some c) d = ground (
  arith,
  append-nil (called t d),
  called-push_all t d (map (element_listener c) topics),
  called-elements t c topics,
)
called-register t other (some c) d = sym (append-nil _)

filter-kept_unregister :
    (c : ℕ) (ops : List Op) (xs : List ℕ)
    → filter (kept (unregisters c ∷ ops)) xs ≡ filter (kept ops) (filter (λ x. not (x == c)) xs)
filter-kept_unregister c ops [] = refl
filter-kept_unregister c ops (x ∷ xs) = ground (arith, filter-kept_unregister c ops xs)

subscribed_later :
    (t : String) (op : Op) (later : List Op)
    → subscribed t op later ≡ filter (kept later) (subscribed t op [])
subscribed_later t (registers topic none) later = refl
subscribed_later t (registers (string s) (some c)) later = ground arith
subscribed_later t (registers (array topics) (some c)) later = refl
subscribed_later t (registers other (some c)) later = refl
subscribed_later t (unregisters c) later = refl

called-apply :
    (t : String) (op : Op) (later : List Op) (d : Dispatcher)
    → filter (kept later) (called t (apply op d))
      ≡ filter (kept (op ∷ later)) (called t d) ++ subscribed t op later
called-apply t (registers topic callback) later d =
    rw (called-register, filter-append, ← subscribed_later t (registers topic callback) later)
called-apply t (unregisters c) later d =
    unfold apply in
    rw (called-unregister, append-nil) (sym (filter-kept_unregister c later (called t d)))

filter_all : (xs : List ℕ) → filter (kept []) xs ≡ xs
filter_all [] = refl
filter_all (x ∷ xs) = ap (x ∷◌) (filter_all xs)

called-run_from :
    (t : String) (ops : List Op) (d : Dispatcher)
    → called t (run ops d) ≡ filter (kept ops) (called t d) ++ subscribers t ops
unfolding run
called-run_from t [] d = rw (filter_all, append-nil)
called-run_from t (op ∷ ops) d =
    rw (called-run_from t ops (apply op d), called-apply t op ops d)
      (append_assoc (filter (kept (op ∷ ops)) (called t d)) (subscribed t op ops)
        (subscribers t ops))

-- After any history of registrations, failed ones included, a dispatch to a topic calls exactly
-- the callbacks that were registered under the topic's own string and not taken off afterwards,
-- in the order of their registrations.
called-run : (t : String) (ops : List Op) → called t (run ops new_dispatcher) ≡ subscribers t ops
unfolding called
called-run t ops = called-run_from t ops new_dispatcher

module _ {ℓ} {P : Type ℓ} {S : Type 0}
    (call : ℕ → P → Dispatcher × S → Called (Dispatcher × S)) where
  abbrev pub with_log : List ℕ → Called (Dispatcher × S) → Called (Dispatcher × (List ℕ × S))
  with_log log (returns (d, s)) = returns (d, (log, s))
  with_log log (throws (d, s)) = throws (d, (log, s))

  -- The same callbacks, each of which is noted in a log as it is called.
  abbrev pub logged : ℕ → P → Dispatcher × (List ℕ × S) → Called (Dispatcher × (List ℕ × S))
  logged c payload (d, (log, s)) = with_log (log ++ c ∷ []) (call c payload (d, s))

  -- Behind the log of earlier calls, all of `cs` were called, or those up to one of them that threw.
  abbrev DeliveredAfter : List ℕ → List ℕ → P → Called (Dispatcher × (List ℕ × S)) → Type 0
  DeliveredAfter earlier cs payload (returns (d, (log, s))) = log ≡ earlier ++ cs
  DeliveredAfter earlier cs payload (throws (d, (log, s))) =
      (before : List ℕ) × (c : ℕ) × (rest : List ℕ) × (w : Dispatcher × S) × (cs
        ≡ before ++ c ∷ rest)
      × (log ≡ earlier ++ (before ++ c ∷ []))
      × (call c payload w ≡ throws (d, s))

  -- All of `cs` were called, or those up to one of them that threw.
  abbrev pub Delivered : List ℕ → P → Called (Dispatcher × (List ℕ × S)) → Type 0
  Delivered cs payload r = DeliveredAfter [] cs payload r

  one_more :
      (earlier : List ℕ) (c : ℕ) (cs : List ℕ) (payload : P)
      (r : Called (Dispatcher × (List ℕ × S)))
      → DeliveredAfter (earlier ++ c ∷ []) cs payload r
      → DeliveredAfter earlier (c ∷ cs) payload r
  one_more earlier c cs payload (returns (d, (log, s))) h = h ∙ append_assoc earlier (c ∷ []) cs
  one_more earlier c cs payload (throws (d, (log, s))) (before, q, rest, w, split, ends, threw) = (
    c ∷ before,
    q,
    rest,
    w,
    ap (c ∷◌) split,
    ends ∙ append_assoc earlier (c ∷ []) (before ++ q ∷ []),
    threw,
  )

  call-DeliveredAfter :
      (earlier : List ℕ) (c : ℕ) (cs : List ℕ) (payload : P) (w : Dispatcher × S)
      (o : Called (Dispatcher × S))
      → call c payload w ≡ o
      → ((d : Dispatcher) (s : S)
          → DeliveredAfter
              (earlier ++ c ∷ [])
              cs
              payload
              (call_each logged cs payload (d, (earlier ++ c ∷ [], s))))
      → DeliveredAfter earlier
          (c ∷ cs)
          payload
          (elim (with_log (earlier ++ c ∷ []) o) as (λ _. Called (Dispatcher × (List ℕ × S))) [
            | returns w' ↦ call_each logged cs payload w'
            | throws w' ↦ throws w'
          ])
  call-DeliveredAfter earlier c cs payload w (throws (d, s)) e ih = ([], c, cs, w, refl, refl, e)
  call-DeliveredAfter earlier c cs payload w (returns (d, s)) e ih =
      one_more earlier c cs payload (call_each logged cs payload (d, (earlier ++ c ∷ [], s)))
        (ih d s)

  call_each-DeliveredAfter :
      (cs : List ℕ) (earlier : List ℕ) (payload : P) (d : Dispatcher) (s : S)
      → DeliveredAfter earlier cs payload (call_each logged cs payload (d, (earlier, s)))
  unfolding call_each
  call_each-DeliveredAfter [] earlier payload d s = sym (append-nil earlier)
  call_each-DeliveredAfter (c ∷ cs) earlier payload d s =
      call-DeliveredAfter earlier c cs payload (d, s) (call c payload (d, s)) refl
        (λ d' s'. call_each-DeliveredAfter cs (earlier ++ c ∷ []) payload d' s')

  -- Whether the callbacks return or throw, and also when they register or take off listeners while
  -- the dispatch runs: a dispatch that returns has called each callback that the history leaves
  -- subscribed at its start once per registration, in order, and no other; one that throws has
  -- called them up to one that threw, and none behind it. A callback registered under an array of
  -- topics is subscribed to none of them.
  pub log-dispatch :
      (t : String) (ops : List Op) (payload : P) (s : S)
      → Delivered
          (subscribers t ops)
          payload
          (dispatch logged t payload (run ops new_dispatcher, ([], s)))
  unfolding dispatch
  log-dispatch t ops payload s =
      subst
        (λ cs. Delivered cs payload (
          call_each logged (called t (run ops new_dispatcher)) payload
            (run ops new_dispatcher, ([], s))))
        (called-run t ops)
        (call_each-DeliveredAfter (called t (run ops new_dispatcher)) [] payload
          (run ops new_dispatcher) s)
