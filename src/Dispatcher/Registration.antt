-- ===== src/Dispatcher/Registration.antt =====
-- What frontend/src/dispatcher.js accepts, and what becomes of an array of topics.
use caronte.Prelude.{
  ℕ, String, ◌≡◌, refl, ◌∙◌, false, not, List, [], ◌∷◌, ◌++◌, map, Option, some, filter, length,
  length-append, length-map, arith, ◌==◌, nat_comparable, string_comparable, option_comparable, ◌+◌,
  ==_refl, append-nil, filter-append,
}
use mathlib.Core.Path.{ap₂}
use caronte.Dispatcher.{
  Dispatcher, Listener, Topic, string, array, other, done, register, unregister, called,
  element_listener, listener, push_all,
}

-- The callback is in no listener.
abbrev pub Absent : ℕ → List Listener → Type 0
Absent c [] = Unit
Absent c (l ∷ ls) = ((l.callback == c) ≡ false) × Absent c ls

module _ (c : ℕ) where
  abbrev others : List Listener → List Listener
  others = filter (λ l. not (l.callback == c))

  others-Absent : (ls : List Listener) → Absent c ls → others ls ≡ ls
  others-Absent [] h = refl
  others-Absent (l ∷ ls) h = ground (arith, others-Absent ls h.1)

  others-elements : (es : List (Option String)) → others (map (element_listener c) es) ≡ []
  unfolding element_listener
  others-elements [] = refl
  others-elements (e ∷ es) = ground (arith, others-elements es, ==_refl c)

  others-listener : (s : String) → others (listener s c ∷ []) ≡ []
  unfolding listener
  others-listener s = ground (arith, ==_refl c)

  unregister-push_all :
      (d : Dispatcher) (ls : List Listener)
      → Absent c d.listeners
      → others ls ≡ []
      → unregister c (push_all d ls) ≡ d
  unfolding unregister push_all
  unregister-push_all d ls h e =
      let p : others (d.listeners ++ ls) ≡ d.listeners =
        filter-append _ d.listeners ls ∙ ap₂ ◌++◌ (others-Absent d.listeners h) e ∙ append-nil _ in
      λ i. record { listeners = p i }

  -- Taking off a callback undoes its registration, under one topic or an array of them, if it had
  -- not been registered before.
  unregister-register :
      (topic : Topic) (d : Dispatcher) {d' : Dispatcher}
      → Absent c d.listeners
      → register topic (some c) d ≡ done d'
      → unregister c d' ≡ d
  unfolding register
  unregister-register (string s) d h e =
      ground (arith, unregister-push_all d (listener s c ∷ []) h (others-listener s))
  unregister-register (array topics) d h e =
      ground
        (arith, unregister-push_all d (map (element_listener c) topics) h (others-elements topics))
  unregister-register other d h e = cc

called-elements :
    (t : String) (c : ℕ) (es : List (Option String)) (ls : List Listener)
    → called t (record { listeners = ls ++ map (element_listener c) es })
      ≡ called t (record { listeners = ls })
unfolding called element_listener
called-elements t c [] [] = refl
called-elements t c (e ∷ es) [] = called-elements t c es []
called-elements t c es (l ∷ ls) = ground (arith, called-elements t c es ls)

called-push_elements :
    (t : String) (c : ℕ) (es : List (Option String)) (d : Dispatcher)
    → called t (push_all d (map (element_listener c) es)) ≡ called t d
unfolding push_all
called-push_elements t c es d = called-elements t c es d.listeners

-- A callback registered under an array of topics is stored once for each of them, and no dispatch
-- to any topic calls it on that account.
called-register_array :
    (t : String) (topics : List (Option String)) (c : ℕ) (d : Dispatcher) {d' : Dispatcher}
    → register (array topics) (some c) d ≡ done d'
    → (called t d' ≡ called t d) × (length d'.listeners ≡ length d.listeners + length topics)
unfolding register push_all
called-register_array t topics c d e = ground (
  arith,
  called-push_elements t c topics d,
  length-append d.listeners (map (element_listener c) topics),
  length-map topics (element_listener c),
)
