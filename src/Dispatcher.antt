-- ===== src/Dispatcher.antt =====
-- frontend/src/dispatcher.js: the publish and subscribe hub of the frontend. A callback is known
-- by its reference, a number; what it does when it is called is an argument of `dispatch`.
pub mod Delivery
pub mod Registration
pub mod Tests
use caronte.Prelude.{
  ℕ, String, Bool, true, false, not, List, [], ◌∷◌, ◌++◌, map, Option, none, some, filter, all,
  Comparable, ◌==◌, nat_comparable, string_comparable, option_comparable, if◌then◌else◌,
}

-- The object pushed on `listeners`. `topic` is `none` where the object has no such property.
pub record Listener : Type 0 where
  pub topic : Option String
  pub callback : ℕ

pub record Dispatcher : Type 0 where
  pub listeners : List Listener

abbrev pub new_dispatcher : Dispatcher
new_dispatcher = record { listeners = [] }

-- What a caller may pass as topic: an array holds strings and other values (`none`).
pub data Topic : Type 0 where
  string : String → Topic
  array : List (Option String) → Topic
  other : Topic

pub data Error : Type 0 where
  callback_not_function topics_not_strings topic_not_valid : Error

pub data Result : Type 0 where
  done : Dispatcher → Result
  throw : Error → Result

is_string : Option String → Bool
is_string none = false
is_string (some s) = true

-- `{topic, callback}`
listener : String → ℕ → Listener
listener topic callback = record { topic = some topic; callback = callback }

-- `{e, callback}`: the shorthand names the property `e`, so there is no `topic`.
element_listener : ℕ → Option String → Listener
element_listener callback e = record { topic = none; callback = callback }

push_all : Dispatcher → List Listener → Dispatcher
push_all d ls = record { listeners = d.listeners ++ ls }

unfoldable pub register_function : Topic → ℕ → Dispatcher → Result
unfolding listener element_listener push_all is_string
register_function (string topic) c d = done (push_all d (listener topic c ∷ []))
register_function (array topics) c d =
    if all is_string topics
    then done (push_all d (map (element_listener c) topics))
    else throw topics_not_strings
register_function other c d = throw topic_not_valid

-- The callback is `none` where the caller passes something that is not a function.
unfoldable pub register : Topic → Option ℕ → Dispatcher → Result
unfolding register_function
register topic none d = throw callback_not_function
register topic (some c) d = register_function topic c d

unfoldable pub unregister : ℕ → Dispatcher → Dispatcher
unregister c d = record { listeners = filter (λ l. not (l.callback == c)) d.listeners }

-- The callbacks that a dispatch to `topic` calls, in order.
unfoldable pub called : String → Dispatcher → List ℕ
called topic d = map (λ l. l.callback) (filter (λ l. l.topic == some topic) d.listeners)

-- A call returns or throws; either may have changed the world before.
pub data Called {ℓ} (W : Type ℓ) : Type ℓ where
  returns throws : W → Called W

-- A callback changes the dispatcher and the rest of the page, `S`.
module _ {ℓ κ} {P : Type ℓ} {S : Type κ}
    (call : ℕ → P → Dispatcher × S → Called (Dispatcher × S)) where
  -- `forEach` ends with the first callback that throws.
  unfoldable pub call_each : List ℕ → P → Dispatcher × S → Called (Dispatcher × S)
  call_each [] payload w = returns w
  call_each (c ∷ cs) payload w = elim (call c payload w) [
    | returns w' ↦ call_each cs payload w'
    | throws w' ↦ throws w'
  ]

  -- `filter` copies the listeners before the first of them is called.
  unfoldable pub dispatch : String → P → Dispatcher × S → Called (Dispatcher × S)
  unfolding call_each called
  dispatch topic payload (d, s) = call_each (called topic d) payload (d, s)
