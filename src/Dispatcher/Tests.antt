-- ===== src/Dispatcher/Tests.antt =====
-- Runs of frontend/src/dispatcher.js, and its theorems at concrete histories.
use caronte.Prelude.{
  ℕ, String, ◌≡◌, refl, List, [], ◌∷◌, none, some, ◌+◌, ◌==◌, nat_comparable, if◌then◌else◌,
}
use caronte.Dispatcher.{
  Dispatcher, string, array, throw, new_dispatcher, register, unregister, called, dispatch, Called,
  returns, throws, topics_not_strings,
}
use caronte.Dispatcher.Delivery.{
  Op, registers, unregisters, run, apply, log-dispatch, logged, Delivered,
}

abbrev history : List Op
history =
    registers (string "notifications") (some 1)
    ∷ registers (string "connections_filters") (some 2)
    ∷ registers (array (some "notifications" ∷ some "timeline_updates" ∷ [])) (some 3)
    ∷ registers (string "notifications") (some 4)
    ∷ registers (string "notifications") none
    ∷ registers (string "notifications") (some 2)
    ∷ unregisters 1
    ∷ []

called-history : called "notifications" (run history new_dispatcher) ≡ 4 ∷ 2 ∷ []
unfolding called run apply register unregister
called-history = refl

register_mixed_array :
    register (array (some "a" ∷ none ∷ [])) (some 1) new_dispatcher ≡ throw topics_not_strings
unfolding register
register_mixed_array = refl

-- Callback 4 takes 2 off while the dispatch runs.
abbrev call : ℕ → String → Dispatcher × ℕ → Called (Dispatcher × ℕ)
call c payload (d, n) = returns (unregister 2 d, n + c)

log-dispatch_example :
    Delivered call
      (4 ∷ 2 ∷ [])
      "x"
      (dispatch (logged call) "notifications" "x" (run history new_dispatcher, ([], 0)))
log-dispatch_example = log-dispatch call "notifications" history "x" 0

-- Callback 4 throws, and 2 is not called.
abbrev call_throwing : ℕ → String → Dispatcher × ℕ → Called (Dispatcher × ℕ)
call_throwing c payload (d, n) = if c == 4 then throws (d, n) else returns (d, n + c)

dispatch-throwing :
    dispatch call_throwing "notifications" "x" (run history new_dispatcher, 0)
    ≡ throws (run history new_dispatcher, 0)
unfolding dispatch run apply register unregister
dispatch-throwing = refl
