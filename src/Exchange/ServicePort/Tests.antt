-- ===== src/Exchange/ServicePort/Tests.antt =====
-- A session with the port filter: a click on a service, a port that is typed, and a search.
use caronte.Prelude.{ℕ, ◌≡◌, refl, List, [], ◌∷◌, none, some, text, arith}
use caronte.Utils.Params
use caronte.Utils.Params.{Params, get}
use caronte.Filters.StringFilter.{entry}
use caronte.Filters.FlagFilters.{as_update}
use caronte.Utils.Numbers.{validate_port, clean_number, value_from}
use caronte.Exchange.ServicePort.{
  Sharing, Event, typed, fired, pressed, filtered, rules_filtered, run, mount,
}
use caronte.Exchange.ServicePort.Agreement.{Agrees, run-mount-Agrees}

abbrev session : List Event
session =
    pressed 8080
    ∷ typed (text "04x43")
    ∷ filtered (("performed_search", some (text "5f")) ∷ [])
    ∷ rules_filtered (text "r1" ∷ [])
    ∷ fired 1
    ∷ []

abbrev address : Params
address = ("service_port", text "80") ∷ []

abbrev afterwards : Sharing ℕ
afterwards = run session (mount none address)

run-mount-Agrees_example : Agrees (run {A = ℕ} session (mount none address))
unfolding get value_from as_update Params.entry entry
run-mount-Agrees_example =
    run-mount-Agrees ℕ session none address (omega arith, omega arith)
      ((omega arith, omega arith), (tt, (((refl, tt), tt), (tt, (tt, tt)))))

typed_port : afterwards.charted.service_port_filter ≡ some (text "443")
unfolding run mount validate_port clean_number
typed_port = refl

-- A port of the address that the field does not accept: the list and the timeline take it.
abbrev refused : Sharing ℕ
refused = mount none (("service_port", text "70000") ∷ [])

refused-field :
    (refused.field.filter_value ≡ none)
    × ((get "service_port" refused.listed.url_params ≡ some (text "70000"))
        × (refused.charted.service_port_filter ≡ some (text "70000")))
unfolding mount get validate_port clean_number
refused-field = (refl, (refl, refl))

-- A click on the service of a connection to port 0.
abbrev pressed_zero : Sharing ℕ
pressed_zero = run (pressed 0 ∷ []) (mount none [])

pressed_zero-field :
    (pressed_zero.field.filter_value ≡ none)
    × (pressed_zero.charted.service_port_filter ≡ some (text "0"))
unfolding run mount validate_port clean_number
pressed_zero-field = (refl, refl)
