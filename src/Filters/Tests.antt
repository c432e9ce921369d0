-- ===== src/Filters/Tests.antt =====
-- Sessions of the service port filter, and the theorems of
-- frontend/src/components/filters/StringConnectionsFilter.js at them.
use caronte.Prelude.{false, ◌≡◌, refl, List, [], ◌∷◌, ◌++◌, some, text, map}
use caronte.Utils.Numbers.{clean_number, validate_port}
use caronte.Filters.StringFilter.{
  Props, Timeout, initial, Event, input, timer, step, run, is_value_valid,
}
use caronte.Filters.StringFilter.Debounce.{waiting-input}
use caronte.Filters.PortFilter.{port_filter}

abbrev service_port : Props
service_port = port_filter "service_port"

abbrev typed : List (Event service_port)
typed = input (text "8") ∷ input (text "80") ∷ timer 1 ∷ timer 2 ∷ []

typed-run : run service_port typed initial ≡ record {
  field_value = text "80";
  filter_value = some (text "80");
  timeout_handle = some 2;
  invalid_value = false;
  pending = [];
  next_handle = 3;
  sent = some (text "80") ∷ [];
}
unfolding run clean_number validate_port
typed-run = refl

waiting-input_example :
    (map
        (λ (u : Timeout). u.value)
        (step service_port (input (text "8x0")) (run service_port typed initial)).pending
      ≡ text "80" ∷ [])
    × ((step service_port (input (text "8x0")) (run service_port typed initial)).sent
        ≡ (run service_port typed initial).sent ++ [])
unfolding is_value_valid clean_number validate_port
waiting-input_example = waiting-input service_port typed (text "8x0")
