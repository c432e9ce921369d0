-- ===== src/Connections/Selection.antt =====
-- The rest of the handlers of frontend/src/components/panels/ConnectionsPane.js: the connection that
-- is selected, where the page goes on, and the notifications. `query` prints parameters, and loads
-- of the rules and the services are counted.
use caronte.Prelude.{
  ℕ, ◌+◌, ◌-◌, Bool, true, false, ◌||◌, ◌&&◌, List, [], ◌∷◌, ◌++◌, Option, none, some, String, Text,
  text, length, all, is_digit, leb, ◌==◌, nat_comparable, string_comparable, list_comparable,
  if◌then◌else◌,
}
use caronte.Utils.Params.{Params}

pub record State : Type 0 where
  pub selected : Option Text
  pub shown : List Text
  pub connection_selected_redirect : Bool
  pub query_string_redirect : Bool
  pub url_params : Params
  pub pulse_connections_view : Bool
  pub pulses : ℕ
  pub rules_loads : ℕ
  pub services_loads : ℕ

-- `shown` is the history of the calls of `onSelected`.
unfoldable pub connection_selected : Text → State → State
connection_selected id s = record s {
  connection_selected_redirect = true;
  selected = some id;
  shown = s.shown ++ id ∷ [];
}

unfoldable pub handle_notifications : String → State → State
handle_notifications event s =
    let rules = event == "rules.new" || event == "rules.edit" in
    record s {
      rules_loads = if rules then s.rules_loads + 1 else s.rules_loads;
      services_loads = if event == "services.edit" then s.services_loads + 1 else s.services_loads;
    }

unfoldable pub handle_pulse_connections_view : State → State
handle_pulse_connections_view s = record s { pulse_connections_view = true; pulses = s.pulses + 1 }

-- A timer of a pulse ends.
unfoldable pub end_pulse : State → State
end_pulse s =
    if s.pulses == 0 then s else record s { pulse_connections_view = false; pulses = s.pulses - 1 }

-- The identifier in a path, `/^\/connections\/([a-f0-9]{24})$/`.
abbrev pub is_id_char : ℕ → Bool
is_id_char c = is_digit c || (leb b'a' c && leb c b'f')

abbrev pub after_prefix : Text → Text → Option Text
after_prefix [] path = some path
after_prefix (c ∷ prefix) [] = none
after_prefix (c ∷ prefix) (d ∷ path) =
    let rest = after_prefix prefix path in if c == d then rest else none

unfoldable pub path_id : Text → Option Text
path_id path = elim (after_prefix (text "/connections/") path) [
  | none ↦ none
  | some id ↦ if length id == 24 && all is_id_char id then some id else none
]

-- Where the render leads, and the flag that it takes back; a selected connection goes first.
unfoldable pub redirect : (Params → Text) → Text → State → Option Text × State
redirect query pathname s =
    let id : Text = elim s.selected [ none ↦ text "undefined" | some i ↦ i ] in
    if s.connection_selected_redirect
    then (
      some (text "/connections/" ++ (id ++ (text "?" ++ query s.url_params))),
      record s { connection_selected_redirect = false },
    )
    else if s.query_string_redirect
    then (
      some (pathname ++ (text "?" ++ query s.url_params)),
      record s { query_string_redirect = false },
    )
    else (none, s)
