-- ===== src/Filters/PortFilter.antt =====
-- The filters of frontend/src/components/Header.js and frontend/src/components/dialogs/Filters.js
-- that take numbers, as instances of the text filter.
use caronte.Prelude.{String, ◌<◌, List, [], ◌∷◌, Option, none, some, Text, pos, All}
use caronte.Utils.Numbers.{clean_number, validate_port, validate_min}
use caronte.Utils.Numbers.Clean.{value, value-clean_number}
use caronte.Utils.Numbers.Ports.{validate_port-clean_number}
use caronte.Filters.StringFilter.{Props, initial, Event, is_value_valid, run}
use caronte.Filters.StringFilter.Validity.{Accepts, Returns, run-IsAccepted}

-- `service_port` in the header and `client_port` in the dialog.
abbrev pub port_filter : String → Props
port_filter name = record {
  filter_name = name;
  decode_func = none;
  replace_func = some clean_number;
  validate_func = some validate_port;
  encode_func = none;
}

-- `min_duration` and `min_bytes` in the dialog.
abbrev pub min_filter : String → Props
min_filter name = record {
  filter_name = name;
  decode_func = none;
  replace_func = some clean_number;
  validate_func = some (validate_min (pos 0));
  encode_func = none;
}

-- Null, or a text whose digits spell a number from 1 to 65564.
abbrev pub PortValue : Option Text → Type 0
PortValue none = Unit
PortValue (some v) = (0 < value v) × (value v < 65565)

PortValue-Accepts : (name : String) (v : Option Text) → Accepts (port_filter name) v → PortValue v
unfolding is_value_valid
PortValue-Accepts name none h = tt
PortValue-Accepts name (some v) h = (validate_port-clean_number v).0 h

port_filter-Returns : (name : String) → Returns (port_filter name)
unfolding is_value_valid
port_filter-Returns name x h =
    (validate_port-clean_number (clean_number x)).1
      (rw value-clean_number ((validate_port-clean_number x).0 h))

PortValue-All :
    (name : String) (vs : List (Option Text))
    → All (Accepts (port_filter name)) vs
    → All PortValue vs
PortValue-All name [] h = tt
PortValue-All name (v ∷ vs) h = (PortValue-Accepts name v h.0, PortValue-All name vs h.1)

-- After any history of inputs, payloads and timers, the active value of a port filter and all the
-- values that it has sent are null or spell a number from 1 to 65564.
port_filter_values :
    (name : String) (es : List (Event (port_filter name)))
    → PortValue (run (port_filter name) es initial).filter_value
      × All PortValue (run (port_filter name) es initial).sent
port_filter_values name es =
    let a =
      run-IsAccepted (port_filter name) (port_filter-Returns name) es initial
        (record { active = tt; waiting = tt; sent = tt }) in
    (PortValue-Accepts name _ a.active, PortValue-All name _ a.sent)
