-- ===== src/Filters/AddressFilter.antt =====
-- The filter of frontend/src/components/dialogs/Filters.js that takes an address, as an instance of
-- the text filter.
use caronte.Prelude.{
  ◌≡◌, ◌⊎◌, inl, inr, List, [], ◌∷◌, Option, none, some, Text, All, true, Bool-cases,
}
use caronte.Utils.Regex.{has}
use caronte.Utils.Address.{validate_ip_address}
use caronte.Utils.Address.Quads.{IsDottedQuad, validate_ip_address-IsDottedQuad}
use caronte.Filters.StringFilter.{Props, initial, Event, is_value_valid, run}
use caronte.Filters.StringFilter.Validity.{Accepts, Returns, run-IsAccepted}

abbrev pub client_address : Props
client_address = record {
  filter_name = "client_address";
  decode_func = none;
  replace_func = none;
  validate_func = some validate_ip_address;
  encode_func = none;
}

-- Null, a text of four numbers below 256, or one with a colon.
abbrev pub AddressValue : Option Text → Type 0
AddressValue none = Unit
AddressValue (some v) = IsDottedQuad v ⊎ (has b':' v ≡ true)

AddressValue-Accepts : (v : Option Text) → Accepts client_address v → AddressValue v
unfolding is_value_valid
AddressValue-Accepts none h = tt
AddressValue-Accepts (some v) h = elim (Bool-cases (has b':' v)) [
  | inl colon ↦ inr colon
  | inr none_there ↦ inl ((validate_ip_address-IsDottedQuad v none_there).0 h)
]

client_address-Returns : Returns client_address
unfolding is_value_valid
client_address-Returns x h = h

AddressValue-All : (vs : List (Option Text)) → All (Accepts client_address) vs → All AddressValue vs
AddressValue-All [] h = tt
AddressValue-All (v ∷ vs) h = (AddressValue-Accepts v h.0, AddressValue-All vs h.1)

-- After any history of inputs, payloads and timers, the active value of the address filter and all
-- the values that it has sent are null, four decimal numbers below 256 with full stops between
-- them and white space around, or a text with a colon.
address_filter_values :
    (es : List (Event client_address))
    → AddressValue (run client_address es initial).filter_value
      × All AddressValue (run client_address es initial).sent
address_filter_values es =
    let a =
      run-IsAccepted client_address client_address-Returns es initial
        (record { active = tt; waiting = tt; sent = tt }) in
    (AddressValue-Accepts _ a.active, AddressValue-All _ a.sent)
