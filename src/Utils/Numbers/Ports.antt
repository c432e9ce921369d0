-- ===== src/Utils/Numbers/Ports.antt =====
-- Which texts `validatePort` of frontend/src/utils.js accepts once `cleanNumber` has been there, as
-- the port filters use the two.
use caronte.Prelude.{
  ℕ, ◌<◌, ◌≡◌, refl, ◌↔◌, true, false, [], inl, inr, ◌==◌, nat_comparable, Text, arith, Bool-cases,
}
use caronte.Utils.Numbers.{to_text, clean_number, validate_port}
use caronte.Utils.Numbers.Decimal.{parse_int-to_text}
use caronte.Utils.Numbers.Clean.{value, clean_number_lem}

validate_port-to_text : (n : ℕ) → (validate_port (to_text n) ≡ true) ↔ ((0 < n) × (n < 65565))
unfolding validate_port
validate_port-to_text n = rw parse_int-to_text (ground arith)

validate_port_empty : validate_port [] ≡ false
unfolding validate_port
validate_port_empty = refl

-- A cleaned text is accepted exactly if its digits spell a number from 1 to 65564.
pub validate_port-clean_number :
    (s : Text) → (validate_port (clean_number s) ≡ true) ↔ ((0 < value s) × (value s < 65565))
validate_port-clean_number s = elim (Bool-cases (value s == 0)) [
  | inl zero_value ↦ ground (arith, clean_number_lem s, validate_port_empty)
  | inr positive ↦ rw (clean_number_lem, positive) (validate_port-to_text (value s))
]
