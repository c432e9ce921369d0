-- ===== src/Rules/Validation.antt =====
-- What the form of frontend/src/components/panels/RulesPane.js asks of a rule.
use caronte.Prelude.{ℕ, ◌≤◌, ◌≡◌, ◌↔◌, refl, true, false, length, arith}
use caronte.Utils.Numbers.{to_text}
use caronte.Utils.Validation.{
  is_valid_color, is_valid_port, is_valid_address, is_valid_port-to_text,
}
use caronte.Rules.{Rule, Errors}
use caronte.Rules.Form.{validate_rule}

pub record IsValidRule (r : Rule) : Type 0 where
  pub named : 3 ≤ length r.name
  pub colored : is_valid_color r.color ≡ true
  pub service : r.filter.service_port ≤ 65565
  pub client : r.filter.client_port ≤ 65565
  pub duration : r.filter.min_duration ≤ r.filter.max_duration
  pub bytes : r.filter.min_bytes ≤ r.filter.max_bytes
  pub patterned : 1 ≤ length r.patterns

valid_port : (n : ℕ) → (is_valid_port (to_text n) false ≡ true) ↔ (n ≤ 65565)
valid_port n = ground (arith, is_valid_port-to_text n false)

address_valid : (r : Rule) → is_valid_address r.filter.client_address ≡ true
unfolding is_valid_address
address_valid r = refl

-- A rule passes exactly if its name has at least three characters, its colour is a hexadecimal one,
-- its ports are at most 65565, no lower bound exceeds the upper bound, and it has a pattern.
pub validate_rule_lem : (r : Rule) (e : Errors) → (validate_rule r e).0 ≡ true ↔ IsValidRule r
unfolding validate_rule
validate_rule_lem r e =
    let a = address_valid r in
    let s = valid_port r.filter.service_port in
    let c = valid_port r.filter.client_port in ground arith
