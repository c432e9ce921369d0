-- ===== src/Rules/Tests.antt =====
-- A rule that is filled in, and the theorems on the form of
-- frontend/src/components/panels/RulesPane.js at it.
use caronte.Prelude.{refl, List, [], ◌∷◌, text, All, arith}
use caronte.Utils.Validation.{is_valid_color}
use caronte.Rules.{Rule, Pattern, empty_rule, empty_pattern, State, start}
use caronte.Rules.Form.{Event, param_changed, regex_changed, add_pressed, submitted, run}
use caronte.Rules.Validation.{IsValidRule}
use caronte.Rules.Sending.{IsValidRequest, run-sent}

abbrev flag_pattern : Pattern
flag_pattern = record empty_pattern { regex = text "flag" }

abbrev flag_rule : Rule
flag_rule = record empty_rule {
  name = text "flag_out";
  color = text "#e53935";
  patterns = flag_pattern ∷ [];
  filter = record (empty_rule.filter) { min_duration = 10; max_duration = 500; max_bytes = 4096 };
}

abbrev filled : State
filled = record start { new_rule = flag_rule }

flag_rule-IsValidRule : IsValidRule flag_rule
unfolding is_valid_color
flag_rule-IsValidRule = record {
  named = omega arith;
  colored = refl;
  service = omega arith;
  client = omega arith;
  duration = omega arith;
  bytes = omega arith;
  patterned = omega arith;
}

abbrev session : List Event
session =
    param_changed (λ r. record r { name = text "flag_out"; color = text "#e53935" })
    ∷ regex_changed (text "flag")
    ∷ add_pressed
    ∷ submitted
    ∷ []

run-sent_example : All IsValidRequest (run session start).sent
run-sent_example = run-sent session
