-- ===== src/Rules/EditingTests.antt =====
-- A session of the form in frontend/src/components/panels/RulesPane.js that updates a rule, and the
-- theorem at it.
use caronte.Prelude.{◌≡◌, refl, All, List, [], ◌∷◌, some, text}
use caronte.Rules.{Rule, empty_rule, empty_pattern, get_rules, put_rule, start}
use caronte.Utils.Numbers.{parse_int, to_text}
use caronte.Utils.Validation.{is_valid_color, is_valid_port, is_valid_address}
use caronte.Rules.Form.{component_did_mount, submit, update_param, rules_loaded}
use caronte.Rules.Editing.{
  name, service_port, Input, field, row_clicked, submit_pressed, loaded, run, known_rules,
}
use caronte.Rules.Editing.Handlers.{IsUpdate}
use caronte.Rules.Editing.Updates.{run-IsUpdate}

abbrev stored_rule : Rule
stored_rule = record empty_rule {
  id = some (text "5f2");
  name = text "flags";
  color = text "#e53935";
  patterns = record empty_pattern { regex = text "/flag/" } ∷ [];
}

-- The port is for reading only, and keeps its value.
abbrev renaming : List Input
renaming =
    loaded (stored_rule ∷ []) (text "200 OK")
    ∷ row_clicked 0
    ∷ field (name (text "flag_out"))
    ∷ field (service_port 80)
    ∷ submit_pressed
    ∷ []

renaming-sent :
    (run renaming (component_did_mount start)).sent
    ≡ get_rules ∷ put_rule (some (text "5f2")) (record stored_rule { name = text "flag_out" }) ∷ []
unfolding run component_did_mount submit update_param rules_loaded is_valid_color is_valid_port
    parse_int to_text is_valid_address
renaming-sent = refl

run-IsUpdate_example :
    All (IsUpdate (known_rules renaming)) (run renaming (component_did_mount start)).sent
run-IsUpdate_example = run-IsUpdate renaming
