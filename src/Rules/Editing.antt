-- ===== src/Rules/Editing.antt =====
-- The form of frontend/src/components/panels/RulesPane.js as it is rendered: which of its fields may
-- be edited, the row of the pattern that is being edited, and the rows of the rules.
pub mod Handlers
pub mod Updates
use caronte.Prelude.{
  ℕ, Bool, true, false, not, ◌||◌, List, [], ◌∷◌, ◌++◌, Option, none, some, String, Text, get_elem?,
  if◌then◌else◌,
}
use caronte.Rules.{Rule, Filter, Pattern, State}
use caronte.Rules.Form.{
  update_param, change_pattern, change_regex, press_add, press_save, edit_pattern, select_rule,
  reset, submit, rule_saved, rule_refused, rules_loaded, rules_refused, handle_notifications,
}

-- A field of the rule gets a value.
pub data FieldEdit : Type 0 where
  name : Text → FieldEdit
  color : Text → FieldEdit
  notes : Text → FieldEdit
  service_port : ℕ → FieldEdit
  client_port : ℕ → FieldEdit
  client_address : Text → FieldEdit
  min_duration : ℕ → FieldEdit
  max_duration : ℕ → FieldEdit
  min_bytes : ℕ → FieldEdit
  max_bytes : ℕ → FieldEdit

unfoldable pub edit_filter : FieldEdit → Filter → Filter
edit_filter (service_port v) f = record f { service_port = v }
edit_filter (client_port v) f = record f { client_port = v }
edit_filter (client_address v) f = record f { client_address = v }
edit_filter (min_duration v) f = record f { min_duration = v }
edit_filter (max_duration v) f = record f { max_duration = v }
edit_filter (min_bytes v) f = record f { min_bytes = v }
edit_filter (max_bytes v) f = record f { max_bytes = v }
edit_filter e f = f

-- The fields of the filter are for reading only while a rule is updated.
unfoldable pub edit_field : Bool → FieldEdit → Rule → Rule
unfolding edit_filter
edit_field is_update (name v) r = record r { name = v }
edit_field is_update (color v) r = record r { color = v }
edit_field is_update (notes v) r = record r { notes = v }
edit_field is_update e r = if is_update then r else record r { filter = edit_filter e r.filter }

abbrev pub is_given {ℓ} : {A : Type ℓ} → Option A → Bool
is_given none = false
is_given (some a) = true

-- Whether a pattern is shown in fields: the one that is selected, or the new one of a new rule.
unfoldable pub has_pattern_row : State → Bool
has_pattern_row s = is_given s.selected_pattern || not (is_given s.selected_rule)

-- The row of a rule is clicked.
unfoldable pub click_row : Option Rule → State → State
unfolding select_rule
click_row none s = s
click_row (some r) s = select_rule r s

pub data Input : Type 0 where
  field : FieldEdit → Input
  pattern_field : (Pattern → Pattern) → Input
  regex_field : Text → Input
  add_pressed : Input
  edit_pressed : ℕ → Input
  save_pressed : Input
  cancel_pressed : Input
  row_clicked : ℕ → Input
  submit_pressed : Input
  notified : String → Input
  saved : Text → Input
  save_failed : Option Text → Option Text → Input
  loaded : List Rule → Text → Input
  load_failed : Option Text → Option Text → Input

unfoldable pub step : Input → State → State
unfolding edit_field has_pattern_row click_row
step (field e) s = update_param (edit_field (is_given s.selected_rule) e) s
step (pattern_field f) s = if has_pattern_row s then change_pattern f s else s
step (regex_field v) s = if has_pattern_row s then change_regex v s else s
step add_pressed s = press_add s
step (edit_pressed i) s = if is_given s.selected_rule then s else edit_pattern i s
step save_pressed s = press_save s
step cancel_pressed s = reset s
step (row_clicked i) s = click_row (get_elem? s.rules i) s
step submit_pressed s = submit s
step (notified e) s = handle_notifications e s
step (saved status) s = rule_saved status s
step (save_failed status response) s = rule_refused status response s
step (loaded rules status) s = rules_loaded rules status s
step (load_failed status response) s = rules_refused status response s

unfoldable pub run : List Input → State → State
unfolding step
run [] s = s
run (i ∷ is) s = run is (step i s)

-- The rules that the backend has sent.
abbrev pub known_rules : List Input → List Rule
known_rules [] = []
known_rules (loaded rules status ∷ is) = rules ++ known_rules is
known_rules (i ∷ is) = known_rules is
