-- ===== src/Rules/Form.antt =====
-- The handlers of frontend/src/components/panels/RulesPane.js.
use caronte.Forms.{mark}
use caronte.Prelude.{
  ℕ, zero, suc, Bool, false, not, ◌||◌, List, [], ◌∷◌, ◌++◌, Option, none, some, String, Text,
  length, get_elem?, ◌==◌, string_comparable, nat_comparable, list_comparable, if◌then◌else◌, ltb,
}
use caronte.Utils.Numbers.{to_text}
use caronte.Utils.Validation.{is_valid_color, is_valid_port, is_valid_address}
use caronte.Rules.{
  Rule, Pattern, Errors, get_rules, post_rule, put_rule, State, start, empty_pattern,
}

-- Whether the rule may be sent, and the errors; an error of an earlier attempt stays.
unfoldable pub validate_rule : Rule → Errors → Bool × Errors
validate_rule r e =
    let short = ltb (length r.name) 3 in
    let uncolored = not (is_valid_color r.color) in
    let bad_service = not (is_valid_port (to_text r.filter.service_port) false) in
    let bad_client = not (is_valid_port (to_text r.filter.client_port) false) in
    let bad_address = not (is_valid_address r.filter.client_address) in
    let bad_duration = ltb r.filter.max_duration r.filter.min_duration in
    let bad_bytes = ltb r.filter.max_bytes r.filter.min_bytes in
    let no_patterns = ltb (length r.patterns) 1 in
    (
      not (
          short || uncolored || bad_service || bad_client || bad_address || bad_duration
          || bad_bytes || no_patterns),
      record {
        rule_name = mark short "name.length < 3" e.rule_name;
        rule_color = mark uncolored "color is not hexcolor" e.rule_color;
        rule_service_port = mark bad_service "service_port > 65565" e.rule_service_port;
        rule_client_port = mark bad_client "client_port > 65565" e.rule_client_port;
        rule_client_address =
            mark bad_address "client_address is not ip_address" e.rule_client_address;
        rule_duration = mark bad_duration "min_duration > max_dur." e.rule_duration;
        rule_bytes = mark bad_bytes "min_bytes > max_bytes" e.rule_bytes;
        rule_patterns = mark no_patterns "patterns.length < 1" e.rule_patterns;
      },
    )

unfoldable pub load_rules : State → State
load_rules s = record s { sent = s.sent ++ get_rules ∷ [] }

unfoldable pub reset : State → State
reset s = record start { rules = s.rules; sent = s.sent }

unfoldable pub current_rule : State → Rule
current_rule s = elim s.selected_rule [ none ↦ s.new_rule | some r ↦ r ]

-- A change of the current rule in place.
unfoldable pub set_current : Rule → State → State
set_current r s = elim s.selected_rule [
  | none ↦ record s { new_rule = r }
  | some _ ↦ record s { selected_rule = some r }
]

unfoldable pub update_param : (Rule → Rule) → State → State
unfolding set_current current_rule
update_param callback s =
    let updated_rule = callback (current_rule s) in
    record (set_current updated_rule s) { new_rule = updated_rule }

unfoldable pub change_at : ℕ → (Pattern → Pattern) → List Pattern → List Pattern
change_at i f [] = []
change_at zero f (p ∷ ps) = f p ∷ ps
change_at (suc i) f (p ∷ ps) = p ∷ change_at i f ps

-- A field of the pattern that is being edited changes.
unfoldable pub change_pattern : (Pattern → Pattern) → State → State
unfolding update_param change_at
change_pattern f s = elim s.selected_pattern [
  | none ↦ update_param (λ r. r) (record s { new_pattern = f s.new_pattern })
  | some i ↦ update_param (λ r. record r { patterns = change_at i f r.patterns }) s
]

unfoldable pub change_regex : Text → State → State
unfolding change_pattern
change_regex v s = record (change_pattern (λ p. record p { regex = v }) s) {
  pattern_regex_focused = v == [];
}

unfoldable pub validate_pattern : Pattern → State → Bool × State
validate_pattern p s =
    let no_regex = p.regex == [] in
    let no_count = ltb p.max_occurrences p.min_occurrences in
    (
      not (no_regex || no_count),
      record s {
        pattern_regex_focused = no_regex || s.pattern_regex_focused;
        pattern_occurrences_focused = no_count || s.pattern_occurrences_focused;
      },
    )

unfoldable pub add_pattern : Pattern → State → State
unfolding validate_pattern set_current current_rule
add_pattern p s =
    let (valid, t) = validate_pattern p s in
    let rule = current_rule t in
    if valid
    then record (set_current (record rule { patterns = rule.patterns ++ p ∷ [] }) t) {
      new_pattern = empty_pattern;
    }
    else t

unfoldable pub edit_pattern : ℕ → State → State
edit_pattern i s = record s { selected_pattern = some i }

unfoldable pub update_pattern : Pattern → State → State
unfolding validate_pattern
update_pattern p s =
    let (valid, t) = validate_pattern p s in
    if valid then record t { selected_pattern = none } else t

unfoldable pub add_rule : State → State
unfolding validate_rule
add_rule s =
    let (valid, e) = validate_rule s.new_rule s.errors in
    if valid
    then record s { errors = e; sent = s.sent ++ post_rule s.new_rule ∷ [] }
    else record s { errors = e }

unfoldable pub update_rule : Rule → State → State
unfolding validate_rule
update_rule rule s =
    let (valid, e) = validate_rule rule s.errors in
    if valid
    then record s { errors = e; sent = s.sent ++ put_rule rule.id rule ∷ [] }
    else record s { errors = e }

-- The handlers of the answers.
unfoldable pub rule_saved : Text → State → State
unfolding reset load_rules
rule_saved status s = load_rules (record (reset s) { rule_status_code = some status })

unfoldable pub rule_refused : Option Text → Option Text → State → State
rule_refused status response s = record s { rule_status_code = status; rule_response = response }

unfoldable pub rules_loaded : List Rule → Text → State → State
rules_loaded rules status s = record s { rules = rules; rules_status_code = some status }

unfoldable pub rules_refused : Option Text → Option Text → State → State
rules_refused status response s = record s { rules_status_code = status; rules_response = response }

unfoldable pub handle_notifications : String → State → State
unfolding load_rules
handle_notifications event s =
    if event == "rules.new" || event == "rules.edit" then load_rules s else s

unfoldable pub component_did_mount : State → State
unfolding reset load_rules
component_did_mount s = load_rules (reset s)

-- A click on the row of a rule.
unfoldable pub select_rule : Rule → State → State
unfolding reset
select_rule r s = record (reset s) { selected_rule = some r }

-- The button of the form: `updateRule` where a rule is selected, and else `addRule`.
unfoldable pub submit : State → State
unfolding add_rule update_rule
submit s = elim s.selected_rule [ none ↦ add_rule s | some r ↦ update_rule r s ]

-- The row of buttons and fields of the pattern that is being edited, which is shown with an add
-- button for the new pattern of a new rule, and with a save button for a selected one.
unfoldable pub press_add : State → State
unfolding add_pattern
press_add s = elim s.selected_pattern [
  | none ↦ elim s.selected_rule [ none ↦ add_pattern s.new_pattern s | some _ ↦ s ]
  | some _ ↦ s
]

unfoldable pub press_save : State → State
unfolding update_pattern current_rule
press_save s = elim s.selected_pattern [
  | none ↦ s
  | some i ↦ elim (get_elem? (current_rule s).patterns i) [ none ↦ s | some p ↦ update_pattern p s ]
]

pub data Event : Type 0 where
  mounted : Event
  notified : String → Event
  param_changed : (Rule → Rule) → Event
  regex_changed : Text → Event
  pattern_changed : (Pattern → Pattern) → Event
  add_pressed : Event
  edit_pressed : ℕ → Event
  save_pressed : Event
  cancelled : Event
  selected : Rule → Event
  submitted : Event
  saved : Text → Event
  save_failed : Option Text → Option Text → Event
  loaded : List Rule → Text → Event
  load_failed : Option Text → Option Text → Event

unfoldable pub step : Event → State → State
step mounted s = component_did_mount s
step (notified e) s = handle_notifications e s
step (param_changed f) s = update_param f s
step (regex_changed v) s = change_regex v s
step (pattern_changed f) s = change_pattern f s
step add_pressed s = press_add s
step (edit_pressed i) s = edit_pattern i s
step save_pressed s = press_save s
step cancelled s = reset s
step (selected r) s = select_rule r s
step submitted s = submit s
step (saved status) s = rule_saved status s
step (save_failed status response) s = rule_refused status response s
step (loaded rules status) s = rules_loaded rules status s
step (load_failed status response) s = rules_refused status response s

unfoldable pub run : List Event → State → State
run [] s = s
run (e ∷ es) s = run es (step e s)
