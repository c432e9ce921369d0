-- ===== src/Rules/Patterns.antt =====
-- The patterns of a new rule in frontend/src/components/panels/RulesPane.js.
use caronte.Prelude.{
  ℕ, zero, suc, ◌<◌, ◌≡◌, refl, ap, ◌∙◌, true, false, List, [], ◌∷◌, ◌++◌, none, some, length,
  get_elem?, arith, list_comparable, nat_comparable,
}
use caronte.Rules.{Rule, Pattern, post_rule, State}
use caronte.Rules.Form.{
  change_at, current_rule, set_current, update_param, change_regex, validate_pattern, edit_pattern,
  add_rule, submit, edit_pressed, regex_changed, submitted, step, run,
}
use caronte.Rules.Validation.{IsValidRule, validate_rule_lem}

change_at-length :
    (i : ℕ) (f : Pattern → Pattern) (ps : List Pattern) → length (change_at i f ps) ≡ length ps
unfolding change_at
change_at-length i f [] = refl
change_at-length zero f (p ∷ ps) = refl
change_at-length (suc i) f (p ∷ ps) = rw (change_at-length i f ps)

change_at-get_elem? :
    (i : ℕ) (f : Pattern → Pattern) (ps : List Pattern)
    → i < length ps
    → (p : Pattern) × get_elem? (change_at i f ps) i ≡ some (f p)
unfolding change_at
change_at-get_elem? i f [] h = elim h [ ]
change_at-get_elem? zero f (p ∷ ps) h = (p, refl)
change_at-get_elem? (suc i) f (p ∷ ps) h = change_at-get_elem? i f ps (omega arith)

abbrev no_regex : Pattern → Pattern
no_regex p = record p { regex = [] }

abbrev cleared : ℕ → Rule → Rule
cleared i r = record r { patterns = change_at i no_regex r.patterns }

cleared-IsValidRule : (i : ℕ) (r : Rule) → IsValidRule r → IsValidRule (cleared i r)
cleared-IsValidRule i r v = record {
  named = v.named;
  colored = v.colored;
  service = v.service;
  client = v.client;
  duration = v.duration;
  bytes = v.bytes;
  patterned = rw (change_at-length i no_regex r.patterns) v.patterned;
}

add_rule-sent :
    (s : State) → IsValidRule s.new_rule → (add_rule s).sent ≡ s.sent ++ post_rule s.new_rule ∷ []
unfolding add_rule
add_rule-sent s v = rw ((validate_rule_lem s.new_rule s.errors).1 v)

abbrev edited : ℕ → State → State
edited i s = record s {
  selected_pattern = some i;
  new_rule = cleared i s.new_rule;
  pattern_regex_focused = true;
}

change_regex-edit_pattern :
    (s : State) (i : ℕ) → s.selected_rule ≡ none → change_regex [] (edit_pattern i s) ≡ edited i s
unfolding change_regex edit_pattern update_param set_current current_rule
change_regex-edit_pattern s i e =
    rw (e, change_regex, update_param, set_current, current_rule)
      (ap (λ u. record (edited i s) { selected_rule = u }) e)

submit-sent :
    (s : State)
    → s.selected_rule ≡ none
    → IsValidRule s.new_rule
    → (submit s).sent ≡ s.sent ++ post_rule s.new_rule ∷ []
unfolding submit
submit-sent s e v = rw (e, submit) (add_rule-sent s v)

run_edit :
    (s : State) (i : ℕ)
    → run (edit_pressed i ∷ regex_changed [] ∷ submitted ∷ []) s
      ≡ submit (change_regex [] (edit_pattern i s))
unfolding run step
run_edit s i = refl

-- Where a new rule satisfies the conditions of the form, a press on edit for one of its patterns,
-- an emptied regex and a press on add send the rule with that pattern, which the check of patterns
-- refuses.
run-edit_pressed :
    (s : State) (i : ℕ)
    → s.selected_rule ≡ none
    → IsValidRule s.new_rule
    → i < length s.new_rule.patterns
    → let r = cleared i s.new_rule in
      ((run (edit_pressed i ∷ regex_changed [] ∷ submitted ∷ []) s).sent
        ≡ s.sent ++ post_rule r ∷ [])
      × ((p : Pattern) × (get_elem? r.patterns i ≡ some p) × ((validate_pattern p s).0 ≡ false))
unfolding validate_pattern
run-edit_pressed s i e v h =
    let (p, got) = change_at-get_elem? i no_regex s.new_rule.patterns h in
    let steps = run_edit s i ∙ ap submit (change_regex-edit_pattern s i e) in
    let sent = submit-sent (edited i s) e (cleared-IsValidRule i s.new_rule v) in
    (ap (λ (t : State). t.sent) steps ∙ sent, (no_regex p, got, refl))
