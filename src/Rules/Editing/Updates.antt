-- ===== src/Rules/Editing/Updates.antt =====
-- What an update from frontend/src/components/panels/RulesPane.js leaves of a rule.
use caronte.Prelude.{
  refl, sym, List, [], ◌∷◌, ◌++◌, append_assoc, append-nil, Text, get_elem?, subst, All, All-imp,
  Any-append_right, string_comparable,
}
use caronte.Rules.{Rule, State, start}
use caronte.Rules.Form.{
  load_rules, reset, rule_refused, rules_loaded, rules_refused, component_did_mount,
}
use caronte.Rules.Editing.{
  Input, field, pattern_field, regex_field, add_pressed, edit_pressed, save_pressed, cancel_pressed,
  row_clicked, submit_pressed, notified, saved, save_failed, loaded, load_failed, step, run,
  known_rules,
}
use caronte.Rules.Editing.Handlers.{
  SameRest, IsUpdate, IsForm, Selects-append, IsUpdate-append, IsKnown-all, field-IsForm,
  pattern-IsForm, regex-IsForm, add-IsForm, save-IsForm, edit-IsForm, row-IsForm, reset-IsForm,
  submit-IsForm, notified-IsForm, saved-IsForm,
}

IsForm-loaded :
    (known rules : List Rule) (status : Text) (s : State)
    → IsForm known s
    → IsForm (known ++ rules) (step (loaded rules status) s)
unfolding step rules_loaded
IsForm-loaded known rules status s v = record {
  selects = Selects-append known rules s.selected_rule s.selected_pattern v.selects;
  lists =
      All-imp (λ r h. Any-append_right (λ q. SameRest q r) known rules h) rules (IsKnown-all rules);
  sends = All-imp (λ q h. IsUpdate-append known rules q h) s.sent v.sends;
}

-- What is known before some inputs, and after them.
run-IsForm_from :
    (known : List Rule) (is : List Input) (s : State)
    → IsForm known s
    → IsForm (known ++ known_rules is) (run is s)
unfolding run step rule_refused rules_refused
run-IsForm_from known [] s v = subst (λ k. IsForm k s) (sym (append-nil known)) v
run-IsForm_from known (loaded rules status ∷ is) s v =
    subst (λ k. IsForm k (run is (step (loaded rules status) s)))
      (append_assoc known rules (known_rules is))
      (run-IsForm_from (known ++ rules) is (step (loaded rules status) s)
        (IsForm-loaded known rules status s v))
run-IsForm_from known (field e ∷ is) s v =
    run-IsForm_from known is (step (field e) s) (field-IsForm known e s.selected_rule s v)
run-IsForm_from known (pattern_field f ∷ is) s v =
    run-IsForm_from known is (step (pattern_field f) s)
      (pattern-IsForm known f s.selected_rule s.selected_pattern s v)
run-IsForm_from known (regex_field w ∷ is) s v =
    run-IsForm_from known is (step (regex_field w) s)
      (regex-IsForm known w s.selected_rule s.selected_pattern s v)
run-IsForm_from known (add_pressed ∷ is) s v =
    run-IsForm_from known is (step add_pressed s)
      (add-IsForm known s.selected_rule s.selected_pattern s v)
run-IsForm_from known (edit_pressed i ∷ is) s v =
    run-IsForm_from known is (step (edit_pressed i) s) (edit-IsForm known i s.selected_rule s v)
run-IsForm_from known (save_pressed ∷ is) s v =
    run-IsForm_from known is (step save_pressed s)
      (save-IsForm known s.selected_rule s.selected_pattern s v)
run-IsForm_from known (cancel_pressed ∷ is) s v =
    run-IsForm_from known is (step cancel_pressed s) (reset-IsForm known s v)
run-IsForm_from known (row_clicked i ∷ is) s v =
    run-IsForm_from known is (step (row_clicked i) s)
      (row-IsForm known (get_elem? s.rules i) i s refl v)
run-IsForm_from known (submit_pressed ∷ is) s v =
    run-IsForm_from known is (step submit_pressed s) (submit-IsForm known s.selected_rule s v)
run-IsForm_from known (notified e ∷ is) s v =
    run-IsForm_from known is (step (notified e) s) (notified-IsForm known e s v)
run-IsForm_from known (saved status ∷ is) s v =
    run-IsForm_from known is (step (saved status) s) (saved-IsForm known status s v)
run-IsForm_from known (save_failed status response ∷ is) s v =
    run-IsForm_from known is (step (save_failed status response) s)
      (record { selects = v.selects; lists = v.lists; sends = v.sends })
run-IsForm_from known (load_failed status response ∷ is) s v =
    run-IsForm_from known is (step (load_failed status response) s)
      (record { selects = v.selects; lists = v.lists; sends = v.sends })

-- After any history of inputs and answers, every update that was sent is of a rule that the backend
-- had listed, under its identifier, and differs from it at most in the name, the colour and the
-- notes: the patterns, the filter and the rest are those that were listed.
pub run-IsUpdate :
    (is : List Input) → All (IsUpdate (known_rules is)) (run is (component_did_mount start)).sent
unfolding component_did_mount load_rules reset
run-IsUpdate is =
    let v =
      run-IsForm_from [] is (component_did_mount start)
        (record { selects = tt; lists = tt; sends = (tt, tt) }) in
    v.sends
