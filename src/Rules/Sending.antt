-- ===== src/Rules/Sending.antt =====
-- Which rules the form of frontend/src/components/panels/RulesPane.js sends.
use caronte.Prelude.{
  All-append_one, ◌≡◌, refl, ◌||◌, List, [], ◌∷◌, some, String, All, Bool-cases, Option-cases, inl,
  inr, ◌==◌, string_comparable, get_elem?,
}
use caronte.Rules.{Rule, Pattern, Request, get_rules, post_rule, put_rule, State, start}
use caronte.Rules.Form.{
  validate_rule, load_rules, reset, current_rule, set_current, update_param, change_at,
  change_pattern, change_regex, validate_pattern, add_pattern, edit_pattern, update_pattern,
  add_rule, update_rule, rule_saved, rule_refused, rules_loaded, rules_refused,
  handle_notifications, component_did_mount, select_rule, submit, press_add, press_save, step, run,
  Event, mounted, notified, param_changed, regex_changed, pattern_changed, add_pressed,
  edit_pressed, save_pressed, cancelled, selected, submitted, saved, save_failed, loaded,
  load_failed,
}
use caronte.Rules.Validation.{IsValidRule, validate_rule_lem}

abbrev pub IsValidRequest : Request → Type 0
IsValidRequest get_rules = Unit
IsValidRequest (post_rule r) = IsValidRule r
IsValidRequest (put_rule i r) = IsValidRule r

abbrev AllValid : State → Type 0
AllValid s = All IsValidRequest s.sent

load-AllValid : (s : State) → AllValid s → AllValid (load_rules s)
unfolding load_rules
load-AllValid s v = All-append_one IsValidRequest s.sent get_rules v tt

add-AllValid : (s : State) → AllValid s → AllValid (add_rule s)
unfolding add_rule
add-AllValid s v = elim (Bool-cases (validate_rule s.new_rule s.errors).0) [
  | inl e ↦ rw e (
      All-append_one IsValidRequest s.sent (post_rule s.new_rule) v
        ((validate_rule_lem s.new_rule s.errors).0 e))
  | inr e ↦ rw e v
]

update-AllValid : (r : Rule) (s : State) → AllValid s → AllValid (update_rule r s)
unfolding update_rule
update-AllValid r s v = elim (Bool-cases (validate_rule r s.errors).0) [
  | inl e ↦ rw e (
      All-append_one IsValidRequest s.sent (put_rule r.id r) v ((validate_rule_lem r s.errors).0 e))
  | inr e ↦ rw e v
]

submit-AllValid : (s : State) → AllValid s → AllValid (submit s)
unfolding submit
submit-AllValid s v = elim (Option-cases s.selected_rule) [
  | inl e ↦ rw (e, submit) (add-AllValid s v)
  | inr (r, e) ↦ rw (e, submit) (update-AllValid r s v)
]

notified-AllValid : (e : String) (s : State) → AllValid s → AllValid (handle_notifications e s)
unfolding handle_notifications
notified-AllValid e s v = elim (Bool-cases (e == "rules.new" || e == "rules.edit")) [
  | inl h ↦ rw h (load-AllValid s v)
  | inr h ↦ rw h v
]

-- The handlers that send nothing.
update_param-sent : (f : Rule → Rule) (s : State) → (update_param f s).sent ≡ s.sent
unfolding update_param set_current
update_param-sent f s = elim (Option-cases s.selected_rule) [
  | inl e ↦ rw (e, set_current) refl
  | inr (r, e) ↦ rw (e, set_current) refl
]

change_pattern-sent : (f : Pattern → Pattern) (s : State) → (change_pattern f s).sent ≡ s.sent
unfolding change_pattern
change_pattern-sent f s = elim (Option-cases s.selected_pattern) [
  | inl e ↦
      rw (e, change_pattern)
        (update_param-sent (λ r. r) (record s { new_pattern = f s.new_pattern }))
  | inr (i, e) ↦
      rw (e, change_pattern)
        (update_param-sent (λ r. record r { patterns = change_at i f r.patterns }) s)
]

set_current-sent : (r : Rule) (s : State) → (set_current r s).sent ≡ s.sent
unfolding set_current
set_current-sent r s = elim (Option-cases s.selected_rule) [
  | inl e ↦ rw (e, set_current) refl
  | inr (q, e) ↦ rw (e, set_current) refl
]

add_pattern-sent : (p : Pattern) (s : State) → (add_pattern p s).sent ≡ s.sent
unfolding add_pattern validate_pattern
add_pattern-sent p s = elim (Bool-cases (validate_pattern p s).0) [
  | inl e ↦ rw e (set_current-sent _ _)
  | inr e ↦ rw e refl
]

press_add-sent : (s : State) → (press_add s).sent ≡ s.sent
unfolding press_add
press_add-sent s = elim (Option-cases s.selected_pattern) [
  | inl e ↦ elim (Option-cases s.selected_rule) [
    | inl h ↦ rw (e, h, press_add) (add_pattern-sent s.new_pattern s)
    | inr (r, h) ↦ rw (e, h, press_add) refl
  ]
  | inr (i, e) ↦ rw (e, press_add) refl
]

update_pattern-sent : (p : Pattern) (s : State) → (update_pattern p s).sent ≡ s.sent
unfolding update_pattern validate_pattern
update_pattern-sent p s = elim (Bool-cases (validate_pattern p s).0) [
  | inl e ↦ rw e refl
  | inr e ↦ rw e refl
]

press_save-sent : (s : State) → (press_save s).sent ≡ s.sent
unfolding press_save
press_save-sent s = elim (Option-cases s.selected_pattern) [
  | inl e ↦ rw (e, press_save) refl
  | inr (i, e) ↦ elim (Option-cases (get_elem? (current_rule s).patterns i)) [
    | inl h ↦ rw (e, h, press_save) refl
    | inr (p, h) ↦ rw (e, h, press_save) (update_pattern-sent p s)
  ]
]

step-AllValid : (e : Event) (s : State) → AllValid s → AllValid (step e s)
unfolding step component_did_mount rule_saved rule_refused rules_loaded rules_refused select_rule
    edit_pattern reset change_regex
step-AllValid mounted s v = load-AllValid (reset s) v
step-AllValid (notified e) s v = notified-AllValid e s v
step-AllValid (param_changed f) s v = rw (update_param-sent f s) v
step-AllValid (regex_changed x) s v = rw (change_pattern-sent _ s) v
step-AllValid (pattern_changed f) s v = rw (change_pattern-sent f s) v
step-AllValid add_pressed s v = rw (press_add-sent s) v
step-AllValid (edit_pressed i) s v = v
step-AllValid save_pressed s v = rw (press_save-sent s) v
step-AllValid cancelled s v = v
step-AllValid (selected r) s v = v
step-AllValid submitted s v = submit-AllValid s v
step-AllValid (saved status) s v =
    load-AllValid (record (reset s) { rule_status_code = some status }) v
step-AllValid (save_failed a b) s v = v
step-AllValid (loaded rs a) s v = v
step-AllValid (load_failed a b) s v = v

run-AllValid : (es : List Event) (s : State) → AllValid s → AllValid (run es s)
unfolding run
run-AllValid [] s v = v
run-AllValid (e ∷ es) s v = run-AllValid es (step e s) (step-AllValid e s v)

-- After any history of inputs and answers, every rule that was sent, to be added or updated, has a
-- name of at least three characters, a hexadecimal colour, ports up to 65565, lower bounds of
-- duration and size that do not exceed the upper ones, and at least one pattern, whatever the
-- patterns are.
pub run-sent : (es : List Event) → All IsValidRequest (run es start).sent
run-sent es = run-AllValid es start tt
