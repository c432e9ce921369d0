-- ===== src/Rules/Editing/Handlers.antt =====
-- The handlers of the form in frontend/src/components/panels/RulesPane.js keep what an update may
-- not change.
use caronte.Prelude.{
  ℕ, ◌≡◌, refl, ◌∙◌, inl, inr, true, ◌||◌, List, [], ◌∷◌, ◌++◌, Option, none, some, String, Text,
  get_elem?, All, Any, All-imp, All-append_one, All-get_elem?, Any-append_left, Option-cases,
  if◌then◌else◌, if_both, ◌==◌, string_comparable,
}
use caronte.Rules.{Rule, Pattern, Request, get_rules, post_rule, put_rule, State}
use caronte.Rules.Form.{
  validate_rule, load_rules, reset, current_rule, set_current, update_param, change_pattern,
  change_regex, validate_pattern, add_pattern, edit_pattern, update_pattern, add_rule, update_rule,
  rule_saved, handle_notifications, select_rule, submit, press_add, press_save,
}
use caronte.Rules.Editing.{
  FieldEdit, name, color, notes, service_port, client_port, client_address, min_duration,
  max_duration, min_bytes, max_bytes, edit_field, is_given, has_pattern_row, click_row, notified,
  saved, step,
}

-- All but the name, the colour and the notes.
abbrev pub SameRest : Rule → Rule → Type 0
SameRest q r =
    (r.id ≡ q.id)
    × (r.enabled ≡ q.enabled)
    × (r.patterns ≡ q.patterns)
    × (r.filter ≡ q.filter)
    × (r.version ≡ q.version)

abbrev pub IsKnown : List Rule → Rule → Type 0
IsKnown known r = Any (λ q. SameRest q r) known

-- An update is of a known rule, under its identifier.
abbrev pub IsUpdate : List Rule → Request → Type 0
IsUpdate known get_rules = Unit
IsUpdate known (post_rule r) = Unit
IsUpdate known (put_rule id r) = (id ≡ r.id) × IsKnown known r

-- The rule that is updated is known, and no pattern of it is edited.
abbrev pub Selects : List Rule → Option Rule → Option ℕ → Type 0
Selects known none p = Unit
Selects known (some r) p = IsKnown known r × (p ≡ none)

pub record IsForm (known : List Rule) (s : State) : Type 0 where
  pub selects : Selects known s.selected_rule s.selected_pattern
  pub lists : All (IsKnown known) s.rules
  pub sends : All (IsUpdate known) s.sent

edit-SameRest : (e : FieldEdit) (r : Rule) → SameRest r (edit_field true e r)
unfolding edit_field
edit-SameRest (name v) r = (refl, refl, refl, refl, refl)
edit-SameRest (color v) r = (refl, refl, refl, refl, refl)
edit-SameRest (notes v) r = (refl, refl, refl, refl, refl)
edit-SameRest (service_port v) r = (refl, refl, refl, refl, refl)
edit-SameRest (client_port v) r = (refl, refl, refl, refl, refl)
edit-SameRest (client_address v) r = (refl, refl, refl, refl, refl)
edit-SameRest (min_duration v) r = (refl, refl, refl, refl, refl)
edit-SameRest (max_duration v) r = (refl, refl, refl, refl, refl)
edit-SameRest (min_bytes v) r = (refl, refl, refl, refl, refl)
edit-SameRest (max_bytes v) r = (refl, refl, refl, refl, refl)

SameRest-trans : (p q r : Rule) → SameRest p q → SameRest q r → SameRest p r
SameRest-trans p q r (a, b, c, d, e) (a', b', c', d', e') = (a' ∙ a, b' ∙ b, c' ∙ c, d' ∙ d, e' ∙ e)

IsKnown-edit :
    (known : List Rule) (e : FieldEdit) (r : Rule)
    → IsKnown known r
    → IsKnown known (edit_field true e r)
IsKnown-edit [] e r h = absurd h
IsKnown-edit (q ∷ known) e r (inl h) =
    inl (SameRest-trans q r (edit_field true e r) h (edit-SameRest e r))
IsKnown-edit (q ∷ known) e r (inr h) = inr (IsKnown-edit known e r h)

pub IsKnown-all : (rs : List Rule) → All (IsKnown rs) rs
IsKnown-all [] = tt
IsKnown-all (r ∷ rs) =
    (inl (refl, refl, refl, refl, refl), All-imp (λ q h. inr h) rs (IsKnown-all rs))

pub IsUpdate-append :
    (known more : List Rule) (q : Request) → IsUpdate known q → IsUpdate (known ++ more) q
IsUpdate-append known more get_rules h = tt
IsUpdate-append known more (post_rule r) h = tt
IsUpdate-append known more (put_rule id r) (e, h) =
    (e, Any-append_left (λ q. SameRest q r) known more h)

pub Selects-append :
    (known more : List Rule) (o : Option Rule) (p : Option ℕ)
    → Selects known o p
    → Selects (known ++ more) o p
Selects-append known more none p h = tt
Selects-append known more (some r) p (h, e) = (Any-append_left (λ q. SameRest q r) known more h, e)

module _ (known : List Rule) where
  -- Each handler is taken with the rule and the pattern that are selected, if they are.
  abbrev Of : Option Rule → Option ℕ → State → State
  Of o p s = record s { selected_rule = o; selected_pattern = p }

  pub field-IsForm :
      (e : FieldEdit) (o : Option Rule) (s : State)
      → IsForm known (Of o s.selected_pattern s)
      → IsForm known (update_param (edit_field (is_given o) e) (Of o s.selected_pattern s))
  unfolding update_param set_current current_rule
  field-IsForm e none s v = record { selects = tt; lists = v.lists; sends = v.sends }
  field-IsForm e (some r) s v = record {
    selects = (IsKnown-edit known e r v.selects.0, v.selects.1);
    lists = v.lists;
    sends = v.sends;
  }

  pub pattern-IsForm :
      (f : Pattern → Pattern) (o : Option Rule) (p : Option ℕ) (s : State)
      → IsForm known (Of o p s)
      → IsForm known (if has_pattern_row (Of o p s) then change_pattern f (Of o p s) else Of o p s)
  unfolding has_pattern_row change_pattern update_param set_current
  pattern-IsForm f none none s v = record { selects = tt; lists = v.lists; sends = v.sends }
  pattern-IsForm f none (some i) s v = record { selects = tt; lists = v.lists; sends = v.sends }
  pattern-IsForm f (some r) none s v = v
  pattern-IsForm f (some r) (some i) s v = let none_selected = v.selects.1 in absurd cc

  pub regex-IsForm :
      (w : Text) (o : Option Rule) (p : Option ℕ) (s : State)
      → IsForm known (Of o p s)
      → IsForm known (if has_pattern_row (Of o p s) then change_regex w (Of o p s) else Of o p s)
  unfolding has_pattern_row change_regex change_pattern update_param set_current
  regex-IsForm w none none s v = record { selects = tt; lists = v.lists; sends = v.sends }
  regex-IsForm w none (some i) s v = record { selects = tt; lists = v.lists; sends = v.sends }
  regex-IsForm w (some r) none s v = v
  regex-IsForm w (some r) (some i) s v = let none_selected = v.selects.1 in absurd cc

  pub add-IsForm :
      (o : Option Rule) (p : Option ℕ) (s : State)
      → IsForm known (Of o p s)
      → IsForm known (press_add (Of o p s))
  unfolding press_add add_pattern validate_pattern set_current
  add-IsForm o (some i) s v = v
  add-IsForm (some r) none s v = v
  add-IsForm none none s v =
      if_both (IsForm known) (validate_pattern s.new_pattern (Of none none s)).0 _ _
        (record { selects = tt; lists = v.lists; sends = v.sends })
        (record { selects = tt; lists = v.lists; sends = v.sends })

  update_pattern-IsForm :
      (q : Pattern) (i : ℕ) (s : State)
      → IsForm known (Of none (some i) s)
      → IsForm known (update_pattern q (Of none (some i) s))
  unfolding update_pattern validate_pattern
  update_pattern-IsForm q i s v =
      if_both (IsForm known) (validate_pattern q (Of none (some i) s)).0 _ _
        (record { selects = tt; lists = v.lists; sends = v.sends })
        (record { selects = tt; lists = v.lists; sends = v.sends })

  pub save-IsForm :
      (o : Option Rule) (p : Option ℕ) (s : State)
      → IsForm known (Of o p s)
      → IsForm known (press_save (Of o p s))
  unfolding press_save current_rule
  save-IsForm o none s v = v
  save-IsForm (some r) (some i) s v = let none_selected = v.selects.1 in absurd cc
  save-IsForm none (some i) s v = elim (Option-cases (get_elem? s.new_rule.patterns i)) [
    | inl e ↦ rw (e, press_save) v
    | inr (q, e) ↦ rw (e, press_save) (update_pattern-IsForm q i s v)
  ]

  pub edit-IsForm :
      (i : ℕ) (o : Option Rule) (s : State)
      → IsForm known (Of o s.selected_pattern s)
      → IsForm known (
          if is_given o
          then Of o s.selected_pattern s
          else edit_pattern i (Of o s.selected_pattern s))
  unfolding edit_pattern
  edit-IsForm i none s v = record { selects = tt; lists = v.lists; sends = v.sends }
  edit-IsForm i (some r) s v = v

  pub row-IsForm :
      (o : Option Rule) (i : ℕ) (s : State)
      → get_elem? s.rules i ≡ o
      → IsForm known s
      → IsForm known (click_row o s)
  unfolding click_row select_rule reset
  row-IsForm none i s e v = v
  row-IsForm (some r) i s e v = record {
    selects = (All-get_elem? (IsKnown known) i s.rules e v.lists, refl);
    lists = v.lists;
    sends = v.sends;
  }

  load-IsForm : (s : State) → IsForm known s → IsForm known (load_rules s)
  unfolding load_rules
  load-IsForm s v = record {
    selects = v.selects;
    lists = v.lists;
    sends = All-append_one (IsUpdate known) s.sent get_rules v.sends tt;
  }

  pub reset-IsForm : (s : State) → IsForm known s → IsForm known (reset s)
  unfolding reset
  reset-IsForm s v = record { selects = tt; lists = v.lists; sends = v.sends }

  pub submit-IsForm :
      (o : Option Rule) (s : State)
      → IsForm known (Of o s.selected_pattern s)
      → IsForm known (submit (Of o s.selected_pattern s))
  unfolding submit add_rule update_rule
  submit-IsForm none s v =
      if_both (IsForm known) (validate_rule s.new_rule s.errors).0 _ _
        (record {
          selects = tt;
          lists = v.lists;
          sends = All-append_one (IsUpdate known) s.sent (post_rule s.new_rule) v.sends tt;
        })
        (record { selects = tt; lists = v.lists; sends = v.sends })
  submit-IsForm (some r) s v =
      if_both (IsForm known) (validate_rule r s.errors).0 _ _
        (record {
          selects = v.selects;
          lists = v.lists;
          sends =
              All-append_one (IsUpdate known) s.sent (put_rule r.id r) v.sends (refl, v.selects.0);
        })
        (record { selects = v.selects; lists = v.lists; sends = v.sends })

  -- The events that bring no rules.
  pub notified-IsForm :
      (e : String) (s : State) → IsForm known s → IsForm known (step (notified e) s)
  unfolding step handle_notifications
  notified-IsForm e s v =
      if_both (IsForm known) (e == "rules.new" || e == "rules.edit") (load_rules s) s
        (load-IsForm s v) v

  pub saved-IsForm :
      (status : Text) (s : State) → IsForm known s → IsForm known (step (saved status) s)
  unfolding step rule_saved
  saved-IsForm status s v =
      let r = reset-IsForm s v in
      load-IsForm (record (reset s) { rule_status_code = some status })
        (record { selects = r.selects; lists = r.lists; sends = r.sends })
