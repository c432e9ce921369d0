-- ===== src/Streams/Store.antt =====
-- frontend/src/model/rules.js: the rules that the streams are highlighted by. They are asked for
-- once, when the store is made; no notification asks for them again.
use caronte.Prelude.{
  ◌≡◌, refl, true, false, List, [], ◌∷◌, ◌++◌, Bool, Option, none, some, any, Text, Bool-cases, inl,
  inr,
}
use caronte.Rules.{Rule}
use caronte.Streams.Highlight.{
  Highlight, rule_by_id, highlight_rules, is_throwing, Outcome, highlight_rules_lem,
}

-- The rules, and whether the answer to the request is still to come.
pub record Store : Type 0 where
  pub rules : List Rule
  pub loading : Bool

unfoldable pub load_rules : Store → Store
load_rules s = record s { loading = true }

abbrev pub new_store : Store
unfolding load_rules
new_store = load_rules (record { rules = []; loading = false })

-- The answer, or none where the request fails, which is only logged.
unfoldable pub rules_answered : Option (List Rule) → Store → Store
rules_answered none s = record s { loading = false }
rules_answered (some rs) s = record { rules = rs; loading = false }

-- `allRules` and `ruleById` give copies.
unfoldable pub all_rules : Store → List Rule
all_rules s = s.rules

unfoldable pub stored_rule : Text → Store → Option Rule
unfolding rule_by_id
stored_rule id s = rule_by_id id s.rules

module _ (is_regex : Text → Text → Bool) where
  unknown-any :
      (rules : List Rule) (c : Bool) (id : Text) (before after : List Text)
      → is_throwing is_regex rules c id ≡ true
      → any (is_throwing is_regex rules c) (before ++ id ∷ after) ≡ true
  unknown-any rules c id [] after h = rw h refl
  unknown-any rules c id (i ∷ before) after h = elim (Bool-cases (is_throwing is_regex rules c i)) [
    | inl e ↦ rw e refl
    | inr e ↦ rw e (unknown-any rules c id before after h)
  ]

  thrown :
      (rules : List Rule) (c : Bool) (ids : List Text) (o : Option (List Highlight))
      → Outcome is_regex rules c ids o
      → any (is_throwing is_regex rules c) ids ≡ true
      → o ≡ none
  thrown rules c ids none h u = refl
  thrown rules c ids (some hs) (h, k) u = cc

  -- A connection that matched a rule that was not in the answer at the start makes the highlighting
  -- throw.
  highlight_rules-unknown :
      (answer : List Rule) (is_client : Bool) (id : Text) (before after : List Text)
      → rule_by_id id answer ≡ none
      → highlight_rules is_regex
          (rules_answered (some answer) new_store).rules
          is_client
          (before ++ id ∷ after)
        ≡ none
  unfolding rules_answered
  highlight_rules-unknown answer c id before after h =
      thrown answer c (before ++ id ∷ after)
        (highlight_rules is_regex answer c (before ++ id ∷ after))
        (highlight_rules_lem is_regex answer c (before ++ id ∷ after))
        (unknown-any answer c id before after (rw (h, is_throwing) refl))
