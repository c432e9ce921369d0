-- ===== src/Streams/Tests.antt =====
-- A rule in frontend/src/components/panels/StreamsPane.js, and the theorem at it.
use caronte.Prelude.{
  ◌≡◌, refl, Bool, true, not, ◌||◌, [], ◌∷◌, none, some, Text, text, starts_with, ends_with,
}
use caronte.Rules.{Rule, empty_rule, empty_pattern}
use caronte.Streams.Highlight.{highlight_rules}

abbrev caseless_rule : Rule
caseless_rule = record empty_rule {
  id = some (text "a");
  color = text "#e53935";
  patterns =
      record empty_pattern {
        regex = text "/flag/";
        flags = record (empty_pattern.flags) { caseless = true };
      }
      ∷ [];
}

-- A source with a group that is not closed is no regular expression.
abbrev is_closed : Text → Text → Bool
is_closed source flags = not (starts_with source (text "(")) || ends_with source (text ")")

-- The flag of the pattern is not there.
caseless_rule-flags :
    highlight_rules is_closed (caseless_rule ∷ []) true (text "a" ∷ [])
    ≡ some (record { source = text "(flag)"; flags = []; color = text "#e53935" } ∷ [])
unfolding highlight_rules
caseless_rule-flags = refl

-- A pattern that begins with a slash, for which the pane throws.
abbrev slash_rule : Rule
slash_rule = record caseless_rule { patterns = record empty_pattern { regex = text "/flag" } ∷ [] }

slash_rule-throws : highlight_rules is_closed (slash_rule ∷ []) true (text "a" ∷ []) ≡ none
unfolding highlight_rules
slash_rule-throws = refl
