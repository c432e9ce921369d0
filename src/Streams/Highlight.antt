-- ===== src/Streams/Highlight.antt =====
-- `highlightRules` of frontend/src/components/panels/StreamsPane.js: which patterns of the rules
-- that matched a connection are looked for in a message, and as which regular expressions. The
-- replacement itself is that of a library.
use caronte.Prelude.{
  ℕ, ◌≡◌, refl, ap, Bool, Bool-cases, true, false, not, ◌&&◌, ◌||◌, List, [], ◌∷◌, ◌++◌, Option,
  none, some, find, any, map, Option-cases, inl, inr, filter, String, Text, text, ◌==◌,
  nat_comparable, string_comparable, list_comparable, option_comparable, if◌then◌else◌,
}
use mathlib.Core.Option
use caronte.Rules.{Rule, Pattern, Flags}

-- What a property of a pattern's object may be.
pub data Property : Type 0 where
  undefined : Property
  text_value : Text → Property
  number : ℕ → Property
  flags_object : Flags → Property

-- The properties of a pattern, as the form makes it and the backend sends it.
unfoldable pub property : String → Pattern → Property
property name p =
    if name == "regex"
    then text_value p.regex
    else if name == "flags"
    then flags_object p.flags
    else if name == "min_occurrences"
    then number p.min_occurrences
    else if name == "max_occurrences"
    then number p.max_occurrences
    else if name == "direction"
    then number p.direction
    else undefined

abbrev pub is_truthy : Property → Bool
is_truthy undefined = false
is_truthy (text_value s) = not (s == [])
is_truthy (number n) = not (n == 0)
is_truthy (flags_object f) = true

unfoldable pub regex_flags : Pattern → Text
unfolding property
regex_flags p =
    (if is_truthy (property "caseless" p) then text "i" else [])
    ++ ((if is_truthy (property "dot_all" p) then text "s" else [])
        ++ ((if is_truthy (property "multi_line" p) then text "m" else [])
            ++ (if is_truthy (property "unicode_property" p) then text "u" else [])))

-- `replace(/^\//, "(")` and `replace(/\/$/, ")")`
abbrev pub open_group : Text → Text
open_group [] = []
open_group (c ∷ s) = if c == b'/' then b'(' ∷ s else c ∷ s

abbrev pub close_group : Text → Text
close_group [] = []
close_group (c ∷ []) = if c == b'/' then b')' ∷ [] else c ∷ []
close_group (c ∷ d ∷ s) = c ∷ close_group (d ∷ s)

unfoldable pub regex_source : Text → Text
regex_source regex = close_group (open_group regex)

-- A pattern for one direction is not looked for in the messages of the other.
unfoldable pub is_looked_for : Bool → Pattern → Bool
is_looked_for is_client p =
    not ((not is_client && p.direction == 1) || (is_client && p.direction == 2))

pub record Highlight : Type 0 where
  pub source : Text
  pub flags : Text
  pub color : Text

unfoldable pub pattern_highlight : Rule → Pattern → Highlight
unfolding regex_source regex_flags
pattern_highlight r p = record {
  source = regex_source p.regex;
  flags = regex_flags p;
  color = r.color;
}

-- `rules.ruleById`: the rule of an identifier.
unfoldable pub rule_by_id : Text → List Rule → Option Rule
rule_by_id id rules = find (λ (r : Rule). r.id == some id) rules

-- `is_regex source flags` is whether `new RegExp(source, flags)` does not throw.
module _ (is_regex : Text → Text → Bool) where
  -- The expressions of a rule; `none` is that one of them is not valid, and making it throws.
  unfoldable pub rule_highlights : Rule → Bool → List Pattern → Option (List Highlight)
  unfolding pattern_highlight is_looked_for
  rule_highlights r is_client [] = some []
  rule_highlights r is_client (p ∷ ps) =
      let rest = rule_highlights r is_client ps in
      let h = pattern_highlight r p in
      if not (is_looked_for is_client p)
      then rest
      else if is_regex h.source h.flags
      then Option.map (h ∷◌) rest
      else none

  -- The expressions, in order; `none` is that a rule is not known and reading its patterns throws,
  -- or that making an expression throws.
  unfoldable pub highlight_rules : List Rule → Bool → List Text → Option (List Highlight)
  unfolding rule_by_id rule_highlights
  highlight_rules rules is_client [] = some []
  highlight_rules rules is_client (id ∷ ids) =
      let rest = highlight_rules rules is_client ids in
      elim (rule_by_id id rules) [
        | none ↦ none
        | some r ↦ elim (rule_highlights r is_client r.patterns) [
          | none ↦ none
          | some hs ↦ elim rest [ none ↦ none | some hs' ↦ some (hs ++ hs') ]
        ]
      ]

  -- A pattern that is looked for whose expression is not valid: that of the backend's with a bracket
  -- in place of a slash at either end, and without flags.
  abbrev pub is_invalid : Bool → Pattern → Bool
  is_invalid is_client p = is_looked_for is_client p && not (is_regex (regex_source p.regex) [])

  -- The identifier of a rule that is not known, or of one with such a pattern.
  abbrev pub is_throwing : List Rule → Bool → Text → Bool
  is_throwing rules is_client id = elim (rule_by_id id rules) [
    | none ↦ true
    | some r ↦ any (is_invalid is_client) r.patterns
  ]

  -- The specification of what is looked for: for each rule its patterns for that direction.
  abbrev pub looked_for : List Rule → Bool → List Text → List Highlight
  looked_for rules is_client [] = []
  looked_for rules is_client (id ∷ ids) =
      (elim (rule_by_id id rules) as (λ _. List Highlight) [
        | none ↦ []
        | some r ↦ map (pattern_highlight r) (filter (is_looked_for is_client) r.patterns)
      ])
      ++ looked_for rules is_client ids

  abbrev pub Outcome : List Rule → Bool → List Text → Option (List Highlight) → Type 0
  Outcome rules is_client ids none = any (is_throwing rules is_client) ids ≡ true
  Outcome rules is_client ids (some hs) =
      (any (is_throwing rules is_client) ids ≡ false) × (hs ≡ looked_for rules is_client ids)

  abbrev RuleOutcome : Rule → Bool → List Pattern → Option (List Highlight) → Type 0
  RuleOutcome r is_client ps none = any (is_invalid is_client) ps ≡ true
  RuleOutcome r is_client ps (some hs) =
      (any (is_invalid is_client) ps ≡ false)
      × (hs ≡ map (pattern_highlight r) (filter (is_looked_for is_client) ps))

  more-RuleOutcome :
      (r : Rule) (c : Bool) (p : Pattern) (ps : List Pattern) (o : Option (List Highlight))
      → is_looked_for c p ≡ true
      → is_regex (regex_source p.regex) [] ≡ true
      → RuleOutcome r c ps o
      → RuleOutcome r c (p ∷ ps) (Option.map (pattern_highlight r p ∷◌) o)
  more-RuleOutcome r c p ps none looked valid h = rw (looked, valid) h
  more-RuleOutcome r c p ps (some hs) looked valid h =
      rw (looked, valid) (h.0, ap (pattern_highlight r p ∷◌) h.1)

  skip-RuleOutcome :
      (r : Rule) (c : Bool) (p : Pattern) (ps : List Pattern) (o : Option (List Highlight))
      → is_looked_for c p ≡ false
      → RuleOutcome r c ps o
      → RuleOutcome r c (p ∷ ps) o
  skip-RuleOutcome r c p ps none skipped h = rw skipped h
  skip-RuleOutcome r c p ps (some hs) skipped h = rw skipped h

  invalid-first :
      (c : Bool) (p : Pattern) (ps : List Pattern)
      → is_looked_for c p ≡ true
      → is_regex (regex_source p.regex) [] ≡ false
      → any (is_invalid c) (p ∷ ps) ≡ true
  invalid-first c p ps looked invalid = rw (looked, invalid) refl

  rule_highlights-RuleOutcome :
      (r : Rule) (c : Bool) (ps : List Pattern) → RuleOutcome r c ps (rule_highlights r c ps)
  unfolding rule_highlights pattern_highlight regex_flags
  rule_highlights-RuleOutcome r c [] = (refl, refl)
  rule_highlights-RuleOutcome r c (p ∷ ps) = elim (Bool-cases (is_looked_for c p)) [
    | inl looked ↦ elim (Bool-cases (is_regex (regex_source p.regex) [])) [
      | inl valid ↦
          rw (looked, valid)
            (more-RuleOutcome r c p ps (rule_highlights r c ps) looked valid
              (rule_highlights-RuleOutcome r c ps))
      | inr invalid ↦ rw (looked, invalid) (invalid-first c p ps looked invalid)
    ]
    | inr skipped ↦ rw skipped (
        skip-RuleOutcome r c p ps (rule_highlights r c ps) skipped
          (rule_highlights-RuleOutcome r c ps))
  ]

  -- A known rule before the others.
  known-Outcome :
      (rules : List Rule) (c : Bool) (id : Text) (ids : List Text) (r : Rule)
      (first rest : Option (List Highlight))
      → rule_by_id id rules ≡ some r
      → RuleOutcome r c r.patterns first
      → Outcome rules c ids rest
      → Outcome rules c (id ∷ ids) (elim first as (λ _. Option (List Highlight)) [
        | none ↦ none
        | some hs ↦ elim rest as (λ _. Option (List Highlight)) [
          | none ↦ none
          | some hs' ↦ some (hs ++ hs')
        ]
      ])
  known-Outcome rules c id ids r none rest e h k = rw (e, h, is_throwing) refl
  known-Outcome rules c id ids r (some hs) none e h k = rw (e, h.0, is_throwing) k
  known-Outcome rules c id ids r (some hs) (some hs') e h k =
      (rw (e, h.0, is_throwing) k.0, rw (e, h.1, k.1, looked_for) refl)

  unknown-first :
      (rules : List Rule) (c : Bool) (id : Text) (ids : List Text)
      → rule_by_id id rules ≡ none
      → any (is_throwing rules c) (id ∷ ids) ≡ true
  unknown-first rules c id ids e = rw (e, is_throwing) refl

  pub highlight_rules_lem :
      (rules : List Rule) (is_client : Bool) (ids : List Text)
      → Outcome rules is_client ids (highlight_rules rules is_client ids)
  unfolding highlight_rules
  highlight_rules_lem rules c [] = (refl, refl)
  highlight_rules_lem rules c (id ∷ ids) = elim (Option-cases (rule_by_id id rules)) [
    | inl e ↦ rw (e, highlight_rules) (unknown-first rules c id ids e)
    | inr (r, e) ↦
        rw (e, highlight_rules)
          (known-Outcome rules c id ids r (rule_highlights r c r.patterns)
            (highlight_rules rules c ids) e (rule_highlights-RuleOutcome r c r.patterns)
            (highlight_rules_lem rules c ids))
  ]
