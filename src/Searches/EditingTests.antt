-- ===== src/Searches/EditingTests.antt =====
-- Sessions of the form in frontend/src/components/panels/SearchPane.js, what the backend makes of
-- them, and the theorems at them.
use caronte.Prelude.{◌≡◌, refl, true, false, List, [], ◌∷◌, some, Text, text}
use caronte.Searches.{SearchOptions, search_options, start}
use caronte.Searches.Form.{component_did_mount}
use caronte.Searches.Printing.{extract_pattern}
use caronte.Searches.Editing.{
  term_added, term_deleted, excluded_added, exact_phrase, pattern, not_pattern, case_insensitive,
  pattern_readonly, Action, edited, perform_pressed, run,
}
use caronte.Searches.Editing.Requests.{IsForm, run-IsForm}
use caronte.Searches.Backend.{accepts_search, extract_pattern-accepted}

-- The excluded pattern is typed while there is a pattern, which changes nothing.
abbrev typing : List Action
typing =
    edited (pattern (text "flag"))
    ∷ edited case_insensitive
    ∷ edited (not_pattern (text "http"))
    ∷ edited (term_added (text "word"))
    ∷ perform_pressed
    ∷ []

abbrev flag_search : SearchOptions
flag_search = record search_options {
  regex_search = record (search_options.regex_search) {
    pattern = text "flag";
    case_insensitive = true;
  };
}

typing-requests : (run true typing (component_did_mount start)).current_search_options ≡ flag_search
unfolding run component_did_mount
typing-requests = refl

run-IsForm_example : IsForm (run false typing (component_did_mount start))
run-IsForm_example = run-IsForm false typing

-- A phrase may be typed where there are excluded terms alone, and the backend refuses that.
abbrev excluding : List Action
excluding = edited (excluded_added (text "http")) ∷ edited (exact_phrase (text "flag")) ∷ []

excluding-refused :
    accepts_search (run true excluding (component_did_mount start)).current_search_options ≡ false
unfolding run component_did_mount accepts_search
excluding-refused = refl

-- Once a term was there the patterns are for reading only, also when it is deleted.
abbrev deleting : List Action
deleting = edited (term_added (text "flag")) ∷ edited (term_deleted 0) ∷ []

deleting-readonly :
    pattern_readonly (run true deleting (component_did_mount start)).current_search_options ≡ true
unfolding run component_did_mount pattern_readonly
deleting-readonly = refl

-- Where the widget takes edits all the same, a search has both halves.
abbrev unlocked : List Action
unlocked = edited (pattern (text "flag")) ∷ edited (term_added (text "flag")) ∷ []

unlocked-refused :
    accepts_search (run false unlocked (component_did_mount start)).current_search_options ≡ false
unfolding run component_did_mount accepts_search
unlocked-refused = refl

flag_search-accepted : accepts_search flag_search ≡ true
unfolding accepts_search
flag_search-accepted = refl

extract_pattern-accepted_example : (p : Text) × (extract_pattern flag_search ≡ some p)
extract_pattern-accepted_example = extract_pattern-accepted flag_search flag_search-accepted
