-- ===== src/Searches/Tests.antt =====
-- Sessions of frontend/src/components/panels/SearchPane.js, and the theorems at them.
use caronte.Prelude.{◌≡◌, refl, none, some, [], ◌∷◌, Text, text}
use caronte.Searches.Printing.{same_regex_search, extract_pattern, extract_pattern-none}
use caronte.Searches.{TextSearch, search_options, SearchOptions, State, start}
use caronte.Searches.Form.{
  update_param, perform_search, component_did_mount, changed, performs, Reach, here, next_step,
}
use caronte.Searches.InFlight.{in_flight, HasSearchBound, Reach-HasSearchBound}

abbrev with_pattern : Text → SearchOptions → SearchOptions
with_pattern p o = record o { regex_search = record (o.regex_search) { pattern = p } }

abbrev typed : Text → State
unfolding component_did_mount update_param
typed p = update_param (with_pattern p) (component_did_mount start)

typed-Reach : (p : Text) → Reach (component_did_mount start) (typed p)
unfolding typed
typed-Reach p = next_step here (changed (with_pattern p))

-- A search for `flag`, not yet answered.
abbrev searching : State
unfolding typed perform_search
searching = perform_search (typed (text "flag"))

searching-Reach : Reach (component_did_mount start) searching
unfolding searching typed component_did_mount update_param
searching-Reach = next_step (typed-Reach (text "flag")) (performs refl)

searching-in_flight : in_flight searching.requests ≡ 1
unfolding searching perform_search
searching-in_flight = refl

Reach-HasSearchBound_example : HasSearchBound searching
Reach-HasSearchBound_example = Reach-HasSearchBound searching-Reach

-- A search with excluded terms alone.
abbrev excluding : SearchOptions
excluding = record search_options {
  text_search = record (search_options.text_search) { excluded_terms = some (text "abc" ∷ []) };
}

extract_pattern-excluding : extract_pattern excluding ≡ none
unfolding same_regex_search
extract_pattern-excluding = (extract_pattern-none excluding).1 (refl, refl, refl)

-- An excluded term, and excluded terms that are there without being any.
extract_pattern-words :
    let words : TextSearch = record (search_options.text_search) {
      terms = some (text "a" ∷ text "b" ∷ []);
    } in
    (extract_pattern (record search_options {
      text_search = record words { excluded_terms = some (text "c" ∷ []) };
    })
      ≡ some (text "a b -c"))
    × (extract_pattern
          (record search_options { text_search = record words { excluded_terms = some [] } })
        ≡ some (text "a b -"))
unfolding extract_pattern
extract_pattern-words = (refl, refl)
