-- ===== src/Searches/Validation.antt =====
-- What the form of frontend/src/components/panels/SearchPane.js asks of a search.
use caronte.Prelude.{
  ◌≤◌, ◌≡◌, ◌↔◌, ◌⊎◌, refl, true, false, [], ◌∷◌, some, Text, length, list_comparable,
  nat_comparable, arith,
}
use caronte.Searches.{SearchOptions, Errors}
use caronte.Searches.Form.{too_short, validate_search}

-- Empty, or three characters or more.
abbrev pub IsLongEnough : Text → Type 0
IsLongEnough s = (s ≡ []) ⊎ (3 ≤ length s)

too_short_lem : (s : Text) → (too_short s ≡ false) ↔ IsLongEnough s
unfolding too_short
too_short_lem [] = ground arith
too_short_lem (c ∷ s) = ground arith

-- A search passes exactly if its phrase and both of its patterns are empty or have three
-- characters. Whatever the search, the error of the excluded pattern stays as it was, and the error
-- of the phrase changes where only the excluded pattern is too short.
pub validate_search_lem :
    (o : SearchOptions) (e : Errors)
    → ((validate_search o e).0 ≡ true
        ↔ IsLongEnough o.text_search.exact_phrase
          × IsLongEnough o.regex_search.pattern
          × IsLongEnough o.regex_search.not_pattern)
      × ((validate_search o e).1.not_pattern_error ≡ e.not_pattern_error)
      × (too_short o.regex_search.not_pattern ≡ true
          → (validate_search o e).1.exact_phrase_error ≡ some "regex_search.not_pattern.length < 3")
unfolding validate_search
validate_search_lem o e =
    let a = too_short_lem o.text_search.exact_phrase in
    let b = too_short_lem o.regex_search.pattern in
    let c = too_short_lem o.regex_search.not_pattern in (ground arith, refl, λ h. rw h)
