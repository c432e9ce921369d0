-- ===== src/Searches/Backend.antt =====
-- Which searches the backend takes: the handler of `/searches/perform` in application_router.go and
-- the bindings of search_controller.go; and how frontend/src/components/panels/SearchPane.js prints
-- those in its list.
use caronte.Prelude.{
  ◌≡◌, refl, inl, inr, Bool, true, false, not, ◌&&◌, ◌||◌, List, [], Option, none, some, Text, all,
  length, ◌==◌, option_comparable, list_comparable, nat_comparable, bool_comparable, leb,
  Bool-cases, arith,
}
use caronte.Searches.{TextSearch, RegexSearch, SearchOptions, search_options}
use caronte.Searches.Printing.{same_regex_search, words_pattern, text_pattern, extract_pattern}

-- `isdefault|min=3` of a text, and `isdefault|min=1,dive,min=3` of a list of texts.
abbrev pub bound_text : Text → Bool
bound_text t = t == [] || leb 3 (length t)

abbrev pub bound_terms : Option (List Text) → Bool
bound_terms none = true
bound_terms (some ts) = leb 1 (length ts) && all (λ t. leb 3 (length t)) ts

-- The bindings; the lengths are those of texts in the basic plane.
unfoldable pub is_bound : SearchOptions → Bool
is_bound o =
    leb o.timeout 60
    && (bound_terms o.text_search.terms && bound_terms o.text_search.excluded_terms)
    && bound_text o.text_search.exact_phrase
    && (bound_text o.regex_search.pattern && bound_text o.regex_search.not_pattern)

-- `isZero` of the two halves.
unfoldable pub is_zero_text : TextSearch → Bool
is_zero_text t = t.terms == none && (t.excluded_terms == none && t.exact_phrase == [])

unfoldable pub is_zero_regex : RegexSearch → Bool
unfolding same_regex_search
is_zero_regex r = same_regex_search r search_options.regex_search

abbrev both_or_none : Bool → Bool → Bool
both_or_none a b = (a && b) || (not a && not b)

-- The checks of the handler, each of which is an error.
unfoldable pub is_bad_text : TextSearch → Bool
is_bad_text t =
    both_or_none (t.terms == none) (t.exact_phrase == [])
    || (t.terms == none && not (t.excluded_terms == none))

unfoldable pub is_bad_regex : RegexSearch → Bool
is_bad_regex r = both_or_none (r.pattern == []) (r.not_pattern == [])

unfoldable pub accepts_search : SearchOptions → Bool
unfolding is_bound is_zero_text is_zero_regex is_bad_text is_bad_regex
accepts_search o =
    is_bound o
    && not (
        both_or_none (is_zero_text o.text_search) (is_zero_regex o.regex_search)
        || (not (is_zero_text o.text_search) && is_bad_text o.text_search)
        || (not (is_zero_regex o.regex_search) && is_bad_regex o.regex_search))

words_pattern-some :
    (ts es : Option (List Text))
    → (ts == none) ≡ false
    → (p : Text) × (words_pattern ts es ≡ some p)
unfolding words_pattern
words_pattern-some none es h = cc
words_pattern-some (some ts) none h = (_, refl)
words_pattern-some (some ts) (some es) h = (_, refl)

text_pattern-some :
    (t : TextSearch) → is_bad_text t ≡ false → (p : Text) × (text_pattern t ≡ some p)
unfolding text_pattern is_bad_text
text_pattern-some t k = elim (Bool-cases (t.exact_phrase == [])) [
  | inl no_phrase ↦
      let given : (t.terms == none) ≡ false = ground arith in
      rw no_phrase (words_pattern-some t.terms t.excluded_terms given)
  | inr phrase ↦ rw phrase (_, refl)
]

-- What the checks of the handler leave, where there is no regular expression.
accepted_text :
    (o : SearchOptions)
    → accepts_search o ≡ true
    → is_zero_regex o.regex_search ≡ true
    → is_bad_text o.text_search ≡ false
unfolding accepts_search
accepted_text o h zero = ground arith

-- Each search that the backend accepts is printed: no join of absent terms.
pub extract_pattern-accepted :
    (o : SearchOptions) → accepts_search o ≡ true → (p : Text) × (extract_pattern o ≡ some p)
unfolding extract_pattern is_zero_regex
extract_pattern-accepted o h =
    elim (Bool-cases (same_regex_search o.regex_search search_options.regex_search)) [
      | inl zero ↦
          let (p, e) = text_pattern-some o.text_search (accepted_text o h zero) in
          rw (zero, e) (_, refl)
      | inr given ↦ rw given (_, refl)
    ]
