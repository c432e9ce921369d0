-- ===== src/Searches/Printing.antt =====
-- How frontend/src/components/panels/SearchPane.js prints the options of a search in the list.
use caronte.Prelude.{
  ◌≡◌, ◌↔◌, arith, Bool, true, not, ◌&&◌, List, [], ◌∷◌, ◌++◌, Option, none, some, Text, text, ◌==◌,
  bool_comparable, list_comparable, nat_comparable, if◌then◌else◌,
}
use caronte.Searches.{TextSearch, RegexSearch, SearchOptions, search_options}

unfoldable pub same_regex_search : RegexSearch → RegexSearch → Bool
same_regex_search a b =
    a.pattern == b.pattern
    && (a.not_pattern == b.not_pattern
        && (a.case_insensitive == b.case_insensitive
            && (a.multi_line == b.multi_line
                && (a.ignore_whitespaces == b.ignore_whitespaces
                    && a.dot_character == b.dot_character))))

unfoldable pub join : Text → List Text → Text
join separator [] = []
join separator (t ∷ []) = t
join separator (t ∷ u ∷ ts) = t ++ (separator ++ join separator (u ∷ ts))

abbrev flag : Bool → Text → Text
flag b t = if b then t else []

-- The terms and the excluded ones; `none` is that there are no terms, and joining them throws.
unfoldable pub words_pattern : Option (List Text) → Option (List Text) → Option Text
unfolding join
words_pattern none excluded = none
words_pattern (some ts) none = some (join (text " ") ts)
words_pattern (some ts) (some es) = some (join (text " ") ts ++ (text " -" ++ join (text " -") es))

unfoldable pub text_pattern : TextSearch → Option Text
unfolding words_pattern
text_pattern o =
    if not (o.exact_phrase == [])
    then some (text "\"" ++ (o.exact_phrase ++ text "\""))
    else words_pattern o.terms o.excluded_terms

unfoldable pub regex_pattern : RegexSearch → Text
regex_pattern o =
    (if not (o.pattern == [])
      then text "/" ++ (o.pattern ++ text "/")
      else text "!/" ++ (o.not_pattern ++ text "/"))
    ++ (flag o.case_insensitive (text "i")
        ++ (flag o.multi_line (text "m")
            ++ (flag o.ignore_whitespaces (text "x") ++ flag o.dot_character (text "s"))))

abbrev with_flag : Bool → Option Text → Option Text
with_flag b none = none
with_flag b (some t) = some (t ++ flag b (text "/s"))

unfoldable pub extract_pattern : SearchOptions → Option Text
unfolding same_regex_search text_pattern regex_pattern
extract_pattern o =
    if same_regex_search o.regex_search search_options.regex_search
    then with_flag o.text_search.case_sensitive (text_pattern o.text_search)
    else some (regex_pattern o.regex_search)

words_pattern-none : (o e : Option (List Text)) → words_pattern o e ≡ none ↔ o ≡ none
unfolding words_pattern
words_pattern-none none e = ground arith
words_pattern-none (some ts) none = ground arith
words_pattern-none (some ts) (some es) = ground arith

with_flag-none : (b : Bool) (o : Option Text) → with_flag b o ≡ none ↔ o ≡ none
with_flag-none b none = ground arith
with_flag-none b (some t) = ground arith

text_pattern-none :
    (t : TextSearch) → text_pattern t ≡ none ↔ (t.exact_phrase == []) ≡ true × (t.terms ≡ none)
unfolding text_pattern
text_pattern-none t = let w = words_pattern-none t.terms t.excluded_terms in ground (arith, w)

-- Printing a search throws exactly if its options for regular expressions are the initial ones, its
-- phrase is empty and it has no terms.
pub extract_pattern-none :
    (o : SearchOptions)
    → extract_pattern o ≡ none
      ↔ (same_regex_search o.regex_search search_options.regex_search ≡ true)
        × (o.text_search.exact_phrase ≡ [])
        × (o.text_search.terms ≡ none)
unfolding extract_pattern
extract_pattern-none o =
    let f = with_flag-none o.text_search.case_sensitive (text_pattern o.text_search) in
    let t = text_pattern-none o.text_search in
    let e = list_comparable.same_iff o.text_search.exact_phrase [] in ground (arith, e)
