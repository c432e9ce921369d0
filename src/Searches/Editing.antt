-- ===== src/Searches/Editing.antt =====
-- The fields of the form in frontend/src/components/panels/SearchPane.js: which edits they let
-- through, as some are for reading only while others are filled. `locks` says whether the widget of
-- the tags, which is a library's, takes no edit where it is told `readonly`.
pub mod Exclusive
pub mod Requests
use caronte.Prelude.{
  ℕ, Bool, true, false, not, ◌&&◌, ◌||◌, List, [], ◌∷◌, ◌++◌, Option, none, some, String, Text,
  get_elem?, without_at, ◌==◌, option_comparable, list_comparable, nat_comparable, if◌then◌else◌,
}
use caronte.Fields.{check_handler, on_addition, on_delete}
use caronte.Searches.{
  TextSearch, RegexSearch, SearchOptions, search_options, Search, Request, get_searches, perform,
  State,
}
use caronte.Searches.Printing.{same_regex_search}
use caronte.Searches.Form.{
  reset, perform_search, view_search, performed, refused, loaded, load_failed, update_param,
  handle_notification,
}

unfoldable pub text_options_modified : SearchOptions → Bool
text_options_modified o = not (
    o.text_search.terms == none
    && (o.text_search.excluded_terms == none
        && (o.text_search.exact_phrase == [] && not o.text_search.case_sensitive)))

unfoldable pub regex_options_modified : SearchOptions → Bool
unfolding same_regex_search
regex_options_modified o = not (same_regex_search search_options.regex_search o.regex_search)

-- `options.text_search.terms || []`, and whether there is a term.
abbrev pub tags : Option (List Text) → List Text
tags none = []
tags (some ts) = ts

abbrev pub has_tags : Option (List Text) → Bool
has_tags (some (t ∷ ts)) = true
has_tags _ = false

-- An edit of a field.
pub data Edit : Type 0 where
  term_added : Text → Edit
  term_deleted : ℕ → Edit
  excluded_added : Text → Edit
  excluded_deleted : ℕ → Edit
  exact_phrase : Text → Edit
  case_sensitive : Edit
  pattern : Text → Edit
  not_pattern : Text → Edit
  case_insensitive : Edit
  multi_line : Edit
  ignore_whitespaces : Edit
  dot_character : Edit

unfoldable pub tags_readonly : SearchOptions → Bool
unfolding regex_options_modified
tags_readonly o = regex_options_modified o || not (o.text_search.exact_phrase == [])

unfoldable pub phrase_readonly : SearchOptions → Bool
unfolding regex_options_modified
phrase_readonly o = regex_options_modified o || has_tags o.text_search.terms

unfoldable pub pattern_readonly : SearchOptions → Bool
unfolding text_options_modified
pattern_readonly o = text_options_modified o || not (o.regex_search.not_pattern == [])

unfoldable pub not_pattern_readonly : SearchOptions → Bool
unfolding text_options_modified
not_pattern_readonly o = text_options_modified o || not (o.regex_search.pattern == [])

abbrev set_text : TextSearch → SearchOptions → SearchOptions
set_text t o = record o { text_search = t }

abbrev set_regex : RegexSearch → SearchOptions → SearchOptions
set_regex r o = record o { regex_search = r }

-- What the form makes of the change that a field reports, if it reports one.
abbrev unless : Bool → SearchOptions → SearchOptions → SearchOptions
unless locked changed o = if locked then o else changed

abbrev pub with_check : Option Bool → (Bool → SearchOptions) → SearchOptions → SearchOptions
with_check none set o = o
with_check (some b) set o = set b

unfoldable pub edit_text : Bool → Edit → SearchOptions → SearchOptions
unfolding tags_readonly phrase_readonly regex_options_modified on_addition on_delete check_handler
edit_text locks (term_added t) o =
    let ts = on_addition t (tags o.text_search.terms) in
    unless (locks && tags_readonly o) (set_text (record (o.text_search) { terms = some ts }) o) o
edit_text locks (term_deleted i) o =
    let ts = on_delete i (tags o.text_search.terms) in
    unless (locks && tags_readonly o) (set_text (record (o.text_search) { terms = some ts }) o) o
edit_text locks (excluded_added t) o =
    let ts = on_addition t (tags o.text_search.excluded_terms) in
    unless (locks && tags_readonly o)
      (set_text (record (o.text_search) { excluded_terms = some ts }) o) o
edit_text locks (excluded_deleted i) o =
    let ts = on_delete i (tags o.text_search.excluded_terms) in
    unless (locks && tags_readonly o)
      (set_text (record (o.text_search) { excluded_terms = some ts }) o) o
edit_text locks (exact_phrase v) o =
    unless (phrase_readonly o) (set_text (record (o.text_search) { exact_phrase = v }) o) o
edit_text locks case_sensitive o =
    with_check (check_handler (regex_options_modified o) o.text_search.case_sensitive)
      (λ b. set_text (record (o.text_search) { case_sensitive = b }) o) o
edit_text locks e o = o

unfoldable pub edit_regex : Edit → SearchOptions → SearchOptions
unfolding pattern_readonly not_pattern_readonly text_options_modified check_handler
edit_regex (pattern v) o =
    unless (pattern_readonly o) (set_regex (record (o.regex_search) { pattern = v }) o) o
edit_regex (not_pattern v) o =
    unless (not_pattern_readonly o) (set_regex (record (o.regex_search) { not_pattern = v }) o) o
edit_regex case_insensitive o =
    with_check (check_handler (text_options_modified o) o.regex_search.case_insensitive)
      (λ b. set_regex (record (o.regex_search) { case_insensitive = b }) o) o
edit_regex multi_line o =
    with_check (check_handler (text_options_modified o) o.regex_search.multi_line)
      (λ b. set_regex (record (o.regex_search) { multi_line = b }) o) o
edit_regex ignore_whitespaces o =
    with_check (check_handler (text_options_modified o) o.regex_search.ignore_whitespaces)
      (λ b. set_regex (record (o.regex_search) { ignore_whitespaces = b }) o) o
edit_regex dot_character o =
    with_check (check_handler (text_options_modified o) o.regex_search.dot_character)
      (λ b. set_regex (record (o.regex_search) { dot_character = b }) o) o
edit_regex e o = o

-- An edit reaches one of the two halves of the form.
unfoldable pub edit : Bool → Edit → SearchOptions → SearchOptions
unfolding edit_text edit_regex
edit locks e o = edit_text locks e (edit_regex e o)

-- What the pane does: its buttons are disabled while it is loading. An answer is for the request at
-- a place: a search is accepted with its identifier, and the list of searches with the searches.
pub data Action : Type 0 where
  edited : Edit → Action
  cancel_pressed : Action
  perform_pressed : Action
  view_pressed : Text → Action
  notified : String → Action
  accepted : ℕ → Text → Text → Action
  listed : ℕ → List Search → Text → Action
  rejected : ℕ → Option Text → Option Text → Action

unfoldable pub answer_accepted : Option Request → ℕ → Text → Text → State → State
unfolding performed
answer_accepted (some (perform o)) i status id s =
    performed status id (record s { requests = without_at i s.requests })
answer_accepted _ i status id s = s

unfoldable pub answer_listed : Option Request → ℕ → List Search → Text → State → State
unfolding loaded
answer_listed (some get_searches) i searches status s =
    loaded searches status (record s { requests = without_at i s.requests })
answer_listed _ i searches status s = s

unfoldable pub answer_rejected : Option Request → ℕ → Option Text → Option Text → State → State
unfolding refused load_failed
answer_rejected (some (perform o)) i status response s =
    refused status response (record s { requests = without_at i s.requests })
answer_rejected (some get_searches) i status response s =
    load_failed status response (record s { requests = without_at i s.requests })
answer_rejected none i status response s = s

unfoldable pub step : Bool → Action → State → State
unfolding edit reset perform_search view_search handle_notification answer_accepted answer_listed
    answer_rejected update_param
step locks (edited e) s = update_param (edit locks e) s
step locks cancel_pressed s = if s.loading then s else reset s
step locks perform_pressed s = if s.loading then s else perform_search s
step locks (view_pressed id) s = view_search id s
step locks (notified event) s = handle_notification event s
step locks (accepted i status id) s = answer_accepted (get_elem? s.requests i) i status id s
step locks (listed i searches status) s = answer_listed (get_elem? s.requests i) i searches status s
step locks (rejected i status response) s =
    answer_rejected (get_elem? s.requests i) i status response s

unfoldable pub run : Bool → List Action → State → State
unfolding step
run locks [] s = s
run locks (a ∷ as') s = run locks as' (step locks a s)
