-- ===== src/Searches/Form.antt =====
-- The handlers of frontend/src/components/panels/SearchPane.js, and the steps of the pane: its
-- buttons are disabled while `loading`, and requests are answered in any order.
use caronte.Forms.{mark}
use caronte.Prelude.{
  ◌≡◌, Bool, true, false, not, ◌&&◌, ◌||◌, List, [], ◌∷◌, ◌++◌, Option, some, String, Text, length,
  ◌==◌, string_comparable, list_comparable, nat_comparable, if◌then◌else◌, ltb,
}
use caronte.Searches.{SearchOptions, Search, Errors, Request, get_searches, perform, State, start}

-- Not empty, and shorter than three characters.
unfoldable pub too_short : Text → Bool
too_short s = not (s == []) && ltb (length s) 3

unfoldable pub validate_search : SearchOptions → Errors → Bool × Errors
unfolding too_short
validate_search options e =
    let bad_phrase = too_short options.text_search.exact_phrase in
    let bad_pattern = too_short options.regex_search.pattern in
    let bad_not_pattern = too_short options.regex_search.not_pattern in
    (
      not (bad_phrase || bad_pattern || bad_not_pattern),
      record e {
        exact_phrase_error =
            mark bad_not_pattern "regex_search.not_pattern.length < 3"
              (mark bad_phrase "text_search.exact_phrase.length < 3" e.exact_phrase_error);
        pattern_error = mark bad_pattern "regex_search.pattern.length < 3" e.pattern_error;
      },
    )

unfoldable pub load_searches : State → State
load_searches s = record s { requests = s.requests ++ get_searches ∷ [] }

unfoldable pub reset : State → State
reset s = record start {
  searches = s.searches;
  loading = s.loading;
  requests = s.requests;
  viewed = s.viewed;
}

unfoldable pub perform_search : State → State
unfolding validate_search
perform_search s =
    let options = s.current_search_options in
    let (valid, e) = validate_search options s.errors in
    if valid
    then record s { loading = true; errors = e; requests = s.requests ++ perform options ∷ [] }
    else record s { loading = true; errors = e }

unfoldable pub view_search : Text → State → State
view_search search_id s = record s { viewed = s.viewed ++ search_id ∷ [] }

-- The answers to a search: its id, or a refusal.
unfoldable pub performed : Text → Text → State → State
unfolding reset load_searches view_search
performed status id s =
    view_search id
      (load_searches (record (reset s) { search_status_code = some status; loading = false }))

unfoldable pub refused : Option Text → Option Text → State → State
refused status response s = record s {
  search_status_code = status;
  search_response = response;
  loading = false;
}

-- The answers to a request of the list.
unfoldable pub loaded : List Search → Text → State → State
loaded searches status s = record s { searches = searches; searches_status_code = some status }

unfoldable pub load_failed : Option Text → Option Text → State → State
load_failed status response s = record s {
  searches_status_code = status;
  searches_response = response;
}

unfoldable pub update_param : (SearchOptions → SearchOptions) → State → State
update_param callback s = record s { current_search_options = callback s.current_search_options }

unfoldable pub handle_notification : String → State → State
unfolding load_searches
handle_notification event s = if event == "searches.new" then load_searches s else s

unfoldable pub component_did_mount : State → State
unfolding reset load_searches
component_did_mount s = load_searches (reset s)

-- One request is taken out of the list.
pub data Answers : List Request → Request → List Request → Type 0 where
  first : {q : Request} {qs : List Request} → Answers (q ∷ qs) q qs
  later : {p q : Request} {ps qs : List Request} → Answers ps q qs → Answers (p ∷ ps) q (p ∷ qs)

pub data Step (s : State) : State → Type 0 where
  notified : (event : String) → Step s (handle_notification event s)
  changed : (f : SearchOptions → SearchOptions) → Step s (update_param f s)
  cancels : s.loading ≡ false → Step s (reset s)
  performs : s.loading ≡ false → Step s (perform_search s)
  views : (id : Text) → Step s (view_search id s)
  performs_ok :
      (o : SearchOptions) (qs : List Request) (status id : Text)
      → Answers s.requests (perform o) qs
      → Step s (performed status id (record s { requests = qs }))
  performs_not :
      (o : SearchOptions) (qs : List Request) (status response : Option Text)
      → Answers s.requests (perform o) qs
      → Step s (refused status response (record s { requests = qs }))
  loads_ok :
      (qs : List Request) (searches : List Search) (status : Text)
      → Answers s.requests get_searches qs
      → Step s (loaded searches status (record s { requests = qs }))
  loads_not :
      (qs : List Request) (status response : Option Text)
      → Answers s.requests get_searches qs
      → Step s (load_failed status response (record s { requests = qs }))

pub data Reach (s : State) : State → Type 0 where
  here : Reach s s
  next_step : {t u : State} → Reach s t → Step t u → Reach s u
