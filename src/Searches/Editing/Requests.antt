-- ===== src/Searches/Editing/Requests.antt =====
-- Which searches the form of frontend/src/components/panels/SearchPane.js sends.
use caronte.Prelude.{
  ℕ, refl, inl, inr, Bool, false, List, [], ◌∷◌, Option, none, some, Text, get_elem?, without_at,
  ◌==◌, string_comparable, if_both, Bool-cases, All, All-append_one, All-without_at,
}
use caronte.Searches.{search_options, Search, Request, get_searches, perform, State, start}
use caronte.Searches.Form.{
  validate_search, reset, load_searches, perform_search, view_search, performed, refused, loaded,
  load_failed, update_param, handle_notification, component_did_mount,
}
use caronte.Searches.Validation.{IsLongEnough, validate_search_lem}
use caronte.Searches.Editing.{
  edit, Action, edited, cancel_pressed, perform_pressed, view_pressed, notified, accepted, listed,
  rejected, answer_accepted, answer_listed, answer_rejected, step, run,
}
use caronte.Searches.Editing.Exclusive.{IsExclusive, text-IsExclusive, regex-IsExclusive}

-- A search that is sent has one pattern at most, and its phrase and patterns are empty or long enough.
abbrev pub IsSendable : Request → Type 0
IsSendable get_searches = Unit
IsSendable (perform o) =
    IsExclusive o
    × IsLongEnough o.text_search.exact_phrase
    × IsLongEnough o.regex_search.pattern
    × IsLongEnough o.regex_search.not_pattern

abbrev pub IsForm : State → Type 0
IsForm s = IsExclusive s.current_search_options × All IsSendable s.requests

search_options-IsExclusive : IsExclusive search_options
search_options-IsExclusive = inl refl

load-IsForm : (s : State) → IsForm s → IsForm (load_searches s)
unfolding load_searches
load-IsForm s (v, r) = (v, All-append_one IsSendable s.requests get_searches r tt)

reset-IsForm : (s : State) → All IsSendable s.requests → IsForm (reset s)
unfolding reset
reset-IsForm s r = (search_options-IsExclusive, r)

perform-IsForm : (s : State) → IsForm s → IsForm (perform_search s)
unfolding perform_search
perform-IsForm s (v, r) =
    let o = s.current_search_options in
    elim (Bool-cases (validate_search o s.errors).0) [
      | inl valid ↦
          let (phrase, pattern, not_pattern) = ((validate_search_lem o s.errors).0).0 valid in
          rw valid (
            v,
            All-append_one IsSendable s.requests (perform o) r (v, phrase, pattern, not_pattern),
          )
      | inr bad ↦ rw bad (v, r)
    ]

answer-IsForm :
    (q : Option Request) (i : ℕ) (status id : Text) (s : State)
    → IsForm s
    → IsForm (answer_accepted q i status id s)
unfolding answer_accepted performed view_search
answer-IsForm none i status id s h = h
answer-IsForm (some get_searches) i status id s h = h
answer-IsForm (some (perform o)) i status id s h =
    load-IsForm
      (record (reset (record s { requests = without_at i s.requests })) {
        search_status_code = some status;
        loading = false;
      })
      (reset-IsForm (record s { requests = without_at i s.requests })
        (All-without_at IsSendable i s.requests h.1))

listed-IsForm :
    (q : Option Request) (i : ℕ) (searches : List Search) (status : Text) (s : State)
    → IsForm s
    → IsForm (answer_listed q i searches status s)
unfolding answer_listed loaded
listed-IsForm none i searches status s h = h
listed-IsForm (some (perform o)) i searches status s h = h
listed-IsForm (some get_searches) i searches status s h =
    (h.0, All-without_at IsSendable i s.requests h.1)

rejected-IsForm :
    (q : Option Request) (i : ℕ) (status response : Option Text) (s : State)
    → IsForm s
    → IsForm (answer_rejected q i status response s)
unfolding answer_rejected refused load_failed
rejected-IsForm none i status response s h = h
rejected-IsForm (some (perform o)) i status response s h =
    (h.0, All-without_at IsSendable i s.requests h.1)
rejected-IsForm (some get_searches) i status response s h =
    (h.0, All-without_at IsSendable i s.requests h.1)

step-IsForm : (locks : Bool) (a : Action) (s : State) → IsForm s → IsForm (step locks a s)
unfolding step update_param edit view_search handle_notification
step-IsForm locks (edited e) s (v, r) =
    (text-IsExclusive locks e _ (regex-IsExclusive e s.current_search_options v), r)
step-IsForm locks cancel_pressed s h = if_both IsForm s.loading s (reset s) h (reset-IsForm s h.1)
step-IsForm locks perform_pressed s h =
    if_both IsForm s.loading s (perform_search s) h (perform-IsForm s h)
step-IsForm locks (view_pressed id) s h = h
step-IsForm locks (notified event) s h =
    if_both IsForm (event == "searches.new") (load_searches s) s (load-IsForm s h) h
step-IsForm locks (accepted i status id) s h =
    answer-IsForm (get_elem? s.requests i) i status id s h
step-IsForm locks (listed i searches status) s h =
    listed-IsForm (get_elem? s.requests i) i searches status s h
step-IsForm locks (rejected i status response) s h =
    rejected-IsForm (get_elem? s.requests i) i status response s h

run_from-IsForm :
    (locks : Bool) (actions : List Action) (s : State) → IsForm s → IsForm (run locks actions s)
unfolding run
run_from-IsForm locks [] s h = h
run_from-IsForm locks (a ∷ rest) s h =
    run_from-IsForm locks rest (step locks a s) (step-IsForm locks a s h)

-- Whether or not the widget of the tags takes edits where it is passed that it is for reading only:
-- after any history of edits, buttons, notifications and answers, the form and each search that was
-- sent and not answered have at most one of the two patterns, and the phrase and the patterns of
-- such a search are empty or have three characters.
pub run-IsForm :
    (locks : Bool) (actions : List Action) → IsForm (run locks actions (component_did_mount start))
unfolding component_did_mount
run-IsForm locks actions =
    run_from-IsForm locks actions (load_searches (reset start))
      (load-IsForm (reset start) (reset-IsForm start tt))
