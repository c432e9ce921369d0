-- ===== src/Searches.antt =====
-- frontend/src/components/panels/SearchPane.js: the searches that were made, and the form for a new
-- one. `requests` are those not yet answered, `viewed` the searches that the pane told the other
-- components to show, by `connections_filters`.
pub mod Form
pub mod Validation
pub mod Printing
pub mod InFlight
pub mod Editing
pub mod Backend
pub mod Tests
pub mod EditingTests
use caronte.Prelude.{ℕ, Bool, true, false, List, [], Option, none, some, String, Text}

pub record TextSearch : Type 0 where
  pub terms : Option (List Text)
  pub excluded_terms : Option (List Text)
  pub exact_phrase : Text
  pub case_sensitive : Bool

pub record RegexSearch : Type 0 where
  pub pattern : Text
  pub not_pattern : Text
  pub case_insensitive : Bool
  pub multi_line : Bool
  pub ignore_whitespaces : Bool
  pub dot_character : Bool

pub record SearchOptions : Type 0 where
  pub text_search : TextSearch
  pub regex_search : RegexSearch
  pub timeout : ℕ

abbrev pub search_options : SearchOptions
search_options = record {
  text_search = record {
    terms = none;
    excluded_terms = none;
    exact_phrase = [];
    case_sensitive = false;
  };
  regex_search = record {
    pattern = [];
    not_pattern = [];
    case_insensitive = false;
    multi_line = false;
    ignore_whitespaces = false;
    dot_character = false;
  };
  timeout = 10;
}

pub record Search : Type 0 where
  pub id : Text
  pub options : SearchOptions
  pub affected_connections_count : ℕ

pub record Errors : Type 0 where
  pub exact_phrase_error : Option String
  pub pattern_error : Option String
  pub not_pattern_error : Option String

pub data Request : Type 0 where
  get_searches : Request
  perform : SearchOptions → Request

pub record State : Type 0 where
  pub searches : List Search
  pub current_search_options : SearchOptions
  pub loading : Bool
  pub errors : Errors
  pub search_status_code : Option Text
  pub searches_status_code : Option Text
  pub search_response : Option Text
  pub searches_response : Option Text
  pub requests : List Request
  pub viewed : List Text

abbrev pub start : State
start = record {
  searches = [];
  current_search_options = search_options;
  loading = false;
  errors = record { exact_phrase_error = none; pattern_error = none; not_pattern_error = none };
  search_status_code = none;
  searches_status_code = none;
  search_response = none;
  searches_response = none;
  requests = [];
  viewed = [];
}
