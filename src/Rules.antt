-- ===== src/Rules.antt =====
-- frontend/src/components/panels/RulesPane.js: the list of rules and the form that adds or updates
-- one. `sent` is the history of the requests; a request carries the rule as it is when it is sent.
-- The rule that is selected is a copy of the listed one; a pattern of the new rule that is being
-- edited is edited in place, so that the model keeps its index.
pub mod Form
pub mod Validation
pub mod Sending
pub mod Editing
pub mod Patterns
pub mod Backend
pub mod EditingTests
pub mod Tests
use caronte.Prelude.{ℕ, Bool, true, false, List, [], Option, none, some, String, Text}

pub record Filter : Type 0 where
  pub service_port : ℕ
  pub client_address : Text
  pub client_port : ℕ
  pub min_duration : ℕ
  pub max_duration : ℕ
  pub min_bytes : ℕ
  pub max_bytes : ℕ

pub record Flags : Type 0 where
  pub caseless : Bool
  pub dot_all : Bool
  pub multi_line : Bool
  pub utf_8_mode : Bool
  pub unicode_property : Bool

pub record Pattern : Type 0 where
  pub regex : Text
  pub flags : Flags
  pub min_occurrences : ℕ
  pub max_occurrences : ℕ
  pub direction : ℕ

-- A rule that is not yet stored has no `id`.
pub record Rule : Type 0 where
  pub id : Option Text
  pub name : Text
  pub color : Text
  pub notes : Text
  pub enabled : Bool
  pub patterns : List Pattern
  pub filter : Filter
  pub version : ℕ

abbrev pub empty_rule : Rule
empty_rule = record {
  id = none;
  name = [];
  color = [];
  notes = [];
  enabled = true;
  patterns = [];
  filter = record {
    service_port = 0;
    client_address = [];
    client_port = 0;
    min_duration = 0;
    max_duration = 0;
    min_bytes = 0;
    max_bytes = 0;
  };
  version = 0;
}

abbrev pub empty_pattern : Pattern
empty_pattern = record {
  regex = [];
  flags = record {
    caseless = false;
    dot_all = false;
    multi_line = false;
    utf_8_mode = false;
    unicode_property = false;
  };
  min_occurrences = 0;
  max_occurrences = 0;
  direction = 0;
}

pub record Errors : Type 0 where
  pub rule_name : Option String
  pub rule_color : Option String
  pub rule_service_port : Option String
  pub rule_client_port : Option String
  pub rule_client_address : Option String
  pub rule_duration : Option String
  pub rule_bytes : Option String
  pub rule_patterns : Option String

abbrev pub no_errors : Errors
no_errors = record {
  rule_name = none;
  rule_color = none;
  rule_service_port = none;
  rule_client_port = none;
  rule_client_address = none;
  rule_duration = none;
  rule_bytes = none;
  rule_patterns = none;
}

pub data Request : Type 0 where
  get_rules : Request
  post_rule : Rule → Request
  put_rule : Option Text → Rule → Request

pub record State : Type 0 where
  pub rules : List Rule
  pub selected_rule : Option Rule
  pub new_rule : Rule
  pub selected_pattern : Option ℕ
  pub new_pattern : Pattern
  pub pattern_regex_focused : Bool
  pub pattern_occurrences_focused : Bool
  pub errors : Errors
  pub rule_status_code : Option Text
  pub rules_status_code : Option Text
  pub rule_response : Option Text
  pub rules_response : Option Text
  pub sent : List Request

abbrev pub start : State
start = record {
  rules = [];
  selected_rule = none;
  new_rule = empty_rule;
  selected_pattern = none;
  new_pattern = empty_pattern;
  pattern_regex_focused = false;
  pattern_occurrences_focused = false;
  errors = no_errors;
  rule_status_code = none;
  rules_status_code = none;
  rule_response = none;
  rules_response = none;
  sent = [];
}
