-- ===== src/Filters/FlagFilters.antt =====
-- frontend/src/components/filters/BooleanConnectionsFilter.js and ExitSearchFilter.js, beside the
-- parameters that frontend/src/components/panels/ConnectionsPane.js keeps: a dispatched payload
-- reaches both. A payload's value is a text or null here.
pub mod Agreement
use caronte.Prelude.{
  ℕ, ◌-◌, String, Bool, true, false, not, ◌&&◌, ◌||◌, List, [], ◌∷◌, Option, none, some, Comparable,
  ◌==◌, nat_comparable, list_comparable, option_comparable, if◌then◌else◌, Text, text,
}
use caronte.Utils.Params
use caronte.Utils.Params.{Params, Value, null, string, get, update_params}
use caronte.Filters.StringFilter.{Payload, entry}

-- The payload as `updateParams` reads it.
unfoldable pub as_update : Payload → Params.Payload
as_update [] = []
as_update ((n, none) ∷ p) = (n, null) ∷ as_update p
as_update ((n, some v) ∷ p) = (n, string v) ∷ as_update p

-- A small letter or its capital.
abbrev pub is_letter : ℕ → ℕ → Bool
is_letter c l = c == l || c == l - 32

-- `value !== null && value.toLowerCase() === "true"`
unfoldable pub to_boolean : Option Text → Bool
to_boolean (some (a ∷ b ∷ c ∷ d ∷ [])) =
    is_letter a b't' && is_letter b b'r' && is_letter c b'u' && is_letter d b'e'
to_boolean _ = false

abbrev pub bool_text : Bool → Text
bool_text true = text "true"
bool_text false = text "false"

-- The filter's state and the parameters of the URL.
pub record Shared : Type 0 where
  pub filter_active : Option Text
  pub url_params : Params

module _ (filter_name : String) where
  unfoldable pub component_did_mount : Params → Shared
  unfolding to_boolean
  component_did_mount params = record {
    filter_active = some (bool_text (to_boolean (get filter_name params)));
    url_params = params;
  }

  unfoldable pub filter_callback : Payload → Option Text → Option Text
  unfolding entry
  filter_callback payload active = elim (entry filter_name payload) [
    | none ↦ active
    | some v ↦ if active == v then active else v
  ]

  -- A dispatch, by any component, to the filter and to the list of connections, of a payload whose
  -- entries are texts or null; only the rules' entry is an array, which Filters/TagFilters has.
  unfoldable pub deliver : Payload → Shared → Shared
  unfolding filter_callback as_update update_params
  deliver payload s = record {
    filter_active = filter_callback payload s.filter_active;
    url_params = update_params s.url_params (as_update payload);
  }

  unfoldable pub filter_changed : Shared → Shared
  unfolding deliver to_boolean
  filter_changed s =
      let new_value = not (to_boolean s.filter_active) in
      let payload = (filter_name, if new_value then some (text "true") else none) ∷ [] in
      record (deliver payload s) { filter_active = some (bool_text new_value) }

-- The callback of the exit button: the search that it belongs to, which shows it if there is one.
unfoldable pub search_callback : Payload → Option Text → Option Text
unfolding entry
search_callback payload performed_search = elim (entry "performed_search" payload) [
  | none ↦ none
  | some v ↦ v
]
