-- ===== src/Filters/FlagTests.antt =====
-- The filter `marked` and the exit button over a query string, and the theorems on them.
use caronte.Prelude.{◌≡◌, refl, true, List, [], ◌∷◌, Option, none, some, text}
use caronte.Utils.Params
use caronte.Utils.Params.{Params, get, update_params}
use caronte.Filters.StringFilter.{Payload, entry}
use caronte.Filters.FlagFilters.{as_update, to_boolean, component_did_mount, search_callback}
use caronte.Filters.FlagFilters.Agreement.{Agrees, deliver_all, mounted_filter-Agrees}

abbrev query : Params
query = ("performed_search", text "5f") ∷ ("marked", text "True") ∷ []

abbrev port : Payload
port = ("service_port", some (text "80")) ∷ []

mounted-checked : to_boolean (component_did_mount "marked" query).filter_active ≡ true
unfolding component_did_mount to_boolean get
mounted-checked = refl

-- A port is chosen, and the filter is clicked twice.
abbrev history : List (Option Payload)
history = some port ∷ none ∷ none ∷ []

mounted_filter-Agrees_example :
    Agrees "marked" (deliver_all "marked" history (component_did_mount "marked" query))
unfolding as_update entry Params.entry
mounted_filter-Agrees_example = mounted_filter-Agrees "marked" history query ((refl, tt), tt)

-- Another filter's payload hides the exit button; the list stays in the search.
searching-hidden :
    (search_callback port (some (text "5f")) ≡ none)
    × (get "performed_search" (update_params query (as_update port)) ≡ some (text "5f"))
unfolding search_callback update_params as_update get
searching-hidden = (refl, refl)
