-- ===== src/Filters/TagTests.antt =====
-- The filter by matched rules of frontend/src/components/filters/RulesConnectionsFilter.js at two
-- rules, and the theorems at them.
use caronte.Prelude.{◌≡◌, refl, true, false, List, [], ◌∷◌, text}
use caronte.Utils.Params.{Params, get_all, string, entry}
use caronte.Filters.TagFilters.{
  Rule, component_did_mount, rules_loaded, Event, delivered, changed, selected, run, advanced_start,
  advanced_callback,
}
use caronte.Filters.TagFilters.Matching.{Matches, rules_loaded-Matches}

abbrev backend_rules : List Rule
backend_rules =
    record { id = text "a"; name = text "flag"; enabled = true }
    ∷ record { id = text "b"; name = text "sqli"; enabled = true }
    ∷ record { id = text "c"; name = text "old"; enabled = false }
    ∷ []

abbrev url : Params
url = ("matched_rules", text "a") ∷ ("service_port", text "80") ∷ []

abbrev clicks : List Event
clicks =
    selected (text "b")
    ∷ delivered (("service_port", string (text "22")) ∷ [])
    ∷ changed (record { id = text "b"; name = text "sqli" } ∷ [])
    ∷ []

rules_loaded-Matches_example :
    let s = run clicks (rules_loaded backend_rules (component_did_mount url)) in
    Matches s.active_rules s.rules (get_all "matched_rules" s.url_params)
unfolding entry
rules_loaded-Matches_example =
    rules_loaded-Matches url backend_rules clicks (tt, (((refl, tt), tt), (tt, tt)))

-- A parameter of the dialog that is there from the start is not marked before a payload comes.
advanced_callback-port :
    let params : Params = ("client_port", text "1") ∷ [] in
    ((advanced_start params).active ≡ false)
    × ((advanced_callback [] (advanced_start params)).active ≡ true)
unfolding advanced_callback
advanced_callback-port = (refl, refl)
