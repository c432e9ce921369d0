-- ===== src/Filters/TagFilters.antt =====
-- frontend/src/components/filters/RulesConnectionsFilter.js, the filter by matched rules, beside the
-- parameters of the connections list as in FlagFilters; the buttons of
-- frontend/src/components/objects/ConnectionMatchedRules.js, which change the same filter; and
-- frontend/src/components/filters/AdvancedFilters.js. An entry for the matched rules is an array,
-- which the filter's callback sorts in place: the order of the identifiers is not followed here.
pub mod Matching
use caronte.Prelude.{
  ℕ, String, Bool, true, false, not, ◌||◌, List, [], ◌∷◌, ◌++◌, Option, none, some, map, any,
  filter, Comparable, ◌==◌, nat_comparable, string_comparable, list_comparable, option_comparable,
  bool_comparable, if◌then◌else◌, Text,
}
use caronte.Utils.Params.{
  Params, Value, null, array, string, Payload, entry, get_all, has, update_params,
}

-- A rule of the backend.
pub record Rule : Type 0 where
  pub id : Text
  pub name : Text
  pub enabled : Bool

-- A tag: `{id, name}`.
pub record Tag : Type 0 where
  pub id : Text
  pub name : Text

-- The filter's state, the identifiers in the URL when it was mounted, and the parameters.
pub record Shared : Type 0 where
  pub rules : List Tag
  pub active_rules : List Tag
  pub initial : List Text
  pub url_params : Params

abbrev pub includes : List Text → Text → Bool
includes ids id = any (λ j. j == id) ids

unfoldable pub component_did_mount : Params → Shared
unfolding get_all
component_did_mount params = record {
  rules = [];
  active_rules = [];
  initial = get_all "matched_rules" params;
  url_params = params;
}

abbrev pub tag_of : Rule → Tag
tag_of r = record { id = r.id; name = r.name }

-- The answer to the request of the rules.
unfoldable pub rules_loaded : List Rule → Shared → Shared
rules_loaded rs s =
    let rules = map tag_of (filter (λ (r : Rule). r.enabled) rs) in
    record s { rules = rules; active_rules = filter (λ (r : Tag). includes s.initial r.id) rules }

-- `_.isEqual` of identifiers and tags: a text is never equal to an object.
abbrev pub is_equal : List Text → List Tag → Bool
is_equal [] [] = true
is_equal _ _ = false

unfoldable pub filter_callback : Option Value → List Tag → List Tag → List Tag
filter_callback (some (array ids)) rules active =
    if not (is_equal ids active) then filter (λ (r : Tag). includes ids r.id) rules else active
filter_callback _ rules active = active

-- A dispatch, by any component, to the filter and to the list of connections.
unfoldable pub deliver : Payload → Shared → Shared
unfolding filter_callback entry update_params
deliver payload s = record s {
  active_rules = filter_callback (entry "matched_rules" payload) s.rules s.active_rules;
  url_params = update_params s.url_params payload;
}

abbrev pub matched_rules : List Text → Payload
matched_rules ids = ("matched_rules", array ids) ∷ []

-- `_.isEqual` of two lists of tags, which `sort` leaves as they are.
abbrev pub same_tags : List Tag → List Tag → Bool
same_tags [] [] = true
same_tags (a ∷ tags) (b ∷ bs) =
    let rest = same_tags tags bs in
    if a.id == b.id then (if a.name == b.name then rest else false) else false
same_tags _ _ = false

unfoldable pub on_change : List Tag → Shared → Shared
unfolding deliver
on_change tags s =
    if not (same_tags tags s.active_rules)
    then deliver (matched_rules (map (λ (r : Tag). r.id) tags)) (record s { active_rules = tags })
    else s

-- A click on a rule of a connection; the URL has the parameters of the list.
unfoldable pub on_matched_rules_selected : Text → Shared → Shared
unfolding deliver get_all
on_matched_rules_selected id s =
    let rules = get_all "matched_rules" s.url_params in
    if not (includes rules id) then deliver (matched_rules (rules ++ id ∷ [])) s else s

pub data Event : Type 0 where
  delivered : Payload → Event
  changed : List Tag → Event
  selected : Text → Event

unfoldable pub step : Event → Shared → Shared
unfolding deliver on_change on_matched_rules_selected
step (delivered p) s = deliver p s
step (changed tags) s = on_change tags s
step (selected id) s = on_matched_rules_selected id s

unfoldable pub run : List Event → Shared → Shared
run [] s = s
run (e ∷ es) s = run es (step e s)

-- The parameters of the dialog, and whether its button is marked; at first it is not.
pub record Advanced : Type 0 where
  pub url_params : Params
  pub active : Bool

abbrev pub advanced_names : List String
advanced_names =
    "client_address" ∷ "client_port" ∷ "min_duration" ∷ "max_duration" ∷ "min_bytes" ∷ "max_bytes"
    ∷ []

abbrev pub advanced_start : Params → Advanced
advanced_start params = record { url_params = params; active = false }

unfoldable pub advanced_callback : Payload → Advanced → Advanced
unfolding update_params has
advanced_callback payload s =
    let params = update_params s.url_params payload in
    record { url_params = params; active = any (λ n. has n params) advanced_names }
