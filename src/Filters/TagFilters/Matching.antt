-- ===== src/Filters/TagFilters/Matching.antt =====
-- Whether the filter by matched rules shows what the connections are filtered by.
use caronte.Prelude.{
  ◌≡◌, refl, sym, subst, not, List, [], ◌∷◌, ◌++◌, Option, none, some, map, filter, All,
  nat_comparable, string_comparable, list_comparable, option_comparable, if_both, Text,
}
use caronte.Utils.Params.{Params, Value, null, array, string, Payload, entry, get_all}
use caronte.Utils.Params.Update.{Distinct, updated, get_all-update_params}
use caronte.Filters.TagFilters.{
  Rule, Tag, Shared, includes, component_did_mount, rules_loaded, filter_callback, deliver,
  matched_rules, same_tags, on_change, on_matched_rules_selected, Event, delivered, changed,
  selected, step, run,
}

-- A payload is an object whose entry for the rules, if it has one, is an array.
abbrev pub ArrayOrAbsent : Option Value → Type 0
ArrayOrAbsent none = Unit
ArrayOrAbsent (some (array ids)) = Unit
ArrayOrAbsent (some null) = ⊥
ArrayOrAbsent (some (string t)) = ⊥

abbrev pub IsPayload : Event → Type 0
IsPayload (delivered p) = Distinct p × ArrayOrAbsent (entry "matched_rules" p)
IsPayload (changed tags) = Unit
IsPayload (selected id) = Unit

-- The tags are the rules that the parameters name.
abbrev pub Matches : List Tag → List Tag → List Text → Type 0
Matches active rules ids = active ≡ filter (λ (r : Tag). includes ids r.id) rules

filter_none : (rules : List Tag) → filter (λ (r : Tag). includes [] r.id) rules ≡ []
filter_none [] = refl
filter_none (r ∷ rules) = filter_none rules

callback-array :
    (ids : List Text) (rules active : List Tag)
    → Matches (filter_callback (some (array ids)) rules active) rules ids
unfolding filter_callback
callback-array [] rules [] = sym (filter_none rules)
callback-array [] rules (a ∷ active) = refl
callback-array (i ∷ ids) rules [] = refl
callback-array (i ∷ ids) rules (a ∷ active) = refl

callback-Matches :
    (o : Option Value) (rules active : List Tag) (ids : List Text)
    → ArrayOrAbsent o
    → Matches active rules ids
    → Matches (filter_callback o rules active) rules (updated o ids)
unfolding filter_callback
callback-Matches none rules active ids h v = v
callback-Matches (some (array js)) rules active ids h v = callback-array js rules active
callback-Matches (some null) rules active ids h v = elim h [ ]
callback-Matches (some (string t)) rules active ids h v = elim h [ ]

abbrev Agrees : Shared → Type 0
Agrees s = Matches s.active_rules s.rules (get_all "matched_rules" s.url_params)

deliver-Agrees :
    (p : Payload) (s : Shared)
    → Distinct p
    → ArrayOrAbsent (entry "matched_rules" p)
    → Agrees s
    → Agrees (deliver p s)
unfolding deliver
deliver-Agrees p s d h v =
    subst (Matches (filter_callback (entry "matched_rules" p) s.rules s.active_rules) s.rules)
      (sym (get_all-update_params "matched_rules" s.url_params p d))
      (callback-Matches (entry "matched_rules" p) s.rules s.active_rules
        (get_all "matched_rules" s.url_params) h v)

-- A payload with the rules alone makes the tags agree, whatever they were.
matched_rules-Agrees : (ids : List Text) (s : Shared) → Agrees (deliver (matched_rules ids) s)
unfolding deliver entry
matched_rules-Agrees ids s =
    subst (Matches (filter_callback (some (array ids)) s.rules s.active_rules) s.rules)
      (sym (get_all-update_params "matched_rules" s.url_params (matched_rules ids) (refl, tt)))
      (callback-array ids s.rules s.active_rules)

step-Agrees : (e : Event) (s : Shared) → IsPayload e → Agrees s → Agrees (step e s)
unfolding step on_change on_matched_rules_selected
step-Agrees (delivered p) s h v = deliver-Agrees p s h.0 h.1 v
step-Agrees (changed tags) s h v =
    if_both Agrees (not (same_tags tags s.active_rules))
      (deliver (matched_rules (map (λ (r : Tag). r.id) tags)) (record s { active_rules = tags })) s
      (matched_rules-Agrees (map (λ (r : Tag). r.id) tags) (record s { active_rules = tags })) v
step-Agrees (selected id) s h v =
    let rules = get_all "matched_rules" s.url_params in
    if_both Agrees (not (includes rules id)) (deliver (matched_rules (rules ++ id ∷ [])) s) s
      (matched_rules-Agrees (rules ++ id ∷ []) s) v

run-Agrees : (es : List Event) (s : Shared) → All IsPayload es → Agrees s → Agrees (run es s)
unfolding run
run-Agrees [] s h v = v
run-Agrees (e ∷ es) s h v = run-Agrees es (step e s) h.1 (step-Agrees e s h.0 v)

-- If the rules come before any payload, then after any history of payloads, changes of the tags and
-- clicks on the rules of a connection, the tags are the enabled rules that the connections are
-- filtered by.
pub rules_loaded-Matches :
    (params : Params) (rs : List Rule) (es : List Event)
    → All IsPayload es
    → let s = run es (rules_loaded rs (component_did_mount params)) in
      Matches s.active_rules s.rules (get_all "matched_rules" s.url_params)
unfolding rules_loaded component_did_mount
rules_loaded-Matches params rs es h =
    run-Agrees es (rules_loaded rs (component_did_mount params)) h refl

-- The rules that come after a payload undo it for the tags: those of the first parameters are
-- shown, while the connections are filtered by the payload.
rules_loaded-deliver :
    (params : Params) (rs : List Rule) (ids : List Text)
    → let s = rules_loaded rs (deliver (matched_rules ids) (component_did_mount params)) in
      Matches s.active_rules s.rules (get_all "matched_rules" params)
      × (get_all "matched_rules" s.url_params ≡ ids)
unfolding rules_loaded component_did_mount deliver entry
rules_loaded-deliver params rs ids =
    (refl, get_all-update_params "matched_rules" params (matched_rules ids) (refl, tt))
