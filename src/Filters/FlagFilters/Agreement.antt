-- ===== src/Filters/FlagFilters/Agreement.antt =====
-- Whether the filters of frontend/src/components/filters/BooleanConnectionsFilter.js and
-- ExitSearchFilter.js show what the parameters of the connections list say.
use caronte.Prelude.{
  String, Bool, true, false, ◌≡◌, refl, ◌∙◌, ap, sym, List, [], ◌∷◌, Option, none, some, head?,
  ◌==◌, string_comparable, option_comparable, list_comparable, nat_comparable, Text, text, arith,
  Bool-cases, ==_refl, Option-cases, inl, inr, ◌↔◌,
}
use caronte.Utils.Params
use caronte.Utils.Params.{Params, Value, null, array, string, get, get_all, update_params}
use caronte.Utils.Params.Update.{Distinct, values, get_all-update_params}
use caronte.Filters.StringFilter.{Payload, entry}
use caronte.Filters.FlagFilters.{
  as_update, to_boolean, bool_text, Shared, component_did_mount, filter_callback, deliver,
  search_callback, filter_changed,
}

pub get-get_all : (n : String) (p : Params) → get n p ≡ head? (get_all n p)
unfolding get get_all
get-get_all n [] = refl
get-get_all n ((m, v) ∷ p) = ground (arith, get-get_all n p)

abbrev as_value : Option Text → Value
as_value none = null
as_value (some v) = string v

entry-as_update-none :
    (k : String) (p : Payload) → entry k p ≡ none → Params.entry k (as_update p) ≡ none
unfolding entry Params.entry as_update
entry-as_update-none k [] h = refl
entry-as_update-none k ((n, none) ∷ p) h = ground (arith, entry-as_update-none k p)
entry-as_update-none k ((n, some v) ∷ p) h = ground (arith, entry-as_update-none k p)

entry-as_update :
    (k : String) (p : Payload) (v : Option Text)
    → entry k p ≡ some v
    → Params.entry k (as_update p) ≡ some (as_value v)
unfolding entry Params.entry as_update
entry-as_update k [] v h = cc
entry-as_update k ((n, none) ∷ p) v h = ground (arith, entry-as_update k p v)
entry-as_update k ((n, some w) ∷ p) v h = ground (arith, entry-as_update k p v)

-- A name has one entry in the payload.
abbrev pub IsObject : Payload → Type 0
IsObject p = Distinct (as_update p)

pub get-update_none :
    (k : String) (u : Params) (p : Payload)
    → IsObject p
    → entry k p ≡ none
    → get k (update_params u (as_update p)) ≡ get k u
get-update_none k u p d h =
    get-get_all k (update_params u (as_update p))
    ∙ ap head? (get_all-update_params k u (as_update p) d)
    ∙ rw (entry-as_update-none k p h) (sym (get-get_all k u))

head_values : (v : Option Text) → head? (values (as_value v)) ≡ v
head_values none = refl
head_values (some t) = refl

pub get-update_some :
    (k : String) (u : Params) (p : Payload) (v : Option Text)
    → IsObject p
    → entry k p ≡ some v
    → get k (update_params u (as_update p)) ≡ v
get-update_some k u p v d h =
    get-get_all k (update_params u (as_update p))
    ∙ ap head? (get_all-update_params k u (as_update p) d)
    ∙ rw (entry-as_update k p v h) (head_values v)

-- What the button and the list's parameter become, given the entry of the payload.
abbrev Sought : Option (Option Text) → Option Text → Option Text → Option Text → Type 0
Sought none old shown listed = (shown ≡ none) × (listed ≡ old)
Sought (some v) old shown listed = (shown ≡ v) × (listed ≡ v)

entry-Sought :
    (o : Option (Option Text)) (p : Payload) (u : Params) (performed_search : Option Text)
    → IsObject p
    → entry "performed_search" p ≡ o
    → Sought o
        (get "performed_search" u)
        (search_callback p performed_search)
        (get "performed_search" (update_params u (as_update p)))
unfolding search_callback
entry-Sought none p u s d h =
    (rw (h, search_callback) refl, get-update_none "performed_search" u p d h)
entry-Sought (some v) p u s d h =
    (rw (h, search_callback) refl, get-update_some "performed_search" u p v d h)

-- If the names of a payload are distinct, then after one that does not name the search the exit
-- button is not shown, while the list of connections keeps the search in its parameters; after one
-- that names it, both have its value.
search_callback-Sought :
    (p : Payload) (u : Params) (performed_search : Option Text)
    → IsObject p
    → Sought
        (entry "performed_search" p)
        (get "performed_search" u)
        (search_callback p performed_search)
        (get "performed_search" (update_params u (as_update p)))
search_callback-Sought p u s d = entry-Sought (entry "performed_search" p) p u s d refl

pub same_option : (a b : Option Text) → ((a == b) ≡ true) ↔ (a ≡ b)
same_option a b = (option_comparable {A = Text}).same_iff a b

module _ (name : String) where
  abbrev pub Agrees : Shared → Type 0
  Agrees s = to_boolean s.filter_active ≡ to_boolean (get name s.url_params)

  to_boolean-bool_text : (b : Bool) → to_boolean (some (bool_text b)) ≡ b
  unfolding to_boolean
  to_boolean-bool_text true = refl
  to_boolean-bool_text false = refl

  filter_callback-some :
      (p : Payload) (a v : Option Text) → entry name p ≡ some v → filter_callback name p a ≡ v
  unfolding filter_callback
  filter_callback-some p a v h =
      rw (h, filter_callback)
        (elim (Bool-cases (a == v)) [ inl e ↦ rw e ((same_option a v).0 e) | inr e ↦ rw e refl ])

  filter_callback-none :
      (p : Payload) (a : Option Text) → entry name p ≡ none → filter_callback name p a ≡ a
  unfolding filter_callback
  filter_callback-none p a h = rw (h, filter_callback)

  deliver-Agrees : (p : Payload) (s : Shared) → IsObject p → Agrees s → Agrees (deliver name p s)
  unfolding deliver
  deliver-Agrees p s d h = elim (Option-cases (entry name p)) [
    | inl e ↦
        ap to_boolean (filter_callback-none p s.filter_active e)
        ∙ h
        ∙ ap to_boolean (sym (get-update_none name s.url_params p d e))
    | inr (v, e) ↦
        ap to_boolean (filter_callback-some p s.filter_active v e)
        ∙ ap to_boolean (sym (get-update_some name s.url_params p v d e))
  ]

  pub one_entry : (v : Option Text) → IsObject ((name, v) ∷ [])
  unfolding as_update Params.entry
  one_entry none = (refl, tt)
  one_entry (some t) = (refl, tt)

  pub own_entry : (v : Option Text) → entry name ((name, v) ∷ []) ≡ some v
  unfolding entry
  own_entry v = rw (==_refl name)

  sent_value :
      (u : Params) (v : Option Text) → get name (update_params u (as_update ((name, v) ∷ []))) ≡ v
  sent_value u none =
      get-update_some name u ((name, none) ∷ []) none (one_entry none) (own_entry none)
  sent_value u (some t) =
      get-update_some name u ((name, some t) ∷ []) (some t) (one_entry (some t))
        (own_entry (some t))

  -- The sending filter itself: its dispatch, and then its own update.
  changed-Agrees : (s : Shared) → Agrees (filter_changed name s)
  unfolding filter_changed deliver
  changed-Agrees s = elim (Bool-cases (to_boolean s.filter_active)) [
    | inl e ↦ rw e (sym (ap to_boolean (sent_value s.url_params none)))
    | inr e ↦ rw e (sym (ap to_boolean (sent_value s.url_params (some (text "true")))))
  ]

  -- Payloads of any component, and clicks on the filter.
  abbrev pub deliver_all : List (Option Payload) → Shared → Shared
  deliver_all [] s = s
  deliver_all (none ∷ es) s = deliver_all es (filter_changed name s)
  deliver_all (some p ∷ es) s = deliver_all es (deliver name p s)

  abbrev pub AllObjects : List (Option Payload) → Type 0
  AllObjects [] = Unit
  AllObjects (none ∷ es) = AllObjects es
  AllObjects (some p ∷ es) = IsObject p × AllObjects es

  deliver_all-Agrees :
      (es : List (Option Payload)) (s : Shared)
      → AllObjects es
      → Agrees s
      → Agrees (deliver_all es s)
  deliver_all-Agrees [] s d h = h
  deliver_all-Agrees (none ∷ es) s d h =
      deliver_all-Agrees es (filter_changed name s) d (changed-Agrees s)
  deliver_all-Agrees (some p ∷ es) s d h =
      deliver_all-Agrees es (deliver name p s) d.1 (deliver-Agrees p s d.0 h)

  mounted-Agrees : (u : Params) → Agrees (component_did_mount name u)
  unfolding component_did_mount
  mounted-Agrees u = to_boolean-bool_text (to_boolean (get name u))

  -- After any history of payloads and clicks since it was mounted, a Boolean filter is checked
  -- exactly if the parameter of its name says true, if the names of each payload are distinct.
  pub mounted_filter-Agrees :
      (es : List (Option Payload)) (u : Params)
      → AllObjects es
      → Agrees (deliver_all es (component_did_mount name u))
  mounted_filter-Agrees es u d =
      deliver_all-Agrees es (component_did_mount name u) d (mounted-Agrees u)
