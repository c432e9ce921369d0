-- ===== src/Connections/Loading.antt =====
-- The loads of frontend/src/components/panels/ConnectionsPane.js: what the handlers start, in which
-- stages a load goes on, and what its answers do. `id` gives the identifier of a connection. The
-- measures of the scrolled element are whole numbers, compared without rounding.
pub mod Steps
pub mod Limits
pub mod Failure
pub mod Late
use caronte.Prelude.{
  ℕ, ◌+◌, ◌-◌, ◌*◌, ◌≡◌, ◌≤◌, Bool, true, false, not, ◌&&◌, ◌||◌, List, [], ◌∷◌, ◌++◌, Option, none,
  some, String, Text, length, Comparable, ◌==◌, string_comparable, list_comparable, nat_comparable,
  if◌then◌else◌, ltb,
}
use caronte.Utils.Numbers.{to_text}
use caronte.Utils.Params.{Params, Payload, has, set, update_params}
use caronte.Connections.Window.{Window, Cursors, empty_window, max_connections, merge}

abbrev pub query_limit : ℕ
query_limit = 50

-- What a load waits for.
pub data Stage : Type 0 where
  for_rules for_services for_connections : Stage

-- `enables` tells the load of the button, which ends with the scroll handler enabled.
pub record Load : Type 0 where
  pub stage : Stage
  pub cursors : Cursors
  pub is_initial : Bool
  pub query : Params
  pub enables : Bool

pub record Pane {ℓ} (A : Type ℓ) : Type ℓ where
  pub window : Window A
  pub loading : Bool
  pub url_params : Params
  pub rules : Bool
  pub services : Bool
  pub show_more_recent_button : Bool
  pub disable_scroll_handler : Bool
  pub last_scroll_position : ℕ
  pub query_string_redirect : Bool
  pub loads : List Load

-- The measures of the list when it is scrolled.
pub record Scroll : Type 0 where
  pub scroll_top : ℕ
  pub scroll_height : ℕ
  pub client_height : ℕ

unfoldable pub set_all : List (String × Text) → Params → Params
unfolding set
set_all [] p = p
set_all ((n, v) ∷ extra) p = set_all extra (set n v p)

-- Equality of the query strings.
unfoldable pub same_params : Params → Params → Bool
same_params [] [] = true
same_params ((n, v) ∷ p) ((m, w) ∷ q) = n == m && v == w && same_params p q
same_params _ _ = false

unfoldable pub next_stage : Bool → Bool → Stage
next_stage rules services =
    if rules then (if services then for_connections else for_services) else for_rules

module _ {ℓ} {A : Type ℓ} where
  -- `loadConnections`, up to its first request.
  unfoldable pub load_connections : List (String × Text) → Params → Bool → Bool → Pane A → Pane A
  unfolding next_stage set_all has
  load_connections extra params is_initial enables s =
      let load : Load = record {
        stage = next_stage s.rules s.services;
        cursors = record { from = has "from" extra; to = has "to" extra };
        is_initial = is_initial;
        query = set_all extra params;
        enables = enables;
      } in
      record s { loading = true; loads = s.loads ++ load ∷ [] }

  abbrev pub empty_pane : Pane A
  empty_pane = record {
    window = empty_window;
    loading = false;
    url_params = [];
    rules = false;
    services = false;
    show_more_recent_button = false;
    disable_scroll_handler = false;
    last_scroll_position = 0;
    query_string_redirect = false;
    loads = [];
  }

  -- `path_id` is the identifier in the path, if it has one.
  unfoldable pub component_did_mount : Option Text → Params → Pane A
  unfolding load_connections
  component_did_mount path_id params =
      let limit : String × Text = ("limit", to_text query_limit) in
      let mounted : Pane A = record empty_pane { url_params = params } in
      elim path_id [
        | none ↦ load_connections (limit ∷ []) params true false mounted
        | some i ↦ load_connections (limit ∷ ("from", i) ∷ []) params true false mounted
      ]

  unfoldable pub handle_connections_filters : Payload → Pane A → Pane A
  unfolding load_connections update_params same_params
  handle_connections_filters payload s =
      let new_params = update_params s.url_params payload in
      let changed = record s { query_string_redirect = true; url_params = new_params } in
      if same_params s.url_params new_params
      then s
      else load_connections (("limit", to_text query_limit) ∷ []) new_params false false changed

  -- The bounds are the seconds of the payload's times, as numerals.
  unfoldable pub handle_timeline_updates : Text → Text → Pane A → Pane A
  unfolding load_connections
  handle_timeline_updates after before s =
      load_connections
        (("started_after", after)
          ∷ ("started_before", before)
          ∷ ("limit", to_text max_connections)
          ∷ [])
        s.url_params false false s

  -- The button for the most recent connections.
  unfoldable pub press_most_recent : Pane A → Pane A
  unfolding load_connections
  press_most_recent s =
      load_connections (("limit", to_text query_limit) ∷ []) s.url_params false true
        (record s { disable_scroll_handler = true })

  -- The end of `handleScroll`, where it did not load previous connections.
  unfoldable pub scrolled : Scroll → Pane A → Pane A
  scrolled e s = record s {
    show_more_recent_button = ltb e.scroll_top s.last_scroll_position;
    last_scroll_position = e.scroll_top;
  }

  module _ (id : A → Text) where
    -- Where there is no cursor, reading its `id` throws, and the handler ends.
    unfoldable pub load_following : Scroll → Pane A → Pane A
    unfolding load_connections scrolled
    load_following e s = elim s.window.last [
      | none ↦ s
      | some l ↦ scrolled e (
          load_connections (("from", id l) ∷ ("limit", to_text query_limit) ∷ []) s.url_params false
            false s)
    ]

    unfoldable pub load_previous : Scroll → Pane A → Pane A
    unfolding load_connections
    load_previous e s = elim s.window.first [
      | none ↦ s
      | some f ↦
          record (load_connections (("to", id f) ∷ ("limit", to_text query_limit) ∷ []) s.url_params
            false false s) { show_more_recent_button = false; last_scroll_position = e.scroll_top }
    ]

    unfoldable pub handle_scroll : Scroll → Pane A → Pane A
    unfolding load_following load_previous scrolled
    handle_scroll e s =
        let range = e.scroll_height - e.client_height in
        let at_bottom = ltb (99999 * range) (100000 * e.scroll_top) in
        let at_top = ltb (100000 * e.scroll_top) range in
        if s.disable_scroll_handler
        then record s { last_scroll_position = e.scroll_top }
        else if not s.loading && at_bottom
        then load_following e s
        else if not s.loading && at_top
        then load_previous e s
        else scrolled e s

  -- The answers that a load waits for.
  unfoldable pub rules_come : Load → Pane A → Pane A
  unfolding next_stage
  rules_come l s = record s {
    rules = true;
    loads = s.loads ++ record l { stage = next_stage true s.services } ∷ [];
  }

  unfoldable pub services_come : Load → Pane A → Pane A
  services_come l s = record s {
    services = true;
    loads = s.loads ++ record l { stage = for_connections } ∷ [];
  }

  unfoldable pub connections_come : ℕ → Load → List A → Pane A → Pane A
  connections_come max l res s = record s {
    window = merge max l.cursors l.is_initial s.window res;
    loading = false;
    disable_scroll_handler = if l.enables then false else s.disable_scroll_handler;
  }

-- The request of a load is refused or fails: nothing of the load goes on.
unfoldable pub load_fails {ℓ} : {A : Type ℓ} → List Load → Pane A → Pane A
load_fails rest s = record s { loads = rest }
