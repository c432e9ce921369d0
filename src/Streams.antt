-- ===== src/Streams.antt =====
-- frontend/src/components/panels/StreamsPane.js: the messages of the selected connection, in a
-- format. A request for them stays in `requests` until it is answered; `server` is the backend's
-- answer, which depends on the connection and the format.
pub mod Order
pub mod Messages
pub mod Highlight
pub mod Actions
pub mod Store
pub mod Tests
use caronte.Prelude.{
  ℕ, zero, suc, Bool, true, false, not, List, [], ◌∷◌, ◌++◌, Option, none, some, any, String, Text,
  get_elem?, without_at, Comparable, ◌==◌, string_comparable, list_comparable, nat_comparable,
  option_comparable, if◌then◌else◌,
}

pub record Connection : Type 0 where
  pub id : Text
  pub matched_rules : List Text

-- The window that shows an answer as a page.
pub record Window : Type 0 where
  pub closed : Bool
  pub html : Text

-- The connection that the message list is asked for, and the format.
pub record Request : Type 0 where
  pub connection_id : Text
  pub wanted : String

-- `connection` is the property that the page passes.
pub record State {ℓ} (M : Type ℓ) : Type ℓ where
  pub connection : Option Connection
  pub messages : List M
  pub format : String
  pub try_parse : Bool
  pub current_id : Option Text
  pub render_window : Option Window
  pub requests : List Request

abbrev pub valid_formats : List String
valid_formats =
    "default" ∷ "hex" ∷ "hexdump" ∷ "base32" ∷ "base64" ∷ "ascii" ∷ "binary" ∷ "decimal" ∷ "octal"
    ∷ []

pub data Event : Type 0 where
  connection_changed : Option Connection → Event
  format_chosen : String → Event
  mode_chosen : String → Event
  answered : ℕ → Event
  load_failed : ℕ → Event

module _ {ℓ} {M : Type ℓ} where
  abbrev pub start : Option Connection → State M
  start connection = record {
    connection = connection;
    messages = [];
    format = "default";
    try_parse = true;
    current_id = none;
    render_window = none;
    requests = [];
  }

  unfoldable pub load_stream : Text → State M → State M
  load_stream connection_id s =
      let request : Request = record { connection_id = connection_id; wanted = s.format } in
      record s {
        messages = [];
        current_id = some connection_id;
        requests = s.requests ++ request ∷ [];
      }

  unfoldable pub close_render_window : State M → State M
  close_render_window s = elim s.render_window [
    | none ↦ s
    | some w ↦ record s { render_window = some (record w { closed = true }) }
  ]

  unfoldable pub component_did_mount : State M → State M
  unfolding load_stream
  component_did_mount s = elim s.connection [
    | none ↦ s
    | some c ↦ if s.current_id == some c.id then s else load_stream c.id s
  ]

  -- `componentDidUpdate`, where the connection or the format has changed.
  unfoldable pub component_did_update : State M → State M
  unfolding load_stream close_render_window
  component_did_update s = elim s.connection [
    | none ↦ s
    | some c ↦ load_stream c.id (close_render_window s)
  ]

  unfoldable pub set_format : String → State M → State M
  unfolding component_did_update
  set_format format s =
      if any (λ f. f == format) valid_formats
      then (if s.format == format then s else component_did_update (record s { format = format }))
      else s

  unfoldable pub view_as : String → State M → State M
  view_as mode s =
      if mode == "decoded"
      then record s { try_parse = true }
      else if mode == "raw"
      then record s { try_parse = false }
      else s

  -- The page passes another connection.
  unfoldable pub receive_connection : Option Connection → State M → State M
  unfolding component_did_update
  receive_connection connection s = component_did_update (record s { connection = connection })

  -- The request at a place fails: nothing catches that.
  unfoldable pub fail : ℕ → State M → State M
  fail i s = record s { requests = without_at i s.requests }

  module _ (server : Text → String → List M) where
    -- The answer to the request at a place comes.
    unfoldable pub answer : ℕ → State M → State M
    answer i s = elim (get_elem? s.requests i) [
      | none ↦ s
      | some r ↦ record s {
        messages = server r.connection_id r.wanted;
        requests = without_at i s.requests;
      }
    ]

    unfoldable pub step : Event → State M → State M
    step (connection_changed c) s = receive_connection c s
    step (format_chosen f) s = set_format f s
    step (mode_chosen m) s = view_as m s
    step (answered i) s = answer i s
    step (load_failed i) s = fail i s

    unfoldable pub run : List Event → State M → State M
    run [] s = s
    run (e ∷ es) s = run es (step e s)
