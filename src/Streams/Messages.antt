-- ===== src/Streams/Messages.antt =====
-- How frontend/src/components/panels/StreamsPane.js presents a message: its parts, the buttons
-- beside it, and which messages are left out. `to_lower` is `toLowerCase`.
use caronte.Prelude.{
  Bool, false, not, ◌&&◌, ◌||◌, List, [], ◌∷◌, ◌++◌, Option, none, some, map, filter, String, Text,
  text, starts_with, ◌==◌, string_comparable, if◌then◌else◌,
}
use caronte.Utils.Headers.{Headers, get_header_value}

pub record HttpRequest : Type 0 where
  pub method : Text
  pub host : Text
  pub url : Text
  pub protocol : Text
  pub headers : Option Headers
  pub body : Text
  pub trailers : Option Headers
  pub reproducers : Option (List (String × Text))

pub record HttpResponse : Type 0 where
  pub protocol : Text
  pub status : Text
  pub headers : Option Headers
  pub body : Text
  pub trailers : Option Headers

pub data Metadata : Type 0 where
  http_request : HttpRequest → Metadata
  http_response : HttpResponse → Metadata
  other : Metadata

pub record Message : Type 0 where
  pub from_client : Bool
  pub content : Text
  pub metadata : Option Metadata
  pub is_metadata_continuation : Bool

-- What is shown of a message: a first line and headers around the part that is highlighted.
pub record Presented : Type 0 where
  pub head : Option Text
  pub headers : Headers
  pub highlighted : Text
  pub trailers : Headers

-- `unrollMap`: null has no lines.
abbrev pub unroll_map : Option Headers → Headers
unroll_map none = []
unroll_map (some hs) = hs

abbrev pub plain : Text → Presented
plain content = record { head = none; headers = []; highlighted = content; trailers = [] }

unfoldable pub try_parse_connection_message : Message → Presented
try_parse_connection_message c = elim c.metadata [
  | none ↦ plain c.content
  | some m ↦ elim m [
    | http_request r ↦ record {
      head = some (r.method ++ (text " " ++ (r.host ++ (r.url ++ (text " " ++ r.protocol)))));
      headers = unroll_map r.headers;
      highlighted = r.body;
      trailers = unroll_map r.trailers;
    }
    | http_response r ↦ record {
      head = some (r.protocol ++ (text " " ++ r.status));
      headers = unroll_map r.headers;
      highlighted = r.body;
      trailers = unroll_map r.trailers;
    }
    | other ↦ plain c.content
  ]
]

-- `payload.filter(…)`
unfoldable pub visible : Bool → List Message → List Message
visible try_parse content =
    filter (λ (c : Message). not try_parse || (try_parse && not c.is_metadata_continuation)) content

-- The content of a message that is not presented by its parts is shown as it is.
unfoldable pub shown : Bool → String → Message → Presented
unfolding try_parse_connection_message
shown try_parse format c =
    if try_parse && format == "default" then try_parse_connection_message c else plain c.content

abbrev pub includes : Text → Text → Bool
includes [] part = starts_with [] part
includes (c ∷ s) part = starts_with (c ∷ s) part || includes s part

-- A button copies a reproducer, or renders the body of an answer.
pub data Action : Type 0 where
  copy : String → Text → Action
  render_html : Text → Action

module _ (to_lower : String → String) where
  unfoldable pub is_html : HttpResponse → Bool
  unfolding get_header_value
  is_html r = elim (get_header_value to_lower r.headers "Content-Type") [
    | none ↦ false
    | some t ↦ includes t (text "text/html")
  ]

  unfoldable pub connections_actions : Message → List Action
  unfolding is_html
  connections_actions c = elim c.metadata [
    | none ↦ []
    | some m ↦ elim m [
      | http_request r ↦ elim r.reproducers [
        | none ↦ []
        | some rs ↦ map (λ (r : String × Text). copy r.0 r.1) rs
      ]
      | http_response r ↦ if is_html r then render_html r.body ∷ [] else []
      | other ↦ []
    ]
  ]

-- The request for the raw messages, and the name of the file: `id` is the property's, and
-- `current_id` the state's.
unfoldable pub download_stream_raw : Option Text → Text → Text → Text → Option (Text × Text)
download_stream_raw current_id id format type = elim current_id [
  | none ↦ none
  | some i ↦ some (
    text "/api/streams/"
        ++ (id ++ (text "/download?format=" ++ (format ++ (text "&type=" ++ type)))),
    i ++ (text "-" ++ (type ++ (text "-" ++ (format ++ text ".txt")))),
  )
]
