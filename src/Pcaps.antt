-- ===== src/Pcaps.antt =====
-- frontend/src/components/panels/PcapsPane.js: the analyzed captures, and the forms that upload one
-- or have one processed that the server has. `sent` is the history of the requests.
pub mod Sending
pub mod Sessions
pub mod Tests
use caronte.Prelude.{
  ℕ, Bool, true, false, not, ◌&&◌, ◌||◌, List, [], ◌∷◌, ◌++◌, Option, none, some, map, String, Text,
  text, length, take, starts_with, ends_with, Comparable, ◌==◌, nat_comparable, list_comparable,
  if◌then◌else◌,
}

-- A file that the user chose: its name and its media type.
pub record File : Type 0 where
  pub name : Text
  pub type : Text

pub record Session : Type 0 where
  pub id : Text
  pub size : ℕ
  pub processed_packets : ℕ
  pub invalid_packets : ℕ
  pub packets_per_service : List (Text × ℕ)

pub data Request : Type 0 where
  get_sessions : Request
  upload : File → Bool → Request
  process : Text → Bool → Bool → Request

-- `sessions` is none where the answer was no list. An answer to a form is its status and its text.
pub record State : Type 0 where
  pub sessions : Option (List Session)
  pub is_upload_file_valid : Bool
  pub is_upload_file_focused : Bool
  pub upload_flush_all : Bool
  pub upload_selected_file : Option File
  pub is_file_valid : Bool
  pub is_file_focused : Bool
  pub file_value : Text
  pub process_flush_all : Bool
  pub delete_original_file : Bool
  pub sessions_status_code : Option Text
  pub sessions_response : Option Text
  pub upload_answer : Option (Text × Text)
  pub process_answer : Option (Text × Text)
  pub sent : List Request

abbrev pub start : State
start = record {
  sessions = some [];
  is_upload_file_valid = true;
  is_upload_file_focused = false;
  upload_flush_all = false;
  upload_selected_file = none;
  is_file_valid = true;
  is_file_focused = false;
  file_value = [];
  process_flush_all = false;
  delete_original_file = false;
  sessions_status_code = none;
  sessions_response = none;
  upload_answer = none;
  process_answer = none;
  sent = [];
}

-- The test of a media type or a path.
unfoldable pub is_pcap : Text → Bool
is_pcap s = ends_with s (text "pcap") || ends_with s (text "pcapng")

unfoldable pub load_sessions : State → State
load_sessions s = record s { sent = s.sent ++ get_sessions ∷ [] }

-- The answers to `loadSessions`. The JSON of a refusal is an object, or nothing where the request
-- failed, and never a list.
unfoldable pub sessions_loaded : List Session → Text → State → State
sessions_loaded sessions status s = record s {
  sessions = some sessions;
  sessions_status_code = some status;
}

unfoldable pub sessions_refused : Option Text → Option Text → State → State
sessions_refused status response s = record s {
  sessions = none;
  sessions_status_code = status;
  sessions_response = response;
}

unfoldable pub handle_upload_file_change : Option File → State → State
unfolding is_pcap
handle_upload_file_change file s = record s {
  is_upload_file_valid = elim file [ none ↦ true | some f ↦ is_pcap f.type ];
  is_upload_file_focused = false;
  upload_selected_file = file;
  upload_answer = none;
}

unfoldable pub handle_file_change : Text → State → State
unfolding is_pcap
handle_file_change file s = record s {
  is_file_valid = is_pcap file;
  is_file_focused = false;
  file_value = file;
  process_answer = none;
}

unfoldable pub upload_pcap : State → State
upload_pcap s = elim s.upload_selected_file [
  | none ↦ record s { is_upload_file_focused = true }
  | some f ↦
      if not s.is_upload_file_valid
      then record s { is_upload_file_focused = true }
      else record s { sent = s.sent ++ upload f s.upload_flush_all ∷ [] }
]

unfoldable pub process_pcap : State → State
process_pcap s =
    if s.file_value == [] || not s.is_file_valid
    then record s { is_file_focused = true }
    else record s {
      sent = s.sent ++ process s.file_value s.process_flush_all s.delete_original_file ∷ [];
    }

unfoldable pub reset_upload : State → State
reset_upload s = record s {
  is_upload_file_valid = true;
  is_upload_file_focused = false;
  upload_flush_all = false;
  upload_selected_file = none;
}

unfoldable pub reset_process : State → State
reset_process s = record s {
  is_file_valid = true;
  is_file_focused = false;
  file_value = [];
  process_flush_all = false;
  delete_original_file = false;
}

-- The answers to the forms' requests.
unfoldable pub uploaded : Text → Text → State → State
unfolding reset_upload load_sessions
uploaded status response s =
    load_sessions (reset_upload (record s { upload_answer = some (status, response) }))

unfoldable pub processed : Text → Text → State → State
unfolding reset_process load_sessions
processed status response s =
    load_sessions (reset_process (record s { process_answer = some (status, response) }))

unfoldable pub handle_notifications : Text → State → State
unfolding load_sessions
handle_notifications event s = if starts_with event (text "pcap") then load_sessions s else s

pub data Event : Type 0 where
  mounted : Event
  notified : Text → Event
  upload_file_changed : Option File → Event
  upload_flush_checked : Bool → Event
  upload_pressed : Event
  file_changed : Text → Event
  process_flush_checked : Bool → Event
  delete_original_checked : Bool → Event
  process_pressed : Event
  upload_done : Text → Text → Event
  upload_refused : Option (Text × Text) → Event
  process_done : Text → Text → Event
  process_refused : Option (Text × Text) → Event
  loaded : List Session → Text → Event
  load_refused : Option Text → Option Text → Event

unfoldable pub step : Event → State → State
step mounted s = load_sessions s
step (notified e) s = handle_notifications e s
step (upload_file_changed f) s = handle_upload_file_change f s
step (upload_flush_checked v) s = record s { upload_flush_all = v }
step upload_pressed s = upload_pcap s
step (file_changed f) s = handle_file_change f s
step (process_flush_checked v) s = record s { process_flush_all = v }
step (delete_original_checked v) s = record s { delete_original_file = v }
step process_pressed s = process_pcap s
step (upload_done a b) s = uploaded a b s
step (upload_refused a) s = record s { upload_answer = a }
step (process_done a b) s = processed a b s
step (process_refused a) s = record s { process_answer = a }
step (loaded rs a) s = sessions_loaded rs a s
step (load_refused a b) s = sessions_refused a b s

unfoldable pub run : List Event → State → State
run [] s = s
run (e ∷ es) s = run es (step e s)

-- What is rendered of a session: the start of its identifier, its numbers, and the download link.
pub record Row : Type 0 where
  pub short_id : Text
  pub packets : ℕ × ℕ
  pub services : ℕ
  pub link : Text

unfoldable pub session_row : Session → Row
session_row s = record {
  short_id = take 8 s.id;
  packets = (s.processed_packets, s.invalid_packets);
  services = length s.packets_per_service;
  link = text "/api/pcap/sessions/" ++ (s.id ++ text "/download");
}

-- The rows of the list; `none` is that `map` throws.
unfoldable pub session_rows : State → Option (List Row)
unfolding session_row
session_rows s = elim s.sessions [ none ↦ none | some rs ↦ some (map session_row rs) ]
