-- ===== src/Pcaps/Tests.antt =====
-- Sessions of frontend/src/components/panels/PcapsPane.js, and the theorems at them.
use caronte.Prelude.{◌≡◌, refl, false, List, [], ◌∷◌, none, some, text, All}
use caronte.Pcaps.{
  step, process_pcap, handle_file_change, upload_pcap, handle_upload_file_change, File, upload,
  process, start, is_pcap, session_rows, sessions_refused, Event, upload_file_changed,
  upload_pressed, file_changed, process_pressed, loaded, load_refused, run,
}
use caronte.Pcaps.Sending.{IsPcapRequest, run-pcap_requests}

abbrev capture : File
capture = record { name = text "day1.pcap"; type = text "application/vnd.tcpdump.pcap" }

abbrev picture : File
picture = record { name = text "cat.png"; type = text "image/png" }

abbrev inputs : List Event
inputs =
    upload_file_changed (some picture)
    ∷ upload_pressed
    ∷ upload_file_changed (some capture)
    ∷ upload_pressed
    ∷ file_changed (text "/srv/day2.pcapng")
    ∷ process_pressed
    ∷ []

sent-inputs :
    (run inputs start).sent
    ≡ upload capture false ∷ process (text "/srv/day2.pcapng") false false ∷ []
unfolding run is_pcap step process_pcap handle_file_change upload_pcap handle_upload_file_change
sent-inputs = refl

run-pcap_requests_example : All IsPcapRequest (run inputs start).sent
run-pcap_requests_example = run-pcap_requests inputs

-- A refusal, after the sessions had come once.
abbrev refused_load : List Event
refused_load = loaded [] (text "200") ∷ load_refused (some (text "500")) (some (text "{}")) ∷ []

refused_load-rows : session_rows (run refused_load start) ≡ none
unfolding run step session_rows sessions_refused
refused_load-rows = refl
