-- ===== src/Pcaps/Sessions.antt =====
-- What the list of frontend/src/components/panels/PcapsPane.js renders.
use caronte.Prelude.{
  ◌≡◌, refl, ◌∙◌, ap, not, ◌||◌, List, [], ◌∷◌, Option, none, some, map, Text, text, if_both,
  Option-cases, inl, inr, ◌==◌, nat_comparable, list_comparable, starts_with,
}
use caronte.Pcaps.{
  Session, State, start, load_sessions, sessions_loaded, sessions_refused,
  handle_upload_file_change, handle_file_change, upload_pcap, process_pcap, reset_upload,
  reset_process, uploaded, processed, handle_notifications, Event, mounted, notified,
  upload_file_changed, upload_flush_checked, upload_pressed, file_changed, process_flush_checked,
  delete_original_checked, process_pressed, upload_done, upload_refused, process_done,
  process_refused, loaded, load_refused, step, run, session_row, session_rows, Row,
}

-- The sessions of the last answer; none where that refused.
abbrev answered : List Event → Option (List Session) → Option (List Session)
answered [] last = last
answered (loaded sessions status ∷ es) last = answered es (some sessions)
answered (load_refused status response ∷ es) last = answered es none
answered (_ ∷ es) last = answered es last

upload-sessions : (s : State) → (upload_pcap s).sessions ≡ s.sessions
unfolding upload_pcap
upload-sessions s = elim (Option-cases s.upload_selected_file) [
  | inl e ↦ simp (e, upload_pcap)
  | inr (f, e) ↦
      simp (e, upload_pcap)
        (if_both (λ (t : State). t.sessions ≡ s.sessions) (not s.is_upload_file_valid) _ _ refl
          refl)
]

process-sessions : (s : State) → (process_pcap s).sessions ≡ s.sessions
unfolding process_pcap
process-sessions s =
    if_both (λ (t : State). t.sessions ≡ s.sessions) (s.file_value == [] || not s.is_file_valid) _ _
      refl refl

notified-sessions : (e : Text) (s : State) → (handle_notifications e s).sessions ≡ s.sessions
unfolding handle_notifications load_sessions
notified-sessions e s =
    if_both (λ (t : State). t.sessions ≡ s.sessions) (starts_with e (text "pcap")) _ _ refl refl

run-sessions : (es : List Event) (s : State) → (run es s).sessions ≡ answered es s.sessions
unfolding run step load_sessions sessions_loaded sessions_refused handle_upload_file_change
    handle_file_change uploaded processed reset_upload reset_process
run-sessions [] s = refl
run-sessions (mounted ∷ es) s = run-sessions es (step mounted s)
run-sessions (notified e ∷ es) s =
    run-sessions es (handle_notifications e s) ∙ ap (answered es) (notified-sessions e s)
run-sessions (upload_file_changed f ∷ es) s = run-sessions es (step (upload_file_changed f) s)
run-sessions (upload_flush_checked b ∷ es) s = run-sessions es (step (upload_flush_checked b) s)
run-sessions (upload_pressed ∷ es) s =
    run-sessions es (upload_pcap s) ∙ ap (answered es) (upload-sessions s)
run-sessions (file_changed f ∷ es) s = run-sessions es (step (file_changed f) s)
run-sessions (process_flush_checked b ∷ es) s = run-sessions es (step (process_flush_checked b) s)
run-sessions (delete_original_checked b ∷ es) s =
    run-sessions es (step (delete_original_checked b) s)
run-sessions (process_pressed ∷ es) s =
    run-sessions es (process_pcap s) ∙ ap (answered es) (process-sessions s)
run-sessions (upload_done a b ∷ es) s = run-sessions es (step (upload_done a b) s)
run-sessions (upload_refused a ∷ es) s = run-sessions es (step (upload_refused a) s)
run-sessions (process_done a b ∷ es) s = run-sessions es (step (process_done a b) s)
run-sessions (process_refused a ∷ es) s = run-sessions es (step (process_refused a) s)
run-sessions (loaded rs a ∷ es) s = run-sessions es (step (loaded rs a) s)
run-sessions (load_refused a b ∷ es) s = run-sessions es (step (load_refused a b) s)

-- The rows of the sessions of the last answer, or that rendering throws.
abbrev rows : Option (List Session) → Option (List Row)
rows none = none
rows (some rs) = some (map session_row rs)

rendered-rows : (s : State) (o : Option (List Session)) → s.sessions ≡ o → session_rows s ≡ rows o
unfolding session_rows
rendered-rows s none h = rw (h, session_rows) refl
rendered-rows s (some rs) h = rw (h, session_rows) refl

-- After any history, the list has the rows of the sessions of the last answer (none before the
-- first), and if that answer refused, rendering the pane throws.
session_rows-run :
    (es : List Event) → session_rows (run es start) ≡ rows (answered es start.sessions)
session_rows-run es =
    rendered-rows (run es start) (answered es start.sessions) (run-sessions es start)
