-- ===== src/Pcaps/Sending.antt =====
-- Which captures the forms of frontend/src/components/panels/PcapsPane.js send.
use caronte.Prelude.{
  ◌≡◌, ◌≢◌, refl, sym, subst, ◌∙◌, ◌⊎◌, inl, inr, Bool, true, false, not, ◌||◌, List, [], ◌∷◌, ◌++◌,
  Option, none, some, Text, text, All, All-append_one, if_both, Bool-cases, Option-cases, ◌==◌,
  nat_comparable, list_comparable, list_beq_iff, starts_with, arith,
}
use caronte.Pcaps.{
  File, Request, get_sessions, upload, process, State, start, is_pcap, load_sessions,
  sessions_loaded, sessions_refused, handle_upload_file_change, handle_file_change, upload_pcap,
  process_pcap, reset_upload, reset_process, uploaded, processed, handle_notifications, Event,
  mounted, notified, upload_file_changed, upload_flush_checked, upload_pressed, file_changed,
  process_flush_checked, delete_original_checked, process_pressed, upload_done, upload_refused,
  process_done, process_refused, loaded, load_refused, step, run,
}

-- A capture is uploaded only under a media type of captures, and processed only under such a path.
abbrev pub IsPcapRequest : Request → Type 0
IsPcapRequest get_sessions = Unit
IsPcapRequest (upload f flush) = is_pcap f.type ≡ true
IsPcapRequest (process file flush drop) = (file ≢ []) × (is_pcap file ≡ true)

abbrev Judged : Option File → Bool → Type 0
Judged none valid = Unit
Judged (some f) valid = valid ≡ is_pcap f.type

-- The marks of both fields are about the values that they have, and so are the requests.
record IsSound (s : State) : Type 0 where
  pub chosen : Judged s.upload_selected_file s.is_upload_file_valid
  pub typed : (s.file_value ≡ []) ⊎ (s.is_file_valid ≡ is_pcap s.file_value)
  pub requests : All IsPcapRequest s.sent

load-IsSound : (s : State) → IsSound s → IsSound (load_sessions s)
unfolding load_sessions
load-IsSound s v = record {
  chosen = v.chosen;
  typed = v.typed;
  requests = All-append_one IsPcapRequest s.sent get_sessions v.requests tt;
}

changed-IsSound :
    (f : Option File) (s : State) → IsSound s → IsSound (handle_upload_file_change f s)
unfolding handle_upload_file_change
changed-IsSound none s v = record { chosen = tt; typed = v.typed; requests = v.requests }
changed-IsSound (some f) s v = record { chosen = refl; typed = v.typed; requests = v.requests }

upload_valid :
    (f : File) (s : State)
    → Judged (some f) s.is_upload_file_valid
    → s.is_upload_file_valid ≡ true
    → All IsPcapRequest s.sent
    → All IsPcapRequest (s.sent ++ upload f s.upload_flush_all ∷ [])
upload_valid f s j e v =
    All-append_one IsPcapRequest s.sent (upload f s.upload_flush_all) v (sym j ∙ e)

upload-IsSound : (s : State) → IsSound s → IsSound (upload_pcap s)
unfolding upload_pcap
upload-IsSound s v = elim (Option-cases s.upload_selected_file) [
  | inl e ↦ simp (e, upload_pcap) (record { chosen = tt; typed = v.typed; requests = v.requests })
  | inr (f, e) ↦
      let j : s.is_upload_file_valid ≡ is_pcap f.type =
        subst (λ o. Judged o s.is_upload_file_valid) e v.chosen in
      elim (Bool-cases s.is_upload_file_valid) [
        | inl h ↦
            simp (e, h, upload_pcap)
              (record {
                chosen = sym h ∙ j;
                typed = v.typed;
                requests = upload_valid f s j h v.requests;
              })
        | inr h ↦
            simp (e, h, upload_pcap)
              (record { chosen = sym h ∙ j; typed = v.typed; requests = v.requests })
      ]
]

process_valid :
    (s : State)
    → IsSound s
    → (s.file_value == [] || not s.is_file_valid) ≡ false
    → IsPcapRequest (process s.file_value s.process_flush_all s.delete_original_file)
process_valid s v e =
    let typed = v.typed in
    let empty = list_beq_iff s.file_value [] in (λ h. ground arith, ground arith)

process-IsSound : (s : State) → IsSound s → IsSound (process_pcap s)
unfolding process_pcap
process-IsSound s v = elim (Bool-cases (s.file_value == [] || not s.is_file_valid)) [
  | inl e ↦ simp e (record { chosen = v.chosen; typed = v.typed; requests = v.requests })
  | inr e ↦ simp e (record {
    chosen = v.chosen;
    typed = v.typed;
    requests =
        All-append_one IsPcapRequest s.sent
          (process s.file_value s.process_flush_all s.delete_original_file) v.requests
          (process_valid s v e);
  })
]

reset_upload-IsSound :
    (a : Option (Text × Text)) (s : State)
    → IsSound s
    → IsSound (reset_upload (record s { upload_answer = a }))
unfolding reset_upload
reset_upload-IsSound a s v = record { chosen = tt; typed = v.typed; requests = v.requests }

reset_process-IsSound :
    (a : Option (Text × Text)) (s : State)
    → IsSound s
    → IsSound (reset_process (record s { process_answer = a }))
unfolding reset_process
reset_process-IsSound a s v = record { chosen = v.chosen; typed = inl refl; requests = v.requests }

step-IsSound : (e : Event) (s : State) → IsSound s → IsSound (step e s)
unfolding step handle_notifications handle_file_change uploaded processed sessions_loaded
    sessions_refused
step-IsSound mounted s v = load-IsSound s v
step-IsSound (notified e) s v =
    if_both IsSound (starts_with e (text "pcap")) (load_sessions s) s (load-IsSound s v) v
step-IsSound (upload_file_changed f) s v = changed-IsSound f s v
step-IsSound (upload_flush_checked b) s v = record {
  chosen = v.chosen;
  typed = v.typed;
  requests = v.requests;
}
step-IsSound upload_pressed s v = upload-IsSound s v
step-IsSound (file_changed f) s v = record {
  chosen = v.chosen;
  typed = inr refl;
  requests = v.requests;
}
step-IsSound (process_flush_checked b) s v = record {
  chosen = v.chosen;
  typed = v.typed;
  requests = v.requests;
}
step-IsSound (delete_original_checked b) s v = record {
  chosen = v.chosen;
  typed = v.typed;
  requests = v.requests;
}
step-IsSound process_pressed s v = process-IsSound s v
step-IsSound (upload_done a b) s v =
    load-IsSound (reset_upload (record s { upload_answer = some (a, b) }))
      (reset_upload-IsSound (some (a, b)) s v)
step-IsSound (upload_refused a) s v = record {
  chosen = v.chosen;
  typed = v.typed;
  requests = v.requests;
}
step-IsSound (process_done a b) s v =
    load-IsSound (reset_process (record s { process_answer = some (a, b) }))
      (reset_process-IsSound (some (a, b)) s v)
step-IsSound (process_refused a) s v = record {
  chosen = v.chosen;
  typed = v.typed;
  requests = v.requests;
}
step-IsSound (loaded rs a) s v = record {
  chosen = v.chosen;
  typed = v.typed;
  requests = v.requests;
}
step-IsSound (load_refused a b) s v = record {
  chosen = v.chosen;
  typed = v.typed;
  requests = v.requests;
}

run-IsSound : (es : List Event) (s : State) → IsSound s → IsSound (run es s)
unfolding run
run-IsSound [] s v = v
run-IsSound (e ∷ es) s v = run-IsSound es (step e s) (step-IsSound e s v)

-- After any history of inputs and answers, every capture that was sent is a file whose media type
-- ends in pcap or pcapng, or a path that is not empty and ends so.
pub run-pcap_requests : (es : List Event) → All IsPcapRequest (run es start).sent
run-pcap_requests es =
    (run-IsSound es start (record { chosen = tt; typed = inl refl; requests = tt })).requests
