-- ===== src/Services/Sending.antt =====
-- Which services the form of frontend/src/components/panels/ServicesPane.js sends.
use caronte.Prelude.{
  ◌≤◌, ◌≡◌, ◌↔◌, true, List, [], ◌∷◌, some, String, All, All-append_one, if_both, Bool-cases, inl,
  inr, ◌==◌, string_comparable, length, arith,
}
use caronte.Utils.Validation.{is_valid_color, is_valid_port-to_text}
use caronte.Services.{
  Service, Errors, Request, get_services, put_service, delete_services, State, start,
  validate_service, load_services, reset, send, update_service, delete_service, service_saved,
  service_refused, services_loaded, services_refused, update_param, handle_notifications,
  component_did_mount, select_service, Event, mounted, notified, param_changed, cancelled, selected,
  update_pressed, delete_pressed, saved, save_failed, loaded, load_failed, step, run,
}

pub record IsValidService (s : Service) : Type 0 where
  pub least : 1 ≤ s.port
  pub greatest : s.port ≤ 65565
  pub named : 3 ≤ length s.name
  pub colored : is_valid_color s.color ≡ true

pub validate_service_lem :
    (s : Service) (e : Errors) → (validate_service s e).0 ≡ true ↔ IsValidService s
unfolding validate_service
validate_service_lem s e = let p = is_valid_port-to_text s.port true in ground arith

abbrev pub IsValidRequest : Request → Type 0
IsValidRequest get_services = Unit
IsValidRequest (put_service s) = IsValidService s
IsValidRequest (delete_services s) = IsValidService s

abbrev AllValid : State → Type 0
AllValid s = All IsValidRequest s.sent

load-AllValid : (s : State) → AllValid s → AllValid (load_services s)
unfolding load_services
load-AllValid s v = All-append_one IsValidRequest s.sent get_services v tt

send-AllValid :
    (request : Service → Request) (s : State)
    → (IsValidService s.current_service → IsValidRequest (request s.current_service))
    → AllValid s
    → AllValid (send request s)
unfolding send
send-AllValid request s q v = elim (Bool-cases (validate_service s.current_service s.errors).0) [
  | inl e ↦ rw e (
      All-append_one IsValidRequest s.sent (request s.current_service) v
        (q ((validate_service_lem s.current_service s.errors).0 e)))
  | inr e ↦ rw e v
]

notified-AllValid : (e : String) (s : State) → AllValid s → AllValid (handle_notifications e s)
unfolding handle_notifications
notified-AllValid e s v =
    if_both AllValid (e == "services.edit") (load_services s) s (load-AllValid s v) v

delete-AllValid : (s : State) → AllValid s → AllValid (step delete_pressed s)
unfolding step delete_service
delete-AllValid s v =
    if_both AllValid s.is_update (send delete_services s) s
      (send-AllValid delete_services s (λ h. h) v) v

step-AllValid : (e : Event) (s : State) → AllValid s → AllValid (step e s)
unfolding step component_did_mount service_saved service_refused services_loaded services_refused
    select_service update_param reset update_service
step-AllValid mounted s v = load-AllValid (reset s) v
step-AllValid (notified e) s v = notified-AllValid e s v
step-AllValid (param_changed f) s v = v
step-AllValid cancelled s v = v
step-AllValid (selected r) s v = v
step-AllValid update_pressed s v = send-AllValid put_service s (λ h. h) v
step-AllValid delete_pressed s v = delete-AllValid s v
step-AllValid (saved status) s v =
    load-AllValid (record (reset s) { service_status_code = some status }) v
step-AllValid (save_failed a b) s v = v
step-AllValid (loaded rs a) s v = v
step-AllValid (load_failed a b) s v = v

run-AllValid : (es : List Event) (s : State) → AllValid s → AllValid (run es s)
unfolding run
run-AllValid [] s v = v
run-AllValid (e ∷ es) s v = run-AllValid es (step e s) (step-AllValid e s v)

-- After any history of inputs and answers, every service that was sent, to be set or deleted, has a
-- port from 1 to 65565, a name of at least three characters and a hexadecimal colour.
pub run-valid_requests : (es : List Event) → All IsValidRequest (run es start).sent
run-valid_requests es = run-AllValid es start tt
