-- ===== src/Services.antt =====
-- frontend/src/components/panels/ServicesPane.js: the list of services and the form that sets or
-- deletes one. `sent` is the history of the requests; each carries the service as it is when it is
-- sent. The service that is edited is a copy of the listed one.
pub mod Sending
pub mod Store
pub mod Tests
use caronte.Prelude.{
  ℕ, Bool, true, false, not, ◌&&◌, ◌||◌, List, [], ◌∷◌, ◌++◌, Option, none, some, String, Text,
  length, Comparable, ◌==◌, string_comparable, if◌then◌else◌, ltb,
}
use caronte.Forms.{mark}
use caronte.Utils.Numbers.{to_text}
use caronte.Utils.Validation.{is_valid_color, is_valid_port}

pub record Service : Type 0 where
  pub port : ℕ
  pub name : Text
  pub color : Text
  pub notes : Text

abbrev pub empty_service : Service
empty_service = record { port = 0; name = []; color = []; notes = [] }

pub record Errors : Type 0 where
  pub service_port : Option String
  pub service_name : Option String
  pub service_color : Option String

pub data Request : Type 0 where
  get_services : Request
  put_service : Service → Request
  delete_services : Service → Request

pub record State : Type 0 where
  pub services : List Service
  pub is_update : Bool
  pub current_service : Service
  pub errors : Errors
  pub service_status_code : Option Text
  pub services_status_code : Option Text
  pub service_response : Option Text
  pub services_response : Option Text
  pub sent : List Request

abbrev pub start : State
start = record {
  services = [];
  is_update = false;
  current_service = empty_service;
  errors = record { service_port = none; service_name = none; service_color = none };
  service_status_code = none;
  services_status_code = none;
  service_response = none;
  services_response = none;
  sent = [];
}

unfoldable pub validate_service : Service → Errors → Bool × Errors
validate_service s e =
    let bad_port = not (is_valid_port (to_text s.port) true) in
    let short = ltb (length s.name) 3 in
    let uncolored = not (is_valid_color s.color) in
    (
      not (bad_port || short || uncolored),
      record {
        service_port = mark bad_port "port < 0 || port > 65565" e.service_port;
        service_name = mark short "name.length < 3" e.service_name;
        service_color = mark uncolored "color is not hexcolor" e.service_color;
      },
    )

unfoldable pub load_services : State → State
load_services s = record s { sent = s.sent ++ get_services ∷ [] }

unfoldable pub reset : State → State
reset s = record start { services = s.services; sent = s.sent }

-- The service is checked, and the request is sent if it passes.
unfoldable pub send : (Service → Request) → State → State
unfolding validate_service
send request s =
    let (valid, e) = validate_service s.current_service s.errors in
    if valid
    then record s { errors = e; sent = s.sent ++ request s.current_service ∷ [] }
    else record s { errors = e }

unfoldable pub update_service : State → State
unfolding send
update_service s = send put_service s

unfoldable pub delete_service : State → State
unfolding send
delete_service s = send delete_services s

-- The answers to either request.
unfoldable pub service_saved : Text → State → State
unfolding reset load_services
service_saved status s = load_services (record (reset s) { service_status_code = some status })

unfoldable pub service_refused : Option Text → Option Text → State → State
service_refused status response s = record s {
  service_status_code = status;
  service_response = response;
}

-- The answers to a request of the list; `services` are the values of the answer's object.
unfoldable pub services_loaded : List Service → Text → State → State
services_loaded services status s = record s {
  services = services;
  services_status_code = some status;
}

unfoldable pub services_refused : Option Text → Option Text → State → State
services_refused status response s = record s {
  services_status_code = status;
  services_response = response;
}

unfoldable pub update_param : (Service → Service) → State → State
update_param callback s = record s { current_service = callback s.current_service }

unfoldable pub handle_notifications : String → State → State
unfolding load_services
handle_notifications event s = if event == "services.edit" then load_services s else s

unfoldable pub component_did_mount : State → State
unfolding reset load_services
component_did_mount s = load_services (reset s)

-- A click on the row of a service.
unfoldable pub select_service : Service → State → State
unfolding reset
select_service r s = record (reset s) { is_update = true; current_service = r }

pub data Event : Type 0 where
  mounted : Event
  notified : String → Event
  param_changed : (Service → Service) → Event
  cancelled : Event
  selected : Service → Event
  update_pressed : Event
  delete_pressed : Event
  saved : Text → Event
  save_failed : Option Text → Option Text → Event
  loaded : List Service → Text → Event
  load_failed : Option Text → Option Text → Event

-- The button that deletes is there only where a service is selected.
unfoldable pub step : Event → State → State
step mounted s = component_did_mount s
step (notified e) s = handle_notifications e s
step (param_changed f) s = update_param f s
step cancelled s = reset s
step (selected r) s = select_service r s
step update_pressed s = update_service s
step delete_pressed s = if s.is_update then delete_service s else s
step (saved status) s = service_saved status s
step (save_failed status response) s = service_refused status response s
step (loaded services status) s = services_loaded services status s
step (load_failed status response) s = services_refused status response s

unfoldable pub run : List Event → State → State
run [] s = s
run (e ∷ es) s = run es (step e s)
