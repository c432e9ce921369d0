-- ===== src/Services/Tests.antt =====
-- A service that is filled in, and the theorems on the form of
-- frontend/src/components/panels/ServicesPane.js at it.
use caronte.Prelude.{List, [], ◌∷◌, text, All, nat_comparable}
use caronte.Services.{Service, State, start, run, Event, update_pressed, selected, param_changed}
use caronte.Services.Sending.{IsValidRequest, run-valid_requests}

abbrev web : Service
web = record { port = 8080; name = text "website"; color = text "#e53935"; notes = [] }

abbrev mail : Service
mail = record { port = 25; name = text "smtp"; color = text "#1e88e5"; notes = [] }

abbrev filled : State
filled = record start { current_service = web }

abbrev session : List Event
session = selected mail ∷ param_changed (λ s. record s { name = text "mail" }) ∷ update_pressed ∷ []

run-valid_requests_example : All IsValidRequest (run session start).sent
run-valid_requests_example = run-valid_requests session
