-- ===== src/Services/Store.antt =====
-- The services of the backend, by port (services_controller.go), as the other side of the form of
-- frontend/src/components/panels/ServicesPane.js. `stored` is whether the database took the change.
use caronte.Prelude.{
  ℕ, suc, ◌≡◌, ◌≢◌, length, get_elem?, ◌∙◌, Bool, true, not, List, [], ◌∷◌, ◌++◌, Option, none,
  some, Text, filter, ◌==◌, nat_comparable, if◌then◌else◌, arith, ==_refl, ==_ne,
}
use caronte.Services.{
  Service, Request, Event, get_services, put_service, delete_services, State, empty_service, send,
  delete_service, reset, update_param, select_service, step, run, update_pressed, saved, loaded,
  selected, param_changed, delete_pressed,
}
use caronte.Services.Sending.{IsValidService, validate_service_lem}

unfoldable pub insert_service : Service → List Service → List Service
insert_service s [] = s ∷ []
insert_service s (t ∷ ts) = if t.port == s.port then s ∷ ts else t ∷ insert_service s ts

unfoldable pub set_service : Bool → Service → List Service → List Service
unfolding insert_service
set_service stored s services = if stored then insert_service s services else services

unfoldable pub drop_service : Bool → Service → List Service → List Service
drop_service stored s services =
    if stored then filter (λ (t : Service). not (t.port == s.port)) services else services

-- The service of a port.
abbrev pub lookup_port : ℕ → List Service → Option Service
lookup_port p [] = none
lookup_port p (t ∷ ts) = if t.port == p then some t else lookup_port p ts

lookup-drop :
    (p : ℕ) (s : Service) (ts : List Service)
    → lookup_port p (drop_service true s ts) ≡ (if s.port == p then none else lookup_port p ts)
unfolding drop_service
lookup-drop p s [] = ground arith
lookup-drop p s (t ∷ ts) = ground (arith, lookup-drop p s ts)

send-sent :
    (request : Service → Request) (s : State)
    → IsValidService s.current_service
    → (send request s).sent ≡ s.sent ++ request s.current_service ∷ []
unfolding send
send-sent request s v = rw ((validate_service_lem s.current_service s.errors).1 v)

-- The form beside the backend; `served` counts the requests of the form that the backend has served
-- and the form has the answers of.
pub record System : Type 0 where
  pub form : State
  pub store : List Service
  pub served : ℕ

-- What the backend answers to a request, and what it stores then; `status` is that of the answer.
unfoldable pub answer : Text → Request → List Service → Event × List Service
unfolding set_service drop_service
answer status get_services store = (loaded store status, store)
answer status (put_service s) store = (saved status, set_service true s store)
answer status (delete_services s) store = (saved status, drop_service true s store)

unfoldable pub serve_request : Text → Option Request → System → System
unfolding answer
serve_request status none y = y
serve_request status (some q) y =
    let (event, store) = answer status q y.store in
    record { form = step event y.form; store = store; served = suc y.served }

-- The first request that is not served yet is served; if there is none, nothing happens.
unfoldable pub serve : Text → System → System
unfolding serve_request
serve status y = serve_request status (get_elem? y.form.sent y.served) y

-- The form once its service has been sent, its requests before it all served.
abbrev pub update_sent : State → List Service → System
update_sent s store = record { form = step update_pressed s; store = store; served = length s.sent }

-- The requests that were sent for the service of `s`, and what the form and the list show then.
abbrev pub IsUpdated : State → List Service → ℕ → System → Type 0
IsUpdated s store p y =
    (y.form.sent ≡ s.sent ++ put_service s.current_service ∷ get_services ∷ [])
    × (y.served ≡ length y.form.sent)
    × (lookup_port p y.form.services
        ≡ (if s.current_service.port == p then some s.current_service else lookup_port p store))
    × (y.form.current_service ≡ empty_service)

-- A click on a service, another port that satisfies the conditions with the rest of it, and a press
-- on delete ask for the service of that other port to be deleted: the clicked one stays stored.
run-delete_pressed :
    (s : State) (r : Service) (port : ℕ) (store : List Service)
    → port ≢ r.port
    → IsValidService (record r { port = port })
    → let other = record r { port = port } in
      ((run
          (selected r ∷ param_changed (λ c. record c { port = port }) ∷ delete_pressed ∷ [])
          s).sent
        ≡ s.sent ++ delete_services other ∷ [])
      × (lookup_port port (drop_service true other store) ≡ none)
      × (lookup_port r.port (drop_service true other store) ≡ lookup_port r.port store)
unfolding run step delete_service select_service update_param reset
run-delete_pressed s r port store ne v =
    let other : Service = record r { port = port } in
    (
      send-sent delete_services (update_param (λ c. record c { port = port }) (select_service r s))
          v,
      lookup-drop port other store ∙ rw (==_refl port),
      lookup-drop r.port other store ∙ rw (==_ne port r.port ne),
    )
