-- ===== src/Main/Tests.antt =====
-- Two connections on the page of frontend/src/components/pages/MainPage.js, and the theorems at them.
use caronte.Prelude.{
  ◌≡◌, refl, Bool, List, [], ◌∷◌, some, String, Text, text, starts_with, ◌==◌, nat_comparable,
  if◌then◌else◌,
}
use caronte.Utils.Params.{Params}
use caronte.Streams.{Connection, answered, format_chosen}
use caronte.Main.{State, Event, selected, navigated, streamed, start, run}
use caronte.Main.Selected.{Agrees, run-Agrees}

abbrev first_connection : Connection
first_connection = record { id = text "5f1"; matched_rules = [] }

abbrev second_connection : Connection
second_connection = record { id = text "5f2"; matched_rules = [] }

abbrev server : Text → String → List Text
server id format = id ∷ []

abbrev is_connection : Text → Bool
is_connection path = starts_with path (text "/connections/")

abbrev pathname_of : Text → Text
pathname_of [] = []
pathname_of (c ∷ url) = let rest = pathname_of url in if c == b'?' then [] else c ∷ rest

abbrev query : Params → Text
query params = text "marked=true"

abbrev browsing : List Event
browsing =
    selected first_connection
    ∷ streamed (answered 0)
    ∷ selected second_connection
    ∷ streamed (format_chosen "hex")
    ∷ streamed (answered 0)
    ∷ streamed (answered 0)
    ∷ []

-- The address of the first connection again, as by the button of the browser that goes back.
abbrev back : List Event
back =
    selected first_connection
    ∷ streamed (answered 0)
    ∷ selected second_connection
    ∷ streamed (answered 0)
    ∷ navigated (text "/connections/5f1")
    ∷ []

run-Agrees_example :
    Agrees server
      (run is_connection query pathname_of server browsing (start is_connection [] (text "/")))
run-Agrees_example =
    run-Agrees server is_connection query pathname_of [] (text "/") browsing
      ((refl, tt), (tt, ((refl, tt), ((refl, tt), tt))))

abbrev went_back : State Text
went_back = run is_connection query pathname_of server back (start is_connection [] (text "/"))

browsing-pathname :
    (run is_connection query pathname_of server browsing
      (start is_connection [] (text "/"))).pathname
    ≡ text "/connections/5f2"
unfolding run
browsing-pathname = refl

-- The page goes on to show the second connection.
back-connection :
    (went_back.pathname ≡ text "/connections/5f1")
    × (went_back.selected_connection ≡ some second_connection)
unfolding run
back-connection = (refl, refl)
