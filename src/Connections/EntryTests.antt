-- ===== src/Connections/EntryTests.antt =====
-- A connection of the list and its dialog, with the theorems at them.
use caronte.Prelude.{◌≡◌, refl, true, false, List, [], ◌∷◌, none, some, text}
use caronte.Connections.Entries.{
  Connection, State, Event, mark_clicked, mark_processed, mark_answered, comment_clicked, edited,
  save_pressed, save_processed, save_answered, cancel_pressed, step, run,
}
use caronte.Connections.Entries.Agreement.{Agree, IsCalm, run-Agree}

abbrev unmarked : Connection
unmarked = record { marked = false; comment = none }

abbrev fresh : State
fresh = record {
  listed = unmarked;
  stored = unmarked;
  dialogs = [];
  shown = none;
  marks = [];
  saves = [];
}

-- The first save is refused, and the second one taken; the last request is not answered yet.
abbrev commenting : List Event
commenting =
    mark_clicked
    ∷ mark_processed true 0
    ∷ comment_clicked
    ∷ edited (text "exploit")
    ∷ save_pressed
    ∷ mark_answered 0
    ∷ save_processed false 0
    ∷ save_answered 0
    ∷ save_pressed
    ∷ mark_clicked
    ∷ save_processed true 0
    ∷ save_answered 0
    ∷ mark_processed true 0
    ∷ []

commenting-IsCalm : IsCalm commenting fresh
unfolding step
commenting-IsCalm = (refl, (refl, (refl, (refl, (refl, tt)))))

run-Agree_example : Agree (run commenting fresh)
run-Agree_example = run-Agree commenting fresh commenting-IsCalm (refl, refl)

-- Two requests for marks, whose answers come in the other order: the list has the mark of the first.
abbrev crossing : List Event
crossing =
    mark_clicked
    ∷ mark_clicked
    ∷ mark_processed true 0
    ∷ mark_answered 0
    ∷ mark_clicked
    ∷ mark_processed true 0
    ∷ mark_processed true 1
    ∷ mark_answered 1
    ∷ mark_answered 0
    ∷ []

run-crossing :
    ((run crossing fresh).listed.marked ≡ true) × ((run crossing fresh).stored.marked ≡ false)
unfolding run
run-crossing = (refl, refl)

-- A comment that is edited and cancelled is in the list, while the backend keeps none.
abbrev cancelling : List Event
cancelling = comment_clicked ∷ edited (text "note") ∷ cancel_pressed ∷ []

run-cancelling :
    ((run cancelling fresh).listed.comment ≡ some (text "note"))
    × ((run cancelling fresh).stored.comment ≡ none)
unfolding run
run-cancelling = (refl, refl)

-- What is typed while the request is under way is in the list, and the backend has what was sent.
abbrev typing_on : List Event
typing_on =
    comment_clicked
    ∷ edited (text "note")
    ∷ save_pressed
    ∷ edited (text "notes")
    ∷ save_processed true 0
    ∷ save_answered 0
    ∷ []

run-typing_on :
    ((run typing_on fresh).listed.comment ≡ some (text "notes"))
    × ((run typing_on fresh).stored.comment ≡ some (text "note"))
unfolding run
run-typing_on = (refl, refl)
