-- ===== src/Connections/Entries.antt =====
-- An entry of the list of connections, frontend/src/components/objects/Connection.js, with its
-- dialog, frontend/src/components/dialogs/CommentDialog.js, beside the connection as the backend
-- keeps it. `marks` are the requests of marks under way, and `saves` those of comments. The backend
-- processes a request, and its answer comes later; either happens in any order.
pub mod Agreement
use caronte.Prelude.{
  get_elem?, without_at, length, ℕ, zero, suc, Bool, true, false, not, List, [], ◌∷◌, ◌++◌, Option,
  none, some, String, Text, ◌==◌, nat_comparable, list_comparable, option_comparable, if◌then◌else◌,
}

-- What the list and the backend keep of a connection.
pub record Connection : Type 0 where
  pub marked : Bool
  pub comment : Option Text

pub record Dialog : Type 0 where
  pub comment : Text
  pub error : Option String

-- A request for a mark. `processed` is whether the backend took it, once it has come to it.
pub record Mark : Type 0 where
  pub wanted : Bool
  pub processed : Option Bool

-- A request that a dialog made, by the place of the dialog among those that were opened.
pub record Save : Type 0 where
  pub dialog : ℕ
  pub comment : Option Text
  pub processed : Option Bool

-- `listed` is the object of the list, and `stored` the backend's. A dialog that was closed stays in
-- `dialogs`, as its requests go on; `shown` is the place of the one that is on the page.
pub record State : Type 0 where
  pub listed : Connection
  pub stored : Connection
  pub dialogs : List Dialog
  pub shown : Option ℕ
  pub marks : List Mark
  pub saves : List Save

-- `comment || ""` and `comment || null`
unfoldable pub or_empty : Option Text → Text
or_empty none = []
or_empty (some t) = t

unfoldable pub or_null : Text → Option Text
or_null [] = none
or_null (c ∷ t) = some (c ∷ t)

-- What stands at a place, changed.
unfoldable pub change_place {ℓ} : {A : Type ℓ} → ℕ → (A → A) → List A → List A
change_place k f [] = []
change_place zero f (x ∷ xs) = f x ∷ xs
change_place (suc k) f (x ∷ xs) = x ∷ change_place k f xs

-- A click on the mark asks for the other one.
unfoldable pub mark : State → State
mark s =
    let request : Mark = record { wanted = not s.listed.marked; processed = none } in
    record s { marks = s.marks ++ request ∷ [] }

-- The backend comes to a request, and takes it or not; it does so once.
unfoldable pub process_mark : Option Mark → Bool → ℕ → State → State
unfolding change_place
process_mark none taken i s = s
process_mark (some m) taken i s = elim m.processed [
  | some p ↦ s
  | none ↦ record s {
    stored = if taken then record (s.stored) { marked = m.wanted } else s.stored;
    marks = change_place i (λ q. record q { processed = some taken }) s.marks;
  }
]

-- The answer to the request at a place comes, if the backend has processed it.
unfoldable pub marked_as : Option Mark → ℕ → State → State
marked_as none i s = s
marked_as (some m) i s = elim m.processed [
  | none ↦ s
  | some taken ↦ record s {
    listed = if taken then record (s.listed) { marked = m.wanted } else s.listed;
    marks = without_at i s.marks;
  }
]

-- The dialog is mounted, unless one is there.
unfoldable pub show_comment_dialog : Option ℕ → State → State
unfolding or_empty
show_comment_dialog (some k) s = s
show_comment_dialog none s =
    let opened : Dialog = record { comment = or_empty s.listed.comment; error = none } in
    record s { dialogs = s.dialogs ++ opened ∷ []; shown = some (length s.dialogs) }

unfoldable pub edit : Text → Option ℕ → State → State
unfolding change_place
edit comment none s = s
edit comment (some k) s = record s {
  dialogs = change_place k (λ d. record d { comment = comment }) s.dialogs;
}

-- `close` calls `onSave`, which puts the comment of the dialog into the list and takes the dialog
-- that is shown away.
unfoldable pub close : Option Dialog → State → State
unfolding or_null
close none s = s
close (some d) s = record s {
  listed = record (s.listed) { comment = or_null d.comment };
  shown = none;
}

-- The buttons are there where the dialog is.
unfoldable pub cancel : Option ℕ → State → State
unfolding close
cancel none s = s
cancel (some k) s = close (get_elem? s.dialogs k) s

unfoldable pub set_comment : ℕ → Option Dialog → State → State
unfolding close or_null
set_comment k none s = s
set_comment k (some d) s =
    let request : Save = record { dialog = k; comment = or_null d.comment; processed = none } in
    if some d.comment == s.listed.comment
    then close (some d) s
    else record s { saves = s.saves ++ request ∷ [] }

unfoldable pub save : Option ℕ → State → State
unfolding set_comment
save none s = s
save (some k) s = set_comment k (get_elem? s.dialogs k) s

-- The backend comes to a request for a comment.
unfoldable pub process_save : Option Save → Bool → ℕ → State → State
unfolding change_place
process_save none taken i s = s
process_save (some v) taken i s = elim v.processed [
  | some p ↦ s
  | none ↦ record s {
    stored = if taken then record (s.stored) { comment = v.comment } else s.stored;
    saves = change_place i (λ q. record q { processed = some taken }) s.saves;
  }
]

-- The answer to a request for a comment: the dialog that made it is closed with the comment that it
-- has by then, or shows an error.
unfoldable pub take_saved : Bool → Save → ℕ → State → State
unfolding close change_place
take_saved true v i s =
    close (get_elem? s.dialogs v.dialog) (record s { saves = without_at i s.saves })
take_saved false v i s = record s {
  dialogs =
      change_place v.dialog (λ d. record d { error = some "failed to save comment" }) s.dialogs;
  saves = without_at i s.saves;
}

unfoldable pub saved : Option Save → ℕ → State → State
unfolding take_saved
saved none i s = s
saved (some v) i s = elim v.processed [ none ↦ s | some taken ↦ take_saved taken v i s ]

pub data Event : Type 0 where
  mark_clicked : Event
  mark_processed : Bool → ℕ → Event
  mark_answered : ℕ → Event
  comment_clicked : Event
  edited : Text → Event
  save_pressed : Event
  save_processed : Bool → ℕ → Event
  save_answered : ℕ → Event
  cancel_pressed : Event

unfoldable pub step : Event → State → State
unfolding mark process_mark marked_as show_comment_dialog edit save process_save saved cancel
step mark_clicked s = mark s
step (mark_processed taken i) s = process_mark (get_elem? s.marks i) taken i s
step (mark_answered i) s = marked_as (get_elem? s.marks i) i s
step comment_clicked s = show_comment_dialog s.shown s
step (edited t) s = edit t s.shown s
step save_pressed s = save s.shown s
step (save_processed taken i) s = process_save (get_elem? s.saves i) taken i s
step (save_answered i) s = saved (get_elem? s.saves i) i s
step cancel_pressed s = cancel s.shown s

unfoldable pub run : List Event → State → State
unfolding step
run [] s = s
run (e ∷ es) s = run es (step e s)
