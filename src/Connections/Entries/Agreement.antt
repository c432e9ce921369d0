-- ===== src/Connections/Entries/Agreement.antt =====
-- Whether the list shows the marks and the comments that the backend keeps.
use caronte.Prelude.{
  ℕ, zero, suc, get_elem?, ◌≡◌, refl, ap, ◌∙◌, sym, subst, Bool, true, false, List, [], ◌∷◌, ◌++◌,
  Option, none, some, Text, ◌==◌, nat_comparable, list_comparable, option_comparable, Bool-cases,
  inl, inr,
}
use caronte.Connections.Entries.{
  Dialog, Mark, Save, State, or_empty, or_null, mark, process_mark, marked_as, show_comment_dialog,
  change_place, edit, close, set_comment, save, process_save, take_saved, saved, Event,
  mark_clicked, mark_processed, mark_answered, comment_clicked, edited, save_pressed,
  save_processed, save_answered, cancel_pressed, step, run,
}

-- No dialog is cancelled; no mark is clicked while a request for a mark is under way, and no comment
-- edited or saved while one for a comment is.
abbrev pub IsCalm : List Event → State → Type 0
IsCalm [] s = Unit
IsCalm (cancel_pressed ∷ es) s = ⊥
IsCalm (mark_clicked ∷ es) s = (s.marks ≡ []) × IsCalm es (step mark_clicked s)
IsCalm (save_pressed ∷ es) s = (s.saves ≡ []) × IsCalm es (step save_pressed s)
IsCalm (edited t ∷ es) s = (s.saves ≡ []) × IsCalm es (step (edited t) s)
IsCalm (e ∷ es) s = IsCalm es (step e s)

-- A mark of the list and the backend's, with a request: the backend has what the request asks for
-- once it has taken it, and the list's mark before that or if it has refused it.
abbrev pub Owed : Option Bool → Bool → Bool → Bool → Type 0
Owed (some true) wanted listed stored = stored ≡ wanted
Owed _ wanted listed stored = listed ≡ stored

abbrev pub MarksAgree : Bool → Bool → List Mark → Type 0
MarksAgree listed stored [] = listed ≡ stored
MarksAgree listed stored (m ∷ []) = Owed m.processed m.wanted listed stored
MarksAgree listed stored (_ ∷ _ ∷ _) = ⊥

-- The same of comments, an empty one being shown like none.
abbrev pub OwedComment : Option Bool → Option Text → Option Text → Option Text → Type 0
OwedComment (some true) wanted listed stored = stored ≡ wanted
OwedComment _ wanted listed stored = or_empty listed ≡ or_empty stored

-- The dialog that made a request has the comment that it asks for.
abbrev pub HasComment : Option Text → Option Dialog → Type 0
HasComment c none = ⊥
HasComment c (some d) = d.comment ≡ or_empty c

abbrev pub CommentsAgree : List Dialog → Option Text → Option Text → List Save → Type 0
CommentsAgree ds listed stored [] = or_empty listed ≡ or_empty stored
CommentsAgree ds listed stored (v ∷ []) =
    HasComment v.comment (get_elem? ds v.dialog) × OwedComment v.processed v.comment listed stored
CommentsAgree ds listed stored (_ ∷ _ ∷ _) = ⊥

-- At most one request of either kind is under way; where none is, the list and the backend agree,
-- and where one is, they agree until the backend takes it, and then the backend has what it asks
-- for.
abbrev pub Agree : State → Type 0
Agree s =
    MarksAgree s.listed.marked s.stored.marked s.marks
    × CommentsAgree s.dialogs s.listed.comment s.stored.comment s.saves

or_empty-or_null : (t : Text) → or_empty (or_null t) ≡ t
unfolding or_empty or_null
or_empty-or_null [] = refl
or_empty-or_null (c ∷ t) = refl

HasComment-append :
    (c : Option Text) (ds es : List Dialog) (k : ℕ)
    → HasComment c (get_elem? ds k)
    → HasComment c (get_elem? (ds ++ es) k)
HasComment-append c [] es k h = absurd h
HasComment-append c (d ∷ ds) es zero h = h
HasComment-append c (d ∷ ds) es (suc k) h = HasComment-append c ds es k h

CommentsAgree-append :
    (ds es : List Dialog) (l t : Option Text) (vs : List Save)
    → CommentsAgree ds l t vs
    → CommentsAgree (ds ++ es) l t vs
CommentsAgree-append ds es l t [] h = h
CommentsAgree-append ds es l t (v ∷ []) h = (HasComment-append v.comment ds es v.dialog h.0, h.1)
CommentsAgree-append ds es l t (v ∷ w ∷ vs) h = absurd h

-- A state with other requests for marks, and with others for comments.
abbrev With_marks : List Mark → State → State
With_marks ms s = record s { marks = ms }

mark-Agree : (s : State) → s.marks ≡ [] → Agree s → Agree (mark s)
unfolding mark
mark-Agree s e (a, b) = rw e (subst (MarksAgree s.listed.marked s.stored.marked) e a, b)

abbrev With_saves : List Save → State → State
With_saves vs s = record s { saves = vs }

-- The only request for a mark, by its fields.
process_one-Agree :
    (wanted : Bool) (p : Option Bool) (taken : Bool) (s : State)
    → let m : Mark = record { wanted = wanted; processed = p } in
      Agree (With_marks (m ∷ []) s) → Agree (process_mark (some m) taken 0 (With_marks (m ∷ []) s))
unfolding process_mark change_place
process_one-Agree w (some p) taken s h = h
process_one-Agree w none true s (a, b) = (refl, b)
process_one-Agree w none false s (a, b) = (a, b)

process_mark-Agree :
    (ms : List Mark) (taken : Bool) (i : ℕ) (s : State)
    → Agree (With_marks ms s)
    → Agree (process_mark (get_elem? ms i) taken i (With_marks ms s))
unfolding process_mark
process_mark-Agree [] taken i s h = h
process_mark-Agree (m ∷ []) taken zero s h = process_one-Agree m.wanted m.processed taken s h
process_mark-Agree (m ∷ []) taken (suc i) s h = h
process_mark-Agree (m ∷ n ∷ ms) taken i s h = absurd h.0

answer_one-Agree :
    (wanted : Bool) (p : Option Bool) (s : State)
    → let m : Mark = record { wanted = wanted; processed = p } in
      Agree (With_marks (m ∷ []) s) → Agree (marked_as (some m) 0 (With_marks (m ∷ []) s))
unfolding marked_as
answer_one-Agree w none s h = h
answer_one-Agree w (some true) s (a, b) = (sym a, b)
answer_one-Agree w (some false) s h = h

marked_as-Agree :
    (ms : List Mark) (i : ℕ) (s : State)
    → Agree (With_marks ms s)
    → Agree (marked_as (get_elem? ms i) i (With_marks ms s))
unfolding marked_as
marked_as-Agree [] i s h = h
marked_as-Agree (m ∷ []) zero s h = answer_one-Agree m.wanted m.processed s h
marked_as-Agree (m ∷ []) (suc i) s h = h
marked_as-Agree (m ∷ n ∷ ms) i s h = absurd h.0

show-Agree : (o : Option ℕ) (s : State) → Agree s → Agree (show_comment_dialog o s)
unfolding show_comment_dialog
show-Agree (some k) s h = h
show-Agree none s (a, b) =
    (a, CommentsAgree-append s.dialogs _ s.listed.comment s.stored.comment s.saves b)

-- With no request under way the dialogs do not matter.
edit-Agree : (t : Text) (o : Option ℕ) (s : State) → s.saves ≡ [] → Agree s → Agree (edit t o s)
unfolding edit
edit-Agree t none s e h = h
edit-Agree t (some k) s e (a, b) =
    let same = subst (CommentsAgree s.dialogs s.listed.comment s.stored.comment) e b in
    (a, rw e same)

-- Saving a comment that is the list's sends nothing, and puts it into the list.
close-same :
    (d : Dialog) (s : State)
    → s.saves ≡ []
    → some d.comment ≡ s.listed.comment
    → Agree s
    → Agree (close (some d) s)
unfolding close or_empty
close-same d s e same (a, b) =
    let agree = subst (CommentsAgree s.dialogs s.listed.comment s.stored.comment) e b in
    (a, rw e (or_empty-or_null d.comment ∙ ap or_empty same ∙ agree))

set_comment-Agree :
    (k : ℕ) (o : Option Dialog) (s : State)
    → get_elem? s.dialogs k ≡ o
    → s.saves ≡ []
    → Agree s
    → Agree (set_comment k o s)
unfolding set_comment
set_comment-Agree k none s found e h = h
set_comment-Agree k (some d) s found e (a, b) =
    elim (Bool-cases (some d.comment == s.listed.comment)) [
      | inl same ↦ rw same (
          close-same d s e ((option_comparable.same_iff (some d.comment) s.listed.comment).0 same)
            (a, b))
      | inr other ↦
          let agree = subst (CommentsAgree s.dialogs s.listed.comment s.stored.comment) e b in
          rw (other, e)
            (
              a,
              (
                subst (HasComment (or_null d.comment)) (sym found)
                    (sym (or_empty-or_null d.comment)),
                agree,
              ),
            )
    ]

save-Agree : (o : Option ℕ) (s : State) → s.saves ≡ [] → Agree s → Agree (save o s)
unfolding save
save-Agree none s e h = h
save-Agree (some k) s e h = set_comment-Agree k (get_elem? s.dialogs k) s refl e h

process_one_save-Agree :
    (k : ℕ) (c : Option Text) (p : Option Bool) (taken : Bool) (s : State)
    → let v : Save = record { dialog = k; comment = c; processed = p } in
      Agree (With_saves (v ∷ []) s) → Agree (process_save (some v) taken 0 (With_saves (v ∷ []) s))
unfolding process_save change_place
process_one_save-Agree k c (some p) taken s h = h
process_one_save-Agree k c none true s (a, b) = (a, (b.0, refl))
process_one_save-Agree k c none false s (a, b) = (a, b)

process_save-Agree :
    (vs : List Save) (taken : Bool) (i : ℕ) (s : State)
    → Agree (With_saves vs s)
    → Agree (process_save (get_elem? vs i) taken i (With_saves vs s))
unfolding process_save
process_save-Agree [] taken i s h = h
process_save-Agree (v ∷ []) taken zero s h =
    process_one_save-Agree v.dialog v.comment v.processed taken s h
process_save-Agree (v ∷ []) taken (suc i) s h = h
process_save-Agree (v ∷ w ∷ vs) taken i s h = absurd h.1

-- The dialog of the answered request closes with the comment that the backend has.
close-Agree :
    (o : Option Dialog) (c : Option Text) (s : State)
    → HasComment c o
    → s.stored.comment ≡ c
    → MarksAgree s.listed.marked s.stored.marked s.marks
    → Agree (close o (With_saves [] s))
unfolding close
close-Agree none c s h e a = absurd h
close-Agree (some d) c s h e a = (a, or_empty-or_null d.comment ∙ h ∙ ap or_empty (sym e))

saved_one-Agree :
    (k : ℕ) (c : Option Text) (p : Option Bool) (s : State)
    → let v : Save = record { dialog = k; comment = c; processed = p } in
      Agree (With_saves (v ∷ []) s) → Agree (saved (some v) 0 (With_saves (v ∷ []) s))
unfolding saved take_saved
saved_one-Agree k c none s h = h
saved_one-Agree k c (some true) s (a, (b, d)) = close-Agree (get_elem? s.dialogs k) c s b d a
saved_one-Agree k c (some false) s (a, (b, d)) = (a, d)

saved-Agree :
    (vs : List Save) (i : ℕ) (s : State)
    → Agree (With_saves vs s)
    → Agree (saved (get_elem? vs i) i (With_saves vs s))
unfolding saved
saved-Agree [] i s h = h
saved-Agree (v ∷ []) zero s h = saved_one-Agree v.dialog v.comment v.processed s h
saved-Agree (v ∷ []) (suc i) s h = h
saved-Agree (v ∷ w ∷ vs) i s h = absurd h.1

-- If the list and the backend agree at first, with at most one request for a mark and one for a
-- comment under way, then as long as no dialog is cancelled, no mark is clicked while a request for
-- a mark is under way, and no comment edited or saved while one for a comment is: after any history
-- of clicks, edits, requests that the backend takes or refuses, and answers, it is so again. In
-- particular the list has the mark or the comment that the backend keeps, an empty comment being
-- shown like none, whenever no request for one is under way.
pub run-Agree : (es : List Event) (s : State) → IsCalm es s → Agree s → Agree (run es s)
unfolding run step
run-Agree [] s h v = v
run-Agree (mark_clicked ∷ es) s (e, h) v = run-Agree es (mark s) h (mark-Agree s e v)
run-Agree (mark_processed taken i ∷ es) s h v =
    run-Agree es (process_mark (get_elem? s.marks i) taken i s) h
      (process_mark-Agree s.marks taken i s v)
run-Agree (mark_answered i ∷ es) s h v =
    run-Agree es (marked_as (get_elem? s.marks i) i s) h (marked_as-Agree s.marks i s v)
run-Agree (comment_clicked ∷ es) s h v =
    run-Agree es (show_comment_dialog s.shown s) h (show-Agree s.shown s v)
run-Agree (edited t ∷ es) s (e, h) v =
    run-Agree es (edit t s.shown s) h (edit-Agree t s.shown s e v)
run-Agree (save_pressed ∷ es) s (e, h) v =
    run-Agree es (save s.shown s) h (save-Agree s.shown s e v)
run-Agree (save_processed taken i ∷ es) s h v =
    run-Agree es (process_save (get_elem? s.saves i) taken i s) h
      (process_save-Agree s.saves taken i s v)
run-Agree (save_answered i ∷ es) s h v =
    run-Agree es (saved (get_elem? s.saves i) i s) h (saved-Agree s.saves i s v)
run-Agree (cancel_pressed ∷ es) s h v = absurd h
