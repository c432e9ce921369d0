-- ===== src/Notifications.antt =====
-- frontend/src/components/Notifications.js: the pop-ups, which open after 100 ms, close after 5 s
-- and go after 6 s, or at a click. A notification is an object, known by its reference; `notes` is
-- the store of those objects. Of the clock the model keeps that the timers of one notification,
-- which are set together, fire in the order of their delays.
pub mod Lifecycle
pub mod Stuck
pub mod Timers
pub mod Cleanup
pub mod Tests
use caronte.Prelude.{
  ℕ, suc, Bool, true, false, not, ◌&&◌, ◌||◌, ◌≡◌, List, [], ◌∷◌, ◌++◌, Option, none, some, String,
  Text, text, filter, any, Comparable, ◌==◌, nat_comparable, string_comparable, if◌then◌else◌,
}

-- A message from the backend: `message` gives the text of each property of its payload.
pub record Incoming : Type 0 where
  pub event : String
  pub message : String → Text

pub record Note : Type 0 where
  pub title : Text
  pub description : Text
  pub variant : Option String
  pub opened : Bool
  pub closed : Bool

pub data Timer : Type 0 where
  open_timer hide_timer remove_timer : ℕ → Timer

pub record State : Type 0 where
  pub notifications : List ℕ
  pub closed_notifications : List ℕ
  pub notes : ℕ → Note
  pub next : ℕ
  pub pending : List Timer

abbrev pub timer_same : Timer → Timer → Bool
timer_same (open_timer a) (open_timer b) = a == b
timer_same (hide_timer a) (hide_timer b) = a == b
timer_same (remove_timer a) (remove_timer b) = a == b
timer_same _ _ = false

unfoldable pub armed : Timer → List Timer → Bool
armed t [] = false
armed t (u ∷ us) = timer_same u t || armed t us

-- `clearTimeout`, and what becomes of a timer that fires.
unfoldable pub clear : Timer → List Timer → List Timer
clear t us = filter (λ u. not (timer_same u t)) us

unfoldable pub contains : ℕ → List ℕ → Bool
contains r [] = false
contains r (x ∷ xs) = x == r || contains r xs

-- `_.without`
unfoldable pub without : List ℕ → ℕ → List ℕ
without xs r = filter (λ x. not (x == r)) xs

update_note : ℕ → Note → (ℕ → Note) → ℕ → Note
update_note r n notes x = if x == r then n else notes x

-- The title, the description and the variant of each event that is shown.
unfoldable pub describe : Incoming → Option (Text × Text × Option String)
describe n =
    if n.event == "connected"
    then some
        (text "connected", text "number of active clients: " ++ n.message "connected_clients", none)
    else if n.event == "services.edit"
    then some (
      text "services updated",
      text "updated \"" ++ (n.message "name" ++ (text "\" on port " ++ n.message "port")),
      some "blue",
    )
    else if n.event == "rules.new"
    then some (text "rules updated", text "new rule added: " ++ n.message "name", some "green")
    else if n.event == "rules.edit"
    then some
        (text "rules updated", text "existing rule updated: " ++ n.message "name", some "blue")
    else if n.event == "pcap.completed"
    then some (
      text "new pcap analyzed",
      n.message "processed_packets" ++ text " packets processed",
      some "blue",
    )
    else if n.event == "timeline.range.large"
    then some (text "timeline cropped", text "the maximum range is 24h", some "red")
    else none

unfoldable pub push_notification : Text × Text × Option String → State → State
unfolding update_note
push_notification (title, description, variant) s =
    let note : Note = record {
      title = title;
      description = description;
      variant = variant;
      opened = false;
      closed = false;
    } in
    record {
      notifications = s.notifications ++ s.next ∷ [];
      closed_notifications = s.closed_notifications;
      notes = update_note s.next note s.notes;
      next = suc s.next;
      pending = s.pending ++ open_timer s.next ∷ hide_timer s.next ∷ remove_timer s.next ∷ [];
    }

unfoldable pub notification_handler : Incoming → State → State
notification_handler n s = elim (describe n) [ none ↦ s | some d ↦ push_notification d s ]

-- The three timers' functions.
unfoldable pub fire_open : ℕ → State → State
unfolding update_note clear
fire_open r s = record s {
  notes = update_note r (record (s.notes r) { opened = true }) s.notes;
  pending = clear (open_timer r) s.pending;
}

unfoldable pub fire_hide : ℕ → State → State
unfolding update_note clear without
fire_hide r s = record s {
  notifications = without s.notifications r;
  closed_notifications = s.closed_notifications ++ r ∷ [];
  notes = update_note r (record (s.notes r) { closed = true }) s.notes;
  pending = clear (hide_timer r) s.pending;
}

unfoldable pub fire_remove : ℕ → State → State
unfolding clear without
fire_remove r s = record s {
  closed_notifications = without s.closed_notifications r;
  pending = clear (remove_timer r) s.pending;
}

-- `onClick`
unfoldable pub click : ℕ → State → State
unfolding clear without
click r s = record s {
  notifications = without s.notifications r;
  pending = clear (remove_timer r) (clear (hide_timer r) s.pending);
}

-- What is rendered, in order.
abbrev pub rendered : State → List ℕ
rendered s = s.closed_notifications ++ s.notifications

abbrev pub no_note : Note
no_note = record { title = []; description = []; variant = none; opened = false; closed = false }

abbrev pub start : State
start = record {
  notifications = [];
  closed_notifications = [];
  notes = λ _. no_note;
  next = 0;
  pending = [];
}

pub data Step (s : State) : State → Type 0 where
  receives : (n : Incoming) → Step s (notification_handler n s)
  opens : (r : ℕ) → armed (open_timer r) s.pending ≡ true → Step s (fire_open r s)
  hides :
      (r : ℕ)
      → armed (hide_timer r) s.pending ≡ true
      → armed (open_timer r) s.pending ≡ false
      → Step s (fire_hide r s)
  removes :
      (r : ℕ)
      → armed (remove_timer r) s.pending ≡ true
      → armed (hide_timer r) s.pending ≡ false
      → Step s (fire_remove r s)
  clicks : (r : ℕ) → contains r (rendered s) ≡ true → Step s (click r s)

pub data Reach (s : State) : State → Type 0 where
  here : Reach s s
  next_step : {t u : State} → Reach s t → Step t u → Reach s u
