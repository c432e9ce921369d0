-- ===== src/Streams/Actions.antt =====
-- The buttons beside the messages of frontend/src/components/panels/StreamsPane.js: the window that
-- shows the body of an answer, and frontend/src/components/dialogs/CopyDialog.js. `to_lower` is
-- `toLowerCase`, and `sanitize` the library's.
pub mod Windows
pub mod Copying
pub mod Tests
use caronte.Prelude.{
  ℕ, suc, Bool, true, false, not, ◌&&◌, List, [], ◌∷◌, ◌++◌, Option, none, some, map, any, filter,
  find, get_elem?, without_at, String, Text, ◌==◌, nat_comparable, if◌then◌else◌,
}
use caronte.Streams.Messages.{Message, Action, copy, render_html, connections_actions}

-- A window that the pane opened.
pub record Page : Type 0 where
  pub id : ℕ
  pub closed : Bool
  pub html : Text

-- `copied` is whether the button says so; `instance` tells a mounted dialog from earlier ones.
pub record Dialog : Type 0 where
  pub instance : ℕ
  pub value : Text
  pub copied : Bool
  pub timeout_handle : Option ℕ

-- A timer that takes the text of the button back, for the dialog that started it.
pub record Timer : Type 0 where
  pub handle : ℕ
  pub owner : ℕ

-- The state of the pane and its dialog, beside the windows, the pending timers and the clipboard.
pub record State : Type 0 where
  pub render_window : Option ℕ
  pub message_action_dialog : Option Dialog
  pub windows : List Page
  pub timers : List Timer
  pub clipboard : Option Text
  pub next : ℕ

abbrev pub start : State
start = record {
  render_window = none;
  message_action_dialog = none;
  windows = [];
  timers = [];
  clipboard = none;
  next = 1;
}

-- `!window.closed`
unfoldable pub is_open : ℕ → List Page → Bool
is_open id ws = any (λ (w : Page). w.id == id && not w.closed) ws

unfoldable pub close : ℕ → List Page → List Page
close id ws = map (λ (w : Page). if w.id == id then record w { closed = true } else w) ws

unfoldable pub write : ℕ → Text → List Page → List Page
write id html ws = map (λ (w : Page). if w.id == id then record w { html = html } else w) ws

-- A window that the browser does not let through is null, and writing to it throws.
unfoldable pub open_window : Bool → Text → State → State
open_window true html s = record s {
  render_window = some s.next;
  windows = s.windows ++ record { id = s.next; closed = false; html = html } ∷ [];
  next = suc s.next;
}
open_window false html s = record s { render_window = none }

-- `allowed` is whether the browser lets a window through.
unfoldable pub show_html : Bool → Text → State → State
unfolding is_open write open_window
show_html allowed html s = elim s.render_window [
  | none ↦ open_window allowed html s
  | some id ↦
      if is_open id s.windows
      then record s { windows = write id html s.windows }
      else open_window allowed html s
]

unfoldable pub close_render_window : State → State
unfolding close
close_render_window s = elim s.render_window [
  | none ↦ s
  | some id ↦ record s { windows = close id s.windows }
]

-- A dialog that is mounted already keeps its state, and gets the value.
unfoldable pub show_copy_dialog : Text → State → State
show_copy_dialog value s = elim s.message_action_dialog [
  | none ↦ record s {
    message_action_dialog =
        some (record { instance = s.next; value = value; copied = false; timeout_handle = none });
    next = suc s.next;
  }
  | some d ↦ record s { message_action_dialog = some (record d { value = value }) }
]

module _ (to_lower : String → String) (sanitize : Text → Text) where
  unfoldable pub act : Bool → Option Action → State → State
  unfolding show_html show_copy_dialog
  act allowed none s = s
  act allowed (some (copy name value)) s = show_copy_dialog value s
  act allowed (some (render_html body)) s = show_html allowed (sanitize body) s

  -- The button at a place beside a message.
  unfoldable pub press : Bool → Message → ℕ → State → State
  unfolding act connections_actions
  press allowed c i s = act allowed (get_elem? (connections_actions to_lower c) i) s

-- `copyActionValue`, and the other handlers of the dialog.
unfoldable pub copy_action_value : State → State
copy_action_value s = elim s.message_action_dialog [
  | none ↦ s
  | some d ↦ record s {
    clipboard = some d.value;
    message_action_dialog = some (record d { copied = true; timeout_handle = some s.next });
    timers = s.timers ++ record { handle = s.next; owner = d.instance } ∷ [];
    next = suc s.next;
  }
]

unfoldable pub clear_timeout : Option ℕ → List Timer → List Timer
clear_timeout none ts = ts
clear_timeout (some h) ts = filter (λ (t : Timer). not (t.handle == h)) ts

-- `onHide`, and `componentWillUnmount` of the dialog.
unfoldable pub hide_dialog : State → State
unfolding clear_timeout
hide_dialog s = elim s.message_action_dialog [
  | none ↦ s
  | some d ↦ record s {
    message_action_dialog = none;
    timers = clear_timeout d.timeout_handle s.timers;
  }
]

-- The timer's update reaches a dialog that is still mounted.
unfoldable pub take_back : Timer → Option Dialog → Option Dialog
take_back t none = none
take_back t (some d) = if d.instance == t.owner then some (record d { copied = false }) else some d

-- The timer at a place fires.
unfoldable pub fire : ℕ → State → State
unfolding take_back
fire i s = elim (get_elem? s.timers i) [
  | none ↦ s
  | some t ↦ record s {
    message_action_dialog = take_back t s.message_action_dialog;
    timers = without_at i s.timers;
  }
]

-- What happens: `left` is a change of the connection or the format, or the end of the pane;
-- `user_closed` closes a window from outside.
pub data Event : Type 0 where
  pressed : Bool → Message → ℕ → Event
  copy_pressed hidden left : Event
  fired user_closed : ℕ → Event

module _ (to_lower : String → String) (sanitize : Text → Text) where
  unfoldable pub step : Event → State → State
  unfolding press copy_action_value hide_dialog fire close close_render_window
  step (pressed allowed c i) s = press to_lower sanitize allowed c i s
  step copy_pressed s = copy_action_value s
  step hidden s = hide_dialog s
  step left s = close_render_window s
  step (fired h) s = fire h s
  step (user_closed id) s = record s { windows = close id s.windows }

  unfoldable pub run : List Event → State → State
  unfolding step
  run [] s = s
  run (e ∷ es) s = run es (step e s)
