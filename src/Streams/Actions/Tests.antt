-- ===== src/Streams/Actions/Tests.antt =====
-- The buttons of a request with a reproducer and of an answer that is a page.
use caronte.Prelude.{
  ◌≡◌, refl, true, false, List, [], ◌∷◌, ◌++◌, none, some, map, String, Text, text, All,
}
use caronte.Streams.Messages.{Message, http_request, http_response}
use caronte.Streams.Actions.{
  Timer, State, start, close_render_window, Event, pressed, copy_pressed, fired, user_closed, run,
}
use caronte.Streams.Actions.Windows.{IsClosed, IsSafe, run-IsSafe}
use caronte.Streams.Actions.Copying.{IsSettling, run-IsSettling}

abbrev same : String → String
same k = k

abbrev framed : Text → Text
framed t = text "<p>" ++ t

abbrev requested : Message
requested = record {
  from_client = true;
  content = [];
  metadata = some (
      http_request (record {
        method = text "GET";
        host = [];
        url = text "/";
        protocol = text "HTTP/1.1";
        headers = none;
        body = [];
        trailers = none;
        reproducers = some (("curl", text "curl /") ∷ []);
      }));
  is_metadata_continuation = false;
}

abbrev page : Text → Message
page body = record {
  from_client = false;
  content = [];
  metadata = some (
      http_response (record {
        protocol = text "HTTP/1.1";
        status = text "200 OK";
        headers = some (("Content-Type", text "text/html") ∷ []);
        body = body;
        trailers = none;
      }));
  is_metadata_continuation = false;
}

-- Two answers in one window, which the user closes, and a third in another one.
abbrev viewing : List Event
viewing =
    pressed true (page (text "a")) 0
    ∷ pressed true (page (text "b")) 0
    ∷ user_closed 1
    ∷ pressed true (page (text "c")) 0
    ∷ []

abbrev viewed : State
viewed = run same framed viewing start

run-IsSafe_example : IsSafe same framed viewed × All IsClosed (close_render_window viewed).windows
run-IsSafe_example = run-IsSafe same framed viewing

viewed-windows :
    viewed.windows
    ≡ record { id = 1; closed = true; html = text "<p>b" }
      ∷ record { id = 2; closed = false; html = text "<p>c" }
      ∷ []
unfolding run
viewed-windows = refl

-- The text is copied twice, and the first timer fires.
abbrev copying : List Event
copying = pressed true requested 0 ∷ copy_pressed ∷ copy_pressed ∷ fired 0 ∷ []

abbrev copied_twice : State
copied_twice = run same framed copying start

run-IsSettling_example : IsSettling copied_twice
run-IsSettling_example = run-IsSettling same framed copying

-- The second press is forgotten with the first one's timer.
copied_twice-dialog : map (λ (t : Timer). t.handle) copied_twice.timers ≡ 3 ∷ []
unfolding run
copied_twice-dialog = refl

copied_twice-text :
    copied_twice.message_action_dialog
    ≡ some (record { instance = 1; value = text "curl /"; copied = false; timeout_handle = some 3 })
unfolding run
copied_twice-text = refl
