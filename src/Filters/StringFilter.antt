-- ===== src/Filters/StringFilter.antt =====
-- frontend/src/components/filters/StringConnectionsFilter.js: a text field whose value becomes a
-- filter half a second after the last key. `setState` takes effect at once here; where React
-- batches it, the component's own callback repeats the same update.
pub mod Debounce
pub mod Validity
pub mod InvalidMark
use caronte.Prelude.{
  ℕ, suc, String, Bool, true, false, not, ◌&&◌, List, [], ◌∷◌, ◌++◌, Option, none, some, find,
  filter, Comparable, ◌==◌, nat_comparable, string_comparable, list_comparable, option_comparable,
  if◌then◌else◌, Text,
}

-- The component's properties; a function that is not given is `none`.
pub record Props : Type 0 where
  pub filter_name : String
  pub decode_func : Option (Text → Text)
  pub replace_func : Option (Text → Text)
  pub validate_func : Option (Text → Bool)
  pub encode_func : Option (Text → Text)

-- A timer that will set and send the value.
pub record Timeout : Type 0 where
  pub handle : ℕ
  pub value : Text

-- The state of the component, the timers that are pending, and the values that were sent.
pub record State : Type 0 where
  pub field_value : Text
  pub filter_value : Option Text
  pub timeout_handle : Option ℕ
  pub invalid_value : Bool
  pub pending : List Timeout
  pub next_handle : ℕ
  pub sent : List (Option Text)

abbrev pub initial : State
initial = record {
  field_value = [];
  filter_value = none;
  timeout_handle = none;
  invalid_value = false;
  pending = [];
  next_handle = 1;
  sent = [];
}

-- A payload of `connections_filters`: `none` is null.
abbrev pub Payload : Type 0
Payload = List (String × Option Text)

-- `payload[name]` for a name in the payload.
unfoldable pub entry : String → Payload → Option (Option Text)
entry name [] = none
entry name ((n, v) ∷ p) = if n == name then some v else entry name p

abbrev pub apply_func : Option (Text → Text) → Text → Text
apply_func none x = x
apply_func (some f) x = f x

unfoldable pub clear_timeout : Option ℕ → List Timeout → List Timeout
clear_timeout none ts = ts
clear_timeout (some h) ts = filter (λ t. not (t.handle == h)) ts

module _ (props : Props) where
  unfoldable pub is_value_valid : Text → Bool
  is_value_valid value = elim props.validate_func [ none ↦ true | some f ↦ f value ]

  unfoldable pub update_state_from_filter_value : Option Text → State → State
  unfolding is_value_valid
  update_state_from_filter_value none s = record s { field_value = []; filter_value = none }
  update_state_from_filter_value (some filter_value) s =
      let field_value = apply_func props.replace_func (apply_func props.decode_func filter_value) in
      if is_value_valid field_value
      then record s { field_value = field_value; filter_value = some filter_value }
      else record s { field_value = field_value; invalid_value = true }

  unfoldable pub component_did_mount : Option Text → State → State
  unfolding update_state_from_filter_value
  component_did_mount param s = update_state_from_filter_value param s

  -- The callback's update, for a payload that has the filter's name.
  unfoldable pub receive_value : Option Text → State → State
  unfolding update_state_from_filter_value
  receive_value v s = if s.filter_value == v then s else update_state_from_filter_value v s

  unfoldable pub connections_filters_callback : Payload → State → State
  unfolding receive_value entry
  connections_filters_callback payload s = elim (entry props.filter_name payload) [
    | none ↦ s
    | some v ↦ receive_value v s
  ]

  -- The dispatch reaches this component too.
  unfoldable pub change_filter_value : Option Text → State → State
  unfolding connections_filters_callback
  change_filter_value value s =
      connections_filters_callback ((props.filter_name, value) ∷ [])
        (record s { sent = s.sent ++ value ∷ [] })

  -- `filterChanged`, behind the clearing of the timer and the replacement of the value.
  unfoldable pub accept_value : Text → State → State
  unfolding change_filter_value is_value_valid
  accept_value [] s =
      change_filter_value none
        (record s { field_value = []; filter_value = none; invalid_value = false })
  accept_value (c ∷ cs) s =
      let field_value : Text = c ∷ cs in
      let timeout : Timeout = record {
        handle = s.next_handle;
        value = apply_func props.encode_func field_value;
      } in
      if is_value_valid field_value
      then record s {
        field_value = field_value;
        timeout_handle = some s.next_handle;
        invalid_value = false;
        pending = s.pending ++ timeout ∷ [];
        next_handle = suc s.next_handle;
      }
      else record s { field_value = field_value; invalid_value = true }

  unfoldable pub filter_changed : Text → State → State
  unfolding accept_value clear_timeout
  filter_changed field_value s =
      accept_value (apply_func props.replace_func field_value)
        (record s { pending = clear_timeout s.timeout_handle s.pending })

  -- The timer of that handle fires.
  unfoldable pub fire : ℕ → State → State
  unfolding clear_timeout
  fire handle s = elim (find (λ t. t.handle == handle) s.pending) [
    | none ↦ s
    | some t ↦
        change_filter_value (some t.value) (record s {
          filter_value = some t.value;
          pending = clear_timeout (some handle) s.pending;
        })
  ]

  pub data Event : Type 0 where
    input : Text → Event
    payload : Payload → Event
    timer : ℕ → Event

  unfoldable pub step : Event → State → State
  unfolding filter_changed connections_filters_callback fire change_filter_value
  step (input text) s = filter_changed text s
  step (payload p) s = connections_filters_callback p s
  step (timer h) s = fire h s

  -- A history of the mounted component, oldest event first.
  unfoldable pub run : List Event → State → State
  unfolding step
  run [] s = s
  run (e ∷ es) s = run es (step e s)
