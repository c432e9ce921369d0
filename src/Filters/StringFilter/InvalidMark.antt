-- ===== src/Filters/StringFilter/InvalidMark.antt =====
-- The mark of an invalid input of frontend/src/components/filters/StringConnectionsFilter.js.
use caronte.Prelude.{
  true, ◌≡◌, Option, none, some, option_comparable, list_comparable, nat_comparable, Text, arith,
  inl, inr, Option-cases,
}
use caronte.Filters.StringFilter.{
  Props, State, Payload, entry, receive_value, connections_filters_callback,
}

module _ (props : Props) where
  receive-invalid :
      (v : Option Text) (s : State)
      → s.invalid_value ≡ true
      → (receive_value props v s).invalid_value ≡ true
  unfolding receive_value
  receive-invalid none s h = ground arith
  receive-invalid (some v) s h = ground arith

  -- No payload, with a valid value or null for the filter or without it, takes the mark of an
  -- earlier invalid input off.
  invalid-callback :
      (p : Payload) (s : State)
      → s.invalid_value ≡ true
      → (connections_filters_callback props p s).invalid_value ≡ true
  unfolding connections_filters_callback
  invalid-callback p s h = elim (Option-cases (entry props.filter_name p)) [
    | inl e ↦ rw (e, connections_filters_callback) h
    | inr (v, e) ↦ rw (e, connections_filters_callback) (receive-invalid v s h)
  ]
