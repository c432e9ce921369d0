-- ===== src/Filters/StringFilter/Validity.antt =====
-- The values that frontend/src/components/filters/StringConnectionsFilter.js lets through.
use caronte.Prelude.{
  All-filter, All-append_one, ℕ, Bool, true, false, not, ◌≡◌, subst, List, [], ◌∷◌, ◌++◌, Option,
  none, some, find, ◌==◌, nat_comparable, string_comparable, list_comparable, option_comparable,
  Text, arith, Bool-cases, Option-cases, inl, inr, All,
}
use caronte.Filters.StringFilter.{
  Props, Timeout, State, Payload, entry, apply_func, clear_timeout, is_value_valid,
  update_state_from_filter_value, receive_value, connections_filters_callback, change_filter_value,
  accept_value, filter_changed, fire, Event, input, payload, timer, step, run,
}

module _ (props : Props) where
  -- The field's text for a filter value.
  abbrev pub shown : Text → Text
  shown v = apply_func props.replace_func (apply_func props.decode_func v)

  -- The value is one that the filter shows and accepts; null always is.
  abbrev pub Accepts : Option Text → Type 0
  Accepts none = Unit
  Accepts (some v) = is_value_valid props (shown v) ≡ true

  -- The active value, the waiting ones and those that were sent are all accepted.
  pub record IsAccepted (s : State) : Type 0 where
    pub active : Accepts s.filter_value
    pub waiting : All (λ (t : Timeout). Accepts (some t.value)) s.pending
    pub sent : All Accepts s.sent

  All-clear :
      (h : Option ℕ) (ts : List Timeout)
      → All (λ (t : Timeout). Accepts (some t.value)) ts
      → All (λ (t : Timeout). Accepts (some t.value)) (clear_timeout h ts)
  unfolding clear_timeout
  All-clear none ts k = k
  All-clear (some h) ts k = All-filter _ (λ t. not (t.handle == h)) ts k

  All-find :
      (p : Timeout → Bool) (ts : List Timeout) (t : Timeout)
      → find p ts ≡ some t
      → All (λ (t : Timeout). Accepts (some t.value)) ts
      → Accepts (some t.value)
  All-find p [] t e h = cc
  All-find p (u ∷ ts) t e h = elim (Bool-cases (p u)) [
    | inl q ↦
        (let same : u ≡ t = ground arith in
          subst (λ (y : Timeout). Accepts (some y.value)) same h.0)
    | inr q ↦ All-find p ts t (rw q at e) h.1
  ]

  update-IsAccepted :
      (v : Option Text) (s : State)
      → IsAccepted s
      → IsAccepted (update_state_from_filter_value props v s)
  unfolding update_state_from_filter_value
  update-IsAccepted none s a = record { active = tt; waiting = a.waiting; sent = a.sent }
  update-IsAccepted (some v) s a = elim (Bool-cases (is_value_valid props (shown v))) [
    | inl e ↦ rw e (record { active = e; waiting = a.waiting; sent = a.sent })
    | inr e ↦ rw e (record { active = a.active; waiting = a.waiting; sent = a.sent })
  ]

  receive-IsAccepted :
      (v : Option Text) (s : State) → IsAccepted s → IsAccepted (receive_value props v s)
  unfolding receive_value
  receive-IsAccepted v s a = elim (Bool-cases (s.filter_value == v)) [
    | inl e ↦ rw e a
    | inr e ↦ rw e (update-IsAccepted v s a)
  ]

  callback-IsAccepted :
      (p : Payload) (s : State) → IsAccepted s → IsAccepted (connections_filters_callback props p s)
  unfolding connections_filters_callback
  callback-IsAccepted p s a = elim (Option-cases (entry props.filter_name p)) [
    | inl e ↦ rw (e, connections_filters_callback) a
    | inr (v, e) ↦ rw (e, connections_filters_callback) (receive-IsAccepted v s a)
  ]

  change-IsAccepted :
      (v : Option Text) (s : State)
      → Accepts v
      → IsAccepted s
      → IsAccepted (change_filter_value props v s)
  unfolding change_filter_value
  change-IsAccepted v s k a =
      callback-IsAccepted ((props.filter_name, v) ∷ []) (record s { sent = s.sent ++ v ∷ [] })
        (record {
          active = a.active;
          waiting = a.waiting;
          sent = All-append_one Accepts s.sent v a.sent k;
        })

  -- A field's text that passes is still accepted when it comes back as a filter value.
  abbrev pub Returns : Type 0
  Returns =
      (x : Text)
      → is_value_valid props (apply_func props.replace_func x) ≡ true
      → Accepts (some (apply_func props.encode_func (apply_func props.replace_func x)))

  accept_cases :
      (v : Text) (s : State)
      → IsAccepted s
      → (is_value_valid props v ≡ true → Accepts (some (apply_func props.encode_func v)))
      → IsAccepted (accept_value props v s)
  unfolding accept_value
  accept_cases [] s a h =
      change-IsAccepted none
        (record s { field_value = []; filter_value = none; invalid_value = false }) tt
        (record { active = tt; waiting = a.waiting; sent = a.sent })
  accept_cases (c ∷ cs) s a h = elim (Bool-cases (is_value_valid props (c ∷ cs))) [
    | inl e ↦ rw e (record {
      active = a.active;
      waiting = All-append_one _ s.pending _ a.waiting (h e);
      sent = a.sent;
    })
    | inr e ↦ rw e (record { active = a.active; waiting = a.waiting; sent = a.sent })
  ]

  module _ (returns : Returns) where
    accept-IsAccepted :
        (x : Text) (s : State)
        → IsAccepted s
        → IsAccepted (accept_value props (apply_func props.replace_func x) s)
    accept-IsAccepted x s a = accept_cases (apply_func props.replace_func x) s a (returns x)

    filter_changed-IsAccepted :
        (x : Text) (s : State) → IsAccepted s → IsAccepted (filter_changed props x s)
    unfolding filter_changed
    filter_changed-IsAccepted x s a =
        accept-IsAccepted x (record s { pending = clear_timeout s.timeout_handle s.pending })
          (record {
            active = a.active;
            waiting = All-clear s.timeout_handle s.pending a.waiting;
            sent = a.sent;
          })

    fire-IsAccepted : (h : ℕ) (s : State) → IsAccepted s → IsAccepted (fire props h s)
    unfolding fire
    fire-IsAccepted h s a = elim (Option-cases (find (λ t. t.handle == h) s.pending)) [
      | inl e ↦ rw (e, fire) a
      | inr (t, e) ↦
          let k = All-find (λ t. t.handle == h) s.pending t e a.waiting in
          rw (e, fire)
            (change-IsAccepted (some t.value)
              (record s { filter_value = some t.value; pending = clear_timeout (some h) s.pending })
              k
              (record {
                active = k;
                waiting = All-clear (some h) s.pending a.waiting;
                sent = a.sent;
              }))
    ]

    step-IsAccepted : (e : Event props) (s : State) → IsAccepted s → IsAccepted (step props e s)
    unfolding step
    step-IsAccepted (input x) s a = filter_changed-IsAccepted x s a
    step-IsAccepted (payload p) s a = callback-IsAccepted p s a
    step-IsAccepted (timer h) s a = fire-IsAccepted h s a

    -- After any history, every value that the filter has, keeps waiting or has sent is one that it
    -- accepts, if a field's text that passes is still accepted when it comes back.
    pub run-IsAccepted :
        (es : List (Event props)) (s : State) → IsAccepted s → IsAccepted (run props es s)
    unfolding run
    run-IsAccepted [] s a = a
    run-IsAccepted (e ∷ es) s a = run-IsAccepted es (step props e s) (step-IsAccepted e s a)
